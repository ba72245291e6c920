-- ===== src/Server/Auth/Keys.antt =====
-- src/server/auth.rs: which tokens authenticate.
use Prim.Native.String.{◌++◌ as append}
use mathlib.Core.List.{Memᴰ}
use rs_llmctl.Base.{
  ℕ, ◌<◌, String, true, false, Option, none, some, ◌≡◌, refl, subst, sym, ap, ◌∙◌, ◌⊎◌, inl, inr,
  arith, str_eq, eq_iff, Bool-cases, Option-cases, filter,
}
use rs_llmctl.Base.Members.{Mem-filter, filter-Mem, find-some, find-none}
use rs_llmctl.Base.Texts.{strip_prefix}
use rs_llmctl.Base.Texts.Laws.{strip_prefix-append, strip_prefix-some}
use rs_llmctl.Server.Auth.{
  ApiKeyConfig, SecurityConfig, Authenticated, ok, err, anonymous, principal_of, authenticate,
  authenticate_header, authenticate_token, is_later, key_of_token, api_key_can_authenticate,
  constant_time_eq_case_insensitive,
}

-- An expiry is in the future.
abbrev pub Unexpired : ℕ → Option ℕ → Type 0
Unexpired now none = Unit
Unexpired now (some expires_at) = now < expires_at

-- The key is configured, active or retiring, unexpired, and has the digest, in either case.
pub record Admits (cfg : SecurityConfig) (digest : String) (now : ℕ) (key : ApiKeyConfig)
    : Type 0 where
  pub listed : Memᴰ key cfg.api_keys
  pub usable : (key.status ≡ "active") ⊎ (key.status ≡ "retiring")
  pub unexpired : Unexpired now key.expires_at
  pub same_digest : constant_time_eq_case_insensitive key.sha256 digest ≡ true

is_later-Unexpired : (now : ℕ) (o : Option ℕ) → is_later now o ≡ true → Unexpired now o
is_later-Unexpired now none h = tt
is_later-Unexpired now (some t) h = ground arith

Unexpired-is_later : (now : ℕ) (o : Option ℕ) → Unexpired now o → is_later now o ≡ true
Unexpired-is_later now none h = refl
Unexpired-is_later now (some t) h = ground arith

abbrev Usable : ApiKeyConfig → Type 0
Usable key = (key.status ≡ "active") ⊎ (key.status ≡ "retiring")

module _ (now : ℕ) (key : ApiKeyConfig) where
  key_parts : api_key_can_authenticate now key ≡ true → Usable key × Unexpired now key.expires_at
  unfolding api_key_can_authenticate
  key_parts h = elim (Bool-cases (str_eq key.status "active")) [
    | inl active ↦
        (inl ((eq_iff _ _).0 active), is_later-Unexpired now key.expires_at (ground arith))
    | inr other ↦ elim (Bool-cases (str_eq key.status "retiring")) [
      | inl retiring ↦
          (inr ((eq_iff _ _).0 retiring), is_later-Unexpired now key.expires_at (ground arith))
      | inr neither ↦ absurd (ground arith)
    ]
  ]

  can_of : Usable key → Unexpired now key.expires_at → api_key_can_authenticate now key ≡ true
  unfolding api_key_can_authenticate
  can_of (inl active) u =
      ground (arith, (eq_iff key.status "active").1 active, Unexpired-is_later now key.expires_at u)
  can_of (inr retiring) u =
      ground
        (arith, (eq_iff key.status "retiring").1 retiring, Unexpired-is_later now key.expires_at u)

abbrev bearer : String → Option String
bearer token = some (append "Bearer " token)

same_token : (s t : String) → bearer t ≡ bearer s → s ≡ t
same_token s t h =
    let texts : append "Bearer " t ≡ append "Bearer " s = cc in
    let stripped =
      sym (strip_prefix-append "Bearer " s)
      ∙ ap (strip_prefix "Bearer ") (sym texts)
      ∙ strip_prefix-append "Bearer " t in
    cc

not_prefixed :
    (header token : String) → strip_prefix "Bearer " header ≡ none → some header ≡ bearer token → ⊥
not_prefixed header token h e =
    let same : header ≡ append "Bearer " token = cc in
    let found = ap (strip_prefix "Bearer ") same ∙ strip_prefix-append "Bearer " token in
    absurd (cc)

module _ (sha256_hex : String → String) where
  pub key_of_token-some :
      (cfg : SecurityConfig) (token : String) (now : ℕ) (key : ApiKeyConfig)
      → key_of_token sha256_hex cfg token now ≡ some key
      → Admits cfg (sha256_hex token) now key
  unfolding key_of_token
  key_of_token-some cfg token now key h =
      let (member, same) = find-some _ key (filter (api_key_can_authenticate now) cfg.api_keys) h in
      let (listed, can) = Mem-filter (api_key_can_authenticate now) key cfg.api_keys member in
      let (usable, unexpired) = key_parts now key can in
      record { listed = listed; usable = usable; unexpired = unexpired; same_digest = same }

  pub key_of_token-none :
      (cfg : SecurityConfig) (token : String) (now : ℕ)
      → key_of_token sha256_hex cfg token now ≡ none
      → (key : ApiKeyConfig) → ¬ Admits cfg (sha256_hex token) now key
  unfolding key_of_token
  key_of_token-none cfg token now h key a =
      let member =
        filter-Mem (api_key_can_authenticate now) key cfg.api_keys a.listed
          (can_of now key a.usable a.unexpired) in
      let differs = find-none _ key (filter (api_key_can_authenticate now) cfg.api_keys) h member in
      absurd (cc (a.same_digest))

  -- Who a header authenticates, and when it is refused.
  abbrev pub AuthenticatedRight : SecurityConfig → Option String → ℕ → Authenticated → Type 0
  AuthenticatedRight cfg header now (ok principal) =
      ((cfg.require_auth ≡ false) × (principal ≡ anonymous))
      ⊎ ((token : String) × (key : ApiKeyConfig) × (header ≡ some (append "Bearer " token))
          × Admits cfg (sha256_hex token) now key
          × (principal ≡ principal_of key))
  AuthenticatedRight cfg header now (err reason) =
      (cfg.require_auth ≡ true)
      × ((token : String)
          → header ≡ some (append "Bearer " token)
          → (key : ApiKeyConfig) → ¬ Admits cfg (sha256_hex token) now key)

  authenticate_token-Right :
      (cfg : SecurityConfig) (token : String) (now : ℕ)
      → cfg.require_auth ≡ true
      → AuthenticatedRight cfg
          (bearer token)
          now
          (authenticate_token sha256_hex cfg now (some token))
  authenticate_token-Right cfg token now r =
      elim (Option-cases (key_of_token sha256_hex cfg token now)) [
        | inl no_key ↦
            rw (no_key, authenticate_token)
              (
                r,
                λ t h key a.
                    key_of_token-none cfg token now no_key key
                      (subst (λ x. Admits cfg (sha256_hex x) now key) (same_token t token h) a),
              )
        | inr (key, found) ↦
            rw (found, authenticate_token)
              (inr (token, key, refl, key_of_token-some cfg token now key found, refl))
      ]

  authenticate_header-Right :
      (cfg : SecurityConfig) (header : Option String) (now : ℕ)
      → cfg.require_auth ≡ true
      → AuthenticatedRight cfg header now (authenticate_header sha256_hex cfg now header)
  authenticate_header-Right cfg none now r = (r, λ token h key a. absurd (cc))
  authenticate_header-Right cfg (some header) now r =
      elim (Option-cases (strip_prefix "Bearer " header)) [
        | inl none_stripped ↦
            rw none_stripped (r, λ token h key a. not_prefixed header token none_stripped h)
        | inr (token, stripped) ↦ rw stripped (
            subst
              (λ h.
                AuthenticatedRight cfg (some h) now
                  (authenticate_token sha256_hex cfg now (some token)))
              (sym (strip_prefix-some "Bearer " header token stripped))
              (authenticate_token-Right cfg token now r))
      ]

  authenticate-required :
      (cfg : SecurityConfig) (header : Option String) (now : ℕ)
      → cfg.require_auth ≡ true
      → authenticate sha256_hex cfg header now ≡ authenticate_header sha256_hex cfg now header
  unfolding authenticate
  authenticate-required cfg header now r = ground arith

  pub authenticate-open :
      (cfg : SecurityConfig) (header : Option String) (now : ℕ)
      → cfg.require_auth ≡ false
      → authenticate sha256_hex cfg header now ≡ ok anonymous
  unfolding authenticate
  authenticate-open cfg header now r = ground arith

  -- Where authentication is required, a request acts for the principal of a key exactly when its
  -- header is `Bearer ` and a token whose digest is that of a configured key that is active or
  -- retiring and has not expired; in every other case it is refused. Where it is not required,
  -- every request acts for the anonymous principal.
  pub authenticate-AuthenticatedRight :
      (cfg : SecurityConfig) (header : Option String) (now : ℕ)
      → AuthenticatedRight cfg header now (authenticate sha256_hex cfg header now)
  authenticate-AuthenticatedRight cfg header now = elim (Bool-cases cfg.require_auth) [
    | inl r ↦
        rw (authenticate-required cfg header now r) (authenticate_header-Right cfg header now r)
    | inr r ↦ rw (authenticate-open cfg header now r) (inl (r, refl))
  ]

-- ===== src/Security/Keys.antt =====
-- src/security.rs with src/server/auth.rs: the keys of a configuration that was accepted.
use mathlib.Core.List.{Memᴰ}
use mathlib.Core.List.Memᴰ
use rs_llmctl.Base.{
  ℕ, Bool, true, false, not, ◌&&◌, ◌≡◌, refl, sym, ap, ◌∙◌, inl, inr, List, [], ◌∷◌, is_empty,
  str_eq, eq_iff, arith, if◌then◌else◌,
}
use rs_llmctl.Server.Auth.{ApiKeyConfig, is_later, api_key_can_authenticate}
use rs_llmctl.Server.Sources.{Addresses}
use rs_llmctl.Security.{
  PostureConfig, Checked, ok, err, Violation, ◌then_check◌, ensure, each, is_known_status,
  check_last_four, check_fingerprint, validate_metadata, validate_active, validate_api_key_metadata,
  validate_api_keys_for_active_serving, validate_api_keys_are_hashes, is_exposed, validate_exposed,
  validate_production_security, validate_api_key_scopes,
  validate_no_plaintext_observability_secrets, validate_native_tls_config,
  validate_external_provider_security, validate_trusted_proxy, no_authentication, key_status,
  key_revoked, key_expired,
}

-- Both checks passed.
then_check-ok : (a b : Checked) → a then_check b ≡ ok → (a ≡ ok) × (b ≡ ok)
then_check-ok ok b h = (refl, h)
then_check-ok (err v) b h = absurd (cc)

ensure-ok : (b : Bool) (v : Violation) → ensure b v ≡ ok → b ≡ true
ensure-ok true v h = refl
ensure-ok false v h = absurd (cc)

not-false : (b : Bool) → not b ≡ true → b ≡ false
not-false b h = grind arith

and-left : (a b : Bool) → a && b ≡ true → a ≡ true
and-left a b h = grind arith

each-ok {ℓ} :
    {A : Type ℓ} (check : A → Checked) (xs : List A) (x : A)
    → each check xs ≡ ok
    → Memᴰ x xs
    → check x ≡ ok
each-ok check [] x h m = absurd (Memᴰ.not-nil m)
each-ok check (y ∷ ys) x h m =
    let (here, rest) = then_check-ok (check y) (each check ys) h in
    elim (Memᴰ.cases_cons m) [
      | inl same ↦ ap check same ∙ here
      | inr later ↦ each-ok check ys x rest later
    ]

-- A status that is known and is not revoked, and an expiry that is not over.
active-can_authenticate :
    (now : ℕ) (key : ApiKeyConfig)
    → is_known_status key.status ≡ true
    → str_eq key.status "revoked" ≡ false
    → is_later now key.expires_at ≡ true
    → api_key_can_authenticate now key ≡ true
unfolding api_key_can_authenticate
active-can_authenticate now key known kept later = ground (
  arith,
  eq_iff "active" key.status,
  eq_iff key.status "active",
  eq_iff "retiring" key.status,
  eq_iff key.status "retiring",
  eq_iff "revoked" key.status,
  eq_iff key.status "revoked",
)

validate_active-can_authenticate :
    (now : ℕ) (key : ApiKeyConfig)
    → validate_metadata key ≡ ok
    → validate_active now key ≡ ok
    → api_key_can_authenticate now key ≡ true
validate_active-can_authenticate now key m a =
    let (known, _) =
      then_check-ok (ensure (is_known_status key.status) (key_status key.id))
        (check_last_four key.id key.last_four then_check check_fingerprint key.id key.fingerprint)
        m in
    let (kept, later) =
      then_check-ok (ensure (not (str_eq key.status "revoked")) (key_revoked key.id))
        (ensure (is_later now key.expires_at) (key_expired key.id)) a in
    active-can_authenticate now key
      (ensure-ok (is_known_status key.status) (key_status key.id) known)
      (not-false (str_eq key.status "revoked") (ensure-ok _ (key_revoked key.id) kept))
      (ensure-ok (is_later now key.expires_at) (key_expired key.id) later)

-- What an accepted configuration passed: the checks of the keys' metadata, and those of exposure.
validate_production_security-parts :
    (net : Addresses) (now : ℕ) (cfg : PostureConfig)
    → validate_production_security net now cfg ≡ ok
    → is_exposed cfg ≡ true
    → (validate_api_key_metadata cfg.security.api_keys ≡ ok) × (validate_exposed net now cfg ≡ ok)
unfolding validate_production_security
validate_production_security-parts net now cfg h e =
    let (_, h1) = then_check-ok (validate_api_keys_are_hashes [] cfg.security.api_keys) _ h in
    let (_, h2) = then_check-ok (validate_api_key_scopes cfg.security.api_keys) _ h1 in
    let (metadata, h3) = then_check-ok (validate_api_key_metadata cfg.security.api_keys) _ h2 in
    let (_, h4) = then_check-ok (validate_no_plaintext_observability_secrets cfg) _ h3 in
    let (_, h5) = then_check-ok (validate_native_tls_config cfg) _ h4 in
    let (_, h6) = then_check-ok (validate_external_provider_security cfg) _ h5 in
    (metadata, sym (ap (λ (b : Bool). if b then validate_exposed net now cfg else ok) e) ∙ h6)

-- What exposure asks for: authentication, and keys that are neither revoked nor expired.
validate_exposed-parts :
    (net : Addresses) (now : ℕ) (cfg : PostureConfig)
    → validate_exposed net now cfg ≡ ok
    → (cfg.security.require_auth ≡ true)
      × (validate_api_keys_for_active_serving now cfg.security.api_keys ≡ ok)
unfolding validate_exposed
validate_exposed-parts net now cfg h =
    let (first, h1) =
      then_check-ok
        (ensure (cfg.security.require_auth && not (is_empty cfg.security.api_keys))
          no_authentication)
        _ h in
    let (_, h2) =
      then_check-ok (each (validate_trusted_proxy net) cfg.security.trusted_proxies) _ h1 in
    let (active, _) =
      then_check-ok (validate_api_keys_for_active_serving now cfg.security.api_keys) _ h2 in
    (and-left cfg.security.require_auth _ (ensure-ok _ no_authentication first), active)

-- A configuration that is exposed and is accepted at a time requires authentication, and every one
-- of its keys can authenticate at that time.
pub validate_production_security-can_authenticate :
    (net : Addresses) (now : ℕ) (cfg : PostureConfig) (key : ApiKeyConfig)
    → validate_production_security net now cfg ≡ ok
    → is_exposed cfg ≡ true
    → Memᴰ key cfg.security.api_keys
    → (cfg.security.require_auth ≡ true) × (api_key_can_authenticate now key ≡ true)
unfolding validate_api_key_metadata validate_api_keys_for_active_serving
validate_production_security-can_authenticate net now cfg key h e m =
    let (metadata, exposed) = validate_production_security-parts net now cfg h e in
    let (required, active) = validate_exposed-parts net now cfg exposed in
    (
      required,
      validate_active-can_authenticate now key
          (each-ok validate_metadata cfg.security.api_keys key metadata m)
          (each-ok (validate_active now) cfg.security.api_keys key active m),
    )

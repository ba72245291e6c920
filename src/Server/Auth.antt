-- ===== src/Server/Auth.antt =====
-- src/server/auth.rs: which principal a request acts for. The header is the text of `authorization`,
-- where it has one. SHA-256, printed as hexadecimal digits, is the parameter `sha256_hex`. Times are
-- nanoseconds for the expiry of keys and milliseconds for the limiter, both arguments.
pub mod Keys
pub mod Limited
mod Examples
use Prim.Native.Char.{code}
use Prim.Native.String.{[] as empty, ◌∷◌ as prefix, len}
use rs_llmctl.Base.{
  ℕ, zero, suc, ◌+◌, String, Bool, true, false, not, ◌&&◌, ◌||◌, Option, none, some, List, [], ◌∷◌,
  find, filter, if◌then◌else◌, str_eq, ltb, leb, ◌==◌,
}
use rs_llmctl.Base.Texts.{strip_prefix, same_lowercase}
use rs_llmctl.Quota.Rows.{Principal}
use rs_llmctl.Traffic.AuthFailures.{AuthFailureLimiter, is_limited, record_failure, record_success}

pub record ApiKeyConfig : Type 0 where
  pub id : String
  pub sha256 : String
  pub subject : String
  pub team : String
  pub scopes : List String
  pub expires_at : Option ℕ
  pub owner : Option String
  pub purpose : Option String
  pub last_four : Option String
  pub fingerprint : Option String
  pub status : String

pub record TlsTerminationConfig : Type 0 where
  pub enabled : Bool
  pub provider : Option String
  pub evidence : Option String

pub record SecurityConfig : Type 0 where
  pub production : Bool
  pub bind_external : Bool
  pub tls_termination : TlsTerminationConfig
  pub require_auth : Bool
  pub auth_failure_limit_per_minute : ℕ
  pub trusted_proxies : List String
  pub api_keys : List ApiKeyConfig

-- `Principal::anonymous`
abbrev pub anonymous : Principal
anonymous = record {
  subject = "anonymous";
  team = "public";
  scopes = "chat" ∷ "models.read" ∷ [];
  key_id = none;
  key_owner = none;
  key_purpose = none;
  key_status = none;
}

unfoldable pub constant_time_eq_case_insensitive : String → String → Bool
constant_time_eq_case_insensitive left right =
    if not (len left == len right) then false else same_lowercase left right

abbrev pub is_later : ℕ → Option ℕ → Bool
is_later now none = true
is_later now (some expires_at) = ltb now expires_at

unfoldable pub api_key_can_authenticate : ℕ → ApiKeyConfig → Bool
api_key_can_authenticate now key =
    if not (str_eq key.status "active" || str_eq key.status "retiring")
    then false
    else is_later now key.expires_at

abbrev pub principal_of : ApiKeyConfig → Principal
principal_of key = record {
  subject = key.subject;
  team = key.team;
  scopes = key.scopes;
  key_id = some key.id;
  key_owner = key.owner;
  key_purpose = key.purpose;
  key_status = some key.status;
}

pub data Authenticated : Type 0 where
  ok : Principal → Authenticated
  err : String → Authenticated

abbrev pub missing_token : String
missing_token = "missing bearer token"

abbrev pub not_bearer : String
not_bearer = "authorization must use Bearer token"

abbrev pub invalid_token : String
invalid_token = "invalid bearer token"

abbrev pub too_many_failures : String
too_many_failures = "too many failed authentication attempts; retry later"

abbrev pub take_chars : ℕ → String → String
take_chars zero s = empty
take_chars (suc n) String.[] = empty
take_chars (suc n) (String.◌∷◌ c s) = prefix c (take_chars n s)

module _ (sha256_hex : String → String) where
  -- the first key that may authenticate and whose digest is the token's
  unfoldable pub key_of_token : SecurityConfig → String → ℕ → Option ApiKeyConfig
  key_of_token cfg token now =
      find (λ key. constant_time_eq_case_insensitive key.sha256 (sha256_hex token))
        (filter (api_key_can_authenticate now) cfg.api_keys)

  abbrev pub authenticate_token : SecurityConfig → ℕ → Option String → Authenticated
  authenticate_token cfg now none = err not_bearer
  authenticate_token cfg now (some token) = elim (key_of_token cfg token now) [
    | none ↦ err invalid_token
    | some key ↦ ok (principal_of key)
  ]

  abbrev pub authenticate_header : SecurityConfig → ℕ → Option String → Authenticated
  authenticate_header cfg now none = err missing_token
  authenticate_header cfg now (some header) =
      authenticate_token cfg now (strip_prefix "Bearer " header)

  unfoldable pub authenticate : SecurityConfig → Option String → ℕ → Authenticated
  authenticate cfg header now =
      if not cfg.require_auth then ok anonymous else authenticate_header cfg now header

  unfoldable pub auth_failure_key : String → String
  auth_failure_key source_key = take_chars 16 (sha256_hex source_key)

  abbrev pub record_result :
      String → ℕ → ℕ → Authenticated → AuthFailureLimiter → AuthFailureLimiter × Authenticated
  record_result key limit at (ok principal) l = (record_success key l, ok principal)
  record_result key limit at (err reason) l = (record_failure key limit at l, err reason)

  -- `at` is the limiter's time, `now` that of the keys
  unfoldable pub authenticate_request :
      SecurityConfig
      → Option String
      → String
      → ℕ
      → ℕ
      → AuthFailureLimiter
      → AuthFailureLimiter × Authenticated
  authenticate_request cfg header source_key at now l =
      let key = auth_failure_key source_key in
      let (l', limited) = is_limited key cfg.auth_failure_limit_per_minute at l in
      if limited
      then (l', err too_many_failures)
      else record_result key cfg.auth_failure_limit_per_minute at (authenticate cfg header now) l'

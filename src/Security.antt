-- ===== src/Security.antt =====
-- src/security.rs: the validation of a configuration's security posture. The texts of the errors are
-- the data type `Violation`, whose constructors hold the id, address or name that `format!` puts in,
-- without the status or scope that two of the texts also quote. A path is a text. The check of a new
-- secret (validate_api_secret_material), which counts bytes, is not modelled.
pub mod Keys
pub mod Proxies
mod Examples
use Prim.Native.Char.{code}
use Prim.Native.String.{len}
use text.Mathlib.Text.{starts_with}
use rs_llmctl.Base.{
  ℕ, String, Bool, true, false, not, ◌&&◌, ◌||◌, Option, none, some, List, [], ◌∷◌, contains,
  is_empty, if◌then◌else◌, str_eq, ltb, leb, ◌==◌,
}
use rs_llmctl.Base.Map.{Map}
use rs_llmctl.Base.Texts.{trim, contains_lowercase}
use rs_llmctl.Server.Auth.{ApiKeyConfig, SecurityConfig, is_later}
use rs_llmctl.Server.Sources.{Addresses, IpAddr, v4, v6, split_once}

pub record ServerTlsConfig : Type 0 where
  pub enabled : Bool
  pub cert_path : Option String
  pub key_path : Option String
  pub require_client_cert : Bool

pub record AuditConfig : Type 0 where
  pub retention_days : ℕ
  pub report_directory : Option String
  pub monthly_reports : Bool

pub record ObservabilityConfig : Type 0 where
  pub otlp_endpoint : Option String
  pub exporter_endpoint : Option String
  pub exporter_headers : Map String
  pub traces_enabled : Bool
  pub metrics_enabled : Bool
  pub logs_enabled : Bool

pub record PostureConfig : Type 0 where
  pub host : String
  pub tls : ServerTlsConfig
  pub security : SecurityConfig
  pub audit : AuditConfig
  pub observability : ObservabilityConfig
  pub external_providers_enabled : Bool

pub data Violation : Type 0 where
  no_authentication no_retention no_monthly_reports no_report_directory no_telemetry no_endpoint :
      Violation
  external_providers no_tls no_provider no_evidence no_trusted_proxies : Violation
  no_cert no_key client_cert : Violation
  proxy_wildcard : Violation
  proxy_address proxy_prefix proxy_range proxy_neither : String → Violation
  key_revoked key_expired key_repeated key_subject key_team key_digest : String → Violation
  key_status key_last_four key_fingerprint key_no_scope key_empty_scope key_scope :
      String → Violation
  key_empty_id : Violation
  plaintext_header : String → Violation

pub data Checked : Type 0 where
  ok : Checked
  err : Violation → Checked

-- `?` and then the next check
infixr 20 ◌then_check◌
abbrev pub ◌then_check◌ : Checked → Checked → Checked
ok then_check next = next
err violation then_check next = err violation

abbrev pub ensure : Bool → Violation → Checked
ensure true violation = ok
ensure false violation = err violation

-- a loop of checks
abbrev pub each {ℓ} : {A : Type ℓ} → (A → Checked) → List A → Checked
each check [] = ok
each check (x ∷ xs) = check x then_check each check xs

abbrev pub blank : String → Bool
blank s = str_eq (trim s) ""

-- `is_some_and(|text| !text.is_empty())`, and the same for a trimmed text
abbrev pub is_given : Option String → Bool
is_given none = false
is_given (some s) = not (str_eq s "")

abbrev pub is_written : Option String → Bool
is_written none = false
is_written (some s) = not (blank s)

unfoldable pub is_external_host : String → Bool
unfolding trim
is_external_host host =
    not
      (str_eq (trim host) "127.0.0.1" || str_eq (trim host) "localhost" || str_eq (trim host) "::1")

-- the bytes of a text that are not ASCII are no hexadecimal digits
abbrev pub all_chars : (ℕ → Bool) → String → Bool
all_chars p String.[] = true
all_chars p (String.◌∷◌ c s) = p (code c) && all_chars p s

abbrev pub is_digit : ℕ → Bool
is_digit c = leb 48 c && leb c 57

abbrev pub is_hexdigit : ℕ → Bool
is_hexdigit c = is_digit c || (leb 65 c && leb c 70) || (leb 97 c && leb c 102)

abbrev pub is_safe : ℕ → Bool
is_safe c = is_digit c || (leb 65 c && leb c 90) || (leb 97 c && leb c 122) || c == 45 || c == 95

unfoldable pub is_sha256_hex : String → Bool
is_sha256_hex value = len value == 64 && all_chars is_hexdigit value

unfoldable pub is_allowed_api_key_scope : String → Bool
is_allowed_api_key_scope scope = contains scope ("chat" ∷ "models.read" ∷ "models" ∷ "admin" ∷ [])

-- the loop with the ids that it has seen
unfoldable pub validate_api_keys_are_hashes : List String → List ApiKeyConfig → Checked
unfolding is_sha256_hex trim
validate_api_keys_are_hashes ids [] = ok
validate_api_keys_are_hashes ids (key ∷ keys) =
    ensure (not (blank key.id)) key_empty_id
    then_check ensure (not (contains key.id ids)) (key_repeated key.id)
    then_check ensure (not (blank key.subject)) (key_subject key.id)
    then_check ensure (not (blank key.team)) (key_team key.id)
    then_check ensure (is_sha256_hex key.sha256) (key_digest key.id)
    then_check validate_api_keys_are_hashes (key.id ∷ ids) keys

abbrev pub validate_scope : String → String → Checked
validate_scope id scope =
    ensure (not (blank scope)) (key_empty_scope id)
    then_check ensure (is_allowed_api_key_scope scope) (key_scope id)

unfoldable pub validate_api_key_scopes : List ApiKeyConfig → Checked
unfolding is_allowed_api_key_scope trim
validate_api_key_scopes keys =
    each
      (λ (key : ApiKeyConfig).
        ensure (not (is_empty key.scopes)) (key_no_scope key.id)
        then_check each (validate_scope key.id) key.scopes)
      keys

abbrev pub check_last_four : String → Option String → Checked
check_last_four id none = ok
check_last_four id (some last_four) =
    ensure (len last_four == 4 && all_chars is_safe last_four) (key_last_four id)

abbrev pub check_fingerprint : String → Option String → Checked
check_fingerprint id none = ok
check_fingerprint id (some fingerprint) = ensure (not (blank fingerprint)) (key_fingerprint id)

abbrev pub is_known_status : String → Bool
is_known_status status = contains status ("active" ∷ "retiring" ∷ "revoked" ∷ [])

abbrev pub validate_metadata : ApiKeyConfig → Checked
validate_metadata key =
    ensure (is_known_status key.status) (key_status key.id)
    then_check check_last_four key.id key.last_four
    then_check check_fingerprint key.id key.fingerprint

unfoldable pub validate_api_key_metadata : List ApiKeyConfig → Checked
validate_api_key_metadata keys = each validate_metadata keys

abbrev pub validate_active : ℕ → ApiKeyConfig → Checked
validate_active now key =
    ensure (not (str_eq key.status "revoked")) (key_revoked key.id)
    then_check ensure (is_later now key.expires_at) (key_expired key.id)

unfoldable pub validate_api_keys_for_active_serving : ℕ → List ApiKeyConfig → Checked
validate_api_keys_for_active_serving now keys = each (validate_active now) keys

abbrev pub is_sensitive_name : String → Bool
is_sensitive_name name =
    contains_lowercase name "authorization"
    || contains_lowercase name "api-key"
    || contains_lowercase name "apikey"
    || contains_lowercase name "token"
    || contains_lowercase name "secret"

abbrev pub validate_header : String × String → Checked
validate_header (name, value) =
    if is_sensitive_name name then ensure (starts_with value "env:") (plaintext_header name) else ok

unfoldable pub validate_no_plaintext_observability_secrets : PostureConfig → Checked
validate_no_plaintext_observability_secrets cfg =
    each validate_header cfg.observability.exporter_headers

unfoldable pub validate_native_tls_config : PostureConfig → Checked
validate_native_tls_config cfg =
    if not cfg.tls.enabled
    then ok
    else (ensure (is_given cfg.tls.cert_path) no_cert
        then_check ensure (is_given cfg.tls.key_path) no_key
        then_check ensure (not cfg.tls.require_client_cert) client_cert)

unfoldable pub validate_external_provider_security : PostureConfig → Checked
validate_external_provider_security cfg =
    if not cfg.external_providers_enabled then ok else err external_providers

abbrev pub native_tls_has_cert_and_key : PostureConfig → Bool
native_tls_has_cert_and_key cfg =
    cfg.tls.enabled
    && is_given cfg.tls.cert_path
    && is_given cfg.tls.key_path
    && not cfg.tls.require_client_cert

unfoldable pub validate_external_tls_posture : PostureConfig → Checked
validate_external_tls_posture cfg =
    if native_tls_has_cert_and_key cfg
    then ok
    else (ensure cfg.security.tls_termination.enabled no_tls
        then_check ensure (is_written cfg.security.tls_termination.provider) no_provider
        then_check ensure (is_written cfg.security.tls_termination.evidence) no_evidence
        then_check ensure (not (is_empty cfg.security.trusted_proxies)) no_trusted_proxies)

abbrev pub or_else : Option String → Option String → Option String
or_else (some s) other = some s
or_else none other = other

-- the checks of the audit and of telemetry
unfoldable pub validate_evidence : PostureConfig → Checked
validate_evidence cfg =
    ensure (ltb 0 cfg.audit.retention_days) no_retention
    then_check ensure cfg.audit.monthly_reports no_monthly_reports
    then_check ensure (is_given cfg.audit.report_directory) no_report_directory
    then_check ensure
        (cfg.observability.traces_enabled && cfg.observability.metrics_enabled
          && cfg.observability.logs_enabled)
        no_telemetry
    then_check ensure
        (is_written (or_else cfg.observability.exporter_endpoint cfg.observability.otlp_endpoint))
        no_endpoint

abbrev pub is_exposed : PostureConfig → Bool
is_exposed cfg = cfg.security.production || cfg.security.bind_external || is_external_host cfg.host

module _ (net : Addresses) where
  abbrev pub max_prefix : IpAddr → ℕ
  max_prefix (v4 n) = 32
  max_prefix (v6 n) = 128

  abbrev pub check_prefix : String → IpAddr → Option ℕ → Checked
  check_prefix value ip none = err (proxy_prefix value)
  check_prefix value ip (some length) =
      ensure (ltb 0 length && leb length (max_prefix ip)) (proxy_range value)

  abbrev pub check_network : String → Option IpAddr → String → Checked
  check_network value none prefix_length = err (proxy_address value)
  check_network value (some ip) prefix_length = check_prefix value ip (net.parse_u8 prefix_length)

  abbrev pub check_address : String → Option IpAddr → Checked
  check_address value none = err (proxy_neither value)
  check_address value (some ip) = ok

  abbrev pub check_entry : String → Option (String × String) → Checked
  check_entry value (some (addr, prefix_length)) =
      check_network value (net.parse_ip addr) prefix_length
  check_entry value none = check_address value (net.parse_ip value)

  unfoldable pub validate_trusted_proxy : String → Checked
  unfolding trim
  validate_trusted_proxy value =
      ensure (not (blank value) && not (str_eq (trim value) "*")) proxy_wildcard
      then_check check_entry (trim value) (split_once 47 (trim value))

  unfoldable pub validate_exposed : ℕ → PostureConfig → Checked
  validate_exposed now cfg =
      ensure (cfg.security.require_auth && not (is_empty cfg.security.api_keys)) no_authentication
      then_check each validate_trusted_proxy cfg.security.trusted_proxies
      then_check validate_api_keys_for_active_serving now cfg.security.api_keys
      then_check validate_external_tls_posture cfg
      then_check validate_evidence cfg

  -- `now` is the time of the check
  unfoldable pub validate_production_security : ℕ → PostureConfig → Checked
  validate_production_security now cfg =
      validate_api_keys_are_hashes [] cfg.security.api_keys
      then_check validate_api_key_scopes cfg.security.api_keys
      then_check validate_api_key_metadata cfg.security.api_keys
      then_check validate_no_plaintext_observability_secrets cfg
      then_check validate_native_tls_config cfg
      then_check validate_external_provider_security cfg
      then_check (if is_exposed cfg then validate_exposed now cfg else ok)

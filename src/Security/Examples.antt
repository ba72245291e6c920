-- ===== src/Security/Examples.antt =====
-- src/security.rs: tests, and the theorems at a configuration that is exposed.
use mathlib.Core.List.{Memᴰ}
use rs_llmctl.Base.{
  String, Bool, true, false, none, some, [], ◌∷◌, ◌≡◌, refl, if◌then◌else◌, str_eq,
}
use rs_llmctl.Base.Texts.{trim}
use native.Mathlib.Omega.{arith}
use rs_llmctl.Server.Auth.{ApiKeyConfig, api_key_can_authenticate}
use rs_llmctl.Server.Sources.{Addresses, v4, v6, trusted_proxy_matches}
use rs_llmctl.Security.{
  PostureConfig, ok, err, validate_production_security, validate_exposed, validate_trusted_proxy,
  validate_evidence, validate_api_keys_are_hashes, validate_api_key_scopes,
  validate_api_key_metadata, validate_native_tls_config, validate_external_tls_posture,
  validate_api_keys_for_active_serving, validate_external_provider_security,
  validate_no_plaintext_observability_secrets, is_external_host, is_allowed_api_key_scope,
  is_sha256_hex, no_authentication, key_expired, plaintext_header, key_repeated,
}
use rs_llmctl.Security.Keys.{validate_production_security-can_authenticate}
use rs_llmctl.Security.Proxies.{Mapped, validate_trusted_proxy-matches_none}

abbrev digest : String
digest = "00112233445566778899aabbccddeeff00112233445566778899AABBCCDDEEFF"

abbrev retiring : ApiKeyConfig
retiring = record {
  id = "ci";
  sha256 = digest;
  subject = "robot";
  team = "build";
  scopes = "chat" ∷ [];
  expires_at = some 10;
  owner = none;
  purpose = none;
  last_four = some "a-_9";
  fingerprint = none;
  status = "retiring";
}

abbrev exposed_with : Bool → String → PostureConfig
exposed_with required secret = record {
  host = "0.0.0.0";
  tls = record {
    enabled = true;
    cert_path = some "cert";
    key_path = some "key";
    require_client_cert = false;
  };
  security = record {
    production = false;
    bind_external = false;
    tls_termination = record { enabled = false; provider = none; evidence = none };
    require_auth = required;
    auth_failure_limit_per_minute = 60;
    trusted_proxies = [];
    api_keys = retiring ∷ [];
  };
  audit = record {
    retention_days = 365;
    report_directory = some "reports";
    monthly_reports = true;
  };
  observability = record {
    otlp_endpoint = some "http://otel";
    exporter_endpoint = none;
    exporter_headers = ("Authorization", secret) ∷ [];
    traces_enabled = true;
    metrics_enabled = true;
    logs_enabled = true;
  };
  external_providers_enabled = false;
}

abbrev net : Addresses
net = record {
  parse_ip = λ s. if str_eq s "::ffff:10.0.0.0" then some (v6 281470849515520) else none;
  parse_u8 = λ s. if str_eq s "104" then some 104 else none;
  to_text = λ ip. "";
}

accepted : validate_production_security net 9 (exposed_with true "env:TOKEN") ≡ ok
unfolding validate_production_security validate_exposed validate_api_keys_are_hashes
    validate_api_key_scopes validate_api_key_metadata validate_no_plaintext_observability_secrets
    validate_native_tls_config validate_external_provider_security
    validate_api_keys_for_active_serving validate_external_tls_posture validate_evidence
    is_external_host is_allowed_api_key_scope is_sha256_hex trim
accepted = refl

test-expired :
    validate_production_security net 10 (exposed_with true "env:TOKEN") ≡ err (key_expired "ci")
unfolding validate_production_security validate_exposed validate_api_keys_are_hashes
    validate_api_key_scopes validate_api_key_metadata validate_no_plaintext_observability_secrets
    validate_native_tls_config validate_external_provider_security
    validate_api_keys_for_active_serving validate_external_tls_posture validate_evidence
    is_external_host is_allowed_api_key_scope is_sha256_hex trim
test-expired = refl

test-anonymous :
    validate_production_security net 9 (exposed_with false "env:TOKEN") ≡ err no_authentication
unfolding validate_production_security validate_exposed validate_api_keys_are_hashes
    validate_api_key_scopes validate_api_key_metadata validate_no_plaintext_observability_secrets
    validate_native_tls_config validate_external_provider_security
    validate_api_keys_for_active_serving validate_external_tls_posture validate_evidence
    is_external_host is_allowed_api_key_scope is_sha256_hex trim
test-anonymous = refl

test-plaintext :
    validate_production_security net 9 (exposed_with true "hunter2")
    ≡ err (plaintext_header "Authorization")
unfolding validate_production_security validate_exposed validate_api_keys_are_hashes
    validate_api_key_scopes validate_api_key_metadata validate_no_plaintext_observability_secrets
    validate_native_tls_config validate_external_provider_security
    validate_api_keys_for_active_serving validate_external_tls_posture validate_evidence
    is_external_host is_allowed_api_key_scope is_sha256_hex trim
test-plaintext = refl

test-repeated : validate_api_keys_are_hashes [] (retiring ∷ retiring ∷ []) ≡ err (key_repeated "ci")
unfolding validate_api_keys_are_hashes is_sha256_hex trim
test-repeated = refl

validate_production_security-can_authenticate_example :
    (true ≡ true) × (api_key_can_authenticate 9 retiring ≡ true)
unfolding is_external_host trim
validate_production_security-can_authenticate_example =
    validate_production_security-can_authenticate net 9 (exposed_with true "env:TOKEN") retiring
      accepted refl (Memᴰ.head refl)

abbrev mapped : Mapped net " ::ffff:10.0.0.0/104" "::ffff:10.0.0.0" "104" 281470849515520 104
unfolding trim
mapped = record {
  split = refl;
  no_address = refl;
  network = refl;
  parsed = refl;
  is_mapped = refl;
  is_long = omega arith;
  in_range = omega arith;
  written = refl;
}

validate_trusted_proxy-matches_none_example :
    (validate_trusted_proxy net " ::ffff:10.0.0.0/104" ≡ ok)
    × (trusted_proxy_matches net " ::ffff:10.0.0.0/104" (v4 167772161) ≡ false)
validate_trusted_proxy-matches_none_example =
    validate_trusted_proxy-matches_none net " ::ffff:10.0.0.0/104" "::ffff:10.0.0.0" "104"
      281470849515520 104 (v4 167772161) mapped

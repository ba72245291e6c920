-- ===== src/Server/Auth/Examples.antt =====
-- src/server/auth.rs: tests, and the theorems at two keys and three requests.
use rs_llmctl.Base.{
  ℕ, String, true, false, Option, none, some, [], ◌∷◌, ◌≡◌, refl, arith, if◌then◌else◌, leb,
}
use rs_llmctl.Base.Map.{get}
use rs_llmctl.Traffic.AuthFailures.{AuthFailureLimiter}
use rs_llmctl.Server.Auth.{
  ApiKeyConfig, SecurityConfig, authenticate, ok, err, principal_of, too_many_failures,
  invalid_token, not_bearer, constant_time_eq_case_insensitive, api_key_can_authenticate,
  key_of_token,
}
use rs_llmctl.Server.Auth.Keys.{AuthenticatedRight, authenticate-AuthenticatedRight}
use rs_llmctl.Server.Auth.Limited.{Attempt, request, requests, request-after_failures}

-- a digest that is its text
abbrev same_text : String → String
same_text s = s

abbrev key : String → String → Option ℕ → ApiKeyConfig
key sha256 status expires_at = record {
  id = "k";
  sha256 = sha256;
  subject = "ann";
  team = "red";
  scopes = "chat" ∷ [];
  expires_at = expires_at;
  owner = none;
  purpose = none;
  last_four = none;
  fingerprint = none;
  status = status;
}

abbrev cfg : SecurityConfig
cfg = record {
  production = false;
  bind_external = false;
  tls_termination = record { enabled = false; provider = none; evidence = none };
  require_auth = true;
  auth_failure_limit_per_minute = 2;
  trusted_proxies = [];
  api_keys = key "AB" "active" (some 10) ∷ key "ab" "retiring" none ∷ key "cd" "revoked" none ∷ [];
}

test-active :
    authenticate same_text cfg (some "Bearer ab") 9
    ≡ ok (principal_of (key "AB" "active" (some 10)))
unfolding authenticate key_of_token constant_time_eq_case_insensitive api_key_can_authenticate
test-active = refl

test-expired :
    authenticate same_text cfg (some "Bearer ab") 10 ≡ ok (principal_of (key "ab" "retiring" none))
unfolding authenticate key_of_token constant_time_eq_case_insensitive api_key_can_authenticate
test-expired = refl

test-revoked : authenticate same_text cfg (some "Bearer cd") 0 ≡ err invalid_token
unfolding authenticate key_of_token constant_time_eq_case_insensitive api_key_can_authenticate
test-revoked = refl

test-basic : authenticate same_text cfg (some "Basic ab") 0 ≡ err not_bearer
unfolding authenticate
test-basic = refl

authenticate-AuthenticatedRight_example :
    AuthenticatedRight same_text cfg
      (some "Bearer ab")
      9
      (authenticate same_text cfg (some "Bearer ab") 9)
authenticate-AuthenticatedRight_example =
    authenticate-AuthenticatedRight same_text cfg (some "Bearer ab") 9

abbrev attempt : ℕ → String → Attempt
attempt at header = record { at = at; now = 0; header = some header }

abbrev fresh : AuthFailureLimiter
fresh = record { failures = []; emitted = [] }

request-after_failures_example :
    (request same_text cfg "10.0.0.1" (attempt 300 "Bearer ab") (
      requests same_text cfg "10.0.0.1"
        (attempt 100 "Bearer cd" ∷ attempt 200 "Bearer x" ∷ [])
        fresh)).1
    ≡ (if leb 2 2 then err too_many_failures else authenticate same_text cfg (some "Bearer ab") 0)
unfolding authenticate key_of_token constant_time_eq_case_insensitive api_key_can_authenticate get
request-after_failures_example =
    request-after_failures same_text cfg "10.0.0.1" (attempt 100 "Bearer cd")
      (attempt 300 "Bearer ab") (attempt 200 "Bearer x" ∷ []) fresh (omega arith) (omega arith) tt
      refl (tt, (tt, tt)) (omega arith) (omega arith)

-- ===== src/Server/Sources/Examples.antt =====
-- src/server/auth.rs: tests, and the theorem at a header that a client and a proxy have written.
use rs_llmctl.Base.{
  String, true, Option, none, some, List, [], ◌∷◌, ◌≡◌, refl, if◌then◌else◌, str_eq, ◌==◌,
}
use rs_llmctl.Base.Texts.{trim}
use rs_llmctl.Server.Sources.{
  Addresses, IpAddr, v4, v6, trusted_proxy_matches, is_trusted_proxy, parse_forwarded_ip,
  auth_source_key, forwarded_values,
}
use rs_llmctl.Server.Sources.Spoofs.{auth_source_key-forwarded}

-- a few addresses
abbrev parse_ip : String → Option IpAddr
parse_ip s =
    if str_eq s "10.0.0.0"
    then some (v4 167772160)
    else (if str_eq s "10.0.0.7"
        then some (v4 167772167)
        else (if str_eq s "8.8.8.8"
            then some (v4 134744072)
            else (if str_eq s "::1" then some (v6 1) else none)))

abbrev to_text : IpAddr → String
to_text (v4 n) = if n == 134744072 then "8.8.8.8" else "10.0.0.7"
to_text (v6 n) = "::1"

abbrev net : Addresses
net = record {
  parse_ip = parse_ip;
  parse_u8 = λ s. if str_eq s "8" then some 8 else none;
  to_text = to_text;
}

abbrev proxies : List String
proxies = " 10.0.0.0/8 " ∷ []

test-network : trusted_proxy_matches net " 10.0.0.0/8 " (v6 281470849515527) ≡ true
unfolding trusted_proxy_matches
test-network = refl

test-port : parse_forwarded_ip net " \"[::1]:80\"" ≡ some (v6 1)
unfolding parse_forwarded_ip
test-port = refl

test-forwarded :
    forwarded_values net "for=8.8.8.8; proto=http, for=\"[::1]\"" ≡ v4 134744072 ∷ v6 1 ∷ []
unfolding forwarded_values parse_forwarded_ip trim
test-forwarded = refl

-- A proxy has appended the client's address to `x-forwarded-for` and has let `forwarded` pass.
test-chosen :
    auth_source_key net proxies ("for=\"[::1]\"" ∷ []) ("8.8.8.8" ∷ []) (some (v4 167772161))
    ≡ "::1"
unfolding forwarded_values parse_forwarded_ip is_trusted_proxy trim
test-chosen =
    auth_source_key-forwarded net proxies (v4 167772161) (v6 1) "for=\"[::1]\"" ("8.8.8.8" ∷ [])
      refl refl refl

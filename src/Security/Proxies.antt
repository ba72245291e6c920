-- ===== src/Security/Proxies.antt =====
-- src/security.rs with src/server/auth.rs: the entries of `trusted_proxies` that are accepted.
use rs_llmctl.Base.{
  ℕ, ◌≤◌, ◌<◌, ◌/◌, ◌%◌, ◌^◌, String, Bool, true, false, not, ◌&&◌, Option, none, some, ◌≡◌, refl,
  ap, ◌∙◌, str_eq, arith, if◌then◌else◌, ltb, leb, ◌==◌,
}
use rs_llmctl.Base.Texts.{trim}
use rs_llmctl.Server.Sources.{
  Addresses, IpAddr, v4, v6, split_once, to_canonical, ip_eq, in_network, network_matches,
  trusted_proxy_matches,
}
use rs_llmctl.Security.{
  ok, check_entry, check_network, check_prefix, blank, proxy_wildcard, proxy_range,
  validate_trusted_proxy, ◌then_check◌, ensure,
}

-- A network of IPv4 addresses that IPv6 maps, with a prefix longer than an IPv4 address.
pub record Mapped (net : Addresses) (entry address prefix_length : String) (n length : ℕ)
    : Type 0 where
  pub split : split_once 47 (trim entry) ≡ some (address, prefix_length)
  pub no_address : net.parse_ip (trim entry) ≡ none
  pub network : net.parse_ip address ≡ some (v6 n)
  pub parsed : net.parse_u8 prefix_length ≡ some length
  pub is_mapped : n / 2 ^ 32 == 65535 ≡ true
  pub is_long : 32 < length
  pub in_range : length ≤ 128
  pub written : not (blank entry) && not (str_eq (trim entry) "*") ≡ true

over : (length : ℕ) (rest : Bool) → 32 < length → ltb 0 length && leb length 32 && rest ≡ false
over length rest h = ground arith

in_range : (length : ℕ) → 32 < length → length ≤ 128 → ltb 0 length && leb length 128 ≡ true
in_range length h k = ground arith

long-matches : (m length : ℕ) (ip : IpAddr) → 32 < length → network_matches length (v4 m) ip ≡ false
long-matches m length (v4 n) h = over length _ h
long-matches m length (v6 n) h = refl

-- The check accepts the entry: it measures the prefix by the address that is written.
validate-mapped :
    (net : Addresses) (entry address prefix_length : String) (n length : ℕ)
    → Mapped net entry address prefix_length n length
    → validate_trusted_proxy net entry ≡ ok
unfolding validate_trusted_proxy
validate-mapped net entry address prefix_length n length m =
    let rest = check_entry net (trim entry) (split_once 47 (trim entry)) in
    ap (λ (b : Bool). ensure b proxy_wildcard then_check rest) m.written
    ∙ ap (λ s. check_entry net (trim entry) s) m.split
    ∙ ap (λ a. check_network net (trim entry) a prefix_length) m.network
    ∙ ap (λ l. check_prefix net (trim entry) (v6 n) l) m.parsed
    ∙ ap (λ (b : Bool). ensure b (proxy_range (trim entry))) (in_range length m.is_long m.in_range)

-- No address matches: the prefix is measured by the IPv4 address that the network is turned into.
matches-mapped :
    (net : Addresses) (entry address prefix_length : String) (n length : ℕ) (ip : IpAddr)
    → Mapped net entry address prefix_length n length
    → trusted_proxy_matches net entry ip ≡ false
unfolding trusted_proxy_matches
matches-mapped net entry address prefix_length n length ip m =
    ap
      (λ (a : Option IpAddr). elim a [
        | some exact ↦ ip_eq (to_canonical exact) (to_canonical ip)
        | none ↦ in_network net (to_canonical ip) (split_once 47 (trim entry))
      ])
      m.no_address
    ∙ ap (λ s. in_network net (to_canonical ip) s) m.split
    ∙ ap
        (λ (a : Option IpAddr). elim a [
          | none ↦ false
          | some network ↦ elim (net.parse_u8 prefix_length) [
            | none ↦ false
            | some l ↦ network_matches l (to_canonical network) (to_canonical ip)
          ]
        ])
        m.network
    ∙ ap
        (λ (l : Option ℕ). elim l [
          | none ↦ false
          | some l ↦ network_matches l (to_canonical (v6 n)) (to_canonical ip)
        ])
        m.parsed
    ∙ ap
        (λ (b : Bool).
          network_matches length (if b then v4 (n % 2 ^ 32) else v6 n) (to_canonical ip))
        m.is_mapped
    ∙ long-matches (n % 2 ^ 32) length (to_canonical ip) m.is_long

-- An entry for IPv4 addresses written as IPv6 addresses, with a prefix between 33 and 128, passes the
-- check of the configuration, and it matches no address at all.
pub validate_trusted_proxy-matches_none :
    (net : Addresses) (entry address prefix_length : String) (n length : ℕ) (ip : IpAddr)
    → Mapped net entry address prefix_length n length
    → (validate_trusted_proxy net entry ≡ ok) × (trusted_proxy_matches net entry ip ≡ false)
validate_trusted_proxy-matches_none net entry address prefix_length n length ip m = (
  validate-mapped net entry address prefix_length n length m,
  matches-mapped net entry address prefix_length n length ip m,
)

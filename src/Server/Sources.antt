-- ===== src/Server/Sources.antt =====
-- src/server/auth.rs: the source that a request is counted under. `str::parse` into an address and
-- into a `u8`, and `to_string` of an address, are a parameter. A header is the list of its values
-- that are texts, in order.
pub mod Splits
pub mod Spoofs
mod Examples
use Prim.Native.Char.{Char, code}
use Prim.Native.String.{[] as empty, ◌∷◌ as prefix}
use Prim.Native.Nat.{bit_and}
use rs_llmctl.Base.{
  ℕ, ◌+◌, ◌-◌, ◌*◌, ◌/◌, ◌%◌, ◌^◌, String, Bool, true, false, not, ◌&&◌, Option, none, some, List,
  [], ◌∷◌, ◌++◌, any, if◌then◌else◌, ltb, leb, ◌==◌,
}
use rs_llmctl.Base.Texts.{trim, strip_prefix}

-- An address, by the number that its bits spell.
pub data IpAddr : Type 0 where
  v4 v6 : ℕ → IpAddr

-- `to_canonical`: ::ffff:a.b.c.d is a.b.c.d
abbrev pub to_canonical : IpAddr → IpAddr
to_canonical (v4 n) = v4 n
to_canonical (v6 n) = if n / 2 ^ 32 == 65535 then v4 (n % 2 ^ 32) else v6 n

abbrev pub ip_eq : IpAddr → IpAddr → Bool
ip_eq (v4 m) (v4 n) = m == n
ip_eq (v6 m) (v6 n) = m == n
ip_eq (v4 m) (v6 n) = false
ip_eq (v6 m) (v4 n) = false

-- `MAX << (width - prefix)`, and the test of the masked addresses
abbrev pub same_network : ℕ → ℕ → ℕ → ℕ → Bool
same_network width length network ip =
    let mask = ((2 ^ width - 1) * 2 ^ (width - length)) % 2 ^ width in
    ltb 0 length && leb length width && bit_and network mask == bit_and ip mask

abbrev pub network_matches : ℕ → IpAddr → IpAddr → Bool
network_matches length (v4 network) (v4 ip) = same_network 32 length network ip
network_matches length (v6 network) (v6 ip) = same_network 128 length network ip
network_matches length (v4 network) (v6 ip) = false
network_matches length (v6 network) (v4 ip) = false

abbrev push_first : Char → List String → List String
push_first c [] = prefix c empty ∷ []
push_first c (part ∷ parts) = prefix c part ∷ parts

-- `split(separator)`, by the separator's number
abbrev pub split : ℕ → String → List String
split k String.[] = empty ∷ []
split k (String.◌∷◌ c s) =
    let parts = split k s in if code c == k then empty ∷ parts else push_first c parts

abbrev pub split_once : ℕ → String → Option (String × String)
split_once k String.[] = none
split_once k (String.◌∷◌ c s) =
    if code c == k
    then some (empty, s)
    else (elim (split_once k s) [ none ↦ none | some (a, b) ↦ some (prefix c a, b) ])

-- `rsplit_once(separator)`: at the last one
abbrev pub rsplit_once : ℕ → String → Option (String × String)
rsplit_once k String.[] = none
rsplit_once k (String.◌∷◌ c s) = elim (rsplit_once k s) [
  | some (a, b) ↦ some (prefix c a, b)
  | none ↦ if code c == k then some (empty, s) else none
]

abbrev pub trim_start_matches : ℕ → String → String
trim_start_matches k String.[] = empty
trim_start_matches k (String.◌∷◌ c s) =
    let rest = trim_start_matches k s in if code c == k then rest else prefix c s

abbrev pub cons_unless : ℕ → Char → String → String
cons_unless k c String.[] = if code c == k then empty else prefix c empty
cons_unless k c (String.◌∷◌ d s) = prefix c (prefix d s)

abbrev pub trim_end_matches : ℕ → String → String
trim_end_matches k String.[] = empty
trim_end_matches k (String.◌∷◌ c s) = cons_unless k c (trim_end_matches k s)

abbrev pub trim_matches : ℕ → String → String
trim_matches k s = trim_end_matches k (trim_start_matches k s)

abbrev pub cons_some {ℓ} : {B : Type ℓ} → Option B → List B → List B
cons_some none rest = rest
cons_some (some y) rest = y ∷ rest

-- `filter_map(f)` and `flat_map(f)`
abbrev pub filter_map {ℓ κ} : {A : Type ℓ} {B : Type κ} → (A → Option B) → List A → List B
filter_map f [] = []
filter_map f (x ∷ xs) = cons_some (f x) (filter_map f xs)

abbrev pub flat_map {ℓ κ} : {A : Type ℓ} {B : Type κ} → (A → List B) → List A → List B
flat_map f [] = []
flat_map f (x ∷ xs) = f x ++ flat_map f xs

-- What `std::net` and `str::parse` answer.
pub record Addresses : Type 0 where
  pub parse_ip : String → Option IpAddr
  pub parse_u8 : String → Option ℕ
  pub to_text : IpAddr → String

module _ (net : Addresses) where
  abbrev pub in_network : IpAddr → Option (String × String) → Bool
  in_network ip none = false
  in_network ip (some (network, prefix_length)) = elim (net.parse_ip network) [
    | none ↦ false
    | some address ↦ elim (net.parse_u8 prefix_length) [
      | none ↦ false
      | some length ↦ network_matches length (to_canonical address) ip
    ]
  ]

  unfoldable pub trusted_proxy_matches : String → IpAddr → Bool
  unfolding trim
  trusted_proxy_matches trusted ip = elim (net.parse_ip (trim trusted)) [
    | some exact ↦ ip_eq (to_canonical exact) (to_canonical ip)
    | none ↦ in_network (to_canonical ip) (split_once 47 (trim trusted))
  ]

  unfoldable pub is_trusted_proxy : List String → IpAddr → Bool
  unfolding trusted_proxy_matches
  is_trusted_proxy proxies ip = any (λ trusted. trusted_proxy_matches trusted ip) proxies

  -- an address with a port after the last colon
  abbrev pub host_of : Option (String × String) → Option IpAddr
  host_of none = none
  host_of (some (host, port)) = net.parse_ip (trim_matches 93 (trim_matches 91 host))

  abbrev pub parse_candidate : String → Option IpAddr
  parse_candidate value = elim (net.parse_ip value) [
    | some ip ↦ some ip
    | none ↦ host_of (rsplit_once 58 value)
  ]

  unfoldable pub parse_forwarded_ip : String → Option IpAddr
  unfolding trim
  parse_forwarded_ip value =
      parse_candidate (trim_matches 93 (trim_matches 91 (trim_matches 34 (trim value))))

  -- the loop, over the reversed list
  unfoldable pub first_untrusted_forwarded_ip : List String → List IpAddr → Option String
  first_untrusted_forwarded_ip proxies [] = none
  first_untrusted_forwarded_ip proxies (ip ∷ ips) =
      elim (first_untrusted_forwarded_ip proxies ips) [
        | some later ↦ some later
        | none ↦ if not (is_trusted_proxy proxies ip) then some (net.to_text ip) else none
      ]

  abbrev pub for_value : Option String → Option IpAddr
  for_value none = none
  for_value (some value) = parse_forwarded_ip value

  -- one part of a `forwarded` header
  abbrev pub parse_part : String → Option IpAddr
  parse_part part = for_value (strip_prefix "for=" (trim part))

  unfoldable pub forwarded_values : String → List IpAddr
  forwarded_values value =
      filter_map parse_part (flat_map (λ element. split 59 element) (split 44 value))

  unfoldable pub x_forwarded_values : String → List IpAddr
  x_forwarded_values value = filter_map parse_forwarded_ip (split 44 value)

  -- The values of the headers `forwarded` and `x-forwarded-for`. An empty list has no untrusted
  -- address, so the test for it changes nothing.
  unfoldable pub forwarded_client_ip : List String → List String → List String → Option String
  forwarded_client_ip proxies forwarded x_forwarded =
      elim (first_untrusted_forwarded_ip proxies (flat_map forwarded_values forwarded)) [
        | some ip ↦ some ip
        | none ↦ first_untrusted_forwarded_ip proxies (flat_map x_forwarded_values x_forwarded)
      ]

  abbrev pub text_or_unknown : Option IpAddr → String
  text_or_unknown none = "unknown-source"
  text_or_unknown (some ip) = net.to_text ip

  abbrev pub trusted_peer : List String → Option IpAddr → Bool
  trusted_peer proxies none = false
  trusted_peer proxies (some ip) = is_trusted_proxy proxies ip

  unfoldable pub auth_source_key : List String → List String → List String → Option IpAddr → String
  auth_source_key proxies forwarded x_forwarded peer =
      if trusted_peer proxies peer
      then (elim (forwarded_client_ip proxies forwarded x_forwarded) [
        | some ip ↦ ip
        | none ↦ text_or_unknown peer
      ])
      else text_or_unknown peer

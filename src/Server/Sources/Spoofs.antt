-- ===== src/Server/Sources/Spoofs.antt =====
-- src/server/auth.rs: headers that a client has written into.
use Prim.Native.String.{◌++◌ as append}
use rs_llmctl.Base.{String, true, false, Option, some, ◌≡◌, refl, List, [], ◌∷◌, ◌++◌}
use rs_llmctl.Server.Sources.{
  Addresses, IpAddr, forwarded_values, x_forwarded_values, forwarded_client_ip,
  first_untrusted_forwarded_ip, is_trusted_proxy, auth_source_key,
}

-- a header's value after each of the hops has appended an address
unfoldable pub relayed : String → List String → String
relayed value [] = value
relayed value (hop ∷ hops) = relayed (append value (append "," hop)) hops

module _ (net : Addresses) (proxies : List String) where
  -- Every address that the hops append is a trusted proxy's.
  abbrev pub AllTrusted : List String → Type 0
  AllTrusted [] = Unit
  AllTrusted (hop ∷ hops) =
      ((ip : IpAddr) × (x_forwarded_values net hop ≡ ip ∷ [])
        × (is_trusted_proxy net proxies ip ≡ true))
      × AllTrusted hops

  abbrev first_of : String → Option String
  first_of value = first_untrusted_forwarded_ip net proxies (x_forwarded_values net value)

  -- A request comes from a trusted proxy, with a `forwarded` header whose one value reads as one
  -- address that is not a trusted proxy's. It is counted under that address, whatever
  -- `x-forwarded-for` says.
  pub auth_source_key-forwarded :
      (peer chosen : IpAddr) (written : String) (x_forwarded : List String)
      → is_trusted_proxy net proxies peer ≡ true
      → forwarded_values net written ≡ chosen ∷ []
      → is_trusted_proxy net proxies chosen ≡ false
      → auth_source_key net proxies (written ∷ []) x_forwarded (some peer) ≡ net.to_text chosen
  unfolding auth_source_key forwarded_client_ip first_untrusted_forwarded_ip
  auth_source_key-forwarded peer chosen written x_forwarded trusted reads untrusted =
      rw (trusted, reads, untrusted) refl

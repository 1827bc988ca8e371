-- ===== src/Dns/Discovering.antt =====
-- What `EnsureActivation` of the registry over DNS answers after a discovery
-- (virtual/registry/dnsregistry/dns_registry.go).
use Prim.Native.String.{◌++◌, count}
use nola.Base.{
  ◌≡◌, ◌≢◌, refl, sym, ap, subst, ◌∙◌, false, some, List, [], ◌∷◌, Elem, All, All-Elem, ◌<◌, String,
  ok, ◌>>=◌, arith,
}
use text.Mathlib.TextLemmas.{length-append, length-pos_iff, length-nil}
use nola.Types.{ActorRef}
use nola.References.{actor_ref_of, IsNamed, new_actor_reference_made}
use nola.Dns.State.{
  Ip, ip4, ip16, neither, HashRing, DnsRegistry, addresses, discover, dns_ensure_activation,
  dns_server_id, dns_server_version, dns_actor_generation,
}

append_right_nonempty : (s t : String) → t ≢ "" → (s ++ t) ≢ ""
append_right_nonempty s t ne e =
    let positive : 0 < count t = length-pos_iff.1 ne in
    omega (arith, positive, length-append s t, ap count e, length-nil)

append_left_nonempty : (s t : String) → s ≢ "" → (s ++ t) ≢ ""
append_left_nonempty s t ne e =
    let positive : 0 < count s = length-pos_iff.1 ne in
    omega (arith, positive, length-append s t, ap count e, length-nil)

colon_nonempty : ◌≢◌ {A = String} ":" ""
colon_nonempty e = omega (arith, ap count e, length-nil)

bracket_nonempty : ◌≢◌ {A = String} "[" ""
bracket_nonempty e = omega (arith, ap count e, length-nil)

addresses_nonempty : (port : String) (ips : List Ip) → All (λ a. a ≢ "") (addresses port ips)
unfolding addresses
addresses_nonempty port [] = tt
addresses_nonempty port (ip4 s ∷ ips) = (
  append_right_nonempty s (":" ++ port) (append_left_nonempty ":" port colon_nonempty),
  addresses_nonempty port ips,
)
addresses_nonempty port (ip16 s ∷ ips) =
    (append_left_nonempty "[" _ bracket_nonempty, addresses_nonempty port ips)
addresses_nonempty port (neither ∷ ips) = addresses_nonempty port ips

-- The address that the ring of a discovery has for an actor.
abbrev pub address_of : (h : HashRing) → String → List Ip → String → String → String
address_of h port ips actor_id module_id =
    h.get (h.ring_of (addresses port ips)) (actor_id ++ ("::" ++ module_id))

abbrev pub dns_reference : String → String → String → String → ActorRef
dns_reference address namespace module_id actor_id =
    actor_ref_of dns_server_id dns_server_version address namespace module_id actor_id
      dns_actor_generation

pub server_id_nonempty : ◌≢◌ {A = String} dns_server_id ""
server_id_nonempty e = omega (arith, ap count e, length-nil)

-- After a discovery that has found an address, `EnsureActivation` of a named actor answers one
-- reference, to one of the addresses found.
pub dns_ensure_activation_lem :
    (h : HashRing) (d : DnsRegistry h) (ips : List Ip) (x : String) (l : List String)
    (namespace actor_id module_id : String)
    → addresses d.port ips ≡ x ∷ l
    → namespace ≢ ""
    → actor_id ≢ ""
    → module_id ≢ ""
    → Elem (address_of h d.port ips actor_id module_id) (x ∷ l)
      × (dns_ensure_activation h namespace actor_id module_id (discover h (some ips) d).1
          ≡ ok (
              dns_reference
                (address_of h d.port ips actor_id module_id)
                namespace
                module_id
                actor_id
              ∷ []))
unfolding dns_ensure_activation discover ◌>>=◌
dns_ensure_activation_lem h d ips x l namespace actor_id module_id found n a m =
    let among : Elem (address_of h d.port ips actor_id module_id) (x ∷ l) =
      subst (λ k. Elem (h.get (h.ring_of k) (actor_id ++ ("::" ++ module_id))) (x ∷ l)) (sym found)
        (h.get-Elem x l (actor_id ++ ("::" ++ module_id))) in
    let some_address : address_of h d.port ips actor_id module_id ≢ "" =
      All-Elem (λ s. s ≢ "") _ (x ∷ l) (subst (All _) found (addresses_nonempty d.port ips))
        among in
    let full : h.is_empty (h.ring_of (addresses d.port ips)) ≡ false =
      ap (λ k. h.is_empty (h.ring_of k)) found ∙ h.is_empty-cons x l in
    let named : IsNamed namespace module_id actor_id dns_actor_generation =
      (n, m, a, λ e. omega (arith, e)) in
    (
      among,
      rw
          (
            full,
            new_actor_reference_made dns_server_id dns_server_version
                (address_of h d.port ips actor_id module_id) namespace module_id actor_id
                dns_actor_generation named server_id_nonempty some_address,
          )
          refl,
    )

-- ===== src/Environment/Discovered.antt =====
-- Environments over the registry of virtual/registry/dnsregistry/dns_registry.go: its answers at
-- the checks of `InvokeActorDirectStream` (virtual/environment.go).
use nola.Base.{◌≡◌, ◌≢◌, refl, inr, String, false, some, List, [], ◌∷◌, Elem, ok, arith}
use nola.Types.{ActorRef}
use nola.Dns.State.{
  Ip, HashRing, DnsRegistry, addresses, discover, dns_ensure_activation, dns_heartbeat,
  dns_server_id, dns_server_version, dns_version_stamp,
}
use nola.Dns.Discovering.{dns_ensure_activation_lem, dns_reference, address_of, server_id_nonempty}
use nola.Environment.State.{Environment, apply_heartbeat, check_direct}
use nola.Environment.Checks.{IsAccepted-check_direct}
use nola.Environment.Beating.{beaten_env}

accepts_dns :
    (env : Environment)
    → env.frozen ≡ false
    → check_direct (beaten_env dns_heartbeat env) dns_version_stamp dns_server_id dns_server_version
      ≡ ok tt
unfolding apply_heartbeat
accepts_dns env live =
    IsAccepted-check_direct (beaten_env dns_heartbeat env) dns_version_stamp dns_server_id
      dns_server_version (record { call = omega arith; deadline = rw live (omega arith) })
      (record {
        named = server_id_nonempty;
        addressed = inr refl;
        started = omega arith;
        in_time = rw live (omega arith);
        current = rw live refl;
      })

-- After a discovery that has found an address, `EnsureActivation` of a named actor answers one
-- reference, to one of the addresses found, and every environment that is not frozen, whatever its
-- server ID, accepts a direct call with it after a heartbeat.
pub dns_actor_accepted :
    (h : HashRing) (d : DnsRegistry h) (ips : List Ip) (x : String) (l : List String)
    (namespace actor_id module_id : String) (env : Environment)
    → addresses d.port ips ≡ x ∷ l
    → namespace ≢ ""
    → actor_id ≢ ""
    → module_id ≢ ""
    → env.frozen ≡ false
    → (ref : ActorRef) × (dns_ensure_activation h namespace actor_id module_id
          (discover h (some ips) d).1
        ≡ ok (ref ∷ []))
      × Elem ref.address (x ∷ l)
      × (check_direct
            (beaten_env dns_heartbeat env)
            dns_version_stamp
            ref.server_id
            ref.server_version
          ≡ ok tt)
dns_actor_accepted h d ips x l namespace actor_id module_id env found n a m live =
    let (among, answered) =
      dns_ensure_activation_lem h d ips x l namespace actor_id module_id found n a m in
    (
      dns_reference (address_of h d.port ips actor_id module_id) namespace module_id actor_id,
      answered,
      among,
      accepts_dns env live,
    )

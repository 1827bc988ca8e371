-- ===== src/Dns/State.antt =====
-- `dnsRegistry` of virtual/registry/dnsregistry/dns_registry.go.
use Prim.Native.String.{◌++◌}
use nola.Base.{
  ℕ, ◌-◌, ◌^◌, ◌≡◌, String, str_eq, Bool, true, false, Option, none, some, List, [], ◌∷◌, Elem,
  Result, ok, err, panic, ◌>>=◌, if◌then◌else◌,
}
use nola.Types.{Error, ActorRef, new_actor_reference}
use nola.Registry.State.{HeartbeatResult}

abbrev pub localhost : String
localhost = "localhost"

abbrev pub local_address : String
local_address = "127.0.0.1"

abbrev pub dns_server_id : String
dns_server_id = "DNS_SERVER_ID"

-- The bit pattern of -1.
abbrev pub dns_server_version : ℕ
dns_server_version = 2 ^ 64 - 1

abbrev pub dns_actor_generation : ℕ
dns_actor_generation = 1

abbrev pub dns_version_stamp : ℕ
dns_version_stamp = 1

-- A `net.IP` as its `To4` and `To16` see it, with its text.
pub data Ip : Type 0 where
  ip4 : String → Ip
  ip16 : String → Ip
  neither : Ip

-- `HashRing` behind `NewHashRing` and one `Add`, as groupcache documents it: it is empty if nothing
-- was added, and otherwise `Get` answers something that was added.
pub record HashRing : Type 1 where
  pub Ring : Type 0
  pub ring_of : List String → Ring
  pub is_empty : Ring → Bool
  pub get : Ring → String → String
  pub is_empty-nil : is_empty (ring_of []) ≡ true
  pub is_empty-cons : (x : String) (l : List String) → is_empty (ring_of (x ∷ l)) ≡ false
  pub get-Elem :
      (x : String) (l : List String) (key : String) → Elem (get (ring_of (x ∷ l)) key) (x ∷ l)

pub data DnsError : Type 0 where
  lookup_failed : DnsError
  empty_ring : DnsError
  bad_reference : Error → DnsError
  not_implemented : DnsError

-- The addresses that `discover` adds, with the text of the port. An IP of neither kind is skipped.
unfoldable pub addresses : String → List Ip → List String
addresses port [] = []
addresses port (ip4 s ∷ ips) = (s ++ (":" ++ port)) ∷ addresses port ips
addresses port (ip16 s ∷ ips) = ("[" ++ (s ++ ("]:" ++ port))) ∷ addresses port ips
addresses port (neither ∷ ips) = addresses port ips

abbrev pub as_dns_error : {A : Type 0} → Result Error A → Result DnsError A
as_dns_error (ok a) = ok a
as_dns_error (err e) = err (bad_reference e)
as_dns_error panic = panic

module _ (h : HashRing) where
  pub record DnsRegistry : Type 0 where
    pub port : String
    pub ips : List Ip
    pub hash_ring : h.Ring

  -- What `LookupIP` answers is an argument.
  unfoldable pub discover :
      Option (List Ip) → DnsRegistry → Result DnsError (Unit {0}) × DnsRegistry
  unfolding addresses
  discover none d = (err lookup_failed, d)
  discover (some ips) d =
      (ok tt, record d { ips = ips; hash_ring = h.ring_of (addresses d.port ips) })

  unfoldable pub dns_ensure_activation :
      String → String → String → DnsRegistry → Result DnsError (List ActorRef)
  dns_ensure_activation namespace actor_id module_id d =
      if h.is_empty d.hash_ring then err empty_ring else (do
        ref ← as_dns_error (
            new_actor_reference dns_server_id dns_server_version
              (h.get d.hash_ring (actor_id ++ ("::" ++ module_id))) namespace module_id actor_id
              dns_actor_generation)
        ok (ref ∷ []))

abbrev pub dns_heartbeat : HeartbeatResult
dns_heartbeat = record {
  version_stamp = dns_version_stamp;
  heartbeat_ttl = 1;
  server_version = dns_server_version;
}

-- `NewDNSRegistry`: the addresses that the host stands for, if it is the local one; otherwise they
-- are looked up.
unfoldable pub const_addresses : String → Option (List Ip)
const_addresses host = if str_eq host localhost then some (ip4 local_address ∷ []) else none

-- `BeginTransaction`: this registry stores nothing.
abbrev pub dns_begin_transaction : Result DnsError (Unit {0})
dns_begin_transaction = err not_implemented

-- ===== src/Environment/Tests.antt =====
-- An environment of the server "a" and a hash ring that always answers its first entry, and the
-- theorems there.
use nola.Base.{
  ℕ, ◌≡◌, ◌≢◌, ◌↔◌, ◌⊎◌, inl, refl, String, str_eq, Bool, true, false, Option, none, some, List, [],
  ◌∷◌, Elem, Result, ok, err, panic, arith,
}
use nola.Types.{Error, ActorRef}
use nola.References.{actor_ref_of}
use nola.Dns.State.{
  Ip, ip4, neither, HashRing, DnsRegistry, addresses, discover, dns_ensure_activation,
  dns_heartbeat, dns_version_stamp, localhost,
}
use nola.Registry.Servers.{read_server}
use nola.Registry.Tests.{
  opened, with_actor, after_late_beat, late_result, beat_state, server_a, not_empty,
  put-never_fails,
}
use nola.Concrete.Packages.{deps}
use nola.Registry.Stamps.{beaten}
use nola.Activations.State.{Reference, actor_ref, begin_invoke}
use nola.Activations.Running.{new_activations}
use nola.Environment.State.{
  invoke_actor_direct_stream, Environment, EnvironmentOptions, localhost_address, check_direct,
  invoke_references, invoke_actor_stream, cache_key,
}
use nola.Environment.Checks.{IsAccepted, invoke_actor_direct_stream-eq-ok_iff}
use nola.Environment.Routing.{invoke_references-eq-panic_iff, invoke_actor_stream_shares}
use nola.Environment.Beating.{stale_reference_refused, beaten_env}
use nola.Environment.Accepting.{timely_server_serves}
use nola.Registry.Servers.{heartbeat}
use nola.Registry.Activation.{ensure_activation}
use nola.Registry.Storage.{begin_transaction}
use nola.Environment.State.{apply_heartbeat}
use nola.Registry.Tests.{actor_x, state_of, Store}
use nola.Registry.State.{HeartbeatResult}
use nola.Environment.Discovered.{dns_actor_accepted}

abbrev opts_a : EnvironmentOptions
opts_a = record {
  activation_cache_ttl = 5_000_000_000;
  disable_activation_cache = false;
  discovery_type = "localhost";
  port = 9090;
  force_remote_procedure_calls = false;
  gc_actors_after = 60_000_000_000;
}

abbrev env_a : Environment
env_a = record {
  server_id = "a";
  address = "127.0.0.1:9090";
  opts = opts_a;
  heartbeat_result = record { version_stamp = 11; heartbeat_ttl = 5_000_000; server_version = 1 };
  frozen = false;
  paused = false;
  server_state = ("a", 1);
}

abbrev ref_of_x : Reference
ref_of_x = actor_ref (actor_ref_of "a" 1 "127.0.0.1:9090" "n" "m" "x" 1)

invoke_actor_direct_stream-eq-ok_iff_example :
    (invoke_actor_direct_stream env_a 20 "a" 1 ref_of_x new_activations
      ≡ ok (begin_invoke (record { reference = ref_of_x; is_timer = false }) new_activations))
    ↔ IsAccepted env_a 20 "a" 1
invoke_actor_direct_stream-eq-ok_iff_example =
    invoke_actor_direct_stream-eq-ok_iff env_a 20 "a" 1
      (record { call = omega arith; deadline = omega arith }) ref_of_x new_activations

abbrev ref_to : String → ActorRef
ref_to address = actor_ref_of "b" 1 address "n" "m" "x" 1

abbrev no_router : String → Bool
no_router _ = false

invoke_references-eq-panic_iff_example :
    (invoke_references env_a no_router (ref_to "localhost" ∷ []) ≡ panic) ↔ (
      (env_a.opts.force_remote_procedure_calls ≡ false)
      × (no_router "localhost" ≡ false)
      × ((◌≡◌ {A = String} "localhost" localhost_address)
          ⊎ (◌≡◌ {A = String} "localhost" localhost)))
invoke_references-eq-panic_iff_example =
    invoke_references-eq-panic_iff env_a no_router (ref_to "localhost") []

-- The cache and the registry of the run: the cache has one entry, the registry fails.
abbrev one_entry : String → Option (List ActorRef)
one_entry k = if_same (str_eq k "nxy")
  where
    if_same : Bool → Option (List ActorRef)
    if_same true = some (ref_to "10.0.0.1:9090" ∷ [])
    if_same false = none

abbrev no_registry : String → String → String → Result Error (List ActorRef)
no_registry _ _ _ = err Error.wrong_server_id

invoke_actor_stream_shares_example :
    invoke_actor_stream env_a no_router (ok 20) one_entry no_registry "nx" "y" "other"
    ≡ invoke_references env_a no_router (ref_to "10.0.0.1:9090" ∷ [])
unfolding cache_key str_eq
invoke_actor_stream_shares_example =
    invoke_actor_stream_shares env_a no_router 20 one_entry no_registry "n" "xy" "nx" "y" "other"
      (ref_to "10.0.0.1:9090") [] refl refl refl (not_empty "nx" refl) (not_empty "y" refl)
      (not_empty "other" refl)

stale_reference_refused_example :
    ((version_stamp : ℕ) (server_id : String)
      → check_direct (beaten_env late_result env_a) version_stamp server_id 1 ≢ ok tt)
    × ((beaten_env late_result env_a).server_state ≡ ("a", 2))
    × (read_server deps after_late_beat "a" ≡ ok (some (beaten 6_000_010 beat_state server_a)))
unfolding opened
stale_reference_refused_example =
    stale_reference_refused deps (ok 0) (ok 6_000_011) beat_state with_actor after_late_beat
      late_result env_a 6_000_010 server_a put-never_fails refl refl (omega arith) (omega arith)
      (omega arith) refl

abbrev head_of : List String → String
head_of [] = ""
head_of (x ∷ _) = x

abbrev is_nil_text : List String → Bool
is_nil_text [] = true
is_nil_text (_ ∷ _) = false

abbrev first_ring : HashRing
first_ring = record {
  Ring = List String;
  ring_of = λ l. l;
  is_empty = is_nil_text;
  get = λ l _. head_of l;
  is_empty-nil = refl;
  is_empty-cons = λ _ _. refl;
  get-Elem = λ _ _ _. inl refl;
}

abbrev before_discovery : DnsRegistry first_ring
before_discovery = record { port = "9090"; ips = []; hash_ring = [] }

abbrev two_ips : List Ip
two_ips = ip4 "10.0.0.1" ∷ neither ∷ ip4 "10.0.0.2" ∷ []

dns_actor_accepted_example :
    (ref : ActorRef) × (dns_ensure_activation first_ring "n" "x" "m"
        (discover first_ring (some two_ips) before_discovery).1
      ≡ ok (ref ∷ []))
    × Elem ref.address ("10.0.0.1:9090" ∷ "10.0.0.2:9090" ∷ [])
    × (check_direct
          (beaten_env dns_heartbeat env_a)
          dns_version_stamp
          ref.server_id
          ref.server_version
        ≡ ok tt)
unfolding addresses str_eq
dns_actor_accepted_example =
    dns_actor_accepted first_ring before_discovery two_ips "10.0.0.1:9090" ("10.0.0.2:9090" ∷ [])
      "n" "x" "m" env_a refl (not_empty "n" refl) (not_empty "x" refl) (not_empty "m" refl) refl

-- The next heartbeat of "a" comes one second later.
abbrev after_timely_beat : Store
after_timely_beat =
    state_of with_actor
      (heartbeat deps (ok 0) (ok 1_000_010) (ok 1_000_011) "a" beat_state with_actor)

abbrev timely_result : HeartbeatResult
timely_result = record { version_stamp = 1_000_011; heartbeat_ttl = 5_000_000; server_version = 1 }

timely_server_serves_example :
    (ref : ActorRef) × (ensure_activation deps (ok 1_000_100) "n" "x" "m" after_timely_beat
      ≡ ok (ref ∷ [], after_timely_beat))
    × (check_direct (beaten_env timely_result env_a) 1_000_200 ref.server_id ref.server_version
        ≡ ok tt)
    × (begin_transaction deps "n" "x" "m" "a" 1 after_timely_beat
        ≡ ok (record { namespace = "n"; actor_id = "x"; module_id = "m" }))
unfolding opened apply_heartbeat
timely_server_serves_example =
    timely_server_serves deps "n" "x" "m" actor_x server_a (ok 0) beat_state with_actor
      after_timely_beat timely_result env_a 1_000_010 1_000_011 1_000_100 1_000_200 put-never_fails
      refl refl refl refl refl refl refl (omega arith) (omega arith) (omega arith) (omega arith)
      (omega arith) (omega arith) (omega arith) (not_empty "a" refl)
      (not_empty "127.0.0.1:9090" refl)
      (not_empty "n" refl, not_empty "m" refl, not_empty "x" refl, λ e. omega (arith, e))

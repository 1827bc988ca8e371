-- ===== src/Registry/Tests.antt =====
-- Runs of the registry over an in-memory store, and the theorems at such states.
use nola.Base.{ℕ, ◌≡◌, refl, ok, err, Result, some, ◌∷◌, [], ◌>>=◌, List, String, arith}
use nola.Types.{Error, ActorRef}
use nola.LocalKv.Sorted.{sorted_tree}
use nola.LocalKv.Store.{new_local_kv, LocalKv, put, get, iter_prefix}
use nola.Concrete.Packages.{deps, running}
use nola.Registry.State.{
  HeartbeatState, HeartbeatResult, ServerState, RegisteredActor, actor_key, server_key,
  module_part_key, module_prefix, servers_prefix, no_options,
}
use nola.Registry.Servers.{heartbeat, read_server}
use nola.Registry.Actors.{get_actor}
use nola.Registry.Activation.{ensure_activation}
use nola.Registry.Modules.{register_module, get_module}
use nola.Registry.Storage.{begin_transaction}
use text.Mathlib.TextEquality.{eq_iff}
use nola.References.{actor_ref_of}
use nola.Registry.Storage.{ActorTransaction}
use nola.Registry.Keys.{server_key-ne-actor_key}
use nola.Registry.Fencing.{
  begin_transaction-eq-ok_iff, ensure_activation_fences, ensure_activation_frame,
}
use nola.Registry.Stamps.{heartbeat_known}
use nola.Registry.Balance.{load, pick_server_least}
use nola.Registry.Isolation.{tr_put_isolated}
use nola.Registry.Storage.{tr_get, tr_put}
use nola.Base.{◌≤◌, inr}
use nola.Registry.Records.{PutNeverFails}
use nola.Base.{Bool, panic, if◌then◌else◌}
use nola.Registry.Writing.{AcceptsPuts, register_module_total}
use nola.Registry.LateHeartbeat.{late_heartbeat_locks_out}
use nola.Base.{◌≢◌, ◌↔◌, sym, str_eq_iff, false, true, str_eq, has_prefix, bytes_eq}
use nola.LocalKv.Order.{bytes_lt}
use nola.Types.{new_actor_reference}
use nola.Registry.Servers.{known_or_new, beat, version_since}
use nola.Registry.Actors.{create_actor, inc_generation}
use nola.Registry.Activation.{
  get_or_create, or_create, place, replace, pick_server, collect_live, is_live, sort_by_load, first,
  reuse, placement_of, activate_on,
}

abbrev pub Store : Type 0
Store = LocalKv sorted_tree

-- The state after a call that succeeds.
abbrev pub state_of : {A : Type 0} → Store → Result Error (A × Store) → Store
state_of s (ok (_, t)) = t
state_of s _ = s

abbrev pub state_or : Store → Result Error Store → Store
state_or s (ok t) = t
state_or s _ = s

-- What the runs compute with.
unfoldable pub opened : Unit {0}
unfolding running new_local_kv register_module get_module put get iter_prefix ◌>>=◌ module_part_key
    module_prefix actor_key server_key servers_prefix heartbeat read_server get_actor
    ensure_activation begin_transaction known_or_new beat version_since create_actor get_or_create
    or_create place replace pick_server collect_live is_live sort_by_load first reuse placement_of
    activate_on new_actor_reference str_eq tr_get tr_put has_prefix bytes_eq bytes_lt inc_generation
opened = tt

abbrev pub beat_state : HeartbeatState
beat_state = record { num_activated_actors = 0; address = "127.0.0.1:9090" }

-- One module, "m", in the namespace "n".
abbrev pub with_module : Store
with_module = state_or (new_local_kv sorted_tree) (
    register_module deps "n" "m" [] (record { allow_empty_module_bytes = true })
      (new_local_kv sorted_tree))

-- The server "a" has sent a heartbeat at 10.
abbrev pub with_server : Store
with_server =
    state_of with_module (heartbeat deps (ok 10) (ok 10) (ok 11) "a" beat_state with_module)

-- The actor "x" is activated at 20, on that server.
abbrev pub with_actor : Store
with_actor = state_of with_server (ensure_activation deps (ok 20) "n" "x" "m" with_server)

-- The next heartbeat of "a" comes six seconds later.
abbrev pub after_late_beat : Store
after_late_beat =
    state_of with_actor
      (heartbeat deps (ok 0) (ok 6_000_010) (ok 6_000_011) "a" beat_state with_actor)

abbrev pub actor_x : RegisteredActor
actor_x = record {
  opts = no_options;
  module_id = "m";
  generation = 1;
  activation = record { server_id = "a"; server_version = 1 };
}

actor_is_placed : get_actor deps with_actor (actor_key deps "n" "x" "m") ≡ ok (some actor_x)
unfolding opened
actor_is_placed = refl

abbrev pub ref_x : ℕ → ActorRef
ref_x version = actor_ref_of "a" version "127.0.0.1:9090" "n" "m" "x" 1

begin_transaction-eq-ok_iff_example :
    ((tr : ActorTransaction) × (begin_transaction deps "n" "x" "m" "a" 1 with_actor ≡ ok tr)) ↔ (
      (deps.kv.begin_transaction with_actor ≡ ok tt)
      × (ra : RegisteredActor) × (get_actor deps with_actor (actor_key deps "n" "x" "m")
          ≡ ok (some ra))
      × (ra.activation.server_id ≡ "a")
      × (ra.activation.server_version ≡ 1))
begin_transaction-eq-ok_iff_example = begin_transaction-eq-ok_iff deps "n" "x" "m" "a" 1 with_actor

pub not_empty : (s : String) → str_eq s "" ≡ false → s ≢ ""
not_empty s h e = ground (arith, str_eq_iff s "", h, e)

pub b-ne-a : ◌≢◌ {A = String} "b" "a"
b-ne-a = ground (arith, eq_iff "b" "a")

put_answers : (c : Bool) (s : Store) (e : Error) → (if c then panic else ok s) ≢ err e
put_answers true s e h = ground (arith, h)
put_answers false s e h = ground (arith, h)

pub put-never_fails : PutNeverFails deps
unfolding put
put-never_fails s k v e = put_answers s.closed _ e

ensure_activation_fences_example :
    (◌≡◌ {A = List ActorRef} [] [])
    × (begin_transaction deps "n" "x" "m" "b" 1 with_actor ≡ err Error.wrong_server_id)
unfolding opened
ensure_activation_fences_example =
    ensure_activation_fences deps "n" "x" "m" (ok 20) with_server (ref_x 1) [] with_actor "b" 1
      put-never_fails refl b-ne-a

ensure_activation_frame_example :
    deps.kv.get with_actor (server_key deps "a") ≡ deps.kv.get with_server (server_key deps "a")
unfolding opened
ensure_activation_frame_example =
    ensure_activation_frame deps "n" "x" "m" (ok 20) with_server (ref_x 1) [] with_actor
      (server_key deps "a") refl (λ e. server_key-ne-actor_key deps "a" "n" "x" "m" (sym e))

abbrev pub server_a : ServerState
server_a = record {
  server_id = "a";
  last_heartbeated_at = 10;
  heartbeat_state = beat_state;
  server_version = 1;
}

abbrev pub late_result : HeartbeatResult
late_result = record { version_stamp = 6_000_011; heartbeat_ttl = 5_000_000; server_version = 2 }

heartbeat_known_example :
    (◌≡◌ {A = ℕ} 2 2)
    × (read_server deps after_late_beat "a"
        ≡ ok (some (record server_a { last_heartbeated_at = 6_000_010; server_version = 2 })))
unfolding opened
heartbeat_known_example =
    heartbeat_known deps (ok 0) (ok 6_000_010) (ok 6_000_011) "a" beat_state with_actor
      after_late_beat late_result refl 6_000_010 server_a put-never_fails refl refl (omega arith)

late_heartbeat_locks_out_example :
    (ensure_activation deps (ok 6_000_100) "n" "x" "m" after_late_beat
      ≡ ok (ref_x 2 ∷ [], after_late_beat))
    × (begin_transaction deps "n" "x" "m" "a" 2 after_late_beat ≡ err Error.wrong_server_version)
unfolding opened
late_heartbeat_locks_out_example =
    late_heartbeat_locks_out deps "n" "x" "m" actor_x server_a (ok 0) (ok 6_000_011) beat_state
      with_actor after_late_beat late_result 6_000_010 6_000_100 put-never_fails refl refl refl
      (omega arith) refl (omega arith) (omega arith) (omega arith) (omega arith)
      (not_empty "a" refl) (not_empty "127.0.0.1:9090" refl)
      (not_empty "n" refl, not_empty "m" refl, not_empty "x" refl, omega arith)

pick_server_least_example : (is_live 20 server_a ≡ ok true) × (load server_a ≤ load server_a)
unfolding opened
pick_server_least_example =
    pick_server_least deps 20 with_server server_a "a" server_a refl refl refl

abbrev tr_x : ActorTransaction
tr_x = record { namespace = "n"; actor_id = "x"; module_id = "m" }

abbrev after_put : Store
after_put = state_or with_actor (tr_put deps tr_x (7 ∷ []) (1 ∷ 2 ∷ []) with_actor)

tr_put_isolated_example :
    (tr_get deps tr_x (8 ∷ []) after_put ≡ tr_get deps tr_x (8 ∷ []) with_actor)
    × (get_actor deps after_put (actor_key deps "n" "x" "m")
        ≡ get_actor deps with_actor (actor_key deps "n" "x" "m"))
    × (read_server deps after_put "a" ≡ read_server deps with_actor "a")
unfolding opened
tr_put_isolated_example =
    tr_put_isolated deps tr_x (7 ∷ []) (1 ∷ 2 ∷ []) with_actor after_put refl tr_x (8 ∷ []) "n" "x"
      "m" "a" (inr (λ e. ground arith))

-- An open in-memory store accepts every put and stays open.
open_store : AcceptsPuts deps (λ s. s.closed ≡ false)
unfolding put
open_store s k v open_now =
    (record s { b = sorted_tree.replace_or_insert s.b k v }, rw open_now refl, open_now)

register_module_total_example :
    (t : Store) × (register_module deps "n" "w"
        (1 ∷ [])
        (record { allow_empty_module_bytes = false })
        with_module
      ≡ ok t)
    × (t.closed ≡ false)
unfolding opened
register_module_total_example =
    register_module_total deps (λ s. s.closed ≡ false) open_store "n" "w" (1 ∷ [])
      (record { allow_empty_module_bytes = false }) (0 ∷ 1 ∷ []) with_module refl refl refl

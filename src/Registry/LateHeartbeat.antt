-- ===== src/Registry/LateHeartbeat.antt =====
-- A server that comes back after its heartbeat has expired (virtual/registry/kv_registry.go):
-- `Heartbeat` gives it a new version, `EnsureActivation` goes on to use the activation that was made
-- under the old one, and `BeginTransaction` compares the two.
use nola.Base.{
  ◌≡◌, ◌≢◌, refl, ap, ◌∙◌, ℕ, ◌+◌, ◌-◌, ◌%◌, ◌≤◌, ◌<◌, String, str_eq_ne, some, true, [], ◌∷◌,
  Result, ok, err, ok-bind, arith, ◌>>=◌,
}
use nola.Types.{Error}
use nola.References.{actor_ref_of, IsNamed, new_actor_reference_made}
use nola.Registry.State.{
  Deps, RegisteredActor, ServerState, HeartbeatState, HeartbeatResult, actor_key,
}
use nola.Registry.Servers.{word, read_server, heartbeat}
use nola.Registry.Actors.{get_actor}
use nola.Registry.Activation.{place, or_create, get_or_create, ensure_activation, is_live, reuse}
use nola.Registry.Storage.{begin_transaction}
use nola.Registry.Placing.{Holds, key}
use nola.Registry.Records.{PutNeverFails}
use nola.Registry.Fencing.{begin_transaction_outdated}
use nola.Registry.Stamps.{
  IsOrdered, ttl_micros, next_version, beaten, heartbeat_known, heartbeat_actors, is_live-within,
}

module _ (d : Deps) (namespace actor_id module_id : String) (ra : RegisteredActor)
    (server : ServerState) (s : d.kv.State) (vs : ℕ)
    (had : Holds d s (key d namespace actor_id module_id) ra)
    (known : read_server d s ra.activation.server_id ≡ ok (some server))
    (live : is_live vs server ≡ ok true) (placed : ra.activation.server_id ≢ "") where
  get_or_create_had : get_or_create d namespace actor_id module_id s ≡ ok (ra, s)
  unfolding get_or_create or_create
  get_or_create_had = rw had (ok-bind _ _)

  place_reuses :
      place d namespace actor_id module_id vs ra (some server) s ≡ ok (reuse ra server, s)
  unfolding place
  place_reuses = rw (live, ok-bind, str_eq_ne _ _ placed)

  -- While the activation's server is live, `EnsureActivation` answers it and writes nothing.
  pub ensure_activation_reuses :
      IsNamed namespace ra.module_id actor_id ra.generation
      → server.heartbeat_state.address ≢ ""
      → ensure_activation d (ok vs) namespace actor_id module_id s
        ≡ ok (
          actor_ref_of ra.activation.server_id server.server_version server.heartbeat_state.address
                namespace ra.module_id actor_id ra.generation
              ∷ [],
          s,
        )
  unfolding ensure_activation reuse
  ensure_activation_reuses named reachable = rw (
    get_or_create_had,
    ok-bind,
    known,
    ok-bind,
    ok-bind,
    place_reuses,
    ok-bind,
    new_actor_reference_made _ _ _ _ _ _ _ named placed reachable,
    ok-bind,
  )

pub next_version_after :
    (vs : ℕ) (old : ServerState)
    → ttl_micros ≤ vs - old.last_heartbeated_at
    → next_version vs old ≡ (old.server_version + 1) % word
next_version_after vs old late = ground arith

pub next_version_moves : (v : ℕ) → v < word → v ≢ (v + 1) % word
next_version_moves v h = omega arith

-- Over a store whose puts do not fail, and whose `Transact` fails only where the function in it does,
-- an actor is activated on a server under the server's present
-- version, and the server's next heartbeat comes after the TTL and succeeds. Then
-- `EnsureActivation`, called within the TTL of that heartbeat, goes on to answer the server, with its
-- new version, and writes nothing; and the server, which knows its new version from the heartbeat,
-- is refused when it begins a transaction on the actor's storage: with the store's own error if the
-- store cannot begin one, and otherwise since the versions differ. The stamps are in order and less
-- than 292 years apart, the version is a 64-bit number, and the server's ID and address and the
-- parts of the actor's reference are not empty.
pub late_heartbeat_locks_out :
    (d : Deps) (namespace actor_id module_id : String) (ra : RegisteredActor) (old : ServerState)
    (stamp_new stamp_result : Result Error ℕ) (hb : HeartbeatState) (s t : d.kv.State)
    (r : HeartbeatResult) (vs later : ℕ)
    → PutNeverFails d
    → get_actor d s (actor_key d namespace actor_id module_id) ≡ ok (some ra)
    → read_server d s ra.activation.server_id ≡ ok (some old)
    → ra.activation.server_version ≡ old.server_version
    → old.server_version < word
    → heartbeat d stamp_new (ok vs) stamp_result ra.activation.server_id hb s ≡ ok (r, t)
    → IsOrdered old.last_heartbeated_at vs
    → ttl_micros ≤ vs - old.last_heartbeated_at
    → IsOrdered vs later
    → later - vs < ttl_micros
    → ra.activation.server_id ≢ ""
    → hb.address ≢ ""
    → IsNamed namespace ra.module_id actor_id ra.generation
    → (ensure_activation d (ok later) namespace actor_id module_id t
        ≡ ok (
          actor_ref_of ra.activation.server_id r.server_version hb.address namespace ra.module_id
                actor_id ra.generation
              ∷ [],
          t,
        ))
      × (begin_transaction d namespace actor_id module_id ra.activation.server_id r.server_version t
          ≡ (d.kv.begin_transaction t >>= λ _. err Error.wrong_server_version))
late_heartbeat_locks_out d namespace actor_id module_id ra old stamp_new stamp_result hb s t r vs
      later never had known same small beat o late o' soon placed reachable named =
    let (version, stored) =
      heartbeat_known d stamp_new (ok vs) stamp_result ra.activation.server_id hb s t r beat vs old
        never known refl o in
    let still : Holds d t (key d namespace actor_id module_id) ra =
      heartbeat_actors d stamp_new (ok vs) stamp_result ra.activation.server_id hb s t r beat
        namespace actor_id module_id
      ∙ had in
    let live : is_live later (beaten vs hb old) ≡ ok true =
      is_live-within later (beaten vs hb old) o' ∙ ap ok (ground arith) in
    (
      ensure_activation_reuses d namespace actor_id module_id ra (beaten vs hb old) t later still
            stored live placed named reachable
          ∙ rw version refl,
      begin_transaction_outdated d namespace actor_id module_id t ra ra.activation.server_id
          r.server_version still refl
          (rw (same, version, next_version_after vs old late)
            (next_version_moves old.server_version small)),
    )

-- ===== src/Environment/Accepting.antt =====
-- The way of a call when the server heartbeats in time: `heartbeat` and `InvokeActorDirectStream` of
-- virtual/environment.go with `EnsureActivation` and `BeginTransaction` of
-- virtual/registry/kv_registry.go.
use nola.Base.{
  ℕ, ◌+◌, ◌-◌, ◌^◌, ◌≤◌, ◌<◌, ◌≡◌, ◌≢◌, refl, inl, sym, ap, ◌∙◌, String, false, true, some, [], ◌∷◌,
  Result, ok, arith,
}
use nola.Types.{Error, ActorRef}
use nola.References.{actor_ref_of, IsNamed}
use nola.Registry.State.{
  Deps, RegisteredActor, ServerState, HeartbeatState, HeartbeatResult, actor_key,
}
use nola.Registry.Servers.{heartbeat, read_server}
use nola.Registry.Actors.{get_actor}
use nola.Registry.Activation.{ensure_activation, is_live}
use nola.Registry.Storage.{begin_transaction}
use nola.Registry.Placing.{Holds, key}
use nola.Registry.Records.{PutNeverFails}
use nola.Registry.Fencing.{begin_transaction_accepts}
use nola.Registry.LateHeartbeat.{ensure_activation_reuses}
use nola.Registry.Stamps.{
  IsOrdered, ttl_micros, next_version, beaten, heartbeat_known, heartbeat_actors, heartbeat_stamped,
  is_live-within,
}
use nola.Environment.State.{Environment, check_direct, apply_heartbeat}
use nola.Environment.Checks.{IsAccepted-check_direct}
use nola.Environment.Beating.{beaten_env}

-- The environment after a heartbeat accepts a call for its server at the version that it answered.
accepts_beaten :
    (r : HeartbeatResult) (env : Environment) (call stamp : ℕ) (server_id : String)
    → env.frozen ≡ false
    → server_id ≡ env.server_id
    → server_id ≢ ""
    → (r.version_stamp ≡ stamp) × (r.heartbeat_ttl ≡ ttl_micros)
    → 0 < call
    → call ≤ stamp + ttl_micros
    → stamp + ttl_micros < 2 ^ 63
    → check_direct (beaten_env r env) call server_id r.server_version ≡ ok tt
unfolding apply_heartbeat
accepts_beaten r env call stamp server_id live own named (at, ttl) positive in_time bound =
    IsAccepted-check_direct (beaten_env r env) call server_id r.server_version
      (record { call = omega (arith, in_time, bound); deadline = rw (live, at, ttl) bound })
      (record {
        named = named;
        addressed = inl own;
        started = positive;
        in_time = rw (live, at, ttl) in_time;
        current = rw live refl;
      })

-- Over a store whose puts do not fail, and whose `Transact` fails only where the function in it does,
-- an actor is activated on the server of an environment that is
-- not frozen, under the version of
-- the server's record, and the environment heartbeats within the TTL of its last heartbeat. Then
-- `EnsureActivation` within the next TTL answers one reference to that server and writes nothing;
-- the environment accepts a direct call with it at every positive stamp up to the end of the
-- heartbeat's time; and `BeginTransaction` with the ID and version that the environment gives to
-- new transactions succeeds, where the store begins a transaction. The stamps are in order and less
-- than 292 years apart, the end of the heartbeat's time fits an
-- `int64`, and the server's ID and address and the parts of the actor's reference are not empty.
pub timely_server_serves :
    (d : Deps) (namespace actor_id module_id : String) (ra : RegisteredActor) (old : ServerState)
    (stamp_new : Result Error ℕ) (hb : HeartbeatState) (s t : d.kv.State) (r : HeartbeatResult)
    (env : Environment) (vs stamp later call : ℕ)
    → PutNeverFails d
    → d.kv.begin_transaction t ≡ ok tt
    → get_actor d s (actor_key d namespace actor_id module_id) ≡ ok (some ra)
    → read_server d s ra.activation.server_id ≡ ok (some old)
    → ra.activation.server_version ≡ old.server_version
    → ra.activation.server_id ≡ env.server_id
    → heartbeat d stamp_new (ok vs) (ok stamp) ra.activation.server_id hb s ≡ ok (r, t)
    → env.frozen ≡ false
    → IsOrdered old.last_heartbeated_at vs
    → vs - old.last_heartbeated_at < ttl_micros
    → IsOrdered vs later
    → later - vs < ttl_micros
    → 0 < call
    → call ≤ stamp + ttl_micros
    → stamp + ttl_micros < 2 ^ 63
    → ra.activation.server_id ≢ ""
    → hb.address ≢ ""
    → IsNamed namespace ra.module_id actor_id ra.generation
    → (ref : ActorRef) × (ensure_activation d (ok later) namespace actor_id module_id t
        ≡ ok (ref ∷ [], t))
      × (check_direct (beaten_env r env) call ref.server_id ref.server_version ≡ ok tt)
      × (begin_transaction d namespace actor_id module_id
            (beaten_env r env).server_state.0
            (beaten_env r env).server_state.1
            t
          ≡ ok (record { namespace = namespace; actor_id = actor_id; module_id = module_id }))
unfolding apply_heartbeat
timely_server_serves d namespace actor_id module_id ra old stamp_new hb s t r env vs stamp later
      call never begun had known same own beat live o soon o' within positive in_time bound placed
      reachable named =
    let (version, stored) =
      heartbeat_known d stamp_new (ok vs) (ok stamp) ra.activation.server_id hb s t r beat vs old
        never known refl o in
    let still : Holds d t (key d namespace actor_id module_id) ra =
      heartbeat_actors d stamp_new (ok vs) (ok stamp) ra.activation.server_id hb s t r beat
        namespace actor_id module_id
      ∙ had in
    let is_live_then : is_live later (beaten vs hb old) ≡ ok true =
      is_live-within later (beaten vs hb old) o' ∙ ap ok (ground arith) in
    let kept : next_version vs old ≡ old.server_version = ground arith in
    (
      actor_ref_of ra.activation.server_id r.server_version hb.address namespace ra.module_id
          actor_id ra.generation,
      ensure_activation_reuses d namespace actor_id module_id ra (beaten vs hb old) t later still
            stored is_live_then placed named reachable
          ∙ rw version refl,
      accepts_beaten r env call stamp ra.activation.server_id live own placed
          (heartbeat_stamped d stamp_new (ok vs) (ok stamp) ra.activation.server_id hb s t r beat
            stamp refl)
          positive in_time bound,
      begin_transaction_accepts d namespace actor_id module_id t ra env.server_id r.server_version
          still own (same ∙ sym kept ∙ sym version) begun,
    )

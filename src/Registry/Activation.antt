-- ===== src/Registry/Activation.antt =====
-- Where an actor runs: `EnsureActivation` of virtual/registry/kv_registry.go.
use nola.Base.{
  ℕ, String, Bool, ◌&&◌, not, Option, none, some, List, [], ◌∷◌, Result, ok, err, ◌>>=◌, or_fail,
  Bytes, ltb, if◌then◌else◌, str_eq,
}
use nola.Types.{Error, ActorRef, new_actor_reference}
use nola.Registry.State.{
  Deps, RegisteredActor, ServerState, no_options, zero_server, actor_key, servers_prefix, unchecked,
}
use nola.Registry.Servers.{version_since, read_server, lt_int64, heartbeat_ttl_nanos}
use nola.Registry.Actors.{get_actor, create_actor, is_some}

-- `versionSince(vs, s.LastHeartbeatedAt) < HeartbeatTTL`.
unfoldable pub is_live : ℕ → ServerState → Result Error Bool
is_live vs server = do
  since ← version_since vs server.last_heartbeated_at
  ok (lt_int64 since heartbeat_ttl_nanos)

-- `sort.Slice` by the number of activated actors, as the insertion sort of short slices.
unfoldable pub insert_by_load : ServerState → List ServerState → List ServerState
insert_by_load x [] = x ∷ []
insert_by_load x (y ∷ l) =
    if ltb y.heartbeat_state.num_activated_actors x.heartbeat_state.num_activated_actors
    then y ∷ insert_by_load x l
    else x ∷ y ∷ l

unfoldable pub sort_by_load : List ServerState → List ServerState
unfolding insert_by_load
sort_by_load [] = []
sort_by_load (x ∷ l) = insert_by_load x (sort_by_load l)

-- `liveServers[0]`.
unfoldable pub first : List ServerState → Result Error ServerState
first [] = err Error.no_live_servers
first (x ∷ l) = ok x

-- `serverID`, `serverVersion` and `serverAddress`.
pub record Placement : Type 0 where
  pub server_id : String
  pub server_version : ℕ
  pub address : String

abbrev pub or_zero : Option ServerState → ServerState
or_zero none = zero_server
or_zero (some server) = server

unfoldable pub activate_on : ServerState → RegisteredActor → RegisteredActor
activate_on server ra = record ra {
  activation = record { server_id = server.server_id; server_version = server.server_version };
}

unfoldable pub placement_of : ServerState → Placement
placement_of server = record {
  server_id = server.server_id;
  server_version = server.server_version;
  address = server.heartbeat_state.address;
}

-- The present activation, with the version and the address that the server's record gives.
unfoldable pub reuse : RegisteredActor → ServerState → Placement
reuse ra server = record {
  server_id = ra.activation.server_id;
  server_version = server.server_version;
  address = server.heartbeat_state.address;
}

module _ (d : Deps) where
  -- The callback of `IterPrefix`, pair by pair.
  unfoldable pub collect_live : ℕ → List (Bytes × Bytes) → Result Error (List ServerState)
  collect_live vs [] = ok []
  collect_live vs (e ∷ l) = do
    server ← d.server_codec.unmarshal e.1
    live ← is_live vs server
    rest ← collect_live vs l
    ok (if live then server ∷ rest else rest)

  -- The actor's record, created if there was none.
  unfoldable pub or_create :
      String
      → String
      → String
      → d.kv.State
      → Option RegisteredActor
      → Result Error (RegisteredActor × d.kv.State)
  or_create namespace actor_id module_id s (some ra) = ok (ra, s)
  or_create namespace actor_id module_id s none = do
    s' ← create_actor d namespace actor_id module_id no_options s
    again ← get_actor d s' (actor_key d namespace actor_id module_id)
    ra ← or_fail again Error.actor_does_not_exist
    ok (ra, s')

  unfoldable pub get_or_create :
      String → String → String → d.kv.State → Result Error (RegisteredActor × d.kv.State)
  get_or_create namespace actor_id module_id s = do
    found ← get_actor d s (actor_key d namespace actor_id module_id)
    or_create namespace actor_id module_id s found

  -- `liveServers`, sorted, and its first.
  unfoldable pub pick_server : ℕ → d.kv.State → Result Error ServerState
  pick_server vs s = do
    pairs ← d.kv.iter_prefix s (servers_prefix d)
    live ← collect_live vs pairs
    first (sort_by_load live)

  -- A new activation on the live server with the fewest actors.
  unfoldable pub replace :
      String
      → String
      → String
      → ℕ
      → RegisteredActor
      → d.kv.State
      → Result Error (Placement × d.kv.State)
  replace namespace actor_id module_id vs ra s = do
    server ← pick_server vs s
    marshaled ← d.actor_codec.marshal (activate_on server ra)
    s' ← unchecked s (d.kv.put s (actor_key d namespace actor_id module_id) marshaled)
    ok (placement_of server, s')

  -- The server to route to: the present one while it is live, otherwise a new one.
  unfoldable pub place :
      String
      → String
      → String
      → ℕ
      → RegisteredActor
      → Option ServerState
      → d.kv.State
      → Result Error (Placement × d.kv.State)
  unfolding replace
  place namespace actor_id module_id vs ra found s = do
    live ← is_live vs (or_zero found)
    (if not (str_eq ra.activation.server_id "") && is_some found && live
        then ok (reuse ra (or_zero found), s)
        else replace namespace actor_id module_id vs ra s)

  unfoldable pub ensure_activation :
      Result Error ℕ
      → String
      → String
      → String
      → d.kv.State
      → Result Error (List ActorRef × d.kv.State)
  ensure_activation stamp namespace actor_id module_id s = do
    (ra, s') ← get_or_create namespace actor_id module_id s
    found ← read_server d s' ra.activation.server_id
    vs ← stamp
    (placement, t) ← place namespace actor_id module_id vs ra found s'
    ref ←
        new_actor_reference placement.server_id placement.server_version placement.address namespace
          ra.module_id actor_id ra.generation
    ok (ref ∷ [], t)

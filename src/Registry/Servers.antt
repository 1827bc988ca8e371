-- ===== src/Registry/Servers.antt =====
-- Liveness of servers: `versionSince`, `HeartbeatTTL` and `Heartbeat` of
-- virtual/registry/kv_registry.go. A call of `GetVersionStamp` is an argument: what the store
-- answers there.
use nola.Base.{
  ℕ, ◌+◌, ◌-◌, ◌*◌, ◌%◌, ◌^◌, ltb, if◌then◌else◌, String, Bool, Option, none, some, Result, ok,
  panic, ◌>>=◌,
}
use nola.Types.{Error}
use nola.Registry.State.{Deps, ServerState, HeartbeatState, HeartbeatResult, server_key, unchecked}

-- The modulus of `int64` and `uint64`.
abbrev pub word : ℕ
word = 2 ^ 64

-- `HeartbeatTTL`, in nanoseconds as a `time.Duration`.
abbrev pub heartbeat_ttl_nanos : ℕ
heartbeat_ttl_nanos = 5 * 1_000_000_000

-- The order of `int64` on bit patterns.
abbrev pub lt_int64 : ℕ → ℕ → Bool
lt_int64 a b = ltb ((a + 2 ^ 63) % word) ((b + 2 ^ 63) % word)

-- A duration in nanoseconds, as the bit pattern of its `int64`.
unfoldable pub version_since : ℕ → ℕ → Result Error ℕ
version_since curr prev = if ltb curr prev then panic else ok ((curr - prev) * 1_000 % word)

-- The state to update: a new server's has the first stamp that the store answers.
unfoldable pub known_or_new :
    Option ServerState → String → Result Error ℕ → Result Error ServerState
known_or_new (some state) server_id stamp = ok state
known_or_new none server_id stamp = do
  vs ← stamp
  ok (record {
    server_id = server_id;
    last_heartbeated_at = vs;
    heartbeat_state = record { num_activated_actors = 0; address = "" };
    server_version = 1;
  })

-- The updates of `state` in `Heartbeat`, at the stamp `vs` and `since` nanoseconds after the last.
unfoldable pub beat : ℕ → ℕ → HeartbeatState → ServerState → ServerState
beat vs since heartbeat_state state = record {
  server_id = state.server_id;
  last_heartbeated_at = vs;
  heartbeat_state = heartbeat_state;
  server_version =
      if lt_int64 since heartbeat_ttl_nanos
      then state.server_version
      else (state.server_version + 1) % word;
}

module _ (d : Deps) where
  -- `serverState` at its key, `none` if there is none.
  unfoldable pub read_server : d.kv.State → String → Result Error (Option ServerState)
  read_server s server_id = do
    v ← d.kv.get s (server_key d server_id)
    elim v [ none ↦ ok none | some b ↦ (do state ← d.server_codec.unmarshal b; ok (some state)) ]

  -- The three stamps are what `GetVersionStamp` answers for a new server, for the time of the
  -- heartbeat and for the result.
  unfoldable pub heartbeat :
      Result Error ℕ
      → Result Error ℕ
      → Result Error ℕ
      → String
      → HeartbeatState
      → d.kv.State
      → Result Error (HeartbeatResult × d.kv.State)
  heartbeat stamp_new stamp_now stamp_result server_id heartbeat_state s = do
    found ← read_server s server_id
    state ← known_or_new found server_id stamp_new
    vs ← stamp_now
    since ← version_since vs state.last_heartbeated_at
    let next = beat vs since heartbeat_state state
    marshaled ← d.server_codec.marshal next
    s' ← unchecked s (d.kv.put s (server_key d server_id) marshaled)
    result ← stamp_result
    ok (
      record {
        version_stamp = result;
        heartbeat_ttl = 5_000_000;
        server_version = next.server_version;
      },
      s',
    )

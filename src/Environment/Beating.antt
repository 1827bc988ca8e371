-- ===== src/Environment/Beating.antt =====
-- Heartbeats of an environment over the registry: `heartbeat` and `InvokeActorDirectStream` of
-- virtual/environment.go with `Heartbeat` of virtual/registry/kv_registry.go.
use nola.Base.{
  ℕ, ◌+◌, ◌-◌, ◌%◌, ◌≤◌, ◌<◌, ◌≡◌, ◌≢◌, refl, sym, ap, ◌∙◌, String, some, true, false, not, List,
  [], ◌∷◌, Result, ok, arith, from_bind, fail_if-eq-ok, ◌==◌,
}
use nola.Types.{Error}
use nola.Registry.State.{Deps, ServerState, HeartbeatState, HeartbeatResult}
use nola.Registry.Servers.{word, heartbeat, read_server}
use nola.Registry.Records.{PutNeverFails}
use nola.Registry.Stamps.{IsOrdered, beaten, ttl_micros, heartbeat_known}
use nola.Registry.LateHeartbeat.{next_version_after, next_version_moves}
use nola.Environment.State.{
  Environment, apply_heartbeat, check_direct, Background, tick, pause_heartbeat, resume_heartbeat,
}

other_version_refused :
    (env : Environment) (version_stamp : ℕ) (server_id : String) (server_version : ℕ)
    → env.heartbeat_result.server_version ≢ server_version
    → check_direct env version_stamp server_id server_version ≢ ok tt
unfolding check_direct
other_version_refused env version_stamp server_id server_version ne h = from_bind _ _ h λ _ e1 h1.
    from_bind _ _ h1 λ _ e2 h2. from_bind _ _ h2 λ _ e3 h3. from_bind _ _ h3 λ _ e4 h4.
      from_bind _ _ h4 λ _ e5 h5.
        let same : not (env.heartbeat_result.server_version == server_version) ≡ false =
          fail_if-eq-ok _ _ e5 in
        ground (arith, same, ne)

-- The environment after a heartbeat that the registry has answered.
abbrev pub beaten_env : HeartbeatResult → Environment → Environment
beaten_env r env = (apply_heartbeat (ok r) env).1

-- Over a store whose puts do not fail: after a successful late heartbeat of a known server, whose environment
-- is not frozen, with the stamps in order and less than 292 years apart and the version a 64-bit
-- number, the environment refuses every direct call at the version that the server had before it, and gives new
-- transactions the version that the registry now has for it.
pub stale_reference_refused :
    (d : Deps) (stamp_new stamp_result : Result Error ℕ) (hb : HeartbeatState) (s t : d.kv.State)
    (r : HeartbeatResult) (env : Environment) (vs : ℕ) (old : ServerState)
    → PutNeverFails d
    → heartbeat d stamp_new (ok vs) stamp_result env.server_id hb s ≡ ok (r, t)
    → read_server d s env.server_id ≡ ok (some old)
    → IsOrdered old.last_heartbeated_at vs
    → ttl_micros ≤ vs - old.last_heartbeated_at
    → old.server_version < word
    → env.frozen ≡ false
    → ((version_stamp : ℕ) (server_id : String)
        → check_direct (beaten_env r env) version_stamp server_id old.server_version ≢ ok tt)
      × ((beaten_env r env).server_state ≡ (env.server_id, (old.server_version + 1) % word))
      × (read_server d t env.server_id ≡ ok (some (beaten vs hb old)))
unfolding apply_heartbeat
stale_reference_refused d stamp_new stamp_result hb s t r env vs old never beat known o late small
      live =
    let (answered, stored) =
      heartbeat_known d stamp_new (ok vs) stamp_result env.server_id hb s t r beat vs old never
        known refl o in
    let next : r.server_version ≡ (old.server_version + 1) % word =
      answered ∙ next_version_after vs old late in
    let version : (beaten_env r env).heartbeat_result.server_version
        ≡ (old.server_version + 1) % word =
      rw live next in
    (
      λ version_stamp server_id.
          other_version_refused (beaten_env r env) version_stamp server_id old.server_version
            (λ e. next_version_moves old.server_version small (sym e ∙ version)),
      ap (λ (n : ℕ). (env.server_id, n)) next,
      stored,
    )

-- The ticks of the background goroutine, with the answers that the registry has for them.
unfoldable pub ticks : List (Result Error HeartbeatResult) → Background → Background
ticks [] b = b
ticks (answer ∷ answers) b = ticks answers (tick answer b)

ended :
    (answers : List (Result Error HeartbeatResult)) (env : Environment)
    → (ticks answers (record { env = env; running = false })).env ≡ env
unfolding ticks tick
ended [] env = refl
ended (answer ∷ answers) env = ended answers env

-- A pause that a tick sees, and the resumption after it.
abbrev pub paused_and_resumed : Environment → Result Error HeartbeatResult → Background
paused_and_resumed env first =
    let seen = tick first (record { env = pause_heartbeat env; running = true }) in
    record seen { env = resume_heartbeat seen.env }

-- Once a tick has found heartbeats paused, no later tick changes the environment, whatever the
-- registry would answer, although heartbeats have been resumed.
pub pause_ends_heartbeats :
    (env : Environment) (first : Result Error HeartbeatResult)
    (answers : List (Result Error HeartbeatResult))
    → (ticks answers (paused_and_resumed env first)).env ≡ resume_heartbeat (pause_heartbeat env)
unfolding tick pause_heartbeat
pause_ends_heartbeats env first answers = ended answers (resume_heartbeat (pause_heartbeat env))

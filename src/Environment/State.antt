-- ===== src/Environment/State.antt =====
-- The state and the operations of `environment` (virtual/environment.go).
use Prim.Native.String.{◌++◌}
use nola.Base.{
  ℕ, ◌==◌, ◌+◌, ◌%◌, ◌*◌, String, str_eq, Bool, true, false, not, ◌&&◌, ◌||◌, Option, none, some,
  List, [], ◌∷◌, Result, ok, err, panic, ◌>>=◌, ◌>>◌, fail_if, if◌then◌else◌,
}
use nola.Types.{Error, ActorRef, VirtualRef, new_virtual_worker_reference}
use nola.Registry.State.{HeartbeatResult}
use nola.Registry.Servers.{lt_int64, word}
use nola.Dns.State.{dns_server_id, localhost, local_address}
use nola.Activations.State.{Activations, Position, Reference, virtual_ref, begin_invoke}

-- The errors, each named for the place that makes it.
pub data EnvironmentError : Type 0 where
  empty_server_id wrong_server : EnvironmentError
  illegal_version_stamp heartbeat_expired wrong_version : EnvironmentError
  empty_namespace empty_actor_id empty_module_id : EnvironmentError
  no_references : EnvironmentError
  unknown_discovery_type zero_port negative_gc : EnvironmentError
  registry_failed : Error → EnvironmentError
  bad_reference : Error → EnvironmentError

-- `EnvironmentOptions` without its host functions. Durations are bit patterns of `int64`.
pub record EnvironmentOptions : Type 0 where
  pub activation_cache_ttl : ℕ
  pub disable_activation_cache : Bool
  pub discovery_type : String
  pub port : ℕ
  pub force_remote_procedure_calls : Bool
  pub gc_actors_after : ℕ

-- `Localhost`.
abbrev pub localhost_address : String
localhost_address = "127.0.0.1"

unfoldable pub validate_discovery : EnvironmentOptions → Result EnvironmentError (Unit {0})
validate_discovery opts = do
  fail_if
      (not (str_eq opts.discovery_type "localhost") && not (str_eq opts.discovery_type "remote"))
      unknown_discovery_type
  fail_if (opts.port == 0 && not (str_eq opts.discovery_type "localhost")) zero_port
  ok tt

unfoldable pub validate_options : EnvironmentOptions → Result EnvironmentError (Unit {0})
unfolding validate_discovery
validate_options opts = do
  validate_discovery opts
  fail_if (lt_int64 opts.gc_actors_after 0) negative_gc
  ok tt

-- The defaults that `NewEnvironment` puts in, in nanoseconds.
unfoldable pub with_defaults : EnvironmentOptions → EnvironmentOptions
with_defaults opts = record opts {
  activation_cache_ttl =
      if opts.activation_cache_ttl == 0 then 5 * 1_000_000_000 else opts.activation_cache_ttl;
  gc_actors_after = if opts.gc_actors_after == 0 then 60 * 1_000_000_000 else opts.gc_actors_after;
}

-- The discovery type that `NewDNSRegistryEnvironment` chooses.
unfoldable pub discovery_type_of : String → String
discovery_type_of host =
    if str_eq host localhost_address || str_eq host local_address then "localhost" else "remote"

-- The options with which `NewDNSRegistryEnvironment` goes on.
unfoldable pub dns_options : String → ℕ → EnvironmentOptions → EnvironmentOptions
dns_options host port opts = record opts { port = port; discovery_type = discovery_type_of host }

-- `server_state` is what the activations hand to new transactions.
pub record Environment : Type 0 where
  pub server_id : String
  pub address : String
  pub opts : EnvironmentOptions
  pub heartbeat_result : HeartbeatResult
  pub frozen : Bool
  pub paused : Bool
  pub server_state : String × ℕ

-- The checks of `InvokeActorDirectStream`. Stamps and versions are bit patterns of `int64`.
unfoldable pub check_direct : Environment → ℕ → String → ℕ → Result EnvironmentError (Unit {0})
check_direct env version_stamp server_id server_version = do
  fail_if (str_eq server_id "") empty_server_id
  fail_if (not (str_eq server_id env.server_id) && not (str_eq server_id dns_server_id))
      wrong_server
  fail_if (not (lt_int64 0 version_stamp)) illegal_version_stamp
  fail_if
      (lt_int64 ((env.heartbeat_result.version_stamp + env.heartbeat_result.heartbeat_ttl) % word)
        version_stamp)
      heartbeat_expired
  fail_if (not (env.heartbeat_result.server_version == server_version)) wrong_version
  ok tt

-- `InvokeActorDirectStream` up to the first critical section of the activations.
unfoldable pub invoke_actor_direct_stream :
    Environment
    → ℕ
    → String
    → ℕ
    → Reference
    → Activations
    → Result EnvironmentError (Activations × Position)
unfolding check_direct
invoke_actor_direct_stream env version_stamp server_id server_version reference a = do
  check_direct env version_stamp server_id server_version
  ok (begin_invoke (record { reference = reference; is_timer = false }) a)

abbrev pub worker_call :
    Activations → Result Error VirtualRef → Result EnvironmentError (Activations × Position)
worker_call a (ok r) = ok (begin_invoke (record { reference = virtual_ref r; is_timer = false }) a)
worker_call a (err e) = err (bad_reference e)
worker_call a panic = panic

-- `InvokeWorkerStream`: no registry and no check of heartbeats.
unfoldable pub invoke_worker_stream :
    String → String → Activations → Result EnvironmentError (Activations × Position)
invoke_worker_stream namespace module_id a =
    worker_call a (new_virtual_worker_reference namespace module_id module_id)

-- Where a call goes: to an environment of this process, by its address, or to a remote server.
pub data Route : Type 0 where
  local : String → ActorRef → Route
  remote : ActorRef → Route

-- `invokeReferences`, with the addresses in `localEnvironmentsRouter`. For an address that looks like
-- localhost and is not in the router, the code calls a method on the nil environment that the
-- lookup has answered.
abbrev pub route_to : Bool → ActorRef → Result EnvironmentError Route
route_to true ref = ok (local ref.address ref)
route_to false ref =
    if str_eq ref.address localhost_address || str_eq ref.address localhost
    then panic
    else ok (remote ref)

unfoldable pub invoke_references :
    Environment → (String → Bool) → List ActorRef → Result EnvironmentError Route
invoke_references env in_router [] = panic
invoke_references env in_router (ref ∷ _) =
    if env.opts.force_remote_procedure_calls
    then ok (remote ref)
    else route_to (in_router ref.address) ref

-- The key of the activation cache.
unfoldable pub cache_key : String → String → String
cache_key namespace actor_id = namespace ++ actor_id

-- The references of an actor: those of the cache, if it is on and has them, or else those that
-- `EnsureActivation` answers.
abbrev pub ensured : Result Error (List ActorRef) → Result EnvironmentError (List ActorRef)
ensured (ok l) = ok l
ensured (err e) = err (registry_failed e)
ensured panic = panic

abbrev pub references_of :
    Bool
    → Option (List ActorRef)
    → Result Error (List ActorRef)
    → Result EnvironmentError (List ActorRef)
references_of disabled none ensure = ensured ensure
references_of true (some l) ensure = ensured ensure
references_of false (some l) ensure = ok l

abbrev pub is_nil : List ActorRef → Bool
is_nil [] = true
is_nil (_ ∷ _) = false

-- `InvokeActorStream` up to the choice of the server: `cached` is what the cache answers for a key,
-- `ensure` what the registry answers for a namespace, an actor and a module, and `stamp` its stamp.
unfoldable pub invoke_actor_stream :
    Environment
    → (String → Bool)
    → Result Error ℕ
    → (String → Option (List ActorRef))
    → (String → String → String → Result Error (List ActorRef))
    → String
    → String
    → String
    → Result EnvironmentError Route
unfolding invoke_references cache_key
invoke_actor_stream env in_router stamp cached ensure namespace actor_id module_id = do
  fail_if (str_eq namespace "") empty_namespace
  fail_if (str_eq actor_id "") empty_actor_id
  fail_if (str_eq module_id "") empty_module_id
  vs ← elim stamp [ ok n ↦ ok n | err e ↦ err (registry_failed e) | panic ↦ panic ]
  references ←
      references_of env.opts.disable_activation_cache (cached (cache_key namespace actor_id))
        (ensure namespace actor_id module_id)
  fail_if (is_nil references) no_references
  invoke_references env in_router references

-- What `heartbeat` does with the registry's answer.
unfoldable pub apply_heartbeat :
    Result Error HeartbeatResult → Environment → Result EnvironmentError (Unit {0}) × Environment
apply_heartbeat (err e) env = (err (registry_failed e), env)
apply_heartbeat panic env = (panic, env)
apply_heartbeat (ok result) env = (
  ok tt,
  record env {
    heartbeat_result = if env.frozen then env.heartbeat_result else result;
    server_state = (env.server_id, result.server_version);
  },
)

unfoldable pub freeze_heartbeat_state : Environment → Environment
freeze_heartbeat_state env = record env { frozen = true }

unfoldable pub pause_heartbeat : Environment → Environment
pause_heartbeat env = record env { paused = true }

unfoldable pub resume_heartbeat : Environment → Environment
resume_heartbeat env = record env { paused = false }

-- The background goroutine: it runs, or has ended.
pub record Background : Type 0 where
  pub env : Environment
  pub running : Bool

abbrev ticked : Result EnvironmentError (Unit {0}) × Environment → Background
ticked (_, env) = record { env = env; running = true }

-- One tick of its ticker, with what the registry answers if it is asked. An error is logged.
unfoldable pub tick : Result Error HeartbeatResult → Background → Background
unfolding apply_heartbeat
tick answer b =
    if b.running
    then if b.env.paused
      then record b { running = false }
      else ticked (apply_heartbeat answer b.env)
    else b

-- ===== src/Validator/Calls.antt =====
-- `validator` and `kvValidator` of virtual/registry/validator.go, around the registry over a
-- key-value store and around any storage of actors.
use nola.Base.{
  ℕ, ◌^◌, ◌==◌, ltb, not, ◌&&◌, List, Bytes, length, String, Result, ok, err, panic, ◌>>◌, fail_if,
}
use nola.Types.{Error, ActorRef}
use nola.Registry.State.{Deps, ModuleOptions, RegisteredModule, HeartbeatState, HeartbeatResult}
use nola.Registry.Modules.{register_module, get_module}
use nola.Registry.Actors.{inc_generation}
use nola.Registry.Activation.{ensure_activation}
use nola.Registry.Servers.{heartbeat}
use nola.Host.Lazy.{ActorStorage}
use nola.Validator.Strings.{validate_string}

module _ (d : Deps) where
  unfoldable pub validated_register_module :
      String → String → Bytes → ModuleOptions → d.kv.State → Result Error d.kv.State
  validated_register_module namespace module_id module_bytes opts s = do
    validate_string namespace
    validate_string module_id
    fail_if (length module_bytes == 0 && not opts.allow_empty_module_bytes) Error.empty_module_bytes
    fail_if (ltb (2 ^ 22) (length module_bytes)) Error.module_too_large
    register_module d namespace module_id module_bytes opts s

  unfoldable pub validated_get_module : String → String → d.kv.State → Result Error RegisteredModule
  validated_get_module namespace module_id s = do
    validate_string namespace
    validate_string module_id
    get_module d namespace module_id s

  unfoldable pub validated_inc_generation :
      String → String → String → d.kv.State → Result Error d.kv.State
  validated_inc_generation namespace actor_id module_id s = do
    validate_string namespace
    validate_string actor_id
    inc_generation d namespace actor_id module_id s

  unfoldable pub validated_ensure_activation :
      Result Error ℕ
      → String
      → String
      → String
      → d.kv.State
      → Result Error (List ActorRef × d.kv.State)
  validated_ensure_activation stamp namespace actor_id module_id s = do
    validate_string namespace
    validate_string actor_id
    ensure_activation d stamp namespace actor_id module_id s

  unfoldable pub validated_heartbeat :
      Result Error ℕ
      → Result Error ℕ
      → Result Error ℕ
      → String
      → HeartbeatState
      → d.kv.State
      → Result Error (HeartbeatResult × d.kv.State)
  validated_heartbeat stamp_new stamp_now stamp_result server_id state s = do
    validate_string server_id
    validate_string state.address
    heartbeat d stamp_new stamp_now stamp_result server_id state s

-- The length of a key.
unfoldable pub check_key : Bytes → Result Error (Unit {0})
check_key key = do
  fail_if (length key == 0) Error.empty_key
  fail_if (ltb (2 ^ 10) (length key)) Error.key_too_long
  ok tt

-- A call after its checks, which leave the world.
abbrev pub after_checks :
    {A W : Type 0} → Result Error (Unit {0}) → W → Result Error A × W → Result Error A × W
after_checks (ok _) w call = call
after_checks (err e) w call = (err e, w)
after_checks panic w call = (panic, w)

-- The checks of `BeginTransaction`: the one named for the actor's ID is given the namespace.
unfoldable pub check_begin : String → String → Result Error (Unit {0})
check_begin namespace actor_id = do validate_string namespace; validate_string namespace

-- `BeginTransaction` and the transaction that it answers, a `kvValidator`.
abbrev pub validated_storage : ActorStorage → ActorStorage
validated_storage st = record {
  World = st.World;
  Transaction = st.Transaction;
  begin_transaction = λ namespace actor_id module_id server_id server_version w.
      after_checks (check_begin namespace actor_id) w
        (st.begin_transaction namespace actor_id module_id server_id server_version w);
  put = λ tr key value w. after_checks (check_key key) w (st.put tr key value w);
  get = λ tr key w. after_checks (check_key key) w (st.get tr key w);
  commit = st.commit;
  cancel = st.cancel;
}

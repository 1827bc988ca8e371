-- ===== src/Registry/Actors.antt =====
-- The records of actors: `getActor`, `createActor`, `CreateActor` and `IncGeneration` of
-- virtual/registry/kv_registry.go. `Transact` drops the state of a call that fails.
use nola.Base.{
  ◌+◌, ◌%◌, String, Bool, Option, none, some, Result, ok, ◌>>=◌, ◌>>◌, or_fail, fail_if, Bytes, not,
}
use nola.Types.{Error}
use nola.Registry.State.{
  Deps, RegisteredActor, ActorOptions, zero_activation, actor_key, module_part_key, unchecked,
}
use nola.Registry.Servers.{word}

abbrev pub is_some {ℓ} : {A : Type ℓ} → Option A → Bool
is_some none = Bool.false
is_some (some a) = Bool.true

module _ (d : Deps) where
  unfoldable pub get_actor : d.kv.State → Bytes → Result Error (Option RegisteredActor)
  get_actor s key = do
    v ← d.kv.get s key
    elim v [ none ↦ ok none | some b ↦ (do ra ← d.actor_codec.unmarshal b; ok (some ra)) ]

  unfoldable pub create_actor :
      String → String → String → ActorOptions → d.kv.State → Result Error d.kv.State
  create_actor namespace actor_id module_id opts s = do
    actor ← d.kv.get s (actor_key d namespace actor_id module_id)
    fail_if (is_some actor) Error.actor_exists
    part ← d.kv.get s (module_part_key d namespace module_id 0)
    fail_if (not (is_some part)) Error.no_module
    marshaled ← d.actor_codec.marshal (record {
      opts = opts;
      module_id = module_id;
      generation = 1;
      activation = zero_activation;
    })
    unchecked s (d.kv.put s (actor_key d namespace actor_id module_id) marshaled)

  unfoldable pub inc_generation : String → String → String → d.kv.State → Result Error d.kv.State
  inc_generation namespace actor_id module_id s = do
    found ← get_actor s (actor_key d namespace actor_id module_id)
    ra ← or_fail found Error.no_actor
    marshaled ← d.actor_codec.marshal (record ra { generation = (ra.generation + 1) % word })
    unchecked s (d.kv.put s (actor_key d namespace actor_id module_id) marshaled)

-- ===== src/Registry/Storage.antt =====
-- Per-actor storage: `BeginTransaction` and `kvTransaction` of virtual/registry/kv_registry.go.
use nola.Base.{
  ℕ, ◌==◌, String, str_eq, not, Option, Result, ok, ◌>>=◌, ◌>>◌, fail_if, or_fail, Bytes,
}
use nola.Types.{Error}
use nola.Registry.State.{Deps, actor_key, actor_kv_key}
use nola.Registry.Actors.{get_actor}

-- `kvTransaction`, whose `tr` is the state of the store.
pub record ActorTransaction : Type 0 where
  pub namespace : String
  pub actor_id : String
  pub module_id : String

module _ (d : Deps) where
  -- After an error the transaction, if it has begun, is cancelled, and nothing has been written.
  unfoldable pub begin_transaction :
      String → String → String → String → ℕ → d.kv.State → Result Error ActorTransaction
  begin_transaction namespace actor_id module_id server_id server_version s = do
    d.kv.begin_transaction s
    found ← get_actor d s (actor_key d namespace actor_id module_id)
    ra ← or_fail found Error.no_actor
    fail_if (not (str_eq ra.activation.server_id server_id)) Error.wrong_server_id
    fail_if (not (ra.activation.server_version == server_version)) Error.wrong_server_version
    ok (record { namespace = namespace; actor_id = actor_id; module_id = module_id })

  unfoldable pub tr_get : ActorTransaction → Bytes → d.kv.State → Result Error (Option Bytes)
  tr_get tr key s = d.kv.get s (actor_kv_key d tr.namespace tr.actor_id tr.module_id key)

  unfoldable pub tr_put : ActorTransaction → Bytes → Bytes → d.kv.State → Result Error d.kv.State
  tr_put tr key value s =
      d.kv.put s (actor_kv_key d tr.namespace tr.actor_id tr.module_id key) value

-- ===== src/Types.antt =====
-- References to actors: virtual/types/virtual_ref.go, ref.go and namespace.go. A Go string is a
-- text; `uint64` and `int64` fields are bit patterns below 2 ^ 64.
use nola.Base.{ℕ, ◌==◌, String, str_eq, Result, ok, ◌>>=◌, ◌>>◌, fail_if}

-- The errors of virtual/types, virtual/registry and the stores below it.
pub data Error : Type 0 where
  empty_namespace empty_module_id empty_actor_id zero_generation : Error
  empty_server_id empty_address : Error
  kv_failure marshal_failed unmarshal_failed : Error
  module_exists actor_exists no_module no_actor actor_does_not_exist : Error
  no_live_servers wrong_server_id wrong_server_version : Error
  empty_argument argument_too_long argument_has_whitespace : Error
  empty_module_bytes module_too_large empty_key key_too_long : Error

pub data IdType : Type 0 where
  actor worker : IdType

pub record NamespacedId : Type 0 where
  pub namespace : String
  pub id : String
  pub id_type : IdType

pub record NamespacedActorId : Type 0 where
  pub namespace : String
  pub id : String
  pub module_id : String
  pub id_type : IdType

pub record VirtualRef : Type 0 where
  pub namespace : String
  pub module_id : String
  pub actor_id : String
  pub generation : ℕ
  pub id_type : IdType

pub record ActorRef : Type 0 where
  pub virtual_ref : VirtualRef
  pub server_id : String
  pub server_version : ℕ
  pub address : String

unfoldable pub new_virtual_ref : String → String → String → ℕ → IdType → Result Error VirtualRef
new_virtual_ref namespace module_id actor_id generation id_type = do
  fail_if (str_eq namespace "") Error.empty_namespace
  fail_if (str_eq module_id "") Error.empty_module_id
  fail_if (str_eq actor_id "") Error.empty_actor_id
  fail_if (generation == 0) Error.zero_generation
  ok (record {
    namespace = namespace;
    module_id = module_id;
    actor_id = actor_id;
    generation = generation;
    id_type = id_type;
  })

unfoldable pub new_virtual_worker_reference : String → String → String → Result Error VirtualRef
unfolding new_virtual_ref
new_virtual_worker_reference namespace module_id actor_id =
    new_virtual_ref namespace module_id actor_id 1 IdType.worker

unfoldable pub new_virtual_actor_reference : String → String → String → ℕ → Result Error VirtualRef
unfolding new_virtual_ref
new_virtual_actor_reference namespace module_id actor_id generation =
    new_virtual_ref namespace module_id actor_id generation IdType.actor

unfoldable pub new_actor_reference :
    String → ℕ → String → String → String → String → ℕ → Result Error ActorRef
unfolding new_virtual_actor_reference
new_actor_reference server_id server_version address namespace module_id actor_id generation = do
  virtual ← new_virtual_actor_reference namespace module_id actor_id generation
  fail_if (str_eq server_id "") Error.empty_server_id
  fail_if (str_eq address "") Error.empty_address
  ok (record {
    virtual_ref = virtual;
    server_id = server_id;
    server_version = server_version;
    address = address;
  })

-- `ActorID()` and `ModuleID()`, the keys of the in-memory maps.
unfoldable pub actor_id_of : VirtualRef → NamespacedActorId
actor_id_of r = record {
  namespace = r.namespace;
  id = r.actor_id;
  module_id = r.module_id;
  id_type = r.id_type;
}

unfoldable pub module_id_of : VirtualRef → NamespacedId
module_id_of r = record { namespace = r.namespace; id = r.module_id; id_type = r.id_type }

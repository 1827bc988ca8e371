-- ===== src/Registry/State.antt =====
-- What the registry keeps in the store (the structs at the end of virtual/registry/kv_registry.go
-- and those of types.go beside it), under which keys, and what it takes from other packages: the
-- store, `tuple.Pack` and encoding/json.
use nola.Base.{
  err, panic, ℕ, String, ◌≡◌, Bool, List, [], ◌∷◌, ◌++◌, Result, ok, Bytes, has_prefix, true,
}
use nola.Types.{Error}
use nola.Kv.{Kv}

-- `types.ActorOptions`, a struct with no fields.
pub data ActorOptions : Type 0 where
  no_options : ActorOptions

pub record ModuleOptions : Type 0 where
  pub allow_empty_module_bytes : Bool

pub record HeartbeatState : Type 0 where
  pub num_activated_actors : ℕ
  pub address : String

pub record HeartbeatResult : Type 0 where
  pub version_stamp : ℕ
  pub heartbeat_ttl : ℕ
  pub server_version : ℕ

pub record Activation : Type 0 where
  pub server_id : String
  pub server_version : ℕ

pub record RegisteredActor : Type 0 where
  pub opts : ActorOptions
  pub module_id : String
  pub generation : ℕ
  pub activation : Activation

pub record RegisteredModule : Type 0 where
  pub bytes : Bytes
  pub opts : ModuleOptions

pub record ServerState : Type 0 where
  pub server_id : String
  pub last_heartbeated_at : ℕ
  pub heartbeat_state : HeartbeatState
  pub server_version : ℕ

-- The zero values of Go.
abbrev pub zero_activation : Activation
zero_activation = record { server_id = ""; server_version = 0 }

abbrev pub zero_server : ServerState
zero_server = record {
  server_id = "";
  last_heartbeated_at = 0;
  heartbeat_state = record { num_activated_actors = 0; address = "" };
  server_version = 0;
}

-- The elements of the tuples that the registry packs into keys.
pub data KeyPart : Type 0 where
  text : String → KeyPart
  int : ℕ → KeyPart
  bytes : Bytes → KeyPart

-- `json.Marshal` and `json.Unmarshal` at one struct: what was encoded is decoded unchanged.
pub record Codec (A : Type 0) : Type 0 where
  pub marshal : A → Result Error Bytes
  pub unmarshal : Bytes → Result Error A
  pub unmarshal-marshal : (a : A) {b : Bytes} → marshal a ≡ ok b → unmarshal b ≡ ok a

-- A `Put` whose error the code drops: it goes on in the state before.
abbrev pub unchecked : {S : Type 0} → S → Result Error S → Result Error S
unchecked s (ok t) = ok t
unchecked s (err e) = ok s
unchecked s panic = panic

-- The packages that the registry stands on. The laws of `pack` are what tuple.go promises: an
-- unpacked key is the tuple that was packed, so two tuples have two keys, and the key of a tuple
-- begins with the key of any tuple that it extends.
pub record Deps : Type 1 where
  pub kv : Kv
  pub pack : List KeyPart → Bytes
  pub pack-injective : (t u : List KeyPart) → pack t ≡ pack u → t ≡ u
  pub pack-append : (t u : List KeyPart) → has_prefix (pack (t ++ u)) (pack t) ≡ true
  pub actor_codec : Codec RegisteredActor
  pub server_codec : Codec ServerState
  pub module_codec : Codec RegisteredModule

module _ (d : Deps) where
  unfoldable pub module_prefix : String → String → Bytes
  module_prefix namespace module_id = d.pack (text namespace ∷ text "modules" ∷ text module_id ∷ [])

  unfoldable pub module_part_key : String → String → ℕ → Bytes
  module_part_key namespace module_id part =
      d.pack (text namespace ∷ text "modules" ∷ text module_id ∷ int part ∷ [])

  unfoldable pub actor_key : String → String → String → Bytes
  actor_key namespace actor_id module_id =
      d.pack (text namespace ∷ text "actors" ∷ text module_id ∷ text actor_id ∷ text "state" ∷ [])

  unfoldable pub actor_kv_key : String → String → String → Bytes → Bytes
  actor_kv_key namespace actor_id module_id key =
      d.pack (
        text namespace
        ∷ text "actors"
        ∷ text module_id
        ∷ text actor_id
        ∷ text "kv"
        ∷ bytes key
        ∷ [])

  unfoldable pub server_key : String → Bytes
  server_key server_id = d.pack (text "servers" ∷ text server_id ∷ [])

  unfoldable pub servers_prefix : Bytes
  servers_prefix = d.pack (text "servers" ∷ [])

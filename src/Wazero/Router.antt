-- ===== src/Wazero/Router.antt =====
-- `newHostFnRouter` of virtual/wazero.go, over the lazy transaction of virtual/host_capabilities.go.
use nola.Base.{
  ℕ, ◌*◌, ◌%◌, Bool, true, false, not, String, str_eq, Option, none, some, List, [], ◌∷◌, Bytes,
  Result, ok, err, panic, if◌then◌else◌,
}
use nola.Types.{Error, VirtualRef}
use nola.Registry.Servers.{lt_int64, word}
use nola.Payload.Encoding.{PayloadError, extract_kv_from_put_payload}
use nola.Http.Server.{CreateIfNotExist}
use nola.Host.Lazy.{ActorStorage, LazyTransaction, lazy_put, lazy_get}

abbrev pub kv_put_operation_name : String
kv_put_operation_name = "KV-PUT"

abbrev pub kv_get_operation_name : String
kv_get_operation_name = "KV-GET"

abbrev pub invoke_actor_operation_name : String
invoke_actor_operation_name = "INVOKE-ACTOR"

abbrev pub schedule_self_timer_operation_name : String
schedule_self_timer_operation_name = "SCHEDULE-SELF-TIMER"

pub record InvokeActorRequest : Type 0 where
  pub actor_id : String
  pub module_id : String
  pub operation : String
  pub payload : Bytes
  pub create_if_not_exist : CreateIfNotExist

-- `after_millis` is the bit pattern of an `int`.
pub record ScheduleSelfTimer : Type 0 where
  pub operation : String
  pub payload : Bytes
  pub after_millis : ℕ

-- What `time.AfterFunc` is given: the duration, as the bit pattern of its `int64`, and the call.
pub record Timer : Type 0 where
  pub duration : ℕ
  pub reference : VirtualRef
  pub operation : String
  pub payload : Bytes

pub data HostError : Type 0 where
  no_reference no_transaction : HostError
  bad_payload : PayloadError → HostError
  storage_failed : Error → HostError
  json_failed : Error → HostError
  invocation_failed : Error → HostError
  empty_operation not_positive unknown_function : HostError
  custom_failed : Error → HostError

-- The values that the context of a call may carry.
pub record Context : Type 0 where
  pub reference : Option VirtualRef
  pub has_transaction : Bool

-- What the router does not define itself: JSON, the environment's `InvokeActor` and the functions of
-- the host's owner.
pub record Functions (World : Type 0) : Type 0 where
  pub unmarshal_invoke : Bytes → Result Error InvokeActorRequest
  pub unmarshal_timer : Bytes → Result Error ScheduleSelfTimer
  pub invoke_actor :
      String
      → String
      → String
      → String
      → Bytes
      → CreateIfNotExist
      → World
      → Result Error Bytes × World
  pub custom_host_fns : String → Option (Bytes → Result Error Bytes)

module _ (st : ActorStorage) where
  open st use {World}

  -- The transaction of the invocation, the world and the timers that are set, the last one first.
  pub record Host : Type 0 where
    pub transaction : LazyTransaction st
    pub world : World
    pub timers : List Timer

  abbrev pub Reply : Type 0
  Reply = Result HostError Bytes × Host

  abbrev pub put_reply : List Timer → Result Error (Unit {0}) × LazyTransaction st × World → Reply
  put_reply timers (ok _, l, w) = (ok [], record { transaction = l; world = w; timers = timers })
  put_reply timers (err e, l, w) =
      (err (storage_failed e), record { transaction = l; world = w; timers = timers })
  put_reply timers (panic, l, w) = (panic, record { transaction = l; world = w; timers = timers })

  abbrev pub get_reply :
      List Timer → Result Error (Option Bytes) × LazyTransaction st × World → Reply
  get_reply timers (ok none, l, w) =
      (ok (0 ∷ []), record { transaction = l; world = w; timers = timers })
  get_reply timers (ok (some v), l, w) =
      (ok (1 ∷ v), record { transaction = l; world = w; timers = timers })
  get_reply timers (err e, l, w) =
      (err (storage_failed e), record { transaction = l; world = w; timers = timers })
  get_reply timers (panic, l, w) = (panic, record { transaction = l; world = w; timers = timers })

  module _ (server_id : String) (server_version : ℕ) (fns : Functions World) where
    -- `extractActorRef` has answered the reference; the lazy transaction is that of the same actor.
    abbrev pub put_extracted :
        Bool → VirtualRef → Result PayloadError (Bytes × Bytes) → Host → Reply
    put_extracted found reference (err e) h = (err (bad_payload e), h)
    put_extracted found reference panic h = (panic, h)
    put_extracted false reference (ok (k, v)) h = (err no_transaction, h)
    put_extracted true reference (ok (k, v)) h =
        put_reply h.timers
          (lazy_put st reference server_id server_version k v h.transaction h.world)

    abbrev pub get_found : Bool → VirtualRef → Bytes → Host → Reply
    get_found false reference key h = (err no_transaction, h)
    get_found true reference key h =
        get_reply h.timers
          (lazy_get st reference server_id server_version key h.transaction h.world)

    abbrev pub invoke_reply : Host → Result Error Bytes × World → Reply
    invoke_reply h (ok b, w) = (ok b, record h { world = w })
    invoke_reply h (err e, w) = (err (invocation_failed e), record h { world = w })
    invoke_reply h (panic, w) = (panic, record h { world = w })

    abbrev pub invoke_unmarshaled : VirtualRef → Result Error InvokeActorRequest → Host → Reply
    invoke_unmarshaled reference (err e) h = (err (json_failed e), h)
    invoke_unmarshaled reference panic h = (panic, h)
    invoke_unmarshaled reference (ok req) h = invoke_reply h (
        fns.invoke_actor reference.namespace req.actor_id req.module_id req.operation req.payload
          req.create_if_not_exist h.world)

    -- `time.Duration(req.AfterMillis) * time.Millisecond`.
    abbrev pub timer_of : VirtualRef → ScheduleSelfTimer → Timer
    timer_of reference req = record {
      duration = req.after_millis * 1_000_000 % word;
      reference = reference;
      operation = req.operation;
      payload = req.payload;
    }

    unfoldable pub schedule_self_timer : VirtualRef → Result Error ScheduleSelfTimer → Host → Reply
    schedule_self_timer reference (err e) h = (err (json_failed e), h)
    schedule_self_timer reference panic h = (panic, h)
    schedule_self_timer reference (ok req) h =
        if str_eq req.operation ""
        then (err empty_operation, h)
        else if not (lt_int64 0 req.after_millis)
        then (err not_positive, h)
        else (ok [], record h { timers = timer_of reference req ∷ h.timers })

    abbrev pub custom_reply : Host → Result Error Bytes → Reply
    custom_reply h (ok b) = (ok b, h)
    custom_reply h (err e) = (err (custom_failed e), h)
    custom_reply h panic = (panic, h)

    abbrev pub run_custom : Option (Bytes → Result Error Bytes) → Bytes → Host → Reply
    run_custom none payload h = (err unknown_function, h)
    run_custom (some custom_fn) payload h = custom_reply h (custom_fn payload)

    abbrev pub route_for : Bool → VirtualRef → String → Bytes → Host → Reply
    route_for found reference operation payload h =
        if str_eq operation kv_put_operation_name
        then put_extracted found reference (extract_kv_from_put_payload payload) h
        else if str_eq operation kv_get_operation_name
        then get_found found reference payload h
        else if str_eq operation invoke_actor_operation_name
        then invoke_unmarshaled reference (fns.unmarshal_invoke payload) h
        else if str_eq operation schedule_self_timer_operation_name
        then schedule_self_timer reference (fns.unmarshal_timer payload) h
        else run_custom (fns.custom_host_fns operation) payload h

    abbrev pub route_with : Option VirtualRef → Bool → String → Bytes → Host → Reply
    route_with none found operation payload h = (err no_reference, h)
    route_with (some reference) found operation payload h =
        route_for found reference operation payload h

    -- A call of a host function.
    unfoldable pub route : Context → String → Bytes → Host → Reply
    unfolding schedule_self_timer
    route ctx operation payload h = route_with ctx.reference ctx.has_transaction operation payload h

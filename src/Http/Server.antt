-- ===== src/Http/Server.antt =====
-- The handlers of virtual/server.go: from the body of a request to the response. The environment's
-- calls and JSON are parameters; a body that cannot be read to its end is an error.
use nola.Base.{
  ℕ, ◌^◌, Bool, true, false, not, String, Option, none, some, [], Bytes, take, Result, ok, err,
  panic, ◌>>=◌, ◌>>◌, fail_if, if◌then◌else◌,
}
use nola.Types.{Error, VirtualRef, new_virtual_actor_reference}
use nola.Registry.State.{Codec, ActorOptions, ModuleOptions}
use nola.Environment.State.{EnvironmentError}

pub record CreateIfNotExist : Type 0 where
  pub options : ActorOptions
  pub instantiate_payload : Bytes

pub record InvokeActorRequest (J : Type 0) : Type 0 where
  pub server_id : String
  pub namespace : String
  pub actor_id : String
  pub module_id : String
  pub operation : String
  pub payload : Bytes
  pub create_if_not_exist : CreateIfNotExist
  pub payload_json : Option J

pub record InvokeActorDirectRequest : Type 0 where
  pub version_stamp : ℕ
  pub server_id : String
  pub server_version : ℕ
  pub namespace : String
  pub module_id : String
  pub actor_id : String
  pub generation : ℕ
  pub operation : String
  pub payload : Bytes
  pub create_if_not_exist : CreateIfNotExist

pub record InvokeWorkerRequest : Type 0 where
  pub namespace : String
  pub module_id : String
  pub operation : String
  pub payload : Bytes
  pub create_if_not_exist : CreateIfNotExist

-- An `io.ReadCloser`: what it gives, and whether it ends with an error.
pub record Stream : Type 0 where
  pub content : Bytes
  pub breaks : Bool

-- A response; `cut` if its connection is closed before the end of the body.
pub record Response : Type 0 where
  pub status : ℕ
  pub body : Bytes
  pub cut : Bool

pub data HttpError : Type 0 where
  not_hijackable : HttpError
  unreadable_body : HttpError
  json_failed : Error → HttpError
  bad_reference : Error → HttpError
  registry_failed : Error → HttpError
  invocation_failed : EnvironmentError → HttpError

-- An error of a call, named for the caller.
abbrev pub by_error {ℓ} : {E F : Type 0} {A : Type ℓ} → (E → F) → Result E A → Result F A
by_error f (ok a) = ok a
by_error f (err e) = err (f e)
by_error f panic = panic

-- `ioutil.ReadAll(io.LimitReader(r.Body, 1<<24))`.
unfoldable pub read_body : Option Bytes → Result HttpError Bytes
read_body none = err unreadable_body
read_body (some body) = ok (take (2 ^ 24) body)

-- An error is the body of a response with status 500, and what succeeds that of one with status 200.
-- A panic ends the request without a response.
abbrev pub respond : (HttpError → Bytes) → Result HttpError Bytes → Result HttpError Response
respond message (ok body) = ok (record { status = 200; body = body; cut = false })
respond message (err e) = ok (record { status = 500; body = message e; cut = false })
respond message panic = panic

-- A stream is copied into a response with status 200. If it breaks, the connection is terminated, and
-- what the server has not flushed by then is lost: `flushed` is the number of bytes of the body that
-- have left it, `none` if not even the status has.
abbrev pub cut_response : Option ℕ → Bytes → Option Response
cut_response none content = none
cut_response (some n) content = some (record { status = 200; body = take n content; cut = true })

abbrev pub stream_response : Option ℕ → Stream → Option Response
stream_response flushed stream =
    if stream.breaks
    then cut_response flushed stream.content
    else some (record { status = 200; body = stream.content; cut = false })

-- The response to a call, `none` if the connection is terminated before anything of it has left.
abbrev pub respond_stream :
    (HttpError → Bytes) → Option ℕ → Result HttpError Stream → Result HttpError (Option Response)
respond_stream message flushed (ok stream) = ok (stream_response flushed stream)
respond_stream message flushed (err e) =
    ok (some (record { status = 500; body = message e; cut = false }))
respond_stream message flushed panic = panic

-- `environment.InvokeActorStream`, `InvokeActorDirectStream` and `InvokeWorkerStream`.
abbrev pub InvokeActorStream : Type 0
InvokeActorStream =
    String → String → String → String → Bytes → CreateIfNotExist → Result EnvironmentError Stream

abbrev pub InvokeActorDirectStream : Type 0
InvokeActorDirectStream =
    ℕ → String → ℕ → VirtualRef → String → Bytes → CreateIfNotExist → Result EnvironmentError Stream

abbrev pub InvokeWorkerStream : Type 0
InvokeWorkerStream =
    String → String → String → Bytes → CreateIfNotExist → Result EnvironmentError Stream

-- The payload of a request, or that of its JSON field if it is empty.
abbrev pub payload_of :
    {J : Type 0} → (J → Result Error Bytes) → Bytes → Option J → Result HttpError Bytes
payload_of marshal [] (some json) = by_error json_failed (marshal json)
payload_of marshal payload _ = ok payload

module _ (message : HttpError → Bytes) where
  unfoldable pub invoke :
      {J : Type 0}
      → Codec (InvokeActorRequest J)
      → (J → Result Error Bytes)
      → InvokeActorStream
      → Option ℕ
      → Bool
      → Option Bytes
      → Result HttpError (Option Response)
  invoke codec marshal invoke_actor_stream flushed hijackable body =
      respond_stream message flushed (do
        fail_if (not hijackable) not_hijackable
        json_bytes ← read_body body
        req ← by_error json_failed (codec.unmarshal json_bytes)
        payload ← payload_of marshal req.payload req.payload_json
        by_error invocation_failed (
            invoke_actor_stream req.namespace req.actor_id req.module_id req.operation payload
              req.create_if_not_exist))

  unfoldable pub invoke_direct :
      Codec InvokeActorDirectRequest
      → InvokeActorDirectStream
      → Option ℕ
      → Bool
      → Option Bytes
      → Result HttpError (Option Response)
  invoke_direct codec invoke_actor_direct_stream flushed hijackable body =
      respond_stream message flushed (do
        fail_if (not hijackable) not_hijackable
        json_bytes ← read_body body
        req ← by_error json_failed (codec.unmarshal json_bytes)
        ref ←
            by_error bad_reference
              (new_virtual_actor_reference req.namespace req.module_id req.actor_id req.generation)
        by_error invocation_failed (
            invoke_actor_direct_stream req.version_stamp req.server_id req.server_version ref
              req.operation req.payload req.create_if_not_exist))

  unfoldable pub invoke_worker :
      Codec InvokeWorkerRequest
      → InvokeWorkerStream
      → Option ℕ
      → Bool
      → Option Bytes
      → Result HttpError (Option Response)
  invoke_worker codec invoke_worker_stream flushed hijackable body =
      respond_stream message flushed (do
        fail_if (not hijackable) not_hijackable
        json_bytes ← read_body body
        req ← by_error json_failed (codec.unmarshal json_bytes)
        by_error invocation_failed (
            invoke_worker_stream req.namespace req.module_id req.operation req.payload
              req.create_if_not_exist))

  -- `registerModule`, over a registry with a state. The result of a registration is an empty struct;
  -- `marshaled` is what it is marshaled to.
  abbrev pub registered :
      {S : Type 0} → Result Error Bytes → S → Result Error S → Result HttpError Response × S
  registered marshaled s (ok t) = (respond message (by_error json_failed marshaled), t)
  registered marshaled s (err e) = (respond message (err (registry_failed e)), s)
  registered marshaled s panic = (panic, s)

  abbrev pub upload :
      {S : Type 0}
      → (String → String → Bytes → ModuleOptions → S → Result Error S)
      → Result Error Bytes
      → String
      → String
      → Result HttpError Bytes
      → S
      → Result HttpError Response × S
  upload register_module marshaled namespace module_id (ok module_bytes) s =
      registered marshaled s (
        register_module namespace module_id module_bytes
          (record { allow_empty_module_bytes = false }) s)
  upload register_module marshaled namespace module_id (err e) s = (respond message (err e), s)
  upload register_module marshaled namespace module_id panic s = (panic, s)

  unfoldable pub register_module_handler :
      {S : Type 0}
      → (String → String → Bytes → ModuleOptions → S → Result Error S)
      → Result Error Bytes
      → String
      → String
      → Option Bytes
      → S
      → Result HttpError Response × S
  unfolding read_body
  register_module_handler register_module marshaled namespace module_id body s =
      upload register_module marshaled namespace module_id (read_body body) s

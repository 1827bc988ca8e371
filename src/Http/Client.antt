-- ===== src/Http/Client.antt =====
-- `InvokeActorRemote` of virtual/http_client.go. The transport is a parameter: what a request to an
-- address is answered, if it is.
use nola.Base.{ℕ, ◌==◌, not, Bytes, String, Result, ok, ◌>>=◌, ◌>>◌, fail_if, [], if◌then◌else◌}
use nola.Types.{Error, ActorRef}
use nola.Registry.State.{Codec}
use nola.Http.Server.{InvokeActorDirectRequest, CreateIfNotExist, Response, Stream, by_error}

pub data ClientError : Type 0 where
  marshal_failed : Error → ClientError
  no_response : ClientError
  bad_status : ℕ → Bytes → ClientError

-- The request for a call of an actor.
abbrev pub direct_request :
    ℕ → ActorRef → String → Bytes → CreateIfNotExist → InvokeActorDirectRequest
direct_request version_stamp reference operation payload create = record {
  version_stamp = version_stamp;
  server_id = reference.server_id;
  server_version = reference.server_version;
  namespace = reference.virtual_ref.namespace;
  module_id = reference.virtual_ref.module_id;
  actor_id = reference.virtual_ref.actor_id;
  generation = reference.virtual_ref.generation;
  operation = operation;
  payload = payload;
  create_if_not_exist = create;
}

-- The body of the response, which breaks where the connection is cut.
abbrev pub stream_of : Response → Stream
stream_of resp = record { content = resp.body; breaks = resp.cut }

-- The text of an error: the body, or nothing if it cannot be read to its end.
abbrev pub error_text : Response → Bytes
error_text resp = if resp.cut then [] else resp.body

unfoldable pub invoke_actor_remote :
    Codec InvokeActorDirectRequest
    → (String → Bytes → Result ClientError Response)
    → ℕ
    → ActorRef
    → String
    → Bytes
    → CreateIfNotExist
    → Result ClientError Stream
invoke_actor_remote codec post version_stamp reference operation payload create = do
  marshaled ←
      by_error marshal_failed
        (codec.marshal (direct_request version_stamp reference operation payload create))
  resp ← post reference.address marshaled
  fail_if (not (resp.status == 200)) (bad_status resp.status (error_text resp))
  ok (stream_of resp)

-- ===== src/Http/Remote.antt =====
-- A call of an actor on another server: virtual/http_client.go with `invokeDirect` of
-- virtual/server.go at the other end.
use nola.Base.{
  ◌>>◌, ℕ, ◌^◌, ◌≤◌, ◌≡◌, Bool, false, none, take, Option, not, ◌==◌, fail_if, if◌then◌else◌, refl,
  ap, ◌∙◌, true, some, String, Bytes, length, take_all, Result, ok, err, panic, ◌>>=◌,
}
use nola.Types.{ActorRef, new_actor_reference}
use nola.References.{
  actor_ref_of, IsNamed, new_actor_reference-IsNamed, new_actor_reference-eq_ok,
  new_virtual_actor_reference_made,
}
use nola.Registry.State.{Codec}
use nola.Environment.State.{EnvironmentError}
use nola.Http.Server.{
  CreateIfNotExist, InvokeActorDirectRequest, InvokeActorDirectStream, HttpError, Response, Stream,
  invocation_failed, by_error, read_body, respond_stream, cut_response, stream_response,
  invoke_direct,
}
use nola.Http.Client.{
  ClientError, no_response, bad_status, direct_request, stream_of, error_text, invoke_actor_remote,
}

-- What the client gets of a request that a server has handled: a handler that panics has its
-- connection closed.
abbrev pub answered : Result HttpError (Option Response) → Result ClientError Response
answered (ok (some resp)) = ok resp
answered (ok none) = err no_response
answered (err e) = err no_response
answered panic = err no_response

-- A stream that breaks reaches the client up to what the server has flushed.
abbrev pub cut_stream : Option ℕ → Bytes → Result ClientError Stream
cut_stream none content = err no_response
cut_stream (some n) content = ok (record { content = take n content; breaks = true })

abbrev pub carried_stream : Option ℕ → Stream → Result ClientError Stream
carried_stream flushed stream =
    if stream.breaks then cut_stream flushed stream.content else ok stream

-- What a call gives the client: the stream, or the text of the error.
abbrev pub carried :
    (HttpError → Bytes) → Option ℕ → Result EnvironmentError Stream → Result ClientError Stream
carried message flushed (ok stream) = carried_stream flushed stream
carried message flushed (err e) = err (bad_status 500 (message (invocation_failed e)))
carried message flushed panic = err no_response

-- The client's reading of the response to a stream.
read_response : Result ClientError Response → Result ClientError Stream
unfolding ◌>>=◌
read_response answer = do
  resp ← answer
  fail_if (not (resp.status == 200)) (bad_status resp.status (error_text resp))
  ok (stream_of resp)

reads_cut :
    (flushed : Option ℕ) (content : Bytes)
    → read_response (answered (ok (cut_response flushed content))) ≡ cut_stream flushed content
unfolding read_response
reads_cut none content = refl
reads_cut (some n) content = refl

reads_by :
    (flushed : Option ℕ) (content : Bytes) (breaks : Bool)
    → read_response
        (answered (ok (stream_response flushed (record { content = content; breaks = breaks }))))
      ≡ carried_stream flushed (record { content = content; breaks = breaks })
unfolding read_response
reads_by flushed content true = reads_cut flushed content
reads_by flushed content false = refl

reads_stream :
    (flushed : Option ℕ) (stream : Stream)
    → read_response (answered (ok (stream_response flushed stream))) ≡ carried_stream flushed stream
reads_stream flushed stream = reads_by flushed stream.content stream.breaks

module _ (message : HttpError → Bytes) (codec : Codec InvokeActorDirectRequest)
    (E : InvokeActorDirectStream) (flushed : Option ℕ) (version_stamp : ℕ) (operation : String)
    (payload : Bytes) (create : CreateIfNotExist) (b : Bytes) where
  -- The request of the client, at the server.
  handled :
      (server_id : String) (server_version : ℕ) (address namespace module_id actor_id : String)
      (generation : ℕ)
      → IsNamed namespace module_id actor_id generation
      → (let r =
            actor_ref_of server_id server_version address namespace module_id actor_id generation in
          codec.marshal (direct_request version_stamp r operation payload create) ≡ ok b
          → length b ≤ 2 ^ 24
          → invoke_direct message codec E flushed true (some b)
            ≡ respond_stream message flushed (
                by_error invocation_failed (
                  E version_stamp server_id server_version r.virtual_ref operation payload create)))
  unfolding invoke_direct read_body ◌>>=◌
  handled server_id server_version address namespace module_id actor_id generation named marshaled
        short =
      rw
        (
          take_all (2 ^ 24) b short,
          codec.unmarshal-marshal _ marshaled,
          new_virtual_actor_reference_made namespace module_id actor_id generation named,
        )
        refl

  client_reads :
      (post : String → Bytes → Result ClientError Response) (r : ActorRef)
      (answer : Result EnvironmentError Stream)
      → codec.marshal (direct_request version_stamp r operation payload create) ≡ ok b
      → post r.address b
        ≡ answered (respond_stream message flushed (by_error invocation_failed answer))
      → invoke_actor_remote codec post version_stamp r operation payload create
        ≡ carried message flushed answer
  unfolding invoke_actor_remote read_response ◌>>=◌
  client_reads post r (ok stream) marshaled posted =
      rw (marshaled, posted) (reads_stream flushed stream)
  client_reads post r (err e) marshaled posted = rw (marshaled, posted) refl
  client_reads post r panic marshaled posted = rw (marshaled, posted) refl

  -- For a reference that `NewActorReference` has made, whose request is marshaled to at most 2^24
  -- bytes, and a server at its address that handles the request: `InvokeActorRemote` gives the
  -- stream that `InvokeActorDirectStream` gives there for the same version stamp, the reference's
  -- server ID and server version, its virtual reference and the same operation, payload and
  -- creation. If that stream breaks, the client's has the bytes that the server has flushed by then
  -- and breaks too, or, if nothing has been flushed, is an error without a response. An error there
  -- is an error with status 500 and its text, a panic an error without a response.
  pub remote-eq-local :
      (server_id : String) (server_version : ℕ) (address namespace module_id actor_id : String)
      (generation : ℕ) (post : String → Bytes → Result ClientError Response) (r : ActorRef)
      → new_actor_reference server_id server_version address namespace module_id actor_id generation
        ≡ ok r
      → codec.marshal (direct_request version_stamp r operation payload create) ≡ ok b
      → length b ≤ 2 ^ 24
      → post r.address b ≡ answered (invoke_direct message codec E flushed true (some b))
      → invoke_actor_remote codec post version_stamp r operation payload create
        ≡ carried message flushed
            (E version_stamp server_id server_version r.virtual_ref operation payload create)
  remote-eq-local server_id server_version address namespace module_id actor_id generation post r
        made =
      let (named, _, _) =
        new_actor_reference-IsNamed server_id server_version address namespace module_id actor_id
          generation r made in
      rw
        (new_actor_reference-eq_ok server_id server_version address namespace module_id actor_id
          generation r made)
        (λ marshaled short posted. client_reads post _ _ marshaled (
          posted
          ∙ ap answered (
              handled server_id server_version address namespace module_id actor_id generation named
                marshaled short)))

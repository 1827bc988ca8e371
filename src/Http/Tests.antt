-- ===== src/Http/Tests.antt =====
-- A call of an actor on another server, and an upload of a module of one byte.
use nola.Base.{
  ◌≡◌, ◌≤◌, ◌<◌, ◌^◌, refl, true, false, some, [], ◌∷◌, ◌>>=◌, String, Bytes, length, Result, ok,
  err, arith, str_eq, Option, if◌then◌else◌, ◌==◌,
}
use nola.Types.{ActorRef, new_actor_reference}
use nola.References.{actor_ref_of}
use nola.Concrete.Packages.{deps}
use nola.Concrete.Requests.{request_codec, put_request}
use nola.Concrete.Wire.{put_text, put_bytes}
use nola.Registry.State.{no_options}
use nola.Registry.Modules.{register_module}
use nola.Registry.Tests.{Store, opened, with_module, state_or}
use nola.Validator.Strings.{IsValid, validate_string, trim_space, is_space}
use nola.Validator.Calls.{validated_register_module}
use nola.Environment.State.{wrong_version}
use nola.Http.Server.{
  CreateIfNotExist, HttpError, Response, InvokeActorDirectStream, invocation_failed, invoke_direct,
  read_body, register_module_handler,
}
use nola.Http.Client.{ClientError, direct_request, invoke_actor_remote}
use nola.Http.Remote.{answered, remote-eq-local}
use nola.Http.Uploading.{upload_registers_whole, no_empty_module}

abbrev on_a : ActorRef
on_a = actor_ref_of "a" 3 "10.0.0.1:80" "n" "m" "x" 1

abbrev no_create : CreateIfNotExist
no_create = record { options = no_options; instantiate_payload = [] }

-- The text of an error of the environment.
abbrev message : HttpError → Bytes
message (invocation_failed wrong_version) = 9 ∷ []
message _ = []

-- A server of version 3, which echoes payloads, in a stream that may break.
abbrev server_3 : InvokeActorDirectStream
server_3 vs server_id version ref operation payload create =
    if version == 3
    then ok (record { content = payload; breaks = str_eq operation "break" })
    else err wrong_version

abbrev sent : Bytes
sent = put_request (direct_request 100 on_a "break" (5 ∷ 6 ∷ []) no_create)

abbrev network : String → Bytes → Result ClientError Response
network address b = answered (invoke_direct message request_codec server_3 (some 1) true (some b))

made : new_actor_reference "a" 3 "10.0.0.1:80" "n" "m" "x" 1 ≡ ok on_a
unfolding new_actor_reference ◌>>=◌ str_eq
made = refl

sent_short : length sent ≤ 2 ^ 24
unfolding put_request put_text put_bytes
sent_short = omega arith

remote-eq-local_example :
    invoke_actor_remote request_codec network 100 on_a "break" (5 ∷ 6 ∷ []) no_create
    ≡ ok (record { content = 5 ∷ []; breaks = true })
unfolding str_eq
remote-eq-local_example =
    remote-eq-local message request_codec server_3 (some 1) 100 "break" (5 ∷ 6 ∷ []) no_create sent
      "a" 3 "10.0.0.1:80" "n" "m" "x" 1 network on_a made refl sent_short refl

abbrev uploaded : Store
uploaded = state_or with_module (register_module deps "n" "w" (1 ∷ []) no_empty_module with_module)

abbrev answer : Response
answer = record { status = 200; body = 123 ∷ 125 ∷ []; cut = false }

accepted :
    register_module_handler message
      (validated_register_module deps)
      (ok (123 ∷ 125 ∷ []))
      "n"
      "w"
      (some (1 ∷ []))
      with_module
    ≡ (ok answer, uploaded)
unfolding register_module_handler read_body opened validated_register_module validate_string
    trim_space is_space ◌>>=◌
accepted = refl

upload_registers_whole_example :
    (b : Bytes) × (◌≡◌ {A = Option Bytes} (some (1 ∷ [])) (some b))
    × IsValid "n"
    × IsValid "w"
    × (0 < length b)
    × (length b ≤ 2 ^ 22)
    × (register_module deps "n" "w" b no_empty_module with_module ≡ ok uploaded)
upload_registers_whole_example =
    upload_registers_whole deps message (ok (123 ∷ 125 ∷ [])) "n" "w" (some (1 ∷ [])) with_module
      uploaded answer accepted refl

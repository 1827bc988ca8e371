-- ===== src/Concrete/Requests.antt =====
-- An encoding of the requests for actors as lists of numbers, with its decoding.
use nola.Base.{String, ◌≡◌, refl, [], ◌∷◌, Option, none, some, Bytes, ok}
use nola.Registry.State.{no_options, ActorOptions, Codec}
use nola.Http.Server.{InvokeActorDirectRequest}
use nola.Concrete.Wire.{put_text, take_text, take-put_text, put_bytes, take_bytes, take-put_bytes}
use nola.Concrete.Packages.{or_unmarshal, codec_of}

abbrev text_then : {A : Type 0} → Option (String × Bytes) → (String → Bytes → Option A) → Option A
text_then none f = none
text_then (some (s, r)) f = f s r

abbrev bytes_then : {A : Type 0} → Option (Bytes × Bytes) → (Bytes → Bytes → Option A) → Option A
bytes_then none f = none
bytes_then (some (b, r)) f = f b r

unfoldable pub put_request : InvokeActorDirectRequest → Bytes
put_request q = put_text q.server_id (
    put_text q.namespace (
      put_text q.module_id (
        put_text q.actor_id (
          put_text q.operation (
            put_bytes q.payload (
              put_bytes q.create_if_not_exist.instantiate_payload
                (q.version_stamp ∷ q.server_version ∷ q.generation ∷ [])))))))

-- The three numbers of a request, behind the other fields.
abbrev numbered :
    String
    → String
    → String
    → String
    → String
    → Bytes
    → Bytes
    → Bytes
    → Option InvokeActorDirectRequest
numbered server_id namespace module_id actor_id operation payload instantiate (v ∷ w ∷ g ∷ _) =
    some (record {
      version_stamp = v;
      server_id = server_id;
      server_version = w;
      namespace = namespace;
      module_id = module_id;
      actor_id = actor_id;
      generation = g;
      operation = operation;
      payload = payload;
      create_if_not_exist = record { options = no_options; instantiate_payload = instantiate };
    })
numbered _ _ _ _ _ _ _ _ = none

unfoldable pub request_from : Bytes → Option InvokeActorDirectRequest
request_from l = text_then (take_text l) λ server_id l1. text_then (take_text l1) λ namespace l2.
    text_then (take_text l2) λ module_id l3. text_then (take_text l3) λ actor_id l4.
      text_then (take_text l4) λ operation l5. bytes_then (take_bytes l5) λ payload l6.
        bytes_then (take_bytes l6) λ instantiate l7.
          numbered server_id namespace module_id actor_id operation payload instantiate l7

one_option : (o : ActorOptions) → no_options ≡ o
one_option no_options = refl

pub request_from-put_request :
    (q : InvokeActorDirectRequest) → or_unmarshal (request_from (put_request q)) ≡ ok q
unfolding put_request request_from
request_from-put_request q =
    rw
      (
        take-put_text q.server_id,
        take-put_text q.namespace,
        take-put_text q.module_id,
        take-put_text q.actor_id,
        take-put_text q.operation,
        take-put_bytes q.payload,
        take-put_bytes q.create_if_not_exist.instantiate_payload,
      )
      (λ i. ok (record q {
        create_if_not_exist = record q.create_if_not_exist {
          options = one_option q.create_if_not_exist.options i;
        };
      }))

abbrev pub request_codec : Codec InvokeActorDirectRequest
request_codec = codec_of put_request request_from request_from-put_request

-- ===== src/Activated/Answering.antt =====
-- What an invocation answers, and what it does to the storage: virtual/activations.go.
use nola.Base.{
  ℕ, ◌≡◌, refl, sym, ap, ◌∙◌, Bool, true, false, Option, none, some, String, ok-injective, arith,
  Result, ok, err, panic, if◌then◌else◌,
}
use nola.Types.{Error, IdType}
use nola.Http.Server.{Stream}
use nola.Host.Lazy.{ActorStorage, Program}
use nola.Activated.State.{
  ActivatedActor, Reply, bytes_reply, stream_reply, already_closed, as_stream, run_as, invoke,
  touched, transacted,
}

not_nil : (r : Reply) → (stream : Stream) × (as_stream r ≡ some stream)
not_nil (bytes_reply b) = (_, refl)
not_nil (stream_reply none) = (_, refl)
not_nil (stream_reply (some stream)) = (stream, refl)

module _ (st : ActorStorage) (server_id : String) (server_version : ℕ) where
  open st use {World}

  transacted_stream :
      (a b : ActivatedActor) (x : Result Error Reply × World) (o : Option Stream) (v : World)
      → transacted st server_id server_version a x ≡ (ok o, b, v)
      → (stream : Stream) × (o ≡ some stream)
  transacted_stream a b (ok r, w) o v h =
      let (stream, same) = not_nil r in (stream, sym (ok-injective (ap (λ y. y.0) h)) ∙ same)
  transacted_stream a b (err e, w) o v h = absurd (ground (arith, h))
  transacted_stream a b (panic, w) o v h = absurd (ground (arith, h))

  checked_stream :
      (is_closed : Bool) (id_type : IdType) (p : Program Reply) (a a' b : ActivatedActor)
      (w v : World) (o : Option Stream)
      → id_type ≡ IdType.actor
      → (if is_closed
          then (err already_closed, a, w)
          else run_as st server_id server_version id_type p a' w)
        ≡ (ok o, b, v)
      → (stream : Stream) × (o ≡ some stream)
  checked_stream true id_type p a a' b w v o is_actor h = absurd (ground (arith, h))
  checked_stream false IdType.worker p a a' b w v o is_actor h = absurd (ground (arith, is_actor))
  checked_stream false IdType.actor p a a' b w v o is_actor h = transacted_stream a' b _ o v h

  checked_storage :
      (is_closed : Bool) (id_type : IdType) (p : Program Reply) (a a' : ActivatedActor) (w : World)
      → id_type ≡ IdType.worker
      → (if is_closed
          then (err already_closed, a, w)
          else run_as st server_id server_version id_type p a' w).2
        ≡ w
  checked_storage true id_type p a a' w is_worker = refl
  checked_storage false IdType.worker p a a' w is_worker = refl
  checked_storage false IdType.actor p a a' w is_worker = absurd (ground (arith, is_worker))

  -- An invocation of an actor that is not a worker, if it succeeds, answers a stream that is not nil,
  -- also if the actor answers a nil one.
  pub actor_answers_stream :
      (is_closing : Bool) (now : ℕ) (p : Program Reply) (a b : ActivatedActor) (w v : World)
      (o : Option Stream)
      → a.reference.id_type ≡ IdType.actor
      → invoke st server_id server_version is_closing now p a w ≡ (ok o, b, v)
      → (stream : Stream) × (o ≡ some stream)
  unfolding invoke
  actor_answers_stream is_closing now p a b w v o is_actor h =
      checked_stream a.is_closed a.reference.id_type p a (touched is_closing now a) b w v o is_actor
        h

  -- An invocation of a worker leaves the storage as it was, whatever the worker does.
  pub worker_keeps_storage :
      (is_closing : Bool) (now : ℕ) (p : Program Reply) (a : ActivatedActor) (w : World)
      → a.reference.id_type ≡ IdType.worker
      → (invoke st server_id server_version is_closing now p a w).2 ≡ w
  unfolding invoke
  worker_keeps_storage is_closing now p a w is_worker =
      checked_storage a.is_closed a.reference.id_type p a (touched is_closing now a) w is_worker

-- ===== src/Activated/State.antt =====
-- `activatedActor` of virtual/activations.go, each call of it under its lock: `invoke`,
-- `closeWithLock` and the function of its GC timer. What the actor itself does in a call is an
-- argument: its use of the transaction, and its answer.
use nola.Base.{
  ℕ, ◌+◌, ◌-◌, ltb, Bool, true, false, String, Option, none, some, [], Bytes, Result, ok, err,
  panic, if◌then◌else◌,
}
use nola.Types.{Error, VirtualRef, IdType}
use nola.Http.Server.{Stream}
use nola.Host.Lazy.{ActorStorage, Program, done, put_then, get_then, transact}

-- What an `ActorBytes` and what an `ActorStream` answers, which may be nil.
pub data Reply : Type 0 where
  bytes_reply : Bytes → Reply
  stream_reply : Option Stream → Reply

-- `gc_timer` is when the timer is due that `invoke` resets.
pub record ActivatedActor : Type 0 where
  pub reference : VirtualRef
  pub is_closed : Bool
  pub last_invoke : ℕ
  pub gc_after : ℕ
  pub gc_timer : ℕ

pub data InvokeError : Type 0 where
  already_closed : InvokeError
  actor_failed : Error → InvokeError

-- What the function of the timer does: nothing, a collection, or a new timer for this time.
pub data GcOutcome : Type 0 where
  was_closed collected : GcOutcome
  rescheduled : ℕ → GcOutcome

abbrev pub stream_of_bytes : Bytes → Stream
stream_of_bytes b = record { content = b; breaks = false }

-- The answer of an actor as a stream; a nil one becomes an empty one.
abbrev pub as_stream : Reply → Option Stream
as_stream (bytes_reply b) = some (stream_of_bytes b)
as_stream (stream_reply none) = some (stream_of_bytes [])
as_stream (stream_reply (some stream)) = some stream

-- The answer of a worker as a stream.
abbrev pub worker_stream : Reply → Option Stream
worker_stream (bytes_reply b) = some (stream_of_bytes b)
worker_stream (stream_reply o) = o

-- A program with a nil transaction.
abbrev pub run_without : {A : Type 0} → Program A → Result Error A
run_without (done r) = r
run_without (put_then key value next) = panic
run_without (get_then key next) = panic

abbrev pub answer_by :
    (Reply → Option Stream) → Result Error Reply → Result InvokeError (Option Stream)
answer_by f (ok r) = ok (f r)
answer_by f (err e) = err (actor_failed e)
answer_by f panic = panic

-- `a._lastInvoke = time.Now()` and the reset of the timer.
abbrev pub touched : Bool → ℕ → ActivatedActor → ActivatedActor
touched is_closing now a = record a {
  last_invoke = now;
  gc_timer = if is_closing then a.gc_timer else now + a.gc_after;
}

module _ (st : ActorStorage) (server_id : String) (server_version : ℕ) where
  open st use {World}

  abbrev pub Answer : Type 0 → Type 0
  Answer A = Result InvokeError A × ActivatedActor × World

  abbrev pub transacted : ActivatedActor → Result Error Reply × World → Answer (Option Stream)
  transacted a (r, w) = (answer_by as_stream r, a, w)

  abbrev pub run_as : IdType → Program Reply → ActivatedActor → World → Answer (Option Stream)
  run_as IdType.worker p a w = (answer_by worker_stream (run_without p), a, w)
  run_as IdType.actor p a w = transacted a (transact st a.reference server_id server_version p w)

  unfoldable pub invoke : Bool → ℕ → Program Reply → ActivatedActor → World → Answer (Option Stream)
  invoke is_closing now p a w =
      if a.is_closed
      then (err already_closed, a, w)
      else run_as a.reference.id_type p (touched is_closing now a) w

  -- `closed_answer` is what the actor's `Close` answers.
  abbrev pub shut : Result InvokeError (Unit {0}) → Answer (Option Stream) → Answer (Unit {0})
  shut closed_answer (panic, a, w) = (panic, a, w)
  shut closed_answer (ok _, a, w) = (closed_answer, record a { is_closed = true }, w)
  shut closed_answer (err _, a, w) = (closed_answer, record a { is_closed = true }, w)

  unfoldable pub close_with_lock :
      ℕ → Program Reply → Result InvokeError (Unit {0}) → ActivatedActor → World → Answer (Unit {0})
  unfolding invoke
  close_with_lock now shutdown closed_answer a w =
      if a.is_closed then (ok tt, a, w) else shut closed_answer (invoke true now shutdown a w)

  abbrev pub gc_closed : Answer (Unit {0}) → Answer GcOutcome
  gc_closed (panic, a, w) = (panic, a, w)
  gc_closed (ok _, a, w) = (ok collected, a, w)
  gc_closed (err _, a, w) = (ok collected, a, w)

  unfoldable pub gc_func :
      ℕ → Program Reply → Result InvokeError (Unit {0}) → ActivatedActor → World → Answer GcOutcome
  unfolding close_with_lock
  gc_func now shutdown closed_answer a w =
      if a.is_closed
      then (ok was_closed, a, w)
      else if ltb a.gc_after (now - a.last_invoke)
      then gc_closed (close_with_lock now shutdown closed_answer a w)
      else (ok (rescheduled (now + a.gc_after)), a, w)

  abbrev pub startup_failed : InvokeError → Answer (Unit {0}) → Answer (Unit {0})
  startup_failed e (panic, a, w) = (panic, a, w)
  startup_failed e (ok _, a, w) = (err e, a, w)
  startup_failed e (err _, a, w) = (err e, a, w)

  abbrev pub started :
      ℕ → Program Reply → Result InvokeError (Unit {0}) → Answer (Option Stream) → Answer (Unit {0})
  started now shutdown closed_answer (ok _, a, w) = (ok tt, a, w)
  started now shutdown closed_answer (panic, a, w) = (panic, a, w)
  started now shutdown closed_answer (err e, a, w) =
      startup_failed e (close_with_lock now shutdown closed_answer a w)

  -- `newActivatedActor`: an actor whose startup fails is closed.
  unfoldable pub new_activated_actor :
      VirtualRef
      → ℕ
      → ℕ
      → Program Reply
      → Program Reply
      → Result InvokeError (Unit {0})
      → World
      → Answer (Unit {0})
  unfolding invoke close_with_lock
  new_activated_actor reference gc_after now startup shutdown closed_answer w =
      started now shutdown closed_answer (
        invoke false now startup
          (record {
            reference = reference;
            is_closed = false;
            last_invoke = now;
            gc_after = gc_after;
            gc_timer = now + gc_after;
          })
          w)

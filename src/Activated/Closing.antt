-- ===== src/Activated/Closing.antt =====
-- What a closed actor does, and which actors the GC timer closes: virtual/activations.go.
use nola.Base.{
  ℕ, ◌+◌, ◌-◌, ◌≤◌, ◌≡◌, ◌≢◌, refl, subst, sym, ap, ◌∙◌, Bool, true, false, Bool-cases, inl, inr,
  Option, String, Result, ok, err, panic, ltb, arith, if◌then◌else◌,
}
use nola.Types.{IdType}
use nola.Http.Server.{Stream}
use nola.Host.Lazy.{ActorStorage, Program}
use nola.Activated.State.{
  ActivatedActor, Reply, InvokeError, already_closed, was_closed, rescheduled, touched, run_as,
  shut, invoke, close_with_lock, gc_func,
}

if_true : {A : Type 0} (b : Bool) (x y : A) → b ≡ true → (if b then x else y) ≡ x
if_true b x y h = rw h refl

if_false : {A : Type 0} (b : Bool) (x y : A) → b ≡ false → (if b then x else y) ≡ y
if_false b x y h = rw h refl

module _ (st : ActorStorage) (server_id : String) (server_version : ℕ) where
  open st use {World}

  after : {A : Type 0} → Result InvokeError A × ActivatedActor × World → ActivatedActor
  after x = x.1

  -- Every later call finds the actor closed, and changes nothing.
  abbrev pub IsInert : ActivatedActor → Type 0
  IsInert a =
      (is_closing : Bool) (now : ℕ) (p : Program Reply) (answer : Result InvokeError (Unit {0}))
      (w : World)
      → (invoke st server_id server_version is_closing now p a w ≡ (err already_closed, a, w))
        × (close_with_lock st server_id server_version now p answer a w ≡ (ok tt, a, w))
        × (gc_func st server_id server_version now p answer a w ≡ (ok was_closed, a, w))

  closed-IsInert : (a : ActivatedActor) → a.is_closed ≡ true → IsInert a
  unfolding invoke close_with_lock gc_func
  closed-IsInert a gone is_closing now p answer w = (rw gone refl, rw gone refl, rw gone refl)

  shut_closes :
      (closed_answer : Result InvokeError (Unit {0}))
      (x : Result InvokeError (Option Stream) × ActivatedActor × World)
      → x.0 ≢ panic
      → (shut st server_id server_version closed_answer x).1.is_closed ≡ true
  shut_closes closed_answer (ok o, a, w) no_panic = refl
  shut_closes closed_answer (err e, a, w) no_panic = refl
  shut_closes closed_answer (panic, a, w) no_panic = absurd (no_panic refl)

  -- If the actor does not panic at its shutdown, then after `close` every later call of the actor is
  -- refused: an invocation is an error, another close and the function of the GC timer do nothing,
  -- and none of them changes the storage. This holds if the shutdown or the actor's own `Close`
  -- fails.
  pub close-IsInert :
      (now : ℕ) (shutdown : Program Reply) (closed_answer : Result InvokeError (Unit {0}))
      (a : ActivatedActor) (w : World)
      → (invoke st server_id server_version true now shutdown a w).0 ≢ panic
      → IsInert (close_with_lock st server_id server_version now shutdown closed_answer a w).1
  unfolding close_with_lock after
  close-IsInert now shutdown closed_answer a w no_panic = elim (Bool-cases a.is_closed) [
    | inl gone ↦
        subst IsInert (sym (ap after (if_true a.is_closed _ _ gone))) (closed-IsInert a gone)
    | inr live ↦ subst IsInert (sym (ap after (if_false a.is_closed _ _ live))) (
        closed-IsInert _ (
          shut_closes closed_answer (invoke st server_id server_version true now shutdown a w)
            no_panic))
  ]

  ran_open :
      (id_type : IdType) (p : Program Reply) (a : ActivatedActor) (w : World)
      → (run_as st server_id server_version id_type p a w).1 ≡ a
  ran_open IdType.worker p a w = refl
  ran_open IdType.actor p a w = refl

  invoked_actor :
      (now : ℕ) (p : Program Reply) (a : ActivatedActor) (w : World)
      → a.is_closed ≡ false
      → (invoke st server_id server_version false now p a w).1 ≡ touched false now a
  unfolding invoke after
  invoked_actor now p a w live =
      ap after (if_false a.is_closed _ _ live) ∙ ran_open a.reference.id_type p _ w

  early_gc :
      (later : ℕ) (shutdown : Program Reply) (closed_answer : Result InvokeError (Unit {0}))
      (b : ActivatedActor) (v : World)
      → b.is_closed ≡ false
      → later ≤ b.last_invoke + b.gc_after
      → gc_func st server_id server_version later shutdown closed_answer b v
        ≡ (ok (rescheduled (later + b.gc_after)), b, v)
  unfolding gc_func
  early_gc later shutdown closed_answer b v live soon =
      let early : ltb b.gc_after (later - b.last_invoke) ≡ false = ground (arith, soon) in
      if_false b.is_closed _ _ live ∙ if_false (ltb b.gc_after (later - b.last_invoke)) _ _ early

  -- After an invocation of an actor that is not closed, whatever it answers, the function of the GC
  -- timer does not close the actor until more than the GC's time has passed: it sets a timer anew,
  -- and changes neither the actor nor the storage.
  pub invoked_not_collected :
      (now later : ℕ) (p shutdown : Program Reply) (closed_answer : Result InvokeError (Unit {0}))
      (a : ActivatedActor) (w v : World)
      → a.is_closed ≡ false
      → later ≤ now + a.gc_after
      → (let b = (invoke st server_id server_version false now p a w).1 in
          gc_func st server_id server_version later shutdown closed_answer b v
          ≡ (ok (rescheduled (later + a.gc_after)), b, v))
  invoked_not_collected now later p shutdown closed_answer a w v live soon =
      subst
        (λ b.
          gc_func st server_id server_version later shutdown closed_answer b v
          ≡ (ok (rescheduled (later + a.gc_after)), b, v))
        (sym (invoked_actor now p a w live))
        (early_gc later shutdown closed_answer (touched false now a) v live soon)

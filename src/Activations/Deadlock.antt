-- ===== src/Activations/Deadlock.antt =====
-- A lock that is kept: the changed future in `invoke` of virtual/activations.go.
use nola.Base.{
  Bool, ℕ, ◌==◌, ◌≡◌, ◌≢◌, refl, sym, ap, ◌∙◌, inl, inr, true, false, Option, none, some, leb,
  Bool-cases, arith,
}
use nola.Activations.State.{
  Stage, open_actor, Activations, Call, id_of, generation_of, Position, begun, rechecking, returned,
  generation_too_low, recheck, set_stage, close_if, close_actor, close_previous, instantiate,
  clear_failed, reject_future, collect, collect_early, resolve_collecting, resolve_collected,
}
use nola.Activations.Knowing.{generation_at}
use nola.Activations.Running.{
  System, Step, begin_step, wait_step, recheck_step, created_step, run_step, close_step,
  instantiate_step, clear_step, reject_step, collect_step, forget_step, collect_early_step,
  forget_early_step, resolve_collecting_step, resolve_collected_step, moved, locked_move, Reachable,
}
use nola.Activations.Safety.{Reachable-IsSafe, known_at}

-- Any number of steps.
pub data Steps (early : Bool) (calls : ℕ → Call) (s : System) : System → Type 0 where
  still : Steps early calls s s
  step_on : {t u : System} → Steps early calls s t → Step early calls t u → Steps early calls s u

close_if-locked : (f : ℕ) (y : Stage) (s : Activations) → (close_if f y s).locked ≡ s.locked
unfolding set_stage
close_if-locked f open_actor s = refl
close_if-locked f _ s = refl

close_previous-locked :
    (g : ℕ) (prev : Option ℕ) (s : Activations) → (close_previous g prev s).locked ≡ s.locked
unfolding close_previous close_actor set_stage
close_previous-locked g none s = refl
close_previous-locked g (some f) s = close_if-locked f (s.futures f).stage s

-- Once the lock is kept, it is kept for ever, and a goroutine that has not begun never begins.
abbrev pub IsStuck : (ℕ → Position) → System → Type 0
IsStuck positions u =
    (u.shared.locked ≡ true) × ((j : ℕ) → positions j ≡ begun → u.positions j ≡ begun)

module _ (early : Bool) (calls : ℕ → Call) (positions : ℕ → Position) where
  others_stay :
      (t : System) (i : ℕ) (p : Position)
      → t.positions i ≢ begun
      → ((j : ℕ) → positions j ≡ begun → t.positions j ≡ begun)
      → (j : ℕ) → positions j ≡ begun
      → moved i p t.positions j ≡ begun
  unfolding moved
  others_stay t i p ne h j at = elim (Bool-cases (i == j)) [
    | inl same ↦
        let here : i ≡ j = ground (arith, same) in absurd (ne (ap t.positions here ∙ h j at))
    | inr other ↦ rw other (h j at)
  ]

  Step-IsStuck : {t u : System} → Step early calls t u → IsStuck positions t → IsStuck positions u
  unfolding instantiate clear_failed reject_future collect set_stage collect_early
      resolve_collecting resolve_collected
  Step-IsStuck (begin_step i at free) (l, h) = cc
  Step-IsStuck {t} (wait_step i f p at done) (l, h) =
      (l, others_stay t i p (λ b. cc (sym at ∙ b)) h)
  Step-IsStuck (recheck_step i f at free) (l, h) = cc
  Step-IsStuck {t} (created_step i f p at done) (l, h) =
      (l, others_stay t i p (λ b. cc (sym at ∙ b)) h)
  Step-IsStuck {t} (run_step i f at) (l, h) = (l, others_stay t i _ (λ b. cc (sym at ∙ b)) h)
  Step-IsStuck {t} (close_step g prev e) (l, h) = (close_previous-locked g prev t.shared ∙ l, h)
  Step-IsStuck (instantiate_step g success e) (l, h) = (l, h)
  Step-IsStuck (clear_step g e) (l, h) = (l, h)
  Step-IsStuck (reject_step g e) (l, h) = (l, h)
  Step-IsStuck (collect_step f e) (l, h) = (l, h)
  Step-IsStuck (forget_step f e free) (l, h) = cc
  Step-IsStuck (collect_early_step g _ e) (l, h) = (l, h)
  Step-IsStuck (forget_early_step g _ e free) (l, h) = cc
  Step-IsStuck (resolve_collecting_step g _ e) (l, h) = (l, h)
  Step-IsStuck (resolve_collected_step g success _ e) (l, h) = (l, h)

  Steps-IsStuck : {t u : System} → Steps early calls t u → IsStuck positions t → IsStuck positions u
  Steps-IsStuck still h = h
  Steps-IsStuck (step_on r st) h = Step-IsStuck st (Steps-IsStuck r h)

-- A reachable state, also where the garbage collection is due before a startup is over, where a
-- goroutine has waited for a future whose actor is too old, and another
-- future has come into its place before it takes the lock again. Then its call returns the error
-- that the generation is too low and keeps the lock: from then on no goroutine that has not begun
-- ever begins.
pub changed_future_deadlocks :
    (early : Bool) (calls : ℕ → Call) (s u : System) (i f g : ℕ)
    → Reachable early calls s
    → s.positions i ≡ rechecking f
    → s.shared.actors (id_of (calls i).reference) ≡ some g
    → g ≢ f
    → Steps early calls (locked_move i (recheck (calls i) f s.shared) s) u
    → ((recheck (calls i) f s.shared).1 ≡ returned generation_too_low)
      × (u.shared.locked ≡ true)
      × ((j : ℕ) → s.positions j ≡ begun → u.positions j ≡ begun)
unfolding recheck
changed_future_deadlocks early calls s u i f g r at e ne steps =
    let (_, _, gen, _) =
      known_at early calls s i (rechecking f) (Reachable-IsSafe early calls r) at in
    let low : leb (generation_of (calls i).reference) (generation_at s.shared f) ≡ false =
      ground (arith, gen) in
    let changed : (g == f) ≡ false = ground (arith, ne) in
    let after : recheck (calls i) f s.shared
        ≡ (record s.shared { locked = true }, returned generation_too_low) =
      rw (e, changed, low) refl in
    let (locked, stay) = Steps-IsStuck early calls s.positions steps (
      ap (λ (m : Activations × Position). m.0.locked) after,
      others_stay early calls s.positions s i _ (λ b. cc (sym at ∙ b)) (λ j h. h),
    ) in
    (ap (λ (m : Activations × Position). m.1) after, locked, stay)

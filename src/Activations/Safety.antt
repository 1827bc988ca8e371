-- ===== src/Activations/Safety.antt =====
-- What holds however the goroutines of virtual/activations.go are interleaved.
use nola.Base.{
  Bool, ℕ, ◌==◌, ◌≤◌, ◌≡◌, ◌≢◌, refl, sym, subst, ◌∙◌, inl, inr, true, Bool-cases, arith,
}
use nola.Activations.State.{
  instantiating, collecting_early, collected_early, cleared, rejected, open_actor, collecting,
  Activations, Call, id_of, generation_of, Position, waiting, rechecking, creating, invoking,
  begin_invoke, after_wait, recheck, instantiate, reject_future, collect, collect_early,
  resolve_collecting, resolve_collected,
}
use nola.Activations.Invariant.{key_of, IsWellFormed}
use nola.Activations.Stages.{close_previous-IsWellFormed, move_on-IsWellFormed}
use nola.Activations.Entries.{
  clear_failed-IsWellFormed, on_gc-IsWellFormed, on_gc_early-IsWellFormed,
}
use nola.Activations.Frames.{
  Extends, Extends-refl, close_previous-Extends, instantiate-Extends, clear_failed-Extends,
  reject_future-Extends, collect-Extends, on_gc-Extends, collect_early-Extends, on_gc_early-Extends,
  resolve_collecting-Extends, resolve_collected-Extends,
}
use nola.Activations.Knowing.{
  Knows, generation_at, Moves, Knows-Extends, begin_with-Moves, waited-Knows, recheck_with-Moves,
  created-Knows,
}
use nola.Activations.Running.{
  System, Step, begin_step, wait_step, recheck_step, created_step, run_step, close_step,
  instantiate_step, clear_step, reject_step, collect_step, forget_step, collect_early_step,
  forget_early_step, resolve_collecting_step, resolve_collected_step, moved, initial, Reachable,
  start, next,
}

pub record IsSafe (calls : ℕ → Call) (s : System) : Type 0 where
  pub formed : IsWellFormed s.shared
  pub known : (i : ℕ) → Knows (calls i) s.shared (s.positions i)

module _ (early : Bool) (calls : ℕ → Call) where
  -- One goroutine moves, in a state that extends the one before.
  moved-IsSafe :
      (s : System) (i : ℕ) (m : Activations × Position)
      → IsSafe calls s
      → Moves (calls i) s.shared m
      → IsSafe calls (record { shared = m.0; positions = moved i m.1 s.positions })
  unfolding moved
  moved-IsSafe s i (t, p) w (formed, x, k) = record {
    formed = formed;
    known = λ j. elim (Bool-cases (i == j)) [
      | inl same ↦
          let here : i ≡ j = ground (arith, same) in
          rw same (subst (λ (h : ℕ). Knows (calls h) t p) here k)
      | inr other ↦ rw other (Knows-Extends (calls j) s.shared t _ w.formed x (w.known j))
    ];
  }

  -- No goroutine moves.
  shared-IsSafe :
      (s : System) (t : Activations)
      → IsSafe calls s
      → IsWellFormed t
      → Extends s.shared t
      → IsSafe calls (record s { shared = t })
  shared-IsSafe s t w formed x = record {
    formed = formed;
    known = λ j. Knows-Extends (calls j) s.shared t _ w.formed x (w.known j);
  }

  pub known_at :
      (s : System) (i : ℕ) (p : Position)
      → IsSafe calls s
      → s.positions i ≡ p
      → Knows (calls i) s.shared p
  known_at s i p w e = subst (Knows (calls i) s.shared) e (w.known i)

  Step-IsSafe : {s t : System} → Step early calls s t → IsSafe calls s → IsSafe calls t
  unfolding begin_invoke after_wait recheck instantiate reject_future collect collect_early
      resolve_collecting resolve_collected
  Step-IsSafe {s} (begin_step i at free) w =
      moved-IsSafe s i _ w (begin_with-Moves (calls i) s.shared _ w.formed refl)
  Step-IsSafe {s} (wait_step i f p at done) w =
      moved-IsSafe s i (s.shared, p) w
        (
          w.formed,
          Extends-refl s.shared,
          waited-Knows (calls i) f s.shared _ p refl (known_at s i (waiting f) w at).1 done,
        )
  Step-IsSafe {s} (recheck_step i f at free) w =
      moved-IsSafe s i _ w
        (recheck_with-Moves (calls i) f s.shared _ w.formed (known_at s i (rechecking f) w at))
  Step-IsSafe {s} (created_step i f p at done) w =
      moved-IsSafe s i (s.shared, p) w
        (
          w.formed,
          Extends-refl s.shared,
          created-Knows (calls i) f s.shared _ p refl (known_at s i (creating f) w at) done,
        )
  Step-IsSafe {s} (run_step i f at) w =
      moved-IsSafe s i (s.shared, _) w (w.formed, Extends-refl s.shared, tt)
  Step-IsSafe {s} (close_step g prev e) w =
      shared-IsSafe s _ w (close_previous-IsWellFormed g prev s.shared e w.formed)
        (close_previous-Extends g prev s.shared e)
  Step-IsSafe {s} (instantiate_step g success e) w =
      shared-IsSafe s _ w (move_on-IsWellFormed g _ instantiating s.shared e (λ r. cc) w.formed)
        (instantiate-Extends success g s.shared e)
  Step-IsSafe {s} (clear_step g e) w =
      shared-IsSafe s _ w (clear_failed-IsWellFormed g s.shared e w.formed)
        (clear_failed-Extends g s.shared e)
  Step-IsSafe {s} (reject_step g e) w =
      shared-IsSafe s _ w (move_on-IsWellFormed g rejected cleared s.shared e (λ r. cc) w.formed)
        (reject_future-Extends g s.shared e)
  Step-IsSafe {s} (collect_step f e) w =
      shared-IsSafe s _ w
        (move_on-IsWellFormed f collecting open_actor s.shared e (λ r. cc) w.formed)
        (collect-Extends f s.shared)
  Step-IsSafe {s} (forget_step f e free) w =
      shared-IsSafe s _ w (on_gc-IsWellFormed f s.shared e w.formed) (on_gc-Extends f s.shared)
  Step-IsSafe {s} (collect_early_step g _ e) w =
      shared-IsSafe s _ w
        (move_on-IsWellFormed g collecting_early instantiating s.shared e (λ r. cc) w.formed)
        (collect_early-Extends g s.shared e)
  Step-IsSafe {s} (forget_early_step g _ e free) w =
      shared-IsSafe s _ w (on_gc_early-IsWellFormed g s.shared e w.formed)
        (on_gc_early-Extends g s.shared e)
  Step-IsSafe {s} (resolve_collecting_step g _ e) w =
      shared-IsSafe s _ w
        (move_on-IsWellFormed g collecting collecting_early s.shared e (λ r. cc) w.formed)
        (resolve_collecting-Extends g s.shared)
  Step-IsSafe {s} (resolve_collected_step g success _ e) w =
      shared-IsSafe s _ w (move_on-IsWellFormed g _ collected_early s.shared e (λ r. cc) w.formed)
        (resolve_collected-Extends success g s.shared e)

  initial-IsSafe : IsSafe calls initial
  initial-IsSafe = record {
    formed = record { below = λ k f e. cc; named = λ k f e. cc; fresh = λ f h. refl };
    known = λ i. tt;
  }

  pub Reachable-IsSafe : {s : System} → Reachable early calls s → IsSafe calls s
  Reachable-IsSafe start = initial-IsSafe
  Reachable-IsSafe (next r st) = Step-IsSafe st (Reachable-IsSafe r)

-- In every reachable state, also where the garbage collection is due before a startup is over, a
-- goroutine that is about to run an actor runs one of the actor ID of its
-- reference, at the generation of its reference or a later one.
pub invoking_fits :
    (early : Bool) (calls : ℕ → Call) (s : System) (i f : ℕ)
    → Reachable early calls s
    → s.positions i ≡ invoking f
    → (key_of s.shared f ≡ id_of (calls i).reference)
      × (generation_of (calls i).reference ≤ generation_at s.shared f)
invoking_fits early calls s i f r at =
    let (_, key, gen) = known_at early calls s i (invoking f) (Reachable-IsSafe early calls r) at in
    (key, gen)

-- In every reachable state, also where the garbage collection is due before a startup is over, a
-- call from a timer has put no future into the map, and is not about to
-- look for one to replace.
pub timer_creates_nothing :
    (early : Bool) (calls : ℕ → Call) (s : System) (i f : ℕ)
    → Reachable early calls s
    → (calls i).is_timer ≡ true
    → (s.positions i ≢ creating f) × (s.positions i ≢ rechecking f)
timer_creates_nothing early calls s i f r timer = (
  λ at.
      cc
        (sym timer ∙ (known_at early calls s i (creating f) (Reachable-IsSafe early calls r) at).2),
  λ at.
      cc (
        sym timer
        ∙ (known_at early calls s i (rechecking f) (Reachable-IsSafe early calls r) at).3),
)

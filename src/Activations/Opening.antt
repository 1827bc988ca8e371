-- ===== src/Activations/Opening.antt =====
-- Open actors, where no timer of the garbage collection is due before the startup of its actor is
-- over (virtual/activations.go).
use nola.Base.{
  ℕ, ◌==◌, ◌≡◌, refl, sym, ap, subst, ◌∙◌, inl, inr, Bool, true, false, Option, none, some,
  Bool-cases, if◌then◌else◌, arith,
}
use mathlib.Core.Option.{some-injective}
use nola.Activations.State.{
  Stage, preparing, instantiating, collecting_early, collected_early, failing, cleared, rejected,
  open_actor, collecting, closed_actor, Activations, Call, id_of, rechecking, begin_invoke,
  begin_with, recheck, recheck_with, returned, nothing, install,
}
use nola.Activations.Invariant.{stage_of, key_of, IsBusy, IsResolved, IsSound, IsCovered}
use nola.Activations.Stages.{
  close_previous-IsSound, instantiate-IsSound, reject_future-IsSound, collect-IsSound,
}
use nola.Activations.Entries.{clear_failed-IsSound, on_gc-IsSound}
use nola.Activations.Installing.{install-IsSound}
use nola.Activations.Running.{
  System, Step, begin_step, wait_step, recheck_step, created_step, run_step, close_step,
  instantiate_step, clear_step, reject_step, collect_step, forget_step, collect_early_step,
  forget_early_step, resolve_collecting_step, resolve_collected_step, Reachable, start, next,
}
use nola.Activations.Safety.{IsSafe, Reachable-IsSafe, known_at}

resolved_idle : (x : Stage) → IsResolved x → IsBusy x → ⊥
resolved_idle open_actor r b = b
resolved_idle collecting r b = b
resolved_idle closed_actor r b = b
resolved_idle (preparing _) r b = r
resolved_idle instantiating r b = r
resolved_idle failing r b = r
resolved_idle collecting_early r b = r
resolved_idle collected_early r b = r
resolved_idle cleared r b = r
resolved_idle rejected r b = r

not_there-IsSound :
    (call : Call) (s : Activations) (b : Bool)
    → IsSound s
    → s.actors (id_of call.reference) ≡ none
    → IsSound (if b then (s, returned nothing) else install call none s).0
not_there-IsSound call s true w e = w
not_there-IsSound call s false w e = install-IsSound call none s w e (λ f h b. cc)

begin_with-IsSound :
    (call : Call) (s : Activations) (o : Option ℕ)
    → IsSound s
    → s.actors (id_of call.reference) ≡ o
    → IsSound (begin_with call s o).0
begin_with-IsSound call s none w e = not_there-IsSound call s call.is_timer w e
begin_with-IsSound call s (some f) w e = w

recheck_with-IsSound :
    (call : Call) (f : ℕ) (s : Activations) (o : Option ℕ)
    → IsSound s
    → IsResolved (stage_of s f)
    → s.actors (id_of call.reference) ≡ o
    → IsSound (recheck_with call f s o).0
recheck_with-IsSound call f s none w r e = install-IsSound call none s w e (λ g h b. cc)
recheck_with-IsSound call f s (some g) w r e = elim (Bool-cases (g == f)) [
  | inl same ↦
      let here : g ≡ f = ground (arith, same) in
      rw same (
        install-IsSound call (some f) s w (e ∙ ap some here) (λ h q b.
          resolved_idle (stage_of s f) r
            (subst (λ (j : ℕ). IsBusy (stage_of s j)) (sym (some-injective _ _ q)) b)))
  | inr changed ↦ rw changed (record {
    formed = record { below = w.formed.below; named = w.formed.named; fresh = w.formed.fresh };
    busy = w.busy;
    covered = w.covered;
  })
]

module _ (calls : ℕ → Call) where
  Step-IsSound :
      {s t : System} → Step false calls s t → IsSafe calls s → IsSound s.shared → IsSound t.shared
  unfolding begin_invoke recheck
  Step-IsSound {s} (begin_step i at free) k w = begin_with-IsSound (calls i) s.shared _ w refl
  Step-IsSound (wait_step i f p at done) k w = w
  Step-IsSound {s} (recheck_step i f at free) k w =
      recheck_with-IsSound (calls i) f s.shared _ w (known_at false calls s i (rechecking f) k at).0
        refl
  Step-IsSound (created_step i f p at done) k w = w
  Step-IsSound (run_step i f at) k w = w
  Step-IsSound {s} (close_step g prev e) k w = close_previous-IsSound g prev s.shared e w
  Step-IsSound {s} (instantiate_step g success e) k w = instantiate-IsSound success g s.shared e w
  Step-IsSound {s} (clear_step g e) k w = clear_failed-IsSound g s.shared e w
  Step-IsSound {s} (reject_step g e) k w = reject_future-IsSound g s.shared e w
  Step-IsSound {s} (collect_step f e) k w = collect-IsSound f s.shared e w
  Step-IsSound {s} (forget_step f e free) k w = on_gc-IsSound f s.shared e w
  Step-IsSound (collect_early_step g early e) k w = cc
  Step-IsSound (forget_early_step g early e free) k w = cc
  Step-IsSound (resolve_collecting_step g early e) k w = cc
  Step-IsSound (resolve_collected_step g success early e) k w = cc

  Reachable-IsSound : {s : System} → Reachable false calls s → IsSound s.shared
  Reachable-IsSound start = record {
    formed = record { below = λ k f e. cc; named = λ k f e. cc; fresh = λ f h. refl };
    busy = λ f b. absurd b;
    covered = λ f e. cc;
  }
  Reachable-IsSound (next r st) =
      Step-IsSound st (Reachable-IsSafe false calls r) (Reachable-IsSound r)

same_entry :
    (s : Activations) (f g : ℕ) {h k : ℕ}
    → key_of s f ≡ key_of s g
    → s.actors (key_of s f) ≡ some h
    → s.actors (key_of s g) ≡ some k
    → h ≡ k
same_entry s f g e a b = some-injective _ _ (sym a ∙ ap s.actors e ∙ b)

open_actors_eq :
    (s : Activations) (f g : ℕ)
    → stage_of s f ≡ open_actor
    → stage_of s g ≡ open_actor
    → key_of s f ≡ key_of s g
    → IsCovered s f
    → IsCovered s g
    → f ≡ g
open_actors_eq s f g o p e (inl a) (inl b) = same_entry s f g e a b
open_actors_eq s f g o p e (inl a) (inr (h, b, q)) =
    cc (sym o ∙ ap (stage_of s) (same_entry s f g e a b) ∙ q)
open_actors_eq s f g o p e (inr (h, a, q)) (inl b) =
    cc (sym p ∙ ap (stage_of s) (sym (same_entry s f g e a b)) ∙ q)
open_actors_eq s f g o p e (inr (h, a, q)) (inr (k, b, r)) =
    cc (sym q ∙ ap (stage_of s) (same_entry s f g e a b) ∙ r)

-- In every state that goroutines and garbage collection can reach, as long as the timer of the garbage
-- collection is never due before the startup of its actor is over and the future resolved: at most
-- one instance of an actor is open, that is, two open instances with the same actor ID are one.
pub one_open_instance :
    (calls : ℕ → Call) (s : System) (f g : ℕ)
    → Reachable false calls s
    → stage_of s.shared f ≡ open_actor
    → stage_of s.shared g ≡ open_actor
    → key_of s.shared f ≡ key_of s.shared g
    → f ≡ g
one_open_instance calls s f g r o p e =
    let w = Reachable-IsSound calls r in
    open_actors_eq s.shared f g o p e (w.covered f o) (w.covered g p)

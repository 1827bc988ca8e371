-- ===== src/Activations/Frames.antt =====
-- What each step on the activations leaves of a future: its reference, and that it has resolved.
use nola.Base.{
  ℕ, ◌==◌, ◌≤◌, ◌<◌, ◌≡◌, refl, sym, ap, subst, ◌∙◌, inl, inr, Bool, Option, none, some, ℕ_discrete,
  Bool-cases, arith,
}
use nola.Activations.State.{
  Stage, preparing, instantiating, collecting_early, collected_early, failing, cleared, rejected,
  open_actor, collecting, closed_actor, Instance, Activations, Call, set_stage, install, close_if,
  close_actor, close_previous, instantiate, clear_failed, reject_future, collect, forget_if, on_gc,
  collect_early, on_gc_early, resolve_collecting, resolve_collected,
}
use nola.Activations.Invariant.{IsResolved, stage_of, IsWellFormed}
use nola.Activations.Stages.{set_stage_same, set_stage_other, set_stage-reference, set_stage-next}
use nola.Activations.Installing.{install-old, install-next}

pub record Extends (s t : Activations) : Type 0 where
  pub later : s.next ≤ t.next
  pub references : (f : ℕ) → f < s.next → (t.futures f).reference ≡ (s.futures f).reference
  pub resolved : (f : ℕ) → IsResolved (stage_of s f) → IsResolved (stage_of t f)

pub Extends-refl : (s : Activations) → Extends s s
Extends-refl s = record { later = omega arith; references = λ f h. refl; resolved = λ f h. h }

pub Extends-trans : (s t u : Activations) → Extends s t → Extends t u → Extends s u
Extends-trans s t u a b = record {
  later = omega (arith, a.later, b.later);
  references = λ f h. b.references f (omega (arith, h, a.later)) ∙ a.references f h;
  resolved = λ f h. b.resolved f (a.resolved f h);
}

set_stage-Extends :
    (g : ℕ) (x : Stage) (s : Activations)
    → (IsResolved (stage_of s g) → IsResolved x)
    → Extends s (set_stage g x s)
set_stage-Extends g x s keep = record {
  later = omega (arith, set_stage-next g x s);
  references = λ f h. set_stage-reference g f x s;
  resolved = λ f h. elim (ℕ_discrete g f) [
    | yes e ↦
        subst (λ (j : ℕ). IsResolved (stage_of (set_stage g x s) j)) e
          (subst IsResolved (sym (set_stage_same g x s))
            (keep (subst (λ (j : ℕ). IsResolved (stage_of s j)) (sym e) h)))
    | no ne ↦ subst IsResolved (sym (set_stage_other g f x s ne)) h
  ];
}

pub instantiate-Extends :
    (success : Bool) (g : ℕ) (s : Activations)
    → stage_of s g ≡ instantiating
    → Extends s (instantiate success g s)
unfolding instantiate
instantiate-Extends success g s e = set_stage-Extends g _ s (λ r. absurd (subst IsResolved e r))

pub clear_failed-Extends :
    (g : ℕ) (s : Activations) → stage_of s g ≡ failing → Extends s (clear_failed g s)
unfolding clear_failed
clear_failed-Extends g s e =
    let x = set_stage-Extends g cleared s (λ r. absurd (subst IsResolved e r)) in
    record { later = x.later; references = x.references; resolved = x.resolved }

pub reject_future-Extends :
    (g : ℕ) (s : Activations) → stage_of s g ≡ cleared → Extends s (reject_future g s)
unfolding reject_future
reject_future-Extends g s e = set_stage-Extends g rejected s (λ r. absurd (subst IsResolved e r))

pub collect-Extends : (f : ℕ) (s : Activations) → Extends s (collect f s)
unfolding collect
collect-Extends f s = set_stage-Extends f collecting s (λ r. tt)

forget_if-Extends : (f : ℕ) (o : Option ℕ) (s : Activations) → Extends s (forget_if f o s)
forget_if-Extends f none s = Extends-refl s
forget_if-Extends f (some g) s = elim (Bool-cases (g == f)) [
  | inl h ↦ rw h (record { later = omega arith; references = λ j k. refl; resolved = λ j k. k })
  | inr h ↦ rw h (Extends-refl s)
]

pub on_gc-Extends : (f : ℕ) (s : Activations) → Extends s (on_gc f s)
unfolding on_gc
on_gc-Extends f s =
    Extends-trans s _ _ (forget_if-Extends f _ s) (set_stage-Extends f closed_actor _ (λ r. tt))

pub collect_early-Extends :
    (g : ℕ) (s : Activations) → stage_of s g ≡ instantiating → Extends s (collect_early g s)
unfolding collect_early
collect_early-Extends g s e =
    set_stage-Extends g collecting_early s (λ r. absurd (subst IsResolved e r))

forget_if_unresolved :
    (f : ℕ) (o : Option ℕ) (s : Activations) → stage_of (forget_if f o s) f ≡ stage_of s f
forget_if_unresolved f none s = refl
forget_if_unresolved f (some g) s = elim (Bool-cases (g == f)) [
  | inl h ↦ rw h refl
  | inr h ↦ rw h refl
]

pub on_gc_early-Extends :
    (f : ℕ) (s : Activations) → stage_of s f ≡ collecting_early → Extends s (on_gc_early f s)
unfolding on_gc_early
on_gc_early-Extends f s e = Extends-trans s _ _ (forget_if-Extends f _ s) (
    set_stage-Extends f collected_early _
      (λ r. absurd (subst IsResolved (forget_if_unresolved f _ s ∙ e) r)))

pub resolve_collecting-Extends : (g : ℕ) (s : Activations) → Extends s (resolve_collecting g s)
unfolding resolve_collecting
resolve_collecting-Extends g s = set_stage-Extends g collecting s (λ r. tt)

pub resolve_collected-Extends :
    (success : Bool) (g : ℕ) (s : Activations)
    → stage_of s g ≡ collected_early
    → Extends s (resolve_collected success g s)
unfolding resolve_collected
resolve_collected-Extends success g s e =
    set_stage-Extends g _ s (λ r. absurd (subst IsResolved e r))

close_if-Extends : (f : ℕ) (y : Stage) (s : Activations) → Extends s (close_if f y s)
close_if-Extends f open_actor s = set_stage-Extends f closed_actor s (λ r. tt)
close_if-Extends f (preparing _) s = Extends-refl s
close_if-Extends f instantiating s = Extends-refl s
close_if-Extends f failing s = Extends-refl s
close_if-Extends f collecting_early s = Extends-refl s
close_if-Extends f collected_early s = Extends-refl s
close_if-Extends f cleared s = Extends-refl s
close_if-Extends f rejected s = Extends-refl s
close_if-Extends f collecting s = Extends-refl s
close_if-Extends f closed_actor s = Extends-refl s

-- A future that has not resolved is not touched by the closing of another.
close_if_unresolved :
    (f : ℕ) (y : Stage) (s : Activations) (g : ℕ)
    → stage_of s f ≡ y
    → IsResolved (stage_of (close_if f y s) g)
    → IsResolved (stage_of s g)
close_if_unresolved f open_actor s g e r = elim (ℕ_discrete f g) [
  | yes same ↦ subst (λ (j : ℕ). IsResolved (stage_of s j)) same (subst IsResolved (sym e) tt)
  | no ne ↦ subst IsResolved (set_stage_other f g closed_actor s ne) r
]
close_if_unresolved f (preparing _) s g e r = r
close_if_unresolved f instantiating s g e r = r
close_if_unresolved f failing s g e r = r
close_if_unresolved f collecting_early s g e r = r
close_if_unresolved f collected_early s g e r = r
close_if_unresolved f cleared s g e r = r
close_if_unresolved f rejected s g e r = r
close_if_unresolved f collecting s g e r = r
close_if_unresolved f closed_actor s g e r = r

pub close_previous-Extends :
    (g : ℕ) (prev : Option ℕ) (s : Activations)
    → stage_of s g ≡ preparing prev
    → Extends s (close_previous g prev s)
unfolding close_previous close_actor
close_previous-Extends g none s e =
    set_stage-Extends g instantiating s (λ r. absurd (subst IsResolved e r))
close_previous-Extends g (some f) s e = Extends-trans s _ _ (close_if-Extends f (stage_of s f) s) (
    set_stage-Extends g instantiating _
      (λ r. absurd (subst IsResolved e (close_if_unresolved f (stage_of s f) s g refl r))))

pub install-Extends :
    (call : Call) (prev : Option ℕ) (s : Activations)
    → IsWellFormed s
    → Extends s (install call prev s).0
install-Extends call prev s w = record {
  later = omega (arith, install-next call prev s);
  references = λ f h.
      ap (λ (i : Instance). i.reference)
        (install-old call prev s f (λ e. absurd (omega (arith, h, e))));
  resolved = λ f h.
      subst IsResolved
        (sym (
          ap (λ (i : Instance). i.stage)
            (install-old call prev s f (λ e. subst IsResolved (w.fresh f (omega (arith, e))) h))))
        h;
}

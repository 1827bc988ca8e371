-- ===== src/Activations/Entries.antt =====
-- Entries of the map of actors that come and go: `invokeNotExistWithLock`, the deferred removal and
-- `onGc` of virtual/activations.go.
use nola.Base.{
  ℕ, ◌==◌, ◌≡◌, ◌≢◌, refl, sym, ap, subst, ◌∙◌, inl, inr, Option, none, some, Bool-cases, arith,
}
use nola.Types.{NamespacedActorId}
use nola.Activations.State.{
  Stage, preparing, instantiating, failing, cleared, open_actor, collecting, closed_actor,
  Activations, same_id, set_actor, set_stage, remove_actor, clear_failed, forget_if, on_gc,
  on_gc_early, collecting_early, collected_early,
}
use nola.Activations.Invariant.{
  same_id_sound, set_actor_same, set_actor_other, IsBusy, stage_of, key_of, IsWellFormed, IsSound,
}
use nola.Activations.Stages.{
  NeedsPlace, move_on-IsSound, move_on-IsWellFormed, in_place_of, set_stage_same, set_stage-actors,
}

remove_actor-IsWellFormed :
    (k : NamespacedActorId) (s : Activations) → IsWellFormed s → IsWellFormed (remove_actor k s)
remove_actor-IsWellFormed k s w = record {
  below = λ j f h. w.below j f (left j f h);
  named = λ j f h. w.named j f (left j f h);
  fresh = λ f h. w.fresh f h;
}
  where
    left :
        (j : NamespacedActorId) (f : ℕ) → set_actor k none s.actors j ≡ some f → s.actors j ≡ some f
    left j f h = elim (Bool-cases (same_id k j)) [
      | inl same ↦ absurd (
          cc (
            sym (set_actor_same k none s.actors)
            ∙ ap (set_actor k none s.actors) (same_id_sound k j same)
            ∙ h))
      | inr other ↦ sym (set_actor_other k j none s.actors other) ∙ h
    ]

-- The entry of a future that is neither at work nor an open actor is taken out of the map.
remove_actor-IsSound :
    (k : NamespacedActorId) (g : ℕ) (s : Activations)
    → s.actors k ≡ some g
    → (NeedsPlace (stage_of s g) → ⊥)
    → IsSound s
    → IsSound (remove_actor k s)
remove_actor-IsSound k g s e idle w = record {
  formed = remove_actor-IsWellFormed k s w.formed;
  busy = λ f b. kept f f (w.busy f b) (λ same.
      idle (subst (λ h. NeedsPlace (stage_of s h)) (sym same) (busy_needs (stage_of s f) b)));
  covered = λ f o. elim (w.covered f o) [
    | inl h ↦
        inl
          (kept f f h (λ same. idle (subst (λ h. NeedsPlace (stage_of s h)) (sym same) (rw o tt))))
    | inr (h, p, prep) ↦ inr (
      h,
      kept f h p (λ same. idle (subst (λ h. NeedsPlace (stage_of s h)) (sym same) (rw prep tt))),
      prep,
    )
  ];
}
  where
    kept :
        (f h : ℕ)
        → s.actors (key_of s f) ≡ some h
        → (g ≢ h)
        → set_actor k none s.actors (key_of s f) ≡ some h
    kept f h p ne = elim (Bool-cases (same_id k (key_of s f))) [
      | inl same ↦ absurd (ne (cc (sym e ∙ ap s.actors (same_id_sound k (key_of s f) same) ∙ p)))
      | inr other ↦ set_actor_other k (key_of s f) none s.actors other ∙ p
    ]

    busy_needs : (x : Stage) → IsBusy x → NeedsPlace x
    busy_needs (preparing _) b = tt
    busy_needs instantiating b = tt
    busy_needs failing b = tt
    busy_needs open_actor b = tt
    busy_needs _ b = absurd b

pub clear_failed-IsSound :
    (g : ℕ) (s : Activations) → stage_of s g ≡ failing → IsSound s → IsSound (clear_failed g s)
unfolding clear_failed
clear_failed-IsSound g s e w =
    remove_actor-IsSound (key_of s g) g (set_stage g cleared s)
      (ap (λ (m : NamespacedActorId → Option ℕ). m (key_of s g)) (set_stage-actors g cleared s)
        ∙ in_place_of s g failing w e tt)
      (λ n. subst NeedsPlace (set_stage_same g cleared s) n)
      (move_on-IsSound g cleared failing s e (λ r. cc) (λ h r. cc) (λ n. absurd n) w)

forget_if-IsWellFormed :
    (f : ℕ) (o : Option ℕ) (s : Activations) → IsWellFormed s → IsWellFormed (forget_if f o s)
forget_if-IsWellFormed f none s w = w
forget_if-IsWellFormed f (some g) s w = elim (Bool-cases (g == f)) [
  | inl same ↦ rw same (remove_actor-IsWellFormed (key_of s f) s w)
  | inr other ↦ rw other w
]

forget_if-IsSound :
    (f : ℕ) (o : Option ℕ) (s : Activations)
    → s.actors (key_of s f) ≡ o
    → stage_of s f ≡ collecting
    → IsSound s
    → IsSound (forget_if f o s)
forget_if-IsSound f none s e c w = w
forget_if-IsSound f (some g) s e c w = elim (Bool-cases (g == f)) [
  | inl same ↦
      let here : g ≡ f = ground (arith, same) in
      rw same (
        remove_actor-IsSound (key_of s f) g s e (λ n. subst NeedsPlace (ap (stage_of s) here ∙ c) n)
          w)
  | inr other ↦ rw other w
]

forget_if_stage :
    (f : ℕ) (o : Option ℕ) (s : Activations) → stage_of (forget_if f o s) f ≡ stage_of s f
forget_if_stage f none s = refl
forget_if_stage f (some g) s = elim (Bool-cases (g == f)) [ inl h ↦ rw h refl | inr h ↦ rw h refl ]

pub on_gc-IsSound :
    (f : ℕ) (s : Activations) → stage_of s f ≡ collecting → IsSound s → IsSound (on_gc f s)
unfolding on_gc
on_gc-IsSound f s e w =
    move_on-IsSound f closed_actor collecting _ (forget_if_stage f _ s ∙ e) (λ r. cc) (λ h r. cc)
      (λ n. absurd n) (forget_if-IsSound f _ s refl e w)

pub clear_failed-IsWellFormed :
    (g : ℕ) (s : Activations)
    → stage_of s g ≡ failing
    → IsWellFormed s
    → IsWellFormed (clear_failed g s)
unfolding clear_failed
clear_failed-IsWellFormed g s e w =
    remove_actor-IsWellFormed (key_of s g) (set_stage g cleared s)
      (move_on-IsWellFormed g cleared failing s e (λ r. cc) w)

pub on_gc-IsWellFormed :
    (f : ℕ) (s : Activations)
    → stage_of s f ≡ collecting
    → IsWellFormed s
    → IsWellFormed (on_gc f s)
unfolding on_gc
on_gc-IsWellFormed f s e w =
    move_on-IsWellFormed f closed_actor collecting _ (forget_if_stage f _ s ∙ e) (λ r. cc)
      (forget_if-IsWellFormed f _ s w)

pub on_gc_early-IsWellFormed :
    (f : ℕ) (s : Activations)
    → stage_of s f ≡ collecting_early
    → IsWellFormed s
    → IsWellFormed (on_gc_early f s)
unfolding on_gc_early
on_gc_early-IsWellFormed f s e w =
    move_on-IsWellFormed f collected_early collecting_early _ (forget_if_stage f _ s ∙ e) (λ r. cc)
      (forget_if-IsWellFormed f _ s w)

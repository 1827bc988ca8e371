-- ===== src/Activations/Installing.antt =====
-- A new future that takes its place in the map of actors: `invokeNotExistWithLock` of
-- virtual/activations.go.
use nola.Base.{
  ℕ, suc, ◌≡◌, ◌≢◌, refl, sym, ap, subst, ◌∙◌, ◌⊎◌, inl, inr, false, Option, some, ℕ_discrete,
  Bool-cases, arith,
}
use nola.Types.{NamespacedActorId}
use nola.Activations.State.{
  preparing, rejected, Instance, Activations, Call, id_of, same_id, install,
}
use nola.Activations.Invariant.{
  same_id_sound, set_actor_same, set_actor_other, set_future_same, set_future_other, IsBusy,
  stage_of, key_of, IsCovered, IsWellFormed, IsSound,
}

module _ (call : Call) (prev : Option ℕ) (s : Activations) where
  abbrev pub installed : Activations
  installed = (install call prev s).0

  pub install-old : (f : ℕ) → s.next ≢ f → installed.futures f ≡ s.futures f
  unfolding install
  install-old f ne = set_future_other s.next f _ s.futures ne

  pub install-new :
      installed.futures s.next ≡ record { reference = call.reference; stage = preparing prev }
  unfolding install
  install-new = set_future_same s.next _ s.futures

  pub install-here : installed.actors (id_of call.reference) ≡ some s.next
  unfolding install
  install-here = set_actor_same (id_of call.reference) (some s.next) s.actors

  pub install-there :
      (k : NamespacedActorId)
      → same_id (id_of call.reference) k ≡ false
      → installed.actors k ≡ s.actors k
  unfolding install
  install-there k h = set_actor_other (id_of call.reference) k (some s.next) s.actors h

  pub install-next : installed.next ≡ suc s.next
  unfolding install
  install-next = refl

  -- An entry of the new map is that of the new future, or an old one.
  entry_cases :
      (k : NamespacedActorId) (f : ℕ)
      → installed.actors k ≡ some f
      → ((id_of call.reference ≡ k) × (s.next ≡ f)) ⊎ (s.actors k ≡ some f)
  entry_cases k f e = elim (Bool-cases (same_id (id_of call.reference) k)) [
    | inl same ↦
        let here = same_id_sound (id_of call.reference) k same in
        inl (here, cc (sym install-here ∙ ap installed.actors here ∙ e))
    | inr other ↦ inr (sym (install-there k other) ∙ e)
  ]

  -- The new future keeps the form of the map.
  pub install-IsWellFormed : IsWellFormed s → IsWellFormed installed
  install-IsWellFormed w = record {
    below = λ k f e. elim (entry_cases k f e) [
      | inl (_, new) ↦ omega (arith, install-next, new)
      | inr old ↦ omega (arith, install-next, w.below k f old)
    ];
    named = λ k f e. elim (entry_cases k f e) [
      | inl (key, new) ↦
          ap (key_of installed) (sym new)
          ∙ ap (λ (i : Instance). id_of i.reference) install-new
          ∙ key
      | inr old ↦
          ap (λ (i : Instance). id_of i.reference)
            (install-old f (λ same. absurd (omega (arith, same, w.below k f old))))
          ∙ w.named k f old
    ];
    fresh = λ f h.
        let old : s.next ≢ f = λ e. absurd (omega (arith, h, e, install-next)) in
        ap (λ (i : Instance). i.stage) (install-old f old)
        ∙ w.fresh f (omega (arith, h, install-next));
  }

module _ (call : Call) (prev : Option ℕ) (s : Activations) (w : IsSound s)
    (entry : s.actors (id_of call.reference) ≡ prev) where
  made_before : (f : ℕ) → stage_of s f ≢ rejected → s.next ≢ f
  made_before f ne e = ne (w.formed.fresh f (omega (arith, e)))

  -- What stood at another key, or does not stand at the key of the call, stands where it stood.
  kept :
      (f g : ℕ)
      → s.next ≢ f
      → prev ≢ some g
      → s.actors (key_of s f) ≡ some g
      → (installed call prev s).actors (key_of (installed call prev s) f) ≡ some g
  kept f g old ne e =
      ap (installed call prev s).actors
        (ap (λ (i : Instance). id_of i.reference) (install-old call prev s f old))
      ∙ elim (Bool-cases (same_id (id_of call.reference) (key_of s f))) [
        | inl same ↦ absurd (
            ne (
              sym entry ∙ ap s.actors (same_id_sound (id_of call.reference) (key_of s f) same) ∙ e))
        | inr other ↦ install-there call prev s (key_of s f) other ∙ e
      ]

  new_in_place :
      (f : ℕ)
      → s.next ≡ f
      → (installed call prev s).actors (key_of (installed call prev s) f) ≡ some f
  new_in_place f e =
      subst (λ (h : ℕ). (installed call prev s).actors (key_of (installed call prev s) h) ≡ some h)
        e
        (ap (installed call prev s).actors
            (ap (λ (i : Instance). id_of i.reference) (install-new call prev s))
          ∙ install-here call prev s)

  -- The future in whose place the new one comes is not at work.
  module _ (idle : (f : ℕ) → prev ≡ some f → IsBusy (stage_of s f) → ⊥) where
    busy_kept :
        (f : ℕ)
        → s.next ≢ f
        → IsBusy (stage_of s f)
        → (installed call prev s).actors (key_of (installed call prev s) f) ≡ some f
    busy_kept f old b = kept f f old (λ p. idle f p b) (w.busy f b)

    IsCovered-kept : (f : ℕ) → s.next ≢ f → IsCovered s f → IsCovered (installed call prev s) f
    IsCovered-kept f old (inl e) = elim (Bool-cases (same_id (id_of call.reference) (key_of s f))) [
      | inl same ↦
          let key = same_id_sound (id_of call.reference) (key_of s f) same in
          inr (
            s.next,
            ap (installed call prev s).actors
                  (ap (λ (i : Instance). id_of i.reference) (install-old call prev s f old))
                ∙ ap (installed call prev s).actors (sym key)
                ∙ install-here call prev s,
            ap (λ (i : Instance). i.stage) (install-new call prev s)
                ∙ ap preparing (sym entry ∙ ap s.actors key ∙ e),
          )
      | inr other ↦ inl (
          ap (installed call prev s).actors
            (ap (λ (i : Instance). id_of i.reference) (install-old call prev s f old))
          ∙ install-there call prev s (key_of s f) other
          ∙ e)
    ]
    IsCovered-kept f old (inr (g, e, p)) = inr (
      g,
      kept f g old (λ q. idle g q (subst IsBusy (sym p) tt)) e,
      ap (λ (i : Instance). i.stage)
            (install-old call prev s g (made_before g (λ r. cc (sym p ∙ r))))
          ∙ p,
    )

    -- The new future keeps what holds of the map.
    pub install-IsSound : IsSound (installed call prev s)
    install-IsSound = record {
      formed = install-IsWellFormed call prev s w.formed;
      busy = λ f b. elim (ℕ_discrete s.next f) [
        | yes new ↦ new_in_place f new
        | no old ↦
            busy_kept f old
              (subst IsBusy (ap (λ (i : Instance). i.stage) (install-old call prev s f old)) b)
      ];
      covered = λ f o. elim (ℕ_discrete s.next f) [
        | yes new ↦ inl (new_in_place f new)
        | no old ↦
            IsCovered-kept f old (
              w.covered f
                (sym (ap (λ (i : Instance). i.stage) (install-old call prev s f old)) ∙ o))
      ];
    }

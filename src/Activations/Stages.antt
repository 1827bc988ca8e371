-- ===== src/Activations/Stages.antt =====
-- A future that moves on to another stage keeps what holds of the map of actors
-- (virtual/activations.go).
use nola.Base.{
  ℕ, ◌<◌, ◌≡◌, ◌≢◌, refl, sym, ap, subst, ◌∙◌, inl, inr, Bool, Option, none, some, ℕ_discrete,
  dec_lt, arith,
}
use nola.Types.{NamespacedActorId}
use nola.Activations.State.{
  Stage, preparing, instantiating, collecting_early, collected_early, failing, cleared, rejected,
  open_actor, collecting, closed_actor, Instance, Activations, id_of, set_future, set_stage,
  close_if, close_actor, close_previous, instantiate, reject_future, collect,
}
use nola.Activations.Invariant.{
  set_future_same, set_future_other, IsBusy, stage_of, key_of, IsCovered, IsWellFormed, IsSound,
}

pub set_stage_same : (f : ℕ) (x : Stage) (s : Activations) → stage_of (set_stage f x s) f ≡ x
unfolding set_stage
set_stage_same f x s = ap (λ (i : Instance). i.stage) (set_future_same f _ s.futures)

pub set_stage_other :
    (f g : ℕ) (x : Stage) (s : Activations) → f ≢ g → stage_of (set_stage f x s) g ≡ stage_of s g
unfolding set_stage
set_stage_other f g x s h = ap (λ (i : Instance). i.stage) (set_future_other f g _ s.futures h)

pub set_stage-reference :
    (f g : ℕ) (x : Stage) (s : Activations)
    → ((set_stage f x s).futures g).reference ≡ (s.futures g).reference
unfolding set_stage
set_stage-reference f g x s = elim (ℕ_discrete f g) [
  | yes e ↦
      ap (λ (h : ℕ). (set_future f (record (s.futures f) { stage = x }) s.futures h).reference)
        (sym e)
      ∙ ap (λ (i : Instance). i.reference) (set_future_same f _ s.futures)
      ∙ ap (λ (h : ℕ). (s.futures h).reference) e
  | no ne ↦ ap (λ (i : Instance). i.reference) (set_future_other f g _ s.futures ne)
]

pub set_stage-key :
    (f g : ℕ) (x : Stage) (s : Activations) → key_of (set_stage f x s) g ≡ key_of s g
set_stage-key f g x s = ap id_of (set_stage-reference f g x s)

pub set_stage-actors : (f : ℕ) (x : Stage) (s : Activations) → (set_stage f x s).actors ≡ s.actors
unfolding set_stage
set_stage-actors f x s = refl

pub set_stage-next : (f : ℕ) (x : Stage) (s : Activations) → (set_stage f x s).next ≡ s.next
unfolding set_stage
set_stage-next f x s = refl

-- A stage that needs its future in the map.
abbrev pub NeedsPlace : Stage → Type 0
NeedsPlace (preparing _) = Unit
NeedsPlace instantiating = Unit
NeedsPlace failing = Unit
NeedsPlace open_actor = Unit
NeedsPlace _ = ⊥

place-of_open : (x : Stage) → x ≡ open_actor → NeedsPlace x
place-of_open x e = rw e tt

place-of_busy : (x : Stage) → IsBusy x → NeedsPlace x
place-of_busy (preparing _) b = tt
place-of_busy instantiating b = tt
place-of_busy failing b = tt
place-of_busy _ b = absurd b

-- A future of `set_stage g x s` stands in the map where it stood.
in_map :
    (g : ℕ) (x : Stage) (s : Activations) (f h : ℕ)
    → s.actors (key_of s f) ≡ some h
    → (set_stage g x s).actors (key_of (set_stage g x s) f) ≡ some h
in_map g x s f h e =
    ap (set_stage g x s).actors (set_stage-key g f x s)
    ∙ ap (λ (m : NamespacedActorId → Option ℕ). m (key_of s f)) (set_stage-actors g x s)
    ∙ e

IsCovered-still :
    (g : ℕ) (x : Stage) (s : Activations) (f : ℕ)
    → ((f : ℕ) → stage_of s g ≡ preparing (some f) → stage_of s f ≢ open_actor)
    → stage_of s f ≡ open_actor
    → IsCovered s f
    → IsCovered (set_stage g x s) f
IsCovered-still g x s f none_left o (inl e) = inl (in_map g x s f f e)
IsCovered-still g x s f none_left o (inr (h, e, prep)) = elim (ℕ_discrete g h) [
  | yes same ↦ absurd (none_left f (ap (stage_of s) same ∙ prep) o)
  | no ne ↦ inr (h, in_map g x s f h e, set_stage_other g h x s ne ∙ prep)
]

pub set_stage-IsWellFormed :
    (g : ℕ) (x : Stage) (s : Activations)
    → g < s.next
    → IsWellFormed s
    → IsWellFormed (set_stage g x s)
set_stage-IsWellFormed g x s old w = record {
  below = λ k f e. subst (λ n. f < n) (sym (set_stage-next g x s)) (w.below k f (old_entry k f e));
  named = λ k f e. set_stage-key g f x s ∙ w.named k f (old_entry k f e);
  fresh = λ f h.
      set_stage_other g f x s (λ e. absurd (omega (arith, old, e, h, set_stage-next g x s)))
      ∙ w.fresh f (omega (arith, h, set_stage-next g x s));
}
  where
    old_entry :
        (k : NamespacedActorId) (f : ℕ) → (set_stage g x s).actors k ≡ some f → s.actors k ≡ some f
    old_entry k f e =
        sym (ap (λ (m : NamespacedActorId → Option ℕ). m k) (set_stage-actors g x s)) ∙ e

-- A future moves on to a stage; one that needs its place has it, and no open actor waits to be
-- closed by it.
pub set_stage-IsSound :
    (g : ℕ) (x : Stage) (s : Activations)
    → g < s.next
    → (NeedsPlace x → s.actors (key_of s g) ≡ some g)
    → ((f : ℕ) → stage_of s g ≡ preparing (some f) → stage_of s f ≢ open_actor)
    → IsSound s
    → IsSound (set_stage g x s)
set_stage-IsSound g x s old place none_left w = record {
  formed = set_stage-IsWellFormed g x s old w.formed;
  busy = λ f b. elim (ℕ_discrete g f) [
    | yes e ↦ in_map g x s f f (
        subst (λ (h : ℕ). s.actors (key_of s h) ≡ some h) e
          (place (
            place-of_busy x
              (subst IsBusy (ap (stage_of (set_stage g x s)) (sym e) ∙ set_stage_same g x s) b))))
    | no ne ↦ in_map g x s f f (w.busy f (subst IsBusy (set_stage_other g f x s ne) b))
  ];
  covered = λ f o. elim (ℕ_discrete g f) [
    | yes e ↦ inl (
        in_map g x s f f (
          subst (λ (h : ℕ). s.actors (key_of s h) ≡ some h) e
            (place (
              place-of_open x
                (sym (ap (stage_of (set_stage g x s)) (sym e) ∙ set_stage_same g x s) ∙ o)))))
    | no ne ↦
        let was = sym (set_stage_other g f x s ne) ∙ o in
        IsCovered-still g x s f none_left was (w.covered f was)
  ];
}

-- A future at any stage but the last error is one that was made.
pub made : (s : Activations) (f : ℕ) → IsWellFormed s → stage_of s f ≢ rejected → f < s.next
made s f w ne = elim (dec_lt f s.next) [
  | yes h ↦ h
  | no h ↦ absurd (ne (w.fresh f (omega (arith, h))))
]

-- A future that was made moves on.
pub move_on-IsWellFormed :
    (g : ℕ) (x y : Stage) (s : Activations)
    → stage_of s g ≡ y
    → y ≢ rejected
    → IsWellFormed s
    → IsWellFormed (set_stage g x s)
move_on-IsWellFormed g x y s e ne w =
    set_stage-IsWellFormed g x s (made s g w (λ r. ne (sym e ∙ r))) w

-- A stage other than that of a future which has still to close an actor.
waits_for_none :
    (s : Activations) (g : ℕ) (x : Stage)
    → stage_of s g ≡ x
    → ((f : ℕ) → x ≢ preparing (some f))
    → (f : ℕ) → stage_of s g ≡ preparing (some f)
    → stage_of s f ≢ open_actor
waits_for_none s g x e ne f p o = ne f (sym e ∙ p)

-- A future at the stage `y`, which waits to close no actor, moves on to the stage `x`.
pub move_on-IsSound :
    (g : ℕ) (x y : Stage) (s : Activations)
    → stage_of s g ≡ y
    → y ≢ rejected
    → ((f : ℕ) → y ≢ preparing (some f))
    → (NeedsPlace x → s.actors (key_of s g) ≡ some g)
    → IsSound s
    → IsSound (set_stage g x s)
move_on-IsSound g x y s e ne no_prev place w =
    set_stage-IsSound g x s (made s g w.formed (λ r. ne (sym e ∙ r))) place
      (waits_for_none s g y e no_prev) w

pub in_place_of :
    (s : Activations) (g : ℕ) (y : Stage)
    → IsSound s
    → stage_of s g ≡ y
    → IsBusy y
    → s.actors (key_of s g) ≡ some g
in_place_of s g y w e b = w.busy g (subst IsBusy (sym e) b)

close_if-IsSound :
    (f : ℕ) (y : Stage) (s : Activations) → stage_of s f ≡ y → IsSound s → IsSound (close_if f y s)
close_if-IsSound f open_actor s e w =
    move_on-IsSound f closed_actor open_actor s e (λ r. cc) (λ h r. cc) (λ n. absurd n) w
close_if-IsSound f (preparing _) s e w = w
close_if-IsSound f instantiating s e w = w
close_if-IsSound f failing s e w = w
close_if-IsSound f collecting_early s e w = w
close_if-IsSound f collected_early s e w = w
close_if-IsSound f cleared s e w = w
close_if-IsSound f rejected s e w = w
close_if-IsSound f collecting s e w = w
close_if-IsSound f closed_actor s e w = w

close_if-IsWellFormed :
    (f : ℕ) (y : Stage) (s : Activations)
    → stage_of s f ≡ y
    → IsWellFormed s
    → IsWellFormed (close_if f y s)
close_if-IsWellFormed f open_actor s e w =
    move_on-IsWellFormed f closed_actor open_actor s e (λ r. cc) w
close_if-IsWellFormed f _ s e w = w

-- A closed actor is not open, and no other future has moved.
close_if_stages :
    (f : ℕ) (y : Stage) (s : Activations)
    → stage_of s f ≡ y
    → (stage_of (close_if f y s) f ≢ open_actor)
      × ((g : ℕ) → stage_of s g ≢ open_actor → stage_of (close_if f y s) g ≡ stage_of s g)
close_if_stages f open_actor s e = (
  λ o. cc (sym (set_stage_same f closed_actor s) ∙ o),
  λ g ne. set_stage_other f g closed_actor s (λ same. ne (ap (stage_of s) (sym same) ∙ e)),
)
close_if_stages f (preparing _) s e = (λ o. cc (sym e ∙ o), λ g ne. refl)
close_if_stages f instantiating s e = (λ o. cc (sym e ∙ o), λ g ne. refl)
close_if_stages f failing s e = (λ o. cc (sym e ∙ o), λ g ne. refl)
close_if_stages f collecting_early s e = (λ o. cc (sym e ∙ o), λ g ne. refl)
close_if_stages f collected_early s e = (λ o. cc (sym e ∙ o), λ g ne. refl)
close_if_stages f cleared s e = (λ o. cc (sym e ∙ o), λ g ne. refl)
close_if_stages f rejected s e = (λ o. cc (sym e ∙ o), λ g ne. refl)
close_if_stages f collecting s e = (λ o. cc (sym e ∙ o), λ g ne. refl)
close_if_stages f closed_actor s e = (λ o. cc (sym e ∙ o), λ g ne. refl)

pub close_previous-IsSound :
    (g : ℕ) (prev : Option ℕ) (s : Activations)
    → stage_of s g ≡ preparing prev
    → IsSound s
    → IsSound (close_previous g prev s)
unfolding close_previous close_actor
close_previous-IsSound g none s e w =
    move_on-IsSound g instantiating (preparing none) s e (λ r. cc) (λ h r. cc)
      (λ n. in_place_of s g (preparing none) w e tt) w
close_previous-IsSound g (some f) s e w =
    let (shut, kept) = close_if_stages f (stage_of s f) s refl in
    let w' = close_if-IsSound f (stage_of s f) s refl w in
    let e' = kept g (λ o. cc (sym e ∙ o)) ∙ e in
    set_stage-IsSound g instantiating _ (made _ g w'.formed (λ r. cc (sym e' ∙ r)))
      (λ n. in_place_of _ g (preparing (some f)) w' e' tt)
      (λ h p o.
        let same : h ≡ f = cc (sym e' ∙ p) in
        shut (ap (stage_of (close_if f (stage_of s f) s)) (sym same) ∙ o))
      w'

pub instantiate-IsSound :
    (success : Bool) (g : ℕ) (s : Activations)
    → stage_of s g ≡ instantiating
    → IsSound s
    → IsSound (instantiate success g s)
unfolding instantiate
instantiate-IsSound success g s e w =
    move_on-IsSound g _ instantiating s e (λ r. cc) (λ h r. cc)
      (λ n. in_place_of s g instantiating w e tt) w

pub reject_future-IsSound :
    (g : ℕ) (s : Activations) → stage_of s g ≡ cleared → IsSound s → IsSound (reject_future g s)
unfolding reject_future
reject_future-IsSound g s e w =
    move_on-IsSound g rejected cleared s e (λ r. cc) (λ h r. cc) (λ n. absurd n) w

pub collect-IsSound :
    (f : ℕ) (s : Activations) → stage_of s f ≡ open_actor → IsSound s → IsSound (collect f s)
unfolding collect
collect-IsSound f s e w =
    move_on-IsSound f collecting open_actor s e (λ r. cc) (λ h r. cc) (λ n. absurd n) w

pub close_previous-IsWellFormed :
    (g : ℕ) (prev : Option ℕ) (s : Activations)
    → stage_of s g ≡ preparing prev
    → IsWellFormed s
    → IsWellFormed (close_previous g prev s)
unfolding close_previous close_actor
close_previous-IsWellFormed g none s e w =
    move_on-IsWellFormed g instantiating (preparing none) s e (λ r. cc) w
close_previous-IsWellFormed g (some f) s e w =
    let (_, kept) = close_if_stages f (stage_of s f) s refl in
    move_on-IsWellFormed g instantiating (preparing (some f)) _ (kept g (λ o. cc (sym e ∙ o)) ∙ e)
      (λ r. cc) (close_if-IsWellFormed f (stage_of s f) s refl w)

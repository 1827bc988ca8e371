-- ===== src/Activations/Knowing.antt =====
-- What a goroutine in `invoke` (virtual/activations.go) knows at each position, and that its own
-- steps and those of others keep it.
use nola.Base.{
  ℕ, ◌==◌, ◌≤◌, ◌<◌, ◌≡◌, refl, sym, ap, subst, ◌∙◌, inl, inr, Bool, true, false, not, ◌&&◌, Option,
  none, some, leb, Bool-cases, if◌then◌else◌, arith,
}
use mathlib.Core.Option.{some-injective}
use nola.Activations.State.{
  Stage, preparing, instantiating, collecting_early, collected_early, failing, cleared, rejected,
  open_actor, collecting, closed_actor, Reference, virtual_ref, actor_ref, same_reference,
  same_virtual, generation_of, Instance, Activations, Call, id_of, install, Position, begun,
  waiting, rechecking, creating, invoking, returned, nothing, begin_with, waited, with_actor,
  recheck_with, created,
}
use nola.Activations.Invariant.{IsResolved, stage_of, key_of, IsWellFormed}
use nola.Activations.Stages.{made}
use nola.Activations.Installing.{install-IsWellFormed, install-new, install-next}
use nola.Activations.Frames.{Extends, Extends-refl, install-Extends}

abbrev pub generation_at : Activations → ℕ → ℕ
generation_at s f = generation_of (s.futures f).reference

-- What a goroutine knows at each position.
abbrev pub Knows : Call → Activations → Position → Type 0
Knows call s begun = Unit
Knows call s (waiting f) = (f < s.next) × (key_of s f ≡ id_of call.reference)
Knows call s (rechecking f) =
    IsResolved (stage_of s f)
    × (key_of s f ≡ id_of call.reference)
    × (generation_at s f < generation_of call.reference)
    × (call.is_timer ≡ false)
Knows call s (creating f) =
    (f < s.next) × ((s.futures f).reference ≡ call.reference) × (call.is_timer ≡ false)
Knows call s (invoking f) =
    IsResolved (stage_of s f)
    × (key_of s f ≡ id_of call.reference)
    × (generation_of call.reference ≤ generation_at s f)
Knows call s (returned _) = Unit

resolved_made : (s : Activations) (f : ℕ) → IsWellFormed s → IsResolved (stage_of s f) → f < s.next
resolved_made s f w r = made s f w (λ e. subst IsResolved e r)

pub Knows-Extends :
    (call : Call) (s t : Activations) (p : Position)
    → IsWellFormed s
    → Extends s t
    → Knows call s p
    → Knows call t p
Knows-Extends call s t begun w x k = tt
Knows-Extends call s t (waiting f) w x (lt, key) =
    (omega (arith, lt, x.later), ap id_of (x.references f lt) ∙ key)
Knows-Extends call s t (rechecking f) w x (r, key, gen, timer) =
    let same = x.references f (resolved_made s f w r) in
    (x.resolved f r, ap id_of same ∙ key, omega (arith, ap generation_of same, gen), timer)
Knows-Extends call s t (creating f) w x (lt, ref, timer) =
    (omega (arith, lt, x.later), x.references f lt ∙ ref, timer)
Knows-Extends call s t (invoking f) w x (r, key, gen) =
    let same = x.references f (resolved_made s f w r) in
    (x.resolved f r, ap id_of same ∙ key, omega (arith, ap generation_of same, gen))
Knows-Extends call s t (returned o) w x k = tt

-- What a step of one goroutine leaves: a sound state that extends the one before, and what the
-- goroutine knows in it.
abbrev pub Moves : Call → Activations → Activations × Position → Type 0
Moves call s (t, p) = IsWellFormed t × Extends s t × Knows call t p

install-Moves :
    (call : Call) (prev : Option ℕ) (s : Activations)
    → IsWellFormed s
    → call.is_timer ≡ false
    → Moves call s (install call prev s)
unfolding install
install-Moves call prev s w timer = (
  install-IsWellFormed call prev s w,
  install-Extends call prev s w,
  (
    omega (arith, install-next call prev s),
    ap (λ (i : Instance). i.reference) (install-new call prev s),
    timer,
  ),
)

not_there-Moves :
    (call : Call) (s : Activations) (b : Bool)
    → IsWellFormed s
    → call.is_timer ≡ b
    → Moves call s (if b then (s, returned nothing) else install call none s)
not_there-Moves call s true w timer = (w, Extends-refl s, tt)
not_there-Moves call s false w plain = install-Moves call none s w plain

pub begin_with-Moves :
    (call : Call) (s : Activations) (o : Option ℕ)
    → IsWellFormed s
    → s.actors (id_of call.reference) ≡ o
    → Moves call s (begin_with call s o)
begin_with-Moves call s none w e = not_there-Moves call s call.is_timer w refl
begin_with-Moves call s (some f) w e =
    (w, Extends-refl s, (w.below (id_of call.reference) f e, w.named (id_of call.reference) f e))

same_reference_generation :
    (a b : Reference) → same_reference a b ≡ true → generation_of a ≡ generation_of b
unfolding same_reference same_virtual
same_reference_generation (virtual_ref a) (virtual_ref b) h = ground (arith, h)
same_reference_generation (actor_ref a) (actor_ref b) h = ground (arith, h)
same_reference_generation (virtual_ref a) (actor_ref b) h = cc
same_reference_generation (actor_ref a) (virtual_ref b) h = cc

with_actor-Knows :
    (call : Call) (f : ℕ) (s : Activations)
    → IsResolved (stage_of s f)
    → key_of s f ≡ id_of call.reference
    → Knows call s (with_actor call f (s.futures f))
with_actor-Knows call f s r key =
    elim (Bool-cases
      (call.is_timer && not (same_reference (s.futures f).reference call.reference))) [
        | inl stale ↦ rw stale tt
        | inr fitting ↦
            rw fitting (elim (Bool-cases (leb (generation_of call.reference) (generation_at s f))) [
              | inl new ↦ rw new (r, key, ground (arith, new))
              | inr old ↦ rw old (
                r,
                key,
                ground (arith, old),
                elim (Bool-cases call.is_timer) [
                  | inr plain ↦ plain
                  | inl timer ↦ absurd (
                      ground (
                        arith,
                        old,
                        timer,
                        fitting,
                        same_reference_generation (s.futures f).reference call.reference,
                      ))
                ],
              )
            ])
      ]

pub waited-Knows :
    (call : Call) (f : ℕ) (s : Activations) (x : Stage) (p : Position)
    → stage_of s f ≡ x
    → key_of s f ≡ id_of call.reference
    → waited call f (s.futures f) x ≡ some p
    → Knows call s p
waited-Knows call f s (preparing _) p e key h = cc
waited-Knows call f s instantiating p e key h = cc
waited-Knows call f s failing p e key h = cc
waited-Knows call f s collecting_early p e key h = cc
waited-Knows call f s collected_early p e key h = cc
waited-Knows call f s cleared p e key h = cc
waited-Knows call f s rejected p e key h = subst (Knows call s) (some-injective _ _ h) tt
waited-Knows call f s open_actor p e key h =
    subst (Knows call s) (some-injective _ _ h)
      (with_actor-Knows call f s (subst IsResolved (sym e) tt) key)
waited-Knows call f s collecting p e key h =
    subst (Knows call s) (some-injective _ _ h)
      (with_actor-Knows call f s (subst IsResolved (sym e) tt) key)
waited-Knows call f s closed_actor p e key h =
    subst (Knows call s) (some-injective _ _ h)
      (with_actor-Knows call f s (subst IsResolved (sym e) tt) key)

pub recheck_with-Moves :
    (call : Call) (f : ℕ) (s : Activations) (o : Option ℕ)
    → IsWellFormed s
    → Knows call s (rechecking f)
    → Moves call s (recheck_with call f s o)
recheck_with-Moves call f s none w (r, key, gen, timer) = install-Moves call none s w timer
recheck_with-Moves call f s (some g) w (r, key, gen, timer) = elim (Bool-cases (g == f)) [
  | inl same ↦ rw same (install-Moves call (some f) s w timer)
  | inr changed ↦
      let low : leb (generation_of call.reference) (generation_at s f) ≡ false =
        ground (arith, gen) in
      rw (changed, low)
        (
          record { below = w.below; named = w.named; fresh = w.fresh },
          record { later = omega arith; references = λ j h. refl; resolved = λ j h. h },
          tt,
        )
]

pub created-Knows :
    (call : Call) (f : ℕ) (s : Activations) (x : Stage) (p : Position)
    → stage_of s f ≡ x
    → Knows call s (creating f)
    → created f x ≡ some p
    → Knows call s p
created-Knows call f s (preparing _) p e k h = cc
created-Knows call f s instantiating p e k h = cc
created-Knows call f s failing p e k h = cc
created-Knows call f s collecting_early p e k h = cc
created-Knows call f s collected_early p e k h = cc
created-Knows call f s cleared p e k h = cc
created-Knows call f s rejected p e k h = subst (Knows call s) (some-injective _ _ h) tt
created-Knows call f s open_actor p e (lt, ref, timer) h =
    subst (Knows call s) (some-injective _ _ h)
      (subst IsResolved (sym e) tt, ap id_of ref, omega (arith, ap generation_of ref))
created-Knows call f s collecting p e (lt, ref, timer) h =
    subst (Knows call s) (some-injective _ _ h)
      (subst IsResolved (sym e) tt, ap id_of ref, omega (arith, ap generation_of ref))
created-Knows call f s closed_actor p e (lt, ref, timer) h =
    subst (Knows call s) (some-injective _ _ h)
      (subst IsResolved (sym e) tt, ap id_of ref, omega (arith, ap generation_of ref))

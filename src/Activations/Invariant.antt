-- ===== src/Activations/Invariant.antt =====
-- What holds of the map of actors and the instances behind it, and that each step of
-- virtual/activations.go on them keeps it.
use nola.Base.{ℕ, ◌≤◌, ◌<◌, ◌≡◌, ◌≢◌, refl, ◌⊎◌, true, false, Option, some, str_eq_iff, arith}
use nola.Types.{NamespacedActorId, IdType, actor, worker}
use nola.Activations.State.{
  Stage, preparing, instantiating, failing, rejected, open_actor, collecting, closed_actor,
  Instance, Activations, id_of, same_id, same_type, set_actor, set_future,
}

pub same_id_sound : (a b : NamespacedActorId) → same_id a b ≡ true → a ≡ b
unfolding same_id
same_id_sound a b h i = record {
  namespace = names i;
  id = ids i;
  module_id = modules i;
  id_type = types a.id_type b.id_type last i;
}
  where
    names : a.namespace ≡ b.namespace
    names = ground (arith, str_eq_iff a.namespace b.namespace, h)

    ids : a.id ≡ b.id
    ids = ground (arith, str_eq_iff a.id b.id, h)

    modules : a.module_id ≡ b.module_id
    modules = ground (arith, str_eq_iff a.module_id b.module_id, h)

    last : same_type a.id_type b.id_type ≡ true
    last = ground (arith, h)

    types : (x y : IdType) → same_type x y ≡ true → x ≡ y
    types actor actor e = refl
    types actor worker e = cc
    types worker actor e = cc
    types worker worker e = refl

pub same_id_refl : (a : NamespacedActorId) → same_id a a ≡ true
unfolding same_id
same_id_refl a = ground (
  arith,
  str_eq_iff a.namespace a.namespace,
  str_eq_iff a.id a.id,
  str_eq_iff a.module_id a.module_id,
  same_type_refl a.id_type,
)
  where
    same_type_refl : (x : IdType) → same_type x x ≡ true
    same_type_refl actor = refl
    same_type_refl worker = refl

pub set_actor_same :
    (k : NamespacedActorId) (f : Option ℕ) (m : NamespacedActorId → Option ℕ)
    → set_actor k f m k ≡ f
unfolding set_actor
set_actor_same k f m = rw (same_id_refl k) refl

pub set_actor_other :
    (k j : NamespacedActorId) (f : Option ℕ) (m : NamespacedActorId → Option ℕ)
    → same_id k j ≡ false
    → set_actor k f m j ≡ m j
unfolding set_actor
set_actor_other k j f m h = rw h refl

pub set_future_same : (f : ℕ) (x : Instance) (m : ℕ → Instance) → set_future f x m f ≡ x
unfolding set_future
set_future_same f x m = ground arith

pub set_future_other :
    (f g : ℕ) (x : Instance) (m : ℕ → Instance) → f ≢ g → set_future f x m g ≡ m g
unfolding set_future
set_future_other f g x m h = ground (arith, h)

-- The function behind the future is at work, and the future is in the map.
abbrev pub IsBusy : Stage → Type 0
IsBusy (preparing _) = Unit
IsBusy instantiating = Unit
IsBusy failing = Unit
IsBusy _ = ⊥

-- The future has resolved to an actor.
abbrev pub IsResolved : Stage → Type 0
IsResolved open_actor = Unit
IsResolved collecting = Unit
IsResolved closed_actor = Unit
IsResolved _ = ⊥

module _ (s : Activations) where
  abbrev pub stage_of : ℕ → Stage
  stage_of f = (s.futures f).stage

  abbrev pub key_of : ℕ → NamespacedActorId
  key_of f = id_of (s.futures f).reference

  -- An open actor is in the map, or the future in its place has still to close it.
  abbrev pub IsCovered : ℕ → Type 0
  IsCovered f =
      (s.actors (key_of f) ≡ some f)
      ⊎ ((g : ℕ) × (s.actors (key_of f) ≡ some g) × (stage_of g ≡ preparing (some f)))

  pub record IsWellFormed : Type 0 where
    pub below : (k : NamespacedActorId) (f : ℕ) → s.actors k ≡ some f → f < s.next
    pub named : (k : NamespacedActorId) (f : ℕ) → s.actors k ≡ some f → key_of f ≡ k
    pub fresh : (f : ℕ) → s.next ≤ f → stage_of f ≡ rejected

  -- Where no timer is due early, moreover, a future at work has its place in the map, and an open
  -- actor is covered.
  pub record IsSound : Type 0 where
    pub formed : IsWellFormed
    pub busy : (f : ℕ) → IsBusy (stage_of f) → s.actors (key_of f) ≡ some f
    pub covered : (f : ℕ) → stage_of f ≡ open_actor → IsCovered f

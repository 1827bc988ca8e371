-- ===== src/Semaphore/Counting.antt =====
-- How many units of a key are counted, and what giving keys back does to them: `decrKV` and the
-- loops over it (examples/semaphore/main.go).
use nola.Base.{
  ℕ, ◌+◌, ◌-◌, ◌≤◌, ◌≡◌, refl, ap, inl, inr, true, false, none, some, List, [], ◌∷◌, ok,
  if◌then◌else◌, leb, str_eq_iff, arith, Bool-cases, Option-cases,
}
use nola.Semaphore.State.{KeyValue, Counts, same, or_zero, set_count, decr_kv, decr_all}

-- The units of a key.
abbrev pub number : Counts → KeyValue → ℕ
number c k = or_zero (c k)

-- One unit if the keys are the same.
abbrev pub hit : KeyValue → KeyValue → ℕ
hit kv k = if same kv k then 1 else 0

-- The units of a key that a list of keys takes.
abbrev pub units : KeyValue → List KeyValue → ℕ
units k [] = 0
units k (kv ∷ l) = hit kv k + units k l

pub hit-same : (kv k : KeyValue) → same kv k ≡ true → hit kv k ≡ 1
hit-same kv k h = rw h refl

pub hit_other : (kv k : KeyValue) → same kv k ≡ false → hit kv k ≡ 0
hit_other kv k h = rw h refl

pub same_sound : (a b : KeyValue) → same a b ≡ true → a ≡ b
unfolding same
same_sound a b h i = record { key = keys i; value = values i }
  where
    keys : a.key ≡ b.key
    keys = ground (arith, str_eq_iff a.key b.key, h)

    values : a.value ≡ b.value
    values = ground (arith, str_eq_iff a.value b.value, h)

pub same_refl : (a : KeyValue) → same a a ≡ true
unfolding same
same_refl a = ground (arith, str_eq_iff a.key a.key, str_eq_iff a.value a.value)

-- Counting one more.
pub number-set_count :
    (kv : KeyValue) (c : Counts) (k : KeyValue)
    → number (set_count kv (some (number c kv + 1)) c) k ≡ number c k + hit kv k
unfolding set_count
number-set_count kv c k = elim (Bool-cases (same kv k)) [
  | inl h ↦ rw (h, same_sound kv k h) refl
  | inr h ↦ rw h (omega arith)
]

number-lowered : (n : ℕ) → or_zero (if leb (n - 1) 0 then none else some (n - 1)) ≡ n - 1
number-lowered n = ground arith

pub decr_kv-number :
    (kv : KeyValue) (c : Counts)
    → 1 ≤ number c kv
    → (c' : Counts) × (decr_kv kv c ≡ ok c')
      × ((k : KeyValue) → number c' k + hit kv k ≡ number c k)
unfolding decr_kv set_count
decr_kv-number kv c h = elim (Option-cases (c kv)) [
  | inl e ↦ absurd (ground arith)
  | inr (n, e) ↦
      let positive : leb n 0 ≡ false = ground (arith, h, e) in
      (
        set_count kv (if leb (n - 1) 0 then none else some (n - 1)) c,
        rw (e, positive) refl,
        λ k. elim (Bool-cases (same kv k)) [
          | inl s ↦ rw (s, number-lowered n) (ground (arith, e, h, ap c (same_sound kv k s)))
          | inr s ↦ rw s (omega arith)
        ],
      )
]

-- Keys that are counted can all be given back, which takes away their units and no others.
pub decr_all_lem :
    (l : List KeyValue) (c : Counts)
    → ((k : KeyValue) → units k l ≤ number c k)
    → ((decr_all l c).0 ≡ ok tt)
      × ((k : KeyValue) → number (decr_all l c).1 k + units k l ≡ number c k)
unfolding decr_all
decr_all_lem [] c h = (refl, λ k. omega arith)
decr_all_lem (kv ∷ l) c h =
    let (c', e, lowered) = decr_kv-number kv c (ground (arith, h kv, same_refl kv)) in
    let (done, rest) = decr_all_lem l c' (λ k. omega (arith, h k, lowered k)) in
    rw e (done, λ k. omega (arith, rest k, lowered k))

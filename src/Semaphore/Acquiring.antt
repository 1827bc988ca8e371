-- ===== src/Semaphore/Acquiring.antt =====
-- What the counting loop of `acquire` does to the counts, `unwind` included
-- (examples/semaphore/main.go).
use nola.Base.{
  ℕ, zero, suc, ◌+◌, ◌≤◌, ◌<◌, ◌≡◌, refl, subst, ◌⊎◌, inl, inr, true, false, some, List, [], ◌∷◌,
  take, drop, Elem, Result, ok, err, panic, arith, Bool-cases, Option-cases,
}
use nola.Semaphore.State.{
  KeyValue, Counts, SemaphoreError, or_zero, set_count, per_key_limit, same, decr_all, unwind,
  is_full, refused, count_keys, all_known,
}
use nola.Semaphore.Counting.{
  number, hit, units, hit-same, hit_other, same_sound, number-set_count, decr_all_lem,
}

-- The limit of a key, zero of a key that has none.
abbrev pub limit : KeyValue → ℕ
limit k = or_zero (per_key_limit k.key)

limit-positive : (kv : KeyValue) (l : List KeyValue) → all_known (kv ∷ l) ≡ true → 0 < limit kv
unfolding all_known per_key_limit
limit-positive kv l h = ground arith

all_known-tail :
    (kv : KeyValue) (l : List KeyValue) → all_known (kv ∷ l) ≡ true → all_known l ≡ true
unfolding all_known per_key_limit
all_known-tail kv l h = ground arith

room : (kv : KeyValue) (c : Counts) → 0 < limit kv → is_full kv c ≡ false → number c kv < limit kv
unfolding is_full
room kv c p h = elim (Option-cases (c kv)) [ inl e ↦ rw e p | inr (n, e) ↦ ground (arith, h, e) ]

-- One unit more of a key with room keeps the limits.
bounded-set_count :
    (kv : KeyValue) (c : Counts)
    → number c kv < limit kv
    → ((k : KeyValue) → number c k ≤ limit k)
    → (k : KeyValue) → number (set_count kv (some (number c kv + 1)) c) k ≤ limit k
bounded-set_count kv c r b k = elim (Bool-cases (same kv k)) [
  | inl h ↦
      let same_key = same_sound kv k h in
      let kept : number c k < limit k = subst (λ x. number c x < limit x) same_key r in
      omega (arith, number-set_count kv c k, hit-same kv k h, kept)
  | inr h ↦ omega (arith, number-set_count kv c k, hit_other kv k h, b k)
]

-- The keys up to the one that the loop stands at.
units-take-suc :
    (i : ℕ) (keys : List KeyValue) (kv : KeyValue) (rest : List KeyValue)
    → drop i keys ≡ kv ∷ rest
    → (drop (suc i) keys ≡ rest)
      × ((k : KeyValue) → units k (take (suc i) keys) ≡ units k (take i keys) + hit kv k)
units-take-suc zero [] kv rest e = absurd (ground arith)
units-take-suc zero (x ∷ l) kv rest e =
    let here : x ≡ kv = ground arith in (ground arith, λ k. rw here (omega arith))
units-take-suc (suc i) [] kv rest e = absurd (ground arith)
units-take-suc (suc i) (x ∷ l) kv rest e =
    let (t, u) = units-take-suc i l kv rest e in (t, λ k. omega (arith, u k))

units-take_all :
    (i : ℕ) (keys : List KeyValue) (k : KeyValue)
    → drop i keys ≡ []
    → units k (take i keys) ≡ units k keys
units-take_all zero [] k e = refl
units-take_all zero (x ∷ l) k e = absurd (ground arith)
units-take_all (suc i) [] k e = refl
units-take_all (suc i) (x ∷ l) k e = omega (arith, units-take_all i l k e)

-- The key before the one that the loop stands at.
units-take_before :
    (j : ℕ) (keys : List KeyValue) (kv : KeyValue) (rest : List KeyValue)
    → drop (suc j) keys ≡ kv ∷ rest
    → (before : KeyValue) × Elem before keys
      × ((k : KeyValue) → units k (take (suc j) keys) ≡ units k (take j keys) + hit before k)
units-take_before j [] kv rest e = absurd (ground arith)
units-take_before zero (x ∷ l) kv rest e = (x, inl refl, λ k. omega arith)
units-take_before (suc j) (x ∷ l) kv rest e =
    let (y, m, u) = units-take_before j l kv rest e in (y, inr m, λ k. omega (arith, u k))

-- What the counting leaves: all keys counted; or the counts as they were; or, since `unwind` stops
-- one key early, the counts with one unit more of one of the keys.
abbrev pub Counted : Counts → List KeyValue → Result SemaphoreError (Unit {0}) × Counts → Type 0
Counted c0 keys (ok _, c) = (k : KeyValue) → number c k ≡ number c0 k + units k keys
Counted c0 keys (err e, c) =
    (e ≡ SemaphoreError.limit_exceeded)
    × (((k : KeyValue) → number c k ≡ number c0 k)
        ⊎ ((leaked : KeyValue) × Elem leaked keys
            × ((k : KeyValue) → number c k ≡ number c0 k + hit leaked k)))
Counted c0 keys (panic, c) = ⊥

abbrev pub IsBounded : Counts → Type 0
IsBounded c = (k : KeyValue) → number c k ≤ limit k

-- Giving back what `unwind` gives back.
unwind-Counted :
    (keys : List KeyValue) (i : ℕ) (kv : KeyValue) (rest : List KeyValue) (c0 c : Counts)
    → drop i keys ≡ kv ∷ rest
    → ((k : KeyValue) → number c k ≡ number c0 k + units k (take i keys))
    → IsBounded c
    → Counted c0 keys (refused (unwind keys i c)) × IsBounded (refused (unwind keys i c)).1
unfolding unwind
unwind-Counted keys zero kv rest c0 c e n b = ((refl, inl λ k. omega (arith, n k)), b)
unwind-Counted keys (suc j) kv rest c0 c e n b =
    let (before, m, u) = units-take_before j keys kv rest e in
    let (done, given) = decr_all_lem (take j keys) c (λ k. omega (arith, n k, u k)) in
    go (decr_all (take j keys) c) done
      (refl, inr (before, m, λ k. omega (arith, n k, u k, given k)))
      (λ k. omega (arith, given k, b k))
  where
    go :
        (p : Result SemaphoreError (Unit {0}) × Counts)
        → p.0 ≡ ok tt
        → Counted c0 keys (err SemaphoreError.limit_exceeded, p.1)
        → IsBounded p.1
        → Counted c0 keys (refused p) × IsBounded (refused p).1
    go (ok _, c') h x y = (x, y)
    go (err e', c') h x y = absurd (ground arith)
    go (panic, c') h x y = absurd (ground arith)

pub count_keys-Counted :
    (keys : List KeyValue) (i : ℕ) (rest : List KeyValue) (c0 c : Counts)
    → drop i keys ≡ rest
    → all_known rest ≡ true
    → ((k : KeyValue) → number c k ≡ number c0 k + units k (take i keys))
    → IsBounded c
    → Counted c0 keys (count_keys keys i rest c) × IsBounded (count_keys keys i rest c).1
unfolding count_keys
count_keys-Counted keys i [] c0 c e a n b = (λ k. omega (arith, n k, units-take_all i keys k e), b)
count_keys-Counted keys i (kv ∷ rest) c0 c e a n b =
    let (next, u) = units-take-suc i keys kv rest e in
    elim (Bool-cases (is_full kv c)) [
      | inl full ↦ rw full (unwind-Counted keys i kv rest c0 c e n b)
      | inr free ↦ rw free (
          count_keys-Counted keys (suc i) rest c0 _ next (all_known-tail kv rest a)
            (λ k. omega (arith, n k, u k, number-set_count kv c k))
            (bounded-set_count kv c (room kv c (limit-positive kv rest a) free) b))
    ]

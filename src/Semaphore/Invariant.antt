-- ===== src/Semaphore/Invariant.antt =====
-- What holds between calls of the semaphore: the units that the open requests hold are counted, and
-- no count is above its limit. `acquire` keeps it (examples/semaphore/main.go).
use nola.Base.{
  ℕ, ◌+◌, ◌≤◌, ◌≡◌, refl, inl, inr, true, none, List, [], ◌∷◌, Result, ok, err, panic, String,
  arith, Bool-cases, Option-cases,
}
use nola.Semaphore.State.{
  KeyValue, Counts, SemaphoreError, RequestState, Semaphore, AcquireRequest, count_keys, all_known,
  find, acquire, store_request,
}
use nola.Semaphore.Counting.{number, units}
use nola.Semaphore.Acquiring.{Counted, IsBounded, count_keys-Counted}

-- The units of a key that the requests hold.
abbrev pub held : KeyValue → List (String × RequestState) → ℕ
held k [] = 0
held k (r ∷ l) = units k r.1.kvs + held k l

abbrev pub IsCounted : List (String × RequestState) → Counts → Type 0
IsCounted l c = (k : KeyValue) → held k l ≤ number c k

pub record IsSound (s : Semaphore) : Type 0 where
  pub counted : IsCounted s.requests s.counts
  pub bounded : IsBounded s.counts

-- The counts after an acquire of new, known keys.
pub acquire-Counted :
    (req : AcquireRequest) (expires_at : ℕ) (s : Semaphore)
    → IsSound s
    → find req.request_id s.requests ≡ none
    → all_known req.keys ≡ true
    → Counted s.counts req.keys ((acquire req expires_at s).0, (acquire req expires_at s).1.counts)
unfolding acquire
acquire-Counted req expires_at s w new known =
    rw (acquire, new, known)
      (stored (count_keys req.keys 0 req.keys s.counts)
        (count_keys-Counted req.keys 0 req.keys s.counts s.counts refl known (λ k. omega arith)
          w.bounded).0)
  where
    stored :
        (p : Result SemaphoreError (Unit {0}) × Counts)
        → Counted s.counts req.keys p
        → Counted s.counts req.keys
            ((store_request req expires_at s p).0, (store_request req expires_at s p).1.counts)
    stored (ok _, c) h = h
    stored (err e, c) h = h
    stored (panic, c) h = h

acquire-stored :
    (req : AcquireRequest) (expires_at : ℕ) (s : Semaphore)
    (p : Result SemaphoreError (Unit {0}) × Counts)
    → Counted s.counts req.keys p × IsBounded p.1
    → IsSound s
    → IsSound (store_request req expires_at s p).1
acquire-stored req expires_at s (ok _, c) (n, b) w = record {
  counted = λ k. omega (arith, n k, w.counted k);
  bounded = b;
}
acquire-stored req expires_at s (err e, c) ((_, inl n), b) w = record {
  counted = λ k. omega (arith, n k, w.counted k);
  bounded = b;
}
acquire-stored req expires_at s (err e, c) ((_, inr (_, _, n)), b) w = record {
  counted = λ k. omega (arith, n k, w.counted k);
  bounded = b;
}
acquire-stored req expires_at s (panic, c) (n, b) w = absurd n

pub acquire-IsSound :
    (req : AcquireRequest) (expires_at : ℕ) (s : Semaphore)
    → IsSound s
    → IsSound (acquire req expires_at s).1
unfolding acquire
acquire-IsSound req expires_at s w = elim (Option-cases (find req.request_id s.requests)) [
  | inr (r, e) ↦ rw (acquire, e) w
  | inl e ↦
      rw (acquire, e)
        (elim (Bool-cases (all_known req.keys)) [
          | inr h ↦ rw h w
          | inl h ↦ rw h (
              acquire-stored req expires_at s _
                (count_keys-Counted req.keys 0 req.keys s.counts s.counts refl h (λ k. omega arith)
                  w.bounded)
                w)
        ])
]

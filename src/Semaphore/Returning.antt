-- ===== src/Semaphore/Returning.antt =====
-- Giving units back: `release` and `houseclean` of examples/semaphore/main.go.
use nola.Base.{
  ℕ, ◌+◌, ◌≤◌, ◌≡◌, refl, sym, ap, ◌∙◌, inl, inr, true, false, some, List, [], ◌∷◌, Result, ok, err,
  panic, if◌then◌else◌, ltb, String, str_eq, arith, Bool-cases, Option-cases,
}
use nola.Semaphore.State.{
  KeyValue, Counts, SemaphoreError, RequestState, Semaphore, decr_all, find, delete, release,
  forget, sweep, houseclean,
}
use nola.Semaphore.Counting.{number, units, decr_all_lem}
use nola.Semaphore.Invariant.{held, IsCounted, IsSound}

held-delete :
    (k : KeyValue) (id : String) (r : RequestState) (l : List (String × RequestState))
    → find id l ≡ some r
    → held k (delete id l) + units k r.kvs ≡ held k l
unfolding find delete
held-delete k id r [] e = absurd (ground arith)
held-delete k id r (x ∷ l) e = elim (Bool-cases (str_eq x.0 id)) [
  | inl h ↦
      let here : x.1 ≡ r = ground (arith, e, h) in
      rw h (omega (arith, ap (λ (y : RequestState). units k y.kvs) here))
  | inr h ↦ rw h (omega (arith, held-delete k id r l (ground (arith, e, h))))
]

held-find :
    (k : KeyValue) (id : String) (r : RequestState) (l : List (String × RequestState))
    → find id l ≡ some r
    → units k r.kvs ≤ held k l
held-find k id r l e = omega (arith, held-delete k id r l e)

-- The requests whose time is not over.
abbrev pub unexpired : ℕ → List (String × RequestState) → List (String × RequestState)
unexpired now [] = []
unexpired now (r ∷ l) = if ltb now r.1.expires_at then r ∷ unexpired now l else unexpired now l

unexpired_alive :
    (now : ℕ) (r : String × RequestState) (l : List (String × RequestState))
    → ltb now r.1.expires_at ≡ true
    → unexpired now (r ∷ l) ≡ r ∷ unexpired now l
unexpired_alive now r l h = rw h refl

unexpired_over :
    (now : ℕ) (r : String × RequestState) (l : List (String × RequestState))
    → ltb now r.1.expires_at ≡ false
    → unexpired now (r ∷ l) ≡ unexpired now l
unexpired_over now r l h = rw h refl

-- What a sweep that succeeds leaves: the units of the requests that it drops are given back.
pub record IsSwept (now : ℕ) (l : List (String × RequestState)) (c : Counts)
    (p : Result SemaphoreError (Unit {0}) × Semaphore) : Type 0 where
  pub succeeds : p.0 ≡ ok tt
  pub keeps : p.1.requests ≡ unexpired now l
  pub gives_back :
      (k : KeyValue) → number p.1.counts k + held k l ≡ number c k + held k p.1.requests

-- Counted requests can all be swept.
pub sweep-IsSwept :
    (now : ℕ) (l : List (String × RequestState)) (c : Counts)
    → IsCounted l c
    → IsSwept now l c (sweep now l c)
unfolding sweep
sweep-IsSwept now [] c h = record { succeeds = refl; keeps = refl; gives_back = λ k. refl }
sweep-IsSwept now (r ∷ l) c h = elim (Bool-cases (ltb now r.1.expires_at)) [
  | inl alive ↦
      let w = sweep-IsSwept now l c (λ k. omega (arith, h k)) in
      rw alive (record {
        succeeds = w.succeeds;
        keeps =
            ap (λ (x : List (String × RequestState)). r ∷ x) w.keeps
            ∙ sym (unexpired_alive now r l alive);
        gives_back = λ k. omega (arith, w.gives_back k);
      })
  | inr over ↦
      let (done, given) = decr_all_lem r.1.kvs c (λ k. omega (arith, h k)) in
      let w = sweep-IsSwept now l (decr_all r.1.kvs c).1 (λ k. omega (arith, h k, given k)) in
      rw (over, done)
        (record {
          succeeds = w.succeeds;
          keeps = w.keeps ∙ sym (unexpired_over now r l over);
          gives_back = λ k. omega (arith, w.gives_back k, given k);
        })
]

pub houseclean-IsSwept :
    (now : ℕ) (s : Semaphore) → IsSound s → IsSwept now s.requests s.counts (houseclean now s)
unfolding houseclean
houseclean-IsSwept now s w = sweep-IsSwept now s.requests s.counts w.counted

-- What a release that finds its request leaves: its units are given back.
pub record IsReleased (id : String) (r : RequestState) (s : Semaphore)
    (p : Result SemaphoreError (Unit {0}) × Semaphore) : Type 0 where
  pub succeeds : p.0 ≡ ok tt
  pub keeps : p.1.requests ≡ delete id s.requests
  pub gives_back : (k : KeyValue) → number p.1.counts k + units k r.kvs ≡ number s.counts k

release_found :
    (id : String) (s : Semaphore) (r : RequestState) (p : Result SemaphoreError (Unit {0}) × Counts)
    → p.0 ≡ ok tt
    → ((k : KeyValue) → number p.1 k + units k r.kvs ≡ number s.counts k)
    → IsReleased id r s (forget id s p)
release_found id s r (ok _, c) h n = record { succeeds = refl; keeps = refl; gives_back = n }
release_found id s r (err e, c) h n = absurd (ground arith)
release_found id s r (panic, c) h n = absurd (ground arith)

pub release-IsReleased :
    (id : String) (s : Semaphore) (r : RequestState)
    → IsSound s
    → find id s.requests ≡ some r
    → IsReleased id r s (release id s)
unfolding release
release-IsReleased id s r w e =
    let (done, given) =
      decr_all_lem r.kvs s.counts
        (λ k. omega (arith, held-find k id r s.requests e, w.counted k)) in
    rw (release, e) (release_found id s r (decr_all r.kvs s.counts) done given)

pub release-IsSound : (id : String) (s : Semaphore) → IsSound s → IsSound (release id s).1
unfolding release
release-IsSound id s w = elim (Option-cases (find id s.requests)) [
  | inl e ↦ rw (release, e) w
  | inr (r, e) ↦
      let g = release-IsReleased id s r w e in
      record {
        counted = λ k. omega (
          arith,
          g.gives_back k,
          ap (held k) g.keeps,
          held-delete k id r s.requests e,
          w.counted k,
        );
        bounded = λ k. omega (arith, g.gives_back k, w.bounded k);
      }
]

pub houseclean-IsSound : (now : ℕ) (s : Semaphore) → IsSound s → IsSound (houseclean now s).1
houseclean-IsSound now s w =
    let g = houseclean-IsSwept now s w in
    record {
      counted = λ k. omega (arith, g.gives_back k, w.counted k);
      bounded = λ k. omega (arith, g.gives_back k, w.bounded k, kept_below k g.keeps);
    }
  where
    unexpired_below :
        (k : KeyValue) (l : List (String × RequestState)) → held k (unexpired now l) ≤ held k l
    unexpired_below k [] = omega arith
    unexpired_below k (r ∷ l) = elim (Bool-cases (ltb now r.1.expires_at)) [
      | inl h ↦ rw h (omega (arith, unexpired_below k l))
      | inr h ↦ rw h (omega (arith, unexpired_below k l))
    ]

    kept_below :
        (k : KeyValue)
        → (houseclean now s).1.requests ≡ unexpired now s.requests
        → held k (houseclean now s).1.requests ≤ held k s.requests
    kept_below k e = omega (arith, ap (held k) e, unexpired_below k s.requests)

-- ===== src/Semaphore/Reachable.antt =====
-- What holds of the semaphore after any sequence of calls (examples/semaphore/main.go).
use nola.Base.{ℕ, ◌+◌, ◌≤◌, ◌≡◌, refl, true, false, Option, none, some, [], ◌∷◌, err, String, arith}
use nola.Semaphore.State.{
  KeyValue, Counts, SemaphoreError, RequestState, Semaphore, AcquireRequest, decr_all, count_keys,
  all_known, find, acquire, release, houseclean, is_full, set_count, same, unwind,
}
use nola.Semaphore.Counting.{number}
use nola.Semaphore.Acquiring.{limit, Counted}
use nola.Semaphore.Invariant.{held, IsSound, acquire-IsSound, acquire-Counted}
use nola.Semaphore.Returning.{
  IsSwept, IsReleased, houseclean-IsSwept, release-IsReleased, release-IsSound, houseclean-IsSound,
}

abbrev pub initial : Semaphore
initial = record { counts = λ k. none; requests = [] }

pub data Step : Semaphore → Semaphore → Type 0 where
  acquired :
      {s : Semaphore} (req : AcquireRequest) (expires_at : ℕ) → Step s (acquire req expires_at s).1
  released : {s : Semaphore} (id : String) → Step s (release id s).1
  cleaned : {s : Semaphore} (now : ℕ) → Step s (houseclean now s).1

pub data Reachable : Semaphore → Type 0 where
  start : Reachable initial
  next : {s t : Semaphore} → Reachable s → Step s t → Reachable t

pub Reachable-IsSound : (s : Semaphore) → Reachable s → IsSound s
Reachable-IsSound _ start = record { counted = λ k. omega arith; bounded = λ k. omega arith }
Reachable-IsSound _ (next r (Step.acquired req expires_at)) =
    acquire-IsSound req expires_at _ (Reachable-IsSound _ r)
Reachable-IsSound _ (next r (Step.released id)) = release-IsSound id _ (Reachable-IsSound _ r)
Reachable-IsSound _ (next r (Step.cleaned now)) = houseclean-IsSound now _ (Reachable-IsSound _ r)

-- After any sequence of acquires, releases and sweeps, the requests that are open hold at most as
-- many units of a key as its limit.
pub held_within_limit : (s : Semaphore) (k : KeyValue) → Reachable s → held k s.requests ≤ limit k
held_within_limit s k r = let w = Reachable-IsSound s r in omega (arith, w.counted k, w.bounded k)

-- After any sequence of calls, the release of a request that is open succeeds, forgets the request
-- and gives back the units of its keys, and no others.
pub release_returns :
    (id : String) (s : Semaphore) (r : RequestState)
    → Reachable s
    → find id s.requests ≡ some r
    → IsReleased id r s (release id s)
release_returns id s r reached e = release-IsReleased id s r (Reachable-IsSound s reached) e

-- After any sequence of calls, a sweep succeeds, keeps exactly the requests whose time is not over,
-- and gives back the units of the others, and no others.
pub houseclean_sweeps :
    (now : ℕ) (s : Semaphore) → Reachable s → IsSwept now s.requests s.counts (houseclean now s)
houseclean_sweeps now s reached = houseclean-IsSwept now s (Reachable-IsSound s reached)

-- After any sequence of calls, an acquire with a new request ID and known keys either counts each of
-- its keys and succeeds, or is refused for a limit; then the counts are as before or, with
-- `unwind` stopping one key early, higher by one unit of one of its keys.
pub acquire_counts :
    (req : AcquireRequest) (expires_at : ℕ) (s : Semaphore)
    → Reachable s
    → find req.request_id s.requests ≡ none
    → all_known req.keys ≡ true
    → Counted s.counts req.keys ((acquire req expires_at s).0, (acquire req expires_at s).1.counts)
acquire_counts req expires_at s reached new known =
    acquire-Counted req expires_at s (Reachable-IsSound s reached) new known

full_later :
    (a b : KeyValue) (n : Option ℕ) (c : Counts)
    → same a b ≡ false
    → is_full b c ≡ true
    → is_full b (set_count a n c) ≡ true
unfolding is_full set_count
full_later a b n c differ full = rw differ full

-- An acquire of two different known keys under a new request ID, of which the first has room and the
-- second has none, is refused, stores no request, and leaves the first key counted.
pub refused_acquire_leaks :
    (a b : KeyValue) (id : String) (expires_at : ℕ) (s : Semaphore)
    → find id s.requests ≡ none
    → all_known (a ∷ b ∷ []) ≡ true
    → same a b ≡ false
    → is_full a s.counts ≡ false
    → is_full b s.counts ≡ true
    → acquire (record { keys = a ∷ b ∷ []; request_id = id }) expires_at s ≡ (
      err SemaphoreError.limit_exceeded,
      record s { counts = set_count a (some (number s.counts a + 1)) s.counts },
    )
unfolding acquire count_keys unwind decr_all
refused_acquire_leaks a b id expires_at s new known differ free full =
    rw (acquire, new, known, free, full_later a b _ s.counts differ full) refl

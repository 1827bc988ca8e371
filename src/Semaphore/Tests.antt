-- ===== src/Semaphore/Tests.antt =====
-- The theorems on the semaphore after one acquire and at a full key.
use nola.Base.{◌≡◌, ◌≤◌, refl, none, some, [], ◌∷◌, err, str_eq}
use nola.Semaphore.State.{
  KeyValue, Semaphore, SemaphoreError, AcquireRequest, RequestState, acquire, release, find,
  all_known, per_key_limit, same, set_count, count_keys, is_full, decr_all, decr_kv,
}
use nola.Semaphore.Acquiring.{limit}
use nola.Semaphore.Invariant.{held}
use nola.Semaphore.Returning.{IsReleased}
use nola.Semaphore.Reachable.{
  initial, Step, Reachable, start, next, held_within_limit, release_returns, refused_acquire_leaks,
}

abbrev ann : KeyValue
ann = record { key = "user"; value = "ann" }

abbrev bob : KeyValue
bob = record { key = "user"; value = "bob" }

abbrev both : AcquireRequest
both = record { keys = ann ∷ bob ∷ []; request_id = "first" }

abbrev after_first : Semaphore
after_first = (acquire both 100 initial).1

first_reached : Reachable after_first
first_reached = next start (Step.acquired both 100)

abbrev first_state : RequestState
first_state = record { kvs = ann ∷ bob ∷ []; expires_at = 100 }

held_within_limit_example : held ann after_first.requests ≤ limit ann
held_within_limit_example = held_within_limit after_first ann first_reached

release_returns_example : IsReleased "first" first_state after_first (release "first" after_first)
unfolding acquire find all_known per_key_limit same set_count count_keys is_full str_eq
release_returns_example = release_returns "first" after_first first_state first_reached refl

abbrev again : AcquireRequest
again = record { keys = bob ∷ []; request_id = "second" }

-- All five units of "bob" are taken.
abbrev full : Semaphore
full = record { counts = set_count bob (some 5) (λ k. none); requests = [] }

refused_acquire_leaks_example : acquire both 100 full ≡ (
  err SemaphoreError.limit_exceeded,
  record full { counts = set_count ann (some 1) full.counts },
)
unfolding find all_known per_key_limit same set_count is_full str_eq
refused_acquire_leaks_example =
    refused_acquire_leaks ann bob "first" 100 full refl refl refl refl refl

-- A key may be acquired again once it is released.
reacquired : (release "first" after_first).1.counts ann ≡ none
unfolding acquire find all_known per_key_limit same set_count count_keys is_full str_eq release
    decr_all decr_kv
reacquired = refl

-- ===== src/Futures/State.antt =====
-- The operations of `future` (virtual/futures/futures.go). A call that would wait answers `none`.
use nola.Base.{
  ℕ, suc, Bool, true, false, Option, none, some, List, [], ◌∷◌, Result, ok, err, panic,
  if◌then◌else◌,
}

-- `future`, whose wait group is at zero once it is resolved. `result` is the zero value of its type
-- until then.
pub record Future (E A : Type 0) : Type 0 where
  pub result : A
  pub error : Option E
  pub resolved : Bool

module _ {E A : Type 0} where
  -- `New`, with the zero value of the type.
  unfoldable pub new_future : A → Future E A
  new_future zero_value = record { result = zero_value; error = none; resolved = false }

  unfoldable pub resolve : A → Future E A → Result E (Future E A)
  resolve result f =
      if f.resolved then panic else ok (record f { result = result; resolved = true })

  unfoldable pub reject : E → Future E A → Result E (Future E A)
  reject error f =
      if f.resolved then panic else ok (record f { error = some error; resolved = true })

  unfoldable pub resolve_or_reject : A → Option E → Future E A → Result E (Future E A)
  resolve_or_reject result error f =
      if f.resolved then panic else ok (record { result = result; error = error; resolved = true })

  -- The function has run and answered its two values.
  unfoldable pub go_sync : A × Option E → Future E A → Result E (Future E A)
  unfolding resolve_or_reject
  go_sync answer f = resolve_or_reject answer.0 answer.1 f

  unfoldable pub wait : Future E A → Option (A × Option E)
  wait f = if f.resolved then some (f.result, f.error) else none

  -- One iteration of `WaitAllSlice` and the ones after it.
  abbrev pub collect :
      ℕ
      → Option (A × Option E)
      → Option (Result (ℕ × E) (List A))
      → Option (Result (ℕ × E) (List A))
  collect i none rest = none
  collect i (some (result, some error)) rest = some (err (i, error))
  collect i (some (result, none)) none = none
  collect i (some (result, none)) (some (ok results)) = some (ok (result ∷ results))
  collect i (some (result, none)) (some (err e)) = some (err e)
  collect i (some (result, none)) (some panic) = some panic

  -- `WaitAllSlice` from the index on: all results, or the first error with its index.
  unfoldable pub wait_all_slice : ℕ → List (Future E A) → Option (Result (ℕ × E) (List A))
  wait_all_slice i [] = some (ok [])
  wait_all_slice i (f ∷ l) = collect i (wait f) (wait_all_slice (suc i) l)

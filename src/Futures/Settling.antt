-- ===== src/Futures/Settling.antt =====
-- A future is settled once, and waiting for many gives their results in order or the first error
-- (virtual/futures/futures.go).
use nola.Base.{
  ℕ, suc, ◌+◌, ◌≡◌, refl, ap, Bool-cases, inl, inr, true, Option, none, some, List, [], ◌∷◌, ◌++◌,
  ok, err, panic, length, arith,
}
use nola.Futures.State.{Future, resolve, reject, resolve_or_reject, wait, wait_all_slice}

-- The futures are resolved, in order, with the results and without an error.
abbrev pub AllResolved : {E A : Type 0} → List (Future E A) → List A → Type 0
AllResolved [] [] = Unit
AllResolved (f ∷ l) (r ∷ rs) = (wait f ≡ some (r, none)) × AllResolved l rs
AllResolved _ _ = ⊥

module _ {E A : Type 0} where
  -- After a successful `ResolveOrReject`, a wait answers what the future was given, and each further
  -- attempt to resolve or reject it panics.
  pub settled_once :
      (r : A) (e : Option E) (f g : Future E A)
      → resolve_or_reject r e f ≡ ok g
      → (wait g ≡ some (r, e))
        × ((r' : A) → resolve r' g ≡ panic)
        × ((e' : E) → reject e' g ≡ panic)
        × ((r' : A) (e' : Option E) → resolve_or_reject r' e' g ≡ panic)
  unfolding resolve_or_reject resolve reject wait
  settled_once r e f g h = elim (Bool-cases f.resolved) [
    | inl done ↦ absurd (ground arith)
    | inr open_future ↦
        let given : g ≡ record { result = r; error = e; resolved = true } = ground arith in
        rw given (refl, λ r'. refl, λ e'. refl, λ r' e'. refl)
  ]

  -- Waiting for futures that are all resolved without an error answers their results in order.
  pub wait_all_slice-ok :
      (i : ℕ) (l : List (Future E A)) (rs : List A)
      → AllResolved l rs
      → wait_all_slice i l ≡ some (ok rs)
  unfolding wait_all_slice
  wait_all_slice-ok i [] [] a = refl
  wait_all_slice-ok i [] (r ∷ rs) a = absurd a
  wait_all_slice-ok i (f ∷ l) [] a = absurd a
  wait_all_slice-ok i (f ∷ l) (r ∷ rs) a = rw (a.0, wait_all_slice-ok (suc i) l rs a.1) refl

  -- If the futures before one are resolved without an error and that one with an error, then waiting
  -- for all answers that error and its index, whether or not the later ones are resolved.
  pub wait_all_slice-err :
      (i : ℕ) (l : List (Future E A)) (rs : List A) (f : Future E A) (r : A) (e : E)
      (later : List (Future E A))
      → AllResolved l rs
      → wait f ≡ some (r, some e)
      → wait_all_slice i (l ++ f ∷ later) ≡ some (err (i + length l, e))
  unfolding wait_all_slice
  wait_all_slice-err i [] [] f r e later a h = rw h (ap (λ n. some (err (n, e))) (omega arith))
  wait_all_slice-err i [] (x ∷ rs) f r e later a h = absurd a
  wait_all_slice-err i (g ∷ l) [] f r e later a h = absurd a
  wait_all_slice-err i (g ∷ l) (x ∷ rs) f r e later a h =
      rw (a.0, wait_all_slice-err (suc i) l rs f r e later a.1 h)
        (ap (λ n. some (err (n, e))) (omega arith))

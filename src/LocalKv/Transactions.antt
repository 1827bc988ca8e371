-- ===== src/LocalKv/Transactions.antt =====
-- Transactions of `localKV` roll back: `BeginTransaction`, `Cancel`, `Commit` and `Transact`.
use nola.Base.{
  ◌≡◌, true, false, none, some, List, [], ◌∷◌, Result, ok, err, panic, ◌>>=◌, Bytes, arith,
  from_bind,
}
use nola.Types.{Error}
use nola.LocalKv.Store.{BTree, LocalKv, begin_transaction, commit, cancel, transact, put}

module _ (bt : BTree) where
  -- A run of `Put` calls.
  unfoldable pub puts : List (Bytes × Bytes) → LocalKv bt → Result Error (LocalKv bt)
  puts [] l = ok l
  puts (e ∷ w) l = do l' ← put bt l e.0 e.1; puts w l'

  put_keeps :
      (k v : Bytes) (l m : LocalKv bt)
      → put bt l k v ≡ ok m
      → (m.tr_clone ≡ l.tr_clone) × (m.closed ≡ l.closed) × (m.locked ≡ l.locked)
  unfolding put
  put_keeps k v l m h = ground arith

  puts_keep :
      (w : List (Bytes × Bytes)) (l m : LocalKv bt)
      → puts w l ≡ ok m
      → (m.tr_clone ≡ l.tr_clone) × (m.closed ≡ l.closed) × (m.locked ≡ l.locked)
  unfolding puts
  puts_keep [] l m h = ground arith
  puts_keep (e ∷ w) l m h =
      from_bind _ _ h λ l' e1 h1. ground (arith, put_keeps e.0 e.1 l l' e1, puts_keep w l' m h1)

  -- A transaction that is cancelled after any writes leaves the store as it was, unlocked; a second
  -- transaction has to wait until then.
  pub cancel_restores :
      (l m n : LocalKv bt) (w : List (Bytes × Bytes))
      → begin_transaction bt l ≡ some m
      → puts w m ≡ ok n
      → l.tr_clone ≡ none
      → (begin_transaction bt n ≡ none) × (cancel bt n ≡ (ok tt, l))
  unfolding begin_transaction cancel
  cancel_restores l m n w start wrote clean = ground (arith, puts_keep w m n wrote)

  -- A committed transaction keeps its writes, in a store that is unlocked and has no clone.
  pub commit_keeps :
      (l m n : LocalKv bt) (w : List (Bytes × Bytes))
      → begin_transaction bt l ≡ some m
      → puts w m ≡ ok n
      → commit bt n ≡ (ok tt, record l { b = n.b; tr_clone = none })
  unfolding begin_transaction commit
  commit_keeps l m n w start wrote = ground (arith, puts_keep w m n wrote)

  -- `Transact` on a free store: what the function wrote stays if it succeeds, the old tree is back
  -- if it fails, and the lock is free after success, failure and panic.
  pub transact_atomic :
      {A : Type 0} (fn : LocalKv bt → Result Error A × LocalKv bt) (l m : LocalKv bt)
      (r : Result Error A)
      → l.locked ≡ false
      → fn (record l { locked = true }) ≡ (r, m)
      → transact bt fn l
        ≡ some (r, record m { b = (elim r [ err e ↦ l.b | _ ↦ m.b ]); locked = false })
  unfolding transact
  transact_atomic fn l m (ok a) free run = rw (free, run)
  transact_atomic fn l m (err e) free run = rw (free, run)
  transact_atomic fn l m panic free run = rw (free, run)

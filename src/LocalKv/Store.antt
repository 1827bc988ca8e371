-- ===== src/LocalKv/Store.antt =====
-- The operations of `localKV`. A lock that is held makes a call wait: `none`.
use nola.Base.{
  ◌≡◌, Bool, true, false, Option, none, some, List, [], ◌∷◌, Result, ok, err, panic, if◌then◌else◌,
  Bytes, bytes_eq, has_prefix, All, Elem,
}
use nola.Types.{Error}
use nola.LocalKv.Order.{bytes_lt}

-- Every key of the list is above the bound and below the keys that follow.
abbrev pub Ascending : List (Bytes × Bytes) → Type 0
Ascending [] = Unit
Ascending (e ∷ l) = All (λ f. bytes_lt e.0 f.0 ≡ true) l × Ascending l

-- `btree.BTreeG` over pairs ordered by their keys. `Clone` shares the tree, which no later write to
-- the other copy changes, so it is the identity here; `Clear` makes it empty.
pub record BTree : Type 1 where
  pub Tree : Type 0
  pub empty : Tree
  pub get : Tree → Bytes → Option Bytes
  pub replace_or_insert : Tree → Bytes → Bytes → Tree
  -- The pairs that `AscendGreaterOrEqual` visits while its callback answers true.
  pub ascend_greater_or_equal : Tree → Bytes → List (Bytes × Bytes)
  pub get-empty : (j : Bytes) → get empty j ≡ none
  pub get-insert :
      (t : Tree) (k v j : Bytes)
      → get (replace_or_insert t k v) j ≡ (if bytes_eq k j then some v else get t j)
  pub ascend-ascending : (t : Tree) (p : Bytes) → Ascending (ascend_greater_or_equal t p)
  pub ascend-get :
      (t : Tree) (p : Bytes)
      → All (λ e. (get t e.0 ≡ some e.1) × (bytes_lt e.0 p ≡ false)) (ascend_greater_or_equal t p)
  pub get-ascend :
      (t : Tree) (p k v : Bytes)
      → get t k ≡ some v
      → bytes_lt k p ≡ false
      → Elem (k, v) (ascend_greater_or_equal t p)

-- The callback of `AscendGreaterOrEqual` stops at the first key without the prefix.
unfoldable pub while_prefix : Bytes → List (Bytes × Bytes) → List (Bytes × Bytes)
while_prefix prefix [] = []
while_prefix prefix (e ∷ l) = if has_prefix e.0 prefix then e ∷ while_prefix prefix l else []

module _ (bt : BTree) where
  pub record LocalKv : Type 0 where
    pub b : bt.Tree
    pub tr_clone : Option bt.Tree
    pub closed : Bool
    pub locked : Bool

  unfoldable pub new_local_kv : LocalKv
  new_local_kv = record { b = bt.empty; tr_clone = none; closed = false; locked = false }

  -- `BeginTransaction`: the lock stays held.
  unfoldable pub begin_transaction : LocalKv → Option LocalKv
  begin_transaction l =
      if l.locked then none else some (record l { tr_clone = some l.b; locked = true })

  -- `Commit` and `Cancel`: the lock is released in any case.
  unfoldable pub commit : LocalKv → Result Error (Unit {0}) × LocalKv
  commit l = elim l.tr_clone [
    | none ↦ (panic, record l { locked = false })
    | some clone ↦ (ok tt, record l { tr_clone = none; locked = false })
  ]

  unfoldable pub cancel : LocalKv → Result Error (Unit {0}) × LocalKv
  cancel l = elim l.tr_clone [
    | none ↦ (panic, record l { locked = false })
    | some clone ↦ (ok tt, record l { b = clone; tr_clone = none; locked = false })
  ]

  -- The state after the call of `fn`: an error puts the clone back, a panic does not.
  abbrev settle {ℓ} : {A : Type ℓ} → bt.Tree → Result Error A × LocalKv → Result Error A × LocalKv
  settle clone (ok a, l) = (ok a, record l { locked = false })
  settle clone (err e, l) = (err e, record l { b = clone; locked = false })
  settle clone (panic, l) = (panic, record l { locked = false })

  unfoldable pub transact :
      {A : Type 0}
      → (LocalKv → Result Error A × LocalKv)
      → LocalKv
      → Option (Result Error A × LocalKv)
  transact fn l = if l.locked then none else some (settle l.b (fn (record l { locked = true })))

  unfoldable pub unsafe_wipe_all : LocalKv → Option LocalKv
  unsafe_wipe_all l = if l.locked then none else some (record l { b = bt.empty })

  unfoldable pub close : LocalKv → Option LocalKv
  close l = if l.locked then none else some (record l { closed = true })

  unfoldable pub put : LocalKv → Bytes → Bytes → Result Error LocalKv
  put l k v = if l.closed then panic else ok (record l { b = bt.replace_or_insert l.b k v })

  unfoldable pub get : LocalKv → Bytes → Result Error (Option Bytes)
  get l k = if l.closed then panic else ok (bt.get l.b k)

  unfoldable pub iter_prefix : LocalKv → Bytes → Result Error (List (Bytes × Bytes))
  unfolding while_prefix
  iter_prefix l prefix =
      if l.closed then panic else ok (while_prefix prefix (bt.ascend_greater_or_equal l.b prefix))

-- ===== src/Kv.antt =====
-- The store below the registry: virtual/registry/kv/kv.go, an interface. A transaction reads and
-- writes a state, which the store puts back when the transaction fails.
use nola.Base.{
  ◌≡◌, true, Option, some, List, Result, ok, if◌then◌else◌, Bytes, bytes_eq, has_prefix, All, Elem,
}
use nola.Types.{Error}

pub record Kv : Type 1 where
  pub State : Type 0
  -- What `BeginTransaction`, `Commit` and `Cancel` answer.
  pub begin_transaction : State → Result Error (Unit {0})
  pub commit : State → Result Error (Unit {0})
  pub cancel : State → Result Error (Unit {0})
  pub get : State → Bytes → Result Error (Option Bytes)
  pub put : State → Bytes → Bytes → Result Error State
  -- The pairs that `IterPrefix` hands to its callback, in order.
  pub iter_prefix : State → Bytes → Result Error (List (Bytes × Bytes))
  pub get-put :
      (s : State) (k v : Bytes) (t : State) (j : Bytes)
      → put s k v ≡ ok t
      → get t j ≡ (if bytes_eq k j then ok (some v) else get s j)
  pub iter-get :
      (s : State) (p : Bytes) (l : List (Bytes × Bytes))
      → iter_prefix s p ≡ ok l
      → All (λ e. (get s e.0 ≡ ok (some e.1)) × (has_prefix e.0 p ≡ true)) l
  pub get-iter :
      (s : State) (p : Bytes) (l : List (Bytes × Bytes)) (k v : Bytes)
      → iter_prefix s p ≡ ok l
      → get s k ≡ ok (some v)
      → has_prefix k p ≡ true
      → Elem (k, v) l

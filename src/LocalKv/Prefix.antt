-- ===== src/LocalKv/Prefix.antt =====
-- `IterPrefix` of `localKV` visits the keys with the prefix, all of them; and the store is one that
-- the registry can stand on.
use nola.Base.{
  ◌≡◌, ap, subst, inl, inr, true, false, some, List, [], ◌∷◌, ok, if◌then◌else◌, Bytes, bytes_eq,
  has_prefix, All, Elem, All-Elem, arith, Bool-cases, ok-injective,
}
use nola.Kv.{Kv}
use nola.LocalKv.Order.{bytes_lt, has_prefix-not_lt, has_prefix_between}
use nola.LocalKv.Store.{BTree, LocalKv, Ascending, while_prefix, put, get, iter_prefix}

while_prefix-All :
    (P : Bytes × Bytes → Type 0) (p : Bytes) (l : List (Bytes × Bytes))
    → All P l
    → All (λ e. P e × (has_prefix e.0 p ≡ true)) (while_prefix p l)
unfolding while_prefix
while_prefix-All P p [] a = tt
while_prefix-All P p (e ∷ l) a = elim (Bool-cases (has_prefix e.0 p)) [
  | inl h ↦ rw h ((a.0, h), while_prefix-All P p l a.1)
  | inr h ↦ rw h tt
]

-- Behind the first key without the prefix there is none with it.
Elem-while_prefix :
    (p : Bytes) (k v : Bytes) (l : List (Bytes × Bytes))
    → Ascending l
    → All (λ e. bytes_lt e.0 p ≡ false) l
    → Elem (k, v) l
    → has_prefix k p ≡ true
    → Elem (k, v) (while_prefix p l)
unfolding while_prefix
Elem-while_prefix p k v [] s a m h = m
Elem-while_prefix p k v (e ∷ l) s a (inl here) h =
    rw (subst (λ (x : Bytes × Bytes). has_prefix x.0 p ≡ true) here h) (inl here)
Elem-while_prefix p k v (e ∷ l) s a (inr m) h =
    rw (has_prefix_between e.0 k p a.0 (All-Elem _ (k, v) l s.0 m) h)
      (inr (Elem-while_prefix p k v l s.1 a.1 m h))

All-map :
    (P Q : Bytes × Bytes → Type 0) (l : List (Bytes × Bytes))
    → ((e : Bytes × Bytes) → P e → Q e)
    → All P l
    → All Q l
All-map P Q [] f a = tt
All-map P Q (e ∷ l) f a = (f e a.0, All-map P Q l f a.1)

module _ (bt : BTree) where
  pub get-put :
      (s : LocalKv bt) (k v : Bytes) (t : LocalKv bt) (j : Bytes)
      → put bt s k v ≡ ok t
      → get bt t j ≡ (if bytes_eq k j then ok (some v) else get bt s j)
  unfolding put get
  get-put s k v t j h = elim (Bool-cases s.closed) [
    | inl shut ↦ absurd (ground arith)
    | inr live ↦
        let same : t ≡ record s { b = bt.replace_or_insert s.b k v } = ground arith in
        rw (same, live, bt.get-insert s.b k v j) (ground arith)
  ]

  iter_prefix_open :
      (s : LocalKv bt) (p : Bytes) (l : List (Bytes × Bytes))
      → iter_prefix bt s p ≡ ok l
      → (s.closed ≡ false) × (while_prefix p (bt.ascend_greater_or_equal s.b p) ≡ l)
  unfolding iter_prefix
  iter_prefix_open s p l h = elim (Bool-cases s.closed) [
    | inl shut ↦ absurd (ground arith)
    | inr live ↦ (live, ok-injective (rw live at h))
  ]

  -- `IterPrefix` visits only pairs of the store whose keys have the prefix.
  pub iter_prefix_sound :
      (s : LocalKv bt) (p : Bytes) (l : List (Bytes × Bytes))
      → iter_prefix bt s p ≡ ok l
      → All (λ e. (get bt s e.0 ≡ ok (some e.1)) × (has_prefix e.0 p ≡ true)) l
  unfolding get
  iter_prefix_sound s p l h =
      let (live, visited) = iter_prefix_open s p l h in
      subst (All _) visited
        (while_prefix-All _ p _ (All-map _ _ _ (λ e a. rw live (ap ok a.0)) (bt.ascend-get s.b p)))

  -- `IterPrefix` visits every pair of the store whose key has the prefix.
  pub iter_prefix_complete :
      (s : LocalKv bt) (p : Bytes) (l : List (Bytes × Bytes)) (k v : Bytes)
      → iter_prefix bt s p ≡ ok l
      → get bt s k ≡ ok (some v)
      → has_prefix k p ≡ true
      → Elem (k, v) l
  unfolding get
  iter_prefix_complete s p l k v h g q =
      let (live, visited) = iter_prefix_open s p l h in
      subst (Elem (k, v)) visited (
        Elem-while_prefix p k v _ (bt.ascend-ascending s.b p)
          (All-map _ _ _ (λ e a. a.1) (bt.ascend-get s.b p))
          (bt.get-ascend s.b p k v (ok-injective (rw live at g)) (has_prefix-not_lt k p q)) q)

  -- The store as the registry sees it.
  abbrev pub local_kv : Kv
  local_kv = record {
    State = LocalKv bt;
    begin_transaction = λ _. ok tt;
    commit = λ _. ok tt;
    cancel = λ _. ok tt;
    get = get bt;
    put = put bt;
    iter_prefix = iter_prefix bt;
    get-put = get-put;
    iter-get = iter_prefix_sound;
    get-iter = iter_prefix_complete;
  }

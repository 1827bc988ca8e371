-- ===== src/LocalKv/Sorted.antt =====
-- A tree that keeps the promises of google/btree, so that the store can be run: a sorted list.
use nola.Base.{
  ◌≡◌, refl, sym, subst, inl, inr, true, false, Option, none, some, List, [], ◌∷◌, if◌then◌else◌,
  Bytes, bytes_eq, bytes_eq_iff, bytes_eq_refl, All, Elem, arith, Bool-cases,
}
use nola.LocalKv.Order.{bytes_lt, bytes_lt_trans, bytes_lt_irrefl, bytes_lt_total}
use nola.LocalKv.Store.{Ascending, BTree}

abbrev pub lookup : List (Bytes × Bytes) → Bytes → Option Bytes
lookup [] j = none
lookup (e ∷ l) j = if bytes_eq e.0 j then some e.1 else lookup l j

abbrev pub insert : List (Bytes × Bytes) → Bytes → Bytes → List (Bytes × Bytes)
insert [] k v = (k, v) ∷ []
insert (e ∷ l) k v =
    if bytes_eq e.0 k
    then (k, v) ∷ l
    else if bytes_lt k e.0
    then (k, v) ∷ e ∷ l
    else e ∷ insert l k v

abbrev pub from_key : List (Bytes × Bytes) → Bytes → List (Bytes × Bytes)
from_key [] p = []
from_key (e ∷ l) p = if bytes_lt e.0 p then from_key l p else e ∷ from_key l p

pub lookup-insert :
    (l : List (Bytes × Bytes)) (k v j : Bytes)
    → lookup (insert l k v) j ≡ (if bytes_eq k j then some v else lookup l j)
lookup-insert [] k v j = refl
lookup-insert (e ∷ l) k v j =
    ground (arith, bytes_eq_iff e.0 k, bytes_eq_iff k j, bytes_eq_iff e.0 j, lookup-insert l k v j)

insert-All :
    (a : Bytes) (l : List (Bytes × Bytes)) (k v : Bytes)
    → bytes_lt a k ≡ true
    → All (λ f. bytes_lt a f.0 ≡ true) l
    → All (λ f. bytes_lt a f.0 ≡ true) (insert l k v)
insert-All a [] k v h al = (h, tt)
insert-All a (e ∷ l) k v h al = ground (arith, insert-All a l k v h al.1)

All-below :
    (a b : Bytes) (l : List (Bytes × Bytes))
    → bytes_lt a b ≡ true
    → All (λ f. bytes_lt b f.0 ≡ true) l
    → All (λ f. bytes_lt a f.0 ≡ true) l
All-below a b [] h al = tt
All-below a b (e ∷ l) h al = (bytes_lt_trans a b e.0 h al.0, All-below a b l h al.1)

pub insert-Ascending :
    (l : List (Bytes × Bytes)) (k v : Bytes) → Ascending l → Ascending (insert l k v)
insert-Ascending [] k v s = (tt, tt)
insert-Ascending (e ∷ l) k v s = ground (
  arith,
  bytes_eq_iff e.0 k,
  All-below k e.0 l,
  insert-All e.0 l k v,
  bytes_lt_total k e.0,
  bytes_eq_iff k e.0,
  insert-Ascending l k v s.1,
)

from_key-All :
    (a : Bytes) (l : List (Bytes × Bytes)) (p : Bytes)
    → All (λ f. bytes_lt a f.0 ≡ true) l
    → All (λ f. bytes_lt a f.0 ≡ true) (from_key l p)
from_key-All a [] p al = tt
from_key-All a (e ∷ l) p al = ground (arith, from_key-All a l p al.1)

pub from_key-Ascending :
    (l : List (Bytes × Bytes)) (p : Bytes) → Ascending l → Ascending (from_key l p)
from_key-Ascending [] p s = tt
from_key-Ascending (e ∷ l) p s =
    ground (arith, from_key-Ascending l p s.1, from_key-All e.0 l p s.0)

lt-not_eq : (a b : Bytes) → bytes_lt a b ≡ true → bytes_eq a b ≡ false
lt-not_eq a b h = elim (Bool-cases (bytes_eq a b)) [
  | inl same ↦ absurd (
      ground
        (arith, bytes_lt_irrefl b, subst (λ x. bytes_lt x b ≡ true) ((bytes_eq_iff a b).0 same) h))
  | inr other ↦ other
]

-- Below a smaller first key, a list is looked up in its tail.
All-lookup :
    (e : Bytes × Bytes) (l m : List (Bytes × Bytes))
    → All (λ f. bytes_lt e.0 f.0 ≡ true) m
    → All (λ f. lookup l f.0 ≡ some f.1) m
    → All (λ f. lookup (e ∷ l) f.0 ≡ some f.1) m
All-lookup e l [] a b = tt
All-lookup e l (f ∷ m) a b = (rw (lt-not_eq e.0 f.0 a.0) b.0, All-lookup e l m a.1 b.1)

from_key-lookup :
    (l : List (Bytes × Bytes)) (p : Bytes)
    → Ascending l
    → All (λ e. lookup l e.0 ≡ some e.1) (from_key l p)
from_key-lookup [] p s = tt
from_key-lookup (e ∷ l) p s =
    let rest = All-lookup e l (from_key l p) (from_key-All e.0 l p s.0) (from_key-lookup l p s.1) in
    elim (Bool-cases (bytes_lt e.0 p)) [
      | inl h ↦ rw h rest
      | inr h ↦ rw h (rw (bytes_eq_refl e.0) refl, rest)
    ]

pub from_key-not_lt :
    (l : List (Bytes × Bytes)) (p : Bytes)
    → Ascending l
    → All (λ e. (lookup l e.0 ≡ some e.1) × (bytes_lt e.0 p ≡ false)) (from_key l p)
from_key-not_lt l p s = both (from_key l p) (from_key-lookup l p s) (bounds l)
  where
    both :
        (m : List (Bytes × Bytes))
        → All (λ e. lookup l e.0 ≡ some e.1) m
        → All (λ e. bytes_lt e.0 p ≡ false) m
        → All (λ e. (lookup l e.0 ≡ some e.1) × (bytes_lt e.0 p ≡ false)) m
    both [] a b = tt
    both (e ∷ m) a b = ((a.0, b.0), both m a.1 b.1)

    bounds : (m : List (Bytes × Bytes)) → All (λ e. bytes_lt e.0 p ≡ false) (from_key m p)
    bounds [] = tt
    bounds (e ∷ m) = elim (Bool-cases (bytes_lt e.0 p)) [
      | inl h ↦ rw h (bounds m)
      | inr h ↦ rw h (h, bounds m)
    ]

pub Elem-from_key :
    (l : List (Bytes × Bytes)) (p k v : Bytes)
    → lookup l k ≡ some v
    → bytes_lt k p ≡ false
    → Elem (k, v) (from_key l p)
Elem-from_key [] p k v h q = absurd (cc)
Elem-from_key (e ∷ l) p k v h q = elim (Bool-cases (bytes_eq e.0 k)) [
  | inl same ↦
      let here = (bytes_eq_iff e.0 k).0 same in
      let value : e.1 ≡ v = ground arith in
      rw (subst (λ x. bytes_lt x p ≡ false) (sym here) q) (inl (λ i. (sym here i, sym value i)))
  | inr other ↦
      let rest = Elem-from_key l p k v (rw other at h) q in
      elim (Bool-cases (bytes_lt e.0 p)) [
        | inl below ↦ rw below rest
        | inr above ↦ rw above (inr rest)
      ]
]

-- Sorted lists keep all that `BTree` asks.
abbrev pub sorted_tree : BTree
sorted_tree = record {
  Tree = (l : List (Bytes × Bytes)) × Ascending l;
  empty = ([], tt);
  get = λ t j. lookup t.0 j;
  replace_or_insert = λ t k v. (insert t.0 k v, insert-Ascending t.0 k v t.1);
  ascend_greater_or_equal = λ t p. from_key t.0 p;
  get-empty = λ j. refl;
  get-insert = λ t k v j. lookup-insert t.0 k v j;
  ascend-ascending = λ t p. from_key-Ascending t.0 p t.1;
  ascend-get = λ t p. from_key-not_lt t.0 p t.1;
  get-ascend = λ t p k v h q. Elem-from_key t.0 p k v h q;
}

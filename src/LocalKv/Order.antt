-- ===== src/LocalKv/Order.antt =====
-- The order of keys, `bytes.Compare`, and what it says of prefixes.
use nola.Base.{
  ◌==◌, ◌≡◌, refl, Bool, true, false, ◌&&◌, ◌||◌, [], ◌∷◌, ltb, arith, Bytes, has_prefix, bytes_eq,
}

-- `bytes.Compare(x, y) < 0`.
unfoldable pub bytes_lt : Bytes → Bytes → Bool
bytes_lt [] [] = false
bytes_lt [] (b ∷ y) = true
bytes_lt (a ∷ x) [] = false
bytes_lt (a ∷ x) (b ∷ y) = ltb a b || (a == b && bytes_lt x y)

pub bytes_lt_trans :
    (x y z : Bytes) → bytes_lt x y ≡ true → bytes_lt y z ≡ true → bytes_lt x z ≡ true
unfolding bytes_lt
bytes_lt_trans [] [] z h k = ground arith
bytes_lt_trans [] (b ∷ y) [] h k = ground arith
bytes_lt_trans [] (b ∷ y) (c ∷ z) h k = refl
bytes_lt_trans (a ∷ x) [] z h k = ground arith
bytes_lt_trans (a ∷ x) (b ∷ y) [] h k = ground arith
bytes_lt_trans (a ∷ x) (b ∷ y) (c ∷ z) h k = ground (arith, bytes_lt_trans x y z)

pub bytes_lt_irrefl : (x : Bytes) → bytes_lt x x ≡ false
unfolding bytes_lt
bytes_lt_irrefl [] = refl
bytes_lt_irrefl (a ∷ x) = ground (arith, bytes_lt_irrefl x)

pub bytes_lt_total :
    (x y : Bytes) → bytes_lt x y ≡ false → bytes_eq x y ≡ false → bytes_lt y x ≡ true
unfolding bytes_lt bytes_eq
bytes_lt_total [] [] h k = ground arith
bytes_lt_total [] (b ∷ y) h k = ground arith
bytes_lt_total (a ∷ x) [] h k = refl
bytes_lt_total (a ∷ x) (b ∷ y) h k = ground (arith, bytes_lt_total x y)

-- A key with the prefix is not below it.
pub has_prefix-not_lt : (k p : Bytes) → has_prefix k p ≡ true → bytes_lt k p ≡ false
unfolding bytes_lt has_prefix
has_prefix-not_lt [] [] h = refl
has_prefix-not_lt (a ∷ k) [] h = refl
has_prefix-not_lt [] (b ∷ p) h = ground arith
has_prefix-not_lt (a ∷ k) (b ∷ p) h = ground (arith, has_prefix-not_lt k p)

-- The keys with a prefix are an interval that begins at the prefix.
pub has_prefix_between :
    (j k p : Bytes)
    → bytes_lt j p ≡ false
    → bytes_lt j k ≡ true
    → has_prefix k p ≡ true
    → has_prefix j p ≡ true
unfolding bytes_lt has_prefix
has_prefix_between [] k [] h l q = refl
has_prefix_between (a ∷ j) k [] h l q = refl
has_prefix_between [] k (b ∷ p) h l q = ground arith
has_prefix_between (a ∷ j) [] (b ∷ p) h l q = ground arith
has_prefix_between (a ∷ j) (c ∷ k) (b ∷ p) h l q = ground (arith, has_prefix_between j k p)

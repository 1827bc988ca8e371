-- ===== src/FileCache/Tests.antt =====
-- The theorems on the file cache at a file of ten bytes.
use nola.FileCache.Reading.{ReadError, ChunkCache, get_range}
use nola.FileCache.Caching.{chunk_of, Reads, Caches}
use nola.FileCache.Serving.{IsServed, get_range-IsServed}
use nola.FileCache.Succeeding.{Retains, get_range_serves}
use nola.FileCache.Sharing.{get_range_hit}
use nola.Base.{
  ℕ, ◌≢◌, ◌⊎◌, inl, inr, Bool-cases, none, Option, Bytes, Result, ok, ◌==◌, if◌then◌else◌, ap, sym,
  ◌∙◌, take, drop, ◌-◌, ◌++◌, length, ok-injective, take-append-drop, length-take, length-drop, ◌≡◌,
  ◌≤◌, refl, some, [], ◌∷◌, arith,
}
use nola.FileCache.Chunks.{
  FileCacheActor, new_file_cache_actor, check_range, range_to_chunk_indexes, first_chunk,
  later_chunks, cut_last, cut_chunk,
}

-- Chunks of four bytes, fetches of eight.
abbrev cached : FileCacheActor
cached = record { file_size = 10; chunk_size = 4; fetch_size = 8 }

-- A byte of the first chunk, the second chunk, and a byte of the third.
three_chunks :
    range_to_chunk_indexes cached 3 9
    ≡ some (
        record { idx = 0; start = 3; end = 4 }
        ∷ record { idx = 1; start = 0; end = 4 }
        ∷ record { idx = 2; start = 0; end = 1 }
        ∷ [])
unfolding range_to_chunk_indexes first_chunk later_chunks cut_last cut_chunk
three_chunks = refl

-- A cache that keeps everything, as a function.
abbrev kept_put : (ℕ → Option Bytes) → ℕ → Bytes → ℕ → Option Bytes
kept_put s i b j = if j == i then some b else s j

kept_get-put :
    (s : ℕ → Option Bytes) (i : ℕ) (b : Bytes) (j : ℕ) (v : Bytes)
    → ◌≡◌ {A = Result ReadError (Option Bytes)} (ok (kept_put s i b j)) (ok (some v))
    → ((j ≡ i) × (v ≡ b)) ⊎ (◌≡◌ {A = Result ReadError (Option Bytes)} (ok (s j)) (ok (some v)))
kept_get-put s i b j v h = elim (Bool-cases (j == i)) [
  | inl same ↦ inl (ground (arith, same), ground (arith, same, h))
  | inr other ↦ inr (ground (arith, other, h))
]

abbrev keeping : ChunkCache
keeping = record {
  State = ℕ → Option Bytes;
  get = λ s j. ok (s j);
  put = λ s i b. (ok tt, kept_put s i b);
  get-put = kept_get-put;
}

abbrev no_chunks : ℕ → Option Bytes
no_chunks _ = none

keeping_same : (s : ℕ → Option Bytes) (i : ℕ) (b : Bytes) → kept_put s i b i ≡ some b
keeping_same s i b = ground arith

keeping_other : (s : ℕ → Option Bytes) (i j : ℕ) (b : Bytes) → j ≢ i → kept_put s i b j ≡ s j
keeping_other s i j b ne = ground arith

keeping-Retains : Retains keeping
keeping-Retains = record {
  put_succeeds = λ s i b. refl;
  get_succeeds = λ s j. (s j, refl);
  get-put_same = λ s i b. ap ok (keeping_same s i b);
  get-put_other = λ s i j b ne. ap ok (keeping_other s i j b ne);
}

abbrev ten_bytes : Bytes
ten_bytes = 10 ∷ 11 ∷ 12 ∷ 13 ∷ 14 ∷ 15 ∷ 16 ∷ 17 ∷ 18 ∷ 19 ∷ []

-- A fetcher of a file.
abbrev fetch_from : Bytes → ℕ → ℕ → Result ReadError Bytes
fetch_from file start end = ok (take (end - start) (drop start file))

fetch_from-Reads :
    (file : Bytes) (start end : ℕ) (r : Bytes)
    → fetch_from file start end ≡ ok r
    → Reads file start r
fetch_from-Reads file start end r h = (
  drop (end - start) (drop start file),
  ap (λ x. x ++ drop (end - start) (drop start file)) (sym (ok-injective h))
      ∙ take-append-drop (end - start) (drop start file),
)

fetch_from_generous :
    (start end : ℕ)
    → end ≤ 10
    → (r : Bytes) × (fetch_from ten_bytes start end ≡ ok r) × (end - start ≤ length r)
fetch_from_generous start end le = (
  take (end - start) (drop start ten_bytes),
  refl,
  omega (arith, length-take (end - start) (drop start ten_bytes), length-drop start ten_bytes, le),
)

get_range-IsServed_example :
    IsServed keeping
      (Caches keeping 4 ten_bytes)
      (13 ∷ 14 ∷ 15 ∷ [])
      (get_range keeping (fetch_from ten_bytes) cached 3 6 no_chunks)
unfolding new_file_cache_actor check_range
get_range-IsServed_example =
    get_range-IsServed keeping (fetch_from ten_bytes) cached ten_bytes (fetch_from-Reads ten_bytes)
      refl refl 3 6 no_chunks refl (λ j v h. absurd (cc h))

get_range_serves_example :
    ((get_range keeping (fetch_from ten_bytes) cached 3 6 no_chunks).1.0 ≡ ok tt)
    × ((get_range keeping (fetch_from ten_bytes) cached 3 6 no_chunks).0 ≡ 13 ∷ 14 ∷ 15 ∷ [])
unfolding new_file_cache_actor check_range
get_range_serves_example =
    get_range_serves keeping keeping-Retains (fetch_from ten_bytes) cached ten_bytes
      (fetch_from-Reads ten_bytes) fetch_from_generous refl refl 3 6 no_chunks refl
      (λ j v h. absurd (cc h))

-- The cache after a read of the file of the first actor, and the fetcher of another file.
abbrev all_chunks : ℕ → Option Bytes
all_chunks j = some (chunk_of 4 ten_bytes j)

abbrev ten_zeros : Bytes
ten_zeros = 0 ∷ 0 ∷ 0 ∷ 0 ∷ 0 ∷ 0 ∷ 0 ∷ 0 ∷ 0 ∷ 0 ∷ []

get_range_hit_example :
    get_range keeping (fetch_from ten_zeros) cached 3 6 all_chunks
    ≡ (13 ∷ 14 ∷ 15 ∷ [], (ok tt, all_chunks))
unfolding new_file_cache_actor check_range
get_range_hit_example =
    get_range_hit keeping (fetch_from ten_zeros) cached ten_bytes refl refl 3 6 all_chunks refl
      (λ j lt. refl)

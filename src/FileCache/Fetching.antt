-- ===== src/FileCache/Fetching.antt =====
-- The range that a missing chunk is fetched with: `chunkIndexToFetchRange` of
-- examples/file_cache/file_cache.go.
use nola.Base.{
  ℕ, suc, ◌+◌, ◌-◌, ◌⊎◌, inl, inr, Bool-cases, ◌*◌, ◌/◌, ◌%◌, ◌≤◌, ◌<◌, ◌≡◌, ap, sym, ◌∙◌, ltb,
  if◌then◌else◌, arith, ok,
}
use native.Mathlib.Nat.{
  div-add-mod', div-mul-le_self, lt-div-mul-add, mul-div_cancel, mul-le-mul_right,
  lt_of_mul-lt-mul_right,
}
use nola.FileCache.Chunks.{
  FileCacheActor, chunk_index_to_fetch_range, offset_to_chunk_index, new_file_cache_actor,
}

-- The next multiple of a number after a smaller multiple.
multiple_after : (c a b : ℕ) → a * c < b * c → a * c + c ≤ b * c
multiple_after c a b h =
    omega (arith, mul-le-mul_right {m = suc a} {n = b} c (lt_of_mul-lt-mul_right c h))

-- For an actor that `NewFileCacheActor` makes, the range fetched for a chunk that begins in the file
-- begins with a chunk, at or before that chunk, ends within the file, and holds all of the chunk
-- that the file has.
pub chunk_index_to_fetch_range_lem :
    (file_size chunk_size fetch_size : ℕ) (f : FileCacheActor) (idx : ℕ)
    → new_file_cache_actor file_size chunk_size fetch_size ≡ ok f
    → idx * f.chunk_size < f.file_size
    → (offset_to_chunk_index f (chunk_index_to_fetch_range f idx).0 * f.chunk_size
        ≡ (chunk_index_to_fetch_range f idx).0)
      × ((chunk_index_to_fetch_range f idx).0 ≤ idx * f.chunk_size)
      × ((chunk_index_to_fetch_range f idx).1 ≤ f.file_size)
      × ((if ltb f.file_size (idx * f.chunk_size + f.chunk_size)
            then f.file_size
            else idx * f.chunk_size + f.chunk_size)
          ≤ (chunk_index_to_fetch_range f idx).1)
unfolding chunk_index_to_fetch_range offset_to_chunk_index new_file_cache_actor
chunk_index_to_fetch_range_lem file_size chunk_size fetch_size f idx made inside =
    let c = f.chunk_size in
    let w = f.fetch_size in
    let positive : 0 < c = ground (arith, made) in
    let fetches : 0 < w = ground (arith, made) in
    let divides : w % c ≡ 0 = ground (arith, made) in
    let m = w / c in
    let split : w ≡ m * c = omega (arith, div-add-mod' w c, divides) in
    let t = idx * c / w in
    let below : t * w ≤ idx * c = div-mul-le_self (idx * c) w in
    let above : idx * c < t * w + w = lt-div-mul-add {a = idx * c} fetches in
    let start : t * w ≡ t * m * c = ap (λ x. t * x) split ∙ omega arith in
    let after : idx * c + c ≤ (t * m + m) * c =
      multiple_after c idx (t * m + m) (omega (arith, above, start, split)) in
    let holds : idx * c + c ≤ t * w + w = omega (arith, after, start, split) in
    (
      ap (λ x. x / c * c) start ∙ ap (λ x. x * c) (mul-div_cancel (t * m) positive) ∙ sym start,
      below,
      ground arith,
      ground (arith, holds),
    )

-- The range fetched ends with the file, or is a number of whole chunks.
pub fetched_chunks :
    (file_size chunk_size fetch_size : ℕ) (f : FileCacheActor) (idx : ℕ)
    → new_file_cache_actor file_size chunk_size fetch_size ≡ ok f
    → idx * f.chunk_size < f.file_size
    → (let (start, end) = chunk_index_to_fetch_range f idx in
        (start + (end - start) ≡ f.file_size) ⊎ ((k : ℕ) × (end - start ≡ k * f.chunk_size)))
unfolding chunk_index_to_fetch_range new_file_cache_actor
fetched_chunks file_size chunk_size fetch_size f idx made inside =
    let c = f.chunk_size in
    let w = f.fetch_size in
    let divides : w % c ≡ 0 = ground (arith, made) in
    let split : w ≡ w / c * c = omega (arith, div-add-mod' w c, divides) in
    let below : idx * c / w * w ≤ idx * c = div-mul-le_self (idx * c) w in
    elim (Bool-cases (ltb f.file_size (idx * c / w * w + w))) [
      | inl cut ↦ inl (rw cut (omega (arith, below, inside)))
      | inr whole ↦ inr (w / c, rw whole (omega (arith, split)))
    ]

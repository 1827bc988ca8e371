-- ===== src/FileCache/Covering.antt =====
-- The chunks that a range is read from are the range: `rangeToChunkIndexes` of
-- examples/file_cache/file_cache.go.
use nola.Base.{
  ℕ, zero, suc, ◌+◌, ◌-◌, ◌*◌, ◌/◌, ◌%◌, ◌≤◌, ◌<◌, ◌≡◌, refl, sym, subst, ◌∙◌, inl, inr, some, List,
  [], ◌∷◌, ltb, leb, arith, Bool-cases, ok,
}
use mathlib.Core.Option.{some-injective}
use native.Mathlib.Nat.{add-div_right, div-add-mod', mod-lt}
use nola.FileCache.Chunks.{
  FileCacheActor, ChunkToRead, first_chunk, later_chunks, cut_chunk, cut_last,
  range_to_chunk_indexes, check_range, new_file_cache_actor,
}

-- The chunks, each within its bounds and not empty, follow on one another from a position in the
-- file to the end.
abbrev pub Covers : ℕ → ℕ → ℕ → List ChunkToRead → Type 0
Covers chunk_size pos end [] = pos ≡ end
Covers chunk_size pos end (x ∷ l) =
    (x.idx * chunk_size + x.start ≡ pos)
    × (x.start < x.end)
    × (x.end ≤ chunk_size)
    × Covers chunk_size (x.idx * chunk_size + x.end) end l

mul_next : (c i : ℕ) → c * (i + 1) ≡ i * c + c
mul_next c i = omega arith

cut_alone :
    (c pos end : ℕ) (x : ChunkToRead)
    → x.idx * c + x.start ≡ pos
    → pos < end
    → end ≤ x.idx * c + x.end
    → x.end ≤ c
    → Covers c pos end (cut_last c end (x ∷ []))
unfolding cut_last cut_chunk
cut_alone c pos end x h l e b = elim (Bool-cases (ltb end (c * (x.idx + 1)))) [
  | inl short ↦
      rw short (
        h,
        ground (arith, h, l),
        ground (arith, mul_next c x.idx, short, h, l),
        ground (arith, h, l),
      )
  | inr long ↦ rw long (h, ground (arith, h, l, e), b, ground (arith, mul_next c x.idx, long, e, b))
]

cut_more :
    (c pos end : ℕ) (x : ChunkToRead) (l : List ChunkToRead)
    → x.idx * c + x.start ≡ pos
    → x.start < x.end
    → x.end ≤ c
    → x.idx * c + x.end < end
    → Covers c (x.idx * c + x.end) end (cut_last c end l)
    → Covers c pos end (cut_last c end (x ∷ l))
unfolding cut_last
cut_more c pos end x [] h s b e r = absurd (omega (arith, e, r))
cut_more c pos end x (y ∷ l) h s b e r = (h, s, b, r)

next_index : (c curr : ℕ) → 0 < c → (curr + c) / c ≡ curr / c + 1
next_index c curr h = add-div_right curr h

later_chunks_over :
    (fuel c curr remaining : ℕ) → remaining ≡ 0 → later_chunks fuel c curr remaining ≡ some []
unfolding later_chunks
later_chunks_over zero c curr remaining e = rw e refl
later_chunks_over (suc fuel) c curr remaining e = rw e refl

-- A chunk before the chunks of the later iterations.
cover_first :
    (fuel c curr remaining pos end : ℕ) (x : ChunkToRead) (l : List ChunkToRead)
    → x.idx * c + x.start ≡ pos
    → x.start < x.end
    → x.end ≤ c
    → pos < end
    → curr / c ≡ x.idx + 1
    → remaining ≡ end - (x.idx * c + x.end)
    → (0 < remaining → x.end ≡ c)
    → later_chunks fuel c curr remaining ≡ some l
    → Covers c (curr / c * c) (curr / c * c + remaining) (cut_last c (curr / c * c + remaining) l)
    → Covers c pos end (cut_last c end (x ∷ l))
cover_first fuel c curr remaining pos end x l h s b p i n w e r =
    elim (Bool-cases (leb remaining 0)) [
      | inl over ↦
          let none_left : [] ≡ l =
            some-injective _ _
              (sym (later_chunks_over fuel c curr remaining (ground (arith, over))) ∙ e) in
          subst (λ m. Covers c pos end (cut_last c end (x ∷ m))) none_left
            (cut_alone c pos end x h p (ground (arith, over, n)) b)
      | inr more ↦
          let full : x.end ≡ c = w (ground (arith, more)) in
          let here : curr / c * c ≡ x.idx * c + x.end = rw i (omega (arith, full)) in
          let there : curr / c * c + remaining ≡ end = ground (arith, here, n, more) in
          cut_more c pos end x l h s b (ground (arith, here, n, more)) (
            subst (λ q. Covers c q end (cut_last c end l)) here
              (subst (λ q. Covers c (curr / c * c) q (cut_last c q l)) there r))
    ]

-- What the loop leaves to `cut_last` covers the rest of the range, and there is fuel enough.
later_chunks-Covers :
    (fuel c curr remaining : ℕ)
    → 0 < c
    → remaining ≤ fuel
    → (l : List ChunkToRead) × (later_chunks fuel c curr remaining ≡ some l)
      × Covers c (curr / c * c) (curr / c * c + remaining) (cut_last c (curr / c * c + remaining) l)
unfolding later_chunks cut_last
later_chunks-Covers zero c curr remaining h b = ([], ground (arith, b), omega (arith, b))
later_chunks-Covers (suc fuel) c curr remaining h b = elim (Bool-cases (leb remaining 0)) [
  | inl over ↦ ([], rw over refl, ground (arith, over))
  | inr more ↦
      let (l, e, r) =
        later_chunks-Covers fuel c (curr + c) (remaining - c) h (omega (arith, h, b)) in
      (
        record { idx = curr / c; start = 0; end = c } ∷ l,
        rw (more, e) refl,
        cover_first fuel c (curr + c) (remaining - c) _ _ _ l (omega arith) h (omega arith)
            (ground (arith, more)) (next_index c curr h) (omega arith) (λ _. refl) e r,
      )
]

range_to_chunk_indexes-Covers :
    (f : FileCacheActor) (start end : ℕ)
    → 0 < f.chunk_size
    → start < end
    → (l : List ChunkToRead) × (range_to_chunk_indexes f start end ≡ some l)
      × Covers f.chunk_size start end l
unfolding range_to_chunk_indexes first_chunk
range_to_chunk_indexes-Covers f start end h p =
    let c = f.chunk_size in
    let x = first_chunk c start (end - start) in
    let place : start / c * c + start % c ≡ start = div-add-mod' start c in
    let within : start % c < c = mod-lt start h in
    let remaining = end - start - (x.end - x.start) in
    let (l, e, r) = later_chunks-Covers (end - start) c (start + c) remaining h (omega arith) in
    (
      cut_last c end (x ∷ l),
      ground (arith, e, h, p),
      cover_first (end - start) c (start + c) remaining start end x l place
          (ground (arith, within, p)) (ground (arith, within)) p (next_index c start h)
          (ground (arith, within, place, p)) (λ q. ground (arith, q)) e r,
    )

-- For an actor that `NewFileCacheActor` makes and a range that `InvokeStream` accepts, the chunks to
-- read are computed without a panic, follow on one another from the first byte of the range to its
-- end, and are not empty and within the size of a chunk.
pub accepted_range-Covers :
    (file_size chunk_size fetch_size : ℕ) (f : FileCacheActor) (start end : ℕ)
    → new_file_cache_actor file_size chunk_size fetch_size ≡ ok f
    → check_range f start end ≡ ok tt
    → (l : List ChunkToRead) × (range_to_chunk_indexes f start end ≡ some l)
      × Covers f.chunk_size start end l
unfolding new_file_cache_actor check_range
accepted_range-Covers file_size chunk_size fetch_size f start end made accepted =
    range_to_chunk_indexes-Covers f start end (ground (arith, made)) (ground (arith, accepted))

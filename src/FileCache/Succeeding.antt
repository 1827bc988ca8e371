-- ===== src/FileCache/Succeeding.antt =====
-- A request for a range succeeds over a cache that keeps what is put into it: `copyChunk` and
-- `getRange` of examples/file_cache/file_cache.go.
use native.Mathlib.Nat.{mul-le-mul_right}
use nola.Base.{
  ℕ, zero, suc, ◌+◌, ◌-◌, ◌*◌, ◌≤◌, ◌<◌, ◌≡◌, ◌≢◌, inl, inr, refl, sym, ap, subst, ◌∙◌, true,
  Bool-cases, Option, none, some, List, [], ◌∷◌, Bytes, length, take, drop, Result, ok, err, panic,
  arith, ◌==◌, ok-injective, ℕ_discrete, dec_lt, length-drop, length-take, take_all,
}
use nola.FileCache.Chunks.{
  FileCacheActor, ChunkToRead, new_file_cache_actor, check_range, offset_to_chunk_index,
  chunk_index_to_fetch_range,
}
use nola.FileCache.Covering.{Covers, accepted_range-Covers}
use nola.FileCache.Fetching.{chunk_index_to_fetch_range_lem}
use nola.FileCache.Reading.{
  ReadError, ChunkCache, Run, and_then, slice, copy_n, min_of, store_chunks, fetch_chunks,
  copy_cached, copy_chunk, copy_chunks, written, get_range,
}
use nola.FileCache.Caching.{chunk_of, Reads, Caches, copy_n-eq-ok}
use nola.FileCache.Serving.{
  range_of, get_range-IsServed, Fits, positive, fetch_chunks-Caches, copy_chunk-Post, Covers-le,
  within_file,
}

-- A cache whose calls succeed and which drops nothing.
pub record Retains (c : ChunkCache) : Type 0 where
  pub put_succeeds : (s : c.State) (i : ℕ) (b : Bytes) → (c.put s i b).0 ≡ ok tt
  pub get_succeeds : (s : c.State) (j : ℕ) → (o : Option Bytes) × (c.get s j ≡ ok o)
  pub get-put_same : (s : c.State) (i : ℕ) (b : Bytes) → c.get (c.put s i b).1 i ≡ ok (some b)
  pub get-put_other :
      (s : c.State) (i j : ℕ) (b : Bytes) → j ≢ i → c.get (c.put s i b).1 j ≡ c.get s j

copy_n_succeeds : (r : Bytes) (n : ℕ) → n ≤ length r → copy_n r n ≡ ok (take n r, drop n r)
unfolding copy_n
copy_n_succeeds r n h = ground arith

module _ (c : ChunkCache) where
  abbrev pub Has : ℕ → c.State → Type 0
  Has j s = (v : Bytes) × (c.get s j ≡ ok (some v))

  -- A call succeeds, and the cache then has a property.
  abbrev pub Succeeds : {A : Type 0} → (c.State → Type 0) → Run c A → Type 0
  Succeeds {A} P o = ((a : A) × (o.0 ≡ ok a)) × P o.1

  and_then-Succeeds :
      {A B : Type 0} (P : c.State → Type 0) (x : Run c A) (k : A → c.State → Run c B)
      → ((a : A) × (x.0 ≡ ok a))
      → ((a : A) → x.0 ≡ ok a → Succeeds P (k a x.1))
      → Succeeds P (and_then c x k)
  and_then-Succeeds P (ok a, s) k e h = h a refl
  and_then-Succeeds P (err e, s) k e' h = absurd (cc (e'.1))
  and_then-Succeeds P (panic, s) k e' h = absurd (cc (e'.1))

  module _ (keeps : Retains c) (chunk_size : ℕ) (positive : 0 < chunk_size) where
    put-Has : (s : c.State) (i j : ℕ) (b : Bytes) → Has j s → Has j (c.put s i b).1
    put-Has s i j b (v, had) = elim (ℕ_discrete j i) [
      | yes same ↦ (
        b,
        subst (λ k. c.get (c.put s i b).1 k ≡ ok (some b)) (sym same) (keeps.get-put_same s i b),
      )
      | no other ↦ (v, keeps.get-put_other s i j b other ∙ had)
    ]

    -- The chunks from an index on, as far as something remains, and those that were there before.
    abbrev Filled : c.State → ℕ → ℕ → c.State → Type 0
    Filled s idx remaining t =
        ((j : ℕ) → Has j s → Has j t)
        × ((j : ℕ) → idx ≤ j → j * chunk_size < idx * chunk_size + remaining → Has j t)

    nothing_left : (s : c.State) (idx remaining : ℕ) → remaining ≡ 0 → Filled s idx remaining s
    nothing_left s idx remaining over = (
      λ j had. had,
      λ j le lt. absurd (omega (arith, over, lt, mul-le-mul_right {m = idx} {n = j} chunk_size le)),
    )

    -- A round stores the first chunk; the next ones store the others.
    after_round :
        (s t : c.State) (idx remaining : ℕ) (b : Bytes)
        → Filled (c.put s idx b).1 (idx + 1) (remaining - min_of remaining chunk_size) t
        → Filled s idx remaining t
    after_round s t idx remaining b (kept, filled) = (
      λ j had. kept j (put-Has s idx j b had),
      λ j le lt. elim (ℕ_discrete j idx) [
        | yes same ↦ kept j (
          b,
          subst (λ k. c.get (c.put s idx b).1 k ≡ ok (some b)) (sym same)
              (keeps.get-put_same s idx b),
        )
        | no other ↦
            let later : idx + 1 ≤ j = omega (arith, le, other) in
            let far = mul-le-mul_right {m = idx + 1} {n = j} chunk_size later in
            filled j later (ground (arith, far, lt))
      ],
    )

    store_chunks-Filled :
        (fuel remaining idx : ℕ) (r : Bytes) (s : c.State)
        → remaining ≤ fuel
        → remaining ≤ length r
        → Succeeds (Filled s idx remaining) (store_chunks c fuel chunk_size remaining idx r s)
    unfolding store_chunks
    store_chunks-Filled zero remaining idx r s enough long =
        let over : (remaining == 0) ≡ true = ground (arith, enough) in
        rw over ((tt, refl), nothing_left s idx remaining (omega (arith, enough)))
    store_chunks-Filled (suc fuel) remaining idx r s enough long =
        elim (Bool-cases (remaining == 0)) [
          | inl over ↦ rw over ((tt, refl), nothing_left s idx remaining (ground (arith, over)))
          | inr more ↦
              let n = min_of remaining chunk_size in
              rw more (
                and_then-Succeeds (Filled s idx remaining) (copy_n r n, s) _
                  (_, copy_n_succeeds r n (ground (arith, long)))
                  λ (copied, rest) took.
                    and_then-Succeeds (Filled s idx remaining) (c.put s idx copied) _
                      (tt, keeps.put_succeeds s idx copied)
                      λ _ _.
                        let (_, _, left) = copy_n-eq-ok r n (copied, rest) took in
                        let still : remaining - n ≤ length rest =
                          omega (arith, ap length left, length-drop n r, long) in
                        let (done, filled) =
                          store_chunks-Filled fuel (remaining - n) (idx + 1) rest
                            (c.put s idx copied).1 (ground (arith, enough, more, positive)) still in
                        (done, after_round s _ idx remaining copied filled))
        ]

-- A chunk is as long as the file allows.
pub le-length-chunk_of :
    (c : ℕ) (file : Bytes) (idx end : ℕ)
    → end ≤ c
    → idx * c + end ≤ length file
    → end ≤ length (chunk_of c file idx)
le-length-chunk_of c file idx end within inside =
    let D = drop (idx * c) file in
    let long : end ≤ length D = omega (arith, length-drop (idx * c) file, inside) in
    elim (dec_lt (length D) c) [
      | yes short ↦ omega (arith, ap length (take_all c D (omega (arith, short))), long)
      | no full ↦ omega (arith, length-take c D (omega (arith, full)), within)
    ]

slice_succeeds :
    (chunk : Bytes) (start end : ℕ)
    → start ≤ end
    → end ≤ length chunk
    → (b : Bytes) × (slice chunk start end ≡ ok b)
unfolding slice
slice_succeeds chunk start end le within =
    (take (end - start) (drop start chunk), ground (arith, le, within))

index_le : (c i j : ℕ) → 0 < c → i * c ≤ j * c → i ≤ j
index_le c i j positive h = elim (dec_lt j i) [
  | yes lt ↦
      absurd
        (omega (arith, mul-le-mul_right {m = suc j} {n = i} c (omega (arith, lt)), h, positive))
  | no ge ↦ omega (arith, ge)
]

module _ (c : ChunkCache) (keeps : Retains c) (fetch_range : ℕ → ℕ → Result ReadError Bytes)
    (f : FileCacheActor) (file : Bytes)
    (faithful : (start end : ℕ) (r : Bytes) → fetch_range start end ≡ ok r → Reads file start r)
    (generous : (start end : ℕ)
      → end ≤ f.file_size
      → (r : Bytes) × (fetch_range start end ≡ ok r) × (end - start ≤ length r))
    (size : length file ≡ f.file_size)
    (made : new_file_cache_actor f.file_size f.chunk_size f.fetch_size ≡ ok f) where
  copy_cached-some :
      (x : ChunkToRead) (chunk : Bytes) (missing : c.State → Run c Bytes) (s : c.State)
      → Fits c fetch_range f file faithful size made x
      → chunk ≡ chunk_of f.chunk_size file x.idx
      → (b : Bytes) × ((copy_cached c fetch_range f x (some chunk) missing s).0 ≡ ok b)
  unfolding copy_cached
  copy_cached-some x chunk missing s (nonempty, full, inside) same =
      slice_succeeds chunk x.start x.end (omega (arith, nonempty)) (
        rw same
          (le-length-chunk_of f.chunk_size file x.idx x.end full (omega (arith, inside, size))))

  -- After the fetch for a chunk the cache has it.
  fetch_chunks-Has :
      (idx : ℕ) (s : c.State)
      → idx * f.chunk_size < f.file_size
      → (let (start, end) = chunk_index_to_fetch_range f idx in
          Succeeds c (Has c idx) (fetch_chunks c fetch_range f start end s))
  unfolding fetch_chunks
  fetch_chunks-Has idx s inside =
      let C = f.chunk_size in
      let (start, end) = chunk_index_to_fetch_range f idx in
      let (starts, below, within, holds) =
        chunk_index_to_fetch_range_lem f.file_size C f.fetch_size f idx made inside in
      let first = offset_to_chunk_index f start in
      let least : 0 < C = positive c fetch_range f file faithful size made in
      let (r, got, long) = generous start end within in
      and_then-Succeeds c (Has c idx) (fetch_range start end, s) _ (r, got)
        λ r' got'.
          let same : r ≡ r' = ok-injective (sym got ∙ got') in
          let (done, (_, filled)) =
            store_chunks-Filled c keeps C least (end - start) (end - start) first r' s (omega arith)
              (omega (arith, long, ap length same)) in
          (
            done,
            filled idx (index_le C first idx least (omega (arith, starts, below)))
                (ground (arith, starts, below, holds, inside, least)),
          )

  copy_cached-Succeeds :
      (x : ChunkToRead) (found : Option Bytes) (missing : c.State → Run c Bytes) (s : c.State)
      → Fits c fetch_range f file faithful size made x
      → ((chunk : Bytes) → found ≡ some chunk → chunk ≡ chunk_of f.chunk_size file x.idx)
      → (found ≡ none → Succeeds c (λ _. Unit) (missing s))
      → Succeeds c (λ _. Unit) (copy_cached c fetch_range f x found missing s)
  unfolding copy_cached
  copy_cached-Succeeds x none missing s fits cached h = h refl
  copy_cached-Succeeds x (some chunk) missing s fits cached h =
      (copy_cached-some x chunk missing s fits (cached chunk refl), tt)

  copy_chunk-Succeeds :
      (x : ChunkToRead) (s : c.State)
      → Fits c fetch_range f file faithful size made x
      → Caches c f.chunk_size file s
      → Succeeds c (λ _. Unit) (copy_chunk c fetch_range f x s)
  unfolding copy_chunk
  copy_chunk-Succeeds x s fits before =
      let (start, end) = chunk_index_to_fetch_range f x.idx in
      let inside : x.idx * f.chunk_size < f.file_size = omega (arith, fits) in
      let fetched =
        fetch_chunks-Caches c fetch_range f file faithful size made x.idx s inside before in
      let (done, (v, has)) = fetch_chunks-Has x.idx s inside in
      let s2 = (fetch_chunks c fetch_range f start end s).1 in
      and_then-Succeeds c (λ _. Unit) (c.get s x.idx, s) _ (keeps.get_succeeds s x.idx)
        λ found got.
          copy_cached-Succeeds x found _ s fits (λ chunk e. before x.idx chunk (got ∙ ap ok e))
            λ _.
              and_then-Succeeds c (λ _. Unit) (fetch_chunks c fetch_range f start end s) _ done
                λ _ _.
                  and_then-Succeeds c (λ _. Unit) (c.get s2 x.idx, s2) _
                    (keeps.get_succeeds s2 x.idx)
                    λ found2 got2.
                      copy_cached-Succeeds x found2 _ s2 fits
                        (λ chunk e. fetched x.idx chunk (got2 ∙ ap ok e))
                        λ gone. absurd (cc (ok-injective (sym has ∙ got2), gone))

  written-Succeeds :
      (o : Run c Bytes) (k : c.State → Bytes × Run c (Unit {0}))
      → Succeeds c (λ _. Unit) o
      → (k o.1).1.0 ≡ ok tt
      → (written c fetch_range f o k).1.0 ≡ ok tt
  written-Succeeds (ok b, s) k done h = h
  written-Succeeds (err e, s) k done h = absurd (cc (done.0.1))
  written-Succeeds (panic, s) k done h = absurd (cc (done.0.1))

  copy_chunks_succeeds :
      (l : List ChunkToRead) (pos end : ℕ) (s : c.State)
      → Covers f.chunk_size pos end l
      → end ≤ f.file_size
      → Caches c f.chunk_size file s
      → (copy_chunks c fetch_range f l s).1.0 ≡ ok tt
  unfolding copy_chunks
  copy_chunks_succeeds [] pos end s covers within before = refl
  copy_chunks_succeeds (x ∷ l) pos end s (at, nonempty, full, later) within before =
      let le = Covers-le f.chunk_size (x.idx * f.chunk_size + x.end) end l later in
      let fits : Fits c fetch_range f file faithful size made x =
        (nonempty, full, omega (arith, le, within)) in
      let (after, _) = copy_chunk-Post c fetch_range f file faithful size made x s fits before in
      written-Succeeds (copy_chunk c fetch_range f x s) _ (copy_chunk-Succeeds x s fits before) (
        copy_chunks_succeeds l (x.idx * f.chunk_size + x.end) end (copy_chunk c fetch_range f x s).1
          later within after)

  -- The request for a range that lies in the file, to an actor of the file's size, with a fetcher
  -- that gives the file's bytes from the offset on and enough of them, and a cache whose calls
  -- succeed, that drops nothing, and that has chunks of this file only. It succeeds, and has written
  -- the range.
  pub get_range_serves :
      (start end : ℕ) (s : c.State)
      → check_range f start end ≡ ok tt
      → Caches c f.chunk_size file s
      → ((get_range c fetch_range f start end s).1.0 ≡ ok tt)
        × ((get_range c fetch_range f start end s).0 ≡ range_of file start end)
  unfolding get_range
  get_range_serves start end s accepted before =
      let (l, computed, covers) =
        accepted_range-Covers f.file_size f.chunk_size f.fetch_size f start end made accepted in
      let done : (get_range c fetch_range f start end s).1.0 ≡ ok tt =
        rw (accepted, computed)
          (copy_chunks_succeeds l start end s covers (within_file f start end accepted) before) in
      let (_, all, _) =
        get_range-IsServed c fetch_range f file faithful size made start end s accepted before in
      (done, all done)

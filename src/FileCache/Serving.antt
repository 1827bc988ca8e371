-- ===== src/FileCache/Serving.antt =====
-- What a request for a range writes is the range of the file: `getRange` and `copyChunk` of
-- examples/file_cache/file_cache.go.
use nola.Base.{
  ℕ, ◌+◌, ◌-◌, ◌*◌, ◌≤◌, ◌<◌, ◌≡◌, inl, inr, refl, sym, ap, subst, ◌∙◌, Option, none, some, List,
  [], ◌∷◌, ◌++◌, Bytes, length, take, drop, Result, ok, err, panic, arith, take-take, drop-take,
  drop-drop, take-add,
}
use mathlib.Core.List.{append_assoc}
use nola.FileCache.Chunks.{
  FileCacheActor, ChunkToRead, new_file_cache_actor, check_range, offset_to_chunk_index,
  chunk_index_to_fetch_range,
}
use nola.FileCache.Covering.{Covers, accepted_range-Covers}
use nola.FileCache.Fetching.{chunk_index_to_fetch_range_lem, fetched_chunks}
use nola.FileCache.Reading.{
  ReadError, ChunkCache, Run, and_then, slice, fetch_chunks, copy_cached, copy_chunk, copy_chunks,
  written, get_range,
}
use nola.FileCache.Caching.{chunk_of, Reads, IsAligned, Caches, store_chunks-Caches}

-- Bytes `start` to `end` of a file.
abbrev pub range_of : Bytes → ℕ → ℕ → Bytes
range_of file start end = take (end - start) (drop start file)

slice-eq-ok :
    (chunk v : Bytes) (start end : ℕ)
    → slice chunk start end ≡ ok v
    → v ≡ take (end - start) (drop start chunk)
unfolding slice
slice-eq-ok chunk v start end h = ground arith

-- A slice of a chunk is a range of the file.
pub slice_of_chunk :
    (c : ℕ) (file : Bytes) (j start end : ℕ)
    → start ≤ end
    → end ≤ c
    → take (end - start) (drop start (chunk_of c file j))
      ≡ range_of file (j * c + start) (j * c + end)
slice_of_chunk c file j start end le within =
    let whole : c ≡ start + (c - start) = omega (arith, le, within) in
    let far : end - start ≤ c - start = omega (arith, within) in
    let long : end - start ≡ j * c + end - (j * c + start) = omega arith in
    ap (λ n. take (end - start) (drop start (take n (drop (j * c) file)))) whole
    ∙ ap (take (end - start)) (drop-take start (c - start) (drop (j * c) file))
    ∙ take-take (end - start) (c - start) (drop start (drop (j * c) file)) far
    ∙ ap (take (end - start)) (drop-drop (j * c) start file)
    ∙ ap (λ n. take n (drop (j * c + start) file)) long

-- The file ends a range in two.
pub range-append :
    (file : Bytes) (a b e : ℕ)
    → a ≤ b
    → b ≤ e
    → range_of file a b ++ range_of file b e ≡ range_of file a e
range-append file a b e le le' =
    let there : b ≡ a + (b - a) = omega (arith, le) in
    let both : b - a + (e - b) ≡ e - a = omega (arith, le, le') in
    ap (λ n. range_of file a b ++ take (e - b) (drop n file)) there
    ∙ ap (λ l. range_of file a b ++ take (e - b) l) (sym (drop-drop a (b - a) file))
    ∙ take-add (b - a) (e - b) (drop a file)
    ∙ ap (λ n. take n (drop a file)) both

pub Covers-le : (c pos end : ℕ) (l : List ChunkToRead) → Covers c pos end l → pos ≤ end
Covers-le c pos end [] covers = omega (arith, covers)
Covers-le c pos end (x ∷ l) (at, nonempty, full, later) =
    omega (arith, at, nonempty, Covers-le c (x.idx * c + x.end) end l later)

pub within_file :
    (f : FileCacheActor) (start end : ℕ) → check_range f start end ≡ ok tt → end ≤ f.file_size
unfolding check_range
within_file f start end accepted = ground (arith, accepted)

module _ (c : ChunkCache) where
  -- The cache has a property after a call, and its result has another if it succeeds.
  abbrev pub Post : {A : Type 0} → (c.State → Type 0) → (A → Type 0) → Run c A → Type 0
  Post {A} P T o = P o.1 × ((a : A) → o.0 ≡ ok a → T a)

  and_then-Post :
      {A B : Type 0} (P : c.State → Type 0) (T : B → Type 0) (x : Run c A)
      (k : A → c.State → Run c B)
      → P x.1
      → ((a : A) → x.0 ≡ ok a → Post P T (k a x.1))
      → Post P T (and_then c x k)
  and_then-Post P T (ok a, s) k p h = h a refl
  and_then-Post P T (err e, s) k p h = (p, λ a e'. absurd (cc))
  and_then-Post P T (panic, s) k p h = (p, λ a e'. absurd (cc))

  -- What has been written is the beginning of some bytes, and all of them if the call succeeds.
  abbrev pub IsServed : (c.State → Type 0) → Bytes → Bytes × Run c (Unit {0}) → Type 0
  IsServed P bytes o =
      ((rest : Bytes) × (o.0 ++ rest ≡ bytes)) × (o.1.0 ≡ ok tt → o.0 ≡ bytes) × P o.1.1

  module _ (fetch_range : ℕ → ℕ → Result ReadError Bytes) (f : FileCacheActor) (file : Bytes)
      (faithful : (start end : ℕ) (r : Bytes) → fetch_range start end ≡ ok r → Reads file start r)
      (size : length file ≡ f.file_size)
      (made : new_file_cache_actor f.file_size f.chunk_size f.fetch_size ≡ ok f) where
    pub positive : 0 < f.chunk_size
    unfolding new_file_cache_actor
    positive = ground (arith, made)

    pub fetch_chunks-Caches :
        (idx : ℕ) (s : c.State)
        → idx * f.chunk_size < f.file_size
        → Caches c f.chunk_size file s
        → (let (start, end) = chunk_index_to_fetch_range f idx in
            Caches c f.chunk_size file (fetch_chunks c fetch_range f start end s).1)
    unfolding fetch_chunks
    fetch_chunks-Caches idx s inside before =
        let (start, end) = chunk_index_to_fetch_range f idx in
        let (starts, _, _, _) =
          chunk_index_to_fetch_range_lem f.file_size f.chunk_size f.fetch_size f idx made inside in
        let first = offset_to_chunk_index f start in
        let ends = fetched_chunks f.file_size f.chunk_size f.fetch_size f idx made inside in
        let aligned : IsAligned f.chunk_size file first (end - start) = elim ends [
          | inl whole ↦ inl (ap (λ n. n + (end - start)) starts ∙ whole ∙ sym size)
          | inr chunks ↦ inr chunks
        ] in
        (and_then-Post (Caches c f.chunk_size file) (λ _. Unit) (fetch_range start end, s) _ before
          λ r got. (
            store_chunks-Caches c f.chunk_size file (end - start) (end - start) first r s positive
                (subst (λ n. Reads file n r) (sym starts) (faithful start end r got)) aligned
                before,
            λ _ _. tt,
          )).0

    -- A chunk that is read lies in the file.
    abbrev pub Fits : ChunkToRead → Type 0
    Fits x =
        (x.start < x.end) × (x.end ≤ f.chunk_size) × (x.idx * f.chunk_size + x.end ≤ f.file_size)

    abbrev pub IsPart : ChunkToRead → Bytes → Type 0
    IsPart x b = b ≡ range_of file (x.idx * f.chunk_size + x.start) (x.idx * f.chunk_size + x.end)

    copy_cached-Post :
        (x : ChunkToRead) (found : Option Bytes) (missing : c.State → Run c Bytes) (s : c.State)
        → Fits x
        → Caches c f.chunk_size file s
        → ((chunk : Bytes) → found ≡ some chunk → chunk ≡ chunk_of f.chunk_size file x.idx)
        → Post (Caches c f.chunk_size file) (IsPart x) (missing s)
        → Post
            (Caches c f.chunk_size file)
            (IsPart x)
            (copy_cached c fetch_range f x found missing s)
    unfolding copy_cached
    copy_cached-Post x none missing s fits before cached h = h
    copy_cached-Post x (some chunk) missing s fits before cached h = (
      before,
      λ b e.
          slice-eq-ok chunk b x.start x.end e
          ∙ ap (λ k. take (x.end - x.start) (drop x.start k)) (cached chunk refl)
          ∙ slice_of_chunk f.chunk_size file x.idx x.start x.end (omega (arith, fits.0)) fits.1,
    )

    pub copy_chunk-Post :
        (x : ChunkToRead) (s : c.State)
        → Fits x
        → Caches c f.chunk_size file s
        → Post (Caches c f.chunk_size file) (IsPart x) (copy_chunk c fetch_range f x s)
    unfolding copy_chunk
    copy_chunk-Post x s fits before =
        let P = Caches c f.chunk_size file in
        let (start, end) = chunk_index_to_fetch_range f x.idx in
        let fetched = fetch_chunks-Caches x.idx s (omega (arith, fits)) before in
        and_then-Post P (IsPart x) (c.get s x.idx, s) _ before
          λ found got.
            copy_cached-Post x found _ s fits before (λ chunk e. before x.idx chunk (got ∙ ap ok e))
              (and_then-Post P (IsPart x) (fetch_chunks c fetch_range f start end s) _ fetched
                λ _ _.
                  let s2 = (fetch_chunks c fetch_range f start end s).1 in
                  and_then-Post P (IsPart x) (c.get s2 x.idx, s2) _ fetched
                    λ found2 got2.
                      copy_cached-Post x found2 _ s2 fits fetched
                        (λ chunk e. fetched x.idx chunk (got2 ∙ ap ok e))
                        (fetched, λ b e. absurd (cc)))

    written-IsServed :
        (P : c.State → Type 0) (part rest : Bytes) (o : Run c Bytes)
        (k : c.State → Bytes × Run c (Unit {0}))
        → P o.1
        → ((b : Bytes) → o.0 ≡ ok b → b ≡ part)
        → ((b : Bytes) → o.0 ≡ ok b → IsServed P rest (k o.1))
        → IsServed P (part ++ rest) (written c fetch_range f o k)
    written-IsServed P part rest (ok b, s) k p is_part h =
        let is_b = is_part b refl in
        let ((more, begins), all, after) = h b refl in
        (
          (more, append_assoc b (k s).0 more ∙ ap (λ l. b ++ l) begins ∙ ap (λ l. l ++ rest) is_b),
          λ done. ap (λ l. b ++ l) (all done) ∙ ap (λ l. l ++ rest) is_b,
          after,
        )
    written-IsServed P part rest (err e, s) k p is_part h =
        ((part ++ rest, refl), λ e'. absurd (cc), p)
    written-IsServed P part rest (panic, s) k p is_part h =
        ((part ++ rest, refl), λ e'. absurd (cc), p)

    copy_chunks-IsServed :
        (l : List ChunkToRead) (pos end : ℕ) (s : c.State)
        → Covers f.chunk_size pos end l
        → end ≤ f.file_size
        → Caches c f.chunk_size file s
        → IsServed
            (Caches c f.chunk_size file)
            (range_of file pos end)
            (copy_chunks c fetch_range f l s)
    unfolding copy_chunks
    copy_chunks-IsServed [] pos end s covers within before =
        let none_left : [] ≡ range_of file pos end =
          ap (λ n. take n (drop pos file)) (let e : 0 ≡ end - pos = omega (arith, covers) in e) in
        ((range_of file pos end, refl), λ _. none_left, before)
    copy_chunks-IsServed (x ∷ l) pos end s covers within before =
        let (at, nonempty, full, later) = covers in
        let le : x.idx * f.chunk_size + x.end ≤ end = Covers-le f.chunk_size _ end l later in
        let (after, is_part) =
          copy_chunk-Post x s (nonempty, full, omega (arith, le, within)) before in
        let joined =
          range-append file (x.idx * f.chunk_size + x.start) (x.idx * f.chunk_size + x.end) end
            (omega (arith, nonempty)) le
          ∙ ap (λ n. range_of file n end) at in
        subst
          (λ bytes.
            IsServed (Caches c f.chunk_size file) bytes (copy_chunks c fetch_range f (x ∷ l) s))
          joined
          (written-IsServed (Caches c f.chunk_size file) _ _ (copy_chunk c fetch_range f x s) _
            after is_part
            λ b _.
              copy_chunks-IsServed l _ end (copy_chunk c fetch_range f x s).1 later within after)

    -- The request for a range, to an actor of a file's size, with a fetcher that gives the file's
    -- bytes from the offset on, and a cache that has chunks of this file only. Whether it succeeds or
    -- fails on the way, what it writes is the beginning of the range of the file; if it succeeds, it
    -- has written the range; and the cache goes on to have chunks of this file only.
    pub get_range-IsServed :
        (start end : ℕ) (s : c.State)
        → check_range f start end ≡ ok tt
        → Caches c f.chunk_size file s
        → IsServed
            (Caches c f.chunk_size file)
            (range_of file start end)
            (get_range c fetch_range f start end s)
    unfolding get_range
    get_range-IsServed start end s accepted before =
        let (l, computed, covers) =
          accepted_range-Covers f.file_size f.chunk_size f.fetch_size f start end made accepted in
        rw (accepted, computed)
          (copy_chunks-IsServed l start end s covers (within_file f start end accepted) before)

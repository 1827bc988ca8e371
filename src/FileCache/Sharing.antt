-- ===== src/FileCache/Sharing.antt =====
-- Chunks that are in the cache: `copyChunk` of examples/file_cache/file_cache.go. The cache is the
-- module's, for the actors of all its files, and knows a chunk by its index only.
use nola.Base.{
  ℕ, ◌+◌, ◌-◌, ◌*◌, ◌≤◌, ◌<◌, ◌≡◌, refl, ap, some, List, [], ◌∷◌, Bytes, length, Result, ok, arith,
  leb, ◌&&◌, true,
}
use nola.FileCache.Chunks.{FileCacheActor, ChunkToRead, new_file_cache_actor, check_range}
use nola.FileCache.Covering.{Covers, accepted_range-Covers}
use nola.FileCache.Reading.{ReadError, ChunkCache, slice, copy_chunk, copy_chunks, get_range}
use nola.FileCache.Caching.{chunk_of}
use nola.FileCache.Serving.{range_of, Covers-le, within_file, slice_of_chunk, range-append}
use nola.FileCache.Succeeding.{le-length-chunk_of}

module _ (c : ChunkCache) (fetch_range : ℕ → ℕ → Result ReadError Bytes) (f : FileCacheActor)
    (file : Bytes) (size : length file ≡ f.file_size)
    (made : new_file_cache_actor f.file_size f.chunk_size f.fetch_size ≡ ok f) where
  -- The cache has the chunks of a file that begin before an offset.
  abbrev pub HoldsUpTo : ℕ → c.State → Type 0
  HoldsUpTo end s =
      (j : ℕ) → j * f.chunk_size < end → c.get s j ≡ ok (some (chunk_of f.chunk_size file j))

  slice_chunk_lem :
      (idx start end : ℕ)
      → start < end
      → end ≤ f.chunk_size
      → idx * f.chunk_size + end ≤ f.file_size
      → slice (chunk_of f.chunk_size file idx) start end
        ≡ ok (range_of file (idx * f.chunk_size + start) (idx * f.chunk_size + end))
  unfolding slice
  slice_chunk_lem idx start end nonempty full inside =
      let long = le-length-chunk_of f.chunk_size file idx end full (omega (arith, inside, size)) in
      let good : (leb start end && leb end (length (chunk_of f.chunk_size file idx))) ≡ true =
        ground (arith, nonempty, long) in
      rw good
        (ap ok (slice_of_chunk f.chunk_size file idx start end (omega (arith, nonempty)) full))

  copy_chunk_hit :
      (x : ChunkToRead) (s : c.State)
      → c.get s x.idx ≡ ok (some (chunk_of f.chunk_size file x.idx))
      → x.start < x.end
      → x.end ≤ f.chunk_size
      → x.idx * f.chunk_size + x.end ≤ f.file_size
      → copy_chunk c fetch_range f x s
        ≡ (ok (range_of file (x.idx * f.chunk_size + x.start) (x.idx * f.chunk_size + x.end)), s)
  unfolding copy_chunk
  copy_chunk_hit x s hit nonempty full inside =
      rw (hit, slice_chunk_lem x.idx x.start x.end nonempty full inside) refl

  copy_chunks_hit :
      (l : List ChunkToRead) (pos end : ℕ) (s : c.State)
      → Covers f.chunk_size pos end l
      → end ≤ f.file_size
      → HoldsUpTo end s
      → copy_chunks c fetch_range f l s ≡ (range_of file pos end, (ok tt, s))
  unfolding copy_chunks
  copy_chunks_hit [] pos end s covers within hold =
      let empty : end - pos ≡ 0 = omega (arith, covers) in rw empty refl
  copy_chunks_hit (x ∷ l) pos end s (at, nonempty, full, later) within hold =
      let mid = x.idx * f.chunk_size + x.end in
      let le = Covers-le f.chunk_size mid end l later in
      rw
        (
          copy_chunk_hit x s (hold x.idx (omega (arith, nonempty, le))) nonempty full
              (omega (arith, le, within)),
          copy_chunks_hit l mid end s later within hold,
          range-append file (x.idx * f.chunk_size + x.start) mid end (omega (arith, nonempty)) le,
          at,
        )
        refl

  -- An accepted request for a range whose chunks the cache has, of whichever file of the actor's
  -- size, writes the range of that file, whatever the fetcher would give, and leaves the cache.
  pub get_range_hit :
      (start end : ℕ) (s : c.State)
      → check_range f start end ≡ ok tt
      → HoldsUpTo end s
      → get_range c fetch_range f start end s ≡ (range_of file start end, (ok tt, s))
  unfolding get_range
  get_range_hit start end s accepted hold =
      let (l, computed, covers) =
        accepted_range-Covers f.file_size f.chunk_size f.fetch_size f start end made accepted in
      rw (accepted, computed)
        (copy_chunks_hit l start end s covers (within_file f start end accepted) hold)

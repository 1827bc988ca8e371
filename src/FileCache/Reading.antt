-- ===== src/FileCache/Reading.antt =====
-- `copyChunk`, `getRange` and the request `getRange` of `InvokeStream`
-- (examples/file_cache/file_cache.go), with the cache and the fetcher as parameters. A reader is the
-- bytes that it gives before its end or its first error.
use nola.Base.{
  ℕ, zero, suc, ◌+◌, ◌-◌, ◌≡◌, ◌⊎◌, Option, none, some, List, [], ◌∷◌, ◌++◌, Bytes, length, take,
  drop, Result, ok, err, panic, if◌then◌else◌, ltb, leb, ◌==◌, ◌&&◌,
}
use nola.FileCache.Chunks.{
  FileCacheActor, ChunkToRead, check_range, FileCacheError, range_to_chunk_indexes,
  offset_to_chunk_index, chunk_index_to_fetch_range,
}

pub data ReadError : Type 0 where
  invalid_request cache_failed fetch_failed short_fetch missing_chunk : ReadError

-- `ChunkCache`. A `Put` that fails may have changed the cache. The law: what a cache answers after a
-- `Put` is what was put, or what it answered before; it may have dropped any chunk.
pub record ChunkCache : Type 1 where
  pub State : Type 0
  pub get : State → ℕ → Result ReadError (Option Bytes)
  pub put : State → ℕ → Bytes → Result ReadError (Unit {0}) × State
  pub get-put :
      (s : State) (i : ℕ) (b : Bytes) (j : ℕ) (v : Bytes)
      → get (put s i b).1 j ≡ ok (some v)
      → ((j ≡ i) × (v ≡ b)) ⊎ (get s j ≡ ok (some v))

-- `io.CopyN`: the bytes copied, and the rest of the reader.
unfoldable pub copy_n : Bytes → ℕ → Result ReadError (Bytes × Bytes)
copy_n r n = if ltb (length r) n then err short_fetch else ok (take n r, drop n r)

-- `chunk[start:end]` within the length of the chunk.
unfoldable pub slice : Bytes → ℕ → ℕ → Result ReadError Bytes
slice chunk start end =
    if leb start end && leb end (length chunk)
    then ok (take (end - start) (drop start chunk))
    else panic

abbrev pub min_of : ℕ → ℕ → ℕ
min_of a b = if ltb b a then b else a

module _ (c : ChunkCache) where
  -- What a call has come to, and the cache after it.
  abbrev pub Run : Type 0 → Type 0
  Run A = Result ReadError A × c.State

  -- The rest of a call, after a part of it.
  abbrev pub and_then : {A B : Type 0} → Run A → (A → c.State → Run B) → Run B
  and_then (ok a, s) k = k a s
  and_then (err e, s) k = (err e, s)
  and_then (panic, s) k = (panic, s)

  -- The loop that stores what was fetched, with `remaining` as fuel.
  unfoldable pub store_chunks : ℕ → ℕ → ℕ → ℕ → Bytes → c.State → Run (Unit {0})
  unfolding copy_n
  store_chunks zero chunk_size remaining idx r s = if remaining == 0 then (ok tt, s) else (panic, s)
  store_chunks (suc fuel) chunk_size remaining idx r s =
      let to_copy = min_of remaining chunk_size in
      let next =
        and_then (copy_n r to_copy, s)
          λ (copied, rest) s1.
            and_then (c.put s1 idx copied)
              λ _ s2. store_chunks fuel chunk_size (remaining - to_copy) (idx + 1) rest s2 in
      if remaining == 0 then (ok tt, s) else next

  module _ (fetch_range : ℕ → ℕ → Result ReadError Bytes) (f : FileCacheActor) where
    -- The function that `fetchDeduper` runs.
    unfoldable pub fetch_chunks : ℕ → ℕ → c.State → Run (Unit {0})
    fetch_chunks start end s =
        and_then (fetch_range start end, s)
          λ r s1.
            store_chunks (end - start) f.chunk_size (end - start) (offset_to_chunk_index f start) r
              s1

    -- The bytes that `copyChunk` writes.
    unfoldable pub copy_cached :
        ChunkToRead → Option Bytes → (c.State → Run Bytes) → c.State → Run Bytes
    copy_cached to_read (some chunk) missing s = (slice chunk to_read.start to_read.end, s)
    copy_cached to_read none missing s = missing s

    unfoldable pub copy_chunk : ChunkToRead → c.State → Run Bytes
    unfolding fetch_chunks copy_cached
    copy_chunk to_read s =
        and_then (c.get s to_read.idx, s)
          λ found. copy_cached to_read found λ s1.
            let (start, end) = chunk_index_to_fetch_range f to_read.idx in
            and_then (fetch_chunks start end s1) λ _ s2.
              and_then (c.get s2 to_read.idx, s2)
                λ found2. copy_cached to_read found2 λ s3. (err missing_chunk, s3)

    -- What the chunks of a range write, how it ends, and the cache after it.
    abbrev pub written : Run Bytes → (c.State → Bytes × Run (Unit {0})) → Bytes × Run (Unit {0})
    written (ok b, s) k = let (w, r) = k s in (b ++ w, r)
    written (err e, s) k = ([], (err e, s))
    written (panic, s) k = ([], (panic, s))

    unfoldable pub copy_chunks : List ChunkToRead → c.State → Bytes × Run (Unit {0})
    copy_chunks [] s = ([], (ok tt, s))
    copy_chunks (x ∷ l) s = written (copy_chunk x s) λ t. copy_chunks l t

    abbrev pub copy_all : Option (List ChunkToRead) → c.State → Bytes × Run (Unit {0})
    copy_all none s = ([], (panic, s))
    copy_all (some l) s = copy_chunks l s

    -- A request that is refused writes nothing.
    abbrev pub if_accepted :
        Result FileCacheError (Unit {0})
        → Option (List ChunkToRead)
        → c.State
        → Bytes × Run (Unit {0})
    if_accepted (ok _) l s = copy_all l s
    if_accepted (err _) l s = ([], (err invalid_request, s))
    if_accepted panic l s = ([], (panic, s))

    unfoldable pub get_range : ℕ → ℕ → c.State → Bytes × Run (Unit {0})
    get_range start end s =
        if_accepted (check_range f start end) (range_to_chunk_indexes f start end) s

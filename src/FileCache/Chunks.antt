-- ===== src/FileCache/Chunks.antt =====
-- The chunks of a range: `NewFileCacheActor`, the guard of `InvokeStream`, `rangeToChunkIndexes`,
-- `offsetToChunkIndex` and `chunkIndexToFetchRange` of examples/file_cache/file_cache.go.
use nola.Base.{
  ℕ, zero, suc, ◌+◌, ◌-◌, ◌*◌, ◌/◌, ◌%◌, ◌||◌, not, Option, none, some, List, [], ◌∷◌, Result, ok,
  err, panic, if◌then◌else◌, ltb, leb, ◌==◌,
}

pub data FileCacheError : Type 0 where
  does_not_divide : FileCacheError
  invalid_range : FileCacheError

-- `FileCacheActor`, its constants.
pub record FileCacheActor : Type 0 where
  pub file_size : ℕ
  pub chunk_size : ℕ
  pub fetch_size : ℕ

-- A chunk size of zero divides by zero.
unfoldable pub new_file_cache_actor : ℕ → ℕ → ℕ → Result FileCacheError FileCacheActor
new_file_cache_actor file_size chunk_size fetch_size =
    if chunk_size == 0
    then panic
    else if not (fetch_size % chunk_size == 0) || ltb fetch_size chunk_size
    then err FileCacheError.does_not_divide
    else ok (record { file_size = file_size; chunk_size = chunk_size; fetch_size = fetch_size })

-- The guard of `getRange` in `InvokeStream`.
unfoldable pub check_range : FileCacheActor → ℕ → ℕ → Result FileCacheError (Unit {0})
check_range f start_offset end_offset =
    if leb end_offset start_offset || ltb f.file_size end_offset
    then err FileCacheError.invalid_range
    else ok tt

-- `chunkToRead`.
pub record ChunkToRead : Type 0 where
  pub idx : ℕ
  pub start : ℕ
  pub end : ℕ

-- The chunk of the first iteration.
unfoldable pub first_chunk : ℕ → ℕ → ℕ → ChunkToRead
first_chunk chunk_size curr remaining = record {
  idx = curr / chunk_size;
  start = curr % chunk_size;
  end =
      if ltb (curr % chunk_size + remaining) chunk_size
      then curr % chunk_size + remaining
      else chunk_size;
}

abbrev whole_chunk : ℕ → ℕ → ChunkToRead
whole_chunk chunk_size curr = record { idx = curr / chunk_size; start = 0; end = chunk_size }

abbrev pub prepend : ChunkToRead → Option (List ChunkToRead) → Option (List ChunkToRead)
prepend x none = none
prepend x (some l) = some (x ∷ l)

-- The later iterations, at most as many as the fuel says. A `remaining` below zero ends the loop as
-- zero does.
unfoldable pub later_chunks : ℕ → ℕ → ℕ → ℕ → Option (List ChunkToRead)
later_chunks zero chunk_size curr remaining = if leb remaining 0 then some [] else none
later_chunks (suc fuel) chunk_size curr remaining =
    let rest = later_chunks fuel chunk_size (curr + chunk_size) (remaining - chunk_size) in
    if leb remaining 0 then some [] else prepend (whole_chunk chunk_size curr) rest

-- The end of the last chunk.
unfoldable pub cut_chunk : ℕ → ℕ → ChunkToRead → ChunkToRead
cut_chunk chunk_size end last =
    if ltb end (chunk_size * (last.idx + 1))
    then record last { end = end - last.idx * chunk_size }
    else last

unfoldable pub cut_last : ℕ → ℕ → List ChunkToRead → List ChunkToRead
cut_last chunk_size end [] = []
cut_last chunk_size end (x ∷ []) = cut_chunk chunk_size end x ∷ []
cut_last chunk_size end (x ∷ y ∷ l) = x ∷ cut_last chunk_size end (y ∷ l)

abbrev pub cut_all : ℕ → ℕ → Option (List ChunkToRead) → Option (List ChunkToRead)
cut_all chunk_size end none = none
cut_all chunk_size end (some l) = some (cut_last chunk_size end l)

-- `none` where the call panics: on a chunk size of zero, and on an empty range, which has no last
-- chunk. Each iteration takes a byte at least, so that the bytes of the range are fuel enough.
unfoldable pub range_to_chunk_indexes : FileCacheActor → ℕ → ℕ → Option (List ChunkToRead)
range_to_chunk_indexes f start end =
    let first = first_chunk f.chunk_size start (end - start) in
    let later =
      later_chunks (end - start) f.chunk_size (start + f.chunk_size)
        (end - start - (first.end - first.start)) in
    if leb (end - start) 0 || f.chunk_size == 0
    then none
    else cut_all f.chunk_size end (prepend first later)

unfoldable pub offset_to_chunk_index : FileCacheActor → ℕ → ℕ
offset_to_chunk_index f offset = offset / f.chunk_size

unfoldable pub chunk_index_to_fetch_range : FileCacheActor → ℕ → ℕ × ℕ
chunk_index_to_fetch_range f idx =
    let start = idx * f.chunk_size / f.fetch_size * f.fetch_size in
    (start, if ltb f.file_size (start + f.fetch_size) then f.file_size else start + f.fetch_size)

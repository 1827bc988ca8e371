-- ===== src/FileCache.antt =====
-- The file cache actor: examples/file_cache/file_cache.go. Which chunks a request for a range of
-- bytes reads. Sizes and offsets are not negative, and small enough that no sum wraps around.
pub mod Chunks
pub mod Covering
pub mod Fetching
pub mod Reading
pub mod Caching
pub mod Serving
pub mod Succeeding
pub mod Sharing
pub mod Tests

-- ===== src/LocalKv.antt =====
-- The in-memory store: virtual/registry/localregistry/local_kv.go. The tree is that of the package
-- google/btree, taken as a parameter with what its documentation promises.
pub mod Order
pub mod Store
pub mod Prefix
pub mod Transactions
pub mod Sorted
pub mod Tests

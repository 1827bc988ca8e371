-- ===== src/Registry/Keys.antt =====
-- The keys of different records differ: laws of the key functions of
-- virtual/registry/kv_registry.go.
use nola.Base.{◌≡◌, ◌≢◌, String, [], ◌∷◌, Bytes, has_prefix, true}
use nola.Registry.State.{Deps, text, actor_key, actor_kv_key, server_key, servers_prefix}

module _ (d : Deps) where
  pub actor_key-injective :
      (n a m n' a' m' : String)
      → actor_key d n a m ≡ actor_key d n' a' m'
      → (n ≡ n') × (a ≡ a') × (m ≡ m')
  unfolding actor_key
  actor_key-injective n a m n' a' m' e =
      let same = d.pack-injective _ _ e in (cc same, cc same, cc same)

  pub server_key-injective : (a b : String) → server_key d a ≡ server_key d b → a ≡ b
  unfolding server_key
  server_key-injective a b e = let same = d.pack-injective _ _ e in cc same

  pub actor_kv_key-injective :
      (n a m n' a' m' : String) (k k' : Bytes)
      → actor_kv_key d n a m k ≡ actor_kv_key d n' a' m' k'
      → (n ≡ n') × (a ≡ a') × (m ≡ m') × (k ≡ k')
  unfolding actor_kv_key
  actor_kv_key-injective n a m n' a' m' k k' e =
      let same = d.pack-injective _ _ e in (cc same, cc same, cc same, cc same)

  pub server_key-ne-actor_key : (x n a m : String) → server_key d x ≢ actor_key d n a m
  unfolding server_key actor_key
  server_key-ne-actor_key x n a m e = let same = d.pack-injective _ _ e in cc same

  pub actor_kv_key-ne-actor_key :
      (n a m : String) (k : Bytes) (n' a' m' : String)
      → actor_kv_key d n a m k ≢ actor_key d n' a' m'
  unfolding actor_kv_key actor_key
  actor_kv_key-ne-actor_key n a m k n' a' m' e = let same = d.pack-injective _ _ e in cc same

  pub actor_kv_key-ne-server_key :
      (n a m : String) (k : Bytes) (x : String) → actor_kv_key d n a m k ≢ server_key d x
  unfolding actor_kv_key server_key
  actor_kv_key-ne-server_key n a m k x e = let same = d.pack-injective _ _ e in cc same

  -- `IterPrefix` over the servers meets every server's key.
  pub has_prefix-server_key : (x : String) → has_prefix (server_key d x) (servers_prefix d) ≡ true
  unfolding server_key servers_prefix
  has_prefix-server_key x = d.pack-append (text "servers" ∷ []) (text x ∷ [])

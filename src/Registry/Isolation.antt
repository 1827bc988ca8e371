-- ===== src/Registry/Isolation.antt =====
-- One actor's storage and record apart from all others: the keys of `kvTransaction` and
-- `IncGeneration` (virtual/registry/kv_registry.go).
use nola.Base.{
  ◌⊎◌, inl, inr, ◌≡◌, ◌≢◌, sym, ap, ◌∙◌, ◌+◌, ◌%◌, String, some, ok, Bytes, arith, from_bind,
  ok-injective, or_fail-eq-ok,
}
use nola.Types.{Error}
use nola.Registry.State.{Deps, RegisteredActor, actor_key, actor_kv_key}
use nola.Registry.Servers.{word, read_server}
use nola.Registry.Actors.{get_actor, inc_generation}
use nola.Registry.Storage.{ActorTransaction, tr_get, tr_put}
use nola.Registry.Keys.{
  actor_key-injective, actor_kv_key-injective, actor_kv_key-ne-actor_key,
  actor_kv_key-ne-server_key,
}
use nola.Registry.Records.{
  PutNeverFails, put-unchecked, get_actor-unchecked_ne, get-put_self, get-put_ne, get_actor-put,
  get_actor-put_ne, read_server-put_ne,
}

module _ (d : Deps) (tr : ActorTransaction) (key value : Bytes) (s t : d.kv.State)
    (h : tr_put d tr key value s ≡ ok t) where
  -- A value that an actor has put is what it gets at that key.
  pub tr_get-tr_put : tr_get d tr key t ≡ ok (some value)
  unfolding tr_get tr_put
  tr_get-tr_put = get-put_self d s _ value t h

  -- A put of one actor changes what no other actor, of any namespace or module, gets at any key,
  -- what the actor itself gets at another key, no actor's record and no server's.
  pub tr_put_isolated :
      (other : ActorTransaction) (j : Bytes) (namespace actor_id module_id server_id : String)
      → (other ≢ tr) ⊎ (j ≢ key)
      → (tr_get d other j t ≡ tr_get d other j s)
        × (get_actor d t (actor_key d namespace actor_id module_id)
            ≡ get_actor d s (actor_key d namespace actor_id module_id))
        × (read_server d t server_id ≡ read_server d s server_id)
  unfolding tr_get tr_put
  tr_put_isolated other j namespace actor_id module_id server_id apart = (
    get-put_ne d s _ value t _ h (keys_apart apart),
    get_actor-put_ne d s _ value t _ h (actor_kv_key-ne-actor_key d _ _ _ key _ _ _),
    read_server-put_ne d s _ value t server_id h (actor_kv_key-ne-server_key d _ _ _ key _),
  )
    where
      keys_apart :
          (other ≢ tr) ⊎ (j ≢ key)
          → actor_kv_key d tr.namespace tr.actor_id tr.module_id key
            ≢ actor_kv_key d other.namespace other.actor_id other.module_id j
      keys_apart (inl ne) e =
          let (n, a, m, k) = actor_kv_key-injective d _ _ _ _ _ _ _ _ e in
          ne (λ i. record { namespace = sym n i; actor_id = sym a i; module_id = sym m i })
      keys_apart (inr ne) e =
          let (n, a, m, k) = actor_kv_key-injective d _ _ _ _ _ _ _ _ e in ne (sym k)

-- Over a store whose puts do not fail, `IncGeneration` makes the generation of the actor's record the next `uint64` and leaves the rest
-- of the record, and the records of all other actors.
pub inc_generation_lem :
    (d : Deps) (namespace actor_id module_id namespace' actor_id' module_id' : String)
    (s t : d.kv.State) (ra : RegisteredActor)
    → PutNeverFails d
    → inc_generation d namespace actor_id module_id s ≡ ok t
    → get_actor d s (actor_key d namespace actor_id module_id) ≡ ok (some ra)
    → (namespace' ≢ namespace) ⊎ (actor_id' ≢ actor_id) ⊎ (module_id' ≢ module_id)
    → (get_actor d t (actor_key d namespace actor_id module_id)
        ≡ ok (some (record ra { generation = (ra.generation + 1) % word })))
      × (get_actor d t (actor_key d namespace' actor_id' module_id')
          ≡ get_actor d s (actor_key d namespace' actor_id' module_id'))
unfolding inc_generation
inc_generation_lem d n a m n' a' m' s t ra never h known apart = from_bind _ _ h λ found e h1.
    from_bind _ _ h1 λ ra' e1 h2. from_bind _ _ h2 λ v e2 h3.
      let same : ra' ≡ ra =
        ground (arith, or_fail-eq-ok found Error.no_actor e1, ok-injective (sym e ∙ known)) in
      (
        get_actor-put d s _ _ v t e2 (put-unchecked d never s _ v t h3)
            ∙ ap
                (λ (x : RegisteredActor).
                  ok (some (record x { generation = (x.generation + 1) % word })))
                same,
        get_actor-unchecked_ne d s _ v t _ h3 (keys_apart apart),
      )
  where
    keys_apart : (n' ≢ n) ⊎ (a' ≢ a) ⊎ (m' ≢ m) → actor_key d n a m ≢ actor_key d n' a' m'
    keys_apart (inl ne) e = ne (sym (actor_key-injective d _ _ _ _ _ _ e).0)
    keys_apart (inr (inl ne)) e = ne (sym (actor_key-injective d _ _ _ _ _ _ e).1)
    keys_apart (inr (inr ne)) e = ne (sym (actor_key-injective d _ _ _ _ _ _ e).2)

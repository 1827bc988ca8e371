-- ===== src/Registry/Records.antt =====
-- Reading back the records that the registry has written: `getActor` and the server states of
-- virtual/registry/kv_registry.go after a `Put`.
use nola.Base.{
  arith, from_bind, err, panic, Result, sym, ok-injective, Option, none, refl, ap, ◌∙◌, ◌≡◌, ◌≢◌,
  String, some, ok, ◌>>=◌, Bytes, bytes_eq_refl, bytes_eq_ne,
}
use nola.Registry.State.{Deps, RegisteredActor, ServerState, server_key, unchecked}
use nola.Types.{Error}
use nola.Registry.Servers.{read_server}
use nola.Registry.Actors.{get_actor}

module _ (d : Deps) where
  pub get-put_self :
      (s : d.kv.State) (k v : Bytes) (t : d.kv.State)
      → d.kv.put s k v ≡ ok t
      → d.kv.get t k ≡ ok (some v)
  get-put_self s k v t e = rw (d.kv.get-put s k v t k e, bytes_eq_refl k)

  pub get-put_ne :
      (s : d.kv.State) (k v : Bytes) (t : d.kv.State) (j : Bytes)
      → d.kv.put s k v ≡ ok t
      → k ≢ j
      → d.kv.get t j ≡ d.kv.get s j
  get-put_ne s k v t j e ne = rw (d.kv.get-put s k v t j e, bytes_eq_ne k j ne)

  -- No put of the store answers an error, as none of the stores' does.
  abbrev pub PutNeverFails : Type 0
  PutNeverFails = (s : d.kv.State) (k v : Bytes) (e : Error) → d.kv.put s k v ≢ err e

  checked :
      (s t : d.kv.State) (r : Result Error d.kv.State)
      → ((e : Error) → r ≢ err e)
      → unchecked s r ≡ ok t
      → r ≡ ok t
  checked s t (ok u) never h = h
  checked s t (err e) never h = absurd (never e refl)
  checked s t panic never h = h

  pub put-unchecked :
      PutNeverFails
      → (s : d.kv.State) (k v : Bytes) (t : d.kv.State) → unchecked s (d.kv.put s k v) ≡ ok t
      → d.kv.put s k v ≡ ok t
  put-unchecked never s k v t h = checked s t (d.kv.put s k v) (never s k v) h

  -- Whether or not the error is dropped, nothing at another key changes.
  get-answered_ne :
      (s : d.kv.State) (k v : Bytes) (t : d.kv.State) (j : Bytes) (r : Result Error d.kv.State)
      → d.kv.put s k v ≡ r
      → unchecked s r ≡ ok t
      → k ≢ j
      → d.kv.get t j ≡ d.kv.get s j
  get-answered_ne s k v t j (ok u) e h ne = get-put_ne s k v t j (e ∙ h) ne
  get-answered_ne s k v t j (err x) e h ne = ap (λ u. d.kv.get u j) (sym (ok-injective h))
  get-answered_ne s k v t j panic e h ne = absurd (ground (arith, h))

  pub get-unchecked_ne :
      (s : d.kv.State) (k v : Bytes) (t : d.kv.State) (j : Bytes)
      → unchecked s (d.kv.put s k v) ≡ ok t
      → k ≢ j
      → d.kv.get t j ≡ d.kv.get s j
  get-unchecked_ne s k v t j h ne = get-answered_ne s k v t j (d.kv.put s k v) refl h ne

  pub get_actor-unchecked_ne :
      (s : d.kv.State) (k v : Bytes) (t : d.kv.State) (j : Bytes)
      → unchecked s (d.kv.put s k v) ≡ ok t
      → k ≢ j
      → get_actor d t j ≡ get_actor d s j
  unfolding get_actor ◌>>=◌
  get_actor-unchecked_ne s k v t j e ne = rw (get-unchecked_ne s k v t j e ne)

  pub get_actor-put :
      (s : d.kv.State) (k : Bytes) (ra : RegisteredActor) (v : Bytes) (t : d.kv.State)
      → d.actor_codec.marshal ra ≡ ok v
      → d.kv.put s k v ≡ ok t
      → get_actor d t k ≡ ok (some ra)
  unfolding get_actor ◌>>=◌
  get_actor-put s k ra v t m e = rw (get-put_self s k v t e, d.actor_codec.unmarshal-marshal ra m)

  pub get_actor-put_ne :
      (s : d.kv.State) (k v : Bytes) (t : d.kv.State) (j : Bytes)
      → d.kv.put s k v ≡ ok t
      → k ≢ j
      → get_actor d t j ≡ get_actor d s j
  unfolding get_actor ◌>>=◌
  get_actor-put_ne s k v t j e ne = rw (get-put_ne s k v t j e ne)

  pub read_server-put :
      (s : d.kv.State) (id : String) (state : ServerState) (v : Bytes) (t : d.kv.State)
      → d.server_codec.marshal state ≡ ok v
      → d.kv.put s (server_key d id) v ≡ ok t
      → read_server d t id ≡ ok (some state)
  unfolding read_server ◌>>=◌
  read_server-put s id state v t m e =
      rw (get-put_self s (server_key d id) v t e, d.server_codec.unmarshal-marshal state m)

  pub read_server-put_ne :
      (s : d.kv.State) (k v : Bytes) (t : d.kv.State) (id : String)
      → d.kv.put s k v ≡ ok t
      → k ≢ server_key d id
      → read_server d t id ≡ read_server d s id
  unfolding read_server ◌>>=◌
  read_server-put_ne s k v t id e ne = rw (get-put_ne s k v t (server_key d id) e ne)

  decoded :
      (value : Option Bytes) (server : ServerState)
      → (elim value [
        | none ↦ ok none
        | some b ↦ (do state ← d.server_codec.unmarshal b; ok (some state))
      ])
        ≡ ok (some server)
      → (b : Bytes) × (value ≡ some b) × (d.server_codec.unmarshal b ≡ ok server)
  decoded none server h = absurd (ground arith)
  decoded (some b) server h = from_bind _ _ h λ state e h1. (b, refl, e ∙ ap ok (ground arith))

  -- The bytes of a server's record.
  pub read_server-bytes :
      (s : d.kv.State) (id : String) (server : ServerState)
      → read_server d s id ≡ ok (some server)
      → (b : Bytes) × (d.kv.get s (server_key d id) ≡ ok (some b))
        × (d.server_codec.unmarshal b ≡ ok server)
  unfolding read_server
  read_server-bytes s id server h = from_bind _ _ h λ value e h1.
      let (b, found, decodes) = decoded value server h1 in (b, e ∙ ap ok found, decodes)

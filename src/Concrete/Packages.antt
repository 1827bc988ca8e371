-- ===== src/Concrete/Packages.antt =====
-- A packing of tuples, encodings of the registry's structs, and the in-memory store over a sorted
-- list: one value of all that the registry stands on.
use nola.Base.{
  ℕ, zero, suc, String, ◌≡◌, refl, sym, ap, ◌∙◌, List, [], ◌∷◌, ◌++◌, Option, none, some, Bytes,
  true, false, arith, Result, ok, err, ok-injective, ◌≢◌, has_prefix, has_prefix-append,
}
use nola.Types.{Error}
use nola.Registry.State.{
  Deps, Codec, KeyPart, text, int, bytes, RegisteredActor, RegisteredModule, ServerState,
  ActorOptions, no_options,
}
use nola.LocalKv.Prefix.{local_kv}
use nola.LocalKv.Sorted.{sorted_tree}
use nola.Concrete.Wire.{
  put_text, take_text, take-put_text, put_bytes, take_bytes, take-put_bytes, put_text-append,
  put_bytes-append,
}

put_part : KeyPart → Bytes → Bytes
put_part (text s) r = 2 ∷ put_text s r
put_part (int n) r = 20 ∷ n ∷ r
put_part (bytes b) r = 1 ∷ put_bytes b r

unfoldable pub pack : List KeyPart → Bytes
unfolding put_part put_text put_bytes
pack [] = []
pack (p ∷ t) = put_part p (pack t)

put_part-append : (p : KeyPart) (r q : Bytes) → put_part p (r ++ q) ≡ put_part p r ++ q
unfolding put_part
put_part-append (text s) r q = ap (◌∷◌ 2) (put_text-append s r q)
put_part-append (int n) r q = refl
put_part-append (bytes b) r q = ap (◌∷◌ 1) (put_bytes-append b r q)

pack_parts : (p : KeyPart) (t : List KeyPart) → pack (p ∷ t) ≡ put_part p (pack t)
unfolding pack
pack_parts p t = refl

pack_append : (t u : List KeyPart) → pack (t ++ u) ≡ pack t ++ pack u
pack_append [] u = unfold pack in refl
pack_append (p ∷ t) u =
    pack_parts p (t ++ u)
    ∙ ap (put_part p) (pack_append t u)
    ∙ put_part-append p (pack t) (pack u)
    ∙ ap (λ x. x ++ pack u) (sym (pack_parts p t))

pub has_prefix-pack : (t u : List KeyPart) → has_prefix (pack (t ++ u)) (pack t) ≡ true
has_prefix-pack t u = rw (pack_append t u) (has_prefix-append (pack t) (pack u))

put_part-injective : (p q : KeyPart) (r s : Bytes) → put_part p r ≡ put_part q s → (p ≡ q) × (r ≡ s)
unfolding put_part
put_part-injective (text a) (text b) r s h =
    ground (arith, take-put_text a r, take-put_text b s, ap take_text (tail_eq h))
  where
    tail_eq : 2 ∷ put_text a r ≡ 2 ∷ put_text b s → put_text a r ≡ put_text b s
    tail_eq e = cc
put_part-injective (int a) (int b) r s h = (cc, cc)
put_part-injective (bytes a) (bytes b) r s h =
    ground (arith, take-put_bytes a r, take-put_bytes b s, ap take_bytes (tail_eq h))
  where
    tail_eq : 1 ∷ put_bytes a r ≡ 1 ∷ put_bytes b s → put_bytes a r ≡ put_bytes b s
    tail_eq e = cc
put_part-injective (text a) (int b) r s h = absurd (ground arith)
put_part-injective (text a) (bytes b) r s h = absurd (ground arith)
put_part-injective (int a) (text b) r s h = absurd (ground arith)
put_part-injective (int a) (bytes b) r s h = absurd (ground arith)
put_part-injective (bytes a) (text b) r s h = absurd (ground arith)
put_part-injective (bytes a) (int b) r s h = absurd (ground arith)

empty_ne : (p : KeyPart) (r : Bytes) → ◌≢◌ {A = Bytes} [] (put_part p r)
unfolding put_part
empty_ne (text s) r h = ground arith
empty_ne (int n) r h = ground arith
empty_ne (bytes b) r h = ground arith

pub pack-injective : (t u : List KeyPart) → pack t ≡ pack u → t ≡ u
unfolding pack
pack-injective [] [] h = refl
pack-injective [] (q ∷ u) h = absurd (empty_ne q (pack u) h)
pack-injective (p ∷ t) [] h = absurd (empty_ne p (pack t) (sym h))
pack-injective (p ∷ t) (q ∷ u) h =
    let (head, tail) = put_part-injective p q (pack t) (pack u) h in cc (pack-injective t u tail)

abbrev pub or_unmarshal {ℓ} : {A : Type ℓ} → Option A → Result Error A
or_unmarshal none = err Error.unmarshal_failed
or_unmarshal (some a) = ok a

-- `registeredActor`.
unfoldable pub actor_of : String → ℕ → Option (String × Bytes) → Option RegisteredActor
actor_of m g none = none
actor_of m g (some (i, [])) = none
actor_of m g (some (i, v ∷ _)) = some (record {
  opts = no_options;
  module_id = m;
  generation = g;
  activation = record { server_id = i; server_version = v };
})

unfoldable pub actor_from : Option (String × Bytes) → Option RegisteredActor
actor_from none = none
actor_from (some (m, [])) = none
actor_from (some (m, g ∷ r)) = actor_of m g (take_text r)

unfoldable pub put_actor : RegisteredActor → Bytes
put_actor ra =
    put_text ra.module_id
      (ra.generation ∷ put_text ra.activation.server_id (ra.activation.server_version ∷ []))

one_option : (o : ActorOptions) → no_options ≡ o
one_option no_options = refl

pub take-put_actor :
    (ra : RegisteredActor) → or_unmarshal (actor_from (take_text (put_actor ra))) ≡ ok ra
unfolding put_actor actor_from actor_of
take-put_actor ra =
    rw (take-put_text ra.module_id, take-put_text ra.activation.server_id)
      (λ i. ok (record ra { opts = one_option ra.opts i }))

-- `serverState`.
unfoldable pub server_of : String → ℕ → ℕ → ℕ → Option (String × Bytes) → Option ServerState
server_of i last n v none = none
server_of i last n v (some (address, _)) = some (record {
  server_id = i;
  last_heartbeated_at = last;
  heartbeat_state = record { num_activated_actors = n; address = address };
  server_version = v;
})

unfoldable pub server_from : Option (String × Bytes) → Option ServerState
server_from (some (i, last ∷ n ∷ v ∷ r)) = server_of i last n v (take_text r)
server_from _ = none

unfoldable pub put_server : ServerState → Bytes
put_server s = put_text s.server_id (
    s.last_heartbeated_at
    ∷ s.heartbeat_state.num_activated_actors
    ∷ s.server_version
    ∷ put_text s.heartbeat_state.address [])

pub take-put_server :
    (s : ServerState) → or_unmarshal (server_from (take_text (put_server s))) ≡ ok s
unfolding put_server server_from server_of
take-put_server s = rw (take-put_text s.server_id, take-put_text s.heartbeat_state.address)

-- `registeredModule`.
unfoldable pub module_from : Bytes → Option RegisteredModule
module_from [] = none
module_from (zero ∷ b) =
    some (record { bytes = b; opts = record { allow_empty_module_bytes = false } })
module_from (suc _ ∷ b) =
    some (record { bytes = b; opts = record { allow_empty_module_bytes = true } })

unfoldable pub put_module : RegisteredModule → Bytes
put_module m = elim m.opts.allow_empty_module_bytes [ true ↦ 1 ∷ m.bytes | false ↦ 0 ∷ m.bytes ]

pub take-put_module : (m : RegisteredModule) → or_unmarshal (module_from (put_module m)) ≡ ok m
unfolding put_module module_from
take-put_module m = ground arith

abbrev pub codec_of :
    {A : Type 0} (put : A → Bytes) (take : Bytes → Option A)
    → ((a : A) → or_unmarshal (take (put a)) ≡ ok a)
    → Codec A
codec_of put take law = record {
  marshal = λ a. ok (put a);
  unmarshal = λ b. or_unmarshal (take b);
  unmarshal-marshal = λ a {b} e. ap (λ x. or_unmarshal (take x)) (sym (ok-injective e)) ∙ law a;
}

-- What a run of the registry computes with.
unfoldable pub running : Unit {0}
unfolding pack take_text put_text put_actor actor_from actor_of put_server server_from server_of
    put_module module_from
running = tt

abbrev pub deps : Deps
deps = record {
  kv = local_kv sorted_tree;
  pack = pack;
  pack-injective = pack-injective;
  pack-append = has_prefix-pack;
  actor_codec = codec_of put_actor (λ b. actor_from (take_text b)) take-put_actor;
  server_codec = codec_of put_server (λ b. server_from (take_text b)) take-put_server;
  module_codec = codec_of put_module module_from take-put_module;
}

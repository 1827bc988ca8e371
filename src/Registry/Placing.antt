-- ===== src/Registry/Placing.antt =====
-- What `EnsureActivation` of virtual/registry/kv_registry.go does to the store, step by step.
use nola.Base.{
  ◌≡◌, ◌≢◌, ◌⊎◌, inl, inr, refl, sym, ap, ◌∙◌, ℕ, String, str_eq, Option, none, some, true, not,
  ◌&&◌, ok, Bytes, arith, from_bind, ok-injective, Bool-cases, or_fail-eq-ok,
}
use nola.Registry.State.{
  Deps, RegisteredActor, ServerState, actor_key, no_options, ActorOptions, unchecked,
}
use nola.Registry.Actors.{get_actor, create_actor}
use nola.Registry.Activation.{
  Placement, placement_of, reuse, replace, place, or_create, get_or_create, is_live, pick_server,
  activate_on,
}
use nola.Registry.Records.{PutNeverFails, put-unchecked, get_actor-put, get-unchecked_ne}

module _ (d : Deps) where
  -- Whatever stands at another key is as it was.
  abbrev pub SameBut : Bytes → d.kv.State → d.kv.State → Type 0
  SameBut key s t = (j : Bytes) → key ≢ j → d.kv.get t j ≡ d.kv.get s j

  -- The actor's record in a state.
  abbrev pub Holds : d.kv.State → Bytes → RegisteredActor → Type 0
  Holds s key ra = get_actor d s key ≡ ok (some ra)

  module _ (namespace actor_id module_id : String) where
    abbrev pub key : Bytes
    key = actor_key d namespace actor_id module_id

    pub create_actor_writes :
        (opts : ActorOptions) (s t : d.kv.State)
        → create_actor d namespace actor_id module_id opts s ≡ ok t
        → (v : Bytes) × (unchecked s (d.kv.put s key v) ≡ ok t)
    unfolding create_actor
    create_actor_writes opts s t h = from_bind _ _ h λ found _ h1. from_bind _ _ h1 λ _ _ h2.
        from_bind _ _ h2 λ part _ h3. from_bind _ _ h3 λ _ _ h4. from_bind _ _ h4 λ v _ h5. (v, h5)

    or_create-Holds :
        (found : Option RegisteredActor) (s : d.kv.State) (ra : RegisteredActor) (t : d.kv.State)
        → get_actor d s key ≡ ok found
        → or_create d namespace actor_id module_id s found ≡ ok (ra, t)
        → Holds t key ra × SameBut key s t
    unfolding or_create
    or_create-Holds (some old) s ra t e h = let same = ok-injective h in (cc, λ j _. cc)
    or_create-Holds none s ra t e h = from_bind _ _ h λ s' created h1.
        from_bind _ _ h1 λ again e1 h2. from_bind _ _ h2 λ ra' e2 h3.
          let same = ok-injective h3 in
          let (v, w) = create_actor_writes no_options s s' created in
          let e3 = or_fail-eq-ok _ _ e2 in (cc, λ j ne. cc (get-unchecked_ne d s key v s' j w ne))

    -- The record that the call works with stands in the state, and nothing else has changed.
    pub get_or_create-Holds :
        (s : d.kv.State) (ra : RegisteredActor) (t : d.kv.State)
        → get_or_create d namespace actor_id module_id s ≡ ok (ra, t)
        → Holds t key ra × SameBut key s t
    unfolding get_or_create
    get_or_create-Holds s ra t h = from_bind _ _ h λ found e h1. or_create-Holds found s ra t e h1

    replace-Holds :
        (vs : ℕ) (ra : RegisteredActor) (s : d.kv.State) (p : Placement) (t : d.kv.State)
        → replace d namespace actor_id module_id vs ra s ≡ ok (p, t)
        → (server : ServerState) × (pick_server d vs s ≡ ok server)
          × (PutNeverFails d → Holds t key (activate_on server ra))
          × SameBut key s t
          × (p ≡ placement_of server)
    unfolding replace
    replace-Holds vs ra s p t h = from_bind _ _ h λ server picked h1. from_bind _ _ h1 λ v m h2.
        from_bind _ _ h2 λ s' w h3.
          let same = ok-injective h3 in
          (
            server,
            picked,
            λ never.
                get_actor-put d s key (activate_on server ra) v t m
                  (put-unchecked d never s key v t (w ∙ ap ok (ap (λ x. x.1) same))),
            λ j ne. get-unchecked_ne d s key v t j (w ∙ ap ok (ap (λ x. x.1) same)) ne,
            ap (λ x. x.0) (sym same),
          )

    -- A placement either keeps the present activation, whose server is live, or replaces it.
    place_cases :
        (vs : ℕ) (ra : RegisteredActor) (found : Option ServerState) (s : d.kv.State)
        (p : Placement) (t : d.kv.State)
        → place d namespace actor_id module_id vs ra found s ≡ ok (p, t)
        → ((server : ServerState) × (found ≡ some server)
            × (is_live vs server ≡ ok true)
            × (p ≡ reuse ra server)
            × (t ≡ s))
          ⊎ (replace d namespace actor_id module_id vs ra s ≡ ok (p, t))
    unfolding place
    place_cases vs ra none s p t h = from_bind _ _ h λ live _ h1. inr (ground arith)
    place_cases vs ra (some server) s p t h = from_bind _ _ h λ live e h1.
        elim (Bool-cases (not (str_eq ra.activation.server_id "") && live)) [
          | inl keep ↦ inl (server, refl, ground arith, ground arith, ground arith)
          | inr move ↦ inr (ground arith)
        ]

    -- A placement changes no other key.
    pub place-SameBut :
        (vs : ℕ) (ra : RegisteredActor) (found : Option ServerState) (s : d.kv.State)
        (p : Placement) (t : d.kv.State)
        → place d namespace actor_id module_id vs ra found s ≡ ok (p, t)
        → SameBut key s t
    place-SameBut vs ra found s p t h = elim (place_cases vs ra found s p t h) [
      | inl (server, f, live, e, same) ↦ rw same (λ j _. refl)
      | inr moved ↦ let (_, _, _, others, _) = replace-Holds vs ra s p t moved in others
    ]

    -- The actor's record after a placement names the server that is returned.
    pub place-Holds :
        (vs : ℕ) (ra : RegisteredActor) (found : Option ServerState) (s : d.kv.State)
        (p : Placement) (t : d.kv.State)
        → PutNeverFails d
        → Holds s key ra
        → place d namespace actor_id module_id vs ra found s ≡ ok (p, t)
        → (ra' : RegisteredActor) × Holds t key ra' × (ra'.activation.server_id ≡ p.server_id)
    unfolding reuse placement_of activate_on
    place-Holds vs ra found s p t never had h = elim (place_cases vs ra found s p t h) [
      | inl (server, f, live, e, same) ↦ (ra, rw same had, rw e refl)
      | inr moved ↦
          let (server, _, holds, _, e) = replace-Holds vs ra s p t moved in
          (activate_on server ra, holds never, rw e refl)
    ]

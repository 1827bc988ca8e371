-- ===== src/Registry/Fencing.antt =====
-- `EnsureActivation` and `BeginTransaction` together (virtual/registry/kv_registry.go): who may
-- open the storage of an actor.
use nola.Base.{
  ◌≡◌, ◌≢◌, ◌↔◌, refl, str_eq_ne, ◌==◌, false, sym, ap, ◌∙◌, ℕ, String, str_eq_iff, Option, List,
  [], ◌∷◌, Result, ok, err, ◌>>=◌, Bytes, arith, from_bind, ok-injective, or_fail-eq-ok,
}
use nola.Types.{Error, ActorRef}
use nola.References.{actor_ref_of, new_actor_reference-eq_ok}
use nola.Registry.State.{Deps, RegisteredActor, ServerState, actor_key}
use nola.Registry.Servers.{read_server}
use nola.Registry.Activation.{Placement, place, get_or_create, ensure_activation}
use nola.Registry.Storage.{ActorTransaction, begin_transaction}
use nola.Registry.Placing.{Holds, key, get_or_create-Holds, place-Holds, place-SameBut}
use nola.Registry.Records.{PutNeverFails}

eq_ne : (a b : ℕ) → a ≢ b → (a == b) ≡ false
eq_ne a b ne = ground (arith, ne)

module _ (d : Deps) (namespace actor_id module_id : String) where
  -- The calls that a successful `EnsureActivation` has made.
  pub record Ensured (stamp : Result Error ℕ) (s : d.kv.State) (refs : List ActorRef)
      (t : d.kv.State) : Type 0 where
    pub ra : RegisteredActor
    pub middle : d.kv.State
    pub found : Option ServerState
    pub vs : ℕ
    pub placement : Placement
    pub created : get_or_create d namespace actor_id module_id s ≡ ok (ra, middle)
    pub read : read_server d middle ra.activation.server_id ≡ ok found
    pub stamped : stamp ≡ ok vs
    pub placed : place d namespace actor_id module_id vs ra found middle ≡ ok (placement, t)
    pub refs_are :
        refs
        ≡ actor_ref_of placement.server_id placement.server_version placement.address namespace
            ra.module_id actor_id ra.generation
          ∷ []

  pub ensure_activation-Ensured :
      (stamp : Result Error ℕ) (s : d.kv.State) (refs : List ActorRef) (t : d.kv.State)
      → ensure_activation d stamp namespace actor_id module_id s ≡ ok (refs, t)
      → Ensured stamp s refs t
  unfolding ensure_activation
  ensure_activation-Ensured stamp s refs t h = from_bind _ _ h λ made e0 h1.
      from_bind _ _ h1 λ found e1 h2. from_bind _ _ h2 λ vs e2 h3. from_bind _ _ h3 λ placed e3 h4.
        from_bind _ _ h4 λ ref e4 h5.
          let same = ok-injective h5 in
          record {
            ra = made.0;
            middle = made.1;
            found = found;
            vs = vs;
            placement = placed.0;
            created = e0;
            read = e1;
            stamped = e2;
            placed = e3 ∙ ap (λ x. ok (placed.0, x)) (ap (λ x. x.1) same);
            refs_are =
                sym (ap (λ x. x.0) same)
                ∙ ap (λ r. r ∷ []) (new_actor_reference-eq_ok _ _ _ _ _ _ _ ref e4);
          }

  module _ (s : d.kv.State) (ra : RegisteredActor) (server_id : String) (server_version : ℕ)
      (e : Holds d s (key d namespace actor_id module_id) ra) where
    pub begin_transaction_accepts :
        ra.activation.server_id ≡ server_id
        → ra.activation.server_version ≡ server_version
        → d.kv.begin_transaction s ≡ ok tt
        → begin_transaction d namespace actor_id module_id server_id server_version s
          ≡ ok (record { namespace = namespace; actor_id = actor_id; module_id = module_id })
    unfolding begin_transaction ◌>>=◌
    begin_transaction_accepts i v begun =
        rw (begun, e) (ground (arith, str_eq_iff ra.activation.server_id server_id))

    pub begin_transaction_refuses :
        ra.activation.server_id ≢ server_id
        → begin_transaction d namespace actor_id module_id server_id server_version s
          ≡ (d.kv.begin_transaction s >>= λ _. err Error.wrong_server_id)
    unfolding begin_transaction ◌>>=◌
    begin_transaction_refuses i = rw (e, str_eq_ne _ _ i) refl

    pub begin_transaction_outdated :
        ra.activation.server_id ≡ server_id
        → ra.activation.server_version ≢ server_version
        → begin_transaction d namespace actor_id module_id server_id server_version s
          ≡ (d.kv.begin_transaction s >>= λ _. err Error.wrong_server_version)
    unfolding begin_transaction ◌>>=◌
    begin_transaction_outdated i v = rw (e, (str_eq_iff _ _).1 i, eq_ne _ _ v) refl

  -- `BeginTransaction` succeeds exactly when the store begins a transaction and the actor's record
  -- names the caller's server ID and server version.
  pub begin_transaction-eq-ok_iff :
      (server_id : String) (server_version : ℕ) (s : d.kv.State)
      → ((tr : ActorTransaction) × (begin_transaction d namespace actor_id module_id server_id
              server_version s
            ≡ ok tr))
        ↔ ((d.kv.begin_transaction s ≡ ok tt)
            × (ra : RegisteredActor) × Holds d s (key d namespace actor_id module_id) ra
            × (ra.activation.server_id ≡ server_id)
            × (ra.activation.server_version ≡ server_version))
  unfolding begin_transaction
  begin_transaction-eq-ok_iff server_id server_version s = (forth, back)
    where
      forth :
          ((tr : ActorTransaction) × (begin_transaction d namespace actor_id module_id server_id
                server_version s
              ≡ ok tr))
          → (d.kv.begin_transaction s ≡ ok tt)
            × (ra : RegisteredActor) × Holds d s (key d namespace actor_id module_id) ra
            × (ra.activation.server_id ≡ server_id)
            × (ra.activation.server_version ≡ server_version)
      forth (tr, h0) = from_bind _ _ h0 λ u begun h. from_bind _ _ h λ found e h1.
          from_bind _ _ h1 λ ra e1 h2. from_bind _ _ h2 λ _ e2 h3. from_bind _ _ h3 λ _ e3 h4. (
            begun,
            ra,
            e ∙ ap ok (or_fail-eq-ok found _ e1),
            ground (arith, str_eq_iff ra.activation.server_id server_id, e2),
            ground (arith, e3),
          )

      back :
          ((d.kv.begin_transaction s ≡ ok tt)
            × (ra : RegisteredActor) × Holds d s (key d namespace actor_id module_id) ra
            × (ra.activation.server_id ≡ server_id)
            × (ra.activation.server_version ≡ server_version))
          → (tr : ActorTransaction) × (begin_transaction d namespace actor_id module_id server_id
                server_version s
              ≡ ok tr)
      back (begun, ra, e, i, v) =
          (_, begin_transaction_accepts s ra server_id server_version e i v begun)

  -- What a successful `EnsureActivation` leaves in the store: the actor's record, which names the
  -- server of the one reference.
  pub ensure_activation-Holds :
      (stamp : Result Error ℕ) (s : d.kv.State) (ref : ActorRef) (rest : List ActorRef)
      (t : d.kv.State)
      → PutNeverFails d
      → ensure_activation d stamp namespace actor_id module_id s ≡ ok (ref ∷ rest, t)
      → (ra : RegisteredActor) × Holds d t (key d namespace actor_id module_id) ra
        × (ra.activation.server_id ≡ ref.server_id)
        × (rest ≡ [])
  ensure_activation-Holds stamp s ref rest t never h =
      let call = ensure_activation-Ensured stamp s (ref ∷ rest) t h in
      let (had, _) =
        get_or_create-Holds d namespace actor_id module_id s call.ra call.middle call.created in
      let (ra, holds, same) =
        place-Holds d namespace actor_id module_id call.vs call.ra call.found call.middle
          call.placement t never had call.placed in
      let is_ref : ref
          ≡ actor_ref_of call.placement.server_id call.placement.server_version
              call.placement.address namespace call.ra.module_id actor_id call.ra.generation =
        cc call.refs_are in
      (ra, holds, same ∙ sym (ap (λ (r : ActorRef). r.server_id) is_ref), cc call.refs_are)

  -- Over a store whose puts do not fail: after a successful `EnsureActivation` there is one
  -- reference, and a server that it does not name is refused when it begins a transaction on the
  -- actor's storage, at any server version: with the store's own error if the store cannot begin one,
  -- and otherwise since the server IDs differ.
  pub ensure_activation_fences :
      (stamp : Result Error ℕ) (s : d.kv.State) (ref : ActorRef) (rest : List ActorRef)
      (t : d.kv.State) (other : String) (version : ℕ)
      → PutNeverFails d
      → ensure_activation d stamp namespace actor_id module_id s ≡ ok (ref ∷ rest, t)
      → other ≢ ref.server_id
      → (rest ≡ [])
        × (begin_transaction d namespace actor_id module_id other version t
            ≡ (d.kv.begin_transaction t >>= λ _. err Error.wrong_server_id))
  ensure_activation_fences stamp s ref rest t other version never h ne =
      let (ra, holds, same, alone) = ensure_activation-Holds stamp s ref rest t never h in
      (alone, begin_transaction_refuses t ra other version holds (λ e. ne (sym e ∙ same)))

  -- A successful `EnsureActivation` writes nothing but the actor's own record: what stands at any
  -- other key is as before.
  pub ensure_activation_frame :
      (stamp : Result Error ℕ) (s : d.kv.State) (ref : ActorRef) (rest : List ActorRef)
      (t : d.kv.State) (j : Bytes)
      → ensure_activation d stamp namespace actor_id module_id s ≡ ok (ref ∷ rest, t)
      → actor_key d namespace actor_id module_id ≢ j
      → d.kv.get t j ≡ d.kv.get s j
  ensure_activation_frame stamp s ref rest t j h ne =
      let call = ensure_activation-Ensured stamp s (ref ∷ rest) t h in
      let (_, before) =
        get_or_create-Holds d namespace actor_id module_id s call.ra call.middle call.created in
      place-SameBut d namespace actor_id module_id call.vs call.ra call.found call.middle
        call.placement t call.placed j ne
      ∙ before j ne

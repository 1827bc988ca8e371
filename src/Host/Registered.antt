-- ===== src/Host/Registered.antt =====
-- `Transact` over the registry: `BeginTransaction` and `kvTransaction` of
-- virtual/registry/kv_registry.go as the storage of an actor, with the roll-back of the store below.
use nola.Base.{
  ℕ, String, ◌≡◌, refl, sym, subst, ◌≢◌, List, ◌∷◌, ◌∙◌, ◌⊎◌, inl, inr, ◌>>=◌, Option, none, some,
  Result, ok, err, panic,
}
use nola.Types.{Error, VirtualRef, ActorRef, IdType}
use nola.Registry.State.{Deps}
use nola.Registry.Storage.{ActorTransaction, begin_transaction, tr_get, tr_put}
use nola.Registry.Records.{PutNeverFails}
use nola.Registry.Activation.{ensure_activation}
use nola.Registry.Fencing.{ensure_activation_fences}
use nola.Host.Lazy.{ActorStorage, Program, done, put_then, get_then, transact}
use nola.Host.Transacting.{
  refused_run, never_ok, go_on, direct_run, end_transaction, with_transaction, begin_now, ended_ok,
  ended_err, transact_plainly, transact-eq-transact_plainly,
}

-- The function puts or gets.
abbrev pub UsesStorage : {A : Type 0} → Program A → Type 0
UsesStorage (done r) = ⊥
UsesStorage (put_then key value next) = Unit
UsesStorage (get_then key next) = Unit

abbrev actor_ref : String → String → String → ℕ → VirtualRef
actor_ref namespace module_id actor_id generation = record {
  namespace = namespace;
  module_id = module_id;
  actor_id = actor_id;
  generation = generation;
  id_type = IdType.actor;
}

module _ (d : Deps) where
  -- The store, and the copy of it that an open transaction puts back when it is cancelled.
  pub record World : Type 0 where
    pub state : d.kv.State
    pub saved : Option d.kv.State

  abbrev pub after_begin :
      World → Result Error ActorTransaction → Result Error ActorTransaction × World
  after_begin w (ok tr) = (ok tr, record w { saved = some w.state })
  after_begin w (err e) = (err e, w)
  after_begin w panic = (panic, w)

  abbrev pub after_put : World → Result Error d.kv.State → Result Error (Unit {0}) × World
  after_put w (ok s) = (ok tt, record w { state = s })
  after_put w (err e) = (err e, w)
  after_put w panic = (panic, w)

  abbrev pub rolled_back : World → Option d.kv.State → Result Error (Unit {0}) × World
  rolled_back w none = (panic, w)
  rolled_back w (some s) = (ok tt, record { state = s; saved = none })

  abbrev pub tr_cancel : World → Result Error (Unit {0}) → Result Error (Unit {0}) × World
  tr_cancel w (ok _) = rolled_back w w.saved
  tr_cancel w (err e) = (err e, w)
  tr_cancel w panic = (panic, w)

  -- No cancellation of the store answers an error, as none of the stores' does.
  abbrev pub CancelNeverFails : Type 0
  CancelNeverFails = (s : d.kv.State) (e : Error) → d.kv.cancel s ≢ err e

  abbrev pub after_commit : World → Result Error (Unit {0}) → Result Error (Unit {0}) × World
  after_commit w (ok _) = (ok tt, record w { saved = none })
  after_commit w (err e) = (err e, w)
  after_commit w panic = (panic, w)

  abbrev pub registry_storage : ActorStorage
  registry_storage = record {
    World = World;
    Transaction = ActorTransaction;
    begin_transaction = λ namespace actor_id module_id server_id server_version w.
        after_begin w
          (begin_transaction d namespace actor_id module_id server_id server_version w.state);
    put = λ tr key value w. after_put w (tr_put d tr key value w.state);
    get = λ tr key w. (tr_get d tr key w.state, w);
    commit = λ tr w. after_commit w (d.kv.commit w.state);
    cancel = λ tr w. tr_cancel w (d.kv.cancel w.state);
  }

  go_on_saved :
      {A B : Type 0} (p : Result Error B × World)
      (f : Result Error B → World → Result Error A × World)
      → ((r : Result Error B) (w : World) → (f r w).1.saved ≡ w.saved)
      → (go_on registry_storage p f).1.saved ≡ p.1.saved
  go_on_saved (ok b, w) f h = h (ok b) w
  go_on_saved (err e, w) f h = h (err e) w
  go_on_saved (panic, w) f h = refl

  after_put_saved : (w : World) (r : Result Error d.kv.State) → (after_put w r).1.saved ≡ w.saved
  after_put_saved w (ok s) = refl
  after_put_saved w (err e) = refl
  after_put_saved w panic = refl

  direct_run_saved :
      {A : Type 0} (t : ActorTransaction) (fn : Program A) (w : World)
      → (direct_run registry_storage t fn w).1.saved ≡ w.saved
  unfolding direct_run
  direct_run_saved t (done r) w = refl
  direct_run_saved t (put_then key value next) w =
      go_on_saved (after_put w (tr_put d t key value w.state)) _ (λ r. direct_run_saved t (next r))
      ∙ after_put_saved w (tr_put d t key value w.state)
  direct_run_saved t (get_then key next) w =
      go_on_saved (tr_get d t key w.state, w) _ (λ r. direct_run_saved t (next r))

  -- After an error the store is as it was, unless the error is one of the store's commit.
  abbrev pub IsRestored : {A : Type 0} → World → Result Error A × World → Type 0
  IsRestored w (ok a, w') = Unit
  IsRestored w (err e, w') = (w'.state ≡ w.state) ⊎ ((s : d.kv.State) × (d.kv.commit s ≡ err e))
  IsRestored w (panic, w') = Unit

  committed-IsRestored :
      {A : Type 0} (a : A) (w w' : World) (r : Result Error (Unit {0}))
      → d.kv.commit w'.state ≡ r
      → IsRestored w (ended_ok registry_storage a (after_commit w' r))
  committed-IsRestored a w w' (ok u) e = tt
  committed-IsRestored a w w' (err x) e = inr (w'.state, e)
  committed-IsRestored a w w' panic e = tt

  cancelled-IsRestored :
      (A : Type 0) (x : Error) (w w' : World) (s : d.kv.State) (r : Result Error (Unit {0}))
      → ((e : Error) → r ≢ err e)
      → w'.saved ≡ some s
      → s ≡ w.state
      → IsRestored {A = A} w (ended_err registry_storage x (tr_cancel w' r))
  cancelled-IsRestored A x w w' s (ok u) never h e = rw h (inl e)
  cancelled-IsRestored A x w w' s (err y) never h e = absurd (never y refl)
  cancelled-IsRestored A x w w' s panic never h e = tt

  commit-IsRestored :
      {A : Type 0} (w : World) (s : d.kv.State) (t : ActorTransaction) (p : Result Error A × World)
      → CancelNeverFails
      → p.1.saved ≡ some s
      → s ≡ w.state
      → IsRestored w (end_transaction registry_storage t p)
  commit-IsRestored w s t (ok a, w') never h e =
      committed-IsRestored a w w' (d.kv.commit w'.state) refl
  commit-IsRestored w s t (panic, w') never h e = tt
  commit-IsRestored w s t (err x, w') never h e =
      cancelled-IsRestored _ x w w' s (d.kv.cancel w'.state) (never w'.state) h e

  unchanged : {A : Type 0} (r : Result Error A) (w : World) → IsRestored w (r, w)
  unchanged (ok a) w = tt
  unchanged (err e) w = inl refl
  unchanged panic w = tt

  with_transaction-IsRestored :
      {A : Type 0} (w : World) (fn : Program A) (r : Result Error ActorTransaction)
      → CancelNeverFails
      → IsRestored w (
          with_transaction registry_storage
            (λ t. direct_run registry_storage t fn)
            (λ e. refused_run e fn)
            (after_begin w r))
  with_transaction-IsRestored w fn (ok t) never =
      commit-IsRestored w w.state t (direct_run registry_storage t fn _) never
        (direct_run_saved t fn _) refl
  with_transaction-IsRestored w fn (err e) never = unchanged (never_ok e (refused_run e fn)) w
  with_transaction-IsRestored w fn panic never = tt

  module _ (reference : VirtualRef) (server_id : String) (server_version : ℕ) where
    -- Over a store whose cancellations do not fail: an invocation that returns an error leaves the actor's storage, and all else in the store, as
    -- it was, unless the error is that of the store's commit.
    pub transact-IsRestored :
        {A : Type 0} (fn : Program A) (w : World)
        → CancelNeverFails
        → IsRestored w (transact registry_storage reference server_id server_version fn w)
    unfolding transact_plainly begin_now
    transact-IsRestored fn w never =
        subst (IsRestored w)
          (sym
            (transact-eq-transact_plainly registry_storage reference server_id server_version fn w))
          (plainly fn)
      where
        begun_call : Result Error ActorTransaction
        begun_call =
            begin_transaction d reference.namespace reference.actor_id reference.module_id server_id
              server_version w.state

        plainly :
            {A : Type 0} (fn : Program A)
            → IsRestored w
                (transact_plainly registry_storage reference server_id server_version fn w)
        plainly (done r) = unchanged r w
        plainly (put_then key value next) =
            with_transaction-IsRestored w (put_then key value next) begun_call never
        plainly (get_then key next) =
            with_transaction-IsRestored w (get_then key next) begun_call never

    -- An invocation whose transaction cannot be begun, and that uses its storage first of all,
    -- changes nothing and does not succeed, whatever it makes of the errors.
    pub transact_refused :
        {A : Type 0} (fn : Program A) (w : World) (e : Error)
        → UsesStorage fn
        → begin_transaction d reference.namespace reference.actor_id reference.module_id server_id
            server_version w.state
          ≡ err e
        → transact registry_storage reference server_id server_version fn w
          ≡ (never_ok e (refused_run e fn), w)
    unfolding transact_plainly begin_now
    transact_refused (done r) w e u h = absurd u
    transact_refused (put_then key value next) w e u h =
        transact-eq-transact_plainly registry_storage reference server_id server_version
          (put_then key value next) w
        ∙ rw h refl
    transact_refused (get_then key next) w e u h =
        transact-eq-transact_plainly registry_storage reference server_id server_version
          (get_then key next) w
        ∙ rw h refl

-- Over a store whose puts do not fail: after `EnsureActivation` has answered a reference, an
-- invocation of the actor on any server that the reference does not name, if it uses the actor's
-- storage and the store begins a transaction, does not succeed and changes nothing, at any server
-- version.
pub moved_actor_cannot_write :
    (d : Deps) (namespace actor_id module_id : String) (generation : ℕ) (stamp : Result Error ℕ)
    (s : d.kv.State) (ref : ActorRef) (rest : List ActorRef) (t : d.kv.State) (other : String)
    (version : ℕ) {A : Type 0} (fn : Program A)
    → PutNeverFails d
    → d.kv.begin_transaction t ≡ ok tt
    → ensure_activation d stamp namespace actor_id module_id s ≡ ok (ref ∷ rest, t)
    → other ≢ ref.server_id
    → UsesStorage fn
    → transact
        (registry_storage d)
        (actor_ref namespace module_id actor_id generation)
        other
        version
        fn
        (record { state = t; saved = none })
      ≡ (
        never_ok Error.wrong_server_id (refused_run Error.wrong_server_id fn),
        record { state = t; saved = none },
      )
unfolding ◌>>=◌
moved_actor_cannot_write d namespace actor_id module_id generation stamp s ref rest t other version
      fn never begun h ne u =
    transact_refused d (actor_ref namespace module_id actor_id generation) other version fn _
      Error.wrong_server_id u
      ((ensure_activation_fences d namespace actor_id module_id stamp s ref rest t other version
          never h ne).1
        ∙ rw begun refl)

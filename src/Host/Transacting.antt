-- ===== src/Host/Transacting.antt =====
-- `Transact` against its plain description: the transaction is begun at the first use, used, and
-- ended; one that is not used is never begun (virtual/host_capabilities.go).
use nola.Base.{
  ℕ, String, ◌≡◌, refl, ap, sym, ◌∙◌, ◌⊎◌, inl, inr, true, none, some, Result, ok, err, panic,
  Bytes,
}
use nola.Types.{Error, VirtualRef}
use nola.Host.Lazy.{
  ActorStorage, Program, done, put_then, get_then, LazyTransaction, new_lazy, maybe_init_tr,
  lazy_put, lazy_get, lazy_commit, lazy_cancel, run, resume, settle, transact, begun, and_then,
  committed, cancelled, on_tr,
}

-- A function whose every use of the storage is answered with one error.
unfoldable pub refused_run : {A : Type 0} → Error → Program A → Result Error A
refused_run e (done r) = r
refused_run e (put_then key value next) = refused_run e (next (err e))
refused_run e (get_then key next) = refused_run e (next (err e))

-- Success turned into an error.
abbrev pub never_ok : {A : Type 0} → Error → Result Error A → Result Error A
never_ok e (ok a) = err e
never_ok e (err e') = err e'
never_ok e panic = panic

module _ (st : ActorStorage) where
  open st use {World, Transaction}

  abbrev pub go_on :
      {A B : Type 0}
      → Result Error B × World
      → (Result Error B → World → Result Error A × World)
      → Result Error A × World
  go_on (panic, w) f = (panic, w)
  go_on (ok b, w) f = f (ok b) w
  go_on (err e, w) f = f (err e) w

  -- A function on a transaction that is begun.
  unfoldable pub direct_run :
      {A : Type 0} → Transaction → Program A → World → Result Error A × World
  direct_run t (done r) w = (r, w)
  direct_run t (put_then key value next) w =
      go_on (st.put t key value w) (λ r. direct_run t (next r))
  direct_run t (get_then key next) w = go_on (st.get t key w) (λ r. direct_run t (next r))

  abbrev pub ended_ok : {A : Type 0} → A → Result Error (Unit {0}) × World → Result Error A × World
  ended_ok a (ok _, w) = (ok a, w)
  ended_ok a (err e, w) = (err e, w)
  ended_ok a (panic, w) = (panic, w)

  abbrev pub ended_err :
      {A : Type 0} → Error → Result Error (Unit {0}) × World → Result Error A × World
  ended_err e (panic, w) = (panic, w)
  ended_err e (ok _, w) = (err e, w)
  ended_err e (err _, w) = (err e, w)

  -- A success is committed, an error cancelled.
  abbrev pub end_transaction :
      {A : Type 0} → Transaction → Result Error A × World → Result Error A × World
  end_transaction t (ok a, w) = ended_ok a (st.commit t w)
  end_transaction t (err e, w) = ended_err e (st.cancel t w)
  end_transaction t (panic, w) = (panic, w)

  -- After the attempt to begin: what to do with the transaction, or with the error.
  abbrev pub with_transaction :
      {A : Type 0}
      → (Transaction → World → Result Error A × World)
      → (Error → Result Error A)
      → Result Error Transaction × World
      → Result Error A × World
  with_transaction used refused (ok t, w) = end_transaction t (used t w)
  with_transaction used refused (err e, w) = (never_ok e (refused e), w)
  with_transaction used refused (panic, w) = (panic, w)

  module _ (reference : VirtualRef) (server_id : String) (server_version : ℕ) where
    unfoldable pub begin_now : World → Result Error Transaction × World
    begin_now w =
        st.begin_transaction reference.namespace reference.actor_id reference.module_id server_id
          server_version w

    -- The plain description.
    unfoldable pub transact_plainly : {A : Type 0} → Program A → World → Result Error A × World
    transact_plainly (done r) w = (r, w)
    transact_plainly (put_then key value next) w =
        let fn = put_then key value next in
        with_transaction (λ t. direct_run t fn) (λ e. refused_run e fn) (begin_now w)
    transact_plainly (get_then key next) w =
        let fn = get_then key next in
        with_transaction (λ t. direct_run t fn) (λ e. refused_run e fn) (begin_now w)

    abbrev open_lazy : Transaction → LazyTransaction st
    open_lazy t = record { started = true; tr = some t; error = none }

    abbrev failed_lazy : Error → LazyTransaction st
    failed_lazy e = record { started = true; tr = none; error = some e }

    -- What a run on an open transaction answers.
    abbrev RunsOpen : {A : Type 0} → Transaction → Program A → Type 0
    RunsOpen t fn =
        (w : World)
        → run st reference server_id server_version fn (open_lazy t) w
          ≡ ((direct_run t fn w).0, open_lazy t, (direct_run t fn w).1)

    resume-open :
        {A B : Type 0} (t : Transaction) (next : Result Error B → Program A)
        (p : Result Error B × World)
        → ((r : Result Error B) → RunsOpen t (next r))
        → resume st reference server_id server_version
            (p.0, open_lazy t, p.1)
            (λ r. run st reference server_id server_version (next r))
          ≡ (
            (go_on p (λ r. direct_run t (next r))).0,
            open_lazy t,
            (go_on p (λ r. direct_run t (next r))).1,
          )
    resume-open t next (ok b, w) h = h (ok b) w
    resume-open t next (err e, w) h = h (err e) w
    resume-open t next (panic, w) h = refl

    run-open : {A : Type 0} (t : Transaction) (fn : Program A) → RunsOpen t fn
    unfolding run lazy_put lazy_get maybe_init_tr direct_run
    run-open t (done r) w = refl
    run-open t (put_then key value next) w =
        resume-open t next (st.put t key value w) (λ r. run-open t (next r))
    run-open t (get_then key next) w =
        resume-open t next (st.get t key w) (λ r. run-open t (next r))

    run-failed :
        {A : Type 0} (e : Error) (fn : Program A) (w : World)
        → run st reference server_id server_version fn (failed_lazy e) w
          ≡ (refused_run e fn, failed_lazy e, w)
    unfolding run lazy_put lazy_get maybe_init_tr refused_run
    run-failed e (done r) w = refl
    run-failed e (put_then key value next) w = run-failed e (next (err e)) w
    run-failed e (get_then key next) w = run-failed e (next (err e)) w

    committed-open :
        {A : Type 0} (t : Transaction) (a : A) (q : Result Error (Unit {0}) × World)
        → committed st reference server_id server_version a (q.0, open_lazy t, q.1) ≡ ended_ok a q
    committed-open t a (ok _, w) = refl
    committed-open t a (err e, w) = refl
    committed-open t a (panic, w) = refl

    cancelled-open :
        {A : Type 0} (t : Transaction) (e : Error) (q : Result Error (Unit {0}) × World)
        → cancelled st reference server_id server_version {A = A} e (q.0, open_lazy t, q.1)
          ≡ ended_err e q
    cancelled-open t e (ok _, w) = refl
    cancelled-open t e (err _, w) = refl
    cancelled-open t e (panic, w) = refl

    settle-open :
        {A : Type 0} (t : Transaction) (p : Result Error A × World)
        → settle st reference server_id server_version (p.0, open_lazy t, p.1) ≡ end_transaction t p
    unfolding settle lazy_commit lazy_cancel maybe_init_tr
    settle-open t (ok a, w) = committed-open t a (st.commit t w)
    settle-open t (err e, w) = cancelled-open t e (st.cancel t w)
    settle-open t (panic, w) = refl

    settle-failed :
        {A : Type 0} (e : Error) (r : Result Error A) (w : World)
        → settle st reference server_id server_version (r, failed_lazy e, w) ≡ (never_ok e r, w)
    unfolding settle lazy_commit lazy_cancel maybe_init_tr
    settle-failed e (ok a) w = refl
    settle-failed e (err e') w = refl
    settle-failed e panic w = refl

    -- The first use, put or get, after the attempt to begin.
    first_use :
        {A B : Type 0} (use_storage : Transaction → World → Result Error B × World)
        (next : Result Error B → Program A) (p : Result Error Transaction × World)
        → settle st reference server_id server_version (
            resume st reference server_id server_version
              (and_then st (begun st p) (λ l w. on_tr st l.tr use_storage l w))
              (λ r. run st reference server_id server_version (next r)))
          ≡ with_transaction
              (λ t w. go_on (use_storage t w) (λ r. direct_run t (next r)))
              (λ e. refused_run e (next (err e)))
              p
    unfolding settle
    first_use use_storage next (ok t, w) =
        ap (settle st reference server_id server_version)
          (resume-open t next (use_storage t w) (λ r. run-open t (next r)))
        ∙ settle-open t (go_on (use_storage t w) (λ r. direct_run t (next r)))
    first_use use_storage next (err e, w) =
        ap (settle st reference server_id server_version) (run-failed e (next (err e)) w)
        ∙ settle-failed e (refused_run e (next (err e))) w
    first_use use_storage next (panic, w) = refl

    -- `Transact` does what the plain description says, on every path: a function that uses no storage
    -- leaves the world alone; any other begins one transaction, with what the host knows of the
    -- actor and the server, and commits it on success and cancels it on an error; and where the
    -- transaction cannot be begun, each use gets that error and the result is no success.
    pub transact-eq-transact_plainly :
        {A : Type 0} (fn : Program A) (w : World)
        → transact st reference server_id server_version fn w ≡ transact_plainly fn w
    unfolding transact settle run new_lazy lazy_put lazy_get lazy_commit lazy_cancel maybe_init_tr
        transact_plainly direct_run refused_run begin_now
    transact-eq-transact_plainly (done (ok a)) w = refl
    transact-eq-transact_plainly (done (err e)) w = refl
    transact-eq-transact_plainly (done panic) w = refl
    transact-eq-transact_plainly (put_then key value next) w =
        first_use (λ t. st.put t key value) next (begin_now w)
    transact-eq-transact_plainly (get_then key next) w =
        first_use (λ t. st.get t key) next (begin_now w)

    -- Once an unused transaction has been committed or cancelled it can no longer begin: a put or a
    -- get on it panics, whatever the world.
    pub used_after_end_panics :
        (w w' : World) (key value : Bytes) (l : LazyTransaction st)
        → ((lazy_commit st reference server_id server_version (new_lazy st) w).1 ≡ l)
          ⊎ ((lazy_cancel st reference server_id server_version (new_lazy st) w).1 ≡ l)
        → ((lazy_put st reference server_id server_version key value l w').0 ≡ panic)
          × ((lazy_get st reference server_id server_version key l w').0 ≡ panic)
    unfolding lazy_put lazy_get lazy_commit lazy_cancel maybe_init_tr new_lazy
    used_after_end_panics w w' key value l (inl e) = rw (sym e) (refl, refl)
    used_after_end_panics w w' key value l (inr e) = rw (sym e) (refl, refl)

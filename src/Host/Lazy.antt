-- ===== src/Host/Lazy.antt =====
-- `lazyActorTransaction` and `Transact` of virtual/host_capabilities.go.
use nola.Base.{
  ℕ, String, Bool, true, false, Option, none, some, Result, ok, err, panic, Bytes, if◌then◌else◌,
}
use nola.Types.{Error, VirtualRef}

-- `registry.ActorStorage` and `registry.ActorKVTransaction` (virtual/registry/types.go), interfaces.
-- Every call may change the world.
pub record ActorStorage : Type 1 where
  pub World : Type 0
  pub Transaction : Type 0
  pub begin_transaction :
      String → String → String → String → ℕ → World → Result Error Transaction × World
  pub put : Transaction → Bytes → Bytes → World → Result Error (Unit {0}) × World
  pub get : Transaction → Bytes → World → Result Error (Option Bytes) × World
  pub commit : Transaction → World → Result Error (Unit {0}) × World
  pub cancel : Transaction → World → Result Error (Unit {0}) × World

-- The function that an actor's invocation hands to `Transact`, as far as it uses its transaction: it
-- puts and gets, and goes on with what it was answered.
pub data Program (A : Type 0) : Type 0 where
  done : Result Error A → Program A
  put_then : Bytes → Bytes → (Result Error (Unit {0}) → Program A) → Program A
  get_then : Bytes → (Result Error (Option Bytes) → Program A) → Program A

module _ (st : ActorStorage) where
  open st use {World, Transaction}

  -- `started` is the `sync.Once`.
  pub record LazyTransaction : Type 0 where
    pub started : Bool
    pub tr : Option Transaction
    pub error : Option Error

  unfoldable pub new_lazy : LazyTransaction
  new_lazy = record { started = false; tr = none; error = none }

  -- What a call answers, with the lazy transaction and the world after it.
  abbrev pub Answer : Type 0 → Type 0
  Answer A = Result Error A × LazyTransaction × World

  abbrev pub begun : Result Error Transaction × World → Answer (Unit {0})
  begun (ok t, w) = (ok tt, record { started = true; tr = some t; error = none }, w)
  begun (err e, w) = (err e, record { started = true; tr = none; error = some e }, w)
  begun (panic, w) = (panic, record { started = true; tr = none; error = none }, w)

  abbrev pub as_result : Option Error → Result Error (Unit {0})
  as_result none = ok tt
  as_result (some e) = err e

  -- To call a method on `l.tr` while it is nil is a panic.
  abbrev pub on_tr :
      {A : Type 0}
      → Option Transaction
      → (Transaction → World → Result Error A × World)
      → LazyTransaction
      → World
      → Answer A
  on_tr none f l w = (panic, l, w)
  on_tr (some t) f l w = ((f t w).0, l, (f t w).1)

  -- The same, where a nil `l.tr` is tested for.
  abbrev pub on_tr_if_any :
      Option Transaction
      → (Transaction → World → Result Error (Unit {0}) × World)
      → LazyTransaction
      → World
      → Answer (Unit {0})
  on_tr_if_any none f l w = (ok tt, l, w)
  on_tr_if_any (some t) f l w = ((f t w).0, l, (f t w).1)

  abbrev pub and_then :
      {A : Type 0} → Answer (Unit {0}) → (LazyTransaction → World → Answer A) → Answer A
  and_then (ok _, l, w) f = f l w
  and_then (err e, l, w) f = (err e, l, w)
  and_then (panic, l, w) f = (panic, l, w)

  -- The actor, and what `getServerStateFn` answers.
  module _ (reference : VirtualRef) (server_id : String) (server_version : ℕ) where
    unfoldable pub maybe_init_tr : Bool → LazyTransaction → World → Answer (Unit {0})
    maybe_init_tr create_if_not_exist l w =
        if l.started
        then (as_result l.error, l, w)
        else if create_if_not_exist
        then begun (
            st.begin_transaction reference.namespace reference.actor_id reference.module_id
              server_id server_version w)
        else (ok tt, record l { started = true }, w)

    unfoldable pub lazy_put : Bytes → Bytes → LazyTransaction → World → Answer (Unit {0})
    unfolding maybe_init_tr
    lazy_put key value l w =
        and_then (maybe_init_tr true l w) (λ l' w'. on_tr l'.tr (λ t. st.put t key value) l' w')

    unfoldable pub lazy_get : Bytes → LazyTransaction → World → Answer (Option Bytes)
    unfolding maybe_init_tr
    lazy_get key l w =
        and_then (maybe_init_tr true l w) (λ l' w'. on_tr l'.tr (λ t. st.get t key) l' w')

    unfoldable pub lazy_commit : LazyTransaction → World → Answer (Unit {0})
    unfolding maybe_init_tr
    lazy_commit l w =
        and_then (maybe_init_tr false l w) (λ l' w'. on_tr_if_any l'.tr st.commit l' w')

    unfoldable pub lazy_cancel : LazyTransaction → World → Answer (Unit {0})
    unfolding maybe_init_tr
    lazy_cancel l w =
        and_then (maybe_init_tr false l w) (λ l' w'. on_tr_if_any l'.tr st.cancel l' w')

    -- The function goes on after an error, but not after a panic.
    abbrev pub resume :
        {A B : Type 0} → Answer B → (Result Error B → LazyTransaction → World → Answer A) → Answer A
    resume (panic, l, w) f = (panic, l, w)
    resume (ok b, l, w) f = f (ok b) l w
    resume (err e, l, w) f = f (err e) l w

    unfoldable pub run : {A : Type 0} → Program A → LazyTransaction → World → Answer A
    unfolding lazy_put lazy_get
    run (done r) l w = (r, l, w)
    run (put_then key value next) l w = resume (lazy_put key value l w) (λ r. run (next r))
    run (get_then key next) l w = resume (lazy_get key l w) (λ r. run (next r))

    -- An error of the cancellation is dropped.
    abbrev pub cancelled : {A : Type 0} → Error → Answer (Unit {0}) → Result Error A × World
    cancelled e (panic, l, w) = (panic, w)
    cancelled e (ok _, l, w) = (err e, w)
    cancelled e (err _, l, w) = (err e, w)

    abbrev pub committed : {A : Type 0} → A → Answer (Unit {0}) → Result Error A × World
    committed a (ok _, l, w) = (ok a, w)
    committed a (err e, l, w) = (err e, w)
    committed a (panic, l, w) = (panic, w)

    -- The end of `Transact`.
    unfoldable pub settle : {A : Type 0} → Answer A → Result Error A × World
    unfolding lazy_cancel lazy_commit
    settle (panic, l, w) = (panic, w)
    settle (err e, l, w) = cancelled e (lazy_cancel l w)
    settle (ok a, l, w) = committed a (lazy_commit l w)

    unfoldable pub transact : {A : Type 0} → Program A → World → Result Error A × World
    unfolding run new_lazy settle
    transact fn w = settle (run fn new_lazy w)

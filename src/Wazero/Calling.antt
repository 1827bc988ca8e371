-- ===== src/Wazero/Calling.antt =====
-- A WASM actor that keeps its values through the host functions, as those of
-- testdata/tinygo/util/main.go do: it encodes its puts by wapcutils/kv.go and reads the answers back.
use nola.Base.{
  ℕ, zero, suc, ◌^◌, ◌<◌, ◌≡◌, refl, ap, ◌∙◌, true, String, str_eq, Option, none, some, List, ◌∷◌,
  Bytes, length, Result, ok, err, panic,
}
use nola.Types.{Error, VirtualRef}
use nola.Payload.Encoding.{PayloadError, encode_put_payload}
use nola.Payload.RoundTrip.{extract-encode}
use nola.Host.Lazy.{
  ActorStorage, LazyTransaction, Program, done, put_then, get_then, lazy_put, lazy_get, resume, run,
}
use nola.Wazero.Router.{
  Context, Functions, Host, HostError, Timer, storage_failed, put_reply, get_reply, route,
  kv_put_operation_name, kv_get_operation_name,
}

-- The keys of the puts are no longer than an `int64` says.
abbrev pub KeysFit : {A : Type 0} → Program A → Type 0
KeysFit (done r) = Unit
KeysFit (put_then key value next) =
    (length key < 2 ^ 63) × ((r : Result Error Unit) → KeysFit (next r))
KeysFit (get_then key next) = (r : Result Error (Option Bytes)) → KeysFit (next r)

-- What the actor makes of the answer to a put, and to a get: the first byte says if there is a value.
-- Any other answer stops it.
abbrev pub put_answer : Result HostError Bytes → Result Error (Unit {0})
put_answer (ok _) = ok tt
put_answer (err (storage_failed e)) = err e
put_answer _ = panic

abbrev pub get_answer : Result HostError Bytes → Result Error (Option Bytes)
get_answer (ok (zero ∷ _)) = ok none
get_answer (ok (suc _ ∷ v)) = ok (some v)
get_answer (err (storage_failed e)) = err e
get_answer _ = panic

module _ (st : ActorStorage) where
  open st use {World}

  abbrev pub lifted :
      {A : Type 0}
      → List Timer
      → Result Error A × LazyTransaction st × World
      → Result Error A × Host st
  lifted timers (r, l, w) = (r, record { transaction = l; world = w; timers = timers })

  abbrev pub guest_go :
      {A B : Type 0}
      → Result Error B × Host st
      → (Result Error B → Host st → Result Error A × Host st)
      → Result Error A × Host st
  guest_go (panic, h) f = (panic, h)
  guest_go (ok b, h) f = f (ok b) h
  guest_go (err e, h) f = f (err e) h

  module _ (server_id : String) (server_version : ℕ) (fns : Functions World)
      (reference : VirtualRef) where
    -- The context that `wazeroActor.Invoke` makes.
    abbrev pub invoke_context : Context
    invoke_context = record { reference = some reference; has_transaction = true }

    abbrev pub put_call : Result PayloadError Bytes → Host st → Result Error (Unit {0}) × Host st
    put_call (ok payload) h =
        let (r, h') =
          route st server_id server_version fns invoke_context kv_put_operation_name payload h in
        (put_answer r, h')
    put_call _ h = (panic, h)

    abbrev pub get_call : Bytes → Host st → Result Error (Option Bytes) × Host st
    get_call key h =
        let (r, h') =
          route st server_id server_version fns invoke_context kv_get_operation_name key h in
        (get_answer r, h')

    unfoldable pub guest_run : {A : Type 0} → Program A → Host st → Result Error A × Host st
    guest_run (done r) h = (r, h)
    guest_run (put_then key value next) h =
        guest_go (put_call (encode_put_payload key value) h) (λ r. guest_run (next r))
    guest_run (get_then key next) h = guest_go (get_call key h) (λ r. guest_run (next r))

    go-resume :
        {A B : Type 0} (timers : List Timer) (a : Result Error B × LazyTransaction st × World)
        (f : Result Error B → Host st → Result Error A × Host st)
        (g : Result Error B
          → LazyTransaction st
          → World
          → Result Error A × LazyTransaction st × World)
        → ((r : Result Error B) (l : LazyTransaction st) (w : World)
            → f r (record { transaction = l; world = w; timers = timers })
              ≡ lifted timers (g r l w))
        → guest_go (lifted timers a) f
          ≡ lifted timers (resume st reference server_id server_version a g)
    go-resume timers (panic, l, w) f g same = refl
    go-resume timers (ok b, l, w) f g same = same (ok b) l w
    go-resume timers (err e, l, w) f g same = same (err e) l w

    answered_put :
        (timers : List Timer) (a : Result Error (Unit {0}) × LazyTransaction st × World)
        → (put_answer (put_reply st timers a).0, (put_reply st timers a).1) ≡ lifted timers a
    answered_put timers (ok tt, l, w) = refl
    answered_put timers (err e, l, w) = refl
    answered_put timers (panic, l, w) = refl

    answered_get :
        (timers : List Timer) (a : Result Error (Option Bytes) × LazyTransaction st × World)
        → (get_answer (get_reply st timers a).0, (get_reply st timers a).1) ≡ lifted timers a
    answered_get timers (ok none, l, w) = refl
    answered_get timers (ok (some v), l, w) = refl
    answered_get timers (err e, l, w) = refl
    answered_get timers (panic, l, w) = refl

    put_call_lem :
        (key value : Bytes) (h : Host st)
        → length key < 2 ^ 63
        → put_call (encode_put_payload key value) h
          ≡ lifted h.timers
              (lazy_put st reference server_id server_version key value h.transaction h.world)
    unfolding route str_eq
    put_call_lem key value h fits =
        let (payload, encoded, back) = extract-encode key value fits in
        rw (encoded, back) (answered_put h.timers _)

    get_call_lem :
        (key : Bytes) (h : Host st)
        → get_call key h
          ≡ lifted h.timers
              (lazy_get st reference server_id server_version key h.transaction h.world)
    unfolding route str_eq
    get_call_lem key h = answered_get h.timers _

    -- For a program whose keys are shorter than 2^63 bytes: a WASM actor that runs it by calls of the
    -- host's functions, with payloads that it encodes and answers that it decodes, gets the same
    -- answer as a Go actor that runs it on its lazy transaction, leaves the transaction and the
    -- storage the same, and sets no timers.
    pub guest_run-eq-run :
        {A : Type 0} (p : Program A) (h : Host st)
        → KeysFit p
        → guest_run p h
          ≡ lifted h.timers (run st reference server_id server_version p h.transaction h.world)
    unfolding guest_run run
    guest_run-eq-run (done r) h fit = refl
    guest_run-eq-run (put_then key value next) h (fits, rest) =
        ap (λ a. guest_go a (λ r. guest_run (next r))) (put_call_lem key value h fits)
        ∙ go-resume h.timers _ _ _ (λ r l w. guest_run-eq-run (next r) _ (rest r))
    guest_run-eq-run (get_then key next) h fit =
        ap (λ a. guest_go a (λ r. guest_run (next r))) (get_call_lem key h)
        ∙ go-resume h.timers _ _ _ (λ r l w. guest_run-eq-run (next r) _ (fit r))

-- ===== src/Wazero/Timers.antt =====
-- The timers that WASM actors set: virtual/wazero.go.
use nola.Base.{
  ℕ, ◌*◌, ◌%◌, ◌^◌, ◌<◌, ◌≤◌, ◌≡◌, ◌≢◌, ◌↔◌, refl, sym, ap, ◌∙◌, Bool, true, false, String, str_eq,
  str_eq_ne, str_eq_iff, Bool-cases, inl, inr, some, [], ◌∷◌, Bytes, ok, arith,
}
use nola.Types.{VirtualRef}
use nola.Registry.Servers.{lt_int64, word}
use nola.Host.Lazy.{ActorStorage}
use nola.Wazero.Router.{
  Functions, Host, Timer, ScheduleSelfTimer, timer_of, schedule_self_timer, route,
  schedule_self_timer_operation_name,
}

-- The bit pattern of a positive `int64`.
positive : (n : ℕ) → n < word → (lt_int64 0 n ≡ true) ↔ ((0 < n) × (n < 2 ^ 63))
positive n fits =
    (λ h. (ground (arith, h, fits), ground (arith, h, fits)), λ (p, q). ground (arith, p, q))

wrapped : (n : ℕ) → 2 ^ 63 ≤ n → n < word → lt_int64 0 (n % word) ≡ false
wrapped n long fits = ground (arith, long, fits)

module _ (st : ActorStorage) (server_id : String) (server_version : ℕ) (fns : Functions st.World)
    (reference : VirtualRef) (found : Bool) (payload : Bytes) (req : ScheduleSelfTimer)
    (h : Host st) (read : fns.unmarshal_timer payload ≡ ok req) where
  routed :
      route st server_id server_version fns
        (record { reference = some reference; has_transaction = found })
        schedule_self_timer_operation_name
        payload
        h
      ≡ schedule_self_timer st server_id server_version fns reference (ok req) h
  unfolding route str_eq
  routed = ap (λ r. schedule_self_timer st server_id server_version fns reference r h) read

  set :
      req.operation ≢ ""
      → lt_int64 0 req.after_millis ≡ true
      → schedule_self_timer st server_id server_version fns reference (ok req) h ≡ (
        ok [],
        record h { timers = timer_of st server_id server_version fns reference req ∷ h.timers },
      )
  unfolding schedule_self_timer
  set named after = rw (str_eq_ne req.operation "" named, after) refl

  only_set :
      (h' : Host st)
      → schedule_self_timer st server_id server_version fns reference (ok req) h ≡ (ok [], h')
      → (req.operation ≢ "") × (lt_int64 0 req.after_millis ≡ true)
  unfolding schedule_self_timer
  only_set h' e = elim (Bool-cases (str_eq req.operation "")) [
    | inl same ↦ absurd (ground (arith, rw same at e))
    | inr other ↦ elim (Bool-cases (lt_int64 0 req.after_millis)) [
      | inr late ↦ absurd (ground (arith, rw (other, late) at e))
      | inl after ↦ (λ x. ground (arith, str_eq_iff req.operation ""), after)
    ]
  ]

  -- For a request that is unmarshaled, with an `int` of 64 bits: the call answers without an error
  -- exactly when the operation is not empty and the number of milliseconds is positive, and then it
  -- has set one more timer of the actor, with the request's operation and payload and the
  -- nanoseconds modulo 2^64, and changed nothing else.
  pub schedule-eq-ok_iff :
      (h' : Host st)
      → req.after_millis < word
      → (route st server_id server_version fns
            (record { reference = some reference; has_transaction = found })
            schedule_self_timer_operation_name
            payload
            h
          ≡ (ok [], h'))
        ↔ ((req.operation ≢ "")
            × (0 < req.after_millis)
            × (req.after_millis < 2 ^ 63)
            × (h' ≡ record h {
              timers = timer_of st server_id server_version fns reference req ∷ h.timers;
            }))
  schedule-eq-ok_iff h' fits = (
    λ e.
        let e' = sym routed ∙ e in
        let (named, after) = only_set h' e' in
        let (p, q) = (positive req.after_millis fits).0 after in
        (named, p, q, ap (λ a. a.1) (sym e' ∙ set named after)),
    λ (named, p, q, same).
        routed
        ∙ set named ((positive req.after_millis fits).1 (p, q))
        ∙ ap (λ x. (ok [], x)) (sym same),
  )

  -- For a request that is unmarshaled, with an operation and a number of milliseconds whose
  -- nanoseconds are from 2^63 to below 2^64: the call answers without an error, and the timer that it
  -- has set has a duration that is not positive, so it is due at once.
  pub long_timer_due_at_once :
      req.operation ≢ ""
      → 2 ^ 63 ≤ req.after_millis * 1_000_000
      → req.after_millis * 1_000_000 < word
      → (timer : Timer) × (route st server_id server_version fns
            (record { reference = some reference; has_transaction = found })
            schedule_self_timer_operation_name
            payload
            h
          ≡ (ok [], record h { timers = timer ∷ h.timers }))
        × (lt_int64 0 timer.duration ≡ false)
  long_timer_due_at_once named long fits =
      let after : lt_int64 0 req.after_millis ≡ true =
        (positive req.after_millis (omega (arith, fits))).1
          (omega (arith, long), omega (arith, fits)) in
      (
        timer_of st server_id server_version fns reference req,
        routed ∙ set named after,
        wrapped (req.after_millis * 1_000_000) long fits,
      )

-- ===== src/Environment/Checks.antt =====
-- Which direct calls an environment accepts: `InvokeActorDirectStream` of virtual/environment.go.
use nola.Base.{
  ◌>>◌, ap, ◌∙◌, ok-bind, ℕ, ◌+◌, ◌^◌, ◌≤◌, ◌<◌, ◌≡◌, ◌≢◌, ◌↔◌, ◌⊎◌, inl, inr, refl, String, str_eq,
  str_eq_iff, str_eq_ne, Bool-cases, true, false, not, ◌&&◌, ok, ◌>>=◌, arith, from_bind,
  fail_if-eq-ok, ◌==◌, ◌%◌,
}
use nola.Dns.State.{dns_server_id}
use nola.Registry.Servers.{lt_int64, word}
use nola.Activations.State.{Activations, Reference, begin_invoke}
use nola.Environment.State.{Environment, check_direct, invoke_actor_direct_stream}

-- The stamps of a call and of the last heartbeat, as `int64` that are not negative.
pub record IsInRange (env : Environment) (version_stamp : ℕ) : Type 0 where
  pub call : version_stamp < 2 ^ 63
  pub deadline : env.heartbeat_result.version_stamp + env.heartbeat_result.heartbeat_ttl < 2 ^ 63

-- A call for this server, or from the registry over DNS, by the end of the heartbeat's time, for
-- the version that this server has.
pub record IsAccepted (env : Environment) (version_stamp : ℕ) (server_id : String)
    (server_version : ℕ) : Type 0 where
  pub named : server_id ≢ ""
  pub addressed : (server_id ≡ env.server_id) ⊎ (server_id ≡ dns_server_id)
  pub started : 0 < version_stamp
  pub in_time :
      version_stamp ≤ env.heartbeat_result.version_stamp + env.heartbeat_result.heartbeat_ttl
  pub current : env.heartbeat_result.server_version ≡ server_version

started_in_time :
    (version_stamp deadline : ℕ)
    → version_stamp < 2 ^ 63
    → deadline < 2 ^ 63
    → not (lt_int64 0 version_stamp) ≡ false
    → lt_int64 (deadline % word) version_stamp ≡ false
    → (0 < version_stamp) × (version_stamp ≤ deadline)
started_in_time version_stamp deadline small bound started in_time =
    (ground (arith, small, started), ground (arith, small, bound, in_time))

not_early :
    (version_stamp : ℕ)
    → version_stamp < 2 ^ 63
    → 0 < version_stamp
    → lt_int64 0 version_stamp ≡ true
not_early version_stamp small positive = ground arith

not_late :
    (version_stamp deadline : ℕ)
    → version_stamp < 2 ^ 63
    → deadline < 2 ^ 63
    → version_stamp ≤ deadline
    → lt_int64 (deadline % word) version_stamp ≡ false
not_late version_stamp deadline small bound le = ground arith

same_version : (a b : ℕ) → not (a == b) ≡ false → a ≡ b
same_version a b h = ground arith

is_addressed : (a b c : String) → (not (str_eq a b) && not (str_eq a c)) ≡ false → (a ≡ b) ⊎ (a ≡ c)
is_addressed a b c h = elim (Bool-cases (str_eq a b)) [
  | inl same ↦ inl ((str_eq_iff a b).0 same)
  | inr other ↦ elim (Bool-cases (str_eq a c)) [
    | inl same ↦ inr ((str_eq_iff a c).0 same)
    | inr another ↦ ground (arith, other, another, h)
  ]
]

not_foreign : (a b c : String) → (a ≡ b) ⊎ (a ≡ c) → (not (str_eq a b) && not (str_eq a c)) ≡ false
not_foreign a b c (inl e) = rw ((str_eq_iff a b).1 e) refl
not_foreign a b c (inr e) = rw ((str_eq_iff a c).1 e) (ground arith)

not_same : (a b : String) → str_eq a b ≡ false → a ≢ b
not_same a b h e = cc ((str_eq_iff a b).1 e, h)

module _ (env : Environment) (version_stamp : ℕ) (server_id : String) (server_version : ℕ)
    (range : IsInRange env version_stamp) where
  check_direct-IsAccepted :
      check_direct env version_stamp server_id server_version ≡ ok tt
      → IsAccepted env version_stamp server_id server_version
  unfolding check_direct
  check_direct-IsAccepted h = from_bind _ _ h λ _ e1 h1. from_bind _ _ h1 λ _ e2 h2.
      from_bind _ _ h2 λ _ e3 h3. from_bind _ _ h3 λ _ e4 h4. from_bind _ _ h4 λ _ e5 h5.
        let times =
          started_in_time version_stamp
            (env.heartbeat_result.version_stamp + env.heartbeat_result.heartbeat_ttl) range.call
            range.deadline (fail_if-eq-ok _ _ e3) (fail_if-eq-ok _ _ e4) in
        record {
          named = not_same server_id "" (fail_if-eq-ok _ _ e1);
          addressed = is_addressed server_id env.server_id dns_server_id (fail_if-eq-ok _ _ e2);
          started = times.0;
          in_time = times.1;
          current = same_version _ _ (fail_if-eq-ok _ _ e5);
        }

  pub IsAccepted-check_direct :
      IsAccepted env version_stamp server_id server_version
      → check_direct env version_stamp server_id server_version ≡ ok tt
  unfolding check_direct ◌>>=◌
  IsAccepted-check_direct a =
      let same : (env.heartbeat_result.server_version == server_version) ≡ true =
        ground (arith, a.current) in
      rw
        (
          str_eq_ne server_id "" a.named,
          not_foreign server_id env.server_id dns_server_id a.addressed,
          not_early version_stamp range.call a.started,
          not_late version_stamp
              (env.heartbeat_result.version_stamp + env.heartbeat_result.heartbeat_ttl) range.call
              range.deadline a.in_time,
          same,
        )
        refl

  -- A direct call whose stamps are in range goes on to the activations exactly when it is
  -- accepted: it names this server or the registry over DNS, its stamp is positive and within the
  -- time of the last heartbeat, and it is for the version that the server has.
  pub invoke_actor_direct_stream-eq-ok_iff :
      (reference : Reference) (a : Activations)
      → (invoke_actor_direct_stream env version_stamp server_id server_version reference a
          ≡ ok (begin_invoke (record { reference = reference; is_timer = false }) a))
        ↔ IsAccepted env version_stamp server_id server_version
  unfolding invoke_actor_direct_stream
  invoke_actor_direct_stream-eq-ok_iff reference a = (
    λ h. from_bind _ _ h λ _ checked _. check_direct-IsAccepted checked,
    λ accepted.
        ap (λ c. c >> ok (begin_invoke (record { reference = reference; is_timer = false }) a))
          (IsAccepted-check_direct accepted)
        ∙ ok-bind tt _,
  )

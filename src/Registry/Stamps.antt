-- ===== src/Registry/Stamps.antt =====
-- Times between stamps against `HeartbeatTTL`, and what `Heartbeat` makes of them
-- (virtual/registry/kv_registry.go). A stamp counts microseconds, the TTL is 5 seconds.
use nola.Base.{
  ℕ, Bytes, ◌+◌, ◌-◌, ◌%◌, ◌≤◌, ◌<◌, ◌≡◌, ◌≢◌, ap, ◌∙◌, sym, String, Option, none, some, true,
  false, Result, ok, ◌>>=◌, ltb, arith, from_bind, ok-injective, if◌then◌else◌,
}
use nola.Types.{Error}
use nola.Registry.State.{
  Deps, ServerState, HeartbeatState, HeartbeatResult, server_key, actor_key, unchecked,
}
use nola.Registry.Servers.{
  word, version_since, lt_int64, heartbeat_ttl_nanos, read_server, known_or_new, heartbeat, beat,
}
use nola.Registry.Activation.{is_live}
use nola.Registry.Records.{
  PutNeverFails, put-unchecked, read_server-put, get-unchecked_ne, get_actor-unchecked_ne,
}
use nola.Registry.Actors.{get_actor}
use nola.Registry.Keys.{server_key-ne-actor_key}

-- The TTL in microseconds, and the largest time in microseconds whose nanoseconds fit an `int64`.
abbrev pub ttl_micros : ℕ
ttl_micros = 5_000_000

abbrev pub max_micros : ℕ
max_micros = 9_223_372_036_854_775

version_since_within :
    (curr prev : ℕ)
    → prev ≤ curr
    → curr - prev < ttl_micros
    → (version_since curr prev >>= λ since. ok (lt_int64 since heartbeat_ttl_nanos)) ≡ ok true
unfolding version_since ◌>>=◌
version_since_within curr prev le lt = ground arith

version_since_beyond :
    (curr prev : ℕ)
    → prev ≤ curr
    → ttl_micros ≤ curr - prev
    → curr - prev ≤ max_micros
    → (version_since curr prev >>= λ since. ok (lt_int64 since heartbeat_ttl_nanos)) ≡ ok false
unfolding version_since ◌>>=◌
version_since_beyond curr prev le ge max = ground arith

-- The version after a heartbeat at `vs` of a server whose record is `old`.
abbrev pub next_version : ℕ → ServerState → ℕ
next_version vs old =
    if ltb (vs - old.last_heartbeated_at) ttl_micros
    then old.server_version
    else (old.server_version + 1) % word

-- The record that a heartbeat stores.
abbrev pub beaten : ℕ → HeartbeatState → ServerState → ServerState
beaten vs heartbeat_state old = record {
  server_id = old.server_id;
  last_heartbeated_at = vs;
  heartbeat_state = heartbeat_state;
  server_version = next_version vs old;
}

abbrev pub new_server : String → ℕ → ServerState
new_server server_id vs = record {
  server_id = server_id;
  last_heartbeated_at = vs;
  heartbeat_state = record { num_activated_actors = 0; address = "" };
  server_version = 1;
}

-- Stamps that do not go back, and lie less than 292 years apart.
pub record IsOrdered (earlier later : ℕ) : Type 0 where
  pub in_order : earlier ≤ later
  pub in_range : later - earlier ≤ max_micros

beat-eq-beaten :
    (vs since : ℕ) (hb : HeartbeatState) (old : ServerState)
    → IsOrdered old.last_heartbeated_at vs
    → version_since vs old.last_heartbeated_at ≡ ok since
    → beat vs since hb old ≡ beaten vs hb old
unfolding beat version_since
beat-eq-beaten vs since hb old o e = ground arith

beat_settled :
    (vs vs' since : ℕ) (hb : HeartbeatState) (old state : ServerState)
    → vs' ≡ vs
    → state ≡ old
    → IsOrdered old.last_heartbeated_at vs
    → version_since vs' state.last_heartbeated_at ≡ ok since
    → beat vs' since hb state ≡ beaten vs hb old
beat_settled vs vs' since hb old state p q o e =
    rw (p, q)
      (beat-eq-beaten vs since hb old o (
        ap (λ (x : ℕ). version_since x old.last_heartbeated_at) (sym p)
        ∙ ap (λ (x : ServerState). version_since vs' x.last_heartbeated_at) (sym q)
        ∙ e))

pub is_live-within :
    (vs : ℕ) (server : ServerState)
    → IsOrdered server.last_heartbeated_at vs
    → is_live vs server ≡ ok (ltb (vs - server.last_heartbeated_at) ttl_micros)
unfolding is_live version_since ◌>>=◌
is_live-within vs server o = ground arith

-- What a heartbeat goes through.
record Beating (d : Deps) (stamp_new stamp_now stamp_result : Result Error ℕ) (server_id : String)
    (hb : HeartbeatState) (s : d.kv.State) (r : HeartbeatResult) (t : d.kv.State) : Type 0 where
  found : Option ServerState
  state : ServerState
  vs : ℕ
  since : ℕ
  result : ℕ
  bytes : Bytes
  read : read_server d s server_id ≡ ok found
  started : known_or_new found server_id stamp_new ≡ ok state
  stamped : stamp_now ≡ ok vs
  timed : version_since vs state.last_heartbeated_at ≡ ok since
  version : r.server_version ≡ (beat vs since hb state).server_version
  encoded : d.server_codec.marshal (beat vs since hb state) ≡ ok bytes
  written : unchecked s (d.kv.put s (server_key d server_id) bytes) ≡ ok t
  answered : stamp_result ≡ ok result
  stamp : (r.version_stamp ≡ result) × (r.heartbeat_ttl ≡ ttl_micros)

module _ (d : Deps) (stamp_new stamp_now stamp_result : Result Error ℕ) (server_id : String)
    (hb : HeartbeatState) (s t : d.kv.State) (r : HeartbeatResult)
    (h : heartbeat d stamp_new stamp_now stamp_result server_id hb s ≡ ok (r, t)) where
  heartbeat-Beating : Beating d stamp_new stamp_now stamp_result server_id hb s r t
  unfolding heartbeat
  heartbeat-Beating = from_bind _ _ h λ found e1 h1. from_bind _ _ h1 λ state e2 h2.
      from_bind _ _ h2 λ vs e3 h3. from_bind _ _ h3 λ since e4 h4. from_bind _ _ h4 λ v e5 h5.
        from_bind _ _ h5 λ t' e6 h6. from_bind _ _ h6 λ res e7 h7.
          let same = ok-injective h7 in
          record {
            found = found;
            state = state;
            vs = vs;
            since = since;
            result = res;
            bytes = v;
            read = e1;
            started = e2;
            stamped = e3;
            timed = e4;
            version = ap (λ (x : HeartbeatResult × d.kv.State). x.0.server_version) (sym same);
            encoded = e5;
            written = e6 ∙ ap ok (ap (λ (x : HeartbeatResult × d.kv.State). x.1) same);
            answered = e7;
            stamp = (
              ap (λ (x : HeartbeatResult × d.kv.State). x.0.version_stamp) (sym same),
              ap (λ (x : HeartbeatResult × d.kv.State). x.0.heartbeat_ttl) (sym same),
            );
          }

  -- The stamp and the TTL that a heartbeat answers.
  pub heartbeat_stamped :
      (stamp : ℕ)
      → stamp_result ≡ ok stamp
      → (r.version_stamp ≡ stamp) × (r.heartbeat_ttl ≡ ttl_micros)
  heartbeat_stamped stamp e =
      let b = heartbeat-Beating in (b.stamp.0 ∙ ok-injective (sym b.answered ∙ e), b.stamp.1)

  -- Over a store whose puts do not fail, and at stamps in order that lie less than 292 years apart: a
  -- successful heartbeat of a known server stores its new record, and answers the version that it
  -- stores: the old one within the TTL, and the next one after it.
  pub heartbeat_known :
      (vs : ℕ) (old : ServerState)
      → PutNeverFails d
      → read_server d s server_id ≡ ok (some old)
      → stamp_now ≡ ok vs
      → IsOrdered old.last_heartbeated_at vs
      → (r.server_version ≡ next_version vs old)
        × (read_server d t server_id ≡ ok (some (beaten vs hb old)))
  unfolding known_or_new
  heartbeat_known vs old never known now o =
      let b = heartbeat-Beating in
      let is_old : b.state ≡ old = ok-injective (
        sym b.started
        ∙ ap (λ f. known_or_new f server_id stamp_new) (ok-injective (sym b.read ∙ known))) in
      let is_beaten =
        beat_settled vs b.vs b.since hb old b.state (ok-injective (sym b.stamped ∙ now)) is_old o
          b.timed in
      (
        b.version ∙ ap (λ (x : ServerState). x.server_version) is_beaten,
        read_server-put d s server_id _ b.bytes t b.encoded
              (put-unchecked d never s _ b.bytes t b.written)
            ∙ ap (λ x. ok (some x)) is_beaten,
      )

  -- The first heartbeat of a server, when its stamps lie less than the TTL apart, stores version 1
  -- under its ID.
  pub heartbeat_new :
      (first vs : ℕ)
      → PutNeverFails d
      → read_server d s server_id ≡ ok none
      → stamp_new ≡ ok first
      → stamp_now ≡ ok vs
      → IsOrdered first vs
      → vs - first < ttl_micros
      → (r.server_version ≡ 1)
        × (read_server d t server_id
            ≡ ok (
                some (record {
                  server_id = server_id;
                  last_heartbeated_at = vs;
                  heartbeat_state = hb;
                  server_version = 1;
                })))
  unfolding known_or_new ◌>>=◌
  heartbeat_new first vs never missing new now o soon =
      let b = heartbeat-Beating in
      let is_new : b.state ≡ new_server server_id first = ok-injective (
        sym b.started
        ∙ ap (λ f. known_or_new f server_id stamp_new) (ok-injective (sym b.read ∙ missing))
        ∙ ap (λ x. known_or_new none server_id x) new) in
      let is_beaten =
        beat_settled vs b.vs b.since hb (new_server server_id first) b.state
          (ok-injective (sym b.stamped ∙ now)) is_new o b.timed in
      let is_one : next_version vs (new_server server_id first) ≡ 1 = ground arith in
      (
        b.version ∙ ap (λ (x : ServerState). x.server_version) is_beaten ∙ is_one,
        read_server-put d s server_id _ b.bytes t b.encoded
              (put-unchecked d never s _ b.bytes t b.written)
            ∙ ap (λ x. ok (some x)) is_beaten
            ∙ ap
                (λ (n : ℕ). ok (
                  some (record {
                    server_id = server_id;
                    last_heartbeated_at = vs;
                    heartbeat_state = hb;
                    server_version = n;
                  })))
                is_one,
      )

  -- A heartbeat writes nothing but the server's own record.
  pub heartbeat_frame : (j : Bytes) → server_key d server_id ≢ j → d.kv.get t j ≡ d.kv.get s j
  heartbeat_frame j ne =
      let b = heartbeat-Beating in get-unchecked_ne d s _ b.bytes t j b.written ne

  -- It leaves the records of actors as they are.
  pub heartbeat_actors :
      (namespace actor_id module_id : String)
      → get_actor d t (actor_key d namespace actor_id module_id)
        ≡ get_actor d s (actor_key d namespace actor_id module_id)
  heartbeat_actors namespace actor_id module_id =
      let b = heartbeat-Beating in
      get_actor-unchecked_ne d s (server_key d server_id) b.bytes t _ b.written
        (server_key-ne-actor_key d server_id namespace actor_id module_id)

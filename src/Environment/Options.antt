-- ===== src/Environment/Options.antt =====
-- The options that `NewDNSRegistryEnvironment` accepts (virtual/environment.go).
use nola.Base.{
  ℕ, ◌^◌, ◌<◌, ◌≡◌, ◌≢◌, ◌↔◌, ◌⊎◌, inl, inr, refl, String, str_eq, str_eq_iff, str_eq_ne,
  str_eq_refl, Bool, Bool-cases, true, false, ◌&&◌, ok, ◌>>=◌, arith, from_bind, fail_if-eq-ok,
  ◌==◌,
}
use nola.Registry.Servers.{lt_int64, word}
use nola.Environment.State.{
  EnvironmentOptions, validate_discovery, validate_options, dns_options, discovery_type_of,
  localhost_address,
}

type_of_local : (host : String) → host ≡ localhost_address → discovery_type_of host ≡ "localhost"
unfolding discovery_type_of
type_of_local host same = rw ((str_eq_iff host localhost_address).1 same) refl

type_of_remote : (host : String) → host ≢ localhost_address → discovery_type_of host ≡ "remote"
unfolding discovery_type_of
type_of_remote host other = rw (str_eq_ne host localhost_address other) refl

local_port :
    (opts : EnvironmentOptions)
    → opts.discovery_type ≡ "localhost"
    → validate_discovery opts ≡ ok tt
unfolding validate_discovery ◌>>=◌
local_port opts local = rw (local, str_eq_refl "localhost", port_any (opts.port == 0)) refl
  where
    port_any : (b : Bool) → (b && false) ≡ false
    port_any true = refl
    port_any false = refl

remote_port :
    (opts : EnvironmentOptions)
    → opts.discovery_type ≡ "remote"
    → (validate_discovery opts ≡ ok tt) ↔ (opts.port ≢ 0)
unfolding validate_discovery ◌>>=◌ str_eq
remote_port opts remote = rw remote (λ h z. ground (arith, h, z), λ nz. ground (arith, nz))

not_negative : (n : ℕ) → n < word → (lt_int64 n 0 ≡ false) ↔ (n < 2 ^ 63)
not_negative n small = (λ h. ground (arith, small, h), λ h. ground (arith, small, h))

port_given :
    (host : String) (port : ℕ) (opts : EnvironmentOptions)
    → (validate_discovery (dns_options host port opts) ≡ ok tt)
      ↔ ((host ≡ localhost_address) ⊎ (port ≢ 0))
unfolding dns_options
port_given host port opts = elim (Bool-cases (str_eq host localhost_address)) [
  | inl same ↦
      let local = (str_eq_iff host localhost_address).0 same in
      (λ _. inl local, λ _. local_port (dns_options host port opts) (type_of_local host local))
  | inr differs ↦
      let other : host ≢ localhost_address =
        λ e. cc ((str_eq_iff host localhost_address).1 e, differs) in
      let by_port = remote_port (dns_options host port opts) (type_of_remote host other) in
      (
        λ h. inr (by_port.0 h),
        λ ports. elim ports [ inl local ↦ absurd (other local) | inr nonzero ↦ by_port.1 nonzero ],
      )
]

from_valid :
    (opts : EnvironmentOptions)
    → validate_options opts ≡ ok tt
    → (validate_discovery opts ≡ ok tt) × (lt_int64 opts.gc_actors_after 0 ≡ false)
unfolding validate_options
from_valid opts h = from_bind _ _ h λ _ e1 h1. from_bind _ _ h1 λ _ e2 _. (e1, fail_if-eq-ok _ _ e2)

to_valid :
    (opts : EnvironmentOptions)
    → validate_discovery opts ≡ ok tt
    → lt_int64 opts.gc_actors_after 0 ≡ false
    → validate_options opts ≡ ok tt
unfolding validate_options ◌>>=◌
to_valid opts discovered time = rw (discovered, time) refl

-- The options of a registry over DNS are accepted exactly when the host is 127.0.0.1 or the port is
-- not 0, and the time before an idle actor is collected, an `int64`, is not negative.
pub dns_options-eq-ok_iff :
    (host : String) (port : ℕ) (opts : EnvironmentOptions)
    → opts.gc_actors_after < word
    → (validate_options (dns_options host port opts) ≡ ok tt)
      ↔ (((host ≡ localhost_address) ⊎ (port ≢ 0)) × (opts.gc_actors_after < 2 ^ 63))
unfolding dns_options
dns_options-eq-ok_iff host port opts small =
    let ports = port_given host port opts in
    let time = not_negative opts.gc_actors_after small in
    (
      λ h.
          let (discovered, positive) = from_valid (dns_options host port opts) h in
          (ports.0 discovered, time.0 positive),
      λ (given, positive). to_valid (dns_options host port opts) (ports.1 given) (time.1 positive),
    )

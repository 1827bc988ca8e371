-- ===== src/Environment/Routing.antt =====
-- Where an invocation goes: `InvokeActorStream` and `invokeReferences` of virtual/environment.go.
use Prim.Native.String.{◌++◌}
use nola.Base.{
  ℕ, ◌≡◌, ◌≢◌, ◌↔◌, ◌⊎◌, inl, inr, refl, ap, ◌∙◌, String, str_eq, str_eq_iff, str_eq_ne, Bool,
  Bool-cases, true, false, ◌||◌, Option, some, List, ◌∷◌, Result, ok, panic, ◌>>=◌, arith,
  if◌then◌else◌,
}
use nola.Types.{Error, ActorRef}
use nola.Dns.State.{localhost}
use nola.Environment.State.{
  Environment, Route, localhost_address, route_to, invoke_references, invoke_actor_stream,
  cache_key,
}

panics_at :
    (known : Bool) (ref : ActorRef)
    → route_to known ref ≡ panic
    → (known ≡ false) × ((ref.address ≡ localhost_address) ⊎ (ref.address ≡ localhost))
panics_at true ref h = ground (arith, h)
panics_at false ref h = elim (Bool-cases (str_eq ref.address localhost_address)) [
  | inl same ↦ (refl, inl ((str_eq_iff _ _).0 same))
  | inr other ↦ elim (Bool-cases (str_eq ref.address localhost)) [
    | inl same ↦ (refl, inr ((str_eq_iff _ _).0 same))
    | inr another ↦ ground (arith, other, another, h)
  ]
]

panics_unforced :
    (forced known : Bool) (ref : ActorRef)
    → (if forced then ok (Route.remote ref) else route_to known ref) ≡ panic
    → (forced ≡ false)
      × (known ≡ false)
      × ((ref.address ≡ localhost_address) ⊎ (ref.address ≡ localhost))
panics_unforced true known ref h = ground (arith, h)
panics_unforced false known ref h =
    let (unknown, local) = panics_at known ref h in (refl, unknown, local)

looks_local :
    (ref : ActorRef)
    → (ref.address ≡ localhost_address) ⊎ (ref.address ≡ localhost)
    → (str_eq ref.address localhost_address || str_eq ref.address localhost) ≡ true
looks_local ref (inl e) = rw ((str_eq_iff ref.address localhost_address).1 e) refl
looks_local ref (inr e) = rw ((str_eq_iff ref.address localhost).1 e) (ground arith)

module _ (env : Environment) (in_router : String → Bool) where
  -- The choice of a route panics exactly when remote calls are not forced, no environment of the
  -- process is registered at the address of the first reference, and that address is 127.0.0.1 or
  -- localhost.
  pub invoke_references-eq-panic_iff :
      (ref : ActorRef) (rest : List ActorRef)
      → (invoke_references env in_router (ref ∷ rest) ≡ panic) ↔ (
          (env.opts.force_remote_procedure_calls ≡ false)
          × (in_router ref.address ≡ false)
          × ((ref.address ≡ localhost_address) ⊎ (ref.address ≡ localhost)))
  unfolding invoke_references
  invoke_references-eq-panic_iff ref rest = (
    panics_unforced env.opts.force_remote_procedure_calls (in_router ref.address) ref,
    λ (forced, unknown, local). rw (forced, unknown, looks_local ref local) refl,
  )

  invoke_actor_stream_cached :
      (vs : ℕ) (cached : String → Option (List ActorRef))
      (ensure : String → String → String → Result Error (List ActorRef))
      (namespace actor_id module_id : String) (ref : ActorRef) (rest : List ActorRef)
      → env.opts.disable_activation_cache ≡ false
      → cached (cache_key namespace actor_id) ≡ some (ref ∷ rest)
      → namespace ≢ ""
      → actor_id ≢ ""
      → module_id ≢ ""
      → invoke_actor_stream env in_router (ok vs) cached ensure namespace actor_id module_id
        ≡ invoke_references env in_router (ref ∷ rest)
  unfolding invoke_actor_stream ◌>>=◌
  invoke_actor_stream_cached vs cached ensure namespace actor_id module_id ref rest on hit n a m =
      rw (str_eq_ne namespace "" n, str_eq_ne actor_id "" a, str_eq_ne module_id "" m, on, hit) refl

  -- While the cache is on and has references for an actor, and the registry answers a stamp, a call
  -- of any actor, named in all its parts, whose namespace and ID run together to the same text goes
  -- where these references lead, whatever the registry would answer for it, and whatever its module
  -- is.
  pub invoke_actor_stream_shares :
      (vs : ℕ) (cached : String → Option (List ActorRef))
      (ensure : String → String → String → Result Error (List ActorRef))
      (namespace actor_id namespace' actor_id' module_id' : String) (ref : ActorRef)
      (rest : List ActorRef)
      → env.opts.disable_activation_cache ≡ false
      → cached (cache_key namespace actor_id) ≡ some (ref ∷ rest)
      → namespace' ++ actor_id' ≡ namespace ++ actor_id
      → namespace' ≢ ""
      → actor_id' ≢ ""
      → module_id' ≢ ""
      → invoke_actor_stream env in_router (ok vs) cached ensure namespace' actor_id' module_id'
        ≡ invoke_references env in_router (ref ∷ rest)
  unfolding cache_key
  invoke_actor_stream_shares vs cached ensure namespace actor_id namespace' actor_id' module_id' ref
        rest on hit same n a m =
      invoke_actor_stream_cached vs cached ensure namespace' actor_id' module_id' ref rest on
        (ap cached same ∙ hit) n a m

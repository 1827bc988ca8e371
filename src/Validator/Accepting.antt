-- ===== src/Validator/Accepting.antt =====
-- Which calls the validator passes on: virtual/registry/validator.go.
use nola.Base.{
  ℕ, ◌^◌, ◌≤◌, ◌<◌, ◌≡◌, ◌↔◌, ◌⊎◌, inl, inr, refl, ◌==◌, ltb, Bool, true, false, not, ◌&&◌, Bytes,
  length, String, ok, ◌>>=◌, fail_if-eq-ok, from_bind, arith,
}
use nola.Registry.State.{Deps, ModuleOptions}
use nola.Registry.Modules.{register_module}
use nola.Host.Lazy.{ActorStorage}
use nola.Validator.Strings.{IsValid, validate_string-eq-ok_iff}
use nola.Validator.Calls.{validated_register_module, validated_storage, check_begin}

-- The module is not empty unless it may be, and has at most 4 MiB.
abbrev pub IsModule : Bytes → ModuleOptions → Type 0
IsModule module_bytes opts =
    ((0 < length module_bytes) ⊎ (opts.allow_empty_module_bytes ≡ true))
    × (length module_bytes ≤ 2 ^ 22)

not_missing :
    (n : ℕ) (allowed : Bool) → (n == 0 && not allowed) ≡ false → (0 < n) ⊎ (allowed ≡ true)
not_missing n true h = inr refl
not_missing n false h = inl (ground (arith, h))

present : (n : ℕ) (allowed : Bool) → (0 < n) ⊎ (allowed ≡ true) → (n == 0 && not allowed) ≡ false
present n allowed (inl some_bytes) = ground (arith, some_bytes)
present n allowed (inr e) = rw e (ground arith)

in_size : (n : ℕ) → (ltb (2 ^ 22) n ≡ false) ↔ (n ≤ 2 ^ 22)
in_size n = (λ h. ground (arith, h), λ h. ground (arith, h))

module _ (d : Deps) (namespace module_id : String) (module_bytes : Bytes) (opts : ModuleOptions)
    (s t : d.kv.State) where
  register_passes :
      IsValid namespace
      → IsValid module_id
      → IsModule module_bytes opts
      → register_module d namespace module_id module_bytes opts s ≡ ok t
      → validated_register_module d namespace module_id module_bytes opts s ≡ ok t
  unfolding validated_register_module ◌>>=◌
  register_passes n m (given, short) registered =
      rw
        (
          (validate_string-eq-ok_iff namespace).1 n,
          (validate_string-eq-ok_iff module_id).1 m,
          present (length module_bytes) opts.allow_empty_module_bytes given,
          (in_size (length module_bytes)).1 short,
        )
        registered

  -- `RegisterModule` behind the validator succeeds exactly when the namespace and the module's ID
  -- are valid, the module has some bytes or may have none, it has at most 2^22 bytes, and the
  -- registry's `RegisterModule` succeeds, and then with the same store.
  pub validated_register_module-eq-ok_iff :
      (validated_register_module d namespace module_id module_bytes opts s ≡ ok t) ↔ (
        IsValid namespace
        × IsValid module_id
        × IsModule module_bytes opts
        × (register_module d namespace module_id module_bytes opts s ≡ ok t))
  unfolding validated_register_module
  validated_register_module-eq-ok_iff = (
    λ h. from_bind _ _ h λ _ e1 h1. from_bind _ _ h1 λ _ e2 h2. from_bind _ _ h2 λ _ e3 h3.
        from_bind _ _ h3 λ _ e4 h4. (
          (validate_string-eq-ok_iff namespace).0 e1,
          (validate_string-eq-ok_iff module_id).0 e2,
          (
            not_missing (length module_bytes) opts.allow_empty_module_bytes (fail_if-eq-ok _ _ e3),
            (in_size (length module_bytes)).0 (fail_if-eq-ok _ _ e4),
          ),
          h4,
        ),
    λ (n, m, given, registered). register_passes n m given registered,
  )

-- Over any storage, and for a namespace that is valid, `BeginTransaction` behind the validator is
-- that of the storage, whatever the actor's ID is: it is not checked.
pub begin_unchecked :
    (st : ActorStorage) (namespace actor_id module_id server_id : String) (server_version : ℕ)
    (w : st.World)
    → IsValid namespace
    → (validated_storage st).begin_transaction namespace actor_id module_id server_id server_version
        w
      ≡ st.begin_transaction namespace actor_id module_id server_id server_version w
unfolding check_begin ◌>>=◌
begin_unchecked st namespace actor_id module_id server_id server_version w valid =
    rw ((validate_string-eq-ok_iff namespace).1 valid) refl

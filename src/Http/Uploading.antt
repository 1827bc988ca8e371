-- ===== src/Http/Uploading.antt =====
-- The upload of a module: `registerModule` of virtual/server.go over the validator of
-- virtual/registry/validator.go.
use nola.Base.{
  ◌^◌, ◌≤◌, ◌<◌, ◌≡◌, refl, ap, Option, none, some, String, Bytes, length, take, take_all,
  length-take, Result, ok, err, panic, arith, false, dec_lt, inl, inr, subst,
}
use nola.Types.{Error}
use nola.Registry.State.{Deps, ModuleOptions}
use nola.Registry.Modules.{register_module}
use nola.Http.Server.{HttpError, Response, read_body, registered, register_module_handler}
use nola.Validator.Strings.{IsValid}
use nola.Validator.Calls.{validated_register_module}
use nola.Validator.Accepting.{validated_register_module-eq-ok_iff}

-- The options of an upload.
abbrev pub no_empty_module : ModuleOptions
no_empty_module = record { allow_empty_module_bytes = false }

-- A body that fits into a module is read whole.
whole : (b : Bytes) → length (take (2 ^ 24) b) ≤ 2 ^ 22 → take (2 ^ 24) b ≡ b
whole b h = elim (dec_lt (2 ^ 24) (length b)) [
  | yes long ↦
      let cut : length (take (2 ^ 24) b) ≡ 2 ^ 24 = length-take (2 ^ 24) b (omega (arith, long)) in
      absurd (omega (arith, h, cut))
  | no short ↦ take_all (2 ^ 24) b (omega (arith, short))
]

module _ {S : Type 0} (message : HttpError → Bytes) (marshaled : Result Error Bytes) (s t : S)
    (resp : Response) where
  -- The status 200 is that of a registration.
  registered_200 :
      (r : Result Error S)
      → registered message marshaled s r ≡ (ok resp, t)
      → resp.status ≡ 200
      → r ≡ ok t
  registered_200 (ok u) h e = ap ok (ap (λ p. p.1) h)
  registered_200 (err x) h e = absurd (ground (arith, h, e))
  registered_200 panic h e = absurd (ground (arith, h, e))

  upload_200 :
      (register : String → String → Bytes → ModuleOptions → S → Result Error S)
      (namespace module_id : String) (body : Option Bytes)
      → register_module_handler message register marshaled namespace module_id body s ≡ (ok resp, t)
      → resp.status ≡ 200
      → (b : Bytes) × (body ≡ some b)
        × (register namespace module_id (take (2 ^ 24) b) no_empty_module s ≡ ok t)
  unfolding register_module_handler read_body
  upload_200 register namespace module_id none h e = absurd (ground (arith, h, e))
  upload_200 register namespace module_id (some b) h e = (b, refl, registered_200 _ h e)

-- If `registerModule`, over the registry behind its validator, answers an upload with status 200,
-- then the body has been read to its end and has from 1 to 2^22 bytes, the namespace and the module's
-- ID are valid, and the registry has registered the whole body: the limit of 2^24 bytes on what is
-- read never registers a part of a body.
pub upload_registers_whole :
    (d : Deps) (message : HttpError → Bytes) (marshaled : Result Error Bytes)
    (namespace module_id : String) (body : Option Bytes) (s t : d.kv.State) (resp : Response)
    → register_module_handler message
        (validated_register_module d)
        marshaled
        namespace
        module_id
        body
        s
      ≡ (ok resp, t)
    → resp.status ≡ 200
    → (b : Bytes) × (body ≡ some b)
      × IsValid namespace
      × IsValid module_id
      × (0 < length b)
      × (length b ≤ 2 ^ 22)
      × (register_module d namespace module_id b no_empty_module s ≡ ok t)
upload_registers_whole d message marshaled namespace module_id body s t resp h e =
    let (b, read, registers) =
      upload_200 message marshaled s t resp (validated_register_module d) namespace module_id body h
        e in
    let (n, m, (given, short), r) =
      (validated_register_module-eq-ok_iff d namespace module_id (take (2 ^ 24) b) no_empty_module s
          t).0
        registers in
    let all = whole b short in
    (
      b,
      read,
      n,
      m,
      elim given [ inl p ↦ subst (λ x. 0 < length x) all p | inr q ↦ cc ],
      subst (λ x. length x ≤ 2 ^ 22) all short,
      subst (λ x. register_module d namespace module_id x no_empty_module s ≡ ok t) all r,
    )

-- ===== src/Registry/Modules.antt =====
-- WASM modules in the registry: `RegisterModule` and `GetModule` of
-- virtual/registry/kv_registry.go.
use nola.Base.{
  ℕ, zero, suc, ◌+◌, String, true, false, Option, none, some, List, [], ◌∷◌, ◌++◌, Result, ok, err,
  panic, ◌>>=◌, ◌>>◌, fail_if, Bytes, length, take, drop, if◌then◌else◌,
}
use nola.Types.{Error}
use nola.Registry.State.{
  Deps, RegisteredModule, ModuleOptions, module_part_key, module_prefix, unchecked,
}

-- The largest value that is written under one key.
abbrev pub part_size : ℕ
part_size = 99_999

-- The values of the pairs, one after the other.
unfoldable pub joined : List (Bytes × Bytes) → Bytes
joined [] = []
joined (e ∷ l) = e.1 ++ joined l

module _ (d : Deps) where
  -- The loop over the parts. Every round takes a byte at least, so that the length is enough fuel.
  unfoldable pub put_parts : ℕ → String → String → ℕ → Bytes → d.kv.State → Result Error d.kv.State
  put_parts fuel namespace module_id i [] s = ok s
  put_parts zero namespace module_id i (b ∷ m) s = panic
  put_parts (suc fuel) namespace module_id i (b ∷ m) s = do
    s' ← unchecked s (d.kv.put s (module_part_key d namespace module_id i) (take part_size (b ∷ m)))
    put_parts fuel namespace module_id (i + 1) (drop part_size (b ∷ m)) s'

  -- A module that is not there is written; one that is there is an error, unless empty modules are
  -- allowed.
  unfoldable pub write_module :
      String → String → Bytes → ModuleOptions → Option Bytes → d.kv.State → Result Error d.kv.State
  unfolding put_parts
  write_module namespace module_id module_bytes opts (some part) s =
      if opts.allow_empty_module_bytes then ok s else err Error.module_exists
  write_module namespace module_id module_bytes opts none s = do
    marshaled ← d.module_codec.marshal (record { bytes = module_bytes; opts = opts })
    put_parts (length marshaled) namespace module_id 0 marshaled s

  unfoldable pub register_module :
      String → String → Bytes → ModuleOptions → d.kv.State → Result Error d.kv.State
  unfolding write_module
  register_module namespace module_id module_bytes opts s = do
    part ← d.kv.get s (module_part_key d namespace module_id 0)
    write_module namespace module_id module_bytes opts part s

  unfoldable pub get_module : String → String → d.kv.State → Result Error RegisteredModule
  get_module namespace module_id s = do
    pairs ← d.kv.iter_prefix s (module_prefix d namespace module_id)
    fail_if (elim pairs [ [] ↦ true | _ ∷ _ ↦ false ]) Error.no_module
    d.module_codec.unmarshal (joined pairs)

-- ===== src/Registry/Writing.antt =====
-- The loop over the parts of a module, in `RegisterModule` of virtual/registry/kv_registry.go.
use nola.Base.{
  ℕ, zero, suc, ◌+◌, ◌≤◌, ◌≡◌, refl, String, none, [], ◌∷◌, Bytes, length, length-drop, drop, take,
  ok, ◌>>=◌, arith,
}
use nola.Registry.State.{Deps, ModuleOptions, module_part_key}
use nola.Registry.Modules.{part_size, put_parts, register_module}

-- A set of states in which every put succeeds, and leads to a state of the set.
abbrev pub AcceptsPuts : (d : Deps) → (d.kv.State → Type 0) → Type 0
AcceptsPuts d P =
    (s : d.kv.State) (k v : Bytes) → P s → (t : d.kv.State) × (d.kv.put s k v ≡ ok t) × P t

module _ (d : Deps) (P : d.kv.State → Type 0) (puts : AcceptsPuts d P)
    (namespace module_id : String) where
  put_parts_total :
      (fuel i : ℕ) (m : Bytes) (s : d.kv.State)
      → length m ≤ fuel
      → P s
      → (t : d.kv.State) × (put_parts d fuel namespace module_id i m s ≡ ok t) × P t
  unfolding put_parts ◌>>=◌
  put_parts_total fuel i [] s enough p = (s, refl, p)
  put_parts_total zero i (b ∷ m) s enough p = absurd (omega (arith, enough))
  put_parts_total (suc fuel) i (b ∷ m) s enough p =
      let (s', put, p') =
        puts s (module_part_key d namespace module_id i) (take part_size (b ∷ m)) p in
      let rest = drop part_size (b ∷ m) in
      let fewer : length rest ≤ fuel = omega (arith, length-drop part_size (b ∷ m), enough) in
      let (t, done, p'') = put_parts_total fuel (i + 1) rest s' fewer p' in (t, rw put done, p'')

  -- In a state of a set in which every put succeeds and leads to the set, where the module's first
  -- part is not there, and whose record is marshaled to any number of bytes: the loop of
  -- `RegisterModule` over the parts ends, `RegisterModule` succeeds, and its state is of the set.
  pub register_module_total :
      (module_bytes : Bytes) (opts : ModuleOptions) (marshaled : Bytes) (s : d.kv.State)
      → P s
      → d.kv.get s (module_part_key d namespace module_id 0) ≡ ok none
      → d.module_codec.marshal (record { bytes = module_bytes; opts = opts }) ≡ ok marshaled
      → (t : d.kv.State) × (register_module d namespace module_id module_bytes opts s ≡ ok t) × P t
  unfolding register_module ◌>>=◌
  register_module_total module_bytes opts marshaled s p missing e =
      let (t, done, q) = put_parts_total (length marshaled) 0 marshaled s (omega arith) p in
      (t, rw (missing, e) done, q)

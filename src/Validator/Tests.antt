-- ===== src/Validator/Tests.antt =====
-- The validator at a module of one byte, over an in-memory store.
use nola.Base.{◌≡◌, ◌↔◌, refl, str_eq, [], ◌∷◌, ok, err, ◌>>=◌, false}
use nola.Types.{Error}
use nola.Concrete.Packages.{deps}
use nola.Registry.State.{ModuleOptions}
use nola.Registry.Modules.{register_module}
use nola.Registry.Tests.{Store, state_or, with_module}
use nola.Validator.Strings.{
  validate_string, IsValid, validate_string-eq-ok_iff, trim_space, is_space,
}
use nola.Validator.Calls.{validated_register_module}
use nola.Validator.Accepting.{IsModule, validated_register_module-eq-ok_iff}

-- A name with an inner space, and one that ends in a space.
inner_space : validate_string "a b" ≡ ok tt
unfolding validate_string trim_space is_space ◌>>=◌ str_eq
inner_space = refl

last_space : validate_string "ab " ≡ err Error.argument_has_whitespace
unfolding validate_string trim_space is_space ◌>>=◌ str_eq
last_space = refl

validate_string-eq-ok_iff_example : (validate_string "a b" ≡ ok tt) ↔ IsValid "a b"
validate_string-eq-ok_iff_example = validate_string-eq-ok_iff "a b"

abbrev no_empty : ModuleOptions
no_empty = record { allow_empty_module_bytes = false }

-- The store after the registration of the module "w".
abbrev registered_w : Store
registered_w = state_or with_module (register_module deps "n" "w" (1 ∷ []) no_empty with_module)

validated_register_module-eq-ok_iff_example :
    (validated_register_module deps "n" "w" (1 ∷ []) no_empty with_module ≡ ok registered_w) ↔ (
      IsValid "n"
      × IsValid "w"
      × IsModule (1 ∷ []) no_empty
      × (register_module deps "n" "w" (1 ∷ []) no_empty with_module ≡ ok registered_w))
validated_register_module-eq-ok_iff_example =
    validated_register_module-eq-ok_iff deps "n" "w" (1 ∷ []) no_empty with_module registered_w

n-IsValid : IsValid "n"
unfolding validate_string trim_space is_space ◌>>=◌ str_eq
n-IsValid = (validate_string-eq-ok_iff "n").0 refl

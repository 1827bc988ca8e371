-- ===== src/Host/Tests.antt =====
-- The theorems on transactions over the registry of the tests.
use nola.Base.{ℕ, ◌≡◌, refl, none, [], ◌∷◌, ok, err, panic, arith}
use nola.Types.{Error, VirtualRef, IdType}
use nola.Concrete.Packages.{deps}
use nola.Registry.Tests.{with_actor, with_server, ref_x, opened, b-ne-a, put-never_fails}
use nola.Host.Lazy.{Program, done, put_then, transact}
use nola.Host.Transacting.{refused_run, transact_plainly, transact-eq-transact_plainly}
use nola.Host.Registered.{
  World, registry_storage, IsRestored, transact-IsRestored, moved_actor_cannot_write,
}

abbrev pub actor_x : VirtualRef
actor_x = record {
  namespace = "n";
  module_id = "m";
  actor_id = "x";
  generation = 1;
  id_type = IdType.actor;
}

-- Puts a value and answers seven, or the error of the put.
abbrev put_seven : Program ℕ
put_seven =
    put_then (7 ∷ []) (1 ∷ []) (λ r. done (elim r [ ok _ ↦ ok 7 | err e ↦ err e | panic ↦ panic ]))

-- Puts a value, and fails.
abbrev put_and_fail : Program ℕ
put_and_fail = put_then (7 ∷ []) (1 ∷ []) (λ r. done (err Error.no_module))

abbrev pub at_rest : World deps
at_rest = record { state = with_actor; saved = none }

transact-eq-transact_plainly_example :
    transact (registry_storage deps) actor_x "a" 1 put_seven at_rest
    ≡ transact_plainly (registry_storage deps) actor_x "a" 1 put_seven at_rest
transact-eq-transact_plainly_example =
    transact-eq-transact_plainly (registry_storage deps) actor_x "a" 1 put_seven at_rest

transact-IsRestored_example :
    IsRestored deps at_rest (transact (registry_storage deps) actor_x "a" 1 put_and_fail at_rest)
transact-IsRestored_example =
    transact-IsRestored deps actor_x "a" 1 put_and_fail at_rest (λ s e h. ground (arith, h))

moved_actor_cannot_write_example :
    transact (registry_storage deps) actor_x "b" 1 put_seven at_rest
    ≡ (err Error.wrong_server_id, at_rest)
unfolding opened refused_run
moved_actor_cannot_write_example =
    moved_actor_cannot_write deps "n" "x" "m" 1 (ok 20) with_server (ref_x 1) [] with_actor "b" 1
      put_seven put-never_fails refl refl b-ne-a tt

-- ===== src/References.antt =====
-- What a reference carries: the constructors of virtual/types/ref.go and virtual_ref.go.
use nola.Base.{ℕ, ◌↔◌, ap, sym, ◌∙◌, ◌≡◌, ◌≢◌, String, str_eq_iff, str_eq_ne, ok, arith, ◌>>=◌}
use nola.Types.{ActorRef, IdType, new_actor_reference, new_virtual_actor_reference}

-- The reference made of its parts.
abbrev pub actor_ref_of : String → ℕ → String → String → String → String → ℕ → ActorRef
actor_ref_of server_id server_version address namespace module_id actor_id generation = record {
  virtual_ref = record {
    namespace = namespace;
    module_id = module_id;
    actor_id = actor_id;
    generation = generation;
    id_type = IdType.actor;
  };
  server_id = server_id;
  server_version = server_version;
  address = address;
}

abbrev pub IsNamed : String → String → String → ℕ → Type 0
IsNamed namespace module_id actor_id generation =
    (namespace ≢ "") × (module_id ≢ "") × (actor_id ≢ "") × (generation ≢ 0)

pub new_virtual_actor_reference_made :
    (namespace module_id actor_id : String) (generation : ℕ)
    → IsNamed namespace module_id actor_id generation
    → new_virtual_actor_reference namespace module_id actor_id generation
      ≡ ok (actor_ref_of "" 0 "" namespace module_id actor_id generation).virtual_ref
unfolding new_virtual_actor_reference ◌>>=◌
new_virtual_actor_reference_made namespace module_id actor_id generation (n, m, a, g) =
    rw (str_eq_ne namespace "" n, str_eq_ne module_id "" m, str_eq_ne actor_id "" a) (ground arith)

module _ (server_id : String) (server_version : ℕ) (address namespace module_id actor_id : String)
    (generation : ℕ) where
  pub new_actor_reference-eq_ok :
      (r : ActorRef)
      → new_actor_reference server_id server_version address namespace module_id actor_id generation
        ≡ ok r
      → r ≡ actor_ref_of server_id server_version address namespace module_id actor_id generation
  unfolding new_actor_reference ◌>>=◌
  new_actor_reference-eq_ok r h = ground arith

  pub new_actor_reference-IsNamed :
      (r : ActorRef)
      → new_actor_reference server_id server_version address namespace module_id actor_id generation
        ≡ ok r
      → IsNamed namespace module_id actor_id generation × (server_id ≢ "") × (address ≢ "")
  unfolding new_actor_reference ◌>>=◌
  new_actor_reference-IsNamed r h = (
    (
      λ e. ground (arith, str_eq_iff namespace ""),
      λ e. ground (arith, str_eq_iff module_id ""),
      λ e. ground (arith, str_eq_iff actor_id ""),
      λ e. ground arith,
    ),
    λ e. ground (arith, str_eq_iff server_id ""),
    λ e. ground (arith, str_eq_iff address ""),
  )

  pub new_actor_reference_made :
      IsNamed namespace module_id actor_id generation
      → server_id ≢ ""
      → address ≢ ""
      → new_actor_reference server_id server_version address namespace module_id actor_id generation
        ≡ ok (actor_ref_of server_id server_version address namespace module_id actor_id generation)
  unfolding new_actor_reference ◌>>=◌
  new_actor_reference_made (n, m, a, g) i x =
      rw
        (
          str_eq_ne namespace "" n,
          str_eq_ne module_id "" m,
          str_eq_ne actor_id "" a,
          str_eq_ne server_id "" i,
          str_eq_ne address "" x,
        )
        (ground arith)

  -- `NewActorReference` succeeds exactly when none of the names, the server ID and the address is
  -- empty and the generation is not zero, and its reference carries all its arguments.
  pub new_actor_reference-eq-ok_iff :
      (r : ActorRef)
      → (new_actor_reference server_id server_version address namespace module_id actor_id
            generation
          ≡ ok r)
        ↔ ((r
              ≡ actor_ref_of server_id server_version address namespace module_id actor_id
                  generation)
            × IsNamed namespace module_id actor_id generation
            × (server_id ≢ "")
            × (address ≢ ""))
  new_actor_reference-eq-ok_iff r = (
    λ h.
        let (n, i, x) = new_actor_reference-IsNamed r h in (new_actor_reference-eq_ok r h, n, i, x),
    λ p. let (e, n, i, x) = p in new_actor_reference_made n i x ∙ ap ok (sym e),
  )

-- ===== src/Activations/Running.antt =====
-- Goroutines in `invoke` and in the garbage collection, interleaved (virtual/activations.go). A step
-- is a critical section, or what a goroutine does between two of them.
use nola.Base.{ℕ, ◌==◌, ◌≡◌, Bool, true, false, Option, none, some, if◌then◌else◌}
use nola.Types.{IdType}
use nola.Activations.State.{
  Reference, virtual_ref, Stage, preparing, instantiating, failing, cleared, rejected, open_actor,
  collecting, Activations, Call, Position, begun, waiting, rechecking, creating, invoking, returned,
  begin_invoke, after_wait, recheck, created, ran, close_previous, instantiate, clear_failed,
  reject_future, collect, on_gc, collecting_early, collected_early, collect_early, on_gc_early,
  resolve_collecting, resolve_collected,
}

pub record System : Type 0 where
  pub shared : Activations
  pub positions : ℕ → Position

-- The goroutine `i` comes to the position `p`.
unfoldable pub moved : ℕ → Position → (ℕ → Position) → ℕ → Position
moved i p positions j = if i == j then p else positions j

abbrev pub move : ℕ → Position → System → System
move i p s = record s { positions = moved i p s.positions }

-- The goroutine `i` runs a critical section.
abbrev pub locked_move : ℕ → Activations × Position → System → System
locked_move i (a, p) s = record { shared = a; positions = moved i p s.positions }

abbrev pub with_shared : Activations → System → System
with_shared a s = record s { shared = a }

abbrev pub stage_at : System → ℕ → Stage
stage_at s f = (s.shared.futures f).stage

-- The goroutine `i` runs `invoke` for the call `calls i`. `early` says whether the timer of the garbage
-- collection may be due before the startup of its actor is over and the future resolved.
pub data Step (early : Bool) (calls : ℕ → Call) : System → System → Type 0 where
  begin_step :
      {s : System} (i : ℕ)
      → s.positions i ≡ begun
      → s.shared.locked ≡ false
      → Step early calls s (locked_move i (begin_invoke (calls i) s.shared) s)
  wait_step :
      {s : System} (i f : ℕ) (p : Position)
      → s.positions i ≡ waiting f
      → after_wait (calls i) f s.shared ≡ some p
      → Step early calls s (move i p s)
  recheck_step :
      {s : System} (i f : ℕ)
      → s.positions i ≡ rechecking f
      → s.shared.locked ≡ false
      → Step early calls s (locked_move i (recheck (calls i) f s.shared) s)
  created_step :
      {s : System} (i f : ℕ) (p : Position)
      → s.positions i ≡ creating f
      → created f (stage_at s f) ≡ some p
      → Step early calls s (move i p s)
  run_step :
      {s : System} (i f : ℕ)
      → s.positions i ≡ invoking f
      → Step early calls s (move i (returned (ran (stage_at s f))) s)
  close_step :
      {s : System} (g : ℕ) (prev : Option ℕ)
      → stage_at s g ≡ preparing prev
      → Step early calls s (with_shared (close_previous g prev s.shared) s)
  instantiate_step :
      {s : System} (g : ℕ) (success : Bool)
      → stage_at s g ≡ instantiating
      → Step early calls s (with_shared (instantiate success g s.shared) s)
  clear_step :
      {s : System} (g : ℕ)
      → stage_at s g ≡ failing
      → Step early calls s (with_shared (clear_failed g s.shared) s)
  reject_step :
      {s : System} (g : ℕ)
      → stage_at s g ≡ cleared
      → Step early calls s (with_shared (reject_future g s.shared) s)
  collect_step :
      {s : System} (f : ℕ)
      → stage_at s f ≡ open_actor
      → Step early calls s (with_shared (collect f s.shared) s)
  forget_step :
      {s : System} (f : ℕ)
      → stage_at s f ≡ collecting
      → s.shared.locked ≡ false
      → Step early calls s (with_shared (on_gc f s.shared) s)
  collect_early_step :
      {s : System} (g : ℕ)
      → early ≡ true
      → stage_at s g ≡ instantiating
      → Step early calls s (with_shared (collect_early g s.shared) s)
  forget_early_step :
      {s : System} (g : ℕ)
      → early ≡ true
      → stage_at s g ≡ collecting_early
      → s.shared.locked ≡ false
      → Step early calls s (with_shared (on_gc_early g s.shared) s)
  resolve_collecting_step :
      {s : System} (g : ℕ)
      → early ≡ true
      → stage_at s g ≡ collecting_early
      → Step early calls s (with_shared (resolve_collecting g s.shared) s)
  resolve_collected_step :
      {s : System} (g : ℕ) (success : Bool)
      → early ≡ true
      → stage_at s g ≡ collected_early
      → Step early calls s (with_shared (resolve_collected success g s.shared) s)

abbrev nobody : Reference
nobody = virtual_ref (record {
  namespace = "";
  module_id = "";
  actor_id = "";
  generation = 0;
  id_type = IdType.actor;
})

-- `newActivations`, before any call. The futures that are not made yet are rejected ones.
abbrev pub new_activations : Activations
new_activations = record {
  locked = false;
  actors = λ k. none;
  next = 0;
  futures = λ f. record { reference = nobody; stage = rejected };
}

abbrev pub initial : System
initial = record { shared = new_activations; positions = λ i. begun }

pub data Reachable (early : Bool) (calls : ℕ → Call) : System → Type 0 where
  start : Reachable early calls initial
  next : {s t : System} → Reachable early calls s → Step early calls s t → Reachable early calls t

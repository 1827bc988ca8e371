-- ===== src/Activations/Tests.antt =====
-- A run of three calls of one actor, the second and third at the next generation.
use nola.Base.{ℕ, zero, suc, ◌≡◌, ◌≢◌, ◌≤◌, refl, true, false, none, arith, str_eq}
use nola.Types.{IdType, actor_id_of}
use nola.Activations.State.{
  Reference, virtual_ref, Call, begun, rechecking, creating, invoking, returned, generation_too_low,
  id_of, same_id, same_virtual, same_reference, set_actor, set_future, set_stage, install,
  begin_invoke, after_wait, recheck, close_actor, close_previous, instantiate, open_actor,
  collect_early, on_gc_early, resolve_collected, clear_failed,
}
use nola.Activations.Invariant.{key_of, stage_of}
use nola.Activations.Knowing.{generation_at}
use nola.Activations.Running.{
  System, begin_step, wait_step, recheck_step, created_step, close_step, instantiate_step,
  clear_step, collect_early_step, forget_early_step, resolve_collected_step, moved, initial,
  locked_move, move, with_shared, Reachable, start, next,
}
use nola.Activations.Safety.{invoking_fits, timer_creates_nothing}
use nola.Activations.Opening.{one_open_instance}
use nola.Activations.Deadlock.{still, changed_future_deadlocks}

abbrev at_generation : ℕ → Reference
at_generation n = virtual_ref (record {
  namespace = "n";
  module_id = "m";
  actor_id = "x";
  generation = n;
  id_type = IdType.actor;
})

-- Goroutine 0 asks for generation 1, goroutines 1 and 2 for generation 2, the others are timers.
abbrev calls : ℕ → Call
calls zero = record { reference = at_generation 1; is_timer = false }
calls (suc zero) = record { reference = at_generation 2; is_timer = false }
calls (suc (suc zero)) = record { reference = at_generation 2; is_timer = false }
calls _ = record { reference = at_generation 1; is_timer = true }

-- What the run computes with.
opened : Unit {0}
unfolding actor_id_of same_id same_virtual same_reference set_actor set_future set_stage install
    begin_invoke after_wait recheck close_actor close_previous instantiate moved str_eq
    collect_early on_gc_early resolve_collected clear_failed
opened = tt

abbrev after_begin : ℕ → System → System
after_begin i s = locked_move i (begin_invoke (calls i) s.shared) s

-- The actor is created, and goroutine 0 is about to run it.
abbrev first_open : System
first_open =
    let s = after_begin 0 initial in
    let t = with_shared (close_previous 0 none s.shared) s in
    let u = with_shared (instantiate true 0 t.shared) t in move 0 (invoking 0) u

first_reached : Reachable false calls first_open
unfolding opened
first_reached =
    next
      (next (next (next start (begin_step 0 refl refl)) (close_step 0 none refl))
        (instantiate_step 0 true refl))
      (created_step 0 0 (invoking 0) refl refl)

-- Goroutines 1 and 2 have both found it too old, and goroutine 1 has put a new future into its place.
abbrev both_recheck : System
both_recheck =
    move 2 (rechecking 0) (move 1 (rechecking 0) (after_begin 2 (after_begin 1 first_open)))

abbrev replaced : System
replaced = locked_move 1 (recheck (calls 1) 0 both_recheck.shared) both_recheck

replaced_reached : Reachable false calls replaced
unfolding opened
replaced_reached =
    next
      (next
        (next (next (next first_reached (begin_step 1 refl refl)) (begin_step 2 refl refl))
          (wait_step 1 0 (rechecking 0) refl refl))
        (wait_step 2 0 (rechecking 0) refl refl))
      (recheck_step 1 0 refl refl)

changed_future_deadlocks_example :
    ((recheck (calls 2) 0 replaced.shared).1 ≡ returned generation_too_low)
    × ((recheck (calls 2) 0 replaced.shared).0.locked ≡ true)
    × ((j : ℕ)
        → replaced.positions j ≡ begun
        → (locked_move 2 (recheck (calls 2) 0 replaced.shared) replaced).positions j ≡ begun)
unfolding opened
changed_future_deadlocks_example =
    changed_future_deadlocks false calls replaced _ 2 0 1 replaced_reached refl refl
      (λ e. absurd (omega (arith, e))) still

one_open_instance_example : ◌≡◌ {A = ℕ} 0 0
unfolding opened
one_open_instance_example = one_open_instance calls first_open 0 0 first_reached refl refl refl

invoking_fits_example :
    (key_of first_open.shared 0 ≡ id_of (at_generation 1)) × (1 ≤ generation_at first_open.shared 0)
unfolding opened
invoking_fits_example = invoking_fits false calls first_open 0 0 first_reached refl

timer_creates_nothing_example :
    (first_open.positions 3 ≢ creating 0) × (first_open.positions 3 ≢ rechecking 0)
timer_creates_nothing_example = timer_creates_nothing false calls first_open 3 0 first_reached refl

-- The timer of the first actor is due before its startup fails. Goroutine 1 has opened the actor anew
-- when the first future is taken out of the map; then goroutine 2 opens it once more.
abbrev early_collected : System
early_collected =
    let s = after_begin 0 initial in
    let t = with_shared (close_previous 0 none s.shared) s in
    let u = with_shared (collect_early 0 t.shared) t in with_shared (on_gc_early 0 u.shared) u

early_collected_reached : Reachable true calls early_collected
unfolding opened
early_collected_reached =
    next
      (next (next (next start (begin_step 0 refl refl)) (close_step 0 none refl))
        (collect_early_step 0 refl refl))
      (forget_early_step 0 refl refl refl)

abbrev opened_by : ℕ → ℕ → System → System
opened_by i f s =
    let t = after_begin i s in
    let u = with_shared (close_previous f none t.shared) t in
    with_shared (instantiate true f u.shared) u

abbrev taken_out : System
taken_out =
    let s = opened_by 1 1 early_collected in
    let t = with_shared (resolve_collected false 0 s.shared) s in
    with_shared (clear_failed 0 t.shared) t

taken_out_reached : Reachable true calls taken_out
unfolding opened
taken_out_reached =
    next
      (next
        (next
          (next (next early_collected_reached (begin_step 1 refl refl)) (close_step 1 none refl))
          (instantiate_step 1 true refl))
        (resolve_collected_step 0 false refl refl))
      (clear_step 0 refl)

two_open_instances :
    Reachable true calls (opened_by 2 2 taken_out)
    × (stage_of (opened_by 2 2 taken_out).shared 1 ≡ open_actor)
    × (stage_of (opened_by 2 2 taken_out).shared 2 ≡ open_actor)
    × (key_of (opened_by 2 2 taken_out).shared 1 ≡ key_of (opened_by 2 2 taken_out).shared 2)
unfolding opened
two_open_instances = (
  next (next (next taken_out_reached (begin_step 2 refl refl)) (close_step 2 none refl))
      (instantiate_step 2 true refl),
  refl,
  refl,
  refl,
)

-- ===== src/Wazero/Tests.antt =====
-- A WASM actor that puts a value and gets it back, and its timers, over the registry of the tests.
use nola.Base.{
  ◌≡◌, ◌≢◌, String, str_eq, ◌<◌, ◌^◌, ◌↔◌, refl, true, false, some, none, [], ◌∷◌, Bytes, Option,
  Result, ok, err, arith, str_eq_iff,
}
use nola.Types.{Error}
use nola.Registry.Servers.{lt_int64}
use nola.Concrete.Packages.{deps}
use nola.Host.Lazy.{Program, done, put_then, get_then, new_lazy, run}
use nola.Host.Registered.{World, registry_storage}
use nola.Host.Tests.{actor_x, at_rest}
use nola.Wazero.Router.{
  Functions, Host, Timer, ScheduleSelfTimer, timer_of, route, schedule_self_timer_operation_name,
}
use nola.Wazero.Calling.{lifted, guest_run, guest_run-eq-run}
use nola.Wazero.Timers.{schedule-eq-ok_iff, long_timer_due_at_once}

-- Functions for which a timer is its number of milliseconds.
abbrev timer_in : Bytes → Result Error ScheduleSelfTimer
timer_in (n ∷ _) = ok (record { operation = "tick"; payload = []; after_millis = n })
timer_in [] = err Error.unmarshal_failed

abbrev functions : Functions (World deps)
functions = record {
  unmarshal_invoke = λ _. err Error.unmarshal_failed;
  unmarshal_timer = timer_in;
  invoke_actor = λ _ _ _ _ _ _ w. (ok [], w);
  custom_host_fns = λ _. none;
}

abbrev host : Host (registry_storage deps)
host = record { transaction = new_lazy (registry_storage deps); world = at_rest; timers = [] }

abbrev put_and_get : Program (Option Bytes)
put_and_get = put_then (7 ∷ []) (1 ∷ []) (λ _. get_then (7 ∷ []) (λ v. done v))

guest_run-eq-run_example :
    guest_run (registry_storage deps) "a" 1 functions actor_x put_and_get host
    ≡ lifted
        (registry_storage deps)
        []
        (run (registry_storage deps) actor_x "a" 1 put_and_get host.transaction at_rest)
guest_run-eq-run_example =
    guest_run-eq-run (registry_storage deps) "a" 1 functions actor_x put_and_get host
      (omega arith, λ _ _. tt)

abbrev second : ScheduleSelfTimer
second = record { operation = "tick"; payload = []; after_millis = 1000 }

abbrev one_timer : Host (registry_storage deps)
one_timer = record host {
  timers = timer_of (registry_storage deps) "a" 1 functions actor_x second ∷ [];
}

schedule-eq-ok_iff_example :
    (route
        (registry_storage deps)
        "a"
        1
        functions
        (record { reference = some actor_x; has_transaction = true })
        schedule_self_timer_operation_name
        (1000 ∷ [])
        host
      ≡ (ok [], one_timer))
    ↔ ((second.operation ≢ "")
        × (0 < second.after_millis)
        × (second.after_millis < 2 ^ 63)
        × (one_timer ≡ record host {
          timers = timer_of (registry_storage deps) "a" 1 functions actor_x second ∷ [];
        }))
schedule-eq-ok_iff_example =
    schedule-eq-ok_iff (registry_storage deps) "a" 1 functions actor_x true (1000 ∷ []) second host
      refl one_timer (omega arith)

-- About 317 years.
abbrev centuries : ScheduleSelfTimer
centuries = record { operation = "tick"; payload = []; after_millis = 10_000_000_000_000 }

tick-ne-empty : ◌≢◌ {A = String} "tick" ""
unfolding str_eq
tick-ne-empty h = ground (arith, (str_eq_iff "tick" "").1 h)

long_timer_due_at_once_example :
    (timer : Timer) × (route
        (registry_storage deps)
        "a"
        1
        functions
        (record { reference = some actor_x; has_transaction = true })
        schedule_self_timer_operation_name
        (10_000_000_000_000 ∷ [])
        host
      ≡ (ok [], record host { timers = timer ∷ [] }))
    × (lt_int64 0 timer.duration ≡ false)
long_timer_due_at_once_example =
    long_timer_due_at_once (registry_storage deps) "a" 1 functions actor_x true
      (10_000_000_000_000 ∷ []) centuries host refl tick-ne-empty (omega arith) (omega arith)

-- ===== src/Activated/Tests.antt =====
-- An actor and a worker over the registry of the tests.
use nola.Base.{◌≡◌, ◌≢◌, refl, true, false, none, some, [], ok, err, panic, arith}
use nola.Types.{Error, VirtualRef, IdType}
use nola.Concrete.Packages.{deps}
use nola.Host.Lazy.{Program, done, transact, lazy_commit, maybe_init_tr, new_lazy, run, settle}
use nola.Host.Registered.{registry_storage}
use nola.Host.Tests.{actor_x, at_rest}
use nola.Activated.State.{
  ActivatedActor, Reply, stream_reply, actor_failed, stream_of_bytes, rescheduled, invoke,
  close_with_lock, gc_func,
}
use nola.Activated.Closing.{IsInert, close-IsInert, invoked_not_collected}

abbrev fresh : VirtualRef → ActivatedActor
fresh reference = record {
  reference = reference;
  is_closed = false;
  last_invoke = 5;
  gc_after = 60;
  gc_timer = 65;
}

-- Answers a nil stream.
abbrev answer_nil : Program Reply
answer_nil = done (ok (stream_reply none))

abbrev invoked : ActivatedActor
invoked = record (fresh actor_x) { last_invoke = 7; gc_timer = 67 }

empty_stream :
    invoke (registry_storage deps) "a" 1 false 7 answer_nil (fresh actor_x) at_rest
    ≡ (ok (some (stream_of_bytes [])), invoked, at_rest)
unfolding invoke transact run settle lazy_commit maybe_init_tr new_lazy
empty_stream = refl

-- A worker's nil stream is handed on.
worker_nil :
    (invoke
      (registry_storage deps)
      "a"
      1
      false
      7
      answer_nil
      (fresh (record actor_x { id_type = IdType.worker }))
      at_rest).0
    ≡ ok none
unfolding invoke
worker_nil = refl

no_panic :
    (invoke (registry_storage deps) "a" 1 true 9 answer_nil (fresh actor_x) at_rest).0 ≢ panic
unfolding invoke transact run settle lazy_commit maybe_init_tr new_lazy
no_panic h = ground (arith, h)

close-IsInert_example :
    IsInert
      (registry_storage deps)
      "a"
      1
      (close_with_lock
        (registry_storage deps)
        "a"
        1
        9
        answer_nil
        (err (actor_failed Error.no_module))
        (fresh actor_x)
        at_rest).1
close-IsInert_example =
    close-IsInert (registry_storage deps) "a" 1 9 answer_nil (err (actor_failed Error.no_module))
      (fresh actor_x) at_rest no_panic

invoked_not_collected_example :
    gc_func (registry_storage deps) "a" 1 66 answer_nil (ok tt) invoked at_rest
    ≡ (ok (rescheduled 126), invoked, at_rest)
unfolding invoke transact run settle lazy_commit maybe_init_tr new_lazy
invoked_not_collected_example =
    invoked_not_collected (registry_storage deps) "a" 1 7 66 answer_nil answer_nil (ok tt)
      (fresh actor_x) at_rest at_rest refl (omega arith)

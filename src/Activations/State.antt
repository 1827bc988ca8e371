-- ===== src/Activations/State.antt =====
-- The state of `activations` (virtual/activations.go) and the critical sections of `invoke`,
-- `invokeNotExistWithLock` and the garbage collection.
use nola.Base.{
  ℕ, suc, ◌==◌, leb, str_eq, Bool, true, false, ◌&&◌, not, Option, none, some, if◌then◌else◌,
}
use nola.Types.{VirtualRef, ActorRef, NamespacedActorId, IdType, actor, worker, actor_id_of}

-- A value of the interface `types.ActorReferenceVirtual`: the struct `virtualRef` or `actorRef`.
pub data Reference : Type 0 where
  virtual_ref : VirtualRef → Reference
  actor_ref : ActorRef → Reference

abbrev pub virtual_of : Reference → VirtualRef
virtual_of (virtual_ref r) = r
virtual_of (actor_ref r) = r.virtual_ref

abbrev pub generation_of : Reference → ℕ
generation_of r = (virtual_of r).generation

abbrev pub id_of : Reference → NamespacedActorId
id_of r = actor_id_of (virtual_of r)

abbrev pub same_type : IdType → IdType → Bool
same_type actor actor = true
same_type worker worker = true
same_type _ _ = false

-- `==` on the keys of the map.
unfoldable pub same_id : NamespacedActorId → NamespacedActorId → Bool
same_id a b =
    str_eq a.namespace b.namespace
    && str_eq a.id b.id
    && str_eq a.module_id b.module_id
    && same_type a.id_type b.id_type

unfoldable pub same_virtual : VirtualRef → VirtualRef → Bool
same_virtual a b =
    str_eq a.namespace b.namespace
    && str_eq a.module_id b.module_id
    && str_eq a.actor_id b.actor_id
    && a.generation == b.generation
    && same_type a.id_type b.id_type

-- `==` on values of the interface, which compares structs field by field.
unfoldable pub same_reference : Reference → Reference → Bool
unfolding same_virtual
same_reference (virtual_ref a) (virtual_ref b) = same_virtual a b
same_reference (actor_ref a) (actor_ref b) =
    same_virtual a.virtual_ref b.virtual_ref
    && str_eq a.server_id b.server_id
    && a.server_version == b.server_version
    && str_eq a.address b.address
same_reference _ _ = false

-- How far the function behind a future has come, and then the actor that the future holds.
pub data Stage : Type 0 where
  -- The previous instance of the actor, if any, is still to be closed.
  preparing : Option ℕ → Stage
  instantiating : Stage
  -- As before, but the actor has been closed by the garbage collection, whose timer was due before
  -- its startup was over, and which has still to call `onGc`.
  collecting_early : Stage
  -- As before, after `onGc`.
  collected_early : Stage
  -- An error, with the future still to be taken out of the map.
  failing : Stage
  -- Taken out of the map, and still to be resolved.
  cleared : Stage
  rejected : Stage
  -- Resolved, and the actor is not closed.
  open_actor : Stage
  -- Closed by the garbage collection, which has still to call `onGc`.
  collecting : Stage
  closed_actor : Stage

-- A future with its actor. Its number stands for the pointer.
pub record Instance : Type 0 where
  pub reference : Reference
  pub stage : Stage

-- `locked` is true while a goroutine keeps the lock outside of its critical sections.
pub record Activations : Type 0 where
  pub locked : Bool
  pub actors : NamespacedActorId → Option ℕ
  pub next : ℕ
  pub futures : ℕ → Instance

-- The arguments of `invoke` on which its way depends.
pub record Call : Type 0 where
  pub reference : Reference
  pub is_timer : Bool

pub data Outcome : Type 0 where
  -- The reader and the error are nil.
  nothing : Outcome
  -- The actor ran its operation.
  invoked : Outcome
  actor_closed : Outcome
  activation_failed : Outcome
  generation_too_low : Outcome

-- Where a goroutine in `invoke` stands.
pub data Position : Type 0 where
  begun : Position
  -- At `actorF.Wait()`, of a future that was in the map.
  waiting : ℕ → Position
  -- About to take the lock again, since the actor of the future is too old.
  rechecking : ℕ → Position
  -- At `fut.Wait()`, of the future that it has put into the map itself.
  creating : ℕ → Position
  invoking : ℕ → Position
  returned : Outcome → Position

unfoldable pub set_actor :
    NamespacedActorId → Option ℕ → (NamespacedActorId → Option ℕ) → NamespacedActorId → Option ℕ
set_actor id f actors k = if same_id id k then f else actors k

unfoldable pub set_future : ℕ → Instance → (ℕ → Instance) → ℕ → Instance
set_future f x futures g = if f == g then x else futures g

unfoldable pub set_stage : ℕ → Stage → Activations → Activations
unfolding set_future
set_stage f stage s = record s {
  futures = set_future f (record (s.futures f) { stage = stage }) s.futures;
}

-- The critical section of `invokeNotExistWithLock`.
unfoldable pub install : Call → Option ℕ → Activations → Activations × Position
unfolding set_actor set_future
install call prev s = (
  record s {
    actors = set_actor (id_of call.reference) (some s.next) s.actors;
    next = suc s.next;
    futures =
        set_future s.next (record { reference = call.reference; stage = preparing prev }) s.futures;
  },
  creating s.next,
)

-- `invoke` up to the first release of the lock, after the lookup.
abbrev pub begin_with : Call → Activations → Option ℕ → Activations × Position
begin_with call s none = if call.is_timer then (s, returned nothing) else install call none s
begin_with call s (some f) = (s, waiting f)

unfoldable pub begin_invoke : Call → Activations → Activations × Position
unfolding install
begin_invoke call s = begin_with call s (s.actors (id_of call.reference))

-- `invoke` after the future has resolved, up to the call of the actor or the second lock.
abbrev pub with_actor : Call → ℕ → Instance → Position
with_actor call f x =
    if call.is_timer && not (same_reference x.reference call.reference)
    then returned nothing
    else if leb (generation_of call.reference) (generation_of x.reference)
    then invoking f
    else rechecking f

-- `none` while the future is not resolved.
abbrev pub waited : Call → ℕ → Instance → Stage → Option Position
waited call f x (preparing _) = none
waited call f x instantiating = none
waited call f x collecting_early = none
waited call f x collected_early = none
waited call f x failing = none
waited call f x cleared = none
waited call f x rejected = some (returned activation_failed)
waited call f x open_actor = some (with_actor call f x)
waited call f x collecting = some (with_actor call f x)
waited call f x closed_actor = some (with_actor call f x)

unfoldable pub after_wait : Call → ℕ → Activations → Option Position
unfolding same_reference
after_wait call f s = waited call f (s.futures f) (s.futures f).stage

-- The second critical section of `invoke`. Where the future has changed, the code returns without
-- releasing the lock.
abbrev pub recheck_with : Call → ℕ → Activations → Option ℕ → Activations × Position
recheck_with call f s none = install call none s
recheck_with call f s (some g) = if g == f then install call (some f) s else (
  record s { locked = true },
  if leb (generation_of call.reference) (generation_of (s.futures f).reference)
      then invoking f
      else returned generation_too_low,
)

unfoldable pub recheck : Call → ℕ → Activations → Activations × Position
unfolding install
recheck call f s = recheck_with call f s (s.actors (id_of call.reference))

-- `close` on an actor: an open one is closed, one that is closed stays as it is.
abbrev pub close_if : ℕ → Stage → Activations → Activations
close_if f open_actor s = set_stage f closed_actor s
close_if f _ s = s

unfoldable pub close_actor : ℕ → Activations → Activations
unfolding set_stage
close_actor f s = close_if f (s.futures f).stage s

-- The function behind the future `g`, in its steps: the previous instance is closed; the module is
-- ensured and the actor instantiated and started, which succeeds or not; after an error the
-- deferred function takes the future out of the map.
unfoldable pub close_previous : ℕ → Option ℕ → Activations → Activations
unfolding close_actor set_stage
close_previous g none s = set_stage g instantiating s
close_previous g (some f) s = set_stage g instantiating (close_actor f s)

unfoldable pub instantiate : Bool → ℕ → Activations → Activations
unfolding set_stage
instantiate success g s = set_stage g (if success then open_actor else failing) s

abbrev pub remove_actor : NamespacedActorId → Activations → Activations
remove_actor id s = record s { actors = set_actor id none s.actors }

unfoldable pub clear_failed : ℕ → Activations → Activations
unfolding set_stage set_actor
clear_failed g s = remove_actor (id_of (s.futures g).reference) (set_stage g cleared s)

unfoldable pub reject_future : ℕ → Activations → Activations
unfolding set_stage
reject_future g s = set_stage g rejected s

-- `fut.Wait()` of the goroutine that created the future.
abbrev pub created : ℕ → Stage → Option Position
created g (preparing _) = none
created g instantiating = none
created g collecting_early = none
created g collected_early = none
created g failing = none
created g cleared = none
created g rejected = some (returned activation_failed)
created g _ = some (invoking g)

-- `activatedActor.invoke`, which fails on a closed actor.
abbrev pub ran : Stage → Outcome
ran open_actor = invoked
ran _ = actor_closed

-- The garbage collection closes an idle actor, and then `onGc` takes it out of the map if it is
-- still there.
unfoldable pub collect : ℕ → Activations → Activations
unfolding set_stage
collect f s = set_stage f collecting s

abbrev pub forget_if : ℕ → Option ℕ → Activations → Activations
forget_if f none s = s
forget_if f (some g) s = if g == f then remove_actor (id_of (s.futures f).reference) s else s

unfoldable pub on_gc : ℕ → Activations → Activations
unfolding set_stage set_actor
on_gc f s = set_stage f closed_actor (forget_if f (s.actors (id_of (s.futures f).reference)) s)

-- The timer is set before the actor is started. If it is due before the future has resolved, the
-- garbage collection closes the actor, `onGc` takes the future out of the map, and only then is the
-- future resolved: with the closed actor if the startup had succeeded before, and otherwise with an
-- error. `onGc` runs under the lock of the actor, which a startup that fails takes once more, so that
-- only a startup that was over can have the future resolved before `onGc`.
unfoldable pub collect_early : ℕ → Activations → Activations
unfolding set_stage
collect_early g s = set_stage g collecting_early s

unfoldable pub on_gc_early : ℕ → Activations → Activations
unfolding set_stage set_actor
on_gc_early g s =
    set_stage g collected_early (forget_if g (s.actors (id_of (s.futures g).reference)) s)

unfoldable pub resolve_collecting : ℕ → Activations → Activations
unfolding set_stage
resolve_collecting g s = set_stage g collecting s

unfoldable pub resolve_collected : Bool → ℕ → Activations → Activations
unfolding set_stage
resolve_collected success g s = set_stage g (if success then closed_actor else failing) s

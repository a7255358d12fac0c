-- ===== src/Serve/Tasks.antt =====
-- crates/hookbox-server/src/serve.rs: the tasks that run in the background, as far as their handles
-- show them: how many were spawned, whether they were told to stop, and the waits for them in turn.
use hookbox.Prelude.{
  ℕ, ◌+◌, String, Bool, true, false, List, [], ◌∷◌, ◌++◌, some, Result, ok, err, leb, if◌then◌else◌,
}
use hookbox.Domain.{DateTime}
use hookbox.Worker.Dispatch.{EmitterHealth, HealthStatus}

-- The handle of a task is its number.
abbrev pub Handle : Type 0
Handle = ℕ

pub record Wait : Type 0 where
  pub task : Handle
  pub after_signal : Bool

pub record Tasks : Type 0 where
  pub spawned : ℕ
  -- Whether `true` was sent on the channel that every worker watches.
  pub signalled : Bool
  pub waits : List Wait
  -- Each supervisor, with the worker's own task that it was given and awaits.
  pub supervised : List (Handle × Handle)

abbrev pub no_tasks : Tasks
no_tasks = record { spawned = 0; signalled = false; waits = []; supervised = [] }

-- `tokio::spawn`: the handle, and the tasks after it.
abbrev pub spawn_task : Tasks → Tasks
spawn_task t = record t { spawned = t.spawned + 1 }

-- `worker.spawn(..)`, and the task of `supervise_worker` on its handle.
abbrev pub spawn_supervised : Tasks → Tasks
spawn_supervised t = record t {
  spawned = t.spawned + 2;
  supervised = (t.spawned + 1, t.spawned) ∷ t.supervised;
}

-- `shutdown_tx.send(true)`.
abbrev pub send_shutdown : Tasks → Tasks
send_shutdown t = record t { signalled = true }

unfoldable pub await_task : Handle → Tasks → Tasks
await_task id t = record t {
  waits = t.waits ++ record { task = id; after_signal = t.signalled } ∷ [];
}

-- `fails` tells which handles give a `JoinError`; the names of those tasks, in turn.
unfoldable pub await_all : (Handle → Bool) → List (String × Handle) → Tasks → List String × Tasks
unfolding await_task
await_all fails [] t = ([], t)
await_all fails ((name, id) ∷ handles) t =
    let rest = await_all fails handles (await_task id t) in
    ((if fails id then name ∷ rest.0 else rest.0), rest.1)

-- The error has the names.
unfoldable pub report : List String × Tasks → Result (Unit {0}) (List String) × Tasks
report ([], t) = (ok tt, t)
report (name ∷ names, t) = (err (name ∷ names), t)

unfoldable pub drain_worker_handles :
    (Handle → Bool) → List (String × Handle) → Tasks → Result (Unit {0}) (List String) × Tasks
unfolding await_all report
drain_worker_handles fails handles t = report (await_all fails handles t)

-- How a task ends.
pub data Join : Type 0 where
  finished panicked cancelled : Join

-- `u32::saturating_add(1)`.
abbrev pub saturating_suc_u32 : ℕ → ℕ
saturating_suc_u32 n = if leb 4294967295 n then 4294967295 else n + 1

unfoldable pub degraded : DateTime → EmitterHealth → EmitterHealth
degraded now previous = record {
  last_success_at = previous.last_success_at;
  last_failure_at = some now;
  consecutive_failures = saturating_suc_u32 previous.consecutive_failures;
  status = HealthStatus.unhealthy;
  dlq_depth = previous.dlq_depth;
  pending_count = previous.pending_count;
}

-- What the supervisor makes of the end of the worker: the health, and its own end.
unfoldable pub supervise_worker : Join → DateTime → EmitterHealth → EmitterHealth × Join
unfolding degraded
supervise_worker Join.finished now health = (health, Join.finished)
supervise_worker Join.panicked now health = (degraded now health, Join.panicked)
supervise_worker Join.cancelled now health = (degraded now health, Join.finished)

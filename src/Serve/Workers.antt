-- ===== src/Serve/Workers.antt =====
-- crates/hookbox-server/src/serve.rs: `spawn_emitter_workers`, with what it leaves on an error.
use Prim.Native.Nat.{Ordering, ◌^◌}
use Prim.Native.String.{compare, ◌++◌ as text_append}
use hookbox.Prelude.{
  Bool, ℕ, ◌+◌, ℤ, pos, negsuc, ◌*◌, ◌-◌, ltb, String, Option, none, some, List, [], ◌∷◌, ◌++◌,
  Result, ok, err, if◌then◌else◌,
}
use hookbox.Pipeline.Traits.{Emitter}
use hookbox.Config.Emitters.{EmitterEntry, into_policy, to_emitter_config}
use hookbox.Emitters.Brokers.{Brokers}
use hookbox.Emitters.Local.{Channels}
use hookbox.Bootstrap.Factory.{FactoryError, BuiltEmitter, build_emitter}
use hookbox.Worker.Dispatch.{Chance, EmitterHealth, HealthStatus, EmitterWorker}
use hookbox.Serve.Tasks.{
  Handle, Tasks, spawn_task, spawn_supervised, send_shutdown, drain_worker_handles,
}

-- `EmitterHealth::default()`.
unfoldable pub fresh_health : EmitterHealth
fresh_health = record {
  last_success_at = none;
  last_failure_at = none;
  consecutive_failures = 0;
  status = HealthStatus.healthy;
  dlq_depth = 0;
  pending_count = 0;
}

-- `BTreeMap::insert`.
unfoldable pub insert_health :
    String → EmitterHealth → List (String × EmitterHealth) → List (String × EmitterHealth)
insert_health name h [] = (name, h) ∷ []
insert_health name h ((n, g) ∷ m) =
    let rest = insert_health name h m in
    elim (compare name n) [
      | Ordering.lt ↦ (name, h) ∷ (n, g) ∷ m
      | Ordering.eq ↦ (n, h) ∷ m
      | Ordering.gt ↦ (n, g) ∷ rest
    ]

-- 30 seconds, in microseconds as the leases are.
abbrev pub default_lease_duration : ℕ
default_lease_duration = 30000000

abbrev lease_of : Option ℕ → ℕ
lease_of none = default_lease_duration
lease_of (some seconds) = seconds * 1000000

-- `self.concurrency as i64` of a `usize`.
abbrev as_i64 : ℕ → ℤ
as_i64 n = if ltb n (2 ^ 63) then pos n else negsuc (2 ^ 64 - n - 1)

-- What has been started so far: the health by emitter, the handles by task, and the workers.
pub record Started (Json World : Type 0) : Type 0 where
  pub emitter_health : List (String × EmitterHealth)
  pub worker_handles : List (String × Handle)
  pub workers : List (EmitterWorker Json World)

abbrev pub nothing_started : {Json World : Type 0} → Started Json World
nothing_started = record { emitter_health = []; worker_handles = []; workers = [] }

module _ {Json Producer Client Connection Sender Receiver World : Type 0}
    (b : Brokers Json Producer Client Connection World) (c : Channels Json Sender Receiver World)
    (chance : Chance) (fails : Handle → Bool) where
  -- The emitter, and the handle of its drain task if it has one.
  unfoldable pub after_build :
      Result (BuiltEmitter Json Receiver World) FactoryError × World
      → Tasks
      → Result (Emitter Json World × Option Handle) FactoryError × World × Tasks
  after_build (ok (BuiltEmitter.ready emitter), w) t = (ok (emitter, none), w, t)
  after_build (ok (BuiltEmitter.channel emitter rx), w) t =
      (ok (emitter, some t.spawned), w, spawn_task t)
  after_build (err e, w) t = (err e, w, t)

  unfoldable pub build_emitter_for_entry :
      EmitterEntry
      → World
      → Tasks
      → Result (Emitter Json World × Option Handle) FactoryError × World × Tasks
  unfolding after_build build_emitter to_emitter_config
  build_emitter_for_entry entry w t = after_build (build_emitter b c (to_emitter_config entry) w) t

  unfoldable pub worker_of : EmitterEntry → Emitter Json World → EmitterWorker Json World
  unfolding into_policy
  worker_of entry emitter = record {
    name = entry.name;
    emitter = emitter;
    policy = into_policy entry.retry;
    chance = chance;
    concurrency = as_i64 entry.concurrency;
    lease_duration = lease_of entry.lease_duration_seconds;
  }

  abbrev drain_handle : String → Option Handle → List (String × Handle)
  drain_handle name none = []
  drain_handle name (some id) = (text_append name "-drain", id) ∷ []

  -- From `emitter_health.insert` to the push of the supervisor, which is the task that is awaited; it
  -- is spawned after the worker's own.
  unfoldable pub start_worker :
      EmitterEntry
      → Emitter Json World
      → Option Handle
      → Tasks
      → Started Json World
      → Started Json World
  unfolding worker_of fresh_health insert_health
  start_worker entry emitter drain t s = record {
    emitter_health = insert_health entry.name fresh_health s.emitter_health;
    worker_handles =
        (s.worker_handles ++ drain_handle entry.name drain) ++ (entry.name, t.spawned + 1) ∷ [];
    workers = s.workers ++ worker_of entry emitter ∷ [];
  }

  -- The rollback: the workers are told to stop and awaited, and the first error is returned.
  unfoldable pub roll_back :
      FactoryError
      → World
      → List (String × Handle)
      → Tasks
      → Result (Started Json World) FactoryError × World × Tasks
  unfolding drain_worker_handles
  roll_back e w handles t = (err e, w, (drain_worker_handles fails handles (send_shutdown t)).1)

  -- After an entry; `rest` is the loop over the entries that follow.
  unfoldable pub spawn_next :
      EmitterEntry
      → (World
          → Tasks
          → Started Json World
          → Result (Started Json World) FactoryError × World × Tasks)
      → Result (Emitter Json World × Option Handle) FactoryError × World × Tasks
      → Started Json World
      → Result (Started Json World) FactoryError × World × Tasks
  unfolding start_worker roll_back
  spawn_next entry rest (ok (emitter, drain), w, t) s =
      rest w (spawn_supervised t) (start_worker entry emitter drain t s)
  spawn_next entry rest (err e, w, t) s = roll_back e w s.worker_handles t

  -- The loop over the entries.
  unfoldable pub spawn_emitter_workers :
      List EmitterEntry
      → World
      → Tasks
      → Started Json World
      → Result (Started Json World) FactoryError × World × Tasks
  unfolding build_emitter_for_entry spawn_next
  spawn_emitter_workers [] w t s = (ok s, w, t)
  spawn_emitter_workers (entry ∷ entries) w t s =
      spawn_next entry (spawn_emitter_workers entries) (build_emitter_for_entry entry w t) s

-- ===== src/Examples/Serve.antt =====
-- The theorems on crates/hookbox-server/src/serve.rs at concrete values.
use mathlib.Core.List.{Memᴰ}
use hookbox.Prelude.{ℕ, pos, false, none, some, [], ◌∷◌, ok, map, ◌≡◌, ◌≢◌, refl}
use hookbox.Config.Sections.{default_server, default_dedupe, default_retry}
use hookbox.Config.Emitters.{EmitterEntry, HookboxConfig, default_entry}
use hookbox.Emitters.Local.{new_channel, channel_emitter}
use hookbox.Worker.Dispatch.{EmitterWorker}
use hookbox.Routes.Health.{Ping, readyz}
use hookbox.Serve.Tasks.{Join, no_tasks, supervise_worker}
use hookbox.Serve.Workers.{Started, fresh_health, worker_of, nothing_started, spawn_emitter_workers}
use hookbox.Serve.Started.{names_of, spawn_emitter_workers-readyz}
use hookbox.Serve.Supervised.{supervise_worker-readyz}
use hookbox.Serve.Inner.{Surroundings, serve_inner}
use hookbox.Serve.Drained.{Ended, serve_inner-Ended}
use hookbox.Examples.Data.{worker, fresh_db, health, names}
use hookbox.Examples.Keys.{crypto, brokers, channels}

abbrev entry : EmitterEntry
unfolding default_entry
entry = record default_entry { name = "local"; emitter_type = "channel" }

abbrev config : HookboxConfig
unfolding default_server default_dedupe default_retry
config = record {
  server = default_server;
  database = record { url = "postgres://"; max_connections = 10 };
  providers = [];
  dedupe = default_dedupe;
  admin = record { bearer_token = none };
  retry = default_retry;
  emitter = none;
  emitters = entry ∷ [];
}

abbrev calm : Surroundings
calm = record { connected = ok tt; migrated = ok tt; served = ok tt; fails = λ id. false }

serve_inner-Ended_example :
    Ended calm
      (serve_inner crypto (pos 9) brokers channels worker.chance calm config fresh_db 0).0
      (serve_inner crypto (pos 9) brokers channels worker.chance calm config fresh_db 0).1
serve_inner-Ended_example =
    serve_inner-Ended crypto (pos 9) brokers channels worker.chance calm config fresh_db 0

supervise_worker-readyz_example :
    (readyz
      (some Ping.answered)
      (("kafka", (supervise_worker Join.panicked 9 health).0) ∷ [])
      names).0
    ≢ 200
unfolding supervise_worker
supervise_worker-readyz_example =
    supervise_worker-readyz Join.panicked 9 health "kafka" (some Ping.answered)
      (("kafka", (supervise_worker Join.panicked 9 health).0) ∷ []) names (λ e. cc e)
      (Memᴰ.head refl)

abbrev local_worker : EmitterWorker ℕ ℕ
unfolding new_channel channel_emitter worker_of entry
local_worker =
    worker_of brokers channels worker.chance (λ id. false) entry
      (channel_emitter channels (new_channel channels 1024).0)

abbrev running : Started ℕ ℕ
unfolding fresh_health local_worker
running = record {
  emitter_health = ("local", fresh_health) ∷ [];
  worker_handles = ("local-drain", 0) ∷ ("local", 2) ∷ [];
  workers = local_worker ∷ [];
}

spawns :
    spawn_emitter_workers brokers channels worker.chance
      (λ id. false)
      (entry ∷ [])
      0
      no_tasks
      nothing_started
    ≡ (
      ok running,
      0,
      record { spawned = 3; signalled = false; waits = []; supervised = (2, 1) ∷ [] },
    )
unfolding spawn_emitter_workers running entry
spawns = refl

spawn_emitter_workers-readyz_example :
    (map (λ (k : EmitterWorker ℕ ℕ). k.name) running.workers ≡ names_of (entry ∷ []))
    × ((readyz (some Ping.answered) running.emitter_health (names_of (entry ∷ []))).0 ≡ 200)
spawn_emitter_workers-readyz_example =
    spawn_emitter_workers-readyz brokers channels worker.chance (λ id. false) (entry ∷ []) 0 0
      (record { spawned = 3; signalled = false; waits = []; supervised = (2, 1) ∷ [] }) running
      spawns

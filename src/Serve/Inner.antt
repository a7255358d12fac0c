-- ===== src/Serve/Inner.antt =====
-- crates/hookbox-server/src/serve.rs, `serve_inner`, and crates/hookbox-cli/src/commands/serve.rs.
use hookbox.Worker.Dispatch.{Chance}
use hookbox.Prelude.{Bool, ℤ, String, List, Result, ok, err, ◌>>=◌, map_err}
use hookbox.Config.Emitters.{HookboxConfig}
use hookbox.Emitters.Brokers.{Brokers}
use hookbox.Emitters.Local.{Channels}
use hookbox.Postgres.Exec.{Database}
use hookbox.Providers.Crypto.{Crypto}
use hookbox.Bootstrap.Verifiers.{BootstrapError, validate_retry_config}
use hookbox.Bootstrap.Factory.{FactoryError}
use hookbox.Serve.Tasks.{Handle, Tasks, no_tasks, send_shutdown, drain_worker_handles}
use hookbox.Serve.Assembly.{PipelineError, ServerPipeline, Layers, build_pipeline}
use hookbox.Serve.Workers.{Started, nothing_started, spawn_emitter_workers}

-- What the texts of the errors say; a `pipeline` error with a panic in it is that panic.
pub data ServeError : Type 0 where
  retry : BootstrapError → ServeError
  connection migration fatal : String → ServeError
  pipeline : PipelineError → ServeError
  emitter : FactoryError → ServeError
  tasks_panicked : List String → ServeError

-- What happens to the server: `connect`, `migrate`, the end of `axum::serve`, and the `JoinError`s.
pub record Surroundings : Type 0 where
  pub connected : Result (Unit {0}) String
  pub migrated : Result (Unit {0}) String
  pub served : Result (Unit {0}) String
  pub fails : Handle → Bool

-- `serve_result?; drain_result`.
unfoldable pub first_error :
    Result (Unit {0}) String
    → Result (Unit {0}) (List String) × Tasks
    → Result (Unit {0}) ServeError × Tasks
first_error (err e) (drained, t) = (err (ServeError.fatal e), t)
first_error (ok _) (drained, t) = (map_err ServeError.tasks_panicked drained, t)

module _ (s : Surroundings) where
  -- From the end of `axum::serve` on. A graceful end sends the signal too, before this one.
  unfoldable pub shut_down : List (String × Handle) → Tasks → Result (Unit {0}) ServeError × Tasks
  unfolding first_error drain_worker_handles
  shut_down handles t =
      first_error s.served (drain_worker_handles s.fails handles (send_shutdown t))

  module _ {Json World : Type 0} where
    unfoldable pub after_spawn :
        Result (Started Json World) FactoryError × World × Tasks
        → Result (Unit {0}) ServeError × Tasks
    unfolding shut_down
    after_spawn (err e, w, t) = (err (ServeError.emitter e), t)
    after_spawn (ok started, w, t) = shut_down started.worker_handles t

module _ {Json Headers Key Signature Producer Client Connection Sender Receiver World : Type 0}
    (p : Crypto Headers Key Signature) (raw_now : ℤ)
    (b : Brokers Json Producer Client Connection World) (c : Channels Json Sender Receiver World)
    (chance : Chance) (s : Surroundings) where
  -- The steps before the workers, in turn.
  unfoldable pub prepare :
      HookboxConfig → Database Json → Result (ServerPipeline Json Headers × Layers Json) ServeError
  unfolding validate_retry_config build_pipeline
  prepare config db = do
    valid ← map_err ServeError.retry (validate_retry_config config.retry)
    connected ← map_err ServeError.connection s.connected
    migrated ← map_err ServeError.migration s.migrated
    map_err ServeError.pipeline (build_pipeline p raw_now config db)

  unfoldable pub after_prepare :
      HookboxConfig
      → World
      → Result (ServerPipeline Json Headers × Layers Json) ServeError
      → Result (Unit {0}) ServeError × Tasks
  unfolding after_spawn spawn_emitter_workers
  after_prepare config w (err e) = (err e, no_tasks)
  after_prepare config w (ok built) =
      after_spawn s
        (spawn_emitter_workers b c chance s.fails config.emitters w no_tasks nothing_started)

  unfoldable pub serve_inner :
      HookboxConfig → Database Json → World → Result (Unit {0}) ServeError × Tasks
  unfolding prepare after_prepare
  serve_inner config db w = after_prepare config w (prepare config db)

-- ===== src/Cli/Serve.antt =====
-- crates/hookbox-cli/src/commands/serve.rs: from the path of the configuration to `serve_inner`.
use hookbox.Worker.Dispatch.{Chance}
use hookbox.Prelude.{ℕ, ℤ, String, Result, ok, err, ◌>>=◌, map_err}
use hookbox.Config.Emitters.{HookboxConfig}
use hookbox.Config.Validate.{ConfigError}
use hookbox.Config.Normalize.{parse_and_normalize}
use hookbox.Emitters.Brokers.{Brokers}
use hookbox.Emitters.Local.{Channels}
use hookbox.Postgres.Exec.{Database}
use hookbox.Providers.Crypto.{Crypto}
use hookbox.Serve.Tasks.{Tasks, no_tasks}
use hookbox.Serve.Inner.{ServeError, Surroundings, serve_inner}

-- What the texts of the errors say.
pub data RunError : Type 0 where
  unreadable no_runtime no_recorder no_listener : String → RunError
  config : ConfigError → RunError
  serve : ServeError → RunError

-- What the host answers: `read_to_string`, the runtime, the recorder of the metrics, and `bind` on
-- a host and a port.
pub record Host : Type 0 where
  pub raw : Result String String
  pub runtime : Result (Unit {0}) String
  pub recorder : Result (Unit {0}) String
  pub bind : String → ℕ → Result (Unit {0}) String

module _ {Json Headers Key Signature Producer Client Connection Sender Receiver World : Type 0}
    (p : Crypto Headers Key Signature) (raw_now : ℤ)
    (b : Brokers Json Producer Client Connection World) (c : Channels Json Sender Receiver World)
    (chance : Chance) (s : Surroundings) (host : Host) where
  -- Before `serve_inner`: the recorder and the listener.
  unfoldable pub listen : HookboxConfig → Result HookboxConfig RunError
  listen cfg = do
    installed ← map_err RunError.no_recorder host.recorder
    listener ← map_err RunError.no_listener (host.bind cfg.server.host cfg.server.port)
    ok cfg

  unfoldable pub load : (String → Result HookboxConfig String) → Result HookboxConfig RunError
  unfolding parse_and_normalize listen
  load from_str = do
    text ← map_err RunError.unreadable host.raw
    parsed ← map_err RunError.config (parse_and_normalize from_str text)
    built ← map_err RunError.no_runtime host.runtime
    listen parsed.0

  abbrev served : Result (Unit {0}) ServeError × Tasks → Result (Unit {0}) RunError × Tasks
  served (r, t) = (map_err RunError.serve r, t)

  unfoldable pub run_loaded :
      Database Json → World → Result HookboxConfig RunError → Result (Unit {0}) RunError × Tasks
  unfolding serve_inner
  run_loaded db w (err e) = (err e, no_tasks)
  run_loaded db w (ok cfg) = served (serve_inner p raw_now b c chance s cfg db w)

  -- `run`, and `run_server` in it.
  unfoldable pub run_serve :
      (String → Result HookboxConfig String)
      → Database Json
      → World
      → Result (Unit {0}) RunError × Tasks
  unfolding load run_loaded
  run_serve from_str db w = run_loaded db w (load from_str)

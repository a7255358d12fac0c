-- ===== src/Cli/Counts.antt =====
-- `emitters list` of crates/hookbox-cli/src/commands/emitters.rs, and `config validate` of
-- config_validate.rs.
use hookbox.Prelude.{String, List, [], ◌∷◌, ◌++◌, Result, ok, err, map, length}
use hookbox.Domain.{StorageError}
use hookbox.Postgres.Exec.{Database, Sql, pure, ◌>>=◌}
use hookbox.Postgres.Deliveries.{count_dlq, count_pending, count_in_flight}
use hookbox.Config.Emitters.{EmitterEntry, HookboxConfig}
use hookbox.Config.Validate.{ConfigError}
use hookbox.Config.Normalize.{parse_and_normalize}
use hookbox.Cli.Listings.{Line, ListError, Screen}

module _ {Json : Type 0} where
  abbrev pub warnings_of : List String → List (Line Json)
  warnings_of ws = map (λ w. Line.warning w) ws

  -- The three counts of an emitter, each by a statement of its own.
  unfoldable pub row_of : EmitterEntry → Sql Json (Line Json)
  unfolding count_dlq count_pending count_in_flight
  row_of e = do
    dlq ← count_dlq e.name
    pending ← count_pending e.name
    in_flight ← count_in_flight e.name
    pure (Line.counts e.name e.emitter_type dlq pending in_flight)

  abbrev pub onto : Line Json → Screen Json → Screen Json
  onto line (r, lines, db) = (r, line ∷ lines, db)

  abbrev pub after_row :
      (Database Json → Screen Json) → Result (Line Json) StorageError × Database Json → Screen Json
  after_row rest (ok line, db) = onto line (rest db)
  after_row rest (err e, db) = (err (ListError.storage e), [], db)

  -- The loop over the emitters: the rows before an error are on the screen.
  unfoldable pub print_rows : List EmitterEntry → Database Json → Screen Json
  unfolding row_of
  print_rows [] db = (ok tt, [], db)
  print_rows (e ∷ es) db = after_row (print_rows es) (row_of e db)

  abbrev pub before : List (Line Json) → Screen Json → Screen Json
  before first (r, lines, db) = (r, first ++ lines, db)

  unfoldable pub table : Result (Unit {0}) String → HookboxConfig → Database Json → Screen Json
  unfolding print_rows
  table (err e) c db = (err (ListError.no_connection e), [], db)
  table (ok _) c db = onto Line.titles (print_rows c.emitters db)

  abbrev pub after_parse :
      Result (Unit {0}) String
      → Result (HookboxConfig × List String) ConfigError
      → Database Json
      → Screen Json
  after_parse connection (err e) db = (err (ListError.config e), [], db)
  after_parse connection (ok (c, ws)) db = before (warnings_of ws) (table connection c db)

  unfoldable pub run_emitters_list :
      (String → Result HookboxConfig String)
      → Result String String
      → Result (Unit {0}) String
      → Database Json
      → Screen Json
  unfolding parse_and_normalize print_rows
  run_emitters_list from_str (err e) connection db = (err (ListError.unreadable e), [], db)
  run_emitters_list from_str (ok raw) connection db =
      after_parse connection (parse_and_normalize from_str raw) db

  -- It reads the file and never the database; the warnings go to the other stream.
  abbrev accepted : HookboxConfig × List String → List (Line Json)
  accepted (c, ws) =
      warnings_of ws
      ++ Line.configured (length c.emitters)
        ∷ map (λ (e : EmitterEntry). Line.entry e.name e.emitter_type) c.emitters

  abbrev checked :
      Result (HookboxConfig × List String) ConfigError → Result (List (Line Json)) ListError
  checked (err e) = err (ListError.config e)
  checked (ok parsed) = ok (accepted parsed)

  unfoldable pub run_config_validate :
      (String → Result HookboxConfig String)
      → Result String String
      → Result (List (Line Json)) ListError
  unfolding parse_and_normalize
  run_config_validate from_str (err e) = err (ListError.unreadable e)
  run_config_validate from_str (ok text) = checked (parse_and_normalize from_str text)

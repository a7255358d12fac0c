-- ===== src/Cli/Safe.antt =====
-- What the commands of crates/hookbox-cli/src/main.rs do to the tables.
use hookbox.Prelude.{
  ℤ, String, Bool, true, false, List, Option, none, some, Result, ok, err, ◌≡◌, refl, ◌⊎◌, inl, inr,
  arith,
}
use hookbox.Domain.{ProcessingState, StorageError}
use hookbox.Postgres.Exec.{Tables, Database}
use hookbox.Postgres.Reads.{
  query-Reads, query_by_external_reference-Reads, get-Reads, get_delivery-Reads, list_dlq-Reads,
}
use hookbox.Cli.Replay.{Answer}
use hookbox.Cli.Replayed.{Ran, Replayed, run_replay_id-Ran}
use hookbox.Cli.Dlq.{Outcome, Retried, run_dlq_retry-Retried}
use hookbox.Cli.Listings.{
  list_filter, ListError, Screen, ReceiptsCommand, DlqQuery, printed, inspected, connected,
  list_where, run_receipts, run_dlq, receipt_lines, Line,
}
use hookbox.Cli.Counts.{run_emitters_list}
use hookbox.Cli.Tallied.{Tallied, run_emitters_list-Tallied}
use hookbox.Cli.Main.{Commands, Terminal, is_reading, is_whole, is_ok, run_command}

module _ {Json : Type 0} where
  Keeps : Tables Json → Screen Json → Type 0
  Keeps t (r, lines, db) = db.tables ≡ t

  same_tables : {t u : Tables Json} → t.receipts ≡ u.receipts → t.deliveries ≡ u.deliveries → t ≡ u
  same_tables r d = cc (r, d)

  printed-Keeps :
      {A : Type 0} (lines : A → List (Line Json)) (t : Tables Json)
      (o : Result A StorageError × Database Json)
      → o.1.tables ≡ t
      → Keeps t (printed lines o)
  unfolding Keeps
  printed-Keeps lines t (ok a, db) same = same
  printed-Keeps lines t (err e, db) same = same

  inspected-Keeps :
      {A : Type 0} (line : A → Line Json) (t : Tables Json)
      (o : Result (Option A) StorageError × Database Json)
      → o.1.tables ≡ t
      → Keeps t (inspected line o)
  unfolding Keeps
  inspected-Keeps line t (ok (some a), db) same = same
  inspected-Keeps line t (ok none, db) same = same
  inspected-Keeps line t (err e, db) same = same

  connected-Keeps :
      (connection : Result (Unit {0}) String) (k : Database Json → Screen Json) (db : Database Json)
      → Keeps db.tables (k db)
      → Keeps db.tables (connected connection k db)
  unfolding Keeps
  connected-Keeps (ok _) k db same = same
  connected-Keeps (err e) k db same = refl

  list_where-Keeps :
      (provider : Option String) (limit : ℤ) (o : Result (Option ProcessingState) ListError)
      (db : Database Json)
      → Keeps db.tables (list_where provider limit o db)
  unfolding Keeps list_where
  list_where-Keeps provider limit (err e) db = refl
  list_where-Keeps provider limit (ok state) db =
      printed-Keeps receipt_lines db.tables _ (query-Reads (list_filter provider state limit) db)

module _ {Duration Json : Type 0} (t : Terminal Duration) where
  receipts-Keeps :
      (command : ReceiptsCommand) (db : Database Json)
      → Keeps db.tables (run_receipts t.serde t.connection command db)
  unfolding run_receipts
  receipts-Keeps (ReceiptsCommand.list provider state limit) db =
      connected-Keeps t.connection _ db (list_where-Keeps provider limit _ db)
  receipts-Keeps (ReceiptsCommand.inspect id) db =
      connected-Keeps t.connection _ db (inspected-Keeps _ db.tables _ (get-Reads id db))
  receipts-Keeps (ReceiptsCommand.search external_ref limit) db =
      connected-Keeps t.connection _ db (
        printed-Keeps _ db.tables _
          (query_by_external_reference-Reads external_ref (some limit) db))

  dlq-Keeps :
      (query : DlqQuery) (db : Database Json) → Keeps db.tables (run_dlq t.connection query db)
  unfolding run_dlq
  dlq-Keeps (DlqQuery.list emitter limit offset) db =
      connected-Keeps t.connection _ db
        (printed-Keeps _ db.tables _ (list_dlq-Reads emitter limit offset db))
  dlq-Keeps (DlqQuery.inspect id) db =
      connected-Keeps t.connection _ db (inspected-Keeps _ db.tables _ (get_delivery-Reads id db))

  emitters-Keeps :
      (db : Database Json) → Keeps db.tables (run_emitters_list t.from_str t.raw t.connection db)
  unfolding Keeps Tallied
  emitters-Keeps db = kept _ (run_emitters_list-Tallied t.from_str t.raw t.connection db)
    where
      kept : (s : Screen Json) → Tallied t.from_str t.raw db s → Keeps db.tables s
      kept (ok _, lines, db') tallied = tallied.0
      kept (err e, lines, db') same = same

  -- No table changes, or the command is no reading one and ends without an error.
  pub Safe : Commands → Tables Json → Bool × Database Json → Type 0
  Safe command before (finished, db) =
      (db.tables ≡ before) ⊎ ((is_reading command ≡ false) × (finished ≡ true))

  -- No command that reads changes a table, and no other one that ends with an error does, except
  -- `replay failed`, whatever fails in it: the file, the connection or a statement.
  pub run_command-Safe :
      (command : Commands) (db : Database Json)
      → is_whole command ≡ true
      → Safe command db.tables (run_command t command db)
  unfolding run_command Safe Keeps Ran Retried Replayed
  run_command-Safe (Commands.receipts command) db w = inl (receipts-Keeps command db)
  run_command-Safe (Commands.dlq query) db w = inl (dlq-Keeps query db)
  run_command-Safe (Commands.replay_failed provider since limit) db w = absurd (ground arith)
  run_command-Safe Commands.validate db w = inl refl
  run_command-Safe Commands.emitters db w = inl (emitters-Keeps db)
  run_command-Safe (Commands.replay_id id emitter) db w =
      answered _ (run_replay_id-Ran t.from_str id emitter t.raw t.connection db)
    where
      answered :
          (answer : Answer Json)
          → Ran t.from_str id emitter t.raw db.tables db.now answer
          → Safe (Commands.replay_id id emitter) db.tables (is_ok answer.0, answer.1)
      answered (ok _, db') ran = inr (refl, refl)
      answered (err e, db') (inl (x, f, same)) = inl same
      answered (err e, db') (inr (text, c, warnings, r, p, replayed)) =
          inl (same_tables replayed.0 replayed.1)
  run_command-Safe (Commands.dlq_retry id) db w =
      retried _ (run_dlq_retry-Retried t.from_str id t.raw t.connection db)
    where
      retried :
          (o : Outcome Json)
          → Retried t.from_str id t.raw db o
          → Safe (Commands.dlq_retry id) db.tables (is_ok o.0, o.1)
      retried (ok _, db') r = inr (refl, refl)
      retried (err e, db') same = inl same

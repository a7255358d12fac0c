-- ===== src/Cli/Tallied.antt =====
-- What `emitters list` of crates/hookbox-cli/src/commands/emitters.rs shows.
use hookbox.Prelude.{
  Bool, String, List, [], ◌∷◌, ◌++◌, Result, ok, err, map, ◌≡◌, refl, ap, ◌∙◌, subst, count, str_eq,
  ◌&&◌, not,
}
use hookbox.Domain.{DateTime, StorageError, WebhookDelivery}
use hookbox.Postgres.Exec.{Tables, Database}
use hookbox.Postgres.Rules.{spent, value_rule}
use hookbox.Postgres.Deliveries.{
  count_dlq, count_pending, count_in_flight, is_dead, is_ready, is_in_flight,
}
use hookbox.Config.Emitters.{EmitterEntry, HookboxConfig}
use hookbox.Config.Validate.{ConfigError}
use hookbox.Config.Normalize.{parse_and_normalize}
use hookbox.Cli.Listings.{Line, Screen}
use hookbox.Cli.Counts.{
  table, warnings_of, after_parse, before, after_row, onto, row_of, print_rows, run_emitters_list,
}

abbrev is_of_dlq : EmitterEntry → WebhookDelivery → Bool
is_of_dlq e d = str_eq d.emitter_name e.name && is_dead d.state

abbrev is_of_flight : EmitterEntry → WebhookDelivery → Bool
is_of_flight e d = str_eq d.emitter_name e.name && is_in_flight d.state && not d.immutable

module _ {Json : Type 0} where
  -- The rows of an emitter in a table: those dead-lettered, those ready now, and those in flight.
  unfoldable pub tally : List WebhookDelivery → DateTime → EmitterEntry → Line Json
  unfolding is_ready
  tally ds now e =
      Line.counts e.name e.emitter_type (count (is_of_dlq e) ds) (count (is_ready e.name now) ds)
        (count (is_of_flight e) ds)

  Counted : Database Json → EmitterEntry → Result (Line Json) StorageError × Database Json → Type 0
  Counted db e (ok line, db') =
      (line ≡ tally db.tables.deliveries db.now e) × (db'.tables ≡ db.tables) × (db'.now ≡ db.now)
  Counted db e (err x, db') = db'.tables ≡ db.tables

  row_of-Counted : (e : EmitterEntry) (db : Database Json) → Counted db e (row_of e db)
  unfolding row_of Counted tally count_dlq count_pending count_in_flight
  row_of-Counted e db =
      value_rule (Counted db e) (λ d. count (is_of_dlq e) d.tables.deliveries) _ db (λ x. refl)
        (value_rule (Counted db e) (λ d. count (is_ready e.name d.now) d.tables.deliveries) _
          (spent db) (λ x. refl)
          (value_rule (Counted db e) (λ d. count (is_of_flight e) d.tables.deliveries) _
            (spent (spent db)) (λ x. refl) (refl, refl, refl)))

  -- The rows on the screen are those of the emitters, in turn, with their tallies.
  Rows : Tables Json → DateTime → List EmitterEntry → Screen Json → Type 0
  Rows t now es (ok _, lines, db) = (lines ≡ map (tally t.deliveries now) es) × (db.tables ≡ t)
  Rows t now es (err x, lines, db) = db.tables ≡ t

  print_rows-Rows :
      (es : List EmitterEntry) (db : Database Json) → Rows db.tables db.now es (print_rows es db)
  unfolding print_rows Rows Counted
  print_rows-Rows [] db = (refl, refl)
  print_rows-Rows (e ∷ es) db =
      first (λ db'. print_rows-Rows es db') (row_of e db) (row_of-Counted e db)
    where
      onward :
          (line : Line Json) (s : Screen Json)
          → line ≡ tally db.tables.deliveries db.now e
          → Rows db.tables db.now es s
          → Rows db.tables db.now (e ∷ es) (onto line s)
      onward line (ok _, lines, db') c rows = (
        ap (λ x. x ∷ lines) c ∙ ap (λ ls. tally db.tables.deliveries db.now e ∷ ls) rows.0,
        rows.1,
      )
      onward line (err x, lines, db') c rows = rows

      first :
          ((db' : Database Json) → Rows db'.tables db'.now es (print_rows es db'))
          → (o : Result (Line Json) StorageError × Database Json) → Counted db e o
          → Rows db.tables db.now (e ∷ es) (after_row (print_rows es) o)
      first ih (err x, db') c = c
      first ih (ok line, db') (same_line, same, same_now) =
          onward line (print_rows es db') same_line (
            subst (λ t. Rows t db.now es (print_rows es db')) same
              (subst (λ n. Rows db'.tables n es (print_rows es db')) same_now (ih db')))

  module _ (from_str : String → Result HookboxConfig String) (raw : Result String String)
      (db : Database Json) where
    -- The warnings, the titles and one row for each emitter that is configured; or an error.
    unfoldable pub Tallied : Screen Json → Type 0
    Tallied (ok _, lines, db') =
        (db'.tables ≡ db.tables)
        × ((text : String) × (c : HookboxConfig) × (warnings : List String) × (raw ≡ ok text)
            × (parse_and_normalize from_str text ≡ ok (c, warnings))
            × (lines
                ≡ warnings_of warnings
                  ++ Line.titles ∷ map (tally db.tables.deliveries db.now) c.emitters))
    Tallied (err e, lines, db') = db'.tables ≡ db.tables

    table-Tallied :
        (connection : Result (Unit {0}) String) (text : String) (c : HookboxConfig)
        (warnings : List String)
        → raw ≡ ok text
        → parse_and_normalize from_str text ≡ ok (c, warnings)
        → Tallied (before (warnings_of warnings) (table connection c db))
    unfolding Tallied Rows print_rows table
    table-Tallied (err e) text c warnings r p = refl
    table-Tallied (ok _) text c warnings r p =
        listed (print_rows c.emitters db) (print_rows-Rows c.emitters db)
      where
        listed :
            (s : Screen Json)
            → Rows db.tables db.now c.emitters s
            → Tallied (before (warnings_of warnings) (onto Line.titles s))
        listed (ok _, lines, db') rows = (
          rows.1,
          (text, c, warnings, r, p, ap (λ ls. warnings_of warnings ++ Line.titles ∷ ls) rows.0),
        )
        listed (err e, lines, db') rows = rows

  -- The listing of the emitters changes no table, and where it ends without an error, the file holds
  -- a configuration that `normalize` accepts, and it prints the warnings, the titles, and for each
  -- configured emitter in turn its name, its type and the numbers of its rows that are
  -- dead-lettered, that wait and are due now, and that are in flight, the last two without the
  -- immutable ones.
  pub run_emitters_list-Tallied :
      (from_str : String → Result HookboxConfig String) (raw : Result String String)
      (connection : Result (Unit {0}) String) (db : Database Json)
      → Tallied from_str raw db (run_emitters_list from_str raw connection db)
  unfolding run_emitters_list Tallied
  run_emitters_list-Tallied from_str (err e) connection db = refl
  run_emitters_list-Tallied from_str (ok text) connection db =
      parsed (parse_and_normalize from_str text) refl
    where
      parsed :
          (o : Result (HookboxConfig × List String) ConfigError)
          → parse_and_normalize from_str text ≡ o
          → Tallied from_str (ok text) db (after_parse connection o db)
      parsed (err e) p = refl
      parsed (ok (c, ws)) p = table-Tallied from_str (ok text) db connection text c ws refl p

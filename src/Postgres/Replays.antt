-- ===== src/Postgres/Replays.antt =====
-- The transaction of `insert_replays` in crates/hookbox-postgres/src/storage.rs.
use hookbox.Prelude.{◌≡◌, subst, String, List, Result, ok, err}
use hookbox.Domain.{ReceiptId, DeliveryId, DateTime, StorageError}
use hookbox.Postgres.Exec.{Tables, Database, begin, commit, or_rollback, pure, ◌>>=◌, ◌>>◌}
use hookbox.Postgres.Rules.{bind_rule, undo_rule}
use hookbox.Postgres.Receipts.{insert_deliveries}
use hookbox.Postgres.Deliveries.{insert_replays}
use hookbox.Postgres.Inserts.{Inserted, insert_deliveries-Inserted}
use hookbox.Postgres.Store.{Kept, commit-Kept, Begun, begin-Begun, kept_after}

module _ {Json : Type 0} (id : ReceiptId) (names : List String) where
  -- All rows, or none.
  abbrev pub Replays :
      Tables Json → DateTime → Result (List DeliveryId) StorageError × Database Json → Type 0
  Replays t now (ok ids, db) = Inserted id names t now (ok ids, db)
  Replays t now (err e, db) = db.tables ≡ t

  abbrev WithIds :
      List DeliveryId
      → Tables Json
      → DateTime
      → Result (Unit {0}) StorageError × Database Json
      → Type 0
  WithIds ids t now (ok _, db) = Inserted id names t now (ok ids, db)
  WithIds ids t now (err e, db) = db.tables ≡ t

  Replays-from :
      (t saved : Tables Json) (now : DateTime) (db : Database Json)
      → saved ≡ t
      → db.tables ≡ t
      → db.now ≡ now
      → Replays t now (
          (or_rollback saved (insert_deliveries id names) >>= λ ids.
          or_rollback saved commit >> pure ids)
            db)
  unfolding kept_after
  Replays-from t saved now db s same same_now =
      bind_rule (Replays t now) (Replays t now) _ _
        (undo_rule (Inserted id names db.tables db.now) (Replays t now) saved
          (insert_deliveries id names db) (insert_deliveries-Inserted id names db)
          (λ ids d a.
            subst (λ n. Inserted id names t n (ok ids, d)) same_now
              (subst (λ u. Inserted id names u db.now (ok ids, d)) same a))
          (λ e d a. s))
        (λ ids d a.
          bind_rule (WithIds ids t now) (Replays t now) _ _
            (undo_rule (Kept d.tables d.now) (WithIds ids t now) saved (commit d) (commit-Kept d)
              (λ _ d' k. (kept_after a.0 k.0 k.1, a.1, a.2)) (λ e d' k. s))
            (λ _ d' w. w) (λ e d' w. w))
        (λ e d a. a)

  -- The transaction inserts one fresh row of the receipt for each name in turn and returns their
  -- ids, or, whichever statement fails, leaves both tables as they were.
  pub insert_replays-Replays :
      (db : Database Json) → Replays db.tables db.now (insert_replays id names db)
  unfolding insert_replays
  insert_replays-Replays db =
      bind_rule (Begun db.tables db.now) (Replays db.tables db.now) _ (begin db) (begin-Begun db)
        (λ saved d q. Replays-from db.tables saved db.now d q.0 q.1 q.2) (λ e d q. q)

-- ===== src/Examples/Postgres.antt =====
-- The theorems on crates/hookbox-postgres/src at concrete values.
use mathlib.Core.List.{Memᴰ}
use hookbox.Prelude.{ℕ, ◌≡◌, refl, pos}
use hookbox.Domain.{DedupeDecision}
use hookbox.Postgres.Exec.{Database}
use hookbox.Postgres.Receipts.{store_with_deliveries}
use hookbox.Postgres.Deliveries.{insert_replays, claim_pending, mark_emitted}
use hookbox.Postgres.Store.{store_with_deliveries-Stores}
use hookbox.Postgres.Advice.{check_stored, Foretold, check_stored-Foretold}
use hookbox.Postgres.Replays.{insert_replays-Replays}
use hookbox.Postgres.Consistent.{IsConsistent}
use hookbox.Postgres.Steps.{
  Reach, after, claims, marks_emitted, stores_with_deliveries, Reach-IsConsistent,
}
use hookbox.Postgres.Histories.{Reach-is_over}
use hookbox.Examples.Data.{
  receipt_one, receipt_two, names, fresh_db, faulty_db, fresh_db-IsConsistent, row_emitted,
}

-- The insertion of the first delivery row fails, and the tables are as they were.
store_with_deliveries-Stores_example :
    (store_with_deliveries receipt_two names faulty_db).1.tables ≡ fresh_db.tables
unfolding store_with_deliveries
store_with_deliveries-Stores_example = store_with_deliveries-Stores receipt_two names faulty_db

abbrev stored_db : Database ℕ
stored_db = (store_with_deliveries receipt_two names fresh_db).1

abbrev claimed_db : Database ℕ
claimed_db = (claim_pending "kafka" (pos 10) stored_db).1

abbrev emitted_db : Database ℕ
emitted_db = (mark_emitted 13 claimed_db).1

history : Reach fresh_db emitted_db
history =
    after
      (after (after Reach.here (stores_with_deliveries fresh_db receipt_two names))
        (claims stored_db "kafka" (pos 10)))
      (marks_emitted claimed_db 13)

Reach-IsConsistent_example : IsConsistent emitted_db.tables
Reach-IsConsistent_example = Reach-IsConsistent fresh_db-IsConsistent history

Reach-is_over_example : Memᴰ row_emitted emitted_db.tables.deliveries
Reach-is_over_example =
    Reach-is_over row_emitted fresh_db-IsConsistent history refl (Memᴰ.tail (Memᴰ.head refl))

-- The second row cannot be inserted, and the first one is gone again.
insert_replays-Replays_example : (insert_replays 1 names faulty_db).1.tables ≡ fresh_db.tables
unfolding insert_replays
insert_replays-Replays_example = insert_replays-Replays 1 names faulty_db

check_stored-Foretold_example : Foretold receipt_one fresh_db.tables DedupeDecision.duplicate (
    store_with_deliveries receipt_one names
      (check_stored receipt_one.dedupe_key receipt_one.payload_hash fresh_db).1)
unfolding check_stored
check_stored-Foretold_example =
    check_stored-Foretold receipt_one names fresh_db DedupeDecision.duplicate refl

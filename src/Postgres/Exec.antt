-- ===== src/Postgres/Exec.antt =====
-- The database behind crates/hookbox-postgres: the tables of migrations/0001 and 0002, and a
-- statement as an action on them. `faults` tells, for the coming statements in turn, which ones
-- fail and with what text; `uuid` is what `gen_random_uuid()` returns.
use hookbox.Prelude.{ℕ, String, Option, none, some, List, [], ◌∷◌, Result, ok, err}
use hookbox.Domain.{Uuid, DateTime, WebhookReceipt, WebhookDelivery, StorageError}

pub record Tables (Json : Type 0) : Type 0 where
  pub receipts : List (WebhookReceipt Json)
  pub deliveries : List WebhookDelivery

pub record Database (Json : Type 0) : Type 0 where
  pub tables : Tables Json
  pub now : DateTime
  pub uuid : ℕ → Uuid
  pub drawn : ℕ
  pub faults : List (Option String)
  -- The text of the error for a violated constraint or a row that is not found.
  pub refusal : String

abbrev pub Sql : Type 0 → Type 0 → Type 0
Sql Json A = Database Json → Result A StorageError × Database Json

abbrev pub next_fault : List (Option String) → Option String
next_fault [] = none
next_fault (f ∷ fs) = f

abbrev pub later_faults : List (Option String) → List (Option String)
later_faults [] = []
later_faults (f ∷ fs) = fs

module _ {Json : Type 0} where
  abbrev pub attempt :
      {A : Type 0}
      → Option String
      → (Database Json → Result A StorageError × Database Json)
      → Database Json
      → Result A StorageError × Database Json
  attempt none body db = body db
  attempt (some e) body db = (err (StorageError.internal e), db)

  -- One statement: it fails with the next fault and no effect, or does what it says.
  abbrev pub statement : {A : Type 0} → Sql Json A → Sql Json A
  statement body db =
      attempt (next_fault db.faults) body (record db { faults = later_faults db.faults })

  abbrev pub pure : {A : Type 0} → A → Sql Json A
  pure a db = (ok a, db)

  abbrev pub raise : {A : Type 0} → StorageError → Sql Json A
  raise e db = (err e, db)

  -- An error of the database itself.
  abbrev pub refuse : {A : Type 0} → Sql Json A
  refuse db = (err (StorageError.internal db.refusal), db)

  abbrev pub and_then :
      {A B : Type 0}
      → Result A StorageError × Database Json
      → (A → Sql Json B)
      → Result B StorageError × Database Json
  and_then (ok a, db) f = f a db
  and_then (err e, db) f = (err e, db)

  infixl 5 ◌>>=◌ ◌>>◌
  abbrev pub ◌>>=◌ : {A B : Type 0} → Sql Json A → (A → Sql Json B) → Sql Json B
  ◌>>=◌ m f db = and_then (m db) f

  abbrev pub ◌>>◌ : {A B : Type 0} → Sql Json A → Sql Json B → Sql Json B
  m >> k = m >>= λ _. k

  -- BEGIN: the tables as they are now.
  unfoldable pub begin : Sql Json (Tables Json)
  begin = statement (λ db. (ok db.tables, db))

  abbrev pub undo_on_error :
      {A : Type 0}
      → Tables Json
      → Result A StorageError × Database Json
      → Result A StorageError × Database Json
  undo_on_error saved (ok a, db) = (ok a, db)
  undo_on_error saved (err e, db) = (err e, record db { tables = saved })

  -- A step of a transaction: after an error the transaction is dropped and leaves no trace.
  abbrev pub or_rollback : {A : Type 0} → Tables Json → Sql Json A → Sql Json A
  or_rollback saved m db = undo_on_error saved (m db)

  unfoldable pub rollback : Tables Json → Sql Json (Unit {0})
  rollback saved = or_rollback saved (statement (λ db. (ok tt, record db { tables = saved })))

  unfoldable pub commit : Sql Json (Unit {0})
  commit = statement (λ db. (ok tt, db))

-- ===== src/Postgres/Rules.antt =====
-- Proof rules for statements: one for each way in which crates/hookbox-postgres/src/storage.rs
-- combines them.
use hookbox.Prelude.{
  ◌≡◌, refl, String, Bool, true, false, Option, none, some, if◌then◌else◌, Result, ok, err,
}
use hookbox.Domain.{StorageError}
use hookbox.Postgres.Exec.{
  ◌>>=◌, Tables, Database, Sql, next_fault, later_faults, attempt, statement, begin, or_rollback,
  undo_on_error, and_then,
}

pub if_rule {ℓ κ} :
    {A : Type ℓ} (P : A → Type κ) (b : Bool) {x y : A}
    → (b ≡ true → P x)
    → (b ≡ false → P y)
    → P (if b then x else y)
if_rule P true f g = f refl
if_rule P false f g = g refl

module _ {Json : Type 0} where
  -- The database when a statement runs: its place in the script of faults is used up.
  abbrev pub spent : Database Json → Database Json
  spent db = record db { faults = later_faults db.faults }

  attempt_rule :
      {A : Type 0} (P : Result A StorageError × Database Json → Type 0) (f : Option String)
      (body : Sql Json A) (db : Database Json)
      → ((e : String) → P (err (StorageError.internal e), db))
      → P (body db)
      → P (attempt f body db)
  attempt_rule P none body db faulty runs = runs
  attempt_rule P (some e) body db faulty runs = faulty e

  pub statement_rule :
      {A : Type 0} (P : Result A StorageError × Database Json → Type 0) (body : Sql Json A)
      (db : Database Json)
      → ((e : String) → P (err (StorageError.internal e), spent db))
      → P (body (spent db))
      → P (statement body db)
  statement_rule P body db = attempt_rule P (next_fault db.faults) body (spent db)

  pub bind_rule :
      {A B : Type 0} (Q : Result A StorageError × Database Json → Type 0)
      (P : Result B StorageError × Database Json → Type 0) (f : A → Sql Json B)
      (r : Result A StorageError × Database Json)
      → Q r
      → ((a : A) (db : Database Json) → Q (ok a, db) → P (f a db))
      → ((e : StorageError) (db : Database Json) → Q (err e, db) → P (err e, db))
      → P (and_then r f)
  bind_rule Q P f (ok a, db) q onward fails = onward a db q
  bind_rule Q P f (err e, db) q onward fails = fails e db q

  pub undo_rule :
      {A : Type 0} (Q P : Result A StorageError × Database Json → Type 0) (saved : Tables Json)
      (r : Result A StorageError × Database Json)
      → Q r
      → ((a : A) (db : Database Json) → Q (ok a, db) → P (ok a, db))
      → ((e : StorageError) (db : Database Json)
          → Q (err e, db)
          → P (err e, record db { tables = saved }))
      → P (undo_on_error saved r)
  undo_rule Q P saved (ok a, db) q holds undone = holds a db q
  undo_rule Q P saved (err e, db) q holds undone = undone e db q

module _ {Json : Type 0} where
  -- An action that keeps a property of the tables, whether it fails or not.
  abbrev pub Keeps : {A : Type 0} → (Tables Json → Type 0) → Sql Json A → Type 0
  Keeps P m = (db : Database Json) → P db.tables → P (m db).1.tables

  -- The tables, and those that a BEGIN returns.
  abbrev AllTables :
      (Tables Json → Type 0) → Result (Tables Json) StorageError × Database Json → Type 0
  AllTables P (ok saved, db) = P saved × P db.tables
  AllTables P (err e, db) = P db.tables

  module _ (P : Tables Json → Type 0) where
    pub Keeps-statement : {A : Type 0} (body : Sql Json A) → Keeps P body → Keeps P (statement body)
    Keeps-statement body k db h =
        statement_rule (λ r. P r.1.tables) body db (λ e. h) (k (spent db) h)

    pub Keeps-bind :
        {A B : Type 0} (m : Sql Json A) (f : A → Sql Json B)
        → Keeps P m
        → ((a : A) → Keeps P (f a))
        → Keeps P (m >>= f)
    Keeps-bind m f k kf db h =
        bind_rule (λ r. P r.1.tables) (λ r. P r.1.tables) f (m db) (k db h) (λ a d q. kf a d q)
          (λ e d q. q)

    pub Keeps-undo :
        {A : Type 0} (saved : Tables Json) (m : Sql Json A)
        → P saved
        → Keeps P m
        → Keeps P (or_rollback saved m)
    Keeps-undo saved m s k db h =
        undo_rule (λ r. P r.1.tables) (λ r. P r.1.tables) saved (m db) (k db h) (λ a d q. q)
          (λ e d q. s)

    pub Keeps-begin :
        {A : Type 0} (f : Tables Json → Sql Json A)
        → ((saved : Tables Json) → P saved → Keeps P (f saved))
        → Keeps P (begin >>= f)
    unfolding begin
    Keeps-begin f kf db h =
        bind_rule (AllTables P) (λ r. P r.1.tables) f (begin db)
          (statement_rule (AllTables P) (λ d. (ok d.tables, d)) db (λ e. h) (h, h))
          (λ saved d q. kf saved q.0 d q.1) (λ e d q. q)

  -- A statement that reads a value, and what follows it.
  pub value_rule :
      {A B : Type 0} (P : Result B StorageError × Database Json → Type 0) (g : Database Json → A)
      (f : A → Sql Json B) (db : Database Json)
      → ((e : String) → P (err (StorageError.internal e), spent db))
      → P (f (g (spent db)) (spent db))
      → P (and_then (statement (λ d. (ok (g d), d)) db) f)
  value_rule {A = A} P g f db faulty runs = split (next_fault db.faults)
    where
      split : (o : Option String) → P (and_then (attempt o (λ d. (ok (g d), d)) (spent db)) f)
      split none = runs
      split (some e) = faulty e

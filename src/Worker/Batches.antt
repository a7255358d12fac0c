-- ===== src/Worker/Batches.antt =====
-- The batch that `claim_pending` of crates/hookbox-postgres/src/storage.rs hands to
-- `EmitterWorker::spawn` of crates/hookbox-server/src/worker.rs.
use mathlib.Core.List.{Memᴰ}
use hookbox.Prelude.{
  ℕ, ℤ, pos, negsuc, ◌==◌, String, Bool, true, false, Option, none, some, List, [], ◌∷◌, Result, ok,
  err, map, ◌≡◌, ◌≢◌, refl, sym, ap, ◌∙◌, arith, All, any, select, update_where, if◌then◌else◌,
  ==_iff, Distinct, Distinct-update_where, subst, mem_select,
}
use hookbox.Domain.{
  DateTime, DeliveryId, WebhookReceipt, WebhookDelivery, DeliveryState, StorageError,
}
use hookbox.Postgres.Exec.{statement, Tables, Database, pure, ◌>>=◌}
use hookbox.Postgres.Rules.{statement_rule, bind_rule, spent}
use hookbox.Postgres.Receipts.{get}
use hookbox.Postgres.Deliveries.{
  claim_pending, claim_rows, claimed_ids, is_among, take_lease, with_receipts, or_missing,
}
use hookbox.Worker.Dispatch.{EmitterWorker, Site}
use hookbox.Worker.Loop.{dispatch_all}
use hookbox.Worker.Settles.{Leased, Apart, Done, dispatch_all-Done}

-- A row of an updated table that still meets the condition was updated.
of_update :
    {A : Type 0} (p : A → Bool) (f : A → A) (Q : A → Type 0) (x : A) (xs : List A)
    → ((y : A) → Q (f y))
    → Memᴰ x (update_where p f xs)
    → p x ≡ true
    → Q x
of_update p f Q x [] h m e = elim m [ ]
of_update p f Q x (y ∷ ys) h (Memᴰ.tail t) e = of_update p f Q x ys h t e
of_update p f Q x (y ∷ ys) h (Memᴰ.head q) e = here (p y) refl q
  where
    here : (b : Bool) → p y ≡ b → x ≡ (if b then f y else y) → Q x
    here true c q = subst Q (sym q) (h y)
    here false c q = cc (c, e, q)

any-select :
    {A : Type 0} (q p : A → Bool) (xs : List A) → any q xs ≡ false → any q (select p xs) ≡ false
any-select q p [] h = refl
any-select q p (x ∷ xs) h = ground (arith, any-select q p xs, h)

Distinct-select :
    {A : Type 0} (key : A → ℕ) (p : A → Bool) (xs : List A)
    → Distinct key xs
    → Distinct key (select p xs)
Distinct-select key p [] d = tt
Distinct-select key p (x ∷ xs) d = chosen (Distinct-select key p xs d.1) (p x)
  where
    chosen :
        Distinct key (select p xs)
        → (b : Bool) → Distinct key (if b then x ∷ select p xs else select p xs)
    chosen rest true = (any-select _ p xs d.0, rest)
    chosen rest false = rest

abbrev ids_of : WebhookDelivery → ℕ
ids_of d = d.delivery_id

select-InFlight :
    (ids : List DeliveryId) (now : DateTime) (table : List WebhookDelivery)
    (ds : List WebhookDelivery)
    → ((d : WebhookDelivery)
        → Memᴰ d ds
        → Memᴰ d (select (is_among ids) (update_where (is_among ids) (take_lease now) table)))
    → All
        (λ d.
          Memᴰ d (update_where (is_among ids) (take_lease now) table)
          × (d.state ≡ DeliveryState.in_flight))
        ds
select-InFlight ids now table [] h = tt
select-InFlight ids now table (d ∷ ds) h =
    let (m, e) = mem_select (is_among ids) d _ (h d (Memᴰ.head refl)) in
    (
      (
        m,
        of_update (is_among ids) (take_lease now) (λ x. x.state ≡ DeliveryState.in_flight) d table
            (λ y. refl) m e,
      ),
      select-InFlight ids now table ds (λ x n. h x (Memᴰ.tail n)),
    )

abbrev Batch : Type 0 → Type 0
Batch Json = List (WebhookDelivery × WebhookReceipt Json)

abbrev rows_of : {Json : Type 0} → Batch Json → List WebhookDelivery
rows_of {Json} rows = map (λ (row : WebhookDelivery × WebhookReceipt Json). row.0) rows

module _ {Json : Type 0} where
  InFlight : Tables Json → List WebhookDelivery → Type 0
  InFlight t ds = All (λ d. Memᴰ d t.deliveries × (d.state ≡ DeliveryState.in_flight)) ds

  Claimed : Result (List WebhookDelivery) StorageError × Database Json → Type 0
  Claimed (ok ds, db) = InFlight db.tables ds × Distinct ids_of ds
  Claimed (err e, db) = Unit

  claim_rows-Claimed :
      (name : String) (limit : ℤ) (db : Database Json)
      → Distinct ids_of db.tables.deliveries
      → Claimed (claim_rows name limit db)
  unfolding Claimed InFlight
  claim_rows-Claimed name (negsuc n) db d = tt
  claim_rows-Claimed name (pos n) db d =
      let ids = claimed_ids name db.now n db.tables.deliveries in
      (
        select-InFlight ids db.now db.tables.deliveries _ (λ x m. m),
        Distinct-select ids_of (is_among ids) _ (
            Distinct-update_where ids_of (is_among ids) (take_lease db.now) db.tables.deliveries
              (λ x. refl) d),
      )

  -- The receipts are read, and nothing else.
  Read :
      List WebhookDelivery → Tables Json → Result (Batch Json) StorageError × Database Json → Type 0
  Read ds t (ok rows, db) = (rows_of rows ≡ ds) × (db.tables ≡ t)
  Read ds t (err e, db) = Unit

  with_receipts-Read :
      (ds : List WebhookDelivery) (db : Database Json) → Read ds db.tables (with_receipts ds db)
  unfolding with_receipts Read get
  with_receipts-Read [] db = (refl, refl)
  with_receipts-Read (d ∷ ds) db =
      bind_rule SameTables (Read (d ∷ ds) db.tables) _ (get d.receipt_id db)
        (statement_rule SameTables _ db (λ e. tt) refl) (with_receipt (with_receipts-Read ds))
        (λ e db' q. tt)
    where
      SameTables : Result (Option (WebhookReceipt Json)) StorageError × Database Json → Type 0
      SameTables (ok o, db') = db'.tables ≡ db.tables
      SameTables (err e, db') = Unit

      with_receipt :
          ((db' : Database Json) → Read ds db'.tables (with_receipts ds db'))
          → (o : Option (WebhookReceipt Json)) (db' : Database Json) → db'.tables ≡ db.tables
          → Read
              (d ∷ ds)
              db.tables
              ((or_missing o >>= λ r. with_receipts ds >>= λ rest. pure ((d, r) ∷ rest)) db')
      with_receipt ih none db' same = tt
      with_receipt ih (some r) db' same =
          bind_rule (Read ds db'.tables) (Read (d ∷ ds) db.tables) _ (with_receipts ds db') (ih db')
            (λ rest db'' q. (ap (◌∷◌ d) q.0, q.1 ∙ same)) (λ e db'' q. tt)

  Distinct-Apart :
      {E : Type 0} (k : EmitterWorker Json E) (rows : Batch Json)
      → Distinct ids_of (rows_of rows)
      → Apart k rows
  unfolding Apart
  Distinct-Apart k [] d = tt
  Distinct-Apart k ((d, r) ∷ rows) (n, rest) = (differ rows n, Distinct-Apart k rows rest)
    where
      differ :
          (rows : Batch Json)
          → any (λ y. ids_of y == ids_of d) (rows_of rows) ≡ false
          → All
              (λ (row : WebhookDelivery × WebhookReceipt Json). d.delivery_id ≢ row.0.delivery_id)
              rows
      differ [] h = tt
      differ ((e, s) ∷ rows) h = (
        (λ q. ground (arith, h, ==_iff e.delivery_id d.delivery_id, sym q)),
        differ rows (ground (arith, h)),
      )

  Ready : Result (Batch Json) StorageError × Database Json → Type 0
  Ready (ok rows, db) = InFlight db.tables (rows_of rows) × Distinct ids_of (rows_of rows)
  Ready (err e, db) = Unit

  claim_pending-Ready :
      (name : String) (limit : ℤ) (db : Database Json)
      → Distinct ids_of db.tables.deliveries
      → Ready (claim_pending name limit db)
  unfolding claim_pending Ready Claimed Read
  claim_pending-Ready name limit db d =
      bind_rule Claimed Ready _ (statement (claim_rows name limit) db)
        (statement_rule Claimed (claim_rows name limit) db (λ e. tt)
          (claim_rows-Claimed name limit (spent db) d))
        (λ ds db' q. read_ready ds db'.tables (with_receipts ds db') q (with_receipts-Read ds db'))
        (λ e db' q. tt)
    where
      read_ready :
          (ds : List WebhookDelivery) (t : Tables Json)
          (o : Result (Batch Json) StorageError × Database Json)
          → InFlight t ds × Distinct ids_of ds
          → Read ds t o
          → Ready o
      read_ready ds t (err e, db'') q r = tt
      read_ready ds t (ok rows, db'') q r = (
        subst (λ u. InFlight u (rows_of rows)) (sym r.1) (subst (InFlight t) (sym r.0) q.0),
        subst (Distinct ids_of) (sym r.0) q.1,
      )

-- A batch is settled: if `claim_pending` on a table of distinct ids returned these rows, and the
-- database fails no statement from then on, then after their dispatches each of the rows is emitted,
-- failed or dead-lettered, whatever the emitter answers; none keeps its lease.
pub claim_pending-Done :
    {Json E : Type 0} (k : EmitterWorker Json E) (db db' : Database Json) (rows : Batch Json)
    (w : Site Json E)
    → Distinct ids_of db.tables.deliveries
    → claim_pending k.name k.concurrency db ≡ (ok rows, db')
    → w.db ≡ db'
    → db'.faults ≡ []
    → All
        (λ (row : WebhookDelivery × WebhookReceipt Json). Done k (dispatch_all k rows w) row.0)
        rows
unfolding Ready InFlight Leased
claim_pending-Done {Json} k db db' rows w d claimed same none_left =
    let ready = subst Ready claimed (claim_pending-Ready k.name k.concurrency db d) in
    dispatch_all-Done k rows w (ap (λ (b : Database _). b.faults) same ∙ none_left)
      (leased rows ready.0) (Distinct-Apart k rows ready.1)
  where
    leased : (rows : Batch Json) → InFlight db'.tables (rows_of rows) → Leased k rows w
    leased [] h = tt
    leased ((d, r) ∷ rows) h = (
      (subst (λ (b : Database Json). Memᴰ d b.tables.deliveries) (sym same) h.0.0, h.0.1),
      leased rows h.1,
    )

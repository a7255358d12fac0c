-- ===== src/Postgres/Histories.antt =====
-- The rows of `webhook_deliveries` along any history of the operations of
-- crates/hookbox-postgres/src/storage.rs.
use mathlib.Core.List.{Memᴰ, append-nil, append_assoc}
use hookbox.Prelude.{
  inl, inr, ℕ, suc, zero, pos, negsuc, ◌≡◌, refl, sym, ◌∙◌, ap, subst, String, Bool, true, false,
  List, [], ◌∷◌, ◌++◌, ℤ, arith, All, All-append, All_mem, Evolves, update_where-Evolves,
  append-Evolves, Evolves-at,
}
use hookbox.Domain.{
  ProcessingState, ReceiptId, DeliveryId, DateTime, WebhookReceipt, WebhookDelivery, DeliveryState,
}
use hookbox.Postgres.Exec.{Tables, Database, Sql, statement, pure, ◌>>=◌}
use hookbox.Postgres.Rules.{if_rule, spent, statement_rule, bind_rule, Keeps, Keeps-statement}
use hookbox.Postgres.Receipts.{
  insert_receipt, add_receipt, insert_delivery, place, pending_delivery, store,
  store_with_deliveries, update_receipts, update_state, retry_failed, count_up, reset_for_retry,
  none_affected,
}
use hookbox.Postgres.Deliveries.{
  update_deliveries, is_expired, holds_lease, take_lease, release_lease, to_emitted, to_failed,
  to_dead_lettered, claim_rows, claim_pending, reclaim_expired, mark_emitted, mark_failed,
  mark_dead_lettered, insert_replay, insert_replays,
}
use hookbox.Postgres.Claimed.{is_ready_of_among}
use hookbox.Postgres.Consistent.{IsConsistent, IsLeasable}
use hookbox.Postgres.Keeping.{
  with_receipts-Keeps, store-Keeps, store_with_deliveries-Keeps, insert_replays-Keeps,
}
use hookbox.Postgres.Moves.{
  LegalMove, unmoved, is_over, take_lease-LegalMove, release_lease-LegalMove, to_emitted-LegalMove,
  to_failed-LegalMove, to_dead_lettered-LegalMove,
}
use hookbox.Postgres.Steps.{
  waits, marks_dead_lettered, marks_failed, marks_emitted, reclaims, claims, resets, retries,
  updates_state, replays_all, replays, stores_with_deliveries, stores, after, Step, Reach,
  Reach-IsConsistent,
}

-- A row for a receipt that nobody has worked on.
pub record IsNew (d : WebhookDelivery) : Type 0 where
  pub waiting : d.state ≡ DeliveryState.pending
  pub untried : d.attempt_count ≡ pos 0
  pub mutable : d.immutable ≡ false

unchanged : (rows : List WebhookDelivery) → Evolves LegalMove IsNew rows rows
unchanged rows =
    subst (λ l. Evolves LegalMove IsNew rows l) (append-nil rows)
      (append-Evolves LegalMove IsNew rows [] unmoved tt)

module _ {Json : Type 0} where
  abbrev pub Moved : Tables Json → Tables Json → Type 0
  Moved t u = Evolves LegalMove IsNew t.deliveries u.deliveries

  -- Rows are appended, and no other is touched.
  abbrev Grows : Tables Json → Tables Json → Type 0
  Grows t u = (rows : List WebhookDelivery) × (u.deliveries ≡ t.deliveries ++ rows) × All IsNew rows

  same_rows-Grows : (t : Tables Json) → Grows t t
  same_rows-Grows t = ([], sym (append-nil t.deliveries), tt)

  Grows-Moved : (t u : Tables Json) → Grows t u → Moved t u
  Grows-Moved t u (rows, e, new) =
      subst (λ l. Evolves LegalMove IsNew t.deliveries l) (sym e)
        (append-Evolves LegalMove IsNew t.deliveries rows unmoved new)

  place-Grows :
      (t : Tables Json) (b : Bool) (id : DeliveryId) (receipt_id : ReceiptId) (name : String)
      (db : Database Json)
      → Grows t db.tables
      → Grows t (place b id receipt_id name db).1.tables
  unfolding place pending_delivery
  place-Grows t false id receipt_id name db g = g
  place-Grows t true id receipt_id name db (rows, e, new) = (
    rows ++ pending_delivery id receipt_id name db.now ∷ [],
    ap (λ l. l ++ pending_delivery id receipt_id name db.now ∷ []) e
        ∙ append_assoc t.deliveries rows _,
    All-append IsNew rows _ new (record { waiting = refl; untried = refl; mutable = refl }, tt),
  )

  add_receipt-Grows :
      (t : Tables Json) (conflict taken : Bool) (r : WebhookReceipt Json) (db : Database Json)
      → Grows t db.tables
      → Grows t (add_receipt conflict taken r db).1.tables
  unfolding add_receipt
  add_receipt-Grows t true taken r db g = g
  add_receipt-Grows t false true r db g = g
  add_receipt-Grows t false false r db g = g

  insert_receipt-Grows :
      (t : Tables Json) (r : WebhookReceipt Json) → Keeps (Grows t) (insert_receipt r)
  unfolding insert_receipt
  insert_receipt-Grows t r = Keeps-statement (Grows t) _ (λ db g. add_receipt-Grows t _ _ r db g)

  insert_delivery-Grows :
      (t : Tables Json) (receipt_id : ReceiptId) (name : String)
      → Keeps (Grows t) (insert_delivery receipt_id name)
  unfolding insert_delivery
  insert_delivery-Grows t receipt_id name =
      Keeps-statement (Grows t) _ (λ db g. place-Grows t _ _ receipt_id name db g)

  -- What an action does to the rows of a database whose constraints hold.
  abbrev Moves : {A : Type 0} → Sql Json A → Type 0
  Moves m = (db : Database Json) → IsConsistent db.tables → Moved db.tables (m db).1.tables

  statement-Moves : {A : Type 0} (body : Sql Json A) → Moves body → Moves (statement body)
  statement-Moves body moves db c =
      statement_rule (λ r. Moved db.tables r.1.tables) body db (λ e. unchanged db.tables.deliveries)
        (moves (spent db) c)

  bind-Moves :
      {A B : Type 0} (m : Sql Json A) (f : A → Sql Json B)
      → Moves m
      → ((t : Tables Json) (a : A) → Keeps (Moved t) (f a))
      → Moves (m >>= f)
  bind-Moves m f moves keeps db c =
      bind_rule (λ r. Moved db.tables r.1.tables) (λ r. Moved db.tables r.1.tables) f (m db)
        (moves db c) (λ a d q. keeps db.tables a d q) (λ e d q. q)

  -- The one UPDATE of an operation on deliveries.
  update_deliveries-Moves :
      (p : DateTime → WebhookDelivery → Bool) (f : DateTime → WebhookDelivery → WebhookDelivery)
      → ((now : DateTime) (d : WebhookDelivery)
          → p now d ≡ true
          → IsLeasable d
          → LegalMove d (f now d))
      → Moves (update_deliveries p f)
  update_deliveries-Moves p f legal = statement-Moves _ (λ db c.
      update_where-Evolves LegalMove IsNew (p db.now) (f db.now) db.tables.deliveries (λ d m.
        if_rule (LegalMove d) (p db.now d)
          (λ h. legal db.now d h (All_mem IsLeasable d db.tables.deliveries c.leases m))
          (λ _. unmoved d)))

  then_done : {A : Type 0} (m : Sql Json A) → Moves m → Moves (m >>= λ _. pure (tt {0}))
  then_done m moves = bind-Moves m (λ _. pure (tt {0})) moves (λ t a db q. q)

  marks-Moves :
      (p : DateTime → WebhookDelivery → Bool) (f : DateTime → WebhookDelivery → WebhookDelivery)
      → ((now : DateTime) (d : WebhookDelivery)
          → p now d ≡ true
          → IsLeasable d
          → LegalMove d (f now d))
      → Moves (update_deliveries p f >>= λ _. pure (tt {0}))
  marks-Moves p f legal = then_done (update_deliveries p f) (update_deliveries-Moves p f legal)

  Grows-Moves : {A : Type 0} (m : Sql Json A) → ((t : Tables Json) → Keeps (Grows t) m) → Moves m
  Grows-Moves m grows db c =
      Grows-Moved db.tables (m db).1.tables (grows db.tables db (same_rows-Grows db.tables))

  claim_rows-Moves : (name : String) (batch : ℤ) → Moves (claim_rows name batch)
  claim_rows-Moves name (negsuc n) db c = unchanged db.tables.deliveries
  claim_rows-Moves name (pos limit) db c =
      update_where-Evolves LegalMove IsNew _ (take_lease db.now) db.tables.deliveries (λ d m.
        if_rule (LegalMove d) _
          (λ h.
            take_lease-LegalMove name db.now d
              (is_ready_of_among name db.now limit db.tables.deliveries d c.delivery_ids m h))
          (λ _. unmoved d))

  update_receipts-Moves :
      (id : ReceiptId) (f : WebhookReceipt Json → WebhookReceipt Json)
      → Moves (update_receipts id f)
  update_receipts-Moves id f = statement-Moves _ (λ db c. unchanged db.tables.deliveries)

  count_up-Moves : (b : Bool) (id : ReceiptId) (limit : ℤ) → Moves (count_up b id limit)
  unfolding count_up
  count_up-Moves true id limit db c = unchanged db.tables.deliveries
  count_up-Moves false id limit db c = unchanged db.tables.deliveries

  none_affected-Keeps : (t : Tables Json) (n : ℕ) → Keeps (Moved t) (none_affected n)
  none_affected-Keeps t zero = λ db q. q
  none_affected-Keeps t (suc n) = λ db q. q

  pub Step-Evolves :
      {d e : Database Json}
      → Step d e
      → IsConsistent d.tables
      → Evolves LegalMove IsNew d.tables.deliveries e.tables.deliveries
  unfolding mark_emitted mark_failed mark_dead_lettered claim_pending reclaim_expired update_state
      retry_failed reset_for_retry insert_replay
  Step-Evolves (stores db r) c =
      Grows-Moves (store r)
        (λ t. store-Keeps (Grows t) (insert_receipt-Grows t) (insert_delivery-Grows t) r) db c
  Step-Evolves (stores_with_deliveries db r names) c =
      Grows-Moves (store_with_deliveries r names)
        (λ t.
          store_with_deliveries-Keeps (Grows t) (insert_receipt-Grows t) (insert_delivery-Grows t) r
            names)
        db c
  Step-Evolves (replays db id name) c =
      Grows-Moves (insert_replay id name) (λ t. insert_delivery-Grows t id name) db c
  Step-Evolves (replays_all db id names) c =
      Grows-Moves (insert_replays id names)
        (λ t.
          insert_replays-Keeps (Grows t) (insert_receipt-Grows t) (insert_delivery-Grows t) id
            names)
        db c
  Step-Evolves (updates_state db id s e) c =
      let set : WebhookReceipt Json → WebhookReceipt Json =
        λ r. record r { processing_state = s; last_error = e } in
      then_done (update_receipts id set) (update_receipts-Moves id set) db c
  Step-Evolves (retries db id limit) c =
      statement-Moves _ (λ db c. count_up-Moves _ id limit db c) db c
  Step-Evolves (resets db id) c =
      let set : WebhookReceipt Json → WebhookReceipt Json =
        λ r. record r { processing_state = ProcessingState.emit_failed; emit_count = pos 0 } in
      bind-Moves (update_receipts id set) none_affected (update_receipts-Moves id set)
        none_affected-Keeps db c
  Step-Evolves (claims db name batch) c =
      bind-Moves (statement (claim_rows name batch)) _
        (statement-Moves _ (claim_rows-Moves name batch))
        (λ t rows. with_receipts-Keeps (Moved t) rows) db c
  Step-Evolves (reclaims db name lease) c =
      update_deliveries-Moves (λ now. is_expired name now lease) release_lease
        (λ now d. release_lease-LegalMove name now lease d) db c
  Step-Evolves (marks_emitted db id) c =
      marks-Moves (λ _. holds_lease id) to_emitted (λ now d h l. to_emitted-LegalMove id d h l now)
        db c
  Step-Evolves (marks_failed db id attempts due e) c =
      marks-Moves (λ _. holds_lease id) (λ _. to_failed attempts due e)
        (λ now d h l. to_failed-LegalMove id d h l attempts due e) db c
  Step-Evolves (marks_dead_lettered db id e) c =
      marks-Moves (λ _. holds_lease id) (λ _. to_dead_lettered e)
        (λ now d h l. to_dead_lettered-LegalMove id d h l e) db c
  Step-Evolves (waits db now drawn faults h) c = unchanged db.tables.deliveries

  -- Over any history from a database whose constraints hold, a row that was emitted or
  -- dead-lettered is still there at the end, unchanged.
  pub Reach-is_over :
      {d e : Database Json} (row : WebhookDelivery)
      → IsConsistent d.tables
      → Reach d e
      → is_over row.state ≡ true
      → Memᴰ row d.tables.deliveries
      → Memᴰ row e.tables.deliveries
  Reach-is_over row c Reach.here o m = m
  Reach-is_over {d} {e} row c (after {d = b} r s) o m =
      let (now, n, move) =
        Evolves-at LegalMove IsNew row b.tables.deliveries e.tables.deliveries
          (Step-Evolves s (Reach-IsConsistent c r)) (Reach-is_over row c r o m) in
      elim move.settled [
        | inl not_over ↦ absurd (ground arith)
        | inr same ↦ subst (λ x. Memᴰ x e.tables.deliveries) same n
      ]

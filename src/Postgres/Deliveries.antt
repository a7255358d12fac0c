-- ===== src/Postgres/Deliveries.antt =====
-- crates/hookbox-postgres/src/storage.rs, `DeliveryStorage for PostgresStorage`. A statement
-- runs whole, so rows that another worker has locked do not occur.
use hookbox.Prelude.{
  ℕ, ◌==◌, ◌+◌, String, Bool, true, false, not, ◌&&◌, Option, none, some, List, [], ◌∷◌, map, ℤ,
  pos, negsuc, ltb, leb, str_eq, any, select, select_one, update_where, count, order_by, take,
}
use hookbox.Domain.{
  DateTime, ReceiptId, DeliveryId, WebhookReceipt, WebhookDelivery, StorageError, DeliveryState,
  same_delivery_state,
}
use hookbox.Postgres.Exec.{
  Database, Sql, statement, pure, raise, refuse, begin, or_rollback, commit, ◌>>=◌, ◌>>◌,
}
use hookbox.Postgres.Receipts.{
  matches_text, has_delivery_id, page, or_refuse, get, insert_delivery, insert_deliveries,
}
use Prim.Native.String.{◌++◌ as text_append}

-- `state IN ('pending', 'failed')`.
abbrev pub is_waiting : DeliveryState → Bool
is_waiting DeliveryState.pending = true
is_waiting DeliveryState.failed = true
is_waiting _ = false

abbrev pub is_in_flight : DeliveryState → Bool
is_in_flight = same_delivery_state DeliveryState.in_flight

abbrev pub is_dead : DeliveryState → Bool
is_dead = same_delivery_state DeliveryState.dead_lettered

-- The rows that are ready for dispatch.
unfoldable pub is_ready : String → DateTime → WebhookDelivery → Bool
is_ready name now d =
    str_eq d.emitter_name name && is_waiting d.state && leb d.next_attempt_at now && not d.immutable

abbrev pub due_first : WebhookDelivery → WebhookDelivery → Bool
due_first d e = leb d.next_attempt_at e.next_attempt_at

-- The common table expression `claimed`: the ids of the ready rows that are due first.
unfoldable pub claimed_ids : String → DateTime → ℕ → List WebhookDelivery → List DeliveryId
unfolding is_ready
claimed_ids name now limit rows =
    map (λ d. d.delivery_id) (take limit (order_by due_first (select (is_ready name now) rows)))

abbrev pub is_among : List DeliveryId → WebhookDelivery → Bool
is_among ids d = any (λ id. d.delivery_id == id) ids

abbrev pub take_lease : DateTime → WebhookDelivery → WebhookDelivery
take_lease now d = record d { state = DeliveryState.in_flight; last_attempt_at = some now }

-- `last_attempt_at < now() - lease`; a NULL compares false.
abbrev pub leased_before : Option DateTime → ℕ → DateTime → Bool
leased_before none lease now = false
leased_before (some t) lease now = ltb (t + lease) now

-- An emission that is under way longer than its lease.
unfoldable pub is_expired : String → DateTime → ℕ → WebhookDelivery → Bool
is_expired name now lease d =
    str_eq d.emitter_name name
    && is_in_flight d.state
    && leased_before d.last_attempt_at lease now
    && not d.immutable

-- COALESCE(last_error || ' ', '') || '[reclaimed: lease expired]'.
unfoldable pub reclaimed_error : Option String → String
reclaimed_error none = "[reclaimed: lease expired]"
reclaimed_error (some e) = text_append (text_append e " ") "[reclaimed: lease expired]"

abbrev pub release_lease : DateTime → WebhookDelivery → WebhookDelivery
release_lease now d = record d {
  state = DeliveryState.failed;
  last_error = some (reclaimed_error d.last_error);
  next_attempt_at = now;
}

-- The guard of the three `mark_` statements.
abbrev pub holds_lease : DeliveryId → WebhookDelivery → Bool
holds_lease id d = has_delivery_id id d && is_in_flight d.state

abbrev pub to_emitted : DateTime → WebhookDelivery → WebhookDelivery
to_emitted now d = record d {
  state = DeliveryState.emitted;
  emitted_at = some now;
  last_error = none;
}

abbrev pub to_failed : ℤ → DateTime → String → WebhookDelivery → WebhookDelivery
to_failed attempt_count next_attempt_at last_error d = record d {
  state = DeliveryState.failed;
  attempt_count = attempt_count;
  next_attempt_at = next_attempt_at;
  last_error = some last_error;
}

abbrev pub to_dead_lettered : String → WebhookDelivery → WebhookDelivery
to_dead_lettered last_error d = record d {
  state = DeliveryState.dead_lettered;
  last_error = some last_error;
}

module _ {Json : Type 0} where
  abbrev pub with_deliveries : Database Json → List WebhookDelivery → Database Json
  with_deliveries db rows = record db { tables = record db.tables { deliveries = rows } }

  -- UPDATE webhook_deliveries SET f WHERE p, with the number of rows; both may read `now()`.
  abbrev pub update_deliveries :
      (DateTime → WebhookDelivery → Bool)
      → (DateTime → WebhookDelivery → WebhookDelivery)
      → Sql Json ℕ
  update_deliveries p f = statement λ db.
      pure (count (p db.now) db.tables.deliveries)
        (with_deliveries db (update_where (p db.now) (f db.now) db.tables.deliveries))

  abbrev pub claim_rows : String → ℤ → Sql Json (List WebhookDelivery)
  claim_rows name (negsuc n) = refuse
  claim_rows name (pos limit) = λ db.
      let ids = claimed_ids name db.now limit db.tables.deliveries in
      let rows = update_where (is_among ids) (take_lease db.now) db.tables.deliveries in
      pure (select (is_among ids) rows) (with_deliveries db rows)

  abbrev pub or_missing : Option (WebhookReceipt Json) → Sql Json (WebhookReceipt Json)
  or_missing none = raise (StorageError.internal "delivery references missing receipt")
  or_missing (some r) = pure r

  -- The loop that reads the receipt of each row.
  unfoldable pub with_receipts :
      List WebhookDelivery → Sql Json (List (WebhookDelivery × WebhookReceipt Json))
  unfolding get
  with_receipts [] = pure []
  with_receipts (d ∷ ds) = do
    found ← get d.receipt_id
    r ← or_missing found
    rest ← with_receipts ds
    pure ((d, r) ∷ rest)

  unfoldable pub claim_pending :
      String → ℤ → Sql Json (List (WebhookDelivery × WebhookReceipt Json))
  unfolding claimed_ids with_receipts
  claim_pending name batch_size = do
    rows ← statement (claim_rows name batch_size)
    with_receipts rows

  unfoldable pub reclaim_expired : String → ℕ → Sql Json ℕ
  unfolding is_expired reclaimed_error
  reclaim_expired name lease_duration =
      update_deliveries (λ now. is_expired name now lease_duration) release_lease

  unfoldable pub mark_emitted : DeliveryId → Sql Json (Unit {0})
  mark_emitted id = do affected ← update_deliveries (λ _. holds_lease id) to_emitted; pure tt

  unfoldable pub mark_failed : DeliveryId → ℤ → DateTime → String → Sql Json (Unit {0})
  mark_failed id attempt_count next_attempt_at last_error = do
    affected ←
        update_deliveries (λ _. holds_lease id)
          (λ _. to_failed attempt_count next_attempt_at last_error)
    pure tt

  unfoldable pub mark_dead_lettered : DeliveryId → String → Sql Json (Unit {0})
  mark_dead_lettered id last_error = do
    affected ← update_deliveries (λ _. holds_lease id) (λ _. to_dead_lettered last_error)
    pure tt

  unfoldable pub count_dlq : String → Sql Json ℕ
  count_dlq name = statement λ db.
      pure (count (λ d. str_eq d.emitter_name name && is_dead d.state) db.tables.deliveries) db

  unfoldable pub count_pending : String → Sql Json ℕ
  unfolding is_ready
  count_pending name = statement λ db. pure (count (is_ready name db.now) db.tables.deliveries) db

  unfoldable pub count_in_flight : String → Sql Json ℕ
  count_in_flight name = statement λ db.
      pure
        (count (λ d. str_eq d.emitter_name name && is_in_flight d.state && not d.immutable)
          db.tables.deliveries)
        db

  unfoldable pub insert_replay : ReceiptId → String → Sql Json DeliveryId
  unfolding insert_delivery
  insert_replay receipt_id name = insert_delivery receipt_id name

  unfoldable pub insert_replays : ReceiptId → List String → Sql Json (List DeliveryId)
  unfolding begin insert_deliveries commit
  insert_replays receipt_id names = do
    saved ← begin
    ids ← or_rollback saved (insert_deliveries receipt_id names)
    or_rollback saved commit
    pure ids

  abbrev pub with_receipt :
      Option WebhookDelivery → Sql Json (Option (WebhookDelivery × WebhookReceipt Json))
  with_receipt none = pure none
  with_receipt (some d) = do found ← get d.receipt_id; r ← or_missing found; pure (some (d, r))

  unfoldable pub get_delivery :
      DeliveryId → Sql Json (Option (WebhookDelivery × WebhookReceipt Json))
  unfolding get
  get_delivery id = do
    row ← statement (λ db. pure (select_one (has_delivery_id id) db.tables.deliveries) db)
    with_receipt row

  unfoldable pub get_deliveries_for_receipt : ReceiptId → Sql Json (List WebhookDelivery)
  get_deliveries_for_receipt receipt_id = statement λ db.
      pure
        (order_by (λ d e. leb d.created_at e.created_at)
          (select (λ d. d.receipt_id == receipt_id) db.tables.deliveries))
        db

  unfoldable pub list_dlq :
      Option String → ℤ → ℤ → Sql Json (List (WebhookDelivery × WebhookReceipt Json))
  unfolding with_receipts
  list_dlq name limit offset = do
    rows ← statement (λ db.
        or_refuse
          (page limit offset (
            order_by (λ d e. leb e.created_at d.created_at)
              (select (λ d. is_dead d.state && matches_text name (some d.emitter_name))
                db.tables.deliveries)))
          db)
    with_receipts rows

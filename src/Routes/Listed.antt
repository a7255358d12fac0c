-- ===== src/Routes/Listed.antt =====
-- What `list_receipts` of crates/hookbox-server/src/routes/admin.rs shows.
use mathlib.Core.List.{Memᴰ}
use mathlib.Core.Bool.{decide}
use hookbox.Prelude.{
  ◌==◌, ◌≡◌, ◌⊎◌, ◌∙◌, ◌∷◌, ◌&&◌, ℕ, ℤ, pos, negsuc, zero, suc, String, true, List, [], Option,
  none, some, Result, ok, err, map, inl, inr, refl, sym, subst, ap, order_by, select, leb, drop,
  lookup, All, unwrap_or, str_eq_iff, arith, mem_take, mem_select, mem_order_by,
}
use hookbox.Domain.{
  ReceiptFilter, ProcessingState, ProcessingState-discrete, WebhookReceipt, WebhookDelivery,
  StorageError,
}
use hookbox.Transitions.Latest.{receipt_deliveries_summary}
use hookbox.Transitions.Aggregate.{Picks, Displays, latest_mutable_per_emitter-Displays}
use hookbox.Routes.Authority.{denied_code}
use hookbox.Postgres.Exec.{Tables, Database, ◌>>=◌}
use hookbox.Postgres.Reads.{query-Reads}
use hookbox.Postgres.Rules.{spent, statement_rule, bind_rule}
use hookbox.Postgres.Receipts.{newest_first, page, or_refuse, matches_state, matches_text, query}
use hookbox.Postgres.Deliveries.{get_deliveries_for_receipt}
use hookbox.Routes.Admin.{AppState, Reply, check_auth}
use hookbox.Routes.Listings.{
  ListItem, View, Page, ListReceiptsQuery, filter_of, receipt_list_item, list_items, shown,
  authorized, list_receipts,
}

-- The receipts of the provider and in the state that are asked for, newest first, a page of them.
abbrev pub asked : ListReceiptsQuery → ReceiptFilter
asked q = record {
  provider_name = q.provider;
  processing_state = q.state;
  external_reference = none;
  provider_event_id = none;
  limit = q.limit;
  offset = q.offset;
}

abbrev pub Wanted : {A : Type 0} → Option A → A → Type 0
Wanted none x = Unit
Wanted (some y) x = x ≡ y

same_state : (s t : ProcessingState) → matches_state (some s) t ≡ true → t ≡ s
unfolding decide
same_state s t h = decided (ProcessingState-discrete t s) h
  where
    decided : (d : Dec (t ≡ s)) → decide d ≡ true → t ≡ s
    decided (yes e) h = e
    decided (no n) h = cc h

mem_drop : {A : Type 0} (n : ℕ) (x : A) (xs : List A) → Memᴰ x (drop n xs) → Memᴰ x xs
mem_drop zero x xs m = m
mem_drop (suc n) x [] m = m
mem_drop (suc n) x (y ∷ ys) m = Memᴰ.tail (mem_drop n x ys m)

every_of_mem : {A : Type 0} {P : A → Type 0} (xs : List A) → ((x : A) → Memᴰ x xs → P x) → All P xs
every_of_mem [] f = tt
every_of_mem (x ∷ xs) f = (f x (Memᴰ.head refl), every_of_mem xs (λ y m. f y (Memᴰ.tail m)))

module _ {Json : Type 0} where
  -- The receipt with its own rows of the table, in the order of their creation.
  unfoldable pub shows : Tables Json → WebhookReceipt Json → ListItem Json
  shows t r = receipt_list_item r (
      order_by (λ d e. leb d.created_at e.created_at)
        (select (λ d. d.receipt_id == r.receipt_id) t.deliveries))

  -- The rows of the receipt, in the order of their creation.
  abbrev pub own : Tables Json → WebhookReceipt Json → List WebhookDelivery
  own t r =
      order_by (λ d e. leb d.created_at e.created_at)
        (select (λ d. d.receipt_id == r.receipt_id) t.deliveries)

  -- What an item holds: the receipt with another state, the one that its own rows display, and for
  -- each emitter the state of a newest one of them.
  pub IsItem : Tables Json → WebhookReceipt Json → ListItem Json → Type 0
  IsItem t r item =
      (item.receipt ≡ record r { processing_state = item.receipt.processing_state })
      × Picks (own t r) (λ name. lookup name item.deliveries_summary)
      × Displays (own t r) (λ name. lookup name item.deliveries_summary) r.processing_state
          item.receipt.processing_state

  -- One item for each receipt in turn.
  pub AreItems : Tables Json → List (WebhookReceipt Json) → List (ListItem Json) → Type 0
  AreItems t [] [] = Unit
  AreItems t [] (item ∷ items) = ⊥
  AreItems t (r ∷ rs) [] = ⊥
  AreItems t (r ∷ rs) (item ∷ items) = IsItem t r item × AreItems t rs items

  shows-AreItems :
      (t : Tables Json) (rs : List (WebhookReceipt Json)) → AreItems t rs (map (shows t) rs)
  unfolding AreItems IsItem shows receipt_list_item receipt_deliveries_summary
  shows-AreItems t [] = tt
  shows-AreItems t (r ∷ rs) = (
    (
      refl,
      (latest_mutable_per_emitter-Displays (own t r) r.processing_state).0,
      (latest_mutable_per_emitter-Displays (own t r) r.processing_state).1,
    ),
    shows-AreItems t rs,
  )

  -- A receipt of the table that is asked for.
  abbrev pub IsFound : Tables Json → ListReceiptsQuery → WebhookReceipt Json → Type 0
  IsFound t q r =
      Memᴰ r t.receipts × Wanted q.provider r.provider_name × Wanted q.state r.processing_state

  matches-Wanted :
      (r : WebhookReceipt Json) (provider : Option String) (state : Option ProcessingState)
      → (matches_text provider (some r.provider_name)
          && matches_state state r.processing_state
          && matches_text none r.external_reference
          && matches_text none r.provider_event_id)
        ≡ true
      → Wanted provider r.provider_name × Wanted state r.processing_state
  matches-Wanted r none none h = (tt, tt)
  matches-Wanted r (some p) none h = ((str_eq_iff r.provider_name p).0 (ground arith), tt)
  matches-Wanted r none (some s) h = (tt, same_state s r.processing_state (ground arith))
  matches-Wanted r (some p) (some s) h = (
    (str_eq_iff r.provider_name p).0 (ground arith),
    same_state s r.processing_state (ground arith),
  )

  query-IsFound :
      (q : ListReceiptsQuery) (db : Database Json) (rs : List (WebhookReceipt Json))
      → (query (asked q) db).0 ≡ ok rs
      → All (IsFound db.tables q) rs
  unfolding query
  query-IsFound q db rs =
      statement_rule (λ o. o.0 ≡ ok rs → All (IsFound db.tables q) rs) _ db (λ x e. cc e)
        (paged (unwrap_or q.limit (pos 1000)) (unwrap_or q.offset (pos 0)))
    where
      ok_lem :
          {xs ys : List (WebhookReceipt Json)}
          → ◌≡◌ {A = Result (List (WebhookReceipt Json)) StorageError} (ok xs) (ok ys)
          → xs ≡ ys
      ok_lem h = cc h

      paged :
          (limit offset : ℤ)
          → (or_refuse
              (page limit offset (
                order_by newest_first (
                  select
                    (λ r.
                      matches_text q.provider (some r.provider_name)
                      && matches_state q.state r.processing_state
                      && matches_text none r.external_reference
                      && matches_text none r.provider_event_id)
                    db.tables.receipts)))
              (spent db)).0
            ≡ ok rs
          → All (IsFound db.tables q) rs
      paged (pos limit) (pos offset) e = every_of_mem rs (λ r m.
          let listed = mem_take limit r _ (subst (Memᴰ r) (ok_lem (sym e)) m) in
          let (there, matches) =
            mem_select _ r db.tables.receipts (mem_order_by _ r _ (mem_drop offset r _ listed)) in
          let (p, s) = matches-Wanted r q.provider q.state matches in (there, p, s))
      paged (pos limit) (negsuc n) e = cc e
      paged (negsuc n) offset e = cc e

  Items :
      Tables Json
      → List (WebhookReceipt Json)
      → Result (List (ListItem Json)) StorageError × Database Json
      → Type 0
  Items t rs (ok items, db) = (items ≡ map (shows t) rs) × (db.tables ≡ t)
  Items t rs (err e, db) = db.tables ≡ t

  Rows :
      Tables Json
      → WebhookReceipt Json
      → Result (List WebhookDelivery) StorageError × Database Json
      → Type 0
  Rows t r (ok ds, db) = (receipt_list_item r ds ≡ shows t r) × (db.tables ≡ t)
  Rows t r (err e, db) = db.tables ≡ t

  list_items-Items :
      (rs : List (WebhookReceipt Json)) (db : Database Json) → Items db.tables rs (list_items rs db)
  unfolding list_items Items Rows get_deliveries_for_receipt shows
  list_items-Items [] db = (refl, refl)
  list_items-Items (r ∷ rs) db =
      bind_rule (Rows db.tables r) (Items db.tables (r ∷ rs)) _
        (get_deliveries_for_receipt r.receipt_id db)
        (statement_rule (Rows db.tables r) _ db (λ e. refl) (refl, refl))
        (λ ds db' q.
          bind_rule (Items db.tables rs) (Items db.tables (r ∷ rs)) _ (list_items rs db')
            (subst (λ t. Items t rs (list_items rs db')) q.1 (list_items-Items rs db'))
            (λ items db'' i. (ap (λ x. x ∷ items) q.0 ∙ ap (◌∷◌ (shows db.tables r)) i.0, i.1))
            (λ e db'' i. i))
        (λ e db' q. q)

  module _ (st : AppState) (authorization : Option (Option String)) (q : ListReceiptsQuery) where
    -- No table changes, and the receipts are shown to those who may see them, or an error is.
    pub Listed : Database Json → Page Json → Type 0
    Listed db page =
        (page.1.tables ≡ db.tables)
        × (((rs : List (WebhookReceipt Json)) × (items : List (ListItem Json)) × (check_auth
                  st.admin_token authorization
                ≡ none)
              × ((query (asked q) db).0 ≡ ok rs)
              × All (IsFound db.tables q) rs
              × AreItems db.tables rs items
              × (page.0 ≡ View.receipts items))
            ⊎ (((why : String) × (check_auth st.admin_token authorization ≡ none)
                  × (page.0 ≡ View.failure why))
                ⊎ ((r : Reply) × (check_auth st.admin_token authorization ≡ some r)
                    × (r.0 ≡ 401)
                    × (page.0 ≡ View.reply r))))

    Answered : Database Json → Result (List (ListItem Json)) StorageError × Database Json → Type 0
    Answered db (ok items, db') =
        (db'.tables ≡ db.tables)
        × ((rs : List (WebhookReceipt Json)) × ((query (filter_of q) db).0 ≡ ok rs)
            × (items ≡ map (shows db.tables) rs))
    Answered db (err e, db') = db'.tables ≡ db.tables

    answers : (db : Database Json) → Answered db ((query (filter_of q) >>= λ rs. list_items rs) db)
    unfolding Answered Items filter_of
    answers db =
        bind_rule (λ r. (r.1.tables ≡ db.tables) × ((query (filter_of q) db).0 ≡ r.0)) (Answered db)
          _ (query (filter_of q) db) (query-Reads (filter_of q) db, refl)
          (λ rs db' h.
            read rs (list_items rs db') h.1
              (subst (λ t. Items t rs (list_items rs db')) h.0 (list_items-Items rs db')))
          (λ e db' h. h.0)
      where
        read :
            (rs : List (WebhookReceipt Json))
            (o : Result (List (ListItem Json)) StorageError × Database Json)
            → (query (filter_of q) db).0 ≡ ok rs
            → Items db.tables rs o
            → Answered db o
        read rs (ok items, db') found i = (i.1, (rs, found, i.0))
        read rs (err e, db') found i = i

    -- The listing of receipts changes no table. It shows receipts only to a request that is
    -- authorized: those that the query for the provider, the state, the limit and the offset of the
    -- request finds, all of them rows of the table with that provider and in that stored state, each
    -- with the state and the summary that its own deliveries in the table give it. Otherwise it
    -- answers 401 to a request that is denied, and else shows an error.
    pub list_receipts-Listed :
        (db : Database Json) → Listed db (list_receipts st authorization q db)
    unfolding list_receipts Listed Answered shown authorized filter_of
    list_receipts-Listed db = checked (check_auth st.admin_token authorization) refl
      where
        answered :
            (o : Result (List (ListItem Json)) StorageError × Database Json)
            → check_auth st.admin_token authorization ≡ none
            → Answered db o
            → Listed db (shown View.receipts o)
        answered (ok items, db') allowed a = (
          a.0,
          inl (
            a.1.0,
            items,
            allowed,
            a.1.1,
            query-IsFound q db a.1.0 a.1.1,
            subst (AreItems db.tables a.1.0) (sym a.1.2) (shows-AreItems db.tables a.1.0),
            refl,
          ),
        )
        answered (err e, db') allowed a = (a, inr (inl (_, allowed, refl)))

        checked :
            (o : Option Reply)
            → check_auth st.admin_token authorization ≡ o
            → Listed db (
                authorized o
                  (λ db. shown View.receipts ((query (filter_of q) >>= λ rs. list_items rs) db))
                  db)
        checked (some r) e =
            (refl, inr (inr (r, e, denied_code st.admin_token authorization r e, refl)))
        checked none e = answered _ e (answers db)

-- ===== src/Cli/Replayed.antt =====
-- What `replay id` of crates/hookbox-cli/src/commands/replay.rs promises.
use mathlib.Core.List.{Memᴰ, append-nil}
use hookbox.Prelude.{
  String, Option, none, some, Bool, true, false, List, [], ◌∷◌, ◌++◌, Result, ok, err, not, ◌≡◌,
  ◌≢◌, ◌↔◌, ◌⊎◌, inl, inr, All, refl, subst, ap, ◌∙◌, select, order_by, leb, ◌==◌, if◌then◌else◌,
}
use hookbox.Domain.{Uuid, DateTime, DeliveryId, WebhookDelivery, StorageError}
use hookbox.Postgres.Exec.{Tables, Database}
use hookbox.Postgres.Rules.{statement_rule}
use hookbox.Postgres.Inserts.{IsFresh, Delivered, insert_delivery-Delivered}
use hookbox.Postgres.Receipts.{pending_delivery}
use hookbox.Postgres.Replays.{Replays, insert_replays-Replays}
use hookbox.Postgres.Deliveries.{insert_replay, insert_replays, get_deliveries_for_receipt}
use hookbox.Config.Emitters.{HookboxConfig}
use hookbox.Config.Validate.{ConfigError}
use hookbox.Config.Normalize.{parse_and_normalize}
use hookbox.Cli.Historical.{names_of, mem_order, none_stale}
use hookbox.Cli.Names.{name_set, has_name, has_name-Mem, mem_name_set}
use hookbox.Cli.Replay.{
  ReplayError, Answer, emitter_names, inserted, replay_all, after_stale, after_deliveries, replay,
  after_config, run_replay_id,
}

module _ {Json : Type 0} (configured : List String) (id : Uuid) where
  -- The names that are asked for: the one given, or those of the deliveries of the receipt.
  pub Targets : Option String → Tables Json → List String → Type 0
  Targets (some name) t names = names ≡ name ∷ []
  Targets none t names =
      (names ≢ [])
      × ((n : String)
          → Memᴰ n names ↔ Memᴰ n (names_of (select (λ d. d.receipt_id == id) t.deliveries)))

  -- Fresh rows for the names asked for, all of them configured; or an error and no change.
  unfoldable pub Replayed : Option String → Tables Json → DateTime → Answer Json → Type 0
  Replayed emitter t now (ok _, db) =
      (db.tables.receipts ≡ t.receipts)
      × ((names : List String) × (rows : List WebhookDelivery) × Targets emitter t names
          × All (λ n. Memᴰ n configured) names
          × (db.tables.deliveries ≡ t.deliveries ++ rows)
          × (names_of rows ≡ names)
          × All (IsFresh id now) rows)
  Replayed emitter t now (err e, db) =
      (db.tables.receipts ≡ t.receipts) × (db.tables.deliveries ≡ t.deliveries)

  unchanged :
      (e : ReplayError) (emitter : Option String) (t : Tables Json) (now : DateTime)
      (db : Database Json)
      → db.tables ≡ t
      → Replayed emitter t now (err e, db)
  unfolding Replayed
  unchanged e emitter t now db same =
      (ap (λ (u : Tables Json). u.receipts) same, ap (λ (u : Tables Json). u.deliveries) same)

  one-Replayed :
      (name : String) (t : Tables Json) (now : DateTime)
      (o : Result DeliveryId StorageError × Database Json)
      → Memᴰ name configured
      → Delivered id name t now o
      → Replayed (some name) t now (inserted o)
  unfolding Replayed Targets inserted pending_delivery
  one-Replayed name t now (ok d, db) there (a, only) =
      (a.receipts, (name ∷ [], a.rows, refl, (there, tt), a.deliveries, ap names_of only, a.fresh))
  one-Replayed name t now (err e, db) there (a, none_added) = (
    a.receipts,
    a.deliveries ∙ ap (λ rows. t.deliveries ++ rows) none_added ∙ append-nil t.deliveries,
  )

  replay_all-Replayed :
      (t : Tables Json) (now : DateTime) (names : List String) (db : Database Json)
      → Targets none t names
      → All (λ n. Memᴰ n configured) names
      → db.tables ≡ t
      → db.now ≡ now
      → Replayed none t now (replay_all id names db)
  unfolding replay_all Replayed inserted
  replay_all-Replayed t now names db targets there same same_now =
      answer (insert_replays id names db) (
        subst (λ n. Replays id names t n (insert_replays id names db)) same_now
          (subst (λ u. Replays id names u db.now (insert_replays id names db)) same
            (insert_replays-Replays id names db)))
    where
      answer :
          (o : Result (List DeliveryId) StorageError × Database Json)
          → Replays id names t now o
          → Replayed none t now (inserted o)
      answer (ok ids, d) (a, named, _) =
          (a.receipts, (names, a.rows, targets, there, a.deliveries, named, a.fresh))
      answer (err e, d) kept = unchanged (ReplayError.storage e) none t now d kept

  after_stale-Replayed :
      (t : Tables Json) (now : DateTime) (names stale : List String) (db : Database Json)
      → select (λ n. not (has_name configured n)) names ≡ stale
      → Targets none t names
      → db.tables ≡ t
      → db.now ≡ now
      → Replayed none t now (after_stale stale id names db)
  unfolding after_stale
  after_stale-Replayed t now names [] db e targets same same_now =
      replay_all-Replayed t now names db targets (none_stale configured names e) same same_now
  after_stale-Replayed t now names (n ∷ ns) db e targets same same_now =
      unchanged _ none t now db same

  -- What the search for the deliveries of the receipt gives.
  Listed :
      Tables Json → DateTime → Result (List WebhookDelivery) StorageError × Database Json → Type 0
  Listed t now (ok ds, db) =
      (order_by (λ d e. leb d.created_at e.created_at)
          (select (λ d. d.receipt_id == id) t.deliveries)
        ≡ ds)
      × (db.tables ≡ t)
      × (db.now ≡ now)
  Listed t now (err e, db) = db.tables ≡ t

  deliveries-Listed :
      (db : Database Json) → Listed db.tables db.now (get_deliveries_for_receipt id db)
  unfolding get_deliveries_for_receipt Listed
  deliveries-Listed db =
      statement_rule (Listed db.tables db.now) _ db (λ e. refl) (refl, refl, refl)

  historical-Targets :
      (t : Tables Json) (d : WebhookDelivery) (ds : List WebhookDelivery)
      → order_by
          (λ d e. leb d.created_at e.created_at)
          (select (λ d. d.receipt_id == id) t.deliveries)
        ≡ d ∷ ds
      → Targets none t (name_set (names_of (d ∷ ds)))
  unfolding Targets
  historical-Targets t d ds e = (
    λ q. not_empty (
        subst (Memᴰ d.emitter_name) q
          ((mem_name_set d.emitter_name (names_of (d ∷ ds))).1 (Memᴰ.head refl))),
    λ n. (to n, from n),
  )
    where
      not_empty : Memᴰ d.emitter_name [] → ⊥
      not_empty m = elim m [ ]

      ordered :
          (n : String)
          → Memᴰ n (names_of (d ∷ ds))
            ↔ Memᴰ n (names_of (select (λ d. d.receipt_id == id) t.deliveries))
      ordered n =
          subst
            (λ l.
              Memᴰ n (names_of l)
              ↔ Memᴰ n (names_of (select (λ d. d.receipt_id == id) t.deliveries)))
            e
            (mem_order (λ (d : WebhookDelivery). d.emitter_name)
              (λ d e. leb d.created_at e.created_at) n
              (select (λ d. d.receipt_id == id) t.deliveries))

      to :
          (n : String)
          → Memᴰ n (name_set (names_of (d ∷ ds)))
          → Memᴰ n (names_of (select (λ d. d.receipt_id == id) t.deliveries))
      to n m = (ordered n).0 ((mem_name_set n (names_of (d ∷ ds))).0 m)

      from :
          (n : String)
          → Memᴰ n (names_of (select (λ d. d.receipt_id == id) t.deliveries))
          → Memᴰ n (name_set (names_of (d ∷ ds)))
      from n m = (mem_name_set n (names_of (d ∷ ds))).1 ((ordered n).1 m)

  after_deliveries-Replayed :
      (t : Tables Json) (now : DateTime)
      (o : Result (List WebhookDelivery) StorageError × Database Json)
      → Listed t now o
      → Replayed none t now (after_deliveries configured id o)
  unfolding after_deliveries Listed
  after_deliveries-Replayed t now (err e, db) same = unchanged _ none t now db same
  after_deliveries-Replayed t now (ok [], db) (e, same, same_now) = unchanged _ none t now db same
  after_deliveries-Replayed t now (ok (d ∷ ds), db) (e, same, same_now) =
      after_stale-Replayed t now (name_set (names_of (d ∷ ds))) _ db refl
        (historical-Targets t d ds e) same same_now

  replay-Replayed :
      (emitter : Option String) (db : Database Json)
      → Replayed emitter db.tables db.now (replay configured id emitter db)
  unfolding replay insert_replay
  replay-Replayed none db = after_deliveries-Replayed db.tables db.now _ (deliveries-Listed db)
  replay-Replayed (some name) db = guarded (has_name configured name) refl
    where
      guarded :
          (b : Bool)
          → has_name configured name ≡ b
          → Replayed (some name) db.tables db.now (
              if b
              then inserted (insert_replay id name db)
              else (err (ReplayError.not_configured name), db))
      guarded true e =
          one-Replayed name db.tables db.now _ (has_name-Mem configured name e)
            (insert_delivery-Delivered id name db)
      guarded false e = unchanged _ (some name) db.tables db.now db refl

module _ {Json : Type 0} (from_str : String → Result HookboxConfig String) (id : Uuid)
    (emitter : Option String) where
  -- An error and no change, or a replay over the emitters of the normalized configuration.
  unfoldable pub Ran : Result String String → Tables Json → DateTime → Answer Json → Type 0
  Ran raw t now answer =
      ((e : ReplayError) × (answer.0 ≡ err e) × (answer.1.tables ≡ t))
      ⊎ ((text : String) × (c : HookboxConfig) × (warnings : List String) × (raw ≡ ok text)
          × (parse_and_normalize from_str text ≡ ok (c, warnings))
          × Replayed (name_set (emitter_names c)) id emitter t now answer)

  pub run_replay_id-Ran :
      (raw : Result String String) (connection : Result (Unit {0}) String) (db : Database Json)
      → Ran raw db.tables db.now (run_replay_id from_str raw connection id emitter db)
  unfolding run_replay_id after_config Ran
  run_replay_id-Ran (err e) connection db = inl (ReplayError.unreadable e, refl, refl)
  run_replay_id-Ran (ok text) connection db =
      configured (parse_and_normalize from_str text) connection refl
    where
      configured :
          (o : Result (HookboxConfig × List String) ConfigError)
          (connection : Result (Unit {0}) String)
          → parse_and_normalize from_str text ≡ o
          → Ran (ok text) db.tables db.now (after_config o connection id emitter db)
      configured (err x) connection e = inl (ReplayError.config x, refl, refl)
      configured (ok (c, ws)) (err x) e = inl (ReplayError.no_connection x, refl, refl)
      configured (ok (c, ws)) (ok _) e =
          inr (text, c, ws, refl, e, replay-Replayed (name_set (emitter_names c)) id emitter db)

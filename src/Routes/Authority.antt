-- ===== src/Routes/Authority.antt =====
-- What `replay_receipt` of crates/hookbox-server/src/routes/admin.rs promises.
use mathlib.Core.List.{Memᴰ}
use hookbox.Cli.Names.{has_name-Mem}
use hookbox.Prelude.{
  Bool, true, false, [], ◌∷◌, if◌then◌else◌, ◌⊎◌, inl, inr, select_one, String, List, ◌++◌, map,
  All, Option, none, some, Result, ok, err, ◌≡◌, ◌≢◌, refl, subst, arith,
}
use hookbox.Domain.{Uuid, DateTime, WebhookReceipt, WebhookDelivery, StorageError}
use hookbox.Postgres.Exec.{Tables, Database}
use hookbox.Postgres.Rules.{statement_rule}
use hookbox.Postgres.Receipts.{has_receipt_id, get}
use hookbox.Postgres.Deliveries.{insert_replays}
use hookbox.Postgres.Inserts.{IsFresh}
use hookbox.Postgres.Replays.{Replays, insert_replays-Replays}
use hookbox.Routes.Admin.{
  contains, name_of, not_configured, AppState, Reply, check_auth, replay_targets, replay_to,
  after_replays, after_get, authorized_replay, replay_receipt,
}

pub denied_code :
    (token : Option String) (a : Option (Option String)) (reply : Reply)
    → check_auth token a ≡ some reply
    → reply.0 ≡ 401
unfolding check_auth
denied_code none a reply e = absurd cc
denied_code (some expected) none reply e = ground (arith, e)
denied_code (some expected) (some none) reply e = ground (arith, e)
denied_code (some expected) (some (some auth)) reply e = ground (arith, e)

module _ {Json : Type 0} where
  abbrev Got :
      Uuid
      → Tables Json
      → DateTime
      → Result (Option (WebhookReceipt Json)) StorageError × Database Json
      → Type 0
  Got id t now (ok o, db) =
      (select_one (has_receipt_id id) t.receipts ≡ o) × (db.tables ≡ t) × (db.now ≡ now)
  Got id t now (err e, db) = db.tables ≡ t

  get-Got : (id : Uuid) (db : Database Json) → Got id db.tables db.now (get id db)
  unfolding get
  get-Got id db = statement_rule (Got id db.tables db.now) _ db (λ e. refl) (refl, refl, refl)

-- The emitters asked for: the one that is named, which is configured, or all that are.
pub Asked : List String → Option String → List String → Type 0
Asked configured none names = names ≡ configured
Asked configured (some name) names = (names ≡ name ∷ []) × Memᴰ name configured

replay_targets-Asked :
    (emitter : Option String) (configured names : List String)
    → replay_targets emitter configured ≡ some names
    → Asked configured emitter names
unfolding replay_targets Asked
replay_targets-Asked none configured names e = cc e
replay_targets-Asked (some name) configured names e = found (contains configured name) refl e
  where
    found :
        (b : Bool)
        → contains configured name ≡ b
        → ◌≡◌ {A = Option (List String)} (if b then some (name ∷ []) else none) (some names)
        → (names ≡ name ∷ []) × Memᴰ name configured
    found true f e = (cc e, has_name-Mem configured name f)
    found false f e = cc e

module _ (st : AppState) {Json : Type 0} (authorization : Option (Option String)) (id : Uuid)
    (emitter : Option String) where
  -- `t` and `now` before, the reply and the database after: nothing was done, or the request was
  -- authorized, its receipt is there, and each emitter asked for has one fresh row more.
  abbrev pub Replied : Tables Json → DateTime → Reply × Database Json → Type 0
  Replied t now (reply, db) =
      ((reply.0 ≢ 202) × (db.tables ≡ t))
      ⊎ ((reply.0 ≡ 202)
          × (check_auth st.admin_token authorization ≡ none)
          × (db.tables.receipts ≡ t.receipts)
          × ((r : WebhookReceipt Json) × (names : List String) × (rows : List WebhookDelivery)
              × (select_one (has_receipt_id id) t.receipts ≡ some r)
              × Asked st.emitter_names emitter names
              × (db.tables.deliveries ≡ t.deliveries ++ rows)
              × (map (λ (d : WebhookDelivery). d.emitter_name) rows ≡ names)
              × All (IsFresh r.receipt_id now) rows))

  -- What `replay_to` may rely on.
  record Ready (t : Tables Json) (r : WebhookReceipt Json) (names : List String) : Type 0 where
    allowed : check_auth st.admin_token authorization ≡ none
    there : select_one (has_receipt_id id) t.receipts ≡ some r
    targets : Asked st.emitter_names emitter names

  after_replays-Replied :
      (t : Tables Json) (now : DateTime) (r : WebhookReceipt Json) (names : List String)
      (o : Result (List Uuid) StorageError × Database Json)
      → Ready t r names
      → Replays r.receipt_id names t now o
      → Replied t now (after_replays st o)
  unfolding after_replays
  after_replays-Replied t now r names (ok ids, db) h a = inr (
    refl,
    h.allowed,
    a.0.receipts,
    (r, names, a.0.rows, h.there, h.targets, a.0.deliveries, a.1, a.0.fresh),
  )
  after_replays-Replied t now r names (err e, db) h a = inl (λ c. omega (arith, c), a)

  replay_to-Replied :
      (o : Option (List String)) (t : Tables Json) (now : DateTime) (r : WebhookReceipt Json)
      (db : Database Json)
      → check_auth st.admin_token authorization ≡ none
      → select_one (has_receipt_id id) t.receipts ≡ some r
      → replay_targets emitter st.emitter_names ≡ o
      → db.tables ≡ t
      → db.now ≡ now
      → Replied t now (replay_to st o (name_of emitter) id r.receipt_id db)
  unfolding replay_to not_configured
  replay_to-Replied none t now r db allowed there targets same same_now =
      inl (λ c. omega (arith, c), same)
  replay_to-Replied (some names) t now r db allowed there targets same same_now =
      after_replays-Replied t now r names (insert_replays r.receipt_id names db)
        (record {
          allowed = allowed;
          there = there;
          targets = replay_targets-Asked emitter st.emitter_names names targets;
        })
        (subst (λ n. Replays r.receipt_id names t n (insert_replays r.receipt_id names db)) same_now
          (subst (λ u. Replays r.receipt_id names u db.now (insert_replays r.receipt_id names db))
            same (insert_replays-Replays r.receipt_id names db)))

  after_get-Replied :
      (t : Tables Json) (now : DateTime)
      (o : Result (Option (WebhookReceipt Json)) StorageError × Database Json)
      → check_auth st.admin_token authorization ≡ none
      → Got id t now o
      → Replied t now (after_get st id emitter o)
  unfolding after_get
  after_get-Replied t now (ok (some r), db) allowed (there, same, same_now) =
      replay_to-Replied _ t now r db allowed there refl same same_now
  after_get-Replied t now (ok none, db) allowed (there, same, same_now) =
      inl (λ c. omega (arith, c), same)
  after_get-Replied t now (err e, db) allowed same = inl (λ c. omega (arith, c), same)

  authorized-Replied :
      (o : Option Reply) (db : Database Json)
      → check_auth st.admin_token authorization ≡ o
      → Replied db.tables db.now (authorized_replay st o id emitter db)
  unfolding authorized_replay
  authorized-Replied (some reply) db e =
      inl (λ c. omega (arith, c, denied_code st.admin_token authorization reply e), refl)
  authorized-Replied none db e = after_get-Replied db.tables db.now (get id db) e (get-Got id db)

  -- A replay either answers 202, and then the request was authorized, its receipt exists, and
  -- exactly one fresh row for it was added for each emitter asked for, all of them configured;
  -- or it answers something else and both tables are as they were.
  pub replay_receipt-Replied :
      (db : Database Json)
      → Replied db.tables db.now (replay_receipt st authorization id emitter db)
  unfolding replay_receipt
  replay_receipt-Replied db = authorized-Replied _ db refl

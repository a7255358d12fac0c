-- ===== src/Worker/Settles.antt =====
-- What becomes of a whole batch of `EmitterWorker::spawn` in crates/hookbox-server/src/worker.rs.
use mathlib.Core.List.{Memᴰ}
use hookbox.Prelude.{
  All-map, ◌+◌, ◌==◌, Bool, true, false, List, [], ◌∷◌, Result, ok, err, leb_ℤ, ◌≡◌, ◌≢◌, ◌⊎◌, inl,
  inr, refl, sym, ap, ◌∙◌, arith, All, update_where, if◌then◌else◌, ==_iff, Bool-cases, subst,
}
use hookbox.Domain.{
  DateTime, DeliveryId, WebhookReceipt, WebhookDelivery, DeliveryState, EmitError, from_receipt,
}
use hookbox.Postgres.Exec.{Database, Sql, later_faults, pure, ◌>>=◌}
use hookbox.Postgres.Rules.{statement_rule, bind_rule}
use hookbox.Postgres.Deliveries.{
  update_deliveries, holds_lease, to_emitted, to_failed, to_dead_lettered, mark_emitted,
  mark_failed, mark_dead_lettered,
}
use hookbox.Worker.Dispatch.{
  EmitterWorker, Site, dispatch_one, after_emit, on_success, on_failure, next_attempt, retry_delay,
  emit_error_text,
}
use hookbox.Worker.Loop.{dispatch_all}
use hookbox.Worker.Outcomes.{dispatch_one-Answered, Answered, Failing}

-- The work on a leased row is done, for now or for good.
pub IsSettled : DeliveryState → Type 0
IsSettled s =
    (s ≡ DeliveryState.emitted) ⊎ (s ≡ DeliveryState.failed) ⊎ (s ≡ DeliveryState.dead_lettered)

mem_update_other :
    {A : Type 0} (p : A → Bool) (f : A → A) (x : A) (xs : List A)
    → Memᴰ x xs
    → p x ≡ false
    → Memᴰ x (update_where p f xs)
mem_update_other p f x [] m h = elim m [ ]
mem_update_other p f x (y ∷ ys) (Memᴰ.head e) h = Memᴰ.head (kept (p y) (sym (ap p e) ∙ h))
  where
    kept : (b : Bool) → b ≡ false → x ≡ (if b then f y else y)
    kept true g = absurd cc
    kept false g = e
mem_update_other p f x (y ∷ ys) (Memᴰ.tail t) h = Memᴰ.tail (mem_update_other p f x ys t h)

other : (id : DeliveryId) (d : WebhookDelivery) → d.delivery_id ≢ id → holds_lease id d ≡ false
other id d n = elim (Bool-cases (d.delivery_id == id)) [
  | inl e ↦ absurd (n ((==_iff d.delivery_id id).0 e))
  | inr e ↦ ground (arith, e)
]

module _ {Json : Type 0} where
  -- A mark, as the three statements make it.
  abbrev mark : DeliveryId → (DateTime → WebhookDelivery → WebhookDelivery) → Sql Json (Unit {0})
  mark id f = update_deliveries (λ _. holds_lease id) f >>= λ n. pure (tt {0})

  mark-other :
      (id : DeliveryId) (f : DateTime → WebhookDelivery → WebhookDelivery) (x : WebhookDelivery)
      (db : Database Json)
      → x.delivery_id ≢ id
      → Memᴰ x db.tables.deliveries
      → Memᴰ x (mark id f db).1.tables.deliveries
  mark-other id f x db n m =
      bind_rule (λ r. Memᴰ x r.1.tables.deliveries) (λ r. Memᴰ x r.1.tables.deliveries) _
        (update_deliveries (λ _. holds_lease id) f db)
        (statement_rule (λ r. Memᴰ x r.1.tables.deliveries) _ db (λ _. m)
          (mem_update_other (holds_lease id) (f db.now) x db.tables.deliveries m (other id x n)))
        (λ a d q. q) (λ e d q. q)

  mark-faults :
      (id : DeliveryId) (f : DateTime → WebhookDelivery → WebhookDelivery) (db : Database Json)
      → db.faults ≡ []
      → (mark id f db).1.faults ≡ []
  mark-faults id f db e =
      bind_rule (λ r. r.1.faults ≡ []) (λ r. r.1.faults ≡ []) _
        (update_deliveries (λ _. holds_lease id) f db)
        (statement_rule (λ r. r.1.faults ≡ []) _ db (λ _. ap later_faults e) (ap later_faults e))
        (λ a d q. q) (λ x d q. q)

module _ {Json E : Type 0} (k : EmitterWorker Json E) where
  -- What a dispatch does to the database is one mark of the row with the id.
  abbrev Marks : DeliveryId → Database Json → Database Json → Type 0
  Marks id db db' = (f : DateTime → WebhookDelivery → WebhookDelivery) × (db' ≡ (mark id f db).1)

  dispatch_one-Marks :
      (d : WebhookDelivery) (r : WebhookReceipt Json) (w : Site Json E)
      → Marks d.delivery_id w.db (dispatch_one k d r w).db
  unfolding dispatch_one after_emit on_success on_failure mark_emitted mark_failed
      mark_dead_lettered
  dispatch_one-Marks d r w = answered (k.emitter.emit (from_receipt r) w.sink).0 _
    where
      failed :
          (last : Bool) (e : EmitError) (w : Site Json E)
          → Marks d.delivery_id w.db (on_failure k last d r e w).db
      failed true e w = (λ _. to_dead_lettered (emit_error_text e), refl)
      failed false e w = (
        λ _. to_failed (next_attempt d) (w.clock + retry_delay k w.clock d) (emit_error_text e),
        refl,
      )

      answered :
          (sent : Result (Unit {0}) EmitError) (w : Site Json E)
          → Marks d.delivery_id w.db (after_emit k sent d r w).db
      answered (ok _) w = (to_emitted, refl)
      answered (err e) w = failed (leb_ℤ k.policy.max_attempts (next_attempt d)) e w

  dispatch_one-other :
      (d : WebhookDelivery) (r : WebhookReceipt Json) (w : Site Json E) (x : WebhookDelivery)
      → x.delivery_id ≢ d.delivery_id
      → Memᴰ x w.db.tables.deliveries
      → Memᴰ x (dispatch_one k d r w).db.tables.deliveries
  dispatch_one-other d r w x n m =
      let (f, e) = dispatch_one-Marks d r w in
      subst (λ (db : Database Json). Memᴰ x db.tables.deliveries) (sym e)
        (mark-other d.delivery_id f x w.db n m)

  dispatch_one-faults :
      (d : WebhookDelivery) (r : WebhookReceipt Json) (w : Site Json E)
      → w.db.faults ≡ []
      → (dispatch_one k d r w).db.faults ≡ []
  dispatch_one-faults d r w none_left =
      let (f, e) = dispatch_one-Marks d r w in
      ap (λ (db : Database Json). db.faults) e ∙ mark-faults d.delivery_id f w.db none_left

  abbrev Batch : Type 0
  Batch = List (WebhookDelivery × WebhookReceipt Json)

  dispatch_all-other :
      (rows : Batch) (w : Site Json E) (x : WebhookDelivery)
      → All
          (λ (row : WebhookDelivery × WebhookReceipt Json). x.delivery_id ≢ row.0.delivery_id)
          rows
      → Memᴰ x w.db.tables.deliveries
      → Memᴰ x (dispatch_all k rows w).db.tables.deliveries
  unfolding dispatch_all
  dispatch_all-other [] w x n m = m
  dispatch_all-other ((d, r) ∷ rows) w x n m =
      dispatch_all-other rows (dispatch_one k d r w) x n.1 (dispatch_one-other d r w x n.0 m)

  -- Leased rows of the table, no two with one id.
  unfoldable pub Leased : Batch → Site Json E → Type 0
  Leased rows w =
      All
        (λ (row : WebhookDelivery × WebhookReceipt Json).
          Memᴰ row.0 w.db.tables.deliveries × (row.0.state ≡ DeliveryState.in_flight))
        rows

  unfoldable pub Apart : Batch → Type 0
  Apart [] = Unit
  Apart ((d, r) ∷ rows) =
      All (λ (row : WebhookDelivery × WebhookReceipt Json). d.delivery_id ≢ row.0.delivery_id) rows
      × Apart rows

  -- The row with the id of `d` is settled.
  unfoldable pub Done : Site Json E → WebhookDelivery → Type 0
  Done w d =
      (d' : WebhookDelivery) × Memᴰ d' w.db.tables.deliveries
      × (d'.delivery_id ≡ d.delivery_id)
      × IsSettled d'.state

  Answered-IsSettled :
      (sent : Result (Unit {0}) EmitError) (now clock : DateTime) (d d' : WebhookDelivery)
      → Answered k sent now clock d d'
      → (d'.delivery_id ≡ d.delivery_id) × IsSettled d'.state
  unfolding IsSettled
  Answered-IsSettled (ok _) now clock d d' f = (f.0, inl f.1)
  Answered-IsSettled (err e) now clock d d' f =
      (f.0, last (leb_ℤ k.policy.max_attempts (next_attempt d)) f.2)
    where
      last : (b : Bool) → Failing k b clock d d' → IsSettled d'.state
      last true h = inr (inr h)
      last false h = inr (inl h.0)

  others-Leased :
      (d : WebhookDelivery) (r : WebhookReceipt Json) (rows : Batch) (w : Site Json E)
      → All
          (λ (row : WebhookDelivery × WebhookReceipt Json). d.delivery_id ≢ row.0.delivery_id)
          rows
      → Leased rows w
      → Leased rows (dispatch_one k d r w)
  unfolding Leased
  others-Leased d r [] w n l = tt
  others-Leased d r ((e, s) ∷ rows) w n l = (
    (dispatch_one-other d r w e (λ q. n.0 (sym q)) l.0.0, l.0.1),
    others-Leased d r rows w n.1 l.1,
  )

  -- A worker settles its batch: with no database error to come, after the dispatches of leased rows
  -- of the table with different ids, each of them is emitted, failed or dead-lettered, whatever the
  -- emitter answers.
  pub dispatch_all-Done :
      (rows : Batch) (w : Site Json E)
      → w.db.faults ≡ []
      → Leased rows w
      → Apart rows
      → All
          (λ (row : WebhookDelivery × WebhookReceipt Json). Done (dispatch_all k rows w) row.0)
          rows
  unfolding dispatch_all Leased Apart Done
  dispatch_all-Done [] w e l a = tt
  dispatch_all-Done ((d, r) ∷ rows) w e l a =
      let (d', m, f) = dispatch_one-Answered k d r w e l.0.0 l.0.1 in
      let (same, settled) = Answered-IsSettled _ _ _ d d' f in
      (
        (
          d',
          dispatch_all-other rows (dispatch_one k d r w) d'
              (All-map _ _ (λ row n q. n (sym same ∙ q)) rows a.0) m,
          same,
          settled,
        ),
        dispatch_all-Done rows (dispatch_one k d r w) (dispatch_one-faults d r w e)
            (others-Leased d r rows w a.0 l.1) a.1,
      )

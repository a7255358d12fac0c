-- ===== src/Worker/Leases.antt =====
-- What `dispatch_one` and a turn of the loop of crates/hookbox-server/src/worker.rs do to the
-- delivery rows.
use mathlib.Core.List.{Memᴰ}
use hookbox.Prelude.{
  ℕ, zero, suc, Bool, true, false, List, [], ◌∷◌, Result, ok, err, ◌≡◌, refl, sym, subst, arith,
}
use hookbox.Domain.{WebhookReceipt, WebhookDelivery, EmitError, StorageError}
use hookbox.Postgres.Exec.{Database, statement, later_faults, pure}
use hookbox.Postgres.Rules.{statement_rule}
use hookbox.Postgres.Deliveries.{
  count_dlq, count_pending, count_in_flight, claim_pending, reclaim_expired,
}
use hookbox.Postgres.Consistent.{IsConsistent}
use hookbox.Postgres.Moves.{is_over}
use hookbox.Postgres.Steps.{
  Reach, after, marks_emitted, marks_failed, marks_dead_lettered, waits, claims, reclaims,
  Reach-IsConsistent,
}
use hookbox.Postgres.Histories.{Reach-is_over}
use hookbox.Worker.Dispatch.{EmitterWorker, Site, dispatch_one, after_emit, on_success, on_failure}
use hookbox.Worker.Loop.{refresh_gauges, after_reclaim, dispatch_all, after_claim, tick}

Reach-trans : {Json : Type 0} {a b c : Database Json} → Reach a b → Reach b c → Reach a c
Reach-trans r Reach.here = r
Reach-trans r (after s t) = after (Reach-trans r s) t

-- A statement that only reads.
read-Reach :
    {Json A : Type 0} (g : Database Json → A) (db : Database Json)
    → Reach db (statement (λ d. pure (g d) d) db).1
read-Reach g db =
    let done =
      after Reach.here (waits db db.now db.drawn (later_faults db.faults) (ground arith)) in
    statement_rule (λ r. Reach db r.1) (λ d. pure (g d) d) db (λ e. done) done

module _ {Json E : Type 0} (k : EmitterWorker Json E) where
  on_failure-Reach :
      (last : Bool) (d : WebhookDelivery) (r : WebhookReceipt Json) (e : EmitError)
      (w : Site Json E)
      → Reach w.db (on_failure k last d r e w).db
  unfolding on_failure
  on_failure-Reach true d r e w = after Reach.here (marks_dead_lettered w.db _ _)
  on_failure-Reach false d r e w = after Reach.here (marks_failed w.db _ _ _ _)

  after_emit-Reach :
      (sent : Result (Unit {0}) EmitError) (d : WebhookDelivery) (r : WebhookReceipt Json)
      (w : Site Json E)
      → Reach w.db (after_emit k sent d r w).db
  unfolding after_emit on_success
  after_emit-Reach (ok _) d r w = after Reach.here (marks_emitted w.db _)
  after_emit-Reach (err e) d r w = on_failure-Reach _ d r e w

  dispatch_one-Reach :
      (d : WebhookDelivery) (r : WebhookReceipt Json) (w : Site Json E)
      → Reach w.db (dispatch_one k d r w).db
  unfolding dispatch_one
  dispatch_one-Reach d r w = after_emit-Reach _ d r _

  dispatch_all-Reach :
      (rows : List (WebhookDelivery × WebhookReceipt Json)) (w : Site Json E)
      → Reach w.db (dispatch_all k rows w).db
  unfolding dispatch_all
  dispatch_all-Reach [] w = Reach.here
  dispatch_all-Reach ((d, r) ∷ rows) w =
      Reach-trans (dispatch_one-Reach d r w) (dispatch_all-Reach rows (dispatch_one k d r w))

  refresh_gauges-Reach : (w : Site Json E) → Reach w.db (refresh_gauges k w).db
  unfolding refresh_gauges count_dlq count_pending count_in_flight
  refresh_gauges-Reach w =
      Reach-trans (read-Reach _ w.db) (Reach-trans (read-Reach _ _) (read-Reach _ _))

  after_claim-Reach :
      (claimed : Result (List (WebhookDelivery × WebhookReceipt Json)) StorageError)
      (w : Site Json E)
      → Reach w.db (after_claim k claimed w).db
  unfolding after_claim
  after_claim-Reach (err e) w = Reach.here
  after_claim-Reach (ok []) w = refresh_gauges-Reach w
  after_claim-Reach (ok (row ∷ rows)) w =
      Reach-trans (dispatch_all-Reach (row ∷ rows) w)
        (refresh_gauges-Reach (dispatch_all k (row ∷ rows) w))

  after_reclaim-db : (n : Result ℕ StorageError) (w : Site Json E) → (after_reclaim k n w).db ≡ w.db
  unfolding after_reclaim
  after_reclaim-db (ok (suc n)) w = refl
  after_reclaim-db (ok zero) w = refl
  after_reclaim-db (err e) w = refl

  tick-Reach : (w : Site Json E) → Reach w.db (tick k w).db
  unfolding tick
  tick-Reach w =
      let reclaimed = reclaim_expired k.name k.lease_duration w.db in
      let w' = after_reclaim k reclaimed.0 (record w { db = reclaimed.1 }) in
      let claimed = claim_pending k.name k.concurrency w'.db in
      Reach-trans
        (subst (Reach w.db) (sym (after_reclaim-db reclaimed.0 (record w { db = reclaimed.1 })))
          (after Reach.here (reclaims w.db k.name k.lease_duration)))
        (Reach-trans (after Reach.here (claims w'.db k.name k.concurrency))
          (after_claim-Reach claimed.0 (record w' { db = claimed.1 })))

  -- From a database whose constraints hold, a turn of the worker's loop, whatever fails in it,
  -- keeps the constraints of the tables, and
  -- a row that was emitted or dead-lettered before it is there after it, unchanged.
  pub tick-is_over :
      (w : Site Json E) (row : WebhookDelivery)
      → IsConsistent w.db.tables
      → is_over row.state ≡ true
      → Memᴰ row w.db.tables.deliveries
      → IsConsistent (tick k w).db.tables × Memᴰ row (tick k w).db.tables.deliveries
  tick-is_over w row c o m =
      (Reach-IsConsistent c (tick-Reach w), Reach-is_over row c (tick-Reach w) o m)

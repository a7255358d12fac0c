-- ===== src/Examples/Worker.antt =====
-- The theorems on crates/hookbox-server/src/worker.rs at concrete values.
use mathlib.Core.List.{Memᴰ}
use hookbox.Postgres.Exec.{Database}
use hookbox.Postgres.Deliveries.{claim_pending}
use hookbox.Worker.Settles.{Done}
use hookbox.Worker.Batches.{claim_pending-Done}
use hookbox.Prelude.{
  inl, List, ◌++◌, Bool, true, false, order_by, ok, some, [], ◌∷◌, ℕ, pos, All, ok, pos, ℕ, some,
  All, ◌≡◌, refl,
}
use hookbox.Domain.{WebhookReceipt, DeliveryState, WebhookDelivery, from_receipt}
use hookbox.Worker.Dispatch.{dispatch_one}
use hookbox.Worker.Loop.{dispatch_all}
use hookbox.Worker.Shutdown.{Wake, run_worker, Left, Keeps, run_worker-Left, run_worker-is_over}
use hookbox.Worker.Outcomes.{Fate, dispatch_one-Fate, dispatch_one-lost}
use hookbox.Examples.Data.{
  fresh_db, receipt_one, row_leased, row_emitted, row_waiting, fresh_db-IsConsistent, worker, site,
  down,
}

-- The fifth attempt of five fails.
dispatch_one-Fate_example :
    (d' : WebhookDelivery) × Memᴰ d'
      (dispatch_one worker row_leased receipt_one site).db.tables.deliveries
    × Fate worker (down.emit (from_receipt receipt_one) 0).0 100 200 row_leased d'
dispatch_one-Fate_example =
    dispatch_one-Fate worker row_leased receipt_one site refl (Memᴰ.head refl) refl

dispatch_one-lost_example :
    (dispatch_one worker row_waiting receipt_one site).db.tables.deliveries
    ≡ site.db.tables.deliveries
dispatch_one-lost_example = dispatch_one-lost worker row_waiting receipt_one site refl

-- The sleep ends, then another value than `true` is sent.
abbrev wakes : List (Wake × Bool)
wakes = (Wake.slept, false) ∷ (Wake.changed false, false) ∷ []

run_worker-Left_example :
    Left worker wakes (wakes ++ (Wake.changed true, true) ∷ (Wake.slept, false) ∷ []) site
run_worker-Left_example =
    run_worker-Left worker wakes ((Wake.slept, false) ∷ []) (Wake.changed true) true site (inl refl)

run_worker-is_over_example : Keeps worker row_emitted (run_worker worker wakes site).0
run_worker-is_over_example =
    run_worker-is_over worker wakes site row_emitted refl
      (fresh_db-IsConsistent, Memᴰ.tail (Memᴰ.head refl))

abbrev row_taken : WebhookDelivery
row_taken = record row_waiting { state = DeliveryState.in_flight; last_attempt_at = some 100 }

abbrev after : Database ℕ
after = record fresh_db {
  tables = record fresh_db.tables { deliveries = row_leased ∷ row_emitted ∷ row_taken ∷ [] };
}

takes : claim_pending "kafka" (pos 4) fresh_db ≡ (ok ((row_taken, receipt_one) ∷ []), after)
unfolding claim_pending order_by
takes = refl

claim_pending-Done_example :
    All
      (λ (row : WebhookDelivery × WebhookReceipt ℕ).
        Done worker
          (dispatch_all worker ((row_taken, receipt_one) ∷ []) (record site { db = after }))
          row.0)
      ((row_taken, receipt_one) ∷ [])
claim_pending-Done_example =
    claim_pending-Done worker fresh_db after ((row_taken, receipt_one) ∷ [])
      (record site { db = after }) fresh_db-IsConsistent.delivery_ids takes refl refl

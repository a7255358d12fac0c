-- ===== src/Worker/Shutdown.antt =====
-- crates/hookbox-server/src/worker.rs: the loops themselves, as far as the reasons to wake up go, and
-- how that of `EmitterWorker::spawn` ends.
use mathlib.Core.List.{Memᴰ}
use hookbox.Prelude.{
  inl, ◌⊎◌, inr, ap, ok, err, if◌then◌else◌, Result, ◌≤◌, ℕ, zero, suc, ℤ, Bool, true, false, List,
  [], ◌∷◌, ◌++◌, length, all, not, ◌&&◌, ◌≡◌, refl, arith,
}
use hookbox.Domain.{StorageError, WebhookReceipt, WebhookDelivery}
use hookbox.Postgres.Exec.{Database}
use hookbox.Postgres.Consistent.{IsConsistent}
use hookbox.Postgres.Deliveries.{reclaim_expired, claim_pending}
use hookbox.Pipeline.Traits.{Emitter}
use hookbox.Worker.Dispatch.{EmitterWorker, Site}
use hookbox.Worker.Loop.{tick, run_once}
use hookbox.Worker.Leases.{tick-is_over}
use hookbox.Postgres.Moves.{is_over}

-- How `select!` ends: the sleep, or a change of the channel with the value that is then there, or
-- the end of its sender.
pub data Wake : Type 0 where
  slept : Wake
  changed : Bool → Wake
  sender_dropped : Wake

abbrev pub is_stop : Wake → Bool
is_stop Wake.slept = false
is_stop (Wake.changed value) = value
is_stop Wake.sender_dropped = true

-- A wake, with the value that `borrow_and_update` finds at the end of the turn, if it comes to that.
abbrev pub is_quiet : Wake × Bool → Bool
is_quiet (wake, value) = not (is_stop wake) && not value

module _ {Json E : Type 0} (k : EmitterWorker Json E) where
  abbrev is_batch : Result (List (WebhookDelivery × WebhookReceipt Json)) StorageError → Bool
  is_batch (err e) = false
  is_batch (ok []) = false
  is_batch (ok (row ∷ rows)) = true

  -- Whether the turn comes to its end, past both `continue`s: a batch was claimed in it.
  unfoldable pub has_batch : Site Json E → Bool
  has_batch w =
      let reclaimed = reclaim_expired k.name k.lease_duration w.db in
      is_batch (claim_pending k.name k.concurrency reclaimed.1).0

  -- The loop over the wakes to come, and whether it was left.
  unfoldable pub run_worker : List (Wake × Bool) → Site Json E → Site Json E × Bool
  run_worker [] w = (w, false)
  run_worker ((wake, value) ∷ wakes) w =
      let rest = run_worker wakes (tick k w) in
      if is_stop wake then (w, true) else if has_batch w && value then (tick k w, true) else rest

  unfoldable pub turns : ℕ → Site Json E → Site Json E
  turns zero w = w
  turns (suc n) w = turns n (tick k w)

  -- The worker is left within as many turns as there are wakes.
  pub Left : List (Wake × Bool) → List (Wake × Bool) → Site Json E → Type 0
  Left before all_wakes w =
      (n : ℕ) × (n ≤ length before)
      × (run_worker all_wakes w ≡ (turns n w, true))
      × ((all is_quiet before ≡ false) ⊎ (n ≡ length before))

  is_stop-Left :
      (before after : List (Wake × Bool)) (stop : Wake) (value : Bool) (w : Site Json E)
      → is_stop stop ≡ true
      → Left before (before ++ (stop, value) ∷ after) w
  unfolding run_worker turns Left
  is_stop-Left [] after stop value w s = (0, ground arith, rw s refl, inr refl)
  is_stop-Left ((wake, value) ∷ before) after stop last w s =
      split (is_stop wake) (has_batch w && value) refl refl
        (is_stop-Left before after stop last (tick k w) s)
    where
      longer :
          {n : ℕ}
          → (all is_quiet before ≡ false) ⊎ (n ≡ length before)
          → (all is_quiet ((wake, value) ∷ before) ≡ false) ⊎ (suc n ≡ suc (length before))
      longer (inl h) = inl (ground arith)
      longer (inr h) = inr (ap suc h)

      split :
          (stops ends : Bool)
          → is_stop wake ≡ stops
          → (has_batch w && value) ≡ ends
          → Left before (before ++ (stop, last) ∷ after) (tick k w)
          → Left ((wake, value) ∷ before) ((wake, value) ∷ before ++ (stop, last) ∷ after) w
      split true ends e f ih = (0, ground arith, rw e refl, inl (ground arith))
      split false true e f ih = (1, ground arith, rw e (rw f refl), inl (ground arith))
      split false false e f (n, bound, runs, exact) =
          (suc n, ground arith, rw e (rw f runs), longer exact)

  -- With a wake that stops it, the value `true` or the end of the sender, the worker's loop is left,
  -- after at most one turn for each wake before it, and whatever comes after; it makes exactly these
  -- turns if none of those wakes stops it and none of the turns ends with the value `true`.
  pub run_worker-Left :
      (before after : List (Wake × Bool)) (stop : Wake) (value : Bool) (w : Site Json E)
      → (stop ≡ Wake.changed true) ⊎ (stop ≡ Wake.sender_dropped)
      → Left before (before ++ (stop, value) ∷ after) w
  run_worker-Left before after stop value w (inl e) =
      is_stop-Left before after stop value w (ap is_stop e)
  run_worker-Left before after stop value w (inr e) =
      is_stop-Left before after stop value w (ap is_stop e)

  -- The constraints of the tables, and a row that is there.
  abbrev pub Keeps : WebhookDelivery → Site Json E → Type 0
  Keeps row w = IsConsistent w.db.tables × Memᴰ row w.db.tables.deliveries

  -- From a database whose constraints hold, the worker's loop, whatever wakes it and whatever fails
  -- in it, keeps the constraints of the tables, and a row that was emitted or dead-lettered before
  -- it is there after it, unchanged.
  pub run_worker-is_over :
      (wakes : List (Wake × Bool)) (w : Site Json E) (row : WebhookDelivery)
      → is_over row.state ≡ true
      → Keeps row w
      → Keeps row (run_worker wakes w).0
  unfolding run_worker
  run_worker-is_over [] w row o kept = kept
  run_worker-is_over ((wake, value) ∷ wakes) w row o (c, m) =
      let ticked = tick-is_over k w row c o m in
      left (is_stop wake) (has_batch w && value) ticked
        (run_worker-is_over wakes (tick k w) row o ticked)
    where
      left :
          (stops ends : Bool)
          → Keeps row (tick k w)
          → Keeps row (run_worker wakes (tick k w)).0
          → Keeps row
              (if stops
                then (w, true)
                else if ends
                then (tick k w, true)
                else run_worker wakes (tick k w)).0
      left true ends one all = (c, m)
      left false true one all = one
      left false false one all = all

-- `RetryWorker`, whose loop has no end: the rounds that it has made.
pub record RetryWorker (Json E : Type 0) : Type 0 where
  pub emitter : Emitter Json E
  pub interval : ℕ
  pub max_attempts : ℤ

unfoldable pub new_retry_worker : {Json E : Type 0} → Emitter Json E → ℕ → ℤ → RetryWorker Json E
new_retry_worker emitter interval max_attempts = record {
  emitter = emitter;
  interval = interval;
  max_attempts = max_attempts;
}

unfoldable pub run_retry_worker :
    {Json E : Type 0} → RetryWorker Json E → ℕ → E → Database Json → E × Database Json
unfolding run_once
run_retry_worker k zero sink db = (sink, db)
run_retry_worker k (suc rounds) sink db =
    let done = run_once k.emitter k.max_attempts sink db in run_retry_worker k rounds done.0 done.1

-- ===== src/Worker/Outcomes.antt =====
-- What becomes of the row that `dispatch_one` of crates/hookbox-server/src/worker.rs was given.
use mathlib.Core.List.{Memᴰ}
use mathlib.Core.Path.{subst}
use hookbox.Transitions.Backoff.{compute_backoff}
use hookbox.Prelude.{
  ℤ, pos, negsuc, ◌+ℤ◌, ◌≤ℤ◌, ◌<ℤ◌, ◌≤◌, ◌<◌, ◌/◌, ◌⊎◌, inl, inr, count, ℕ, ◌+◌, String, Bool, true,
  false, Option, none, some, List, [], ◌∷◌, Result, ok, err, leb_ℤ, ◌≡◌, refl, sym, ap, ◌∙◌, arith,
  any, update_where, if◌then◌else◌, ==_iff,
}
use hookbox.Domain.{
  DateTime, DeliveryId, WebhookReceipt, WebhookDelivery, DeliveryState, EmitError, from_receipt,
}
use hookbox.Postgres.Exec.{Tables, Database, next_fault, attempt, pure, ◌>>=◌, and_then}
use hookbox.Postgres.Rules.{statement_rule, spent}
use hookbox.Postgres.Deliveries.{
  with_deliveries, update_deliveries, is_in_flight, holds_lease, to_emitted, to_failed,
  to_dead_lettered, mark_emitted, mark_failed, mark_dead_lettered,
}
use hookbox.Worker.Dispatch.{
  EmitterWorker, Site, dispatch_one, after_emit, on_success, on_failure, next_attempt, next_delta,
  retry_delay, emit_error_text,
}

update_none :
    {A : Type 0} (p : A → Bool) (f : A → A) (xs : List A)
    → any p xs ≡ false
    → update_where p f xs ≡ xs
update_none p f [] h = refl
update_none p f (x ∷ xs) h = ground (arith, update_none p f xs)

mem_update_where :
    {A : Type 0} (p : A → Bool) (f : A → A) (x : A) (xs : List A)
    → Memᴰ x xs
    → p x ≡ true
    → Memᴰ (f x) (update_where p f xs)
mem_update_where p f x [] m h = elim m [ ]
mem_update_where p f x (y ∷ ys) (Memᴰ.head e) h = Memᴰ.head (updated (p y) (sym (ap p e) ∙ h))
  where
    updated : (b : Bool) → b ≡ true → f x ≡ (if b then f y else y)
    updated true g = ap f e
    updated false g = absurd cc
mem_update_where p f x (y ∷ ys) (Memᴰ.tail t) h = Memᴰ.tail (mem_update_where p f x ys t h)

held :
    (d : WebhookDelivery) → d.state ≡ DeliveryState.in_flight → holds_lease d.delivery_id d ≡ true
held d s = ground (arith, ==_iff d.delivery_id d.delivery_id, ap is_in_flight s)

-- The three marks as one: an update of the row that holds the lease.
abbrev mark :
    {Json : Type 0}
    → DeliveryId
    → (DateTime → WebhookDelivery → WebhookDelivery)
    → Database Json
    → Database Json
mark id f db = (update_deliveries (λ _. holds_lease id) f db).1

-- The tables after a mark, whether its statement fails or not.
module _ {Json : Type 0} (id : DeliveryId) (f : DateTime → WebhookDelivery → WebhookDelivery)
    (db : Database Json) where
  done-rows :
      ((update_deliveries (λ _. holds_lease id) f >>= λ n. pure (tt {0})) db).1.tables
      ≡ (mark id f db).tables
  done-rows = ends (update_deliveries (λ _. holds_lease id) f db)
    where
      ends :
          (r : Result ℕ _ × Database Json) → (and_then r (λ n. pure (tt {0}))).1.tables ≡ r.1.tables
      ends (ok n, d) = refl
      ends (err e, d) = refl

  mark-lost :
      any (holds_lease id) db.tables.deliveries ≡ false
      → (mark id f db).tables.deliveries ≡ db.tables.deliveries
  mark-lost h =
      statement_rule (λ r. r.1.tables.deliveries ≡ db.tables.deliveries) _ db (λ e. refl)
        (update_none (holds_lease id) (f db.now) db.tables.deliveries h)

  mark-runs :
      db.faults ≡ []
      → (mark id f db).tables.deliveries
        ≡ update_where (holds_lease id) (f db.now) db.tables.deliveries
  mark-runs e = runs (next_fault db.faults) (ap next_fault e)
    where
      runs :
          (o : Option String)
          → o ≡ none
          → (attempt o
              (λ d.
                pure
                  (count (holds_lease id) d.tables.deliveries)
                  (with_deliveries d (update_where (holds_lease id) (f d.now) d.tables.deliveries)))
              (spent db)).1.tables.deliveries
            ≡ update_where (holds_lease id) (f db.now) db.tables.deliveries
      runs none g = refl
      runs (some x) g = absurd cc

  done-lost :
      any (holds_lease id) db.tables.deliveries ≡ false
      → ((update_deliveries (λ _. holds_lease id) f >>= λ n. pure (tt {0})) db).1.tables.deliveries
        ≡ db.tables.deliveries
  done-lost h = ap (λ (t : Tables Json). t.deliveries) done-rows ∙ mark-lost h

  -- With no fault to come, the row that holds the lease is updated.
  done-runs :
      (d : WebhookDelivery)
      → db.faults ≡ []
      → Memᴰ d db.tables.deliveries
      → holds_lease id d ≡ true
      → Memᴰ
          (f db.now d)
          ((update_deliveries (λ _. holds_lease id) f >>= λ n. pure (tt {0}))
            db).1.tables.deliveries
  done-runs d e m h =
      subst (Memᴰ (f db.now d))
        (sym (ap (λ (t : Tables Json). t.deliveries) done-rows ∙ mark-runs e))
        (mem_update_where (holds_lease id) (f db.now) d db.tables.deliveries m h)

module _ {Json E : Type 0} (k : EmitterWorker Json E) where
  -- What a failed emission leaves; the test is whether it was the last attempt.
  abbrev pub Failing : Bool → DateTime → WebhookDelivery → WebhookDelivery → Type 0
  Failing true clock d d' = d'.state ≡ DeliveryState.dead_lettered
  Failing false clock d d' =
      (d'.state ≡ DeliveryState.failed)
      × (d'.attempt_count ≡ next_attempt d)
      × (d'.next_attempt_at ≡ clock + retry_delay k clock d)

  -- The row `d` before and `d'` after an emission with this result.
  abbrev pub Answered :
      Result (Unit {0}) EmitError → DateTime → DateTime → WebhookDelivery → WebhookDelivery → Type 0
  Answered (ok _) now clock d d' =
      (d'.delivery_id ≡ d.delivery_id)
      × (d'.state ≡ DeliveryState.emitted)
      × (d'.last_error ≡ none)
      × (d'.emitted_at ≡ some now)
  Answered (err e) now clock d d' =
      (d'.delivery_id ≡ d.delivery_id)
      × (d'.last_error ≡ some (emit_error_text e))
      × Failing (leb_ℤ k.policy.max_attempts (next_attempt d)) clock d d'

  -- `attempt_count + 1` in `i32`, which wraps.
  abbrev pub IsNext : ℤ → ℤ → Type 0
  IsNext n m =
      ((n <ℤ pos 2147483647) × (m ≡ n +ℤ pos 1)) ⊎ ((pos 2147483647 ≤ℤ n) × (m ≡ negsuc 2147483647))

  -- When the row is due for its next attempt, unless `compute_backoff` panics: after its delay, or
  -- after a day if that is too long for a `chrono::Duration`.
  abbrev pub IsDue : Option ℕ → DateTime → DateTime → Type 0
  IsDue none clock due = Unit
  IsDue (some backoff) clock due =
      ((backoff ≤ 9223372036854775807000000) × (due ≡ clock + backoff / 1000))
      ⊎ ((9223372036854775807000000 < backoff) × (due ≡ clock + 86400000000))

  -- The row `d` before and `d'` after an emission with this result; `m` attempts have failed.
  pub Fate :
      Result (Unit {0}) EmitError → DateTime → DateTime → WebhookDelivery → WebhookDelivery → Type 0
  Fate (ok _) now clock d d' =
      (d'.delivery_id ≡ d.delivery_id)
      × (d'.state ≡ DeliveryState.emitted)
      × (d'.last_error ≡ none)
      × (d'.emitted_at ≡ some now)
  Fate (err e) now clock d d' =
      (d'.delivery_id ≡ d.delivery_id)
      × (d'.last_error ≡ some (emit_error_text e))
      × ((m : ℤ) × IsNext d.attempt_count m
          × (((k.policy.max_attempts ≤ℤ m) × (d'.state ≡ DeliveryState.dead_lettered))
              ⊎ ((m <ℤ k.policy.max_attempts)
                  × (d'.state ≡ DeliveryState.failed)
                  × (d'.attempt_count ≡ m)
                  × IsDue
                      (compute_backoff k.chance.arithmetic false m k.policy
                        (k.chance.random clock d))
                      clock d'.next_attempt_at)))

  IsNext-next_attempt : (d : WebhookDelivery) → IsNext d.attempt_count (next_attempt d)
  unfolding next_attempt
  IsNext-next_attempt d = ground arith

  IsDue-next_delta :
      (o : Option ℕ) (clock due : DateTime) → due ≡ clock + next_delta o → IsDue o clock due
  unfolding next_delta
  IsDue-next_delta none clock due e = tt
  IsDue-next_delta (some backoff) clock due e = ground arith

  Fate-Answered :
      (sent : Result (Unit {0}) EmitError) (now clock : DateTime) (d d' : WebhookDelivery)
      → Answered sent now clock d d'
      → Fate sent now clock d d'
  unfolding Fate retry_delay
  Fate-Answered (ok _) now clock d d' a = a
  Fate-Answered (err e) now clock d d' (i, l, f) =
      (i, l, (next_attempt d, IsNext-next_attempt d, tested _ refl f))
    where
      tested :
          (last : Bool)
          → leb_ℤ k.policy.max_attempts (next_attempt d) ≡ last
          → Failing last clock d d'
          → ((k.policy.max_attempts ≤ℤ next_attempt d) × (d'.state ≡ DeliveryState.dead_lettered))
            ⊎ ((next_attempt d <ℤ k.policy.max_attempts)
                × (d'.state ≡ DeliveryState.failed)
                × (d'.attempt_count ≡ next_attempt d)
                × IsDue
                    (compute_backoff k.chance.arithmetic false
                      (next_attempt d)
                      k.policy
                      (k.chance.random clock d))
                    clock
                    d'.next_attempt_at)
      tested true t s = inl (ground arith, s)
      tested false t (s, c, n) = inr (ground arith, s, c, IsDue-next_delta _ clock _ n)

  module _ (d : WebhookDelivery) (r : WebhookReceipt Json) where
    lost :
        (sent : Result (Unit {0}) EmitError) (w : Site Json E)
        → any (holds_lease d.delivery_id) w.db.tables.deliveries ≡ false
        → (after_emit k sent d r w).db.tables.deliveries ≡ w.db.tables.deliveries
    unfolding after_emit on_success on_failure mark_emitted mark_failed mark_dead_lettered
    lost (ok _) w h = done-lost d.delivery_id to_emitted w.db h
    lost (err e) w h = lost_failure (leb_ℤ k.policy.max_attempts (next_attempt d))
      where
        lost_failure :
            (last : Bool)
            → (on_failure k last d r e w).db.tables.deliveries ≡ w.db.tables.deliveries
        lost_failure true =
            done-lost d.delivery_id (λ _. to_dead_lettered (emit_error_text e)) w.db h
        lost_failure false =
            done-lost d.delivery_id
              (λ _.
                to_failed (next_attempt d) (w.clock + retry_delay k w.clock d) (emit_error_text e))
              w.db h

    -- A worker that comes too late changes no row: when no row
    -- with the id is in flight, a dispatch leaves the deliveries as they are, whatever the
    -- emitter answers and whether the statement fails or not.
    pub dispatch_one-lost :
        (w : Site Json E)
        → any (holds_lease d.delivery_id) w.db.tables.deliveries ≡ false
        → (dispatch_one k d r w).db.tables.deliveries ≡ w.db.tables.deliveries
    unfolding dispatch_one
    dispatch_one-lost w h = lost _ _ h

    fate :
        (sent : Result (Unit {0}) EmitError) (w : Site Json E)
        → w.db.faults ≡ []
        → Memᴰ d w.db.tables.deliveries
        → holds_lease d.delivery_id d ≡ true
        → (d' : WebhookDelivery) × Memᴰ d' (after_emit k sent d r w).db.tables.deliveries
          × Answered sent w.db.now w.clock d d'
    unfolding after_emit on_success on_failure mark_emitted mark_failed mark_dead_lettered
    fate (ok _) w e m h = (
      to_emitted w.db.now d,
      done-runs d.delivery_id to_emitted w.db d e m h,
      (refl, refl, refl, refl),
    )
    fate (err x) w e m h = failed_fate (leb_ℤ k.policy.max_attempts (next_attempt d))
      where
        failed_fate :
            (last : Bool)
            → (d' : WebhookDelivery) × Memᴰ d' (on_failure k last d r x w).db.tables.deliveries
              × ((d'.delivery_id ≡ d.delivery_id)
                  × (d'.last_error ≡ some (emit_error_text x))
                  × Failing last w.clock d d')
        failed_fate true =
            let f : DateTime → WebhookDelivery → WebhookDelivery =
              λ _. to_dead_lettered (emit_error_text x) in
            (f w.db.now d, done-runs d.delivery_id f w.db d e m h, (refl, refl, refl))
        failed_fate false =
            let f : DateTime → WebhookDelivery → WebhookDelivery = λ _.
              to_failed (next_attempt d) (w.clock + retry_delay k w.clock d) (emit_error_text x) in
            (f w.db.now d, done-runs d.delivery_id f w.db d e m h, (refl, refl, (refl, refl, refl)))

    pub dispatch_one-Answered :
        (w : Site Json E)
        → w.db.faults ≡ []
        → Memᴰ d w.db.tables.deliveries
        → d.state ≡ DeliveryState.in_flight
        → (d' : WebhookDelivery) × Memᴰ d' (dispatch_one k d r w).db.tables.deliveries
          × Answered (k.emitter.emit (from_receipt r) w.sink).0 w.db.now w.clock d d'
    unfolding dispatch_one
    dispatch_one-Answered w e m s = fate _ _ e m (held d s)

    -- A leased row whose dispatch meets no database error has the fate that the emitter's answer
    -- and the policy give it: emitted, without an error text, or with the text of the error and
    -- dead-lettered when this was the last attempt, else failed with one attempt more, in `i32`,
    -- and due after the delay that `compute_backoff` of a release build gives, or a day if that is
    -- too long for `chrono`; of the time nothing is said where it panics.
    pub dispatch_one-Fate :
        (w : Site Json E)
        → w.db.faults ≡ []
        → Memᴰ d w.db.tables.deliveries
        → d.state ≡ DeliveryState.in_flight
        → (d' : WebhookDelivery) × Memᴰ d' (dispatch_one k d r w).db.tables.deliveries
          × Fate (k.emitter.emit (from_receipt r) w.sink).0 w.db.now w.clock d d'
    dispatch_one-Fate w e m s =
        let (d', there, a) = dispatch_one-Answered w e m s in
        (d', there, Fate-Answered _ w.db.now w.clock d d' a)

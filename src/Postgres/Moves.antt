-- ===== src/Postgres/Moves.antt =====
-- How a delivery row may change: the state machine behind `DeliveryStorage` of
-- crates/hookbox-postgres/src/storage.rs, in any history of storage operations.
use hookbox.Prelude.{◌⊎◌, inl, inr, ℕ, ◌≡◌, refl, String, Bool, true, false, ℤ, arith}
use hookbox.Domain.{DeliveryId, DateTime, WebhookDelivery, DeliveryState}
use hookbox.Postgres.Deliveries.{
  is_ready, is_in_flight, is_expired, holds_lease, take_lease, release_lease, to_emitted, to_failed,
  to_dead_lettered,
}
use hookbox.Postgres.Consistent.{IsLeasable}

-- The edges of the state machine, and staying put.
abbrev pub can_move : DeliveryState → DeliveryState → Bool
can_move DeliveryState.pending DeliveryState.pending = true
can_move DeliveryState.pending DeliveryState.in_flight = true
can_move DeliveryState.failed DeliveryState.failed = true
can_move DeliveryState.failed DeliveryState.in_flight = true
can_move DeliveryState.in_flight DeliveryState.in_flight = true
can_move DeliveryState.in_flight DeliveryState.emitted = true
can_move DeliveryState.in_flight DeliveryState.failed = true
can_move DeliveryState.in_flight DeliveryState.dead_lettered = true
can_move DeliveryState.emitted DeliveryState.emitted = true
can_move DeliveryState.dead_lettered DeliveryState.dead_lettered = true
can_move _ _ = false

abbrev pub is_over : DeliveryState → Bool
is_over DeliveryState.emitted = true
is_over DeliveryState.dead_lettered = true
is_over _ = false

-- What becomes of a row: `d` before, `e` after.
pub record LegalMove (d e : WebhookDelivery) : Type 0 where
  pub same_id : e.delivery_id ≡ d.delivery_id
  pub same_receipt : e.receipt_id ≡ d.receipt_id
  pub same_emitter : e.emitter_name ≡ d.emitter_name
  pub same_created : e.created_at ≡ d.created_at
  pub same_immutable : e.immutable ≡ d.immutable
  pub edge : can_move d.state e.state ≡ true
  -- A row that was delivered, given up or imported is never written again.
  pub settled : (is_over d.state ≡ false) ⊎ (e ≡ d)
  pub imported : (d.immutable ≡ false) ⊎ (e ≡ d)

stays : (s : DeliveryState) → can_move s s ≡ true
stays DeliveryState.pending = refl
stays DeliveryState.in_flight = refl
stays DeliveryState.emitted = refl
stays DeliveryState.failed = refl
stays DeliveryState.dead_lettered = refl

pub unmoved : (d : WebhookDelivery) → LegalMove d d
unmoved d = record {
  same_id = refl;
  same_receipt = refl;
  same_emitter = refl;
  same_created = refl;
  same_immutable = refl;
  edge = stays d.state;
  settled = inr refl;
  imported = inr refl;
}

-- A leased row is emitted, failed or dead-lettered.
from_in_flight :
    (d e : WebhookDelivery)
    → is_in_flight d.state ≡ true
    → IsLeasable d
    → can_move DeliveryState.in_flight e.state ≡ true
    → e.delivery_id ≡ d.delivery_id
    → e.receipt_id ≡ d.receipt_id
    → e.emitter_name ≡ d.emitter_name
    → e.created_at ≡ d.created_at
    → e.immutable ≡ d.immutable
    → LegalMove d e
from_in_flight d e h l g i r n c m = record {
  same_id = i;
  same_receipt = r;
  same_emitter = n;
  same_created = c;
  same_immutable = m;
  edge = ground arith;
  settled = inl (ground arith);
  imported = inl (ground arith);
}

pub take_lease-LegalMove :
    (name : String) (now : DateTime) (d : WebhookDelivery)
    → is_ready name now d ≡ true
    → LegalMove d (take_lease now d)
unfolding is_ready
take_lease-LegalMove name now d h = record {
  same_id = refl;
  same_receipt = refl;
  same_emitter = refl;
  same_created = refl;
  same_immutable = refl;
  edge = ground arith;
  settled = inl (ground arith);
  imported = inl (ground arith);
}

pub release_lease-LegalMove :
    (name : String) (now : DateTime) (lease : ℕ) (d : WebhookDelivery)
    → is_expired name now lease d ≡ true
    → IsLeasable d
    → LegalMove d (release_lease now d)
unfolding is_expired
release_lease-LegalMove name now lease d h l =
    from_in_flight d _ (ground arith) l refl refl refl refl refl refl

module _ (id : DeliveryId) (d : WebhookDelivery) (h : holds_lease id d ≡ true)
    (l : IsLeasable d) where
  pub to_emitted-LegalMove : (now : DateTime) → LegalMove d (to_emitted now d)
  to_emitted-LegalMove now = from_in_flight d _ (ground arith) l refl refl refl refl refl refl

  pub to_failed-LegalMove :
      (attempts : ℤ) (due : DateTime) (e : String) → LegalMove d (to_failed attempts due e d)
  to_failed-LegalMove attempts due e =
      from_in_flight d _ (ground arith) l refl refl refl refl refl refl

  pub to_dead_lettered-LegalMove : (e : String) → LegalMove d (to_dead_lettered e d)
  to_dead_lettered-LegalMove e = from_in_flight d _ (ground arith) l refl refl refl refl refl refl

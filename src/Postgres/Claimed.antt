-- ===== src/Postgres/Claimed.antt =====
-- Which rows `claim_pending` of crates/hookbox-postgres/src/storage.rs leases.
use mathlib.Core.List.{Memᴰ}
use hookbox.Prelude.{
  ℕ, ◌==◌, ◌≡◌, refl, sym, ◌∙◌, true, String, List, [], ◌∷◌, map, take, select, order_by, mem_any,
  mem_take, mem_order_by, mem_select, Distinct, eq_of_Distinct, ==_iff, subst,
}
use hookbox.Domain.{DeliveryId, DateTime, WebhookDelivery}
use hookbox.Postgres.Deliveries.{is_ready, due_first, claimed_ids, is_among}

mem_ids :
    (id : DeliveryId) (ds : List WebhookDelivery)
    → Memᴰ id (map (λ (d : WebhookDelivery). d.delivery_id) ds)
    → (d : WebhookDelivery) × Memᴰ d ds × (d.delivery_id ≡ id)
mem_ids id (d ∷ ds) (Memᴰ.head e) = (d, Memᴰ.head refl, sym e)
mem_ids id (d ∷ ds) (Memᴰ.tail t) = let (c, m, e) = mem_ids id ds t in (c, Memᴰ.tail m, e)
mem_ids id [] m = elim m [ ]

-- A claimed id is that of a ready row of the table.
claimed_of_among :
    (name : String) (now : DateTime) (limit : ℕ) (rows : List WebhookDelivery) (d : WebhookDelivery)
    → is_among (claimed_ids name now limit rows) d ≡ true
    → (c : WebhookDelivery) × Memᴰ c rows
      × (is_ready name now c ≡ true)
      × (c.delivery_id ≡ d.delivery_id)
unfolding claimed_ids
claimed_of_among name now limit rows d h =
    let ready = select (is_ready name now) rows in
    let (id, m, same) = mem_any (λ id. d.delivery_id == id) (claimed_ids name now limit rows) h in
    let (c, n, e) = mem_ids id (take limit (order_by due_first ready)) m in
    let in_ready = mem_order_by due_first c ready (mem_take limit c (order_by due_first ready) n) in
    let (in_rows, r) = mem_select (is_ready name now) c rows in_ready in
    (c, in_rows, r, e ∙ sym ((==_iff d.delivery_id id).0 same))

-- With distinct ids, the rows that are leased are ready ones.
pub is_ready_of_among :
    (name : String) (now : DateTime) (limit : ℕ) (rows : List WebhookDelivery) (d : WebhookDelivery)
    → Distinct (λ (c : WebhookDelivery). c.delivery_id) rows
    → Memᴰ d rows
    → is_among (claimed_ids name now limit rows) d ≡ true
    → is_ready name now d ≡ true
is_ready_of_among name now limit rows d distinct m h =
    let (c, n, r, e) = claimed_of_among name now limit rows d h in
    subst (λ x. is_ready name now x ≡ true) (eq_of_Distinct _ c d rows distinct n m e) r

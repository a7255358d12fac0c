-- ===== src/Transitions/Latest.antt =====
-- crates/hookbox/src/transitions.rs, `latest_mutable_per_emitter`. The map is an association
-- list; the order of its keys is not modelled.
use hookbox.Prelude.{String, List, [], ◌∷◌, map, ltb, str_eq, if◌then◌else◌}
use hookbox.Domain.{DateTime, DeliveryState, WebhookDelivery}

abbrev pub Entries : Type 0
Entries = List (String × (DateTime × DeliveryState))

-- `and_modify` of an entry that is there.
unfoldable pub newer : WebhookDelivery → DateTime × DeliveryState → DateTime × DeliveryState
newer d (ts, st) = if ltb ts d.created_at then (d.created_at, d.state) else (ts, st)

-- `entry(..).and_modify(..).or_insert(..)`.
unfoldable pub upsert : WebhookDelivery → Entries → Entries
unfolding newer
upsert d [] = (d.emitter_name, (d.created_at, d.state)) ∷ []
upsert d ((k, v) ∷ m) = if str_eq k d.emitter_name then (k, newer d v) ∷ m else (k, v) ∷ upsert d m

-- The loop over the rows.
unfoldable pub collect : Entries → List WebhookDelivery → Entries
unfolding upsert
collect m [] = m
collect m (d ∷ ds) = collect (if d.immutable then m else upsert d m) ds

unfoldable pub latest_mutable_per_emitter : List WebhookDelivery → List (String × DeliveryState)
unfolding collect
latest_mutable_per_emitter ds = map (λ e. (e.0, e.1.1)) (collect [] ds)

-- `receipt_deliveries_summary`.
unfoldable pub receipt_deliveries_summary : List WebhookDelivery → List (String × DeliveryState)
unfolding latest_mutable_per_emitter
receipt_deliveries_summary ds = latest_mutable_per_emitter ds

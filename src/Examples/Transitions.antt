-- ===== src/Examples/Transitions.antt =====
-- The theorems on crates/hookbox/src/transitions.rs at concrete values.
use hookbox.Prelude.{◌≡◌, ◌↔◌, [], ◌∷◌, All}
use hookbox.Prelude.{String, List, Option}
use hookbox.Domain.{WebhookDelivery, DeliveryState, ProcessingState}
use hookbox.Transitions.Aggregate.{
  Picks, Displays, receipt_aggregate_state, aggregate_from_states, receipt_aggregate_state-Shows,
  aggregate_from_states-cases,
}
use hookbox.Examples.Data.{row_leased, row_emitted, row_waiting}
use mathlib.Core.List.{Memᴰ}

abbrev rows : List WebhookDelivery
rows = row_waiting ∷ row_emitted ∷ row_leased ∷ []

receipt_aggregate_state-Shows_example :
    (newest : String → Option DeliveryState) × Picks rows newest
    × Displays rows newest ProcessingState.stored
        (receipt_aggregate_state rows ProcessingState.stored)
receipt_aggregate_state-Shows_example = receipt_aggregate_state-Shows rows ProcessingState.stored

aggregate_from_states-cases_example :
    ((aggregate_from_states
          (DeliveryState.emitted ∷ DeliveryState.failed ∷ [])
          ProcessingState.stored
        ≡ ProcessingState.dead_lettered)
      ↔ Memᴰ DeliveryState.dead_lettered (DeliveryState.emitted ∷ DeliveryState.failed ∷ []))
    × ((aggregate_from_states
            (DeliveryState.emitted ∷ DeliveryState.failed ∷ [])
            ProcessingState.stored
          ≡ ProcessingState.emit_failed)
        ↔ (Memᴰ DeliveryState.failed (DeliveryState.emitted ∷ DeliveryState.failed ∷ [])
            × (¬ Memᴰ DeliveryState.dead_lettered
                (DeliveryState.emitted ∷ DeliveryState.failed ∷ []))))
    × ((aggregate_from_states
            (DeliveryState.emitted ∷ DeliveryState.failed ∷ [])
            ProcessingState.stored
          ≡ ProcessingState.emitted)
        ↔ All (λ t. t ≡ DeliveryState.emitted) (DeliveryState.emitted ∷ DeliveryState.failed ∷ []))
aggregate_from_states-cases_example =
    aggregate_from_states-cases DeliveryState.emitted (DeliveryState.failed ∷ [])
      ProcessingState.stored

-- ===== src/Transitions/Retry.antt =====
-- crates/hookbox/src/transitions.rs, the retry rule for receipts.
use hookbox.Prelude.{
  ℕ, zero, suc, ◌≤◌, ◌<◌, ◌≡◌, refl, ◌↔◌, ◌∙◌, ap, Bool, true, ◌&&◌, ℤ, pos, negsuc, ◌≤ℤ◌, ltb, leb,
  ltb_ℤ, leb_ℤ, saturating_suc, i32_max, if◌then◌else◌, arith,
}
use hookbox.Domain.{ProcessingState, is_emit_failed}

unfoldable pub retry_next_state : ℤ → ℤ → ℤ × ProcessingState
retry_next_state emit_count max_attempts =
    let new_count = saturating_suc emit_count in
    (
      new_count,
      if leb_ℤ max_attempts new_count
          then ProcessingState.dead_lettered
          else ProcessingState.emit_failed,
    )

unfoldable pub reset_state : ℤ × ProcessingState
reset_state = (pos 0, ProcessingState.emit_failed)

unfoldable pub is_findable_by_worker : ℤ → ProcessingState → ℤ → Bool
is_findable_by_worker emit_count state max_attempts =
    is_emit_failed state && ltb_ℤ emit_count max_attempts

-- What the retry worker does to a receipt whose emission keeps failing: a receipt that it
-- cannot find stays as it is.
unfoldable pub retry_round : ℤ → ℤ × ProcessingState → ℤ × ProcessingState
unfolding retry_next_state is_findable_by_worker
retry_round max_attempts (count, state) =
    if is_findable_by_worker count state max_attempts
    then retry_next_state count max_attempts
    else (count, state)

unfoldable pub retry_rounds : ℕ → ℤ → ℤ × ProcessingState → ℤ × ProcessingState
retry_rounds zero max_attempts s = s
retry_rounds (suc n) max_attempts s = retry_round max_attempts (retry_rounds n max_attempts s)

-- After a failed retry the receipt is either still found by the worker or dead-lettered, and
-- it is dead-lettered exactly when the new count reaches the limit.
pub findable-retry_next_state :
    (count max_attempts : ℤ)
    → let next = retry_next_state count max_attempts in
      ((is_findable_by_worker next.0 next.1 max_attempts ≡ true)
        ↔ (next.1 ≡ ProcessingState.emit_failed))
      × ((next.1 ≡ ProcessingState.dead_lettered) ↔ (max_attempts ≤ℤ next.0))
unfolding retry_next_state is_findable_by_worker
findable-retry_next_state (pos a) (pos m) = ground arith
findable-retry_next_state (pos a) (negsuc m) = ground arith
findable-retry_next_state (negsuc a) (pos m) = ground arith
findable-retry_next_state (negsuc a) (negsuc m) = ground arith

round_step :
    (n m : ℕ)
    → n < m
    → m ≤ i32_max
    → retry_round (pos m) (pos n, ProcessingState.emit_failed) ≡ (
      pos (suc n),
      if leb m (suc n) then ProcessingState.dead_lettered else ProcessingState.emit_failed,
    )
unfolding retry_round
round_step n m h b = ground arith

rounds_below :
    (n m : ℕ)
    → n < m
    → m ≤ i32_max
    → retry_rounds n (pos m) reset_state ≡ (pos n, ProcessingState.emit_failed)
unfolding retry_rounds reset_state
rounds_below zero m h b = refl
rounds_below (suc n) m h b =
    ap (retry_round (pos m)) (rounds_below n m (omega arith) b)
    ∙ round_step n m (omega arith) b
    ∙ ground arith

stays_dead :
    (k : ℕ) (m c : ℤ)
    → retry_rounds k m (c, ProcessingState.dead_lettered) ≡ (c, ProcessingState.dead_lettered)
unfolding retry_rounds retry_round
stays_dead zero m c = refl
stays_dead (suc k) m c = ap (retry_round m) (stays_dead k m c)

-- A receipt that was reset and whose emission always fails is retried exactly `max_attempts`
-- times, for a limit from 1 to `i32::MAX`: before that it is waiting with the number of tries
-- as its count, then it is dead-lettered with the count at the limit, and stays so.
pub retry_rounds-reset_state :
    (n m : ℕ)
    → 1 ≤ m
    → m ≤ i32_max
    → retry_rounds n (pos m) reset_state ≡ (
        if ltb n m
        then (pos n, ProcessingState.emit_failed)
        else (pos m, ProcessingState.dead_lettered))
unfolding retry_rounds reset_state retry_round
retry_rounds-reset_state zero m h b = ground arith
retry_rounds-reset_state (suc n) m h b =
    ap (retry_round (pos m)) (retry_rounds-reset_state n m h b) ∙ ground arith

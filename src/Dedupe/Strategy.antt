-- ===== src/Dedupe/Strategy.antt =====
-- The `DedupeStrategy` trait of crates/hookbox/src/traits.rs. A call takes the state behind
-- `&self` and returns it with its answer.
use hookbox.Prelude.{String, Result, ok, ◌≡◌, ◌≢◌}
use hookbox.Domain.{DedupeDecision, DedupeError}

pub record DedupeStrategy (D : Type 0) : Type 0 where
  pub check : String → String → D → Result DedupeDecision DedupeError × D
  pub record_key : String → String → D → Result (Unit {0}) DedupeError × D

-- What the pipeline relies on: after a successful recording, and until another call, the key is
-- not called new. `Inv` holds of the states that occur.
pub record Remembers {D : Type 0} (strategy : DedupeStrategy D) (Inv : D → Type 0) : Type 0 where
  pub keeps : (k h : String) (s : D) → Inv s → Inv (strategy.record_key k h s).1
  pub knows :
      (k h h' : String) (s : D)
      → Inv s
      → (strategy.record_key k h s).0 ≡ ok tt
      → (strategy.check k h' (strategy.record_key k h s).1).0 ≢ ok DedupeDecision.new

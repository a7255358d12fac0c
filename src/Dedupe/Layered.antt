-- ===== src/Dedupe/Layered.antt =====
-- crates/hookbox/src/dedupe.rs, `LayeredDedupe`: a fast strategy before an authoritative one.
use hookbox.Prelude.{String, Result, ok, err}
use hookbox.Domain.{DedupeDecision, DedupeError}
use hookbox.Dedupe.Strategy.{DedupeStrategy}

pub record LayeredDedupe (F A : Type 0) : Type 0 where
  pub fast : F
  pub authoritative : A

module _ {F A : Type 0} (fast : DedupeStrategy F) (authoritative : DedupeStrategy A) where
  -- After the fast answer: only `New` asks the second layer; `?` returns an error at once.
  unfoldable pub check_after :
      String
      → String
      → Result DedupeDecision DedupeError × F
      → A
      → Result DedupeDecision DedupeError × LayeredDedupe F A
  check_after k h (ok DedupeDecision.new, f) a =
      let (r, a') = authoritative.check k h a in (r, record { fast = f; authoritative = a' })
  check_after k h (ok DedupeDecision.duplicate, f) a =
      (ok DedupeDecision.duplicate, record { fast = f; authoritative = a })
  check_after k h (ok DedupeDecision.conflict, f) a =
      (ok DedupeDecision.conflict, record { fast = f; authoritative = a })
  check_after k h (err e, f) a = (err e, record { fast = f; authoritative = a })

  unfoldable pub check :
      String → String → LayeredDedupe F A → Result DedupeDecision DedupeError × LayeredDedupe F A
  unfolding check_after
  check k h s = check_after k h (fast.check k h s.fast) s.authoritative

  unfoldable pub record_after :
      String
      → String
      → Result (Unit {0}) DedupeError × F
      → A
      → Result (Unit {0}) DedupeError × LayeredDedupe F A
  record_after k h (ok _, f) a =
      let (r, a') = authoritative.record_key k h a in (r, record { fast = f; authoritative = a' })
  record_after k h (err e, f) a = (err e, record { fast = f; authoritative = a })

  unfoldable pub record_key :
      String → String → LayeredDedupe F A → Result (Unit {0}) DedupeError × LayeredDedupe F A
  unfolding record_after
  record_key k h s = record_after k h (fast.record_key k h s.fast) s.authoritative

  abbrev pub layered_strategy : DedupeStrategy (LayeredDedupe F A)
  layered_strategy = record { check = check; record_key = record_key }

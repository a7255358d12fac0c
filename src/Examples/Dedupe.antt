-- ===== src/Examples/Dedupe.antt =====
-- The theorems on crates/hookbox/src/dedupe.rs at concrete values.
use hookbox.Prelude.{◌≡◌, ◌≢◌, refl, [], ◌∷◌}
use hookbox.Domain.{DedupeDecision}
use hookbox.Dedupe.Recent.{check, record_key, new}
use hookbox.Dedupe.Window.{record_all-last, check-record_key_ne, record_all, last, notes}
use hookbox.Examples.Data.{cache, cache-IsValid}

check-record_key_ne_example : check "a" "9" (record_key "a" "1" cache) ≢ DedupeDecision.new
check-record_key_ne_example = check-record_key_ne "a" "1" "9" cache cache-IsValid

record_all-last_example :
    (record_all
      (("a", "1") ∷ ("b", "2") ∷ ("c", "3") ∷ [])
      (record { capacity = 2; entries = []; order = [] })).entries
    ≡ last 2 (notes 2 [] (("a", "1") ∷ ("b", "2") ∷ ("c", "3") ∷ []))
unfolding new
record_all-last_example = record_all-last 2 (("a", "1") ∷ ("b", "2") ∷ ("c", "3") ∷ []) refl

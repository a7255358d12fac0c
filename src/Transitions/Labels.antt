-- ===== src/Transitions/Labels.antt =====
-- crates/hookbox/src/transitions.rs, the metric labels.
use hookbox.Prelude.{String, List, [], ◌∷◌}
use hookbox.Domain.{VerificationStatus, DedupeDecision}

abbrev pub label_accepted : String
label_accepted = "accepted"

abbrev pub label_duplicate : String
label_duplicate = "duplicate"

abbrev pub label_verification_failed : String
label_verification_failed = "verification_failed"

abbrev pub label_store_failed : String
label_store_failed = "store_failed"

abbrev pub label_dedupe_failed : String
label_dedupe_failed = "dedupe_failed"

abbrev pub ingest_result_labels : List String
ingest_result_labels =
    label_accepted ∷ label_duplicate ∷ label_verification_failed ∷ label_store_failed
    ∷ label_dedupe_failed ∷ []

unfoldable pub verification_status_label : VerificationStatus → String
verification_status_label VerificationStatus.verified = "verified"
verification_status_label VerificationStatus.failed = "failed"
verification_status_label VerificationStatus.skipped = "skipped"

unfoldable pub dedupe_decision_label : DedupeDecision → String
dedupe_decision_label DedupeDecision.new = "new"
dedupe_decision_label DedupeDecision.duplicate = "duplicate"
dedupe_decision_label DedupeDecision.conflict = "conflict"

-- ===== src/Dedupe/Recent.antt =====
-- crates/hookbox/src/dedupe.rs, `InMemoryRecentDedupe`: a bounded first-in-first-out cache.
-- The hash map is an association list, and `order` the deque.
use hookbox.Prelude.{
  ℕ, String, Bool, true, false, Option, none, some, List, [], ◌∷◌, ◌++◌, leb, str_eq, if◌then◌else◌,
  ok, length, lookup, ltb,
}
use hookbox.Domain.{DedupeDecision}
use hookbox.Dedupe.Strategy.{DedupeStrategy}

-- `HashMap::remove`.
unfoldable pub remove : String → List (String × String) → List (String × String)
remove k [] = []
remove k ((j, v) ∷ m) = if str_eq j k then remove k m else (j, v) ∷ remove k m

-- `HashMap::insert`.
unfoldable pub insert : String → String → List (String × String) → List (String × String)
insert k v [] = (k, v) ∷ []
insert k v ((j, w) ∷ m) = if str_eq j k then (k, v) ∷ m else (j, w) ∷ insert k v m

-- `HashMap::contains_key`.
unfoldable pub contains_key : String → List (String × String) → Bool
contains_key k [] = false
contains_key k ((j, v) ∷ m) = if str_eq j k then true else contains_key k m

pub record InMemoryRecentDedupe : Type 0 where
  pub capacity : ℕ
  pub entries : List (String × String)
  pub order : List String

-- `new` panics on capacity 0.
unfoldable pub new : ℕ → Option InMemoryRecentDedupe
new capacity =
    if ltb 0 capacity then some (record { capacity = capacity; entries = []; order = [] }) else none

unfoldable pub decide : Option String → String → DedupeDecision
decide none payload_hash = DedupeDecision.new
decide (some stored_hash) payload_hash =
    if str_eq stored_hash payload_hash then DedupeDecision.duplicate else DedupeDecision.conflict

unfoldable pub check : String → String → InMemoryRecentDedupe → DedupeDecision
unfolding lookup decide
check dedupe_key payload_hash s = decide (lookup dedupe_key s.entries) payload_hash

-- `pop_front` of the deque, and the removal of that key.
unfoldable pub evict_front : List String → InMemoryRecentDedupe → InMemoryRecentDedupe
unfolding remove
evict_front [] s = s
evict_front (oldest_key ∷ rest) s = record s { entries = remove oldest_key s.entries; order = rest }

unfoldable pub evict : InMemoryRecentDedupe → InMemoryRecentDedupe
unfolding evict_front
evict s = if leb s.capacity (length s.entries) then evict_front s.order s else s

unfoldable pub push : String → String → InMemoryRecentDedupe → InMemoryRecentDedupe
unfolding insert
push k h s = record s { entries = insert k h s.entries; order = s.order ++ k ∷ [] }

unfoldable pub record_key : String → String → InMemoryRecentDedupe → InMemoryRecentDedupe
unfolding contains_key evict push
record_key dedupe_key payload_hash s =
    if contains_key dedupe_key s.entries then s else push dedupe_key payload_hash (evict s)

-- The implementation of the trait never fails.
abbrev pub recent_strategy : DedupeStrategy InMemoryRecentDedupe
recent_strategy = record {
  check = λ k h s. (ok (check k h s), s);
  record_key = λ k h s. (ok tt, record_key k h s);
}

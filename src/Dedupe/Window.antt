-- ===== src/Dedupe/Window.antt =====
-- The in-memory cache is the window of the last `capacity` keys that it accepted.
use hookbox.Prelude.{
  ℕ, zero, suc, ◌-◌, ◌≤◌, ◌<◌, ◌≡◌, refl, ap, ◌∙◌, String, true, false, none, some, List, [], ◌∷◌,
  ◌++◌, map, leb, str_eq, str_eq_iff, if◌then◌else◌, length, length-append, drop, All, All-append,
  lookup, Unique, arith, leb→le, Bool-cases, inl, inr, ◌≢◌,
}
use hookbox.Domain.{DedupeDecision}
use hookbox.Dedupe.Recent.{
  InMemoryRecentDedupe, remove, insert, contains_key, new, decide, check, evict_front, evict, push,
  record_key,
}

abbrev pub Entry : Type 0
Entry = String × String

abbrev pub keys : List Entry → List String
keys = map (λ e. e.0)

abbrev Absent : String → List Entry → Type 0
Absent k = All (λ (e : Entry). str_eq e.0 k ≡ false)

pub record IsValid (s : InMemoryRecentDedupe) : Type 0 where
  pub positive : 0 < s.capacity
  pub bounded : length s.entries ≤ s.capacity
  pub distinct : Unique s.entries
  pub in_order : s.order ≡ keys s.entries

-- What stays when one entry more is to be held.
abbrev room : ℕ → List Entry → List Entry
room cap l = if leb cap (length l) then drop 1 l else l

Absent-of_contains : (k : String) (l : List Entry) → contains_key k l ≡ false → Absent k l
unfolding contains_key
Absent-of_contains k [] h = tt
Absent-of_contains k ((j, v) ∷ l) h = ground (arith, Absent-of_contains k l)

contains_of_Absent : (k : String) (l : List Entry) → Absent k l → contains_key k l ≡ false
unfolding contains_key
contains_of_Absent k [] h = refl
contains_of_Absent k ((j, v) ∷ l) h = ground (arith, contains_of_Absent k l)

remove-Absent : (k : String) (l : List Entry) → Absent k l → remove k l ≡ l
unfolding remove
remove-Absent k [] h = refl
remove-Absent k ((j, v) ∷ l) h = ground (arith, remove-Absent k l)

insert-Absent : (k v : String) (l : List Entry) → Absent k l → insert k v l ≡ l ++ (k, v) ∷ []
unfolding insert
insert-Absent k v [] h = refl
insert-Absent k v ((j, w) ∷ l) h = ground (arith, insert-Absent k v l)

lookup-Absent : (k : String) (l : List Entry) → Absent k l → lookup k l ≡ none
unfolding lookup
lookup-Absent k [] h = refl
lookup-Absent k ((j, v) ∷ l) h = ground (arith, lookup-Absent k l)

lookup_present :
    (k : String) (l : List Entry) → contains_key k l ≡ true → (v : String) × (lookup k l ≡ some v)
unfolding lookup contains_key
lookup_present k [] h = cc
lookup_present k ((j, v) ∷ l) h = elim (Bool-cases (str_eq j k)) [
  | inl e ↦ (v, rw e)
  | inr e ↦ let (w, found) = lookup_present k l (rw e at h) in (w, rw e found)
]

lookup_last : (k v : String) (l : List Entry) → Absent k l → lookup k (l ++ (k, v) ∷ []) ≡ some v
unfolding lookup
lookup_last k v [] h = ground (arith, str_eq_iff k k)
lookup_last k v ((j, w) ∷ l) h = ground (arith, lookup_last k v l)

keys-append : (l m : List Entry) → keys (l ++ m) ≡ keys l ++ keys m
keys-append [] m = refl
keys-append (e ∷ l) m = ap (◌∷◌ e.0) (keys-append l m)

Unique-snoc : (k v : String) (l : List Entry) → Unique l → Absent k l → Unique (l ++ (k, v) ∷ [])
Unique-snoc k v [] u a = (tt, tt)
Unique-snoc k v ((j, w) ∷ l) u a = (
  All-append _ l ((k, v) ∷ []) u.0 (ground (arith, str_eq_iff j k, str_eq_iff k j), tt),
  Unique-snoc k v l u.1 a.1,
)

Unique-room : (cap : ℕ) (l : List Entry) → Unique l → Unique (room cap l)
Unique-room cap [] u = ground arith
Unique-room cap (e ∷ l) u = ground arith

Absent-room : (cap : ℕ) (k : String) (l : List Entry) → Absent k l → Absent k (room cap l)
Absent-room cap k [] a = ground arith
Absent-room cap k (e ∷ l) a = ground arith

length-room : (cap : ℕ) (l : List Entry) → 0 < cap → length l ≤ cap → length (room cap l) < cap
length-room cap [] p b = ground arith
length-room cap (e ∷ l) p b = ground arith

-- The eviction, with the deque gone.
evict_front-drop :
    (s : InMemoryRecentDedupe) (l : List Entry)
    → s.entries ≡ l
    → s.order ≡ keys l
    → Unique l
    → evict_front (keys l) s ≡ record s { entries = drop 1 l; order = keys (drop 1 l) }
unfolding evict_front remove
evict_front-drop s [] e o u = ground arith
evict_front-drop s ((j, v) ∷ l) e o u = ground (arith, remove-Absent j l u.0, str_eq_iff j j)

evict-room :
    (s : InMemoryRecentDedupe)
    → IsValid s
    → evict s
      ≡ record s { entries = room s.capacity s.entries; order = keys (room s.capacity s.entries) }
unfolding evict
evict-room s v = ground (arith, evict_front-drop s s.entries refl v.in_order v.distinct)

-- A new key goes to the end of what stays.
pub record_key-room :
    (k h : String) (s : InMemoryRecentDedupe)
    → IsValid s
    → contains_key k s.entries ≡ false
    → record_key k h s ≡ record s {
      entries = room s.capacity s.entries ++ (k, h) ∷ [];
      order = keys (room s.capacity s.entries ++ (k, h) ∷ []);
    }
unfolding record_key push
record_key-room k h s v c =
    let a = Absent-room s.capacity k s.entries (Absent-of_contains k s.entries c) in
    ground (
      arith,
      evict-room s v,
      insert-Absent k h (room s.capacity s.entries) a,
      keys-append (room s.capacity s.entries) ((k, h) ∷ []),
    )

-- A fresh cache of positive capacity is valid.
pub new-IsValid :
    (cap : ℕ) {s : InMemoryRecentDedupe}
    → new cap ≡ some s
    → IsValid s × (s.entries ≡ []) × (s.capacity ≡ cap)
unfolding new
new-IsValid cap h = ground arith

-- A recording keeps the cache within its capacity, its keys distinct and its deque equal to the
-- keys in the order of their arrival.
pub record_key-IsValid :
    (k h : String) (s : InMemoryRecentDedupe) → IsValid s → IsValid (record_key k h s)
unfolding record_key
record_key-IsValid k h s v = elim (Bool-cases (contains_key k s.entries)) [
  | inl there ↦ rw (there, record_key) v
  | inr gone ↦ rw (record_key-room k h s v gone) (record {
    positive = v.positive;
    bounded = omega (
      arith,
      length-append (room s.capacity s.entries) ((k, h) ∷ []),
      length-room s.capacity s.entries v.positive v.bounded,
    );
    distinct =
        Unique-snoc k h _ (Unique-room s.capacity s.entries v.distinct)
          (Absent-room s.capacity k s.entries (Absent-of_contains k s.entries gone));
    in_order = refl;
  })
]

-- A key that a valid cache calls new is known after its recording: the same hash is then a
-- duplicate, and another hash a conflict.
pub check-record_key :
    (k h h' : String) (s : InMemoryRecentDedupe)
    → IsValid s
    → check k h s ≡ DedupeDecision.new
    → check k h' (record_key k h s)
      ≡ (if str_eq h h' then DedupeDecision.duplicate else DedupeDecision.conflict)
unfolding check decide record_key
check-record_key k h h' s v e = elim (Bool-cases (contains_key k s.entries)) [
  | inl there ↦ absurd (present k h s.entries there e)
  | inr gone ↦
      rw
        (
          record_key-room k h s v gone,
          lookup_last k h _
              (Absent-room s.capacity k s.entries (Absent-of_contains k s.entries gone)),
        )
        refl
]
  where
    present :
        (k h : String) (l : List Entry)
        → contains_key k l ≡ true
        → decide (lookup k l) h ≡ DedupeDecision.new
        → ⊥
    present k h l c e = let (v, found) = lookup_present k l c in ground (arith, found)

decide-ne-new : (stored h : String) → decide (some stored) h ≢ DedupeDecision.new
unfolding decide
decide-ne-new stored h e = ground arith

pub check-record_key_ne :
    (k h h' : String) (s : InMemoryRecentDedupe)
    → IsValid s
    → check k h' (record_key k h s) ≢ DedupeDecision.new
unfolding check record_key
check-record_key_ne k h h' s v e = elim (Bool-cases (contains_key k s.entries)) [
  | inl there ↦
      let (w, found) = lookup_present k s.entries there in
      decide-ne-new w h' (rw (there, found) at e)
  | inr gone ↦ decide-ne-new h h' (
      rw
        (
          record_key-room k h s v gone,
          lookup_last k h _
              (Absent-room s.capacity k s.entries (Absent-of_contains k s.entries gone)),
        )
        at e)
]

-- The last `n` elements.
abbrev pub last {ℓ} : {A : Type ℓ} → ℕ → List A → List A
last n l = drop (length l - n) l

-- What the cache has accepted so far, if it holds the last `cap` of them: a key outside this
-- window is accepted once more.
pub note : ℕ → List Entry → Entry → List Entry
note cap accepted (k, h) =
    if contains_key k (last cap accepted) then accepted else accepted ++ (k, h) ∷ []

pub notes : ℕ → List Entry → List Entry → List Entry
notes cap accepted [] = accepted
notes cap accepted (e ∷ es) = notes cap (note cap accepted e) es

unfoldable pub record_all : List Entry → InMemoryRecentDedupe → InMemoryRecentDedupe
record_all [] s = s
record_all ((k, h) ∷ es) s = record_all es (record_key k h s)

drop-append : (n : ℕ) (l m : List Entry) → n ≤ length l → drop n (l ++ m) ≡ drop n l ++ m
drop-append zero l m h = refl
drop-append (suc n) [] m h = absurd (omega arith)
drop-append (suc n) (e ∷ l) m h = drop-append n l m (omega arith)

drop-suc : (n : ℕ) (l : List Entry) → drop 1 (drop n l) ≡ drop (suc n) l
drop-suc zero l = refl
drop-suc (suc n) [] = refl
drop-suc (suc n) (e ∷ l) = drop-suc n l

length-drop : (n : ℕ) (l : List Entry) → length (drop n l) ≡ length l - n
length-drop zero l = omega arith
length-drop (suc n) [] = omega arith
length-drop (suc n) (e ∷ l) = omega (arith, length-drop n l)

last-snoc :
    (cap : ℕ) (l : List Entry) (e : Entry)
    → 0 < cap
    → last cap (l ++ e ∷ []) ≡ room cap (last cap l) ++ e ∷ []
last-snoc cap l e p = elim (Bool-cases (leb cap (length l))) [
  | inl full ↦
      let more : length (l ++ e ∷ []) - cap ≡ suc (length l - cap) =
        omega (arith, leb→le cap (length l) full, length-append l (e ∷ [])) in
      let held : length (drop (length l - cap) l) ≡ cap =
        omega (arith, leb→le cap (length l) full, length-drop (length l - cap) l) in
      rw (more, held)
        (drop-append (suc (length l - cap)) l (e ∷ []) (omega (arith, leb→le cap (length l) full))
          ∙ ground (arith, drop-suc (length l - cap) l))
  | inr free ↦
      let none_out : length (l ++ e ∷ []) - cap ≡ 0 = ground (arith, length-append l (e ∷ [])) in
      let none_old : length l - cap ≡ 0 = ground arith in rw (none_out, none_old) (ground arith)
]

record_key-note :
    (cap : ℕ) (accepted : List Entry) (k h : String) (s : InMemoryRecentDedupe)
    → s.capacity ≡ cap
    → IsValid s
    → s.entries ≡ last cap accepted
    → ((record_key k h s).capacity ≡ cap)
      × ((record_key k h s).entries ≡ last cap (note cap accepted (k, h)))
unfolding record_key note
record_key-note cap accepted k h s c v w = elim (Bool-cases (contains_key k s.entries)) [
  | inl there ↦ ground arith
  | inr gone ↦ rw (record_key-room k h s v gone) (c, ground (arith, last-snoc cap accepted (k, h)))
]

record_all_from :
    (cap : ℕ) (accepted es : List Entry) (s : InMemoryRecentDedupe)
    → s.capacity ≡ cap
    → IsValid s
    → s.entries ≡ last cap accepted
    → (record_all es s).entries ≡ last cap (notes cap accepted es)
unfolding record_all notes
record_all_from cap accepted [] s c v w = w
record_all_from cap accepted ((k, h) ∷ es) s c v w =
    let (c', w') = record_key-note cap accepted k h s c v w in
    record_all_from cap (note cap accepted (k, h)) es (record_key k h s) c'
      (record_key-IsValid k h s v) w'

-- After any recordings a cache made with a positive capacity holds exactly the last `cap` of the
-- entries that it accepted, oldest first: it forgets in the order of arrival.
pub record_all-last :
    (cap : ℕ) (es : List Entry) {s : InMemoryRecentDedupe}
    → new cap ≡ some s
    → (record_all es s).entries ≡ last cap (notes cap [] es)
record_all-last cap es {s} h =
    let (v, empty, c) = new-IsValid cap h in record_all_from cap [] es s c v (ground arith)

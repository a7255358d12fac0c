-- ===== src/Transitions/Newest.antt =====
-- The map that `latest_mutable_per_emitter` builds, against its description: for each emitter
-- the newest row that is not immutable.
use mathlib.Core.List.{Memᴰ}
use mathlib.Core.Option
use hookbox.Prelude.{
  ℕ, ◌≤◌, ◌≡◌, refl, sym, ap, ◌∙◌, ◌⊎◌, String, Bool, true, false, not, ◌&&◌, Option, none, some,
  List, [], ◌∷◌, str_eq, str_eq_iff, if◌then◌else◌, All, arith, Bool-cases, inl, inr, subst, lookup,
  lookup-map, Unique, Unique-map,
}
use hookbox.Domain.{DateTime, DeliveryState, WebhookDelivery}
use hookbox.Transitions.Latest.{Entries, newer, upsert, collect, latest_mutable_per_emitter}

-- A row that counts for the emitter.
abbrev pub counts : String → WebhookDelivery → Bool
counts name d = not d.immutable && str_eq d.emitter_name name

abbrev merge : Option (DateTime × DeliveryState) → WebhookDelivery → DateTime × DeliveryState
merge none d = (d.created_at, d.state)
merge (some v) d = newer d v

-- One emitter's share of the loop.
best :
    String
    → Option (DateTime × DeliveryState)
    → List WebhookDelivery
    → Option (DateTime × DeliveryState)
best name o [] = o
best name o (d ∷ ds) = best name (if counts name d then some (merge o d) else o) ds

lookup-upsert :
    (name : String) (d : WebhookDelivery) (m : Entries)
    → lookup name (upsert d m)
      ≡ (if str_eq d.emitter_name name then some (merge (lookup name m) d) else lookup name m)
unfolding lookup upsert
lookup-upsert name d [] = refl
lookup-upsert name d ((k, v) ∷ m) = ground (
  arith,
  str_eq_iff k d.emitter_name,
  str_eq_iff d.emitter_name name,
  str_eq_iff k name,
  lookup-upsert name d m,
)

lookup-collect :
    (name : String) (m : Entries) (ds : List WebhookDelivery)
    → lookup name (collect m ds) ≡ best name (lookup name m) ds
unfolding collect best
lookup-collect name m [] = refl
lookup-collect name m (d ∷ ds) =
    lookup-collect name (if d.immutable then m else upsert d m) ds
    ∙ ap (λ o. best name o ds) (ground (arith, lookup-upsert name d m))

-- What the loop has found: the entry that it started from or a row, and nothing newer.
record Found (name : String) (o : Option (DateTime × DeliveryState)) (ds : List WebhookDelivery)
    (v : DateTime × DeliveryState) : Type 0 where
  origin :
      (o ≡ some v)
      ⊎ ((d : WebhookDelivery) × Memᴰ d ds × (counts name d ≡ true) × (v ≡ (d.created_at, d.state)))
  above : (w : DateTime × DeliveryState) → o ≡ some w → w.0 ≤ v.0
  newest : All (λ d. counts name d ≡ true → d.created_at ≤ v.0) ds

widen :
    (name : String) {d : WebhookDelivery} {ds : List WebhookDelivery} {v : DateTime × DeliveryState}
    → (c : WebhookDelivery) × Memᴰ c ds × (counts name c ≡ true) × (v ≡ (c.created_at, c.state))
    → (c : WebhookDelivery) × Memᴰ c (d ∷ ds)
      × (counts name c ≡ true)
      × (v ≡ (c.created_at, c.state))
widen name (c, m, k, e) = (c, Memᴰ.tail m, k, e)

merge_origin :
    (o : Option (DateTime × DeliveryState)) (d : WebhookDelivery)
    → (o ≡ some (merge o d)) ⊎ (merge o d ≡ (d.created_at, d.state))
unfolding newer
merge_origin none d = inr refl
merge_origin (some (ts, st)) d = ground arith

merge_above :
    (o : Option (DateTime × DeliveryState)) (d : WebhookDelivery)
    → (d.created_at ≤ (merge o d).0)
      × ((w : DateTime × DeliveryState) → o ≡ some w → w.0 ≤ (merge o d).0)
unfolding newer
merge_above none d = (omega arith, λ w e. cc)
merge_above (some (ts, st)) d = (ground arith, λ w e. ground arith)

counted :
    {name : String} (o : Option (DateTime × DeliveryState)) (d : WebhookDelivery)
    {ds : List WebhookDelivery} {v : DateTime × DeliveryState}
    → counts name d ≡ true
    → Found name (some (merge o d)) ds v
    → Found name o (d ∷ ds) v
counted {name} o d {ds} {v} c f = record {
  origin = elim f.origin [
    | inl e ↦ elim (merge_origin o d) [
      | inl old ↦ inl (old ∙ e)
      | inr new ↦ inr (d, Memᴰ.head refl, c, ground arith)
    ]
    | inr found ↦ inr (widen name found)
  ];
  above = λ w e. omega (arith, (merge_above o d).1 w e, f.above (merge o d) refl);
  newest = (λ _. omega (arith, (merge_above o d).0, f.above (merge o d) refl), f.newest);
}

skipped :
    {name : String} (o : Option (DateTime × DeliveryState)) (d : WebhookDelivery)
    {ds : List WebhookDelivery} {v : DateTime × DeliveryState}
    → counts name d ≡ false
    → Found name o ds v
    → Found name o (d ∷ ds) v
skipped {name} o d {ds} {v} c f = record {
  origin = elim f.origin [ inl e ↦ inl e | inr found ↦ inr (widen name found) ];
  above = f.above;
  newest = (λ e. absurd (ground arith), f.newest);
}

best-Found :
    (name : String) (o : Option (DateTime × DeliveryState)) (ds : List WebhookDelivery)
    (v : DateTime × DeliveryState)
    → best name o ds ≡ some v
    → Found name o ds v
unfolding best
best-Found name o [] v h = record { origin = inl h; above = λ w e. ground arith; newest = tt }
best-Found name o (d ∷ ds) v h = elim (Bool-cases (counts name d)) [
  | inl c ↦ counted o d c (best-Found name (some (merge o d)) ds v (rw c at h))
  | inr c ↦ skipped o d c (best-Found name o ds v (rw c at h))
]

best-none :
    (name : String) (o : Option (DateTime × DeliveryState)) (ds : List WebhookDelivery)
    → best name o ds ≡ none
    → (o ≡ none) × All (λ d. counts name d ≡ false) ds
unfolding best
best-none name o [] h = (h, tt)
best-none name o (d ∷ ds) h = elim (Bool-cases (counts name d)) [
  | inl c ↦ absurd (ground (arith, best-none name (some (merge o d)) ds (rw c at h)))
  | inr c ↦ let (e, rest) = best-none name o ds (rw c at h) in (e, (c, rest))
]

-- The state that is shown for one emitter: that of a row that counts and that no counting row
-- is newer than, or none if no row counts.
abbrev pub IsNewest : String → List WebhookDelivery → Option DeliveryState → Type 0
IsNewest name ds none = All (λ d. counts name d ≡ false) ds
IsNewest name ds (some st) =
    (d : WebhookDelivery) × Memᴰ d ds
    × (counts name d ≡ true)
    × (st ≡ d.state)
    × All (λ e. counts name e ≡ true → e.created_at ≤ d.created_at) ds

IsNewest-best :
    (name : String) (ds : List WebhookDelivery) (o : Option (DateTime × DeliveryState))
    → best name none ds ≡ o
    → IsNewest name ds (Option.map (λ v. v.1) o)
IsNewest-best name ds none h = (best-none name none ds h).1
IsNewest-best name ds (some v) h = newest_of (best-Found name none ds v h)
  where
    newest_of : Found name none ds v → IsNewest name ds (some v.1)
    newest_of f = elim f.origin [
      | inl e ↦ absurd (ground arith)
      | inr (d, m, c, e) ↦ (
        d,
        m,
        c,
        ap (λ (t : DateTime × DeliveryState). t.1) e,
        subst (λ (t : ℕ). All (λ e. counts name e ≡ true → e.created_at ≤ t) ds)
            (ap (λ (t : DateTime × DeliveryState). t.0) e) f.newest,
      )
    ]

-- For every emitter the map holds the state of the newest of the rows that are not immutable,
-- and has no entry exactly when the emitter has no such row.
pub lookup-latest_mutable_per_emitter :
    (name : String) (ds : List WebhookDelivery)
    → IsNewest name ds (lookup name (latest_mutable_per_emitter ds))
unfolding latest_mutable_per_emitter lookup
lookup-latest_mutable_per_emitter name ds =
    subst (IsNewest name ds)
      (sym (
        lookup-map (λ (v : DateTime × DeliveryState). v.1) name (collect [] ds)
        ∙ ap (Option.map (λ (v : DateTime × DeliveryState). v.1)) (lookup-collect name [] ds)))
      (IsNewest-best name ds (best name none ds) refl)

upsert_keys :
    (k : String) (d : WebhookDelivery) (m : Entries)
    → str_eq d.emitter_name k ≡ false
    → All (λ (e : String × (DateTime × DeliveryState)). str_eq e.0 k ≡ false) m
    → All (λ (e : String × (DateTime × DeliveryState)). str_eq e.0 k ≡ false) (upsert d m)
unfolding upsert
upsert_keys k d [] h a = (h, tt)
upsert_keys k d ((j, v) ∷ m) h a = ground (arith, upsert_keys k d m h)

upsert-Unique : (d : WebhookDelivery) (m : Entries) → Unique m → Unique (upsert d m)
unfolding upsert
upsert-Unique d [] u = (tt, tt)
upsert-Unique d ((j, v) ∷ m) u = ground (
  arith,
  upsert-Unique d m,
  upsert_keys j d m,
  str_eq_iff j d.emitter_name,
  str_eq_iff d.emitter_name j,
)

collect-Unique : (m : Entries) (ds : List WebhookDelivery) → Unique m → Unique (collect m ds)
unfolding collect
collect-Unique m [] u = u
collect-Unique m (d ∷ ds) u =
    collect-Unique (if d.immutable then m else upsert d m) ds (ground (arith, upsert-Unique d m u))

pub latest_mutable_per_emitter-Unique :
    (ds : List WebhookDelivery) → Unique (latest_mutable_per_emitter ds)
unfolding latest_mutable_per_emitter
latest_mutable_per_emitter-Unique ds = Unique-map _ (collect [] ds) (collect-Unique [] ds tt)

-- ===== src/Transitions/Aggregate.antt =====
-- crates/hookbox/src/transitions.rs, the state that a receipt shows.
use mathlib.Core.List.{Memᴰ}
use hookbox.Prelude.{
  Option, none, str_eq_iff, ◌≡◌, ◌≢◌, ◌↔◌, refl, ◌⊎◌, inl, inr, String, Bool, true, false, some,
  List, [], ◌∷◌, map, any, all, if◌then◌else◌, Bool-cases, All, arith, lookup, mem_of_lookup,
  lookup_of_mem, Unique, ◌∙◌,
}
use hookbox.Domain.{DeliveryState, ProcessingState, WebhookDelivery, same_delivery_state}
use hookbox.Transitions.Latest.{latest_mutable_per_emitter}
use hookbox.Transitions.Newest.{
  IsNewest, counts, lookup-latest_mutable_per_emitter, latest_mutable_per_emitter-Unique,
}

abbrev pub contains : DeliveryState → List DeliveryState → Bool
contains s = any (same_delivery_state s)

unfoldable pub aggregate_from_states : List DeliveryState → ProcessingState → ProcessingState
aggregate_from_states [] fallback = fallback
aggregate_from_states (s ∷ ss) fallback =
    if contains DeliveryState.dead_lettered (s ∷ ss)
    then ProcessingState.dead_lettered
    else if contains DeliveryState.failed (s ∷ ss)
    then ProcessingState.emit_failed
    else if all (λ t. same_delivery_state t DeliveryState.emitted) (s ∷ ss)
    then ProcessingState.emitted
    else ProcessingState.stored

unfoldable pub receipt_aggregate_state : List WebhookDelivery → ProcessingState → ProcessingState
unfolding aggregate_from_states latest_mutable_per_emitter
receipt_aggregate_state ds fallback =
    aggregate_from_states (map (λ e. e.1) (latest_mutable_per_emitter ds)) fallback

contains-mem : (s : DeliveryState) (ss : List DeliveryState) → contains s ss ≡ true → Memᴰ s ss
contains-mem s [] h = cc
contains-mem s (t ∷ ss) h = elim (same-eq s t) [
  | inl e ↦ Memᴰ.head e
  | inr n ↦ Memᴰ.tail (contains-mem s ss (ground arith))
]
  where
    same-eq : (s t : DeliveryState) → (s ≡ t) ⊎ (same_delivery_state s t ≡ false)
    same-eq s t = ground arith

mem-contains : (s : DeliveryState) (ss : List DeliveryState) → Memᴰ s ss → contains s ss ≡ true
mem-contains s (t ∷ ss) (Memᴰ.head e) = ground arith
mem-contains s (t ∷ ss) (Memᴰ.tail m) = ground (arith, mem-contains s ss m)
mem-contains s [] m = elim m [ ]

all_emitted :
    (ss : List DeliveryState)
    → (all (λ t. same_delivery_state t DeliveryState.emitted) ss ≡ true)
      ↔ All (λ t. t ≡ DeliveryState.emitted) ss
all_emitted [] = (λ _. tt, λ _. refl)
all_emitted (s ∷ ss) = ground (arith, all_emitted ss)

only_emitted :
    (ss : List DeliveryState)
    → all (λ t. same_delivery_state t DeliveryState.emitted) ss ≡ true
    → (contains DeliveryState.dead_lettered ss ≡ false) × (contains DeliveryState.failed ss ≡ false)
only_emitted [] h = (refl, refl)
only_emitted (s ∷ ss) h = ground (arith, only_emitted ss)

-- The precedence, on the three tests.
abbrev pick : Bool → Bool → Bool → ProcessingState
pick dead failed emitted =
    if dead
    then ProcessingState.dead_lettered
    else if failed
    then ProcessingState.emit_failed
    else if emitted
    then ProcessingState.emitted
    else ProcessingState.stored

pick-dead : (d f e : Bool) → (pick d f e ≡ ProcessingState.dead_lettered) ↔ (d ≡ true)
pick-dead d f e = ground arith

pick-failed :
    (d f e : Bool) → (pick d f e ≡ ProcessingState.emit_failed) ↔ ((f ≡ true) × (d ≡ false))
pick-failed d f e = ground arith

pick-emitted :
    (d f e : Bool)
    → (e ≡ true → (d ≡ false) × (f ≡ false))
    → (pick d f e ≡ ProcessingState.emitted) ↔ (e ≡ true)
pick-emitted d f e h = ground (arith, h)

-- Of at least one state: the receipt is dead-lettered exactly when a state is, `emit_failed`
-- exactly when one failed and none is dead-lettered, and emitted exactly when all are.
pub aggregate_from_states-cases :
    (s : DeliveryState) (ss : List DeliveryState) (fallback : ProcessingState)
    → let r = aggregate_from_states (s ∷ ss) fallback in
      ((r ≡ ProcessingState.dead_lettered) ↔ Memᴰ DeliveryState.dead_lettered (s ∷ ss))
      × ((r ≡ ProcessingState.emit_failed)
          ↔ (Memᴰ DeliveryState.failed (s ∷ ss) × (¬ Memᴰ DeliveryState.dead_lettered (s ∷ ss))))
      × ((r ≡ ProcessingState.emitted) ↔ All (λ t. t ≡ DeliveryState.emitted) (s ∷ ss))
unfolding aggregate_from_states
aggregate_from_states-cases s ss fallback = (
  (
    λ h. contains-mem dead l ((pick-dead d f e).0 h),
    λ m. (pick-dead d f e).1 (mem-contains dead l m),
  ),
  (
    λ h.
        let (a, b) = (pick-failed d f e).0 h in
        (contains-mem DeliveryState.failed l a, λ m. cc (mem-contains dead l m, b)),
    λ h.
        (pick-failed d f e).1 (
          mem-contains DeliveryState.failed l h.0,
          not_contains (λ t. h.1 (contains-mem dead l t)),
        ),
  ),
  (
    λ h. (all_emitted l).0 ((pick-emitted d f e (only_emitted l)).0 h),
    λ a. (pick-emitted d f e (only_emitted l)).1 ((all_emitted l).1 a),
  ),
)
  where
    l : List DeliveryState
    l = s ∷ ss

    dead : DeliveryState
    dead = DeliveryState.dead_lettered

    d : Bool
    d = contains DeliveryState.dead_lettered l

    f : Bool
    f = contains DeliveryState.failed l

    e : Bool
    e = all (λ t. same_delivery_state t DeliveryState.emitted) l

    not_contains : {b : Bool} → (b ≡ true → ⊥) → b ≡ false
    not_contains {b} n = elim (Bool-cases b) [ inl t ↦ absurd (n t) | inr u ↦ u ]

-- What a receipt with a map of states per emitter should show.
abbrev pub Shows : List (String × DeliveryState) → ProcessingState → ProcessingState → Type 0
Shows [] fallback r = r ≡ fallback
Shows (e ∷ m) fallback r =
    ((r ≡ ProcessingState.dead_lettered)
      ↔ ((name : String) × (lookup name (e ∷ m) ≡ some DeliveryState.dead_lettered)))
    × ((r ≡ ProcessingState.emit_failed) ↔ (
        ((name : String) × (lookup name (e ∷ m) ≡ some DeliveryState.failed))
        × ((name : String) → lookup name (e ∷ m) ≢ some DeliveryState.dead_lettered)))
    × ((r ≡ ProcessingState.emitted) ↔ (
        (name : String) (st : DeliveryState)
        → lookup name (e ∷ m) ≡ some st
        → st ≡ DeliveryState.emitted))

All-of_mem :
    {ss : List DeliveryState}
    → ((st : DeliveryState) → Memᴰ st ss → st ≡ DeliveryState.emitted)
    → All (λ t. t ≡ DeliveryState.emitted) ss
All-of_mem {ss = []} f = tt
All-of_mem {ss = s ∷ ss} f = (f s (Memᴰ.head refl), All-of_mem (λ st m. f st (Memᴰ.tail m)))

mem_of_All :
    {st : DeliveryState} {ss : List DeliveryState}
    → All (λ t. t ≡ DeliveryState.emitted) ss
    → Memᴰ st ss
    → st ≡ DeliveryState.emitted
mem_of_All {ss = []} a m = elim m [ ]
mem_of_All {ss = s ∷ ss} a (Memᴰ.head e) = e ∙ a.0
mem_of_All {ss = s ∷ ss} a (Memᴰ.tail m) = mem_of_All a.1 m

aggregate-Shows :
    (m : List (String × DeliveryState)) (fallback : ProcessingState)
    → Unique m
    → Shows m fallback (aggregate_from_states (map (λ e. e.1) m) fallback)
unfolding aggregate_from_states
aggregate-Shows [] fallback u = refl
aggregate-Shows ((k, s) ∷ m) fallback u =
    let (dead, failed, emitted) = aggregate_from_states-cases s (map (λ e. e.1) m) fallback in
    (
      (λ h. lookup_of_mem _ l u (dead.0 h), λ f. dead.1 (mem_of_lookup f.0 _ l f.1)),
      (
        λ h. (
          lookup_of_mem _ l u (failed.0 h).0,
          λ name e. (failed.0 h).1 (mem_of_lookup name _ l e),
        ),
        λ f. failed.1 (
          mem_of_lookup f.0.0 _ l f.0.1,
          λ d. let (name, e) = lookup_of_mem _ l u d in f.1 name e,
        ),
      ),
      (
        λ h name st e. mem_of_All (emitted.0 h) (mem_of_lookup name st l e),
        λ f. emitted.1 (All-of_mem (λ st d. let (name, e) = lookup_of_mem st l u d in f name st e)),
      ),
    )
  where
    l : List (String × DeliveryState)
    l = (k, s) ∷ m

-- For each emitter a state of a newest row that counts, or none if it has no row that counts.
pub Picks : List WebhookDelivery → (String → Option DeliveryState) → Type 0
Picks ds newest = (name : String) → IsNewest name ds (newest name)

-- What the receipt should show, where `newest` gives the state of each emitter's newest row.
pub Displays :
    List WebhookDelivery
    → (String → Option DeliveryState)
    → ProcessingState
    → ProcessingState
    → Type 0
Displays ds newest fallback r =
    (All (λ d. d.immutable ≡ true) ds × (r ≡ fallback))
    ⊎ (((d : WebhookDelivery) × Memᴰ d ds × (d.immutable ≡ false))
        × ((r ≡ ProcessingState.dead_lettered)
            ↔ ((name : String) × (newest name ≡ some DeliveryState.dead_lettered)))
        × ((r ≡ ProcessingState.emit_failed) ↔ (
            ((name : String) × (newest name ≡ some DeliveryState.failed))
            × ((name : String) → newest name ≢ some DeliveryState.dead_lettered)))
        × ((r ≡ ProcessingState.emitted) ↔ (
            (name : String) (st : DeliveryState)
            → newest name ≡ some st
            → st ≡ DeliveryState.emitted)))

every_immutable :
    (ds : List WebhookDelivery)
    → ((name : String) → All (λ d. counts name d ≡ false) ds)
    → All (λ d. d.immutable ≡ true) ds
every_immutable [] f = tt
every_immutable (d ∷ ds) f =
    (not_counted d (f d.emitter_name).0, every_immutable ds (λ name. (f name).1))
  where
    not_counted : (d : WebhookDelivery) → counts d.emitter_name d ≡ false → d.immutable ≡ true
    not_counted d e = ground (arith, str_eq_iff d.emitter_name d.emitter_name)

Shows-Displays :
    (ds : List WebhookDelivery) (fallback r : ProcessingState) (m : List (String × DeliveryState))
    → ((name : String) → IsNewest name ds (lookup name m))
    → Shows m fallback r
    → Displays ds (λ name. lookup name m) fallback r
unfolding Displays lookup
Shows-Displays ds fallback r [] newest s = inl (every_immutable ds newest, s)
Shows-Displays ds fallback r ((k, st) ∷ m) newest s =
    inr (counting _ refl (newest k), s.0, s.1, s.2)
  where
    counting :
        (o : Option DeliveryState)
        → lookup k ((k, st) ∷ m) ≡ o
        → IsNewest k ds o
        → (d : WebhookDelivery) × Memᴰ d ds × (d.immutable ≡ false)
    counting none e n = absurd (ground (arith, str_eq_iff k k))
    counting (some st) e (d, there, c, same, rest) = (d, there, ground arith)

-- The choice that `latest_mutable_per_emitter` makes.
pub latest_mutable_per_emitter-Displays :
    (ds : List WebhookDelivery) (fallback : ProcessingState)
    → Picks ds (λ name. lookup name (latest_mutable_per_emitter ds))
      × Displays ds
          (λ name. lookup name (latest_mutable_per_emitter ds))
          fallback
          (receipt_aggregate_state ds fallback)
unfolding receipt_aggregate_state Picks
latest_mutable_per_emitter-Displays ds fallback =
    let picks = λ (name : String). lookup-latest_mutable_per_emitter name ds in
    (
      picks,
      Shows-Displays ds fallback _ (latest_mutable_per_emitter ds) picks (
          aggregate-Shows (latest_mutable_per_emitter ds) fallback
            (latest_mutable_per_emitter-Unique ds)),
    )

-- A receipt shows its fallback if all of its rows are immutable. Otherwise, for some choice of a
-- newest row that is not immutable for each emitter that has one, it shows `dead_lettered` exactly
-- when one of these is dead-lettered, `emit_failed` exactly when one failed and none is
-- dead-lettered, and `emitted` exactly when all are emitted.
pub receipt_aggregate_state-Shows :
    (ds : List WebhookDelivery) (fallback : ProcessingState)
    → (newest : String → Option DeliveryState) × Picks ds newest
      × Displays ds newest fallback (receipt_aggregate_state ds fallback)
receipt_aggregate_state-Shows ds fallback = (
  λ name. lookup name (latest_mutable_per_emitter ds),
  (latest_mutable_per_emitter-Displays ds fallback).0,
  (latest_mutable_per_emitter-Displays ds fallback).1,
)

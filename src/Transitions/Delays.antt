-- ===== src/Transitions/Delays.antt =====
-- `compute_backoff` of crates/hookbox/src/transitions.rs keeps to its cap.
use hookbox.Prelude.{
  ◌&&◌, ◌⊎◌, ℕ, ℤ, pos, Bool, true, false, Option, some, Bool-cases, ◌≤◌, ◌<ℤ◌, leb_ℤ, ◌≡◌, inl,
  inr, refl, arith, not, if◌then◌else◌,
}
use hookbox.Config.Float.{F64, less, zero_f64, one_f64}
use hookbox.Config.Emitters.{RetryPolicy}
use hookbox.Transitions.Backoff.{
  Arithmetic, is_finite, is_nan, asserted, leb_f64, shorter, clamp, to_duration, backoff_of,
  compute_backoff,
}

-- The seconds of a duration are finite and not negative, and the way back never panics on less
-- seconds than a duration has, nor does it turn the order round.
pub record Converts (a : Arithmetic) : Type 0 where
  pub finite : (d : ℕ) → is_finite (a.as_secs_f64 d) ≡ true
  pub not_negative : (d : ℕ) → less (a.as_secs_f64 d) zero_f64 ≡ false
  pub back :
      (x : F64) (d m : ℕ)
      → is_finite x ≡ true
      → less x zero_f64 ≡ false
      → less (a.as_secs_f64 d) x ≡ false
      → a.from_secs_f64 (a.as_secs_f64 d) ≡ some m
      → (e : ℕ) × (a.from_secs_f64 x ≡ some e) × (e ≤ m)

less_self : (x : F64) → less x x ≡ false
unfolding less
less_self F64.nan = refl
less_self (F64.infinite true) = refl
less_self (F64.infinite false) = refl
less_self (F64.finite true m e) = ground arith
less_self (F64.finite false m e) = ground arith

-- What `clamp` gives where the upper end is a number that is not negative.
record Within (high y : F64) : Type 0 where
  number : is_finite y ≡ true
  not_below : less y zero_f64 ≡ false
  not_above : less high y ≡ false

is_nan-finite : (x : F64) → is_finite x ≡ true → is_nan x ≡ false
is_nan-finite (F64.finite s m e) f = refl
is_nan-finite (F64.infinite s) f = refl
is_nan-finite F64.nan f = absurd (ground arith)

clamp-Within :
    (high x : F64)
    → is_finite high ≡ true
    → less high zero_f64 ≡ false
    → is_finite x ≡ true
    → (y : F64) × (clamp zero_f64 high x ≡ some y) × Within high y
unfolding clamp
clamp-Within high x f g h = elim (Bool-cases (less x zero_f64)) [
  | inl below ↦ (
    zero_f64,
    ground (arith, is_nan-finite high f),
    record { number = refl; not_below = less_self zero_f64; not_above = g },
  )
  | inr not_below ↦ elim (Bool-cases (less high x)) [
    | inl above ↦ (
      high,
      ground (arith, is_nan-finite high f),
      record { number = f; not_below = g; not_above = less_self high },
    )
    | inr not_above ↦ (
      x,
      ground (arith, is_nan-finite high f),
      record { number = h; not_below = not_below; not_above = not_above },
    )
  ]
]

module _ (a : Arithmetic) (laws : Converts a) where
  module _ (policy : RetryPolicy)
      (exact : a.from_secs_f64 (a.as_secs_f64 policy.max_backoff) ≡ some policy.max_backoff) where
    -- The delay that the cap allows.
    abbrev pub Capped : Option ℕ → Type 0
    Capped o = (d : ℕ) × (o ≡ some d) × (d ≤ policy.max_backoff)

    to_duration-Capped :
        (jittered : F64) → Capped (to_duration a (a.as_secs_f64 policy.max_backoff) jittered)
    unfolding to_duration
    to_duration-Capped jittered = elim (Bool-cases (is_finite jittered)) [
      | inl number ↦
          let (y, clamped, within) =
            clamp-Within (a.as_secs_f64 policy.max_backoff) jittered
              (laws.finite policy.max_backoff) (laws.not_negative policy.max_backoff) number in
          let (d, converted, le) =
            laws.back y policy.max_backoff policy.max_backoff within.number within.not_below
              within.not_above exact in
          (d, rw (number, clamped, converted) refl, le)
      | inr strange ↦ (policy.max_backoff, rw strange exact, omega arith)
    ]

    guarded-Capped :
        (finite positive : Bool) (o : Option ℕ)
        → Capped o
        → Capped (
            if not finite
            then some (shorter policy.initial_backoff policy.max_backoff)
            else if not positive
            then some (shorter policy.initial_backoff policy.max_backoff)
            else o)
    guarded-Capped false positive o c =
        (shorter policy.initial_backoff policy.max_backoff, refl, ground arith)
    guarded-Capped true false o c =
        (shorter policy.initial_backoff policy.max_backoff, refl, ground arith)
    guarded-Capped true true o c = c

    -- In a build without debug assertions, whatever the multiplier, the jitter and the random number
    -- are, NaN and infinity included, and in one with them where the jitter is in [0.0, 1.0] and the
    -- multiplier is finite and positive, the delay of a failed attempt is computed without a panic
    -- and is not longer than `max_backoff`, where that duration survives the way to seconds and back.
    pub compute_backoff-Capped :
        (debug : Bool) (attempt : ℤ) (random : F64)
        → pos 0 <ℤ attempt
        → (debug ≡ false)
          ⊎ ((leb_f64 zero_f64 policy.jitter ≡ true)
              × (leb_f64 policy.jitter one_f64 ≡ true)
              × (is_finite policy.backoff_multiplier ≡ true)
              × (less zero_f64 policy.backoff_multiplier ≡ true))
        → Capped (compute_backoff a debug attempt policy random)
    unfolding compute_backoff backoff_of
    compute_backoff-Capped debug attempt random h build =
        let late : leb_ℤ attempt (pos 0) ≡ false = ground arith in
        let silent : (debug && not (asserted a attempt policy)) ≡ false = quiet build in
        rw (silent, late)
          (guarded-Capped (is_finite policy.backoff_multiplier)
            (less zero_f64 policy.backoff_multiplier) _ (to_duration-Capped _))
      where
        and_false : (b : Bool) → (b && false) ≡ false
        and_false true = refl
        and_false false = refl

        quiet :
            (debug ≡ false)
              ⊎ ((leb_f64 zero_f64 policy.jitter ≡ true)
                  × (leb_f64 policy.jitter one_f64 ≡ true)
                  × (is_finite policy.backoff_multiplier ≡ true)
                  × (less zero_f64 policy.backoff_multiplier ≡ true))
            → (debug && not (asserted a attempt policy)) ≡ false
        quiet (inl e) = rw e refl
        quiet (inr (j, k, f, m)) =
            let counts : leb_ℤ (pos 1) attempt ≡ true = ground arith in
            rw (counts, j, k, f, m) (and_false debug)

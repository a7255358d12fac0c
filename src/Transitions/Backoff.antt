-- ===== src/Transitions/Backoff.antt =====
-- crates/hookbox/src/transitions.rs, `compute_backoff`. A duration is a number of nanoseconds. Comparisons of `f64` are computed; the arithmetic, which rounds, is a parameter.
use hookbox.Prelude.{
  ℕ, ℤ, pos, Bool, true, false, Option, none, some, not, ◌||◌, ◌&&◌, leb, leb_ℤ, ◌+ℤ◌, negsuc,
  if◌then◌else◌,
}
use hookbox.Config.Float.{F64, less, zero_f64, one_f64, two_f64}
use hookbox.Config.Emitters.{RetryPolicy}

-- `from_secs_f64` panics outside the durations: `none`.
pub record Arithmetic : Type 0 where
  pub add : F64 → F64 → F64
  pub mul : F64 → F64 → F64
  pub mul_add : F64 → F64 → F64 → F64
  pub powi : F64 → ℤ → F64
  pub as_secs_f64 : ℕ → F64
  pub from_secs_f64 : F64 → Option ℕ

abbrev pub is_finite : F64 → Bool
is_finite (F64.finite s m e) = true
is_finite (F64.infinite s) = false
is_finite F64.nan = false

abbrev pub is_nan : F64 → Bool
is_nan F64.nan = true
is_nan (F64.infinite s) = false
is_nan (F64.finite s m e) = false

-- `x <= y`, which is false for a NaN.
abbrev pub leb_f64 : F64 → F64 → Bool
leb_f64 x y = not (is_nan x) && not (is_nan y) && not (less y x)

abbrev pub opposite : F64 → F64
opposite F64.nan = F64.nan
opposite (F64.infinite s) = F64.infinite (not s)
opposite (F64.finite s m e) = F64.finite (not s) m e

-- `f64::min` and `f64::max`, which pass over a NaN.
unfoldable pub min : F64 → F64 → F64
min x y = if is_nan x then y else if is_nan y then x else if less y x then y else x

unfoldable pub max : F64 → F64 → F64
max x y = if is_nan x then y else if is_nan y then x else if less x y then y else x

-- `f64::clamp`, which panics unless `low <= high`.
unfoldable pub clamp : F64 → F64 → F64 → Option F64
clamp low high x =
    if is_nan low || is_nan high || less high low
    then none
    else if less x low
    then some low
    else if less high x
    then some high
    else some x

abbrev pub and_then : Option F64 → (F64 → Option ℕ) → Option ℕ
and_then none f = none
and_then (some x) f = f x

-- `Duration::min`.
abbrev pub shorter : ℕ → ℕ → ℕ
shorter d e = if leb d e then d else e

module _ (a : Arithmetic) where
  -- `random` is what `fastrand::f64()` gives.
  unfoldable pub jitter_factor : F64 → F64 → F64
  unfolding max
  jitter_factor jitter random =
      max
        (if less zero_f64 jitter
          then a.add one_f64 (a.mul_add random (a.mul two_f64 jitter) (opposite jitter))
          else one_f64)
        zero_f64

  -- From the jittered product on.
  unfoldable pub to_duration : F64 → F64 → Option ℕ
  unfolding clamp
  to_duration max_secs jittered =
      and_then (if is_finite jittered then clamp zero_f64 max_secs jittered else some max_secs)
        a.from_secs_f64

  unfoldable pub backoff_of : ℤ → RetryPolicy → F64 → Option ℕ
  unfolding min jitter_factor to_duration
  backoff_of exponent policy random =
      let max_secs = a.as_secs_f64 policy.max_backoff in
      let base_secs =
        min
          (a.mul (a.as_secs_f64 policy.initial_backoff) (a.powi policy.backoff_multiplier exponent))
          max_secs in
      to_duration max_secs (min (a.mul base_secs (jitter_factor policy.jitter random)) max_secs)

  -- The conditions of the three `debug_assert!`s.
  abbrev pub asserted : ℤ → RetryPolicy → Bool
  asserted attempt policy =
      leb_ℤ (pos 1) attempt
      && leb_f64 zero_f64 policy.jitter
      && leb_f64 policy.jitter one_f64
      && is_finite policy.backoff_multiplier
      && less zero_f64 policy.backoff_multiplier

  -- `debug` is whether the build has `debug_assertions`; the result is `none` where it panics.
  unfoldable pub compute_backoff : Bool → ℤ → RetryPolicy → F64 → Option ℕ
  unfolding backoff_of
  compute_backoff debug attempt policy random =
      if debug && not (asserted attempt policy)
      then none
      else if leb_ℤ attempt (pos 0)
      then some policy.initial_backoff
      else if not (is_finite policy.backoff_multiplier)
      then some (shorter policy.initial_backoff policy.max_backoff)
      else if not (less zero_f64 policy.backoff_multiplier)
      then some (shorter policy.initial_backoff policy.max_backoff)
      else backoff_of (attempt +ℤ negsuc 0) policy random

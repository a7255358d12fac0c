-- ===== src/Examples/Backoff.antt =====
-- The theorem on `compute_backoff` of crates/hookbox/src/transitions.rs at concrete values.
use Prim.Native.Nat.{◌^◌}
use hookbox.Prelude.{inl, false, ℕ, pos, true, false, some, ◌*◌, ◌≤◌, ◌≡◌, refl, arith}
use hookbox.Config.Float.{F64, less, zero_f64, fifth_f64}
use hookbox.Config.Emitters.{default_policy}
use hookbox.Transitions.Backoff.{is_finite, compute_backoff}
use hookbox.Examples.Data.{units, arithmetic}
use hookbox.Transitions.Delays.{Converts, compute_backoff-Capped}

back :
    (x : F64) (d m : ℕ)
    → is_finite x ≡ true
    → less x zero_f64 ≡ false
    → less (F64.finite false d 0) x ≡ false
    → units (F64.finite false d 0) ≡ some m
    → (e : ℕ) × (units x ≡ some e) × (e ≤ m)
unfolding less
back (F64.finite true n e) d m f g h k = (n * 2 ^ e, refl, ground arith)
back (F64.finite false n e) d m f g h k = (n * 2 ^ e, refl, ground arith)
back (F64.infinite s) d m f g h k = absurd (ground arith)
back F64.nan d m f g h k = absurd (ground arith)

arithmetic-Converts : Converts arithmetic
unfolding less
arithmetic-Converts = record { finite = λ d. refl; not_negative = λ d. ground arith; back = back }

compute_backoff-Capped_example :
    (d : ℕ) × (compute_backoff arithmetic false (pos 9) default_policy fifth_f64 ≡ some d)
    × (d ≤ default_policy.max_backoff)
unfolding default_policy
compute_backoff-Capped_example =
    compute_backoff-Capped arithmetic arithmetic-Converts default_policy refl false (pos 9)
      fifth_f64 (omega arith) (inl refl)

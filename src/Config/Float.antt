-- ===== src/Config/Float.antt =====
-- `f64`, with the comparison that crates/hookbox-server/src/config.rs uses.
use Prim.Native.Nat.{◌^◌}
use hookbox.Prelude.{ℕ, Bool, true, false, ℤ, pos, sub_ℕ, ltb_ℤ, ◌*◌, not, ◌&&◌}

-- `finite s m e` is m * 2 ^ (e - 1074), and its opposite where `s` is true: 2 ^ -1074 is the least
-- positive number of the type.
pub data F64 : Type 0 where
  nan : F64
  infinite : Bool → F64
  finite : Bool → ℕ → ℕ → F64

abbrev signed : Bool → ℕ → ℤ
signed true n = sub_ℕ 0 n
signed false n = pos n

-- `<`, which is false on a NaN.
unfoldable pub less : F64 → F64 → Bool
less (F64.finite s m e) (F64.finite t n f) = ltb_ℤ (signed s (m * 2 ^ e)) (signed t (n * 2 ^ f))
less (F64.finite s m e) (F64.infinite t) = not t
less (F64.infinite s) (F64.finite t n f) = s
less (F64.infinite s) (F64.infinite t) = s && not t
less F64.nan y = false
less (F64.finite s m e) F64.nan = false
less (F64.infinite s) F64.nan = false

abbrev pub zero_f64 : F64
zero_f64 = F64.finite false 0 0

abbrev pub one_f64 : F64
one_f64 = F64.finite false 1 1074

abbrev pub two_f64 : F64
two_f64 = F64.finite false 1 1075

-- The number nearest to 0.2.
abbrev pub fifth_f64 : F64
fifth_f64 = F64.finite false 7205759403792794 1019

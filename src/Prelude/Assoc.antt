-- ===== src/Prelude/Assoc.antt =====
-- Association lists keyed by texts.
use mathlib.Core.List.{List, [], ◌∷◌, map, Memᴰ}
use mathlib.Core.Bool.{false}
use mathlib.Core.Option
use mathlib.Core.Option.{Option, none, some}
use mathlib.Core.Path.{◌≡◌, refl}
use native.Mathlib.Omega.{arith}
use Prim.Native.String.{String}
use mathlib.Core.Logic.{inl, inr}
use hookbox.Prelude.Tests.{Bool-cases, str_eq, str_eq_iff, if◌then◌else◌}
use hookbox.Prelude.Lists.{All}

module _ {ℓ} {V : Type ℓ} where
  unfoldable pub lookup : String → List (String × V) → Option V
  lookup k [] = none
  lookup k ((j, v) ∷ m) = if str_eq j k then some v else lookup k m

  -- No key stands twice.
  abbrev pub Unique : List (String × V) → Type 0
  Unique [] = Unit
  Unique ((k, v) ∷ m) = All (λ (e : String × V). str_eq e.0 k ≡ false) m × Unique m

  pub mem_of_lookup :
      (k : String) (v : V) (m : List (String × V)) → lookup k m ≡ some v → Memᴰ v (map (λ e. e.1) m)
  unfolding lookup
  mem_of_lookup k v [] h = cc
  mem_of_lookup k v ((j, w) ∷ m) h = elim (Bool-cases (str_eq j k)) [
    | inl e ↦ Memᴰ.head (ground arith)
    | inr e ↦ Memᴰ.tail (mem_of_lookup k v m (ground arith))
  ]

  -- A key that stands before others with another spelling hides none of them.
  lookup_past :
      (k j : String) (v w : V) (m : List (String × V))
      → All (λ (e : String × V). str_eq e.0 j ≡ false) m
      → lookup k m ≡ some v
      → lookup k ((j, w) ∷ m) ≡ some v
  unfolding lookup
  lookup_past k j v w [] a h = cc
  lookup_past k j v w ((i, x) ∷ m) a h =
      ground (arith, str_eq_iff i k, str_eq_iff j k, str_eq_iff i j, lookup_past k j v w m a.1)

  pub lookup_of_mem :
      (v : V) (m : List (String × V))
      → Unique m
      → Memᴰ v (map (λ e. e.1) m)
      → (k : String) × (lookup k m ≡ some v)
  unfolding lookup
  lookup_of_mem v [] u h = elim h [ ]
  lookup_of_mem v ((j, w) ∷ m) u (Memᴰ.head e) = (j, ground (arith, str_eq_iff j j))
  lookup_of_mem v ((j, w) ∷ m) u (Memᴰ.tail h) =
      let (k, found) = lookup_of_mem v m u.1 h in (k, lookup_past k j v w m u.0 found)

module _ {ℓ κ} {V : Type ℓ} {W : Type κ} (f : V → W) where
  pub lookup-map :
      (k : String) (m : List (String × V))
      → lookup k (map (λ e. (e.0, f e.1)) m) ≡ Option.map f (lookup k m)
  unfolding lookup
  lookup-map k [] = refl
  lookup-map k ((j, v) ∷ m) = ground (arith, lookup-map k m)

  pub Unique-map : (m : List (String × V)) → Unique m → Unique {V = W} (map (λ e. (e.0, f e.1)) m)
  Unique-map [] u = tt
  Unique-map ((k, v) ∷ m) u = (others m u.0, Unique-map m u.1)
    where
      others :
          (m : List (String × V))
          → All (λ (e : String × V). str_eq e.0 k ≡ false) m
          → All (λ (e : String × W). str_eq e.0 k ≡ false) (map (λ e. (e.0, f e.1)) m)
      others [] h = tt
      others (e ∷ m) h = (h.0, others m h.1)

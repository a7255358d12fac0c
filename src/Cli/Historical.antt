-- ===== src/Cli/Historical.antt =====
-- The names of the historical emitters in crates/hookbox-cli/src/commands/replay.rs.
use mathlib.Core.List.{Memᴰ}
use hookbox.Prelude.{
  String, Bool, true, false, List, [], ◌∷◌, map, not, ◌≡◌, ◌↔◌, inl, inr, All, Bool-cases, subst,
  select, order_by, insert_by, if◌then◌else◌,
}
use hookbox.Domain.{WebhookDelivery}
use hookbox.Cli.Names.{has_name, has_name-Mem}

abbrev pub names_of : List WebhookDelivery → List String
names_of ds = map (λ (d : WebhookDelivery). d.emitter_name) ds

-- ORDER BY neither adds a name nor loses one.
module _ {A : Type 0} (f : A → String) (before : A → A → Bool) where
  mem_insert :
      (n : String) (x : A) (xs : List A)
      → Memᴰ n (map f (insert_by before x xs)) ↔ Memᴰ n (f x ∷ map f xs)
  unfolding insert_by
  mem_insert n x [] = ((λ h. h), λ h. h)
  mem_insert n x (y ∷ ys) = place (before x y) (mem_insert n x ys)
    where
      swap : {a b : String} {zs : List String} → Memᴰ n (a ∷ b ∷ zs) → Memᴰ n (b ∷ a ∷ zs)
      swap (Memᴰ.head e) = Memᴰ.tail (Memᴰ.head e)
      swap (Memᴰ.tail (Memᴰ.head e)) = Memᴰ.head e
      swap (Memᴰ.tail (Memᴰ.tail t)) = Memᴰ.tail (Memᴰ.tail t)

      under :
          {a : String} {zs ws : List String}
          → (Memᴰ n zs → Memᴰ n ws)
          → Memᴰ n (a ∷ zs)
          → Memᴰ n (a ∷ ws)
      under g (Memᴰ.head e) = Memᴰ.head e
      under g (Memᴰ.tail t) = Memᴰ.tail (g t)

      place :
          (b : Bool)
          → Memᴰ n (map f (insert_by before x ys)) ↔ Memᴰ n (f x ∷ map f ys)
          → Memᴰ n (map f (if b then x ∷ y ∷ ys else y ∷ insert_by before x ys))
            ↔ Memᴰ n (f x ∷ f y ∷ map f ys)
      place true ih = ((λ h. h), λ h. h)
      place false ih = ((λ h. swap (under ih.0 h)), λ h. under ih.1 (swap h))

  pub mem_order :
      (n : String) (xs : List A) → Memᴰ n (map f (order_by before xs)) ↔ Memᴰ n (map f xs)
  unfolding order_by
  mem_order n [] = ((λ h. h), λ h. h)
  mem_order n (x ∷ xs) = (to (mem_order n xs).0, from (mem_order n xs).1)
    where
      to :
          (Memᴰ n (map f (order_by before xs)) → Memᴰ n (map f xs))
          → Memᴰ n (map f (insert_by before x (order_by before xs)))
          → Memᴰ n (f x ∷ map f xs)
      to ih h = elim ((mem_insert n x (order_by before xs)).0 h) [
        | Memᴰ.head e ↦ Memᴰ.head e
        | Memᴰ.tail t ↦ Memᴰ.tail (ih t)
      ]

      from :
          (Memᴰ n (map f xs) → Memᴰ n (map f (order_by before xs)))
          → Memᴰ n (f x ∷ map f xs)
          → Memᴰ n (map f (insert_by before x (order_by before xs)))
      from ih (Memᴰ.head e) = (mem_insert n x (order_by before xs)).1 (Memᴰ.head e)
      from ih (Memᴰ.tail t) = (mem_insert n x (order_by before xs)).1 (Memᴰ.tail (ih t))

-- Every name that is left out by the search for stale ones is configured.
pub none_stale :
    (configured names : List String)
    → select (λ n. not (has_name configured n)) names ≡ []
    → All (λ n. Memᴰ n configured) names
none_stale configured [] h = tt
none_stale configured (n ∷ ns) h = elim (Bool-cases (has_name configured n)) [
  | inl e ↦ (
    has_name-Mem configured n e,
    none_stale configured ns (
        subst
          (λ b.
            (if not b
              then n ∷ select (λ n. not (has_name configured n)) ns
              else select (λ n. not (has_name configured n)) ns)
            ≡ [])
          e h),
  )
  | inr e ↦ cc (
      subst
        (λ b.
          (if not b
            then n ∷ select (λ n. not (has_name configured n)) ns
            else select (λ n. not (has_name configured n)) ns)
          ≡ [])
        e h)
]

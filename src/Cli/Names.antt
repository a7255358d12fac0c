-- ===== src/Cli/Names.antt =====
-- The `BTreeSet<String>` of crates/hookbox-cli/src/commands/replay.rs: the names in order, each
-- once.
use Prim.Native.Nat.{Ordering}
use Prim.Native.String.{String, compare}
use text.Mathlib.TextEquality.{path_by_compare}
use mathlib.Core.List.{Memᴰ}
use hookbox.Prelude.{
  List, [], ◌∷◌, ◌≡◌, ◌⊎◌, inl, inr, refl, Bool, true, any, str_eq, str_eq_iff, arith, Bool-cases,
  sym, ◌∙◌, ◌↔◌,
}

unfoldable pub insert : String → List String → List String
insert n [] = n ∷ []
insert n (m ∷ ms) =
    let rest = insert n ms in
    elim (compare n m) [ Ordering.lt ↦ n ∷ m ∷ ms | Ordering.eq ↦ m ∷ ms | Ordering.gt ↦ m ∷ rest ]

-- `collect()`.
unfoldable pub name_set : List String → List String
unfolding insert
name_set [] = []
name_set (n ∷ ns) = insert n (name_set ns)

abbrev pub has_name : List String → String → Bool
has_name names n = any (λ m. str_eq m n) names

pub has_name-Mem : (names : List String) (n : String) → has_name names n ≡ true → Memᴰ n names
has_name-Mem [] n h = cc h
has_name-Mem (m ∷ ms) n h = elim (Bool-cases (str_eq m n)) [
  | inl e ↦ Memᴰ.head (sym ((str_eq_iff m n).0 e))
  | inr e ↦ Memᴰ.tail (has_name-Mem ms n (ground (arith, e, h)))
]

mem_insert : (x n : String) (ms : List String) → Memᴰ x (insert n ms) ↔ ((x ≡ n) ⊎ Memᴰ x ms)
unfolding insert
mem_insert x n [] = (
  (λ h. elim h [ Memᴰ.head e ↦ inl e | Memᴰ.tail t ↦ elim t [ ] ]),
  λ h. elim h [ inl e ↦ Memᴰ.head e | inr t ↦ Memᴰ.tail t ],
)
mem_insert x n (m ∷ ms) = split (compare n m) (path_by_compare n m) (mem_insert x n ms)
  where
    lt_to : Memᴰ x (n ∷ m ∷ ms) → (x ≡ n) ⊎ Memᴰ x (m ∷ ms)
    lt_to (Memᴰ.head e) = inl e
    lt_to (Memᴰ.tail t) = inr t

    lt_from : (x ≡ n) ⊎ Memᴰ x (m ∷ ms) → Memᴰ x (n ∷ m ∷ ms)
    lt_from (inl e) = Memᴰ.head e
    lt_from (inr t) = Memᴰ.tail t

    eq_to : n ≡ m → Memᴰ x (m ∷ ms) → (x ≡ n) ⊎ Memᴰ x (m ∷ ms)
    eq_to q t = inr t

    eq_from : n ≡ m → (x ≡ n) ⊎ Memᴰ x (m ∷ ms) → Memᴰ x (m ∷ ms)
    eq_from q (inl e) = Memᴰ.head (e ∙ q)
    eq_from q (inr t) = t

    gt_to :
        Memᴰ x (insert n ms) ↔ ((x ≡ n) ⊎ Memᴰ x ms)
        → Memᴰ x (m ∷ insert n ms)
        → (x ≡ n) ⊎ Memᴰ x (m ∷ ms)
    gt_to ih (Memᴰ.head e) = inr (Memᴰ.head e)
    gt_to ih (Memᴰ.tail t) = elim (ih.0 t) [ inl e ↦ inl e | inr u ↦ inr (Memᴰ.tail u) ]

    gt_from :
        Memᴰ x (insert n ms) ↔ ((x ≡ n) ⊎ Memᴰ x ms)
        → (x ≡ n) ⊎ Memᴰ x (m ∷ ms)
        → Memᴰ x (m ∷ insert n ms)
    gt_from ih (inl e) = Memᴰ.tail (ih.1 (inl e))
    gt_from ih (inr (Memᴰ.head e)) = Memᴰ.head e
    gt_from ih (inr (Memᴰ.tail t)) = Memᴰ.tail (ih.1 (inr t))

    split :
        (o : Ordering)
        → (o ≡ Ordering.eq → n ≡ m)
        → Memᴰ x (insert n ms) ↔ ((x ≡ n) ⊎ Memᴰ x ms)
        → Memᴰ x (elim o [
          | Ordering.lt ↦ n ∷ m ∷ ms
          | Ordering.eq ↦ m ∷ ms
          | Ordering.gt ↦ m ∷ insert n ms
        ])
          ↔ ((x ≡ n) ⊎ Memᴰ x (m ∷ ms))
    split Ordering.lt same ih = (lt_to, lt_from)
    split Ordering.eq same ih = (eq_to (same refl), eq_from (same refl))
    split Ordering.gt same ih = (gt_to ih, gt_from ih)

-- The set has the names of the list.
pub mem_name_set : (x : String) (ns : List String) → Memᴰ x (name_set ns) ↔ Memᴰ x ns
unfolding name_set
mem_name_set x [] = ((λ h. h), λ h. h)
mem_name_set x (n ∷ ns) = (to (mem_name_set x ns).0, from (mem_name_set x ns).1)
  where
    to : (Memᴰ x (name_set ns) → Memᴰ x ns) → Memᴰ x (insert n (name_set ns)) → Memᴰ x (n ∷ ns)
    to ih h = elim ((mem_insert x n (name_set ns)).0 h) [
      | inl e ↦ Memᴰ.head e
      | inr t ↦ Memᴰ.tail (ih t)
    ]

    from : (Memᴰ x ns → Memᴰ x (name_set ns)) → Memᴰ x (n ∷ ns) → Memᴰ x (insert n (name_set ns))
    from ih (Memᴰ.head e) = (mem_insert x n (name_set ns)).1 (inl e)
    from ih (Memᴰ.tail t) = (mem_insert x n (name_set ns)).1 (inr (ih t))

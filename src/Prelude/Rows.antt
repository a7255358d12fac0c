-- ===== src/Prelude/Rows.antt =====
-- Facts on tables: who is in the result of a statement, and how rows evolve.
use Prim.Native.Nat.{ℕ, zero, suc}
use mathlib.Core.Bool.{Bool, true, false, ◌||◌}
use mathlib.Core.List.{List, [], ◌∷◌, ◌++◌, Memᴰ}
use mathlib.Core.Logic.{◌⊎◌, inl, inr}
use mathlib.Core.Path.{subst, ◌≡◌, refl, sym, ap, ◌∙◌}
use native.Mathlib.Omega.{arith}
use hookbox.Prelude.Tests.{if◌then◌else◌, ◌==◌}
use hookbox.Prelude.Lists.{All, any, take}
use hookbox.Prelude.Tables.{select, update_where, insert_by, order_by}

module _ {ℓ} {A : Type ℓ} where
  pub mem_select :
      (p : A → Bool) (x : A) (xs : List A) → Memᴰ x (select p xs) → Memᴰ x xs × (p x ≡ true)
  mem_select p x [] m = elim m [ ]
  mem_select p x (y ∷ ys) m = split (p y) refl (mem_select p x ys) m
    where
      split :
          (b : Bool)
          → p y ≡ b
          → (Memᴰ x (select p ys) → Memᴰ x ys × (p x ≡ true))
          → Memᴰ x (if b then y ∷ select p ys else select p ys)
          → Memᴰ x (y ∷ ys) × (p x ≡ true)
      split true e ih (Memᴰ.head h) = (Memᴰ.head h, ap p h ∙ e)
      split true e ih (Memᴰ.tail t) = let (n, q) = ih t in (Memᴰ.tail n, q)
      split false e ih t = let (n, q) = ih t in (Memᴰ.tail n, q)

  pub mem_take : (n : ℕ) (x : A) (xs : List A) → Memᴰ x (take n xs) → Memᴰ x xs
  mem_take zero x xs m = elim m [ ]
  mem_take (suc n) x [] m = elim m [ ]
  mem_take (suc n) x (y ∷ ys) (Memᴰ.head h) = Memᴰ.head h
  mem_take (suc n) x (y ∷ ys) (Memᴰ.tail t) = Memᴰ.tail (mem_take n x ys t)

  mem_insert_by :
      (before : A → A → Bool) (x y : A) (ys : List A)
      → Memᴰ x (insert_by before y ys)
      → (x ≡ y) ⊎ Memᴰ x ys
  unfolding insert_by
  mem_insert_by before x y [] (Memᴰ.head h) = inl h
  mem_insert_by before x y [] (Memᴰ.tail t) = elim t [ ]
  mem_insert_by before x y (z ∷ zs) m = split (before y z) (mem_insert_by before x y zs) m
    where
      split :
          (b : Bool)
          → (Memᴰ x (insert_by before y zs) → (x ≡ y) ⊎ Memᴰ x zs)
          → Memᴰ x (if b then y ∷ z ∷ zs else z ∷ insert_by before y zs)
          → (x ≡ y) ⊎ Memᴰ x (z ∷ zs)
      split true ih (Memᴰ.head h) = inl h
      split true ih (Memᴰ.tail t) = inr t
      split false ih (Memᴰ.head h) = inr (Memᴰ.head h)
      split false ih (Memᴰ.tail t) = elim (ih t) [ inl e ↦ inl e | inr u ↦ inr (Memᴰ.tail u) ]

  pub mem_order_by :
      (before : A → A → Bool) (x : A) (xs : List A) → Memᴰ x (order_by before xs) → Memᴰ x xs
  unfolding order_by
  mem_order_by before x [] m = elim m [ ]
  mem_order_by before x (y ∷ ys) m = elim (mem_insert_by before x y (order_by before ys) m) [
    | inl e ↦ Memᴰ.head e
    | inr t ↦ Memᴰ.tail (mem_order_by before x ys t)
  ]

  pub mem_any : (p : A → Bool) (xs : List A) → any p xs ≡ true → (x : A) × Memᴰ x xs × (p x ≡ true)
  mem_any p [] h = absurd (ground arith)
  mem_any p (x ∷ xs) h = split (p x) refl (mem_any p xs) h
    where
      split :
          (b : Bool)
          → p x ≡ b
          → (any p xs ≡ true → (y : A) × Memᴰ y xs × (p y ≡ true))
          → b || any p xs ≡ true
          → (y : A) × Memᴰ y (x ∷ xs) × (p y ≡ true)
      split true e ih h = (x, Memᴰ.head refl, e)
      split false e ih h = let (y, m, q) = ih h in (y, Memᴰ.tail m, q)

  pub not_any : (p : A → Bool) (x : A) (xs : List A) → any p xs ≡ false → Memᴰ x xs → p x ≡ false
  not_any p x (y ∷ ys) h (Memᴰ.head e) = ap p e ∙ ground arith
  not_any p x (y ∷ ys) h (Memᴰ.tail t) = not_any p x ys (ground arith) t
  not_any p x [] h m = elim m [ ]

  pub All_mem {κ} : (P : A → Type κ) (x : A) (xs : List A) → All P xs → Memᴰ x xs → P x
  All_mem P x (y ∷ ys) a (Memᴰ.head e) = subst P (sym e) a.0
  All_mem P x (y ∷ ys) a (Memᴰ.tail t) = All_mem P x ys a.1 t
  All_mem P x [] a m = elim m [ ]

  -- A column of different numbers.
  abbrev pub Distinct : (A → ℕ) → List A → Type 0
  Distinct key [] = Unit
  Distinct key (x ∷ xs) = (any (λ y. key y == key x) xs ≡ false) × Distinct key xs

  pub eq_of_Distinct :
      (key : A → ℕ) (x y : A) (xs : List A)
      → Distinct key xs
      → Memᴰ x xs
      → Memᴰ y xs
      → key x ≡ key y
      → x ≡ y
  eq_of_Distinct key x y (z ∷ zs) d (Memᴰ.head e) (Memᴰ.head f) k = e ∙ sym f
  eq_of_Distinct key x y (z ∷ zs) d (Memᴰ.head e) (Memᴰ.tail t) k =
      absurd (ground (arith, not_any (λ w. key w == key z) y zs d.0 t, ap key e))
  eq_of_Distinct key x y (z ∷ zs) d (Memᴰ.tail t) (Memᴰ.head f) k =
      absurd (ground (arith, not_any (λ w. key w == key z) x zs d.0 t, ap key f))
  eq_of_Distinct key x y (z ∷ zs) d (Memᴰ.tail s) (Memᴰ.tail t) k =
      eq_of_Distinct key x y zs d.1 s t k
  eq_of_Distinct key x y [] d m n k = elim m [ ]

  -- An update that leaves a test alone.
  pub any-update_where :
      (q p : A → Bool) (f : A → A) (xs : List A)
      → ((x : A) → q (f x) ≡ q x)
      → any q (update_where p f xs) ≡ any q xs
  any-update_where q p f [] h = refl
  any-update_where q p f (x ∷ xs) h = ground (arith, h x, any-update_where q p f xs h)

  pub Distinct-update_where :
      (key : A → ℕ) (p : A → Bool) (f : A → A) (xs : List A)
      → ((x : A) → key (f x) ≡ key x)
      → Distinct key xs
      → Distinct key (update_where p f xs)
  Distinct-update_where key p f [] h d = tt
  Distinct-update_where key p f (x ∷ xs) h d = (
    any-update_where (λ y. key y == key (if p x then f x else x)) p f xs
          (λ y. ap (λ (n : ℕ). n == key (if p x then f x else x)) (h y))
        ∙ subst (λ (n : ℕ). any (λ y. key y == n) xs ≡ false) (same x) d.0,
    Distinct-update_where key p f xs h d.1,
  )
    where
      same : (x : A) → key x ≡ key (if p x then f x else x)
      same x = ground (arith, h x)

  pub any-append : (p : A → Bool) (xs ys : List A) → any p (xs ++ ys) ≡ (any p xs || any p ys)
  any-append p [] ys = refl
  any-append p (x ∷ xs) ys = ground (arith, any-append p xs ys)

  -- A row whose number is not in the column yet.
  pub Distinct-snoc :
      (key : A → ℕ) (xs : List A) (y : A)
      → any (λ x. key x == key y) xs ≡ false
      → Distinct key xs
      → Distinct key (xs ++ y ∷ [])
  Distinct-snoc key [] y n d = (refl, tt)
  Distinct-snoc key (x ∷ xs) y n d = (
    any-append (λ z. key z == key x) xs (y ∷ []) ∙ ground arith,
    Distinct-snoc key xs y (ground arith) d.1,
  )

  -- Each row moves as `R` allows, none is lost, and those that come after are new.
  abbrev pub Evolves : (A → A → Type 0) → (A → Type 0) → List A → List A → Type 0
  Evolves R New [] ys = All New ys
  Evolves R New (x ∷ xs) [] = ⊥
  Evolves R New (x ∷ xs) (y ∷ ys) = R x y × Evolves R New xs ys

  pub update_where-Evolves :
      (R : A → A → Type 0) (New : A → Type 0) (p : A → Bool) (f : A → A) (xs : List A)
      → ((x : A) → Memᴰ x xs → R x (if p x then f x else x))
      → Evolves R New xs (update_where p f xs)
  update_where-Evolves R New p f [] h = tt
  update_where-Evolves R New p f (x ∷ xs) h =
      (h x (Memᴰ.head refl), update_where-Evolves R New p f xs (λ y m. h y (Memᴰ.tail m)))

  pub append-Evolves :
      (R : A → A → Type 0) (New : A → Type 0) (xs ys : List A)
      → ((x : A) → R x x)
      → All New ys
      → Evolves R New xs (xs ++ ys)
  append-Evolves R New [] ys h a = a
  append-Evolves R New (x ∷ xs) ys h a = (h x, append-Evolves R New xs ys h a)

  -- The row at a place after an evolution.
  pub Evolves-at :
      (R : A → A → Type 0) (New : A → Type 0) (x : A) (xs ys : List A)
      → Evolves R New xs ys
      → Memᴰ x xs
      → (y : A) × Memᴰ y ys × R x y
  Evolves-at R New x (z ∷ xs) (y ∷ ys) e (Memᴰ.head h) =
      (y, Memᴰ.head refl, subst (λ w. R w y) (sym h) e.0)
  Evolves-at R New x (z ∷ xs) (y ∷ ys) e (Memᴰ.tail t) =
      let (w, m, r) = Evolves-at R New x xs ys e.1 t in (w, Memᴰ.tail m, r)
  Evolves-at R New x (z ∷ xs) [] e m = elim e [ ]
  Evolves-at R New x [] ys e m = elim m [ ]

  pub All-update_where :
      (P : A → Type 0) (p : A → Bool) (f : A → A) (xs : List A)
      → ((x : A) → Memᴰ x xs → p x ≡ true → P x → P (f x))
      → All P xs
      → All P (update_where p f xs)
  All-update_where P p f [] h a = tt
  All-update_where P p f (x ∷ xs) h a = (
    split (p x) (λ e. h x (Memᴰ.head refl) e a.0),
    All-update_where P p f xs (λ y m. h y (Memᴰ.tail m)) a.1,
  )
    where
      split : (b : Bool) → (b ≡ true → P (f x)) → P (if b then f x else x)
      split true g = g refl
      split false g = a.0

-- ===== src/Providers/Fields.antt =====
-- The loops over the signature headers of stripe.rs and triplea_crypto.rs: the comma-separated
-- fields, and the search for a signature that matches.
use mathlib.Core.List.Memᴰ as Mem
use mathlib.Core.List.{Memᴰ}
use hookbox.Prelude.{
  ap, ◌∙◌, refl, subst, sym, ℕ, List, [], ◌∷◌, ◌++◌, Option, none, some, Bool, true, false, ◌≡◌,
  ◌↔◌, All, ◌⊎◌, inl, inr, ◌≢◌, if◌then◌else◌, Option-cases, Bool-cases,
}
use hookbox.Providers.Crypto.{Crypto, ComparesBytes}
use hookbox.Providers.Text.{strip_prefix, split, strip_prefix_iff}

abbrev pub t_equals : List ℕ
t_equals = b't' ∷ b'=' ∷ []

abbrev pub v1_equals : List ℕ
v1_equals = b'v' ∷ b'1' ∷ b'=' ∷ []

-- The last `t=` field so far, and every `v1=` field in order.
unfoldable pub field : List ℕ → Option (List ℕ) → List (List ℕ) → Option (List ℕ) × List (List ℕ)
field part timestamp sigs = elim (strip_prefix t_equals part) [
  | some ts ↦ (some ts, sigs)
  | none ↦ elim (strip_prefix v1_equals part) [
    | some sig ↦ (timestamp, sigs ++ (sig ∷ []))
    | none ↦ (timestamp, sigs)
  ]
]

unfoldable pub fields :
    List (List ℕ) → Option (List ℕ) × List (List ℕ) → Option (List ℕ) × List (List ℕ)
unfolding field
fields [] acc = acc
fields (part ∷ parts) acc = fields parts (field part acc.0 acc.1)

unfoldable pub signature_fields : List ℕ → Option (List ℕ) × List (List ℕ)
unfolding fields
signature_fields text = fields (split b',' text) (none, [])

-- A malformed signature is passed over.
unfoldable pub any_matches :
    {Headers Key Signature : Type 0} → Crypto Headers Key Signature → List ℕ → List (List ℕ) → Bool
any_matches p expected [] = false
any_matches p expected (sig ∷ sigs) =
    let rest = any_matches p expected sigs in
    elim (p.hex_decode sig) [
      | none ↦ rest
      | some provided ↦ if p.ct_eq expected provided then true else rest
    ]

abbrev pub is_empty : List (List ℕ) → Bool
is_empty [] = true
is_empty (sig ∷ sigs) = false

-- The field of that prefix which no later one of the prefix replaces.
pub data LastField (pre value : List ℕ) : List (List ℕ) → Type 0 where
  here :
      {after : List (List ℕ)}
      → All (λ part. strip_prefix pre part ≡ none) after
      → LastField pre value ((pre ++ value) ∷ after)
  there :
      {part : List ℕ} {parts : List (List ℕ)}
      → LastField pre value parts
      → LastField pre value (part ∷ parts)

unfoldable pub NoneLater : List (List ℕ) → Type 0
NoneLater parts = All (λ part. strip_prefix t_equals part ≡ none) parts

not_t_equals : (sig : List ℕ) → strip_prefix t_equals (v1_equals ++ sig) ≡ none
unfolding strip_prefix
not_t_equals sig = refl

pub some_inj : {x y : List ℕ} → some x ≡ some y → x ≡ y
some_inj h = cc

-- What one field does to the timestamp, and to the signatures.
field-timestamp :
    (part ts : List ℕ) (t : Option (List ℕ)) (sigs : List (List ℕ))
    → ((field part t sigs).0 ≡ some ts)
      ↔ ((part ≡ t_equals ++ ts) ⊎ ((strip_prefix t_equals part ≡ none) × (t ≡ some ts)))
unfolding field
field-timestamp part ts t sigs = elim (Option-cases (strip_prefix t_equals part)) [
  | inl e ↦ elim (Option-cases (strip_prefix v1_equals part)) [
    | inl f ↦ rw (e, f, field) (λ h. inr (refl, h), kept e)
    | inr (x, f) ↦ rw (e, f, field) (λ h. inr (refl, h), kept e)
  ]
  | inr (x, e) ↦
      rw (e, field)
        (
          λ h. inl ((strip_prefix_iff t_equals part ts).0 (e ∙ h)),
          λ h. elim h [
            | inl q ↦ sym e ∙ (strip_prefix_iff t_equals part ts).1 q
            | inr (n, _) ↦ cc n
          ],
        )
]
  where
    kept :
        {A : Type 0}
        → strip_prefix t_equals part ≡ none
        → (part ≡ t_equals ++ ts) ⊎ (A × (t ≡ some ts))
        → t ≡ some ts
    kept e (inl q) = cc ((strip_prefix_iff t_equals part ts).1 q, e)
    kept e (inr (_, h)) = h

field-Mem :
    (part sig : List ℕ) (t : Option (List ℕ)) (sigs : List (List ℕ))
    → Memᴰ sig (field part t sigs).1 ↔ (Memᴰ sig sigs ⊎ (part ≡ v1_equals ++ sig))
unfolding field
field-Mem part sig t sigs = elim (Option-cases (strip_prefix t_equals part)) [
  | inr (x, e) ↦
      rw (e, field)
        (
          inl,
          λ h. elim h [
            | inl m ↦ m
            | inr q ↦ cc (subst (λ y. strip_prefix t_equals y ≡ some x) q e, not_t_equals sig)
          ],
        )
  | inl e ↦ elim (Option-cases (strip_prefix v1_equals part)) [
    | inl f ↦
        rw (e, f, field)
          (
            inl,
            λ h. elim h [ inl m ↦ m | inr q ↦ cc ((strip_prefix_iff v1_equals part sig).1 q, f) ],
          )
    | inr (x, f) ↦ rw (e, f, field) (last_or x f, in_front x f)
  ]
]
  where
    last_or :
        (x : List ℕ)
        → strip_prefix v1_equals part ≡ some x
        → Memᴰ sig (sigs ++ (x ∷ []))
        → Memᴰ sig sigs ⊎ (part ≡ v1_equals ++ sig)
    last_or x f m = elim (Mem.append_cases sigs m) [
      | inl m' ↦ inl m'
      | inr m' ↦
          inr ((strip_prefix_iff v1_equals part sig).0 (f ∙ ap some (sym (Mem.eq_of_singleton m'))))
    ]

    in_front :
        (x : List ℕ)
        → strip_prefix v1_equals part ≡ some x
        → Memᴰ sig sigs ⊎ (part ≡ v1_equals ++ sig)
        → Memᴰ sig (sigs ++ (x ∷ []))
    in_front x f (inl m) = Mem.append_left (x ∷ []) m
    in_front x f (inr q) =
        Mem.append_right sigs
          (Memᴰ.head (some_inj (sym ((strip_prefix_iff v1_equals part sig).1 q) ∙ f)))

pub fields-LastField :
    (ts : List ℕ) (parts : List (List ℕ)) (acc : Option (List ℕ) × List (List ℕ))
    → (fields parts acc).0 ≡ some ts
    → LastField t_equals ts parts ⊎ ((acc.0 ≡ some ts) × NoneLater parts)
unfolding fields NoneLater
fields-LastField ts [] acc h = inr (h, tt)
fields-LastField ts (part ∷ parts) acc h =
    elim (fields-LastField ts parts (field part acc.0 acc.1) h) [
      | inl l ↦ inl (LastField.there l)
      | inr (e, n) ↦ elim ((field-timestamp part ts acc.0 acc.1).0 e) [
        | inl at ↦ inl (subst (λ x. LastField t_equals ts (x ∷ parts)) (sym at) (LastField.here n))
        | inr (no_t, e') ↦ inr (e', (no_t, n))
      ]
    ]

fields_keep :
    (ts : List ℕ) (parts : List (List ℕ)) (acc : Option (List ℕ) × List (List ℕ))
    → acc.0 ≡ some ts
    → NoneLater parts
    → (fields parts acc).0 ≡ some ts
unfolding fields NoneLater
fields_keep ts [] acc e n = e
fields_keep ts (part ∷ parts) acc e n =
    fields_keep ts parts (field part acc.0 acc.1)
      ((field-timestamp part ts acc.0 acc.1).1 (inr (n.0, e))) n.1

pub LastField-fields :
    (ts : List ℕ) (parts : List (List ℕ)) (acc : Option (List ℕ) × List (List ℕ))
    → LastField t_equals ts parts
    → (fields parts acc).0 ≡ some ts
unfolding fields NoneLater
LastField-fields ts (_ ∷ after) acc (LastField.here n) =
    fields_keep ts after (field (t_equals ++ ts) acc.0 acc.1)
      ((field-timestamp (t_equals ++ ts) ts acc.0 acc.1).1 (inl refl)) n
LastField-fields ts (part ∷ parts) acc (LastField.there l) =
    LastField-fields ts parts (field part acc.0 acc.1) l
LastField-fields ts [] acc l = elim l [ ]

pub fields-Mem :
    (sig : List ℕ) (parts : List (List ℕ)) (acc : Option (List ℕ) × List (List ℕ))
    → Memᴰ sig (fields parts acc).1
    → Memᴰ sig acc.1 ⊎ Memᴰ (v1_equals ++ sig) parts
unfolding fields
fields-Mem sig [] acc h = inl h
fields-Mem sig (part ∷ parts) acc h = elim (fields-Mem sig parts (field part acc.0 acc.1) h) [
  | inr m ↦ inr (Memᴰ.tail m)
  | inl m ↦ elim ((field-Mem part sig acc.0 acc.1).0 m) [
    | inl m' ↦ inl m'
    | inr e ↦ inr (Memᴰ.head (sym e))
  ]
]

pub Mem-fields :
    (sig : List ℕ) (parts : List (List ℕ)) (acc : Option (List ℕ) × List (List ℕ))
    → Memᴰ sig acc.1 ⊎ Memᴰ (v1_equals ++ sig) parts
    → Memᴰ sig (fields parts acc).1
unfolding fields
Mem-fields sig [] acc (inl m) = m
Mem-fields sig [] acc (inr m) = elim m [ ]
Mem-fields sig (part ∷ parts) acc (inl m) =
    Mem-fields sig parts (field part acc.0 acc.1) (inl ((field-Mem part sig acc.0 acc.1).1 (inl m)))
Mem-fields sig (part ∷ parts) acc (inr (Memᴰ.head e)) =
    Mem-fields sig parts (field part acc.0 acc.1)
      (inl ((field-Mem part sig acc.0 acc.1).1 (inr (sym e))))
Mem-fields sig (part ∷ parts) acc (inr (Memᴰ.tail m)) =
    Mem-fields sig parts (field part acc.0 acc.1) (inr m)

-- A signature of the list decodes to the expected bytes.
pub any_matches_iff :
    {Headers Key Signature : Type 0} (p : Crypto Headers Key Signature) (expected : List ℕ)
    → ComparesBytes p
    → (sigs : List (List ℕ))
    → (any_matches p expected sigs ≡ true)
      ↔ ((sig : List ℕ) × Memᴰ sig sigs × (p.hex_decode sig ≡ some expected))
unfolding any_matches ComparesBytes
any_matches_iff p expected law [] = (λ h. cc, λ m. elim m.1 [ ])
any_matches_iff p expected law (sig ∷ sigs) =
    let ih = any_matches_iff p expected law sigs in
    elim (Option-cases (p.hex_decode sig)) [
      | inl e ↦ rw (e, any_matches) (λ h. past (ih.0 h), λ m. ih.1 (other m λ e'. cc (e, e')))
      | inr (provided, e) ↦ elim (Bool-cases (p.ct_eq expected provided)) [
        | inl c ↦
            rw (e, c, any_matches)
              (
                λ _. (sig, Memᴰ.head refl, e ∙ ap some (sym ((law expected provided).0 c))),
                λ _. refl,
              )
        | inr c ↦
            rw (e, c, any_matches)
              (
                λ h. past (ih.0 h),
                λ m. ih.1 (other m λ e'. cc ((law expected provided).1 (some_inj (sym e' ∙ e)), c)),
              )
      ]
    ]
  where
    past :
        ((s : List ℕ) × Memᴰ s sigs × (p.hex_decode s ≡ some expected))
        → (s : List ℕ) × Memᴰ s (sig ∷ sigs) × (p.hex_decode s ≡ some expected)
    past (s, m, e) = (s, Memᴰ.tail m, e)

    other :
        ((s : List ℕ) × Memᴰ s (sig ∷ sigs) × (p.hex_decode s ≡ some expected))
        → (p.hex_decode sig ≢ some expected)
        → (s : List ℕ) × Memᴰ s sigs × (p.hex_decode s ≡ some expected)
    other (s, Memᴰ.head q, e) n = absurd (n (subst (λ y. p.hex_decode y ≡ some expected) q e))
    other (s, Memᴰ.tail m, e) n = (s, m, e)

pub any_matches-is_empty :
    {Headers Key Signature : Type 0} (p : Crypto Headers Key Signature) (expected : List ℕ)
    (sigs : List (List ℕ))
    → any_matches p expected sigs ≡ true
    → is_empty sigs ≡ false
unfolding any_matches
any_matches-is_empty p expected [] h = cc
any_matches-is_empty p expected (sig ∷ sigs) h = refl

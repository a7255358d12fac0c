-- ===== src/Bootstrap/Steps.antt =====
-- What the steps of crates/hookbox-server/src/bootstrap.rs give where they succeed.
use hookbox.Prelude.{
  ◌∙◌, str_eq_iff, subst, if◌then◌else◌, Bool-cases, String, Option, none, some, Result, ok, err,
  ◌>>=◌, map_err, str_eq, ◌≡◌, ◌≢◌, inl, inr, refl, ap,
}
use hookbox.Bootstrap.Verifiers.{BootstrapError, non_empty, ok_or}

-- What `?` needs of the first step.
pub first_ok :
    {A B E : Type 0} (r : Result A E) (f : A → Result B E) (b : B)
    → (r >>= f) ≡ ok b
    → (a : A) × (r ≡ ok a) × (f a ≡ ok b)
first_ok (ok a) f b h = (a, refl, h)
first_ok (err e) f b h = cc h

pub ok_inj : {A E : Type 0} {a b : A} → ◌≡◌ {A = Result A E} (ok a) (ok b) → a ≡ b
ok_inj h = cc

pub ok_or-ok :
    {A : Type 0} (o : Option A) (e : BootstrapError) (a : A) → ok_or o e ≡ ok a → o ≡ some a
ok_or-ok none e a h = cc h
ok_or-ok (some b) e a h = ap some (ok_inj h)

pub non_empty-ok :
    (o : Option String) (e : BootstrapError) (s : String)
    → non_empty o e ≡ ok s
    → (o ≡ some s) × (s ≢ "")
unfolding non_empty
non_empty-ok none e s h = cc h
non_empty-ok (some t) e s h = elim (Bool-cases (str_eq t "")) [
  | inl y ↦ cc (subst (λ b. (if b then err e else ok t) ≡ ok s) y h)
  | inr n ↦
      let same = ok_inj (subst (λ b. (if b then err e else ok t) ≡ ok s) n h) in
      (ap some same, λ q. cc ((str_eq_iff t "").1 (same ∙ q), n))
]

pub some_inj : {A : Type 0} {a b : A} → some a ≡ some b → a ≡ b
some_inj h = cc

pub map_err-ok :
    {A E F : Type 0} (f : E → F) (r : Result A E) (a : A) → map_err f r ≡ ok a → r ≡ ok a
map_err-ok f (ok b) a h = ap ok (ok_inj h)
map_err-ok f (err e) a h = cc h

-- ===== src/Config/WellFormed.antt =====
-- What `validate_emitter_entries` of crates/hookbox-server/src/config.rs accepts.
use hookbox.Prelude.{
  ==_iff, ap, ℕ, pos, String, Option, none, some, Bool, true, false, List, [], ◌∷◌, Result, ok, err,
  ◌>>◌, str_eq, not, ◌≡◌, ◌≢◌, ◌↔◌, inl, inr, ◌≤◌, ◌||◌, ◌==◌, ltb_ℤ, any, arith, All, str_eq_iff,
  Bool-cases, refl, ◌≤ℤ◌,
}
use hookbox.Config.Backends.{Backend, validate_backend-Backend, Backend-validate_backend}
use hookbox.Config.Float.{less, zero_f64, one_f64}
use hookbox.Config.Emitters.{EmitterEntry}
use hookbox.Config.Names.{is_valid_emitter_name, IsName, is_valid_emitter_name-IsName}
use hookbox.Config.Validate.{
  ConfigError, Violation, forbid, is_zero_lease, validate_entry, validate_entries,
  validate_emitter_entries,
}

-- A jitter that is not a number passes both comparisons.
pub record WellFormed (e : EmitterEntry) : Type 0 where
  pub named : IsName e.name
  pub works : 1 ≤ e.concurrency
  pub polls : 1 ≤ e.poll_interval_seconds
  pub not_below : less e.retry.jitter zero_f64 ≡ false
  pub not_above : less one_f64 e.retry.jitter ≡ false
  pub tries : pos 1 ≤ℤ e.retry.max_attempts
  pub leases : e.lease_duration_seconds ≢ some 0
  pub backend : Backend e

-- No name stands twice, nor among those of `seen`.
pub DistinctNames : List String → List EmitterEntry → Type 0
DistinctNames seen [] = Unit
DistinctNames seen (e ∷ entries) =
    All (λ name. e.name ≢ name) seen × DistinctNames (e.name ∷ seen) entries

forbid_iff :
    {A : Type 0} (b : Bool) (v : Violation) (r : Result A ConfigError) (a : A)
    → ((forbid b v >> r) ≡ ok a) ↔ ((b ≡ false) × (r ≡ ok a))
unfolding forbid
forbid_iff true v r a = ((λ h. cc), λ h. cc (h.0))
forbid_iff false v r a = ((λ h. (refl, h)), λ h. h.1)

any_name :
    (name : String) (seen : List String)
    → (any (str_eq name) seen ≡ false) ↔ All (λ n. name ≢ n) seen
any_name name [] = (λ _. tt, λ _. refl)
any_name name (n ∷ seen) = ground (arith, str_eq_iff name n, any_name name seen)

lease_iff : (o : Option ℕ) → (is_zero_lease o ≡ false) ↔ (o ≢ some 0)
lease_iff none = ((λ h. λ e. cc e), λ n. refl)
lease_iff (some n) = (
  (λ h. λ e. cc ((==_iff n 0).1 (zeroth e), h)),
  λ m. elim (Bool-cases (n == 0)) [ inl z ↦ absurd (m (ap some ((==_iff n 0).0 z))) | inr f ↦ f ],
)
  where
    zeroth : some n ≡ some 0 → n ≡ 0
    zeroth e = cc

validate_entry-WellFormed :
    (seen : List String) (e : EmitterEntry)
    → validate_entry seen e ≡ ok tt
    → All (λ n. e.name ≢ n) seen × WellFormed e
unfolding validate_entry
validate_entry-WellFormed seen e h =
    let (named, h₁) = (forbid_iff (not (is_valid_emitter_name e.name)) _ _ tt).0 h in
    let (fresh, h₂) = (forbid_iff _ _ _ tt).0 h₁ in
    let (works, h₃) = (forbid_iff (e.concurrency == 0) _ _ tt).0 h₂ in
    let (polls, h₄) = (forbid_iff (e.poll_interval_seconds == 0) _ _ tt).0 h₃ in
    let (jitter, h₅) =
      (forbid_iff (less e.retry.jitter zero_f64 || less one_f64 e.retry.jitter) _ _ tt).0 h₄ in
    let (tries, h₆) = (forbid_iff (ltb_ℤ e.retry.max_attempts (pos 1)) _ _ tt).0 h₅ in
    let (leases, h₇) = (forbid_iff _ _ _ tt).0 h₆ in
    (
      (any_name e.name seen).0 fresh,
      record {
        named = (is_valid_emitter_name-IsName e.name).0 (ground (arith, named));
        works = ground (arith, works);
        polls = ground (arith, polls);
        not_below = ground (arith, jitter);
        not_above = ground (arith, jitter);
        tries = ground (arith, tries);
        leases = (lease_iff e.lease_duration_seconds).0 leases;
        backend = validate_backend-Backend e h₇;
      },
    )

WellFormed-validate_entry :
    (seen : List String) (e : EmitterEntry)
    → All (λ n. e.name ≢ n) seen
    → WellFormed e
    → validate_entry seen e ≡ ok tt
unfolding validate_entry
WellFormed-validate_entry seen e fresh w =
    (forbid_iff (not (is_valid_emitter_name e.name)) _ _ tt).1 (
      ap not ((is_valid_emitter_name-IsName e.name).1 w.named),
      (forbid_iff _ _ _ tt).1 (
        (any_name e.name seen).1 fresh,
        (forbid_iff (e.concurrency == 0) _ _ tt).1 (
          ground (arith, w.works),
          (forbid_iff (e.poll_interval_seconds == 0) _ _ tt).1 (
            ground (arith, w.polls),
            (forbid_iff (less e.retry.jitter zero_f64 || less one_f64 e.retry.jitter) _ _ tt).1 (
              ground (arith, w.not_below, w.not_above),
              (forbid_iff (ltb_ℤ e.retry.max_attempts (pos 1)) _ _ tt).1 (
                ground (arith, w.tries),
                (forbid_iff _ _ _ tt).1 (
                  (lease_iff e.lease_duration_seconds).1 w.leases,
                  Backend-validate_backend e w.backend,
                ),
              ),
            ),
          ),
        ),
      ),
    )

-- The loop accepts a list exactly when each entry is well-formed and no name stands twice.
validate_entries_iff :
    (seen : List String) (entries : List EmitterEntry)
    → (validate_entries seen entries ≡ ok tt)
      ↔ (All WellFormed entries × DistinctNames seen entries)
unfolding validate_entries DistinctNames
validate_entries_iff seen [] = ((λ _. (tt, tt)), λ _. refl)
validate_entries_iff seen (e ∷ entries) =
    let ih = validate_entries_iff (e.name ∷ seen) entries in
    let step = then_iff (validate_entry seen e) (validate_entries (e.name ∷ seen) entries) in
    (
      (λ h.
          let (first, rest) = step.0 h in
          let (fresh, w) = validate_entry-WellFormed seen e first in
          let (ws, distinct) = ih.0 rest in ((w, ws), (fresh, distinct))),
      λ ((w, ws), (fresh, distinct)).
          step.1 (WellFormed-validate_entry seen e fresh w, ih.1 (ws, distinct)),
    )
  where
    then_iff :
        (r s : Result (Unit {0}) ConfigError) → ((r >> s) ≡ ok tt) ↔ ((r ≡ ok tt) × (s ≡ ok tt))
    then_iff (ok _) s = ((λ h. (refl, h)), λ h. h.1)
    then_iff (err x) s = ((λ h. cc h), λ h. cc (h.0))

-- The validation accepts a list of entries exactly when each entry has a name of 1 to 64 letters,
-- digits, dashes and underscores, works, polls, tries and leases for at least 1, has a jitter that is
-- neither below 0 nor above 1, and has the section that its type, a known one, asks for, and no name
-- stands twice.
pub validate_emitter_entries-WellFormed :
    (entries : List EmitterEntry)
    → (validate_emitter_entries entries ≡ ok tt)
      ↔ (All WellFormed entries × DistinctNames [] entries)
unfolding validate_emitter_entries
validate_emitter_entries-WellFormed entries = validate_entries_iff [] entries

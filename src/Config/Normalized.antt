-- ===== src/Config/Normalized.antt =====
-- What `normalize` of crates/hookbox-server/src/config.rs gives.
use hookbox.Prelude.{
  subst, ◌∙◌, ap, String, Option, none, some, List, [], ◌∷◌, Result, ok, err, ◌>>◌, ◌>>=◌, ◌≡◌, ◌≢◌,
  ◌⊎◌, inl, inr, All, refl,
}
use hookbox.Config.Emitters.{
  EmitterConfig, EmitterEntry, HookboxConfig, from_legacy, default_entry, legacy_retry,
  default_retry_policy,
}
use hookbox.Config.Sections.{RetryConfig}
use hookbox.Config.Float.{two_f64, fifth_f64}
use hookbox.Config.Validate.{ConfigError, validate_emitter_entries}
use hookbox.Config.WellFormed.{WellFormed, DistinctNames, validate_emitter_entries-WellFormed}
use hookbox.Config.Normalize.{normalize, choose_section, with_emitters, deprecation}

-- The sections but those of the emitters.
pub record SameSections (c d : HookboxConfig) : Type 0 where
  pub server : d.server ≡ c.server
  pub database : d.database ≡ c.database
  pub providers : d.providers ≡ c.providers
  pub dedupe : d.dedupe ≡ c.dedupe
  pub admin : d.admin ≡ c.admin
  pub retry : d.retry ≡ c.retry

-- The entry for the legacy section under the global retry section; the numbers that neither holds
-- are the defaults of an entry.
pub record Upgrades (legacy : EmitterConfig) (global_retry : RetryConfig) (e : EmitterEntry)
    : Type 0 where
  pub named : e.name ≡ "default"
  pub same_type : e.emitter_type ≡ legacy.emitter_type
  pub kafka : e.kafka ≡ legacy.kafka
  pub nats : e.nats ≡ legacy.nats
  pub sqs : e.sqs ≡ legacy.sqs
  pub redis : e.redis ≡ legacy.redis
  pub interval : e.poll_interval_seconds ≡ global_retry.interval_seconds
  pub attempts : e.retry.max_attempts ≡ global_retry.max_attempts
  pub one_at_a_time : e.concurrency ≡ 1
  pub no_lease : e.lease_duration_seconds ≡ none
  pub initial_backoff : e.retry.initial_backoff_seconds ≡ 30
  pub max_backoff : e.retry.max_backoff_seconds ≡ 3600
  pub multiplier : e.retry.backoff_multiplier ≡ two_f64
  pub jitter : e.retry.jitter ≡ fifth_f64

from_legacy-Upgrades :
    (legacy : EmitterConfig) (global_retry : RetryConfig)
    → Upgrades legacy global_retry (from_legacy legacy global_retry)
unfolding from_legacy default_entry legacy_retry default_retry_policy
from_legacy-Upgrades legacy global_retry = record {
  named = refl;
  same_type = refl;
  kafka = refl;
  nats = refl;
  sqs = refl;
  redis = refl;
  interval = refl;
  attempts = refl;
  one_at_a_time = refl;
  no_lease = refl;
  initial_backoff = refl;
  max_backoff = refl;
  multiplier = refl;
  jitter = refl;
}

with_emitters-SameSections :
    (c : HookboxConfig) (entries : List EmitterEntry) → SameSections c (with_emitters c entries)
unfolding with_emitters
with_emitters-SameSections c entries = record {
  server = refl;
  database = refl;
  providers = refl;
  dedupe = refl;
  admin = refl;
  retry = refl;
}

-- The entries that are left are well-formed, and either the configuration had only them and is
-- unchanged, or it had only the legacy section, which became their one entry.
pub record Normalized (c d : HookboxConfig) (warnings : List String) : Type 0 where
  pub legacy_gone : d.emitter ≡ none
  pub some_left : d.emitters ≢ []
  pub valid : All WellFormed d.emitters
  pub distinct : DistinctNames [] d.emitters
  pub origin :
      ((d ≡ c) × (warnings ≡ []))
      ⊎ ((legacy : EmitterConfig) × (c.emitter ≡ some legacy)
          × (c.emitters ≡ [])
          × SameSections c d
          × ((entry : EmitterEntry) × (d.emitters ≡ entry ∷ []) × Upgrades legacy c.retry entry)
          × (warnings ≡ deprecation ∷ []))

-- What the first step gives.
record Chosen (c d : HookboxConfig) (warnings : List String) : Type 0 where
  legacy_gone : d.emitter ≡ none
  some_left : d.emitters ≢ []
  origin :
      ((d ≡ c) × (warnings ≡ []))
      ⊎ ((legacy : EmitterConfig) × (c.emitter ≡ some legacy)
          × (c.emitters ≡ [])
          × SameSections c d
          × ((entry : EmitterEntry) × (d.emitters ≡ entry ∷ []) × Upgrades legacy c.retry entry)
          × (warnings ≡ deprecation ∷ []))

abbrev Outcome : Type 0
Outcome = HookboxConfig × List String

ok_inj : {a b : Outcome} → ◌≡◌ {A = Result Outcome ConfigError} (ok a) (ok b) → a ≡ b
ok_inj h = cc

choose_section-Chosen :
    (c d : HookboxConfig) (w : List String) (o : Option EmitterConfig) (es : List EmitterEntry)
    → c.emitter ≡ o
    → c.emitters ≡ es
    → choose_section c o es ≡ ok (d, w)
    → Chosen c d w
unfolding choose_section
choose_section-Chosen c d w (some legacy) (e ∷ es) p q h = cc h
choose_section-Chosen c d w none [] p q h = cc h
choose_section-Chosen c d w (some legacy) [] p q h =
    subst (λ x. Chosen c x.0 x.1) (ok_inj h)
      (record {
        legacy_gone = refl;
        some_left = λ e. cc e;
        origin = inr (
          legacy,
          p,
          q,
          with_emitters-SameSections c _,
          (from_legacy legacy c.retry, refl, from_legacy-Upgrades legacy c.retry),
          refl,
        );
      })
choose_section-Chosen c d w none (e ∷ es) p q h =
    subst (λ x. Chosen c x.0 x.1) (ok_inj h)
      (record { legacy_gone = p; some_left = λ z. cc (z, q); origin = inl (refl, refl) })

then_ok :
    (v : Result (Unit {0}) ConfigError) (x y : Outcome) → (v >> ok x) ≡ ok y → (v ≡ ok tt) × (x ≡ y)
then_ok (ok tt) x y h = (refl, ok_inj h)
then_ok (err e) x y h = cc h

chosen_and_valid :
    (r : Result Outcome ConfigError) (y : Outcome)
    → (r >>= λ x. validate_emitter_entries x.0.emitters >> ok x) ≡ ok y
    → (r ≡ ok y) × (validate_emitter_entries y.0.emitters ≡ ok tt)
chosen_and_valid (ok x) y h =
    let (valid, e) = then_ok (validate_emitter_entries x.0.emitters) x y h in
    (ap ok e, subst (λ z. validate_emitter_entries z.0.emitters ≡ ok tt) e valid)
chosen_and_valid (err e) y h = cc h

-- A configuration that `normalize` accepts has no legacy section left, at least one entry, and only
-- well-formed entries of distinct names; it is the given one without a warning, or the given one had
-- the legacy section and no entries, and then all other sections are as given and there is one
-- entry, named default, with the type and the backends of the legacy section, the attempts and the
-- interval of the global retry section and the defaults of an entry, and a warning.
pub normalize-Normalized :
    (c d : HookboxConfig) (warnings : List String)
    → normalize c ≡ ok (d, warnings)
    → Normalized c d warnings
unfolding normalize
normalize-Normalized c d warnings h =
    let (chosen, valid) =
      chosen_and_valid (choose_section c c.emitter c.emitters) (d, warnings) h in
    let r = choose_section-Chosen c d warnings c.emitter c.emitters refl refl chosen in
    let (all_valid, distinct) = (validate_emitter_entries-WellFormed d.emitters).0 valid in
    record {
      legacy_gone = r.legacy_gone;
      some_left = r.some_left;
      valid = all_valid;
      distinct = distinct;
      origin = r.origin;
    }

keeps :
    (c : HookboxConfig) (o : Option EmitterConfig) (es : List EmitterEntry)
    → o ≡ none
    → es ≢ []
    → choose_section c o es ≡ ok (c, [])
unfolding choose_section
keeps c none (e ∷ es) p n = refl
keeps c none [] p n = absurd (n refl)
keeps c (some l) es p n = cc p

-- `normalize` leaves what it gave as it is, without a warning.
pub normalize-normalize :
    (c d : HookboxConfig) (warnings : List String)
    → normalize c ≡ ok (d, warnings)
    → normalize d ≡ ok (d, [])
unfolding normalize
normalize-normalize c d warnings h =
    let n = normalize-Normalized c d warnings h in
    let valid = (validate_emitter_entries-WellFormed d.emitters).1 (n.valid, n.distinct) in
    ap (λ r. r >>= λ x. validate_emitter_entries x.0.emitters >> ok x)
      (keeps d d.emitter d.emitters n.legacy_gone n.some_left)
    ∙ ap (λ v. v >> ok (d, [])) valid

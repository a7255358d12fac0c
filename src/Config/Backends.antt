-- ===== src/Config/Backends.antt =====
-- The types of emitters and their sections in crates/hookbox-server/src/config.rs.
use hookbox.Prelude.{
  if◌then◌else◌, subst, String, Option, none, some, Bool, true, false, Result, ok, err, str_eq, ◌≡◌,
  ◌≢◌, ◌↔◌, ◌⊎◌, inl, inr, str_eq_iff, refl, sym,
}
use hookbox.Config.Emitters.{EmitterEntry}
use hookbox.Config.Validate.{ConfigError, Violation, forbid, is_none, validate_backend}

-- The section that the type asks for is there.
pub data Backend (e : EmitterEntry) : Type 0 where
  channel : e.emitter_type ≡ "channel" → Backend e
  kafka : e.emitter_type ≡ "kafka" → e.kafka ≢ none → Backend e
  nats : e.emitter_type ≡ "nats" → e.nats ≢ none → Backend e
  sqs : e.emitter_type ≡ "sqs" → e.sqs ≢ none → Backend e
  redis : e.emitter_type ≡ "redis" → e.redis ≢ none → Backend e

section_iff :
    {A : Type 0} (o : Option A) (v : Violation) → (forbid (is_none o) v ≡ ok tt) ↔ (o ≢ none)
unfolding forbid
section_iff none v = ((λ h. cc), λ n. absurd (n refl))
section_iff (some a) v = ((λ h. λ e. cc e), λ n. refl)

branch :
    (b : Bool) (x y : Result (Unit {0}) ConfigError)
    → (if b then x else y) ≡ ok tt
    → ((b ≡ true) × (x ≡ ok tt)) ⊎ ((b ≡ false) × (y ≡ ok tt))
branch true x y h = inl (refl, h)
branch false x y h = inr (refl, h)

module _ (e : EmitterEntry) where
  is_type : {t : String} → str_eq e.emitter_type t ≡ true → e.emitter_type ≡ t
  is_type {t} h = (str_eq_iff e.emitter_type t).0 h

  pub validate_backend-Backend : validate_backend e ≡ ok tt → Backend e
  unfolding validate_backend
  validate_backend-Backend h = elim (branch (str_eq e.emitter_type "channel") _ _ h) [
    | inl (t, _) ↦ Backend.channel (is_type t)
    | inr (_, h₁) ↦ elim (branch (str_eq e.emitter_type "kafka") _ _ h₁) [
      | inl (t, s) ↦ Backend.kafka (is_type t) ((section_iff e.kafka _).0 s)
      | inr (_, h₂) ↦ elim (branch (str_eq e.emitter_type "nats") _ _ h₂) [
        | inl (t, s) ↦ Backend.nats (is_type t) ((section_iff e.nats _).0 s)
        | inr (_, h₃) ↦ elim (branch (str_eq e.emitter_type "sqs") _ _ h₃) [
          | inl (t, s) ↦ Backend.sqs (is_type t) ((section_iff e.sqs _).0 s)
          | inr (_, h₄) ↦ elim (branch (str_eq e.emitter_type "redis") _ _ h₄) [
            | inl (t, s) ↦ Backend.redis (is_type t) ((section_iff e.redis _).0 s)
            | inr (_, h₅) ↦ cc h₅
          ]
        ]
      ]
    ]
  ]

  -- The same tests on another text.
  abbrev choose : String → Result (Unit {0}) ConfigError
  choose t =
      if str_eq t "channel"
      then ok tt
      else if str_eq t "kafka"
      then forbid (is_none e.kafka) (Violation.missing_section e.name "kafka")
      else if str_eq t "nats"
      then forbid (is_none e.nats) (Violation.missing_section e.name "nats")
      else if str_eq t "sqs"
      then forbid (is_none e.sqs) (Violation.missing_section e.name "sqs")
      else if str_eq t "redis"
      then forbid (is_none e.redis) (Violation.missing_section e.name "redis")
      else err (ConfigError.validation (Violation.unknown_type e.name t))

  at : {t : String} → e.emitter_type ≡ t → choose t ≡ ok tt → validate_backend e ≡ ok tt
  unfolding validate_backend
  at q h = subst (λ t. choose t ≡ ok tt) (sym q) h

  pub Backend-validate_backend : Backend e → validate_backend e ≡ ok tt
  Backend-validate_backend (Backend.channel q) = at q refl
  Backend-validate_backend (Backend.kafka q n) = at q ((section_iff e.kafka _).1 n)
  Backend-validate_backend (Backend.nats q n) = at q ((section_iff e.nats _).1 n)
  Backend-validate_backend (Backend.sqs q n) = at q ((section_iff e.sqs _).1 n)
  Backend-validate_backend (Backend.redis q n) = at q ((section_iff e.redis _).1 n)

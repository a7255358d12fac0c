-- ===== src/Routes/Health.antt =====
-- crates/hookbox-server/src/routes/health.rs: `readyz`, `healthz` and `metrics`. The map of emitters is an association
-- list, whose order is not modelled; a status code is a number.
use hookbox.Prelude.{
  ℕ, String, Bool, true, false, not, ◌||◌, ◌&&◌, Option, none, some, List, [], ◌∷◌, ◌++◌, map, any,
  all, any-append, str_eq, if◌then◌else◌, ◌≡◌, refl, ◌↔◌, ◌∙◌, arith,
}
use hookbox.Domain.{DateTime}
use hookbox.Worker.Dispatch.{EmitterHealth, HealthStatus}

abbrev pub healthz : ℕ
healthz = 200

-- The text that the recorder renders, if there is one.
unfoldable pub metrics : Option String → String
metrics (some rendered) = rendered
metrics none = "# no prometheus recorder installed\n"

pub record EmitterHealthSnapshot : Type 0 where
  pub status : HealthStatus
  pub last_success_at : Option DateTime
  pub last_failure_at : Option DateTime
  pub consecutive_failures : ℕ
  pub dlq_depth : ℕ
  pub pending_count : ℕ

pub record ReadyzResponse : Type 0 where
  pub status : HealthStatus
  pub database : HealthStatus
  pub emitters : List (String × EmitterHealthSnapshot)

-- How `SELECT 1` ends within two seconds.
pub data Ping : Type 0 where
  answered failed timed_out : Ping

abbrev pub is_unhealthy : HealthStatus → Bool
is_unhealthy HealthStatus.unhealthy = true
is_unhealthy _ = false

abbrev pub is_degraded : HealthStatus → Bool
is_degraded HealthStatus.degraded = true
is_degraded _ = false

abbrev pub has_name {ℓ} : {A : Type ℓ} → String → List (String × A) → Bool
has_name name = any (λ e. str_eq e.0 name)

unfoldable pub missing : EmitterHealthSnapshot
missing = record {
  status = HealthStatus.unhealthy;
  last_success_at = none;
  last_failure_at = none;
  consecutive_failures = 0;
  dlq_depth = 0;
  pending_count = 0;
}

-- `entry(name).or_insert(..)`; the test is whether the name is there.
unfoldable pub or_insert :
    Bool → String → List (String × EmitterHealthSnapshot) → List (String × EmitterHealthSnapshot)
unfolding missing
or_insert true name m = m
or_insert false name m = m ++ (name, missing) ∷ []

unfoldable pub synthesize_missing_emitters :
    List (String × EmitterHealthSnapshot) → List String → List (String × EmitterHealthSnapshot)
unfolding or_insert
synthesize_missing_emitters m [] = m
synthesize_missing_emitters m (name ∷ names) =
    synthesize_missing_emitters (or_insert (has_name name m) name m) names

unfoldable pub compute_overall_status :
    HealthStatus → List (String × EmitterHealthSnapshot) → HealthStatus
compute_overall_status db emitters =
    if is_unhealthy db
    then HealthStatus.unhealthy
    else (if any (λ (e : String × EmitterHealthSnapshot). is_unhealthy e.1.status) emitters
        then HealthStatus.unhealthy
        else (if any (λ (e : String × EmitterHealthSnapshot). is_degraded e.1.status) emitters
            then HealthStatus.degraded
            else HealthStatus.healthy))

-- Without a pool there is no database.
unfoldable pub db_status : Option Ping → HealthStatus
db_status (some Ping.answered) = HealthStatus.healthy
db_status (some Ping.failed) = HealthStatus.unhealthy
db_status (some Ping.timed_out) = HealthStatus.unhealthy
db_status none = HealthStatus.unhealthy

unfoldable pub snapshot : EmitterHealth → EmitterHealthSnapshot
snapshot h = record {
  status = h.status;
  last_success_at = h.last_success_at;
  last_failure_at = h.last_failure_at;
  consecutive_failures = h.consecutive_failures;
  dlq_depth = h.dlq_depth;
  pending_count = h.pending_count;
}

abbrev pub status_code : HealthStatus → ℕ
status_code HealthStatus.unhealthy = 503
status_code HealthStatus.degraded = 200
status_code HealthStatus.healthy = 200

unfoldable pub readyz :
    Option Ping → List (String × EmitterHealth) → List String → ℕ × ReadyzResponse
unfolding db_status snapshot synthesize_missing_emitters compute_overall_status
readyz ping emitter_health emitter_names =
    let emitters =
      synthesize_missing_emitters (map (λ e. (e.0, snapshot e.1)) emitter_health) emitter_names in
    let overall = compute_overall_status (db_status ping) emitters in
    (
      status_code overall,
      record { status = overall; database = db_status ping; emitters = emitters },
    )

abbrev some_unhealthy : List (String × EmitterHealthSnapshot) → Bool
some_unhealthy = any (λ (e : String × EmitterHealthSnapshot). is_unhealthy e.1.status)

stays_unhealthy :
    (names : List String) (m : List (String × EmitterHealthSnapshot))
    → some_unhealthy m ≡ true
    → some_unhealthy (synthesize_missing_emitters m names) ≡ true
unfolding synthesize_missing_emitters or_insert missing
stays_unhealthy [] m h = h
stays_unhealthy (name ∷ names) m h =
    stays_unhealthy names (or_insert (has_name name m) name m) (kept (has_name name m))
  where
    kept : (b : Bool) → some_unhealthy (or_insert b name m) ≡ true
    kept true = h
    kept false = any-append _ m ((name, missing) ∷ []) ∙ ground arith

synthesized :
    (names : List String) (m : List (String × EmitterHealthSnapshot))
    → some_unhealthy (synthesize_missing_emitters m names)
      ≡ (some_unhealthy m || not (all (λ name. has_name name m) names))
unfolding synthesize_missing_emitters or_insert missing
synthesized [] m = ground arith
synthesized (name ∷ names) m = split (has_name name m) (synthesized names m)
  where
    split :
        (b : Bool)
        → some_unhealthy (synthesize_missing_emitters m names)
          ≡ (some_unhealthy m || not (all (λ n. has_name n m) names))
        → some_unhealthy (synthesize_missing_emitters (or_insert b name m) names)
          ≡ (some_unhealthy m || not (b && all (λ n. has_name n m) names))
    split true ih = ih
    split false ih =
        stays_unhealthy names (m ++ (name, missing) ∷ [])
          (any-append _ m ((name, missing) ∷ []) ∙ ground arith)
        ∙ ground arith

any-snapshot :
    (hs : List (String × EmitterHealth))
    → some_unhealthy (map (λ e. (e.0, snapshot e.1)) hs)
      ≡ any (λ (e : String × EmitterHealth). is_unhealthy e.1.status) hs
unfolding snapshot
any-snapshot [] = refl
any-snapshot (h ∷ hs) = ground (arith, any-snapshot hs)

all-snapshot :
    (hs : List (String × EmitterHealth)) (names : List String)
    → all (λ name. has_name name (map (λ e. (e.0, snapshot e.1)) hs)) names
      ≡ all (λ name. has_name name hs) names
all-snapshot hs [] = refl
all-snapshot hs (name ∷ names) = ground (arith, named hs, all-snapshot hs names)
  where
    named :
        (l : List (String × EmitterHealth))
        → has_name name (map (λ e. (e.0, snapshot e.1)) l) ≡ has_name name l
    named [] = refl
    named (h ∷ l) = ground (arith, named l)

code_of :
    (ping : Option Ping) (m : List (String × EmitterHealthSnapshot))
    → (status_code (compute_overall_status (db_status ping) m) ≡ 200)
      ↔ ((ping ≡ some Ping.answered) × (some_unhealthy m ≡ false))
unfolding compute_overall_status db_status
code_of none m = ground arith
code_of (some Ping.answered) m = ground arith
code_of (some Ping.failed) m = ground arith
code_of (some Ping.timed_out) m = ground arith

-- The service is ready exactly when the database answers, every configured emitter has a
-- worker that reports, and no worker is unhealthy.
pub readyz-ok :
    (ping : Option Ping) (hs : List (String × EmitterHealth)) (names : List String)
    → ((readyz ping hs names).0 ≡ 200) ↔ (
        (ping ≡ some Ping.answered)
        × (all (λ name. has_name name hs) names ≡ true)
        × (any (λ (e : String × EmitterHealth). is_unhealthy e.1.status) hs ≡ false))
unfolding readyz
readyz-ok ping hs names =
    let (there, back) =
      code_of ping (synthesize_missing_emitters (map (λ e. (e.0, snapshot e.1)) hs) names) in
    let counted = synthesized names (map (λ e. (e.0, snapshot e.1)) hs) in
    (
      λ c.
          let (p, u) = there c in
          (
            p,
            ground (arith, u, counted, any-snapshot hs, all-snapshot hs names),
            ground (arith, u, counted, any-snapshot hs, all-snapshot hs names),
          ),
      λ (p, a, u). back (p, ground (arith, a, u, counted, any-snapshot hs, all-snapshot hs names)),
    )

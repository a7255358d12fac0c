-- ===== src/Examples/Duration.antt =====
-- `parse_duration` of crates/hookbox-cli/src/commands/replay.rs at the texts of its unit tests,
-- with durations in seconds that have no bound.
use hookbox.Prelude.{◌-◌, ℕ, ℤ, pos, negsuc, some, ◌+◌, ◌*◌, ◌≡◌, refl, [], ◌∷◌}
use hookbox.Cli.Duration.{Chrono, Parsed, DurationError, parse_duration}

abbrev times : ℕ → ℤ → ℤ
times k (pos n) = pos (n * k)
times k (negsuc n) = negsuc (n * k + (k - 1))

abbrev pub unbounded : Chrono ℤ
unbounded = record {
  seconds = λ n. some n;
  minutes = λ n. some (times 60 n);
  hours = λ n. some (times 3600 n);
  days = λ n. some (times 86400 n);
  minus = λ now d. some now;
}

test_30s : parse_duration unbounded "30s" ≡ Parsed.parsed (pos 30)
unfolding parse_duration
test_30s = refl

test_trimmed : parse_duration unbounded "  1h  " ≡ Parsed.parsed (pos 3600)
unfolding parse_duration
test_trimmed = refl

test_negative : parse_duration unbounded "-1h" ≡ Parsed.parsed (negsuc 3599)
unfolding parse_duration
test_negative = refl

test_no_unit : parse_duration unbounded "123" ≡ Parsed.refused (DurationError.unknown_unit 51)
unfolding parse_duration
test_no_unit = refl

test_no_number : parse_duration unbounded "h" ≡ Parsed.refused (DurationError.invalid_number [])
unfolding parse_duration
test_no_number = refl

test_empty : parse_duration unbounded " " ≡ Parsed.refused DurationError.empty
unfolding parse_duration
test_empty = refl

test_overflow :
    parse_duration unbounded "9223372036854775808s"
    ≡ Parsed.refused (
        DurationError.invalid_number (
          57 ∷ 50 ∷ 50 ∷ 51 ∷ 51 ∷ 55 ∷ 50 ∷ 48 ∷ 51 ∷ 54 ∷ 56 ∷ 53 ∷ 52 ∷ 55 ∷ 55 ∷ 53 ∷ 56 ∷ 48
          ∷ 56 ∷ []))
unfolding parse_duration
test_overflow = refl

test_panics : parse_duration unbounded "1ä" ≡ Parsed.panics
unfolding parse_duration
test_panics = refl

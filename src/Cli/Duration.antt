-- ===== src/Cli/Duration.antt =====
-- crates/hookbox-cli/src/commands/replay.rs: `parse_duration`, and `replay failed` with it. A
-- text is the list of its code points; the durations of `chrono` are a parameter.
use Prim.Native.Char.{code}
use Prim.Native.Nat.{suc, ◌^◌}
use hookbox.Prelude.{
  ℕ, zero, suc, ℤ, pos, negsuc, String, Bool, List, [], ◌∷◌, ◌++◌, Option, none, some, Result, ok,
  err, ltb, leb, ◌==◌, ◌+◌, ◌-◌, ◌*◌, ◌&&◌, ◌||◌, if◌then◌else◌,
}
use hookbox.Domain.{DateTime, StorageError}
use hookbox.Postgres.Exec.{Database}
use hookbox.Cli.Replay.{replay_failed}

-- `seconds` and the like panic on a duration out of bounds, and `minus` on a time out of bounds:
-- `none`.
pub record Chrono (Duration : Type 0) : Type 0 where
  pub seconds : ℤ → Option Duration
  pub minutes : ℤ → Option Duration
  pub hours : ℤ → Option Duration
  pub days : ℤ → Option Duration
  pub minus : DateTime → Duration → Option DateTime

abbrev pub chars : String → List ℕ
chars String.[] = []
chars (String.◌∷◌ c s) = code c ∷ chars s

-- `char::is_whitespace`.
is_whitespace : ℕ → Bool
is_whitespace c =
    (leb 9 c && leb c 13)
    || (c == 32)
    || (c == 133)
    || (c == 160)
    || (c == 5760)
    || (leb 8192 c && leb c 8202)
    || (c == 8232)
    || (c == 8233)
    || (c == 8239)
    || (c == 8287)
    || (c == 12288)

unfoldable pub trim_start : List ℕ → List ℕ
unfolding is_whitespace
trim_start [] = []
trim_start (c ∷ text) = let rest = trim_start text in if is_whitespace c then rest else c ∷ text

-- The text without the white space at its end.
trim_end : List ℕ → List ℕ
unfolding is_whitespace
trim_end [] = []
trim_end (c ∷ text) = elim (trim_end text) [
  | [] ↦ if is_whitespace c then [] else c ∷ []
  | d ∷ rest ↦ c ∷ d ∷ rest
]

unfoldable pub trim : List ℕ → List ℕ
unfolding trim_start trim_end
trim text = trim_end (trim_start text)

-- `parse::<i64>`.
digits : List ℕ → ℕ → Option ℕ
digits [] n = some n
digits (c ∷ text) n =
    let rest = digits text (n * 10 + (c - 48)) in if leb 48 c && leb c 57 then rest else none

magnitude : List ℕ → Option ℕ
unfolding digits
magnitude [] = none
magnitude (c ∷ text) = digits (c ∷ text) 0

of_magnitude : Option ℕ → Option ℤ
of_magnitude none = none
of_magnitude (some n) = if ltb n (2 ^ 63) then some (pos n) else none

of_negated : Option ℕ → Option ℤ
of_negated none = none
of_negated (some zero) = some (pos 0)
of_negated (some (suc n)) = if ltb n (2 ^ 63) then some (negsuc n) else none

unfoldable pub parse_i64 : List ℕ → Option ℤ
unfolding magnitude of_magnitude of_negated
parse_i64 [] = none
parse_i64 (c ∷ text) =
    if c == 43
    then of_magnitude (magnitude text)
    else if c == 45
    then of_negated (magnitude text)
    else of_magnitude (magnitude (c ∷ text))

pub data DurationError : Type 0 where
  empty : DurationError
  invalid_number : List ℕ → DurationError
  unknown_unit : ℕ → DurationError

pub data Parsed (Duration : Type 0) : Type 0 where
  parsed : Duration → Parsed Duration
  refused : DurationError → Parsed Duration
  panics : Parsed Duration

-- What follows `replay failed`: the text of an error, a panic, or the end.
pub data Ended : Type 0 where
  finished : Ended
  no_duration : DurationError → Ended
  failed : StorageError → Ended
  panicked : Ended

module _ {Duration : Type 0} (chrono : Chrono Duration) where
  of_chrono : Option Duration → Parsed Duration
  of_chrono none = Parsed.panics
  of_chrono (some d) = Parsed.parsed d

  with_number : List ℕ → ℕ → Option ℤ → Parsed Duration
  unfolding of_chrono
  with_number num_str unit none = Parsed.refused (DurationError.invalid_number num_str)
  with_number num_str unit (some n) =
      if unit == 115
      then of_chrono (chrono.seconds n)
      else if unit == 109
      then of_chrono (chrono.minutes n)
      else if unit == 104
      then of_chrono (chrono.hours n)
      else if unit == 100
      then of_chrono (chrono.days n)
      else Parsed.refused (DurationError.unknown_unit unit)

  -- `split_at(s.len() - 1)` panics inside a character of several bytes. `before` has the
  -- characters that were passed.
  split_unit : List ℕ → ℕ → List ℕ → Parsed Duration
  unfolding with_number parse_i64
  split_unit before unit [] =
      if ltb unit 128 then with_number before unit (parse_i64 before) else Parsed.panics
  split_unit before c (d ∷ text) = split_unit (before ++ c ∷ []) d text

  parse_trimmed : List ℕ → Parsed Duration
  unfolding split_unit
  parse_trimmed [] = Parsed.refused DurationError.empty
  parse_trimmed (c ∷ text) = split_unit [] c text

  unfoldable pub parse_duration : String → Parsed Duration
  unfolding trim parse_trimmed
  parse_duration s = parse_trimmed (trim (chars s))

  module _ {Json : Type 0} where
    ended : Result (Unit {0}) StorageError × Database Json → Ended × Database Json
    ended (ok _, db) = (Ended.finished, db)
    ended (err e, db) = (Ended.failed e, db)

    since_time : Option String → ℤ → Option DateTime → Database Json → Ended × Database Json
    unfolding ended replay_failed
    since_time provider limit none db = (Ended.panicked, db)
    since_time provider limit (some since) db = ended (replay_failed provider since limit db)

    with_duration :
        Option String → ℤ → DateTime → Parsed Duration → Database Json → Ended × Database Json
    unfolding since_time
    with_duration provider limit now (Parsed.parsed d) db =
        since_time provider limit (chrono.minus now d) db
    with_duration provider limit now (Parsed.refused e) db = (Ended.no_duration e, db)
    with_duration provider limit now Parsed.panics db = (Ended.panicked, db)

    -- `replay failed` on a database that is connected and migrated; `now` is `Utc::now()`.
    unfoldable pub run_failed :
        Option String → String → ℤ → DateTime → Database Json → Ended × Database Json
    unfolding parse_duration with_duration
    run_failed provider since limit now db =
        with_duration provider limit now (parse_duration since) db

-- ===== src/Providers/Text.antt =====
-- The operations of `str` and `u64` that the verifiers of crates/hookbox-providers/src use. A
-- text is the list of its bytes.
use Prim.Native.Char.{code}
use Prim.Native.String.{String}
use Prim.Native.Nat.{◌^◌}
use hookbox.Prelude.{
  sym, subst, arith, refl, subst, sym, ==_iff, ℕ, List, [], ◌∷◌, ◌++◌, Option, none, some, Bool,
  true, false, ◌≡◌, ◌↔◌, ltb, leb, ◌==◌, ◌+◌, ◌-◌, ◌*◌, ◌/◌, ◌%◌, ◌&&◌, ◌||◌, if◌then◌else◌,
}

-- `as_bytes`: the UTF-8 of a text.
encode : ℕ → List ℕ → List ℕ
encode c rest =
    if ltb c 128
    then c ∷ rest
    else if ltb c 2048
    then (192 + c / 64) ∷ (128 + c % 64) ∷ rest
    else if ltb c 65536
    then (224 + c / 4096) ∷ (128 + (c / 64) % 64) ∷ (128 + c % 64) ∷ rest
    else (240 + c / 262144)
      ∷ (128 + (c / 4096) % 64)
      ∷ (128 + (c / 64) % 64)
      ∷ (128 + c % 64)
      ∷ rest

unfoldable pub as_bytes : String → List ℕ
unfolding encode
as_bytes String.[] = []
as_bytes (String.◌∷◌ c s) = encode (code c) (as_bytes s)

unfoldable pub strip_prefix : List ℕ → List ℕ → Option (List ℕ)
strip_prefix [] text = some text
strip_prefix (c ∷ pre) [] = none
strip_prefix (c ∷ pre) (d ∷ text) = if c == d then strip_prefix pre text else none

-- `split(sep)`: the parts between separators, of which there is at least one.
prepend : ℕ → List (List ℕ) → List (List ℕ)
prepend c [] = (c ∷ []) ∷ []
prepend c (part ∷ parts) = (c ∷ part) ∷ parts

unfoldable pub split : ℕ → List ℕ → List (List ℕ)
unfolding prepend
split sep [] = [] ∷ []
split sep (c ∷ text) = let rest = split sep text in if c == sep then [] ∷ rest else prepend c rest

-- `split_whitespace`, on the ASCII that a header holds: the parts that are not empty.
abbrev is_whitespace : ℕ → Bool
is_whitespace c = (leb 9 c && leb c 13) || (c == 32)

split_spaces : List ℕ → List (List ℕ)
unfolding prepend
split_spaces [] = [] ∷ []
split_spaces (c ∷ text) =
    let rest = split_spaces text in if is_whitespace c then [] ∷ rest else prepend c rest

non_empty : List (List ℕ) → List (List ℕ)
non_empty [] = []
non_empty ([] ∷ parts) = non_empty parts
non_empty ((c ∷ part) ∷ parts) = (c ∷ part) ∷ non_empty parts

unfoldable pub split_whitespace : List ℕ → List (List ℕ)
unfolding split_spaces non_empty
split_whitespace text = non_empty (split_spaces text)

-- `parse::<u64>`: digits after at most one `+`, refused on overflow.
accumulate : List ℕ → ℕ → Option ℕ
accumulate [] n = some n
accumulate (c ∷ text) n =
    if leb b'0' c && leb c b'9'
    then (if ltb (n * 10 + (c - b'0')) (2 ^ 64)
        then accumulate text (n * 10 + (c - b'0'))
        else none)
    else none

parse_digits : List ℕ → Option ℕ
unfolding accumulate
parse_digits [] = none
parse_digits (c ∷ text) = accumulate (c ∷ text) 0

unfoldable pub parse_u64 : List ℕ → Option ℕ
unfolding parse_digits
parse_u64 [] = none
parse_u64 (c ∷ text) = if c == b'+' then parse_digits text else parse_digits (c ∷ text)

-- `from_utf8` succeeds: the automaton of well-formed UTF-8. `continuations n low high`: the next
-- byte is from `low` to `high`, and `n` more follow it.
pub data Utf8State : Type 0 where
  start : Utf8State
  continuations : ℕ → ℕ → ℕ → Utf8State

utf8_step : Utf8State → ℕ → Option Utf8State
utf8_step Utf8State.start c =
    if ltb c 128
    then some Utf8State.start
    else if leb 194 c && leb c 223
    then some (Utf8State.continuations 0 128 191)
    else if c == 224
    then some (Utf8State.continuations 1 160 191)
    else if c == 237
    then some (Utf8State.continuations 1 128 159)
    else if leb 225 c && leb c 239
    then some (Utf8State.continuations 1 128 191)
    else if c == 240
    then some (Utf8State.continuations 2 144 191)
    else if c == 244
    then some (Utf8State.continuations 2 128 143)
    else if leb 241 c && leb c 243
    then some (Utf8State.continuations 2 128 191)
    else none
utf8_step (Utf8State.continuations n low high) c =
    if leb low c && leb c high
    then some (if n == 0 then Utf8State.start else Utf8State.continuations (n - 1) 128 191)
    else none

utf8_run : List ℕ → Utf8State → Bool
unfolding utf8_step
utf8_run [] Utf8State.start = true
utf8_run [] (Utf8State.continuations n low high) = false
utf8_run (c ∷ text) s = elim (utf8_step s c) [ none ↦ false | some t ↦ utf8_run text t ]

unfoldable pub is_utf8 : List ℕ → Bool
unfolding utf8_run
is_utf8 text = utf8_run text Utf8State.start

-- What `strip_prefix` gives back is what follows the prefix.
strip-forward : (pre text rest : List ℕ) → strip_prefix pre text ≡ some rest → text ≡ pre ++ rest
unfolding strip_prefix
strip-forward [] text rest h = ground arith
strip-forward (c ∷ pre) [] rest h = cc
strip-forward (c ∷ pre) (d ∷ text) rest h = ground (arith, ==_iff c d, strip-forward pre text rest)

strip-backward : (pre rest : List ℕ) → strip_prefix pre (pre ++ rest) ≡ some rest
unfolding strip_prefix
strip-backward [] rest = refl
strip-backward (c ∷ pre) rest = ground (arith, ==_iff c c, strip-backward pre rest)

pub strip_prefix_iff :
    (pre text rest : List ℕ) → (strip_prefix pre text ≡ some rest) ↔ (text ≡ pre ++ rest)
strip_prefix_iff pre text rest = (
  strip-forward pre text rest,
  λ e. subst (λ t. strip_prefix pre t ≡ some rest) (sym e) (strip-backward pre rest),
)

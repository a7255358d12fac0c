-- ===== src/Config/Names.antt =====
-- The names of emitters in crates/hookbox-server/src/config.rs.
use Prim.Native.Char.{code}
use Prim.Native.String.{String, count}
use hookbox.Prelude.{
  refl, ℕ, Bool, true, false, leb, ◌==◌, ◌&&◌, ◌||◌, ◌≤◌, ◌≡◌, ◌↔◌, ◌⊎◌, arith, if◌then◌else◌, not,
}

abbrev is_ascii_alphanumeric : ℕ → Bool
is_ascii_alphanumeric c =
    ((leb b'0' c && leb c b'9') || (leb b'A' c && leb c b'Z')) || (leb b'a' c && leb c b'z')

abbrev pub name_char : ℕ → Bool
name_char c = (is_ascii_alphanumeric c || (c == b'_')) || (c == b'-')

all_chars : String → Bool
all_chars String.[] = true
all_chars (String.◌∷◌ c name) = name_char (code c) && all_chars name

unfoldable pub is_valid_emitter_name : String → Bool
unfolding all_chars
is_valid_emitter_name name =
    if not (leb 1 (count name) && leb (count name) 64) then false else all_chars name

-- `[a-zA-Z0-9_-]`.
pub IsNameChar : ℕ → Type 0
IsNameChar c =
    ((b'0' ≤ c) × (c ≤ b'9'))
    ⊎ ((b'A' ≤ c) × (c ≤ b'Z'))
    ⊎ ((b'a' ≤ c) × (c ≤ b'z'))
    ⊎ (c ≡ b'_')
    ⊎ (c ≡ b'-')

pub EachChar : (ℕ → Type 0) → String → Type 0
EachChar P String.[] = Unit
EachChar P (String.◌∷◌ c name) = P (code c) × EachChar P name

-- `[a-zA-Z0-9_-]{1,64}`.
unfoldable pub IsName : String → Type 0
IsName name = (1 ≤ count name) × (count name ≤ 64) × EachChar IsNameChar name

name_char_iff : (c : ℕ) → (name_char c ≡ true) ↔ IsNameChar c
unfolding IsNameChar
name_char_iff c = ground arith

all_chars_iff : (name : String) → (all_chars name ≡ true) ↔ EachChar IsNameChar name
unfolding all_chars EachChar
all_chars_iff String.[] = (λ _. tt, λ _. refl)
all_chars_iff (String.◌∷◌ c name) = ground (arith, name_char_iff (code c), all_chars_iff name)

pub is_valid_emitter_name-IsName :
    (name : String) → (is_valid_emitter_name name ≡ true) ↔ IsName name
unfolding is_valid_emitter_name IsName
is_valid_emitter_name-IsName name = ground (arith, all_chars_iff name)

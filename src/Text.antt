-- ===== src/Text.antt =====
-- Go strings as byte lists, and what the core uses of `unicode/utf8`, `strings` and
-- `encoding/hex` on them.
pub mod Utf8
pub mod Splits
pub mod Boundaries
use Prim.Native.Char.{code}
use Prim.Native.String.{String}
use mathlib.Core.List.{reverse}
use task_worker.Base.{
  ℕ, zero, suc, ◌+◌, ◌/◌, ◌%◌, Bool, true, false, ◌&&◌, ◌||◌, Option, none, some, List, [], ◌∷◌,
  ◌++◌, ltb, leb, ◌==◌, ◌!=◌, if◌then◌else◌, ℕ-comparable, Comparable, Bytes-comparable,
}

-- A Go string: its bytes, each below 256.
abbrev pub Text : Type 0
Text = List ℕ

-- Where a byte stands in a UTF-8 sequence: at a rune's start, or inside one, with the range
-- that its next byte is held to.
pub data Phase : Type 0 where
  start one two three after_e0 after_ed after_f0 after_f4 : Phase

abbrev within : ℕ → ℕ → ℕ → Bool
within lo hi b = leb lo b && leb b hi

abbrev continue_by : Bool → Phase → Option Phase
continue_by true p = some p
continue_by false p = none

leading : ℕ → Option Phase
leading b =
    if ltb b 0x80
    then some start
    else if within 0xc2 0xdf b
    then some one
    else if b == 0xe0
    then some after_e0
    else if b == 0xed
    then some after_ed
    else if within 0xe1 0xef b
    then some two
    else if b == 0xf0
    then some after_f0
    else if within 0xf1 0xf3 b
    then some three
    else if b == 0xf4
    then some after_f4
    else none

-- The table of `unicode/utf8`, a byte at a time.
unfoldable pub utf8_step : Phase → ℕ → Option Phase
unfolding leading
utf8_step start b = leading b
utf8_step one b = continue_by (within 0x80 0xbf b) start
utf8_step two b = continue_by (within 0x80 0xbf b) one
utf8_step three b = continue_by (within 0x80 0xbf b) two
utf8_step after_e0 b = continue_by (within 0xa0 0xbf b) one
utf8_step after_ed b = continue_by (within 0x80 0x9f b) one
utf8_step after_f0 b = continue_by (within 0x90 0xbf b) two
utf8_step after_f4 b = continue_by (within 0x80 0x8f b) two

unfoldable pub valid_from : Phase → Text → Bool
valid_from start [] = true
valid_from _ [] = false
valid_from p (b ∷ bs) = elim (utf8_step p b) [ none ↦ false | some q ↦ valid_from q bs ]

-- `utf8.ValidString`.
unfoldable pub valid_string : Text → Bool
unfolding valid_from
valid_string s = valid_from start s

-- `utf8.RuneStart`: `b & 0xC0 != 0x80`.
unfoldable pub rune_start : ℕ → Bool
rune_start b = b / 64 != 2

abbrev pub byte_at : ℕ → Text → ℕ
byte_at i [] = 0
byte_at zero (b ∷ bs) = b
byte_at (suc i) (b ∷ bs) = byte_at i bs

-- The length in UTF-8 of the white space that begins with the bytes `a`, `b`, `c`, or 0.
space_length : ℕ → ℕ → ℕ → ℕ
space_length a b c =
    if within 9 13 a || a == 32
    then 1
    else if a == 0xc2 && (b == 0x85 || b == 0xa0)
    then 2
    else if (a == 0xe1 && b == 0x9a && c == 0x80)
        || (a == 0xe2 && b == 0x80 && (within 0x80 0x8a c || c == 0xa8 || c == 0xa9 || c == 0xaf))
        || (a == 0xe2 && b == 0x81 && c == 0x9f)
        || (a == 0xe3 && b == 0x80 && c == 0x80)
    then 3
    else 0

-- The same at the end of a text: `z` is its last byte, `y` and `x` stand before it.
space_length_back : ℕ → ℕ → ℕ → ℕ
unfolding space_length
space_length_back z y x =
    if space_length z 0 0 == 1
    then 1
    else if space_length y z 0 == 2
    then 2
    else if space_length x y z == 3
    then 3
    else 0

-- Drops the first `skip` bytes and then white space, measured by `measure`, from the front.
trim_by : (ℕ → ℕ → ℕ → ℕ) → ℕ → Text → Text
trim_by measure skip [] = []
trim_by measure (suc skip) (a ∷ s) = trim_by measure skip s
trim_by measure zero (a ∷ s) = elim (measure a (byte_at 0 s) (byte_at 1 s)) [
  | zero ↦ a ∷ s
  | suc more ↦ trim_by measure more s
]

-- `strings.TrimSpace`.
unfoldable pub trim_space : Text → Text
unfolding trim_by space_length space_length_back
trim_space s = reverse (trim_by space_length_back 0 (reverse (trim_by space_length 0 s)))

-- `strings.Join`.
unfoldable pub join : List Text → Text → Text
join [] sep = []
join (s ∷ []) sep = s
join (s ∷ t ∷ ts) sep = s ++ (sep ++ join (t ∷ ts) sep)

-- `hex.EncodeToString`, and the characters of its output.
unfoldable pub hex_digit : ℕ → ℕ
hex_digit n = if ltb n 10 then n + b'0' else n + 87

unfoldable pub hex_encode : Text → Text
unfolding hex_digit
hex_encode [] = []
hex_encode (b ∷ bs) = hex_digit (b / 16) ∷ hex_digit (b % 16) ∷ hex_encode bs

-- `strings.ContainsRune("0123456789abcdef", x)`.
unfoldable pub is_hex_digit : ℕ → Bool
is_hex_digit c = within b'0' b'9' c || within b'a' b'f' c

-- The bytes of an ASCII literal.
abbrev pub bytes : String → Text
bytes String.[] = []
bytes (String.◌∷◌ c s) = code c ∷ bytes s

push_byte : Bool → ℕ → List Text → List Text
push_byte true c ps = [] ∷ ps
push_byte false c [] = (c ∷ []) ∷ []
push_byte false c (p ∷ ps) = (c ∷ p) ∷ ps

-- `strings.Split` at one byte.
unfoldable pub split_on : ℕ → Text → List Text
unfolding push_byte
split_on sep [] = [] ∷ []
split_on sep (c ∷ cs) = push_byte (c == sep) c (split_on sep cs)

-- `strings.HasPrefix`.
unfoldable pub has_prefix : Text → Text → Bool
has_prefix [] s = true
has_prefix (b ∷ bs) [] = false
has_prefix (b ∷ bs) (c ∷ cs) = b == c && has_prefix bs cs

-- `strings.TrimSuffix` of a suffix that is not empty.
unfoldable pub trim_suffix : Text → Text → Text
trim_suffix suffix [] = []
trim_suffix suffix (c ∷ cs) =
    let rest = trim_suffix suffix cs in if c ∷ cs == suffix then [] else c ∷ rest

-- `strings.CutPrefix`.
unfoldable pub cut_prefix : Text → Text → Option Text
cut_prefix [] s = some s
cut_prefix (b ∷ bs) [] = none
cut_prefix (b ∷ bs) (c ∷ cs) = let rest = cut_prefix bs cs in if b == c then rest else none

-- Texts one after another.
unfoldable pub concat : List Text → Text
concat [] = []
concat (t ∷ ts) = t ++ concat ts

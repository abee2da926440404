-- ===== src/Device/Numbers.antt =====
-- strconv's ParseUint and Atoi and strings.SplitN as internal/device uses them, and the number parsers of
-- internal/device/normalize.go and `majorMinor` of discovery.go. Words of 64 bits.
pub mod Decoded
use Prim.Native.Char.{Char, code}
use text.Mathlib.Text.{starts_with}
use tenstorrent_dra_framewor.Base.{
  ℕ, zero, suc, ◌+◌, ◌-◌, ◌*◌, ◌/◌, ◌%◌, ◌^◌, String, Bool, true, false, not, ◌&&◌, ◌||◌, List, [],
  ◌∷◌, Option, none, some, ◌==◌, string_eq, nat_eq, if◌then◌else◌, ltb, leb,
}
use tenstorrent_dra_framewor.Base.Int.{ℤ, pos, negsuc}
use tenstorrent_dra_framewor.Base.Text.{trim_space, drop_text, text_length}

abbrev pub max_uint64 : ℕ
max_uint64 = 18446744073709551615

-- The digit that a character is in the bases up to 36.
unfoldable pub digit_value : Char → Option ℕ
digit_value c =
    let n = code c in
    if leb b'0' n && leb n b'9'
    then some (n - b'0')
    else if leb b'a' n && leb n b'z'
    then some (n - b'a' + 10)
    else if leb b'A' n && leb n b'Z'
    then some (n - b'A' + 10)
    else none

-- The loop of `ParseUint` after the digits before: the value, and whether there is no error. A value out
-- of range is answered as the greatest, with an error, before the characters after it are read.
unfoldable pub parse_digits : ℕ → String → ℕ → ℕ × Bool
unfolding digit_value
parse_digits base String.[] n = (n, true)
parse_digits base (String.◌∷◌ c s) n = elim (digit_value c) as (λ _. ℕ × Bool) [
  | none ↦ (0, false)
  | some d ↦
      let next = n * base + d in
      let rest = parse_digits base s next in
      if leb base d then (0, false) else if ltb max_uint64 next then (max_uint64, false) else rest
]

-- `strconv.ParseUint(s, base, 64)` in a base above 0
unfoldable pub parse_uint64 : ℕ → String → ℕ × Bool
unfolding parse_digits
parse_uint64 base String.[] = (0, false)
parse_uint64 base (String.◌∷◌ c s) = parse_digits base (String.◌∷◌ c s) 0

-- A magnitude as an int64: out of range it is the end of the range, with an error.
unfoldable pub positive : ℕ × Bool → ℤ × Bool
positive (n, ok) = if leb (2 ^ 63) n then (pos (2 ^ 63 - 1), false) else (pos n, ok)

unfoldable pub negative : ℕ × Bool → ℤ × Bool
negative (zero, ok) = (pos 0, ok)
negative (suc n, ok) = if leb (2 ^ 63) n then (negsuc (2 ^ 63 - 1), false) else (negsuc n, ok)

-- `strconv.Atoi`
unfoldable pub atoi : String → ℤ × Bool
unfolding parse_uint64 positive negative
atoi String.[] = (pos 0, false)
atoi (String.◌∷◌ c s) =
    if code c == b'-'
    then negative (parse_uint64 10 s)
    else if code c == b'+'
    then positive (parse_uint64 10 s)
    else positive (parse_uint64 10 (String.◌∷◌ c s))

-- The rest of a text in base 16 without its prefix, or a text in base 10.
unfoldable pub parse_prefixed : String → ℕ × Bool
unfolding parse_uint64 drop_text
parse_prefixed value =
    if starts_with value "0x" then parse_uint64 16 (drop_text 2 value) else parse_uint64 10 value

-- `parseUint`
unfoldable pub parse_uint : String → ℕ
unfolding parse_prefixed trim_space
parse_uint value = (parse_prefixed (trim_space value)).0

-- `parseInt`
unfoldable pub parse_int : String → ℤ
unfolding atoi trim_space
parse_int value = (atoi (trim_space value)).0

-- `parseOptionalInt`
unfoldable pub parse_optional_int : String → ℤ
unfolding parse_int trim_space
parse_optional_int value = if trim_space value == "" then negsuc 0 else parse_int value

abbrev push_front : Char → List String → List String
push_front c [] = String.◌∷◌ c String.[] ∷ []
push_front c (s ∷ parts) = String.◌∷◌ c s ∷ parts

-- `strings.SplitN` at a character, with the number of separators at most.
unfoldable pub split_at_most : ℕ → ℕ → String → List String
split_at_most zero separator s = s ∷ []
split_at_most (suc n) separator String.[] = String.[] ∷ []
split_at_most (suc n) separator (String.◌∷◌ c s) =
    let here = String.[] ∷ split_at_most n separator s in
    let later = push_front c (split_at_most (suc n) separator s) in
    if code c == separator then here else later

-- `strings.Split` at a character: there are at most as many separators as characters.
unfoldable pub split : ℕ → String → List String
unfolding split_at_most text_length
split separator s = split_at_most (text_length s) separator s

-- `parseDeviceNumbers`
unfoldable pub parse_device_numbers : String → ℕ × ℕ
unfolding split_at_most parse_uint64 trim_space
parse_device_numbers value = elim (split_at_most 1 b':' (trim_space value)) as (λ _. ℕ × ℕ) [
  | [] ↦ (0, 0)
  | major ∷ [] ↦ (0, 0)
  | major ∷ minor ∷ [] ↦ ((parse_uint64 10 major).0, (parse_uint64 10 minor).0)
  | major ∷ minor ∷ _ ∷ _ ↦ (0, 0)
]

-- `majorMinor`: `>> 8 & 0xfff` and `>> 32 & ^0xfff`, and `& 0xff` and `>> 12 & ^0xff`. The parts have no
-- common bit, so that `|` is the sum.
unfoldable pub major_minor : ℕ → ℕ × ℕ
major_minor device = (
  device / 2 ^ 8 % 2 ^ 12 + device / 2 ^ 32 / 2 ^ 12 * 2 ^ 12,
  device % 2 ^ 8 + device / 2 ^ 12 / 2 ^ 8 * 2 ^ 8,
)

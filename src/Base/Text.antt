-- ===== src/Base/Text.antt =====
-- The texts that Go's fmt and strings make, on ASCII.
use Prim.Native.Char.{Char, code, nul}
use Prim.Native.String.{String, ◌++◌ as ◌<>◌}
use Prim.Native.Nat.{ℕ, zero, suc, ◌-◌, ◌/◌, ◌%◌}
use mathlib.Core.Bool.{Bool, ◌&&◌, ◌||◌}
use mathlib.Core.Option.{Option, none, some}
use mathlib.Core.List.{List, [], ◌∷◌}
use tenstorrent_dra_framewor.Base.Equality.{◌==◌, nat_eq, string_eq, if◌then◌else◌, ltb, leb}
use tenstorrent_dra_framewor.Base.Int.{ℤ, pos, negsuc}

-- The character at a position, or another one.
char_or : ℕ → String → Char → Char
char_or n String.[] d = d
char_or zero (String.◌∷◌ c s) d = c
char_or (suc n) (String.◌∷◌ c s) d = char_or n s d

abbrev one_char : Char → String
one_char c = String.◌∷◌ c String.[]

abbrev digit : ℕ → String
unfolding char_or
digit n = one_char (char_or n "0123456789abcdef" nul)

-- `%d` of a natural number; the number is fuel enough for its digits.
digits_of : ℕ → ℕ → String
unfolding char_or
digits_of zero n = digit n
digits_of (suc fuel) n =
    let rest = digits_of fuel (n / 10) in if ltb n 10 then digit n else rest <> digit (n % 10)

unfoldable pub show : ℕ → String
unfolding digits_of
show n = digits_of n n

-- `%x`
hex_digits_of : ℕ → ℕ → String
unfolding char_or
hex_digits_of zero n = digit n
hex_digits_of (suc fuel) n =
    let rest = hex_digits_of fuel (n / 16) in if ltb n 16 then digit n else rest <> digit (n % 16)

unfoldable pub show_hex : ℕ → String
unfolding hex_digits_of
show_hex n = hex_digits_of n n

unfoldable pub show_int : ℤ → String
unfolding show
show_int (pos n) = show n
show_int (negsuc n) = "-" <> show (suc n)

-- `%q`, on texts with nothing to escape.
abbrev pub quote : String → String
quote s = "\"" <> s <> "\""

-- `unicode.IsSpace`, on ASCII
unfoldable pub is_space : Char → Bool
unfolding nat_eq
is_space c = code c == 32 || (leb 9 (code c) && leb (code c) 13)

unfoldable pub is_dash : Char → Bool
unfolding nat_eq
is_dash c = code c == b'-'

module _ (test : Char → Bool) where
  -- `strings.TrimLeftFunc` and `strings.TrimRightFunc`
  unfoldable pub trim_left : String → String
  trim_left String.[] = String.[]
  trim_left (String.◌∷◌ c s) = let rest = trim_left s in if test c then rest else String.◌∷◌ c s

  put_front : Char → String → String
  put_front c String.[] = if test c then String.[] else one_char c
  put_front c (String.◌∷◌ d s) = String.◌∷◌ c (String.◌∷◌ d s)

  unfoldable pub trim_right : String → String
  unfolding put_front
  trim_right String.[] = String.[]
  trim_right (String.◌∷◌ c s) = put_front c (trim_right s)

-- `strings.TrimSpace`
unfoldable pub trim_space : String → String
unfolding trim_left trim_right is_space
trim_space s = trim_right is_space (trim_left is_space s)

lower_char : Char → Char
unfolding char_or
lower_char c =
    if leb b'A' (code c) && leb (code c) b'Z'
    then char_or (code c - b'A') "abcdefghijklmnopqrstuvwxyz" c
    else c

-- `strings.ToLower`
unfoldable pub to_lower : String → String
unfolding lower_char
to_lower String.[] = String.[]
to_lower (String.◌∷◌ c s) = String.◌∷◌ (lower_char c) (to_lower s)

-- `s[:n]`
unfoldable pub take_text : ℕ → String → String
take_text zero s = String.[]
take_text (suc n) String.[] = String.[]
take_text (suc n) (String.◌∷◌ c s) = String.◌∷◌ c (take_text n s)

-- `len(s)`
unfoldable pub text_length : String → ℕ
text_length String.[] = 0
text_length (String.◌∷◌ c s) = suc (text_length s)

-- `s[n:]`
unfoldable pub drop_text : ℕ → String → String
drop_text zero s = s
drop_text (suc n) String.[] = String.[]
drop_text (suc n) (String.◌∷◌ c s) = drop_text n s

-- `strings.Join`
unfoldable pub join_texts : String → List String → String
join_texts separator [] = ""
join_texts separator (s ∷ []) = s
join_texts separator (s ∷ t ∷ texts) = s <> (separator <> join_texts separator (t ∷ texts))

-- `strings.HasSuffix`
unfoldable pub ends_with : String → String → Bool
unfolding text_length drop_text string_eq
ends_with s t =
    leb (text_length t) (text_length s) && drop_text (text_length s - text_length t) s == t

-- `errors.Join`
unfoldable pub join : Option String → Option String → Option String
join none e = e
join (some a) none = some a
join (some a) (some b) = some (a <> ("\n" <> b))

-- ===== src/Base/Order.antt =====
-- Texts are in a total order, byte by byte.
use Prim.Native.Char.{Char, code}
use Prim.Native.String.{String}
use Prim.Native.String.compare
use mathlib.Core.Path.{◌≡◌, refl}
use mathlib.Core.Bool.{true, false, ◌&&◌, ◌||◌}
use native.Mathlib.Omega.{arith}
use text.Mathlib.TextEquality.{codes_equal}
use text.Mathlib.TextPositions.{compare_self}
use tenstorrent_dra_framewor.Base.Equality.{ltb, leb, text_lt}

text_lt-nil : (d : Char) (t : String) → text_lt String.[] (String.◌∷◌ d t) ≡ true
text_lt-nil d t = rw (text_lt, compare.nil-cons d t) refl

text_lt-cons-nil : (c : Char) (s : String) → text_lt (String.◌∷◌ c s) String.[] ≡ false
text_lt-cons-nil c s = rw (text_lt, compare.cons-nil c s) refl

text_lt_refl : text_lt String.[] String.[] ≡ false
text_lt_refl = refl

text_lt-cons :
    (c d : Char) (s t : String)
    → text_lt (String.◌∷◌ c s) (String.◌∷◌ d t)
      ≡ (ltb (code c) (code d) || (leb (code c) (code d) && text_lt s t))
text_lt-cons c d s t = rw (text_lt, compare.cons-cons c d s t) (ground arith)

code-≡ : (c d : Char) → code c ≡ code d → c ≡ d
code-≡ c d h = codes_equal c d (rw h (compare_self (code d)))

pub text_lt_antisym : (s t : String) → text_lt s t ≡ false → text_lt t s ≡ false → s ≡ t
text_lt_antisym String.[] String.[] h k = refl
text_lt_antisym String.[] (String.◌∷◌ d t) h k = absurd (ground (arith, text_lt-nil d t))
text_lt_antisym (String.◌∷◌ c s) String.[] h k = absurd (ground (arith, text_lt-nil c s))
text_lt_antisym (String.◌∷◌ c s) (String.◌∷◌ d t) h k =
    let same : code c ≡ code d = ground (arith, text_lt-cons c d s t, text_lt-cons d c t s) in
    let left : text_lt s t ≡ false = ground (arith, text_lt-cons c d s t) in
    let right : text_lt t s ≡ false = ground (arith, text_lt-cons d c t s) in
    let rest = text_lt_antisym s t left right in
    let first = code-≡ c d same in λ i. String.◌∷◌ (first i) (rest i)

-- `x ≤ y` and `y ≤ z`
pub text_lt_trans :
    (x y z : String) → text_lt y x ≡ false → text_lt z y ≡ false → text_lt z x ≡ false
text_lt_trans String.[] y String.[] h k = text_lt_refl
text_lt_trans String.[] y (String.◌∷◌ c z) h k = text_lt-cons-nil c z
text_lt_trans (String.◌∷◌ a x) String.[] z h k = absurd (ground (arith, text_lt-nil a x))
text_lt_trans (String.◌∷◌ a x) (String.◌∷◌ b y) String.[] h k =
    absurd (ground (arith, text_lt-nil b y))
text_lt_trans (String.◌∷◌ a x) (String.◌∷◌ b y) (String.◌∷◌ c z) h k =
    ground
      (arith, text_lt-cons b a y x, text_lt-cons c b z y, text_lt-cons c a z x, text_lt_trans x y z)

pub text_lt_asym : (s t : String) → text_lt s t ≡ true → text_lt t s ≡ false
text_lt_asym String.[] String.[] h = text_lt_refl
text_lt_asym String.[] (String.◌∷◌ d t) h = text_lt-cons-nil d t
text_lt_asym (String.◌∷◌ c s) String.[] h = absurd (ground (arith, text_lt-cons-nil c s))
text_lt_asym (String.◌∷◌ c s) (String.◌∷◌ d t) h =
    ground (arith, text_lt-cons c d s t, text_lt-cons d c t s, text_lt_asym s t)

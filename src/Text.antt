-- ===== src/Text.antt =====
-- Texts of C, as the lists of their bytes without the NUL, and the functions of the C library on
-- them that the tools use.
pub mod Equality
pub mod Fields
mod Tests
use cn.Common.{
  ℕ, suc, ◌+◌, ◌-◌, ◌*◌, ◌^◌, ◌≡◌, arith, min, Bool, true, false, ◌&&◌, ◌||◌, List, [], ◌∷◌, ltb,
  leb, ◌==◌, if◌then◌else◌,
}
use cn.Common.Words.{u32}

-- `*text`
abbrev pub first : List ℕ → ℕ
first [] = 0
first (c ∷ text) = c

-- `text + 1`, where the text is not empty.
abbrev pub after_first : List ℕ → List ℕ
after_first [] = []
after_first (c ∷ text) = text

-- `!*text`
abbrev pub is_nil : List ℕ → Bool
is_nil [] = true
is_nil (c ∷ text) = false

-- `strcmp(a, b) == 0`
unfoldable pub same_text : List ℕ → List ℕ → Bool
same_text [] [] = true
same_text (a ∷ xs) (b ∷ ys) = (a == b) && same_text xs ys
same_text _ _ = false

abbrev pub isdigit : ℕ → Bool
isdigit c = leb b'0' c && leb c b'9'

-- In the locale "C", which the tools do not leave.
abbrev pub isalnum : ℕ → Bool
isalnum c = isdigit c || leb b'A' c && leb c b'Z' || leb b'a' c && leb c b'z'

abbrev pub isspace : ℕ → Bool
isspace c = c == 32 || leb 9 c && leb c 13

-- The value of a digit, at least 36 for what is none.
abbrev pub digit_value : ℕ → ℕ
digit_value c =
    if isdigit c
    then c - b'0'
    else if leb b'A' c && leb c b'Z'
    then c - b'A' + 10
    else if leb b'a' c && leb c b'z'
    then c - b'a' + 10
    else 36

unfoldable pub skip_spaces : List ℕ → List ℕ
skip_spaces [] = []
skip_spaces (c ∷ text) = let rest = skip_spaces text in if isspace c then rest else c ∷ text

-- The number that the digits at the front of the text give.
unfoldable pub digits : ℕ → ℕ → List ℕ → ℕ
digits base acc [] = acc
digits base acc (c ∷ text) =
    let rest = digits base (acc * base + digit_value c) text in
    if ltb (digit_value c) base then rest else acc

-- After `0x` there must be a digit, or the number is the 0.
unfoldable pub after_zero : List ℕ → ℕ
unfolding digits
after_zero [] = 0
after_zero (c ∷ text) = if c == b'x' || c == b'X' then digits 16 0 text else digits 8 0 (c ∷ text)

-- The number without its sign; base 0 reads a prefix.
unfoldable pub magnitude : ℕ → List ℕ → ℕ
unfolding digits after_zero
magnitude base [] = 0
magnitude base (c ∷ text) =
    if base == 0
    then (if c == b'0' then after_zero text else digits 10 0 (c ∷ text))
    else digits base 0 (c ∷ text)

-- The value of a `long` in an `int`, as its pattern. `strtol` stays in the range of `long`.
abbrev pub positive : ℕ → ℕ
positive n = u32 (min n (2 ^ 63 - 1))

abbrev pub negative : ℕ → ℕ
negative n = u32 (2 ^ 64 - min n (2 ^ 63))

unfoldable pub signed : ℕ → List ℕ → ℕ
unfolding magnitude
signed base [] = 0
signed base (c ∷ text) =
    if c == b'-'
    then negative (magnitude base text)
    else if c == b'+'
    then positive (magnitude base text)
    else positive (magnitude base (c ∷ text))

-- `strtol(text, NULL, base)`, for the bases 0 and 10, converted to `int`.
unfoldable pub strtol_int : ℕ → List ℕ → ℕ
unfolding skip_spaces signed
strtol_int base text = signed base (skip_spaces text)

-- `a > b` and `a < -b` of an `int` and a constant.
abbrev pub int_gt : ℕ → ℕ → Bool
int_gt a b = ltb a (2 ^ 31) && ltb b a

abbrev pub int_lt_neg : ℕ → ℕ → Bool
int_lt_neg a b = leb (2 ^ 31) a && ltb a (2 ^ 32 - b)

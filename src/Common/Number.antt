-- ===== src/Common/Number.antt =====
-- std::stoul, std::stoull, std::stol and std::stoll: white space, a sign, a prefix of digits.
use Prim.Native.Nat.{ℕ, ◌+◌, ◌-◌, ◌*◌, ◌%◌, ◌^◌}
use mathlib.Core.Bool.{Bool, true, false, ◌&&◌, ◌||◌}
use mathlib.Core.List.{[], ◌∷◌}
use mathlib.Core.Option.{Option, none, some}
use bootpd.Common.Tests.{ltb, leb, ◌==◌, if◌then◌else◌}
use bootpd.Common.Text.{Bytes, codes}
use bootpd.Common.Outcome.{Result, ok, throw, Calm, invalid_argument, out_of_range}

-- std::isspace of the "C" locale.
abbrev pub is_space : ℕ → Bool
is_space c = c == 32 || (leb 9 c && leb c 13)

-- The value of a digit, 255 for any other character.
abbrev pub digit_value : ℕ → ℕ
digit_value c =
    if leb 48 c && leb c 57
    then c - 48
    else if leb 97 c && leb c 122
    then c - 87
    else if leb 65 c && leb c 90
    then c - 55
    else 255

-- The value and the count of the digits at the front.
unfoldable pub digits : ℕ → ℕ → ℕ → Bytes → ℕ × ℕ
digits base value count [] = (value, count)
digits base value count (c ∷ text) =
    let more = digits base (value * base + digit_value c) (count + 1) text in
    if ltb (digit_value c) base then more else (value, count)

-- The number of `bits` bits that a sign and a magnitude make, none where it is out of range. A
-- negative unsigned number wraps; a signed number is given by its two's complement.
abbrev pub as_unsigned : ℕ → Bool → ℕ → Option ℕ
as_unsigned bits negative value =
    if leb (2 ^ bits) value
    then none
    else some (if negative then (2 ^ bits - value) % 2 ^ bits else value)

abbrev pub as_signed : ℕ → Bool → ℕ → Option ℕ
as_signed bits negative value =
    if ltb (if negative then 2 ^ (bits - 1) else 2 ^ (bits - 1) - 1) value
    then none
    else some (if negative then (2 ^ bits - value) % 2 ^ bits else value)

abbrev pub converted : Option ℕ → ℕ → Result (ℕ × ℕ)
converted none read = throw (out_of_range (codes "stoul argument out of range"))
converted (some value) read = ok (value, read)

-- After the sign: no digit is an error.
unfoldable pub magnitude : (Bool → ℕ → Option ℕ) → ℕ → Bool → ℕ → Bytes → Result (ℕ × ℕ)
magnitude store base negative before text =
    let (value, count) = digits base 0 0 text in
    if count == 0
    then throw (invalid_argument (codes "invalid stoul argument"))
    else converted (store negative value) (before + count)

-- In base 16 the digits may have their own 0x before them.
abbrev pub prefixed : (Bool → ℕ → Option ℕ) → ℕ → Bool → ℕ → Bytes → Result (ℕ × ℕ)
prefixed store base negative before (z ∷ x ∷ d ∷ text) =
    if base == 16 && z == b'0' && (x == b'x' || x == b'X') && ltb (digit_value d) 16
    then magnitude store base negative (before + 2) (d ∷ text)
    else magnitude store base negative before (z ∷ x ∷ d ∷ text)
prefixed store base negative before text = magnitude store base negative before text

unfoldable pub signed : (Bool → ℕ → Option ℕ) → ℕ → ℕ → Bytes → Result (ℕ × ℕ)
signed store base before [] = throw (invalid_argument (codes "invalid stoul argument"))
signed store base before (c ∷ text) =
    if c == b'-'
    then prefixed store base true (before + 1) text
    else if c == b'+'
    then prefixed store base false (before + 1) text
    else prefixed store base false before (c ∷ text)

unfoldable pub spaced : (Bool → ℕ → Option ℕ) → ℕ → ℕ → Bytes → Result (ℕ × ℕ)
spaced store base before [] = throw (invalid_argument (codes "invalid stoul argument"))
spaced store base before (c ∷ text) =
    let more = spaced store base (before + 1) text in
    if is_space c then more else signed store base before (c ∷ text)

-- std::stoul(text, &idx, base) and std::stol(text, &idx, base) where a long has `bits` bits, with the
-- number of characters read as the second part.
abbrev pub stoul : ℕ → ℕ → Bytes → Result (ℕ × ℕ)
stoul bits base text = spaced (as_unsigned bits) base 0 text

abbrev pub stol : ℕ → ℕ → Bytes → Result (ℕ × ℕ)
stol bits base text = spaced (as_signed bits) base 0 text

-- std::stoull(text, &idx, 10).
unfoldable pub stoull : Bytes → Result (ℕ × ℕ)
stoull text = stoul 64 10 text

converted-Calm : (o : Option ℕ) (read : ℕ) → Calm (converted o read)
converted-Calm none read = tt
converted-Calm (some value) read = tt

if-Calm : (b : Bool) (x y : Result (ℕ × ℕ)) → Calm x → Calm y → Calm (if b then x else y)
if-Calm true x y h k = h
if-Calm false x y h k = k

module _ (store : Bool → ℕ → Option ℕ) (base : ℕ) where
  magnitude-Calm :
      (negative : Bool) (before : ℕ) (text : Bytes)
      → Calm (magnitude store base negative before text)
  unfolding magnitude
  magnitude-Calm negative before text =
      if-Calm ((digits base 0 0 text).1 == 0) _ _ tt (
        converted-Calm (store negative (digits base 0 0 text).0)
          (before + (digits base 0 0 text).1))

  prefixed-Calm :
      (negative : Bool) (before : ℕ) (text : Bytes)
      → Calm (prefixed store base negative before text)
  prefixed-Calm negative before [] = magnitude-Calm negative before []
  prefixed-Calm negative before (z ∷ []) = magnitude-Calm negative before (z ∷ [])
  prefixed-Calm negative before (z ∷ x ∷ []) = magnitude-Calm negative before (z ∷ x ∷ [])
  prefixed-Calm negative before (z ∷ x ∷ d ∷ text) =
      if-Calm (base == 16 && z == b'0' && (x == b'x' || x == b'X') && ltb (digit_value d) 16) _ _
        (magnitude-Calm negative (before + 2) (d ∷ text))
        (magnitude-Calm negative before (z ∷ x ∷ d ∷ text))

  signed-Calm : (before : ℕ) (text : Bytes) → Calm (signed store base before text)
  unfolding signed
  signed-Calm before [] = tt
  signed-Calm before (c ∷ text) = if-Calm (c == b'-') _ _ (prefixed-Calm true (before + 1) text) (
      if-Calm (c == b'+') _ _ (prefixed-Calm false (before + 1) text)
        (prefixed-Calm false before (c ∷ text)))

  pub spaced-Calm : (before : ℕ) (text : Bytes) → Calm (spaced store base before text)
  unfolding spaced
  spaced-Calm before [] = tt
  spaced-Calm before (c ∷ text) =
      if-Calm (is_space c) _ _ (spaced-Calm (before + 1) text) (signed-Calm before (c ∷ text))

pub stoull-Calm : (text : Bytes) → Calm (stoull text)
unfolding stoull
stoull-Calm text = spaced-Calm (as_unsigned 64) 10 0 text

-- ===== src/Config/Cast.antt =====
-- common/lexical_cast.hpp: texts as values of the type that is asked for. `long_bits` is the number of
-- bits of a long, 32 or 64 by platform, and `bits` that of the type. The floating-point types are left
-- out: nothing in the program casts to them.
pub mod Decimal
use bootpd.Common.{
  ℕ, ◌%◌, ◌^◌, ◌==◌, leb, Bool, true, not, ◌||◌, if◌then◌else◌, Bytes, codes, [], ◌∷◌, ◌++◌, length,
  Result, ok, throw, ◌>>=◌, bad_lexical_cast, stoul, stol,
}

-- The base, and the text behind its prefix. The test for the upper-case prefix of base 2 is one for
-- the lower-case prefix again.
abbrev pub number_base : Bytes → ℕ × Bytes
number_base (z ∷ x ∷ what) =
    if z == b'0'
    then (if x == b'x' || x == b'X'
        then (16, what)
        else if x == b'o' || x == b'O'
        then (8, what)
        else if x == b'b' || x == b'b'
        then (2, what)
        else (10, z ∷ x ∷ what))
    else (10, z ∷ x ∷ what)
number_base what = (10, what)

-- The check that all of the text was read, and the conversion to the type.
abbrev pub whole : ℕ → Bytes → ℕ × ℕ → Result ℕ
whole bits what (value, offs) =
    if not (offs == length what)
    then throw (bad_lexical_cast (codes "Invalid value: " ++ what))
    else ok (value % 2 ^ bits)

-- The width of the function that is called: std::stoul, or std::stoull where a long is too short.
abbrev pub long_for : ℕ → ℕ → ℕ
long_for long_bits bits = if leb bits long_bits then long_bits else 64

unfoldable pub lexical_cast_unsigned : ℕ → ℕ → Bytes → Result ℕ
lexical_cast_unsigned long_bits bits what =
    let (base, digits) = number_base what in
    stoul (long_for long_bits bits) base digits >>= whole bits digits

-- A signed number is given by its two's complement.
unfoldable pub lexical_cast_signed : ℕ → ℕ → Bytes → Result ℕ
lexical_cast_signed long_bits bits what =
    let (base, digits) = number_base what in
    stol (long_for long_bits bits) base digits >>= whole bits digits

-- bool is an arithmetic type, so that its own branch is never taken.
unfoldable pub lexical_cast_bool : ℕ → Bytes → Result Bool
lexical_cast_bool long_bits what =
    let (base, digits) = number_base what in
    stoul long_bits base digits >>= λ r.
    if not (r.1 == length digits)
    then throw (bad_lexical_cast (codes "Invalid value: " ++ digits))
    else ok (not (r.0 == 0))

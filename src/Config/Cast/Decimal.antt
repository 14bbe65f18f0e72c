-- ===== src/Config/Cast/Decimal.antt =====
-- The casts of decimal texts.
use bootpd.Common.{
  ℕ, ◌%◌, ◌^◌, ◌≡◌, refl, true, ◌==◌, leb, if◌then◌else◌, Bool-cases, inl, inr, Bytes, codes, [],
  ◌∷◌, length, All, ok, throw, out_of_range, arith, as_unsigned, IsDigit, number, IsDecimal,
  spaced-number,
}
use bootpd.Config.Cast.{number_base, long_for, lexical_cast_unsigned}

number_base-decimal : (text : Bytes) → All IsDigit text → number_base text ≡ (10, text)
number_base-decimal [] h = refl
number_base-decimal (z ∷ []) h = refl
number_base-decimal (z ∷ x ∷ text) h = ground (arith, h.1.0.0, h.1.0.1)

-- A text of decimal digits is cast to an unsigned type as its number cut to the width of the type, and
-- out_of_range is thrown exactly where the number does not fit the integer it is read into.
pub lexical_cast-decimal :
    (long_bits bits : ℕ) (text : Bytes)
    → IsDecimal text
    → lexical_cast_unsigned long_bits bits text ≡ (
        if leb (2 ^ long_for long_bits bits) (number 0 text)
        then throw (out_of_range (codes "stoul argument out of range"))
        else ok (number 0 text % 2 ^ bits))
unfolding lexical_cast_unsigned
lexical_cast-decimal long_bits bits text h =
    rw (number_base-decimal text h.0, spaced-number (as_unsigned (long_for long_bits bits)) text h)
      (elim (Bool-cases (leb (2 ^ long_for long_bits bits) (number 0 text))) [
        | inl e ↦ rw e refl
        | inr e ↦ let s : (length text == length text) ≡ true = ground arith in rw e (rw s refl)
      ])

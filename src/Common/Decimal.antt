-- ===== src/Common/Decimal.antt =====
-- The number that a text of decimal digits stands for, as the conversions read it and to_decimal
-- writes it.
use Prim.Native.Nat.{ℕ, zero, suc, ◌+◌, ◌-◌, ◌*◌, ◌/◌, ◌%◌, ◌≤◌, ◌<◌}
use mathlib.Core.Path.{◌≡◌, refl, ap, ◌∙◌}
use mathlib.Core.Logic.{inl, inr}
use mathlib.Core.Bool.{Bool, true, false}
use mathlib.Core.List.{[], ◌∷◌}
use mathlib.Core.Option.{Option}
use native.Mathlib.Omega.{arith}
use bootpd.Common.Tests.{◌==◌, ltb, Bool-cases}
use bootpd.Common.Lists.{length, All}
use bootpd.Common.Text.{Bytes, to_decimal, decimal_loop}
use bootpd.Common.Number.{
  is_space, digit_value, digits, converted, magnitude, prefixed, signed, spaced,
}

abbrev pub IsDigit : ℕ → Type 0
IsDigit c = (48 ≤ c) × (c ≤ 57)

-- The number that a text of digits stands for, read behind `value`.
abbrev pub number : ℕ → Bytes → ℕ
number value [] = value
number value (c ∷ text) = number (value * 10 + (c - 48)) text

digit_value-digit : (c : ℕ) → IsDigit c → digit_value c ≡ c - 48
digit_value-digit c h = ground (arith, h.0, h.1)

pub digits-number :
    (value count : ℕ) (text : Bytes)
    → All IsDigit text
    → digits 10 value count text ≡ (number value text, count + length text)
unfolding digits
digits-number value count [] h = ap (λ n. (value, n)) (omega arith)
digits-number value count (c ∷ text) h =
    let e = digit_value-digit c h.0 in
    let small : ltb (c - 48) 10 ≡ true = ground (arith, h.0.0, h.0.1) in
    let n : count + 1 + length text ≡ count + suc (length text) = omega arith in
    rw (e, small, digits-number (value * 10 + (c - 48)) (count + 1) text h.1, n) refl

-- A text of digits, one at least.
abbrev pub IsDecimal : Bytes → Type 0
IsDecimal text = All IsDigit text × (0 < length text)

magnitude-number :
    (store : Bool → ℕ → Option ℕ) (text : Bytes)
    → IsDecimal text
    → magnitude store 10 false 0 text ≡ converted (store false (number 0 text)) (length text)
unfolding magnitude
magnitude-number store text h =
    let z : (0 + length text == 0) ≡ false = ground (arith, h.1) in
    let n : 0 + (0 + length text) ≡ length text = omega arith in
    rw (digits-number 0 0 text h.0, z, n) refl

prefixed-magnitude :
    (store : Bool → ℕ → Option ℕ) (text : Bytes)
    → prefixed store 10 false 0 text ≡ magnitude store 10 false 0 text
prefixed-magnitude store [] = refl
prefixed-magnitude store (z ∷ []) = refl
prefixed-magnitude store (z ∷ x ∷ []) = refl
prefixed-magnitude store (z ∷ x ∷ d ∷ text) = refl

pub spaced-number :
    (store : Bool → ℕ → Option ℕ) (text : Bytes)
    → IsDecimal text
    → spaced store 10 0 text ≡ converted (store false (number 0 text)) (length text)
unfolding spaced signed
spaced-number store [] h = absurd (omega (arith, h.1))
spaced-number store (c ∷ text) h =
    let s : is_space c ≡ false = ground (arith, h.0.0.0, h.0.0.1) in
    let m : (c == b'-') ≡ false = ground (arith, h.0.0.0, h.0.0.1) in
    let p : (c == b'+') ≡ false = ground (arith, h.0.0.0, h.0.0.1) in
    rw (s, m, p, prefixed-magnitude store (c ∷ text)) (magnitude-number store (c ∷ text) h)

-- The digits that to_decimal puts before `acc`.
decimal_loop-number :
    (fuel n : ℕ) (acc : Bytes)
    → n < fuel
    → All IsDigit acc
    → IsDecimal (decimal_loop fuel n acc) × (number 0 (decimal_loop fuel n acc) ≡ number n acc)
unfolding decimal_loop
decimal_loop-number zero n acc h d = absurd (omega (arith, h))
decimal_loop-number (suc fuel) n acc h d =
    let digit : IsDigit (n % 10 + 48) = (omega arith, omega arith) in
    elim (Bool-cases (n / 10 == 0)) [
      | inl e ↦
          let small : 0 * 10 + (n % 10 + 48 - 48) ≡ n = ground (arith, e) in
          rw e (((digit, d), omega arith), ap (λ v. number v acc) small)
      | inr e ↦
          let less : n / 10 < fuel = ground (arith, e, h) in
          let whole_number : n / 10 * 10 + (n % 10 + 48 - 48) ≡ n = omega arith in
          let (dec, value) =
            decimal_loop-number fuel (n / 10) ((n % 10 + 48) ∷ acc) less (digit, d) in
          rw e (dec, value ∙ ap (λ v. number v acc) whole_number)
    ]

pub to_decimal-number : (n : ℕ) → IsDecimal (to_decimal n) × (number 0 (to_decimal n) ≡ n)
unfolding to_decimal
to_decimal-number n = decimal_loop-number (suc n) n [] (omega arith) tt

-- ===== src/Checksum/Xor.antt =====
-- Exclusive or of numbers, digit by digit.
use Prim.Native.Nat.{digits, bitwise, differ, bit_xor, bit_xor-bitwise}
use native.Mathlib.Nat.{le_refl}
use bootpd.Common.{ℕ, zero, suc, ◌+◌, ◌*◌, ◌/◌, ◌%◌, ◌≤◌, ◌<◌, ◌≡◌, refl, sym, ap, ◌∙◌, arith}

module _ (z : ℕ → ℕ) (f : ℕ → ℕ → ℕ) where
  -- How many digits are allowed for does not matter where they are enough.
  digits_enough : (k l x y : ℕ) → x ≤ k → x ≤ l → digits z f k x y ≡ digits z f l x y
  digits_enough (suc k) (suc l) (suc x) y h g =
      ap (λ rest. rest * 2 + f (suc x % 2) (y % 2))
        (digits_enough k l (suc x / 2) (y / 2) (omega arith) (omega arith))
  digits_enough (suc k) (suc l) zero y h g = refl
  digits_enough (suc k) zero zero y h g = refl
  digits_enough zero (suc l) zero y h g = refl
  digits_enough zero zero x y h g = refl
  digits_enough (suc k) zero (suc x) y h g = absurd (omega arith)
  digits_enough zero (suc l) (suc x) y h g = absurd (omega arith)

  lowest_digit :
      (x y : ℕ)
      → bitwise z f (suc x) y ≡ bitwise z f (suc x / 2) (y / 2) * 2 + f (suc x % 2) (y % 2)
  lowest_digit x y =
      ap (λ rest. rest * 2 + f (suc x % 2) (y % 2))
        (digits_enough x (suc x / 2) (suc x / 2) (y / 2) (omega arith) (le_refl _))

pub xor_zero : (b : ℕ) → bit_xor 0 b ≡ b
xor_zero b = simp bit_xor-bitwise refl

pub xor_step : (a b : ℕ) → bit_xor a b ≡ bit_xor (a / 2) (b / 2) * 2 + differ (a % 2) (b % 2)
xor_step zero b = omega (arith, xor_zero b, xor_zero (b / 2))
xor_step (suc a) b = simp bit_xor-bitwise (lowest_digit (λ y. y) differ a b)

-- What differ is on two digits.
differ_digit : (r s : ℕ) → r < 2 → s < 2 → differ r s < 2
differ_digit zero s p q = q
differ_digit (suc zero) zero p q = omega arith
differ_digit (suc zero) (suc zero) p q = omega arith
differ_digit (suc zero) (suc (suc s)) p q = absurd (omega arith)
differ_digit (suc (suc r)) s p q = absurd (omega arith)

differ_comm : (r s : ℕ) → r < 2 → s < 2 → differ r s ≡ differ s r
differ_comm zero zero p q = refl
differ_comm zero (suc s) p q = refl
differ_comm (suc zero) zero p q = refl
differ_comm (suc zero) (suc zero) p q = refl
differ_comm (suc zero) (suc (suc s)) p q = absurd (omega arith)
differ_comm (suc (suc r)) s p q = absurd (omega arith)

differ_assoc : (r s t : ℕ) → r < 2 → s < 2 → t < 2 → differ (differ r s) t ≡ differ r (differ s t)
differ_assoc zero s t p q l = refl
differ_assoc (suc zero) zero t p q l = refl
differ_assoc (suc zero) (suc zero) zero p q l = refl
differ_assoc (suc zero) (suc zero) (suc zero) p q l = refl
differ_assoc (suc zero) (suc zero) (suc (suc t)) p q l = absurd (omega arith)
differ_assoc (suc zero) (suc (suc s)) t p q l = absurd (omega arith)
differ_assoc (suc (suc r)) s t p q l = absurd (omega arith)

differ_self : (r : ℕ) → r < 2 → differ r r ≡ 0
differ_self zero p = refl
differ_self (suc zero) p = refl
differ_self (suc (suc r)) p = absurd (omega arith)

-- The lowest digit of an exclusive or, and the rest of it.
pub xor_half : (a b : ℕ) → bit_xor a b / 2 ≡ bit_xor (a / 2) (b / 2)
xor_half a b = omega (arith, xor_step a b, differ_digit (a % 2) (b % 2) (omega arith) (omega arith))

pub xor_digit : (a b : ℕ) → bit_xor a b % 2 ≡ differ (a % 2) (b % 2)
xor_digit a b =
    omega (arith, xor_step a b, differ_digit (a % 2) (b % 2) (omega arith) (omega arith))

-- `q` with `n` digits 0 behind it.
abbrev pub shl : ℕ → ℕ → ℕ
shl zero q = q
shl (suc n) q = shl n q * 2

-- The laws hold of numbers of `n` digits.
pub xor_bound : (n a b : ℕ) → a < shl n 1 → b < shl n 1 → bit_xor a b < shl n 1
xor_bound zero zero b p q = omega (arith, xor_zero b)
xor_bound zero (suc a) b p q = absurd (omega arith)
xor_bound (suc n) a b p q = omega (
  arith,
  xor_bound n (a / 2) (b / 2) (omega arith) (omega arith),
  xor_step a b,
  differ_digit (a % 2) (b % 2) (omega arith) (omega arith),
)

pub xor_comm : (n a b : ℕ) → a < shl n 1 → b < shl n 1 → bit_xor a b ≡ bit_xor b a
xor_comm zero a b p q =
    let ea : a ≡ 0 = omega arith in let eb : b ≡ 0 = omega arith in rw (ea, eb) refl
xor_comm (suc n) a b p q = omega (
  arith,
  xor_comm n (a / 2) (b / 2) (omega arith) (omega arith),
  xor_step a b,
  xor_step b a,
  differ_comm (a % 2) (b % 2) (omega arith) (omega arith),
)

pub xor_assoc :
    (n a b c : ℕ)
    → a < shl n 1
    → b < shl n 1
    → c < shl n 1
    → bit_xor (bit_xor a b) c ≡ bit_xor a (bit_xor b c)
xor_assoc zero a b c p q l =
    let ea : a ≡ 0 = omega arith in rw (ea, xor_zero b, xor_zero (bit_xor b c)) refl
xor_assoc (suc n) a b c p q l =
    let digit = differ_assoc (a % 2) (b % 2) (c % 2) (omega arith) (omega arith) (omega arith) in
    let half = xor_assoc n (a / 2) (b / 2) (c / 2) (omega arith) (omega arith) (omega arith) in
    let left : bit_xor (bit_xor a b) c
        ≡ bit_xor (bit_xor (a / 2) (b / 2)) (c / 2) * 2 + differ (differ (a % 2) (b % 2)) (c % 2) =
      rw (sym (xor_half a b), sym (xor_digit a b)) (xor_step (bit_xor a b) c) in
    let right : bit_xor a (bit_xor b c)
        ≡ bit_xor (a / 2) (bit_xor (b / 2) (c / 2)) * 2 + differ (a % 2) (differ (b % 2) (c % 2)) =
      rw (sym (xor_half b c), sym (xor_digit b c)) (xor_step a (bit_xor b c)) in
    omega (arith, left, right, half, digit)

pub xor_self : (n a : ℕ) → a < shl n 1 → bit_xor a a ≡ 0
xor_self zero a p = let ea : a ≡ 0 = omega arith in rw ea (xor_zero 0)
xor_self (suc n) a p =
    omega (arith, xor_self n (a / 2) (omega arith), xor_step a a, differ_self (a % 2) (omega arith))

-- Numbers in two blocks, the lower of `n` digits.
pub xor_blocks :
    (n q r p s : ℕ)
    → r < shl n 1
    → s < shl n 1
    → bit_xor (shl n q + r) (shl n p + s) ≡ shl n (bit_xor q p) + bit_xor r s
xor_blocks zero q r p s h k =
    let er : r ≡ 0 = omega arith in
    let es : s ≡ 0 = omega arith in
    let eq : q + 0 ≡ q = omega arith in
    let ep : p + 0 ≡ p = omega arith in rw (er, es, eq, ep, xor_zero 0) (omega arith)
xor_blocks (suc n) q r p s h k =
    let rest = xor_blocks n q (r / 2) p (s / 2) (omega arith) (omega arith) in
    let a : (shl n q * 2 + r) / 2 ≡ shl n q + r / 2 = omega arith in
    let b : (shl n p * 2 + s) / 2 ≡ shl n p + s / 2 = omega arith in
    let c : (shl n q * 2 + r) % 2 ≡ r % 2 = omega arith in
    let d : (shl n p * 2 + s) % 2 ≡ s % 2 = omega arith in
    let step : bit_xor (shl n q * 2 + r) (shl n p * 2 + s)
        ≡ bit_xor (shl n q + r / 2) (shl n p + s / 2) * 2 + differ (r % 2) (s % 2) =
      rw (sym a, sym b, sym c, sym d) (xor_step (shl n q * 2 + r) (shl n p * 2 + s)) in
    omega (arith, step, rest, xor_step r s)

pub xor_double : (a b : ℕ) → bit_xor (a * 2) (b * 2) ≡ bit_xor a b * 2
xor_double a b =
    let ha : a * 2 / 2 ≡ a = omega arith in
    let hb : b * 2 / 2 ≡ b = omega arith in
    let da : a * 2 % 2 ≡ 0 = omega arith in
    let db : b * 2 % 2 ≡ 0 = omega arith in
    let step = rw (ha, hb, da, db) at (xor_step (a * 2) (b * 2)) in omega (arith, step)

pub xor_right_zero : (n a : ℕ) → a < shl n 1 → bit_xor a 0 ≡ a
xor_right_zero n a h = xor_comm n a 0 h (omega (arith, h)) ∙ xor_zero a

-- Two sums of two are added in any order.
pub xor_interchange :
    (n a b c d : ℕ)
    → a < shl n 1
    → b < shl n 1
    → c < shl n 1
    → d < shl n 1
    → bit_xor (bit_xor a b) (bit_xor c d) ≡ bit_xor (bit_xor a c) (bit_xor b d)
xor_interchange n a b c d ha hb hc hd =
    xor_assoc n a b (bit_xor c d) ha hb (xor_bound n c d hc hd)
    ∙ ap (bit_xor a) (
        sym (xor_assoc n b c d hb hc hd)
        ∙ ap (λ x. bit_xor x d) (xor_comm n b c hb hc)
        ∙ xor_assoc n c b d hc hb hd)
    ∙ sym (xor_assoc n a c (bit_xor b d) ha hc (xor_bound n b d hb hd))

differ_zero : (r s : ℕ) → r < 2 → s < 2 → differ r s ≡ 0 → r ≡ s
differ_zero zero s p q e = sym e
differ_zero (suc zero) zero p q e = absurd (omega arith)
differ_zero (suc zero) (suc zero) p q e = refl
differ_zero (suc zero) (suc (suc s)) p q e = absurd (omega arith)
differ_zero (suc (suc r)) s p q e = absurd (omega arith)

-- Only a number itself adds up to 0 with it.
pub xor_zero→eq : (n a b : ℕ) → a < shl n 1 → b < shl n 1 → bit_xor a b ≡ 0 → a ≡ b
xor_zero→eq zero a b h k e = omega arith
xor_zero→eq (suc n) a b h k e =
    let half : bit_xor (a / 2) (b / 2) ≡ 0 = omega (arith, xor_half a b, e) in
    let digit : differ (a % 2) (b % 2) ≡ 0 = omega (arith, xor_digit a b, e) in
    omega (
      arith,
      xor_zero→eq n (a / 2) (b / 2) (omega arith) (omega arith) half,
      differ_zero (a % 2) (b % 2) (omega arith) (omega arith) digit,
    )

pub xor_cancel :
    (n a b c : ℕ) → a < shl n 1 → b < shl n 1 → c < shl n 1 → bit_xor a b ≡ bit_xor a c → b ≡ c
xor_cancel n a b c ha hb hc e = xor_zero→eq n b c hb hc (
    sym (xor_zero (bit_xor b c))
    ∙ ap (λ z. bit_xor z (bit_xor b c)) (sym (xor_self n a ha))
    ∙ xor_interchange n a a b c ha ha hb hc
    ∙ ap (λ z. bit_xor z (bit_xor a c)) e
    ∙ xor_self n (bit_xor a c) (xor_bound n a c ha hc))

-- ===== src/Checksum/Crc.antt =====
-- crc32 against the division of polynomials that its table abbreviates, one bit at a time.
use Prim.Native.Nat.{bit_and, bit_xor}
use native.Mathlib.Decide.{ℕ_discrete}
use mathlib.Core.Logic.{ite}
use bootpd.Common.{
  ℕ, zero, suc, ◌+◌, ◌*◌, ◌/◌, ◌%◌, ◌^◌, ◌≤◌, ◌<◌, ◌≡◌, refl, sym, ap, ◌∙◌, List, [], ◌∷◌, Bytes,
  Bool, Bool-cases, inl, inr, subst, true, false, leb, get_elem?, get_or, length, if◌then◌else◌,
  some, ok, ◌>>=◌, arith,
}
use bootpd.Serdes.Writer.Laws.{AllBytes}
use bootpd.Checksum.{tab, entry, crc32}
use bootpd.Checksum.Xor.{
  shl, xor_zero, xor_bound, xor_blocks, xor_double, xor_right_zero, xor_interchange,
}

-- CRC-32 of the polynomial 0x04c11db7, the highest bit first: a bit that leaves the register at the
-- top subtracts the polynomial.
abbrev pub shift_bit : ℕ → ℕ
shift_bit crc = if leb (2 ^ 31) crc then bit_xor (crc * 2 % 2 ^ 32) 0x04c11db7 else crc * 2 % 2 ^ 32

abbrev pub shift_bits : ℕ → ℕ → ℕ
shift_bits zero crc = crc
shift_bits (suc n) crc = shift_bits n (shift_bit crc)

-- Each byte is added to the top of the register, and its eight bits are shifted out.
abbrev pub crc_by_bits : Bytes → ℕ → ℕ
crc_by_bits [] crc = crc
crc_by_bits (value ∷ buffer) crc = crc_by_bits buffer (shift_bits 8 (bit_xor crc (value * 2 ^ 24)))

-- A register of a top bit and 31 bits below it.
abbrev pub topped : ℕ → ℕ → ℕ
topped t l = shl 31 t + l

pub shift_bit-topped :
    (t l : ℕ) → t < 2 → l < shl 31 1 → shift_bit (topped t l) ≡ bit_xor (l * 2) (t * 0x04c11db7)
shift_bit-topped zero l p h =
    let low : shift_bit (topped 0 l) ≡ l * 2 = ground arith in
    low ∙ sym (xor_right_zero 32 (l * 2) (omega arith))
shift_bit-topped (suc zero) l p h =
    let e : topped 1 l * 2 % 2 ^ 32 ≡ l * 2 = omega arith in
    let top : leb (2 ^ 31) (topped 1 l) ≡ true = ground arith in rw (top, e) refl
shift_bit-topped (suc (suc t)) l p h = absurd (omega arith)

polynomial_digit :
    (t u : ℕ) → t < 2 → u < 2 → bit_xor t u * 0x04c11db7 ≡ bit_xor (t * 0x04c11db7) (u * 0x04c11db7)
polynomial_digit zero zero p q = refl
polynomial_digit zero (suc zero) p q = refl
polynomial_digit (suc zero) zero p q = refl
polynomial_digit (suc zero) (suc zero) p q = refl
polynomial_digit zero (suc (suc u)) p q = absurd (omega arith)
polynomial_digit (suc zero) (suc (suc u)) p q = absurd (omega arith)
polynomial_digit (suc (suc t)) u p q = absurd (omega arith)

-- Adding two registers and shifting is shifting both and adding them.
shift_bit-topped_xor :
    (t u l m : ℕ)
    → t < 2
    → u < 2
    → l < shl 31 1
    → m < shl 31 1
    → shift_bit (bit_xor (topped t l) (topped u m))
      ≡ bit_xor (shift_bit (topped t l)) (shift_bit (topped u m))
shift_bit-topped_xor t u l m p q h k =
    ap shift_bit (xor_blocks 31 t l u m h k)
    ∙ shift_bit-topped (bit_xor t u) (bit_xor l m) (xor_bound 1 t u p q) (xor_bound 31 l m h k)
    ∙ rw (polynomial_digit t u p q, sym (xor_double l m))
        (xor_interchange 32 (l * 2) (m * 2) (t * 0x04c11db7) (u * 0x04c11db7) (omega arith)
          (omega arith) (omega arith) (omega arith))
    ∙ sym (
        ap (λ x. bit_xor x (shift_bit (topped u m))) (shift_bit-topped t l p h)
        ∙ ap (bit_xor (bit_xor (l * 2) (t * 0x04c11db7))) (shift_bit-topped u m q k))

-- The same of any two registers of 32 bits.
pub shift_bit-xor :
    (a b : ℕ)
    → a < 2 ^ 32
    → b < 2 ^ 32
    → shift_bit (bit_xor a b) ≡ bit_xor (shift_bit a) (shift_bit b)
shift_bit-xor a b h k =
    let ea : topped (a / 2 ^ 31) (a % 2 ^ 31) ≡ a = omega arith in
    let eb : topped (b / 2 ^ 31) (b % 2 ^ 31) ≡ b = omega arith in
    subst (λ x. shift_bit (bit_xor x b) ≡ bit_xor (shift_bit x) (shift_bit b)) ea
      (subst
        (λ y.
          shift_bit (bit_xor (topped (a / 2 ^ 31) (a % 2 ^ 31)) y)
          ≡ bit_xor (shift_bit (topped (a / 2 ^ 31) (a % 2 ^ 31))) (shift_bit y))
        eb
        (shift_bit-topped_xor (a / 2 ^ 31) (b / 2 ^ 31) (a % 2 ^ 31) (b % 2 ^ 31) (omega arith)
          (omega arith) (omega arith) (omega arith)))

pub shift_bit_bound : (a : ℕ) → a < 2 ^ 32 → shift_bit a < 2 ^ 32
shift_bit_bound a h = elim (Bool-cases (leb (2 ^ 31) a)) [
  | inl e ↦ rw e (xor_bound 32 (a * 2 % 2 ^ 32) 0x04c11db7 (omega arith) (omega arith))
  | inr e ↦ rw e (omega arith)
]

shift_bits-xor :
    (n a b : ℕ)
    → a < 2 ^ 32
    → b < 2 ^ 32
    → shift_bits n (bit_xor a b) ≡ bit_xor (shift_bits n a) (shift_bits n b)
shift_bits-xor zero a b h k = refl
shift_bits-xor (suc n) a b h k =
    ap (shift_bits n) (shift_bit-xor a b h k)
    ∙ shift_bits-xor n (shift_bit a) (shift_bit b) (shift_bit_bound a h) (shift_bit_bound b k)

shl-double : (n q : ℕ) → shl n (q * 2) ≡ shl n q * 2
shl-double zero q = refl
shl-double (suc n) q = ap (λ x. x * 2) (shl-double n q)

shl_le : (n q : ℕ) → q ≤ shl n q
shl_le zero q = omega arith
shl_le (suc n) q = omega (arith, shl_le n q)

-- Where the top of the register is empty, nothing is subtracted.
shift_bits_low : (n l : ℕ) → shl n l < 2 ^ 32 → shift_bits n l ≡ shl n l
shift_bits_low zero l h = refl
shift_bits_low (suc n) l h =
    let low : shift_bit l ≡ l * 2 = ground (arith, shl_le n l) in
    ap (shift_bits n) low
    ∙ shift_bits_low n (l * 2) (omega (arith, shl-double n l))
    ∙ shl-double n l

-- Two functions are compared below a bound by evaluation.
module _ (f g : ℕ → ℕ) where
  agree_below : ℕ → Bool
  unfolding ℕ_discrete
  agree_below zero = true
  agree_below (suc n) = ite (ℕ_discrete (f n) (g n)) (agree_below n) false

  agree_below→eq : (n : ℕ) → agree_below n ≡ true → (i : ℕ) → i < n → f i ≡ g i
  unfolding agree_below
  agree_below→eq zero e i h = absurd (omega arith)
  agree_below→eq (suc n) e i h = ground (arith, agree_below→eq n (ground arith) i)

-- The table has what a byte at the top of the register leaves when it is shifted out.
tab_lem : (i : ℕ) → i < 256 → get_or tab i 0 ≡ shift_bits 8 (i * 2 ^ 24)
unfolding agree_below
tab_lem = agree_below→eq (λ i. get_or tab i 0) (λ i. shift_bits 8 (i * 2 ^ 24)) 256 refl

low_byte : (i : ℕ) → i < 256 → bit_and i 0xff ≡ i
unfolding agree_below
low_byte = agree_below→eq (λ i. bit_and i 0xff) (λ i. i) 256 refl

get_elem?-get_or : (xs : List ℕ) (i : ℕ) → i < length xs → get_elem? xs i ≡ some (get_or xs i 0)
get_elem?-get_or [] i h = absurd (omega arith)
get_elem?-get_or (x ∷ xs) zero h = refl
get_elem?-get_or (x ∷ xs) (suc i) h = get_elem?-get_or xs i (omega arith)

-- A register of a byte and 24 bits below it, to which a byte is added at the top.
add_byte :
    (hi lo value : ℕ)
    → lo < 2 ^ 24
    → bit_xor (hi * 2 ^ 24 + lo) (value * 2 ^ 24) ≡ bit_xor hi value * 2 ^ 24 + lo
add_byte hi lo value h =
    let e₁ : hi * 2 ^ 24 + lo ≡ shl 24 hi + lo = omega arith in
    let e₂ : value * 2 ^ 24 ≡ shl 24 value + 0 = omega arith in
    let parts : bit_xor (shl 24 hi + lo) (shl 24 value + 0) ≡ bit_xor hi value * 2 ^ 24 + lo =
      omega (arith, xor_blocks 24 hi lo value 0 h (omega arith), xor_right_zero 24 lo h) in
    ap (λ x. bit_xor x (value * 2 ^ 24)) e₁ ∙ ap (bit_xor (shl 24 hi + lo)) e₂ ∙ parts

-- One round of the loop, for a register whose upper byte is `hi`.
round :
    (hi lo value : ℕ)
    → hi < 256
    → lo < 2 ^ 24
    → value < 256
    → bit_xor (lo * 2 ^ 8) (shift_bits 8 (bit_xor hi value * 2 ^ 24))
      ≡ shift_bits 8 (bit_xor (hi * 2 ^ 24 + lo) (value * 2 ^ 24))
round hi lo value p h k =
    let i = bit_xor hi value in
    let bound : i < 256 = xor_bound 8 hi value p k in
    let low : lo * 2 ^ 8 ≡ shift_bits 8 lo =
      (let e : shl 8 lo ≡ lo * 2 ^ 8 = omega arith in
        sym e ∙ sym (shift_bits_low 8 lo (omega arith))) in
    let front : lo ≡ 0 * 2 ^ 24 + lo = omega arith in
    let together : bit_xor lo (i * 2 ^ 24) ≡ i * 2 ^ 24 + lo =
      ap (λ x. bit_xor x (i * 2 ^ 24)) front
      ∙ add_byte 0 lo i h
      ∙ ap (λ x. x * 2 ^ 24 + lo) (xor_zero i) in
    ap (λ x. bit_xor x (shift_bits 8 (i * 2 ^ 24))) low
    ∙ sym (shift_bits-xor 8 lo (i * 2 ^ 24) (omega arith) (omega (arith, bound)))
    ∙ ap (shift_bits 8) (together ∙ sym (add_byte hi lo value h))

step_lem :
    (crc value : ℕ)
    → crc < 2 ^ 32
    → value < 256
    → let e = shift_bits 8 (bit_xor (crc / 2 ^ 24) value * 2 ^ 24) in
      (entry (get_elem? tab (bit_and (bit_xor (crc / 2 ^ 24) value) 0xff)) ≡ ok e)
      × (bit_xor (crc * 2 ^ 8 % 2 ^ 32) e ≡ shift_bits 8 (bit_xor crc (value * 2 ^ 24)))
step_lem crc value h k =
    let i = bit_xor (crc / 2 ^ 24) value in
    let bound : i < 256 = xor_bound 8 (crc / 2 ^ 24) value (omega arith) k in
    let kept : crc * 2 ^ 8 % 2 ^ 32 ≡ crc % 2 ^ 24 * 2 ^ 8 = omega arith in
    let whole : crc / 2 ^ 24 * 2 ^ 24 + crc % 2 ^ 24 ≡ crc = omega arith in
    (
      rw (low_byte i bound, get_elem?-get_or tab i bound, tab_lem i bound) refl,
      ap (λ x. bit_xor x (shift_bits 8 (i * 2 ^ 24))) kept
          ∙ round (crc / 2 ^ 24) (crc % 2 ^ 24) value (omega arith) (omega arith) k
          ∙ ap (λ x. shift_bits 8 (bit_xor x (value * 2 ^ 24))) whole,
    )

pub shift_bits_bound : (n a : ℕ) → a < 2 ^ 32 → shift_bits n a < 2 ^ 32
shift_bits_bound zero a h = h
shift_bits_bound (suc n) a h = shift_bits_bound n (shift_bit a) (shift_bit_bound a h)

-- On every buffer of bytes and from every register of 32 bits the loop reads its table within bounds,
-- and what it returns is the cyclic redundancy check of the polynomial 0x04c11db7, computed one bit at
-- a time with the highest bit first, which has 32 bits.
pub crc32-crc_by_bits :
    (buffer : Bytes) (crc : ℕ)
    → AllBytes buffer
    → crc < 2 ^ 32
    → (crc32 buffer crc ≡ ok (crc_by_bits buffer crc)) × (crc_by_bits buffer crc < 2 ^ 32)
unfolding crc32
crc32-crc_by_bits [] crc h b = (refl, b)
crc32-crc_by_bits (value ∷ buffer) crc h b =
    let (e₁, e₂) = step_lem crc value b h.0 in
    let next = shift_bits 8 (bit_xor crc (value * 2 ^ 24)) in
    let bound : next < 2 ^ 32 =
      shift_bits_bound 8 (bit_xor crc (value * 2 ^ 24))
        (xor_bound 32 crc (value * 2 ^ 24) b (omega (arith, h.0))) in
    let (e₃, b₃) = crc32-crc_by_bits buffer next h.1 bound in
    (
      ap (λ m. m >>= λ e. crc32 buffer (bit_xor (crc * 2 ^ 8 % 2 ^ 32) e)) e₁
          ∙ ap (crc32 buffer) e₂
          ∙ e₃,
      b₃,
    )

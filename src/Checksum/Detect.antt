-- ===== src/Checksum/Detect.antt =====
-- crc32: one byte that is changed changes the checksum.
use Prim.Native.Nat.{bit_xor}
use bootpd.Common.{
  All-append, All-append_left, All-append_right, ℕ, zero, suc, ◌*◌, ◌/◌, ◌%◌, ◌^◌, ◌<◌, ◌≡◌, ◌≢◌,
  refl, sym, ap, ◌∙◌, [], ◌∷◌, ◌++◌, Bytes, ok-injective, arith,
}
use bootpd.Serdes.Writer.Laws.{AllBytes}
use bootpd.Checksum.{crc32}
use bootpd.Checksum.Xor.{shl, xor_bound, xor_self, xor_comm, xor_zero→eq, xor_cancel}
use bootpd.Checksum.Crc.{
  shift_bit, shift_bits, crc_by_bits, topped, shift_bit-topped, shift_bit-xor, shift_bit_bound,
  shift_bits_bound, crc32-crc_by_bits,
}

-- The polynomial is odd, and what is shifted is even.
shift_bit-topped_zero :
    (t l : ℕ) → t < 2 → l < shl 31 1 → shift_bit (topped t l) ≡ 0 → topped t l ≡ 0
shift_bit-topped_zero zero l p h e = omega (
  arith,
  xor_zero→eq 32 (l * 2) 0 (omega arith) (omega arith) (sym (shift_bit-topped 0 l p h) ∙ e),
)
shift_bit-topped_zero (suc zero) l p h e = absurd (
    omega (
      arith,
      xor_zero→eq 32 (l * 2) 0x04c11db7 (omega arith) (omega arith)
          (sym (shift_bit-topped 1 l p h) ∙ e),
    ))
shift_bit-topped_zero (suc (suc t)) l p h e = absurd (omega arith)

shift_bit_zero : (a : ℕ) → a < 2 ^ 32 → shift_bit a ≡ 0 → a ≡ 0
shift_bit_zero a h e =
    let whole : topped (a / 2 ^ 31) (a % 2 ^ 31) ≡ a = omega arith in
    sym whole
    ∙ shift_bit-topped_zero (a / 2 ^ 31) (a % 2 ^ 31) (omega arith) (omega arith)
        (ap shift_bit whole ∙ e)

shift_bit-injective : (a b : ℕ) → a < 2 ^ 32 → b < 2 ^ 32 → shift_bit a ≡ shift_bit b → a ≡ b
shift_bit-injective a b h k e = xor_zero→eq 32 a b h k (
    shift_bit_zero (bit_xor a b) (xor_bound 32 a b h k) (
      shift_bit-xor a b h k
      ∙ ap (λ x. bit_xor x (shift_bit b)) e
      ∙ xor_self 32 (shift_bit b) (shift_bit_bound b k)))

shift_bits-injective :
    (n a b : ℕ) → a < 2 ^ 32 → b < 2 ^ 32 → shift_bits n a ≡ shift_bits n b → a ≡ b
shift_bits-injective zero a b h k e = e
shift_bits-injective (suc n) a b h k e = shift_bit-injective a b h k (
    shift_bits-injective n (shift_bit a) (shift_bit b) (shift_bit_bound a h) (shift_bit_bound b k)
      e)

-- The register that a byte leads to.
abbrev next : ℕ → ℕ → ℕ
next crc value = shift_bits 8 (bit_xor crc (value * 2 ^ 24))

next_bound : (crc value : ℕ) → crc < 2 ^ 32 → value < 256 → next crc value < 2 ^ 32
next_bound crc value h k =
    shift_bits_bound 8 (bit_xor crc (value * 2 ^ 24))
      (xor_bound 32 crc (value * 2 ^ 24) h (omega arith))

next-injective_byte :
    (crc x y : ℕ) → crc < 2 ^ 32 → x < 256 → y < 256 → next crc x ≡ next crc y → x ≡ y
next-injective_byte crc x y h p q e =
    let same = xor_cancel 32 crc (x * 2 ^ 24) (y * 2 ^ 24) h (omega arith) (omega arith) (
      shift_bits-injective 8 (bit_xor crc (x * 2 ^ 24)) (bit_xor crc (y * 2 ^ 24))
        (xor_bound 32 crc (x * 2 ^ 24) h (omega arith))
        (xor_bound 32 crc (y * 2 ^ 24) h (omega arith)) e) in
    omega (arith, same)

next-injective : (c d x : ℕ) → c < 2 ^ 32 → d < 2 ^ 32 → x < 256 → next c x ≡ next d x → c ≡ d
next-injective c d x h k p e =
    let v = x * 2 ^ 24 in
    let v32 : v < 2 ^ 32 = omega arith in
    let same =
      shift_bits-injective 8 (bit_xor c v) (bit_xor d v) (xor_bound 32 c v h v32)
        (xor_bound 32 d v k v32) e in
    xor_cancel 32 v c d v32 h k (xor_comm 32 v c v32 h ∙ same ∙ xor_comm 32 d v k v32)

crc_by_bits-injective :
    (buffer : Bytes) (c d : ℕ)
    → AllBytes buffer
    → c < 2 ^ 32
    → d < 2 ^ 32
    → crc_by_bits buffer c ≡ crc_by_bits buffer d
    → c ≡ d
crc_by_bits-injective [] c d b h k e = e
crc_by_bits-injective (x ∷ buffer) c d b h k e = next-injective c d x h k b.0 (
    crc_by_bits-injective buffer (next c x) (next d x) b.1 (next_bound c x h b.0)
      (next_bound d x k b.0) e)

crc_by_bits-append :
    (front back : Bytes) (crc : ℕ)
    → crc_by_bits (front ++ back) crc ≡ crc_by_bits back (crc_by_bits front crc)
crc_by_bits-append [] back crc = refl
crc_by_bits-append (x ∷ front) back crc = crc_by_bits-append front back (next crc x)

crc32-injective_byte :
    (front back : Bytes) (x y crc : ℕ)
    → AllBytes (front ++ x ∷ back)
    → y < 256
    → crc < 2 ^ 32
    → crc32 (front ++ x ∷ back) crc ≡ crc32 (front ++ y ∷ back) crc
    → x ≡ y
crc32-injective_byte front back x y crc h hy b e =
    let front_h = All-append_left _ front (x ∷ back) h in
    let back_h = All-append_right _ front (x ∷ back) h in
    let (e₁, b₁) = crc32-crc_by_bits front crc front_h b in
    let (e₂, b₂) = crc32-crc_by_bits (front ++ x ∷ back) crc h b in
    let (e₃, b₃) =
      crc32-crc_by_bits (front ++ y ∷ back) crc
        (All-append _ front (y ∷ back) front_h (hy, back_h.1)) b in
    let register = crc_by_bits front crc in
    next-injective_byte register x y b₁ back_h.0 hy (
      crc_by_bits-injective back (next register x) (next register y) back_h.1
        (next_bound register x b₁ back_h.0) (next_bound register y b₁ hy)
        (sym (crc_by_bits-append front (x ∷ back) crc)
          ∙ ok-injective (sym e₂ ∙ e ∙ e₃)
          ∙ crc_by_bits-append front (y ∷ back) crc))

-- In a buffer of bytes the change of one byte, wherever it stands, changes the checksum from every
-- register of 32 bits.
pub crc32-changed_byte :
    (front back : Bytes) (x y crc : ℕ)
    → AllBytes (front ++ x ∷ back)
    → y < 256
    → crc < 2 ^ 32
    → x ≢ y
    → crc32 (front ++ x ∷ back) crc ≢ crc32 (front ++ y ∷ back) crc
crc32-changed_byte front back x y crc h hy b ne e =
    ne (crc32-injective_byte front back x y crc h hy b e)

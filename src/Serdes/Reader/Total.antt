-- ===== src/Serdes/Reader/Total.antt =====
-- serdes<serdes_reader> on any bytes: a read returns and has moved on, or throws that the data ended.
use bootpd.Common.{
  ℕ, zero, suc, ◌≤◌, ◌<◌, ◌≡◌, refl, ◌⊎◌, inl, inr, [], ◌∷◌, ◌++◌, Bytes, codes, length,
  length-drop, ltb, ◌==◌, if◌then◌else◌, Result, ok, throw, runtime_error, ◌>>=◌, Bool-cases, arith,
  Bool, true, false,
}
use bootpd.Serdes.ByteOrder.{ByteOrder, network_byte_order}
use bootpd.Serdes.Reader.{
  Reader, read_uint, read_u8, read_u16, read_u32, read_bytes, asciiz_loop, read_asciiz,
}

abbrev pub no_data {ℓ} : {A : Type ℓ} → Result A
no_data = throw (runtime_error (codes "deserialize: not enough data"))

-- The result is a value with fewer than `n` bytes left, or the exception.
abbrev pub Settles {ℓ} : {A : Type ℓ} → ℕ → Result (A × Reader) → Type ℓ
Settles {A} n r = ((a : A) × (s : Reader) × (r ≡ ok (a, s)) × (length s.curr < n)) ⊎ (r ≡ no_data)

pub settle_bind {ℓ κ} :
    {A : Type ℓ} {B : Type κ} (m n : ℕ) (r : Result (A × Reader))
    (f : A × Reader → Result (B × Reader))
    → Settles m r
    → ((a : A) (s : Reader) → length s.curr < m → Settles n (f (a, s)))
    → Settles n (r >>= f)
settle_bind m n r f (inl (a, s, e, h)) g = rw e (g a s h)
settle_bind m n r f (inr e) g = rw e (inr refl)

pub weaken {ℓ} :
    {A : Type ℓ} (m n : ℕ) (r : Result (A × Reader)) → m ≤ n → Settles m r → Settles n r
weaken m n r h (inl (a, s, e, lt)) = inl (a, s, e, omega arith)
weaken m n r h (inr e) = inr e

pub settle_if {ℓ} :
    {A : Type ℓ} (n : ℕ) (b : Bool) (x y : Result (A × Reader))
    → Settles n x
    → Settles n y
    → Settles n (if b then x else y)
settle_if n true x y hx hy = hx
settle_if n false x y hx hy = hy

pub read_uint-Settles :
    (order : ByteOrder) (width : ℕ) (s : Reader)
    → 0 < width
    → Settles (length s.curr) (read_uint order width s)
unfolding read_uint
read_uint-Settles order width s h = elim (Bool-cases (ltb (length s.curr) width)) [
  | inl short ↦ rw short (inr refl)
  | inr fits ↦
      rw fits (
        inl (_, _, refl, omega (arith, length-drop width s.curr, below (length s.curr) width fits)))
]
  where
    below : (a b : ℕ) → ltb a b ≡ false → b ≤ a
    below a b e = ground arith

pub read_u8-Settles : (s : Reader) → Settles (length s.curr) (read_u8 s)
unfolding read_u8
read_u8-Settles s = read_uint-Settles network_byte_order 1 s (omega arith)

pub read_u16-Settles : (s : Reader) → Settles (length s.curr) (read_u16 s)
unfolding read_u16
read_u16-Settles s = read_uint-Settles network_byte_order 2 s (omega arith)

pub read_u32-Settles : (s : Reader) → Settles (length s.curr) (read_u32 s)
unfolding read_u32
read_u32-Settles s = read_uint-Settles network_byte_order 4 s (omega arith)

pub read_bytes-Settles : (n : ℕ) (s : Reader) → Settles (suc (length s.curr)) (read_bytes n s)
unfolding read_bytes
read_bytes-Settles zero s = inl (_, _, refl, omega arith)
read_bytes-Settles (suc n) s =
    settle_bind (length s.curr) (suc (length s.curr)) (read_u8 s) _ (read_u8-Settles s) λ b s₁ h₁.
      settle_bind (suc (length s₁.curr)) (suc (length s.curr)) (read_bytes n s₁) _
        (read_bytes-Settles n s₁) λ bytes s₂ h₂. inl (_, _, refl, omega arith)

-- With fuel for every byte left and one round more, the loop over a string does not get stuck.
asciiz_loop-Settles :
    (fuel : ℕ) (out : Bytes) (s : Reader)
    → length s.curr < fuel
    → Settles (length s.curr) (asciiz_loop fuel out s)
unfolding asciiz_loop
asciiz_loop-Settles zero out s h = absurd (omega arith)
asciiz_loop-Settles (suc fuel) out s h =
    settle_bind (length s.curr) (length s.curr) (read_u8 s) _ (read_u8-Settles s) λ b s₁ h₁.
      elim (Bool-cases (b == 0)) [
        | inl e ↦ rw e (inl (_, _, refl, h₁))
        | inr e ↦ rw e (
            weaken (length s₁.curr) (length s.curr) (asciiz_loop fuel (out ++ b ∷ []) s₁)
              (omega arith) (asciiz_loop-Settles fuel (out ++ b ∷ []) s₁ (omega arith)))
      ]

-- On any bytes the reading of a zero-terminated string returns and has moved on by a byte at least, or
-- throws that the data ended.
pub read_asciiz-Settles : (s : Reader) → Settles (length s.curr) (read_asciiz s)
unfolding read_asciiz
read_asciiz-Settles s = asciiz_loop-Settles (suc (length s.curr)) [] s (omega arith)

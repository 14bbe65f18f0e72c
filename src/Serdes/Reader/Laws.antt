-- ===== src/Serdes/Reader/Laws.antt =====
-- serdes<serdes_reader>: what each read takes, and what it does at the end of the data.
use bootpd.Common.{
  ℕ, zero, suc, ◌≤◌, ◌<◌, ◌≡◌, refl, sym, ◌∙◌, append-nil, [], ◌∷◌, ◌++◌, Bytes, codes, length,
  take, drop, ltb-false, lt→ltb, Result, ok, throw, runtime_error, ==-false, arith, ◌^◌,
  length-append, take-append, drop-append, append_assoc, subst, All, ◌≢◌,
}
use bootpd.Serdes.ByteOrder.{
  ByteOrder, network_byte_order, from_wire, to_wire, from_wire-to_wire, length-to_wire,
  from_wire_byte,
}
use bootpd.Serdes.Reader.{Reader, read_uint, read_u8, read_bytes, asciiz_loop, read_asciiz}

-- `f` reads `a` from the bytes `bs`, whatever follows them.
abbrev pub Reads {ℓ} : {A : Type ℓ} → (Reader → Result (A × Reader)) → Bytes → A → Type ℓ
Reads f bs a =
    (bits rest : Bytes)
    → f (record { data_ = bits; curr = bs ++ rest }) ≡ ok (a, record { data_ = bits; curr = rest })

pub read_uint-Reads :
    (order : ByteOrder) (width value : ℕ)
    → value < 256 ^ width
    → Reads (read_uint order width) (to_wire order width value) value
unfolding read_uint
read_uint-Reads order width value h bits rest =
    let bs = to_wire order width value in
    let e : width ≡ length bs = sym (length-to_wire order width value) in
    rw (ltb-false (length (bs ++ rest)) width (omega (arith, length-append bs rest))) (
      rw (
        take-append bs rest width e,
        drop-append bs rest width e,
        from_wire-to_wire order width value h,
      ))

pub read_u8_nil :
    (bits : Bytes)
    → read_u8 (record { data_ = bits; curr = [] })
      ≡ throw (runtime_error (codes "deserialize: not enough data"))
unfolding read_u8 read_uint
read_u8_nil bits = refl

pub read_u8_cons : (b : ℕ) → Reads read_u8 (b ∷ []) b
unfolding read_u8 read_uint
read_u8_cons b bits rest =
    rw (ltb-false (suc (length rest)) 1 (omega arith), from_wire_byte network_byte_order b)

pub read_bytes-Reads : (bs : Bytes) → Reads (read_bytes (length bs)) bs bs
unfolding read_bytes
read_bytes-Reads [] bits rest = refl
read_bytes-Reads (b ∷ bs) bits rest =
    rw (read_u8_cons b bits (bs ++ rest)) (rw (read_bytes-Reads bs bits rest))

-- No byte of a zero-terminated string is zero.
abbrev pub NonZero : Bytes → Type 0
NonZero = All (λ b. b ≢ 0)

asciiz_loop-Reads :
    (value out bits rest : Bytes) (fuel : ℕ)
    → NonZero value
    → length value < fuel
    → asciiz_loop fuel out (record { data_ = bits; curr = (value ++ 0 ∷ []) ++ rest })
      ≡ ok (out ++ value, record { data_ = bits; curr = rest })
unfolding asciiz_loop
asciiz_loop-Reads value out bits rest zero h lt = absurd (omega arith)
asciiz_loop-Reads [] out bits rest (suc fuel) h lt = rw (read_u8_cons 0 bits rest) (rw append-nil)
asciiz_loop-Reads (c ∷ value) out bits rest (suc fuel) h lt =
    rw (read_u8_cons c bits ((value ++ 0 ∷ []) ++ rest)) (
      rw (==-false c 0 h.0) (
        asciiz_loop-Reads value (out ++ c ∷ []) bits rest fuel h.1 (omega arith) ∙ rw append_assoc))

pub read_asciiz-Reads : (value : Bytes) → NonZero value → Reads read_asciiz (value ++ 0 ∷ []) value
unfolding read_asciiz
read_asciiz-Reads value h bits rest =
    asciiz_loop-Reads value [] bits rest (suc (length ((value ++ 0 ∷ []) ++ rest))) h
      (omega (arith, length-append (value ++ 0 ∷ []) rest, length-append value (0 ∷ [])))

-- The same at the end of the data.
pub Reads-end {ℓ} :
    {A : Type ℓ} (f : Reader → Result (A × Reader)) (bs : Bytes) (a : A) (bits : Bytes)
    → Reads f bs a
    → f (record { data_ = bits; curr = bs }) ≡ ok (a, record { data_ = bits; curr = [] })
Reads-end f bs a bits h =
    subst
      (λ curr.
        f (record { data_ = bits; curr = curr }) ≡ ok (a, record { data_ = bits; curr = [] }))
      (append-nil bs) (h bits [])

pub read_bytes-take :
    (n : ℕ) (bits curr : Bytes)
    → n ≤ length curr
    → read_bytes n (record { data_ = bits; curr = curr })
      ≡ ok (take n curr, record { data_ = bits; curr = drop n curr })
unfolding read_bytes
read_bytes-take zero bits curr h = refl
read_bytes-take (suc n) bits [] h = absurd (omega arith)
read_bytes-take (suc n) bits (b ∷ curr) h =
    rw (read_u8_cons b bits curr) (rw (read_bytes-take n bits curr (omega arith)))

pub read_bytes_short :
    (n : ℕ) (bits curr : Bytes)
    → length curr < n
    → read_bytes n (record { data_ = bits; curr = curr })
      ≡ throw (runtime_error (codes "deserialize: not enough data"))
unfolding read_bytes
read_bytes_short zero bits curr h = absurd (omega arith)
read_bytes_short (suc n) bits [] h = rw (read_u8_nil bits)
read_bytes_short (suc n) bits (b ∷ curr) h =
    rw (read_u8_cons b bits curr) (rw (read_bytes_short n bits curr (omega arith)))

pub read_uint-take :
    (order : ByteOrder) (width : ℕ) (bits curr : Bytes)
    → width ≤ length curr
    → read_uint order width (record { data_ = bits; curr = curr })
      ≡ ok (from_wire order (take width curr), record { data_ = bits; curr = drop width curr })
unfolding read_uint
read_uint-take order width bits curr h = rw (ltb-false (length curr) width h)

pub read_uint_short :
    (order : ByteOrder) (width : ℕ) (bits curr : Bytes)
    → length curr < width
    → read_uint order width (record { data_ = bits; curr = curr })
      ≡ throw (runtime_error (codes "deserialize: not enough data"))
unfolding read_uint
read_uint_short order width bits curr h = rw (lt→ltb (length curr) width h)

-- ===== src/Dhcp/Options/Stored.antt =====
-- dhcp_options_v4::set of one value: the table stays well formed, and what was written fits its slot.
use bootpd.Common.{
  ℕ, ◌+◌, ◌≤◌, ◌<◌, ◌≡◌, refl, ◌∷◌, [], ◌++◌, Bytes, Bool, length, length-append, length-drop,
  length-replicate, drop, replicate, All-append, All-append_left, All-append_right, All-drop,
  Bool-cases, inl, inr, ltb, Result, ok, ◌>>=◌, Ensures, Ensures-bind, Ensures-ok, ok-injective,
  ltb-false_le, ltb→lt, if◌then◌else◌, ap, ◌%◌, arith, subst, sym, ◌∙◌, true, false, zero, suc,
  throw, runtime_error, codes,
}
use bootpd.Serdes.ByteOrder.{ByteOrder, network_byte_order, to_wire, length-to_wire, to_wire-All}
use bootpd.Serdes.Writer.{Writer, writer, write_uint, write_u8, write_u32, write_bytes}
use bootpd.Serdes.Writer.Laws.{AllBytes}
use bootpd.Dhcp.Options.{DhcpOptions, slot, store_at, set_value}
use bootpd.Dhcp.Options.Table.{IsTable, store_at_lem}

-- The whole buffer of a writer is `n` bytes.
abbrev pub IsBuffer : ℕ → Writer → Type 0
IsBuffer n w = (length (w.written ++ w.room) ≡ n) × AllBytes (w.written ++ w.room)

abbrev Byte : ℕ → Type 0
Byte b = b < 256

writer-IsBuffer : (n : ℕ) → IsBuffer n (writer (replicate n 0))
writer-IsBuffer n = (length-replicate n 0, zeros n)
  where
    zeros : (k : ℕ) → AllBytes (replicate k 0)
    zeros zero = tt
    zeros (suc k) = (omega arith, zeros k)

-- A write that fits leaves a buffer of the same size with so much less room.
write_uint-IsBuffer :
    (order : ByteOrder) (width value n : ℕ) (w : Writer)
    → IsBuffer n w
    → Ensures
        (λ w'. IsBuffer n w' × (length w'.room + width ≡ length w.room))
        (write_uint order width value w)
unfolding write_uint
write_uint-IsBuffer order width value n w (size, bytes) w' e =
    elim (Bool-cases (ltb (length w.room) width)) [
      | inl short ↦ absurd (refuted short)
      | inr fits ↦ subst Fits (ok-injective (sym (taken fits) ∙ e)) (kept fits)
    ]
  where
    wire : Bytes
    wire = to_wire order width value

    Fits : Writer → Type 0
    Fits v = IsBuffer n v × (length v.room + width ≡ length w.room)

    after : Writer
    after = record { written = w.written ++ wire; room = drop width w.room }

    refuted : ltb (length w.room) width ≡ true → ⊥
    refuted short =
        let thrown : write_uint order width value w
            ≡ throw (runtime_error (codes "serialize: not enough space")) =
          rw short in
        let same = sym thrown ∙ e in cc

    taken : ltb (length w.room) width ≡ false → write_uint order width value w ≡ ok after
    taken fits = rw fits

    kept : ltb (length w.room) width ≡ false → Fits after
    kept fits = (
      (
        (let l₁ = length-append w.written w.room in
            let l₂ = length-append (w.written ++ wire) (drop width w.room) in
            let l₃ = length-append w.written wire in
            let l₄ = length-drop width w.room in
            let l₅ = length-to_wire order width value in
            omega (arith, size, ltb-false_le _ _ fits, l₁, l₂, l₃, l₄, l₅)),
        All-append Byte (w.written ++ wire) (drop width w.room)
            (All-append Byte w.written wire (All-append_left Byte w.written w.room bytes)
              (to_wire-All order width value))
            (All-drop Byte width w.room (All-append_right Byte w.written w.room bytes)),
      ),
      omega (arith, length-drop width w.room, ltb-false_le _ _ fits),
    )

-- What a write of `m` bytes into a buffer ensures.
abbrev pub Fills : ℕ → ℕ → Writer → Result Writer → Type 0
Fills n m w = Ensures (λ w'. IsBuffer n w' × (length w'.room + m ≡ length w.room))

pub write_u32-Fills : (value n : ℕ) (w : Writer) → IsBuffer n w → Fills n 4 w (write_u32 value w)
unfolding write_u32
write_u32-Fills value = write_uint-IsBuffer network_byte_order 4 value

pub write_bytes-Fills :
    (bytes : Bytes) (n : ℕ) (w : Writer)
    → IsBuffer n w
    → Fills n (length bytes) w (write_bytes bytes w)
unfolding write_bytes write_u8
write_bytes-Fills [] n w h = Ensures-ok _ w (h, omega arith)
write_bytes-Fills (b ∷ bytes) n w h =
    Ensures-bind _ _ (write_u8 b w) (write_bytes bytes)
      (write_uint-IsBuffer network_byte_order 1 b n w h)
      λ w₁ (h₁, l₁) w₂ e.
        let (h₂, l₂) = write_bytes-Fills bytes n w₁ h₁ w₂ e in (h₂, omega (arith, l₁, l₂))

-- `set` of a value at a code from 1 to 254 keeps the table well formed, whatever it returns; and where
-- the size is one that a slot can say, what was written fits it.
pub set_value-IsTable :
    (size code m : ℕ) (write : Writer → Result Writer) (o : DhcpOptions)
    → IsTable o
    → 0 < code
    → code < 255
    → ((w : Writer) → IsBuffer size w → Fills size m w (write w))
    → Ensures (λ r. IsTable r.1 × (size ≤ 255 → m ≤ size)) (set_value size code write o)
unfolding set_value
set_value-IsTable size code m write o h lo hi fills = by_size (ltb 255 size) refl
  where
    Kept : Bool × DhcpOptions → Type 0
    Kept r = IsTable r.1 × (size ≤ 255 → m ≤ size)

    stored : Writer → Result (Bool × DhcpOptions)
    stored w = store_at o (slot code) ((size % 256) ∷ (w.written ++ w.room)) >>= λ o'. ok (true, o')

    store : (w : Writer) → size ≤ 255 → IsBuffer size w → m ≤ size → Ensures Kept (stored w)
    store w le (l, bytes) short =
        let (e, t) =
          store_at_lem o code ((size % 256) ∷ (w.written ++ w.room)) h lo hi
            (omega (arith, l), omega arith, bytes) in
        λ r e'.
          subst Kept (ok-injective (sym (ap (λ s. s >>= λ o'. ok (true, o')) e) ∙ e'))
            (t, λ _. short)

    by_size :
        (b : Bool)
        → ltb 255 size ≡ b
        → Ensures Kept (if b then ok (false, o) else write (writer (replicate size 0)) >>= stored)
    by_size true e = Ensures-ok Kept (false, o) (h, λ le. absurd (omega (arith, ltb→lt 255 size e)))
    by_size false e =
        Ensures-bind _ Kept (write (writer (replicate size 0))) stored
          (fills (writer (replicate size 0)) (writer-IsBuffer size))
          λ w (k, l).
            store w (ltb-false_le 255 size e) k (omega (arith, l, length-replicate {A = ℕ} size 0))

-- ===== src/Serdes/Writer/Laws.antt =====
-- serdes<serdes_writer>: what each write puts into the buffer, and when it throws.
use bootpd.Common.{
  ℕ, ◌+◌, ◌-◌, ◌<◌, ◌≡◌, ap, [], ◌∷◌, ◌++◌, Bytes, codes, length, drop, ltb, ltb-false, ltb-sub,
  lt→ltb, ltb→lt, if◌then◌else◌, Result, ok, throw, runtime_error, ◌>>=◌, Bool-cases, inl, inr,
  arith, length-append, take-append, append_assoc, append-nil, All, length-replicate, length-drop,
  drop-drop, subst,
}
use bootpd.Serdes.ByteOrder.{ByteOrder, network_byte_order, to_wire, length-to_wire, to_wire_byte}
use bootpd.Serdes.Writer.{
  Writer, write_uint, write_u8, write_bytes, write_asciiz, serialize_to_vector,
}

abbrev pub no_space : Result Writer
no_space = throw (runtime_error (codes "serialize: not enough space"))

abbrev pub advance : Bytes → Writer → Writer
advance bs w = record { written = w.written ++ bs; room = drop (length bs) w.room }

-- `f` writes exactly the bytes `bs` where they fit, and throws where they do not.
abbrev pub Writes : (Writer → Result Writer) → Bytes → Type 0
Writes f bs =
    (w : Writer) → f w ≡ (if ltb (length w.room) (length bs) then no_space else ok (advance bs w))

pub nothing-Writes : Writes ok []
nothing-Writes w = rw (ltb-false (length w.room) 0 (omega arith), append-nil)

pub then-Writes :
    (f g : Writer → Result Writer) (bs cs : Bytes)
    → Writes f bs
    → Writes g cs
    → Writes (λ w. f w >>= g) (bs ++ cs)
then-Writes f g bs cs hf hg w = elim (Bool-cases (ltb (length w.room) (length bs))) [
  | inl short ↦
      rw (hf w, short)
        (rw (
          lt→ltb (length w.room) (length (bs ++ cs))
            (omega (arith, ltb→lt _ _ short, length-append bs cs))))
  | inr fits ↦
      rw (hf w, fits, hg (advance bs w))
        (rw
          (
            drop-drop bs cs w.room,
            append_assoc,
            length-drop (length bs) w.room,
            length-append bs cs,
          )
          (rw (ltb-sub (length w.room) (length bs) (length cs) fits)))
]

pub write_uint-Writes :
    (order : ByteOrder) (width value : ℕ)
    → Writes (write_uint order width value) (to_wire order width value)
unfolding write_uint
write_uint-Writes order width value w = rw (length-to_wire order width value)

pub write_u8-Writes : (b : ℕ) → b < 256 → Writes (write_u8 b) (b ∷ [])
unfolding write_u8
write_u8-Writes b h =
    subst (Writes (write_u8 b)) (to_wire_byte network_byte_order b h)
      (write_uint-Writes network_byte_order 1 b)

abbrev pub AllBytes : Bytes → Type 0
AllBytes = All (λ b. b < 256)

pub write_bytes-Writes : (bs : Bytes) → AllBytes bs → Writes (write_bytes bs) bs
unfolding write_bytes
write_bytes-Writes [] h = nothing-Writes
write_bytes-Writes (b ∷ bs) h =
    then-Writes (write_u8 b) (write_bytes bs) (b ∷ []) bs (write_u8-Writes b h.0)
      (write_bytes-Writes bs h.1)

pub write_asciiz-Writes : (bs : Bytes) → AllBytes bs → Writes (write_asciiz bs) (bs ++ 0 ∷ [])
unfolding write_asciiz
write_asciiz-Writes bs h =
    then-Writes (write_bytes bs) (write_u8 0) bs (0 ∷ []) (write_bytes-Writes bs h)
      (write_u8-Writes 0 (omega arith))

consumed : (bs cs : Bytes) → length (bs ++ cs) - length cs ≡ length bs
consumed bs cs = omega (arith, length-append bs cs)

-- The vector of an object that writes exactly some bytes is those bytes, or the exception that there
-- is not enough space where they are more than the hint and 128.
pub serialize_to_vector-Writes :
    (hint : ℕ) (f : Writer → Result Writer) (bs : Bytes)
    → Writes f bs
    → serialize_to_vector hint f ≡ (
        if ltb (hint + 128) (length bs)
        then throw (runtime_error (codes "serialize: not enough space"))
        else ok bs)
unfolding serialize_to_vector
serialize_to_vector-Writes hint f bs h = elim (Bool-cases (ltb (hint + 128) (length bs))) [
  | inl short ↦ rw (h _, length-replicate {A = ℕ} (hint + 128) 0, short)
  | inr fits ↦
      rw (h _, length-replicate {A = ℕ} (hint + 128) 0, fits)
        (ap ok (take-append bs _ _ (consumed bs _)))
]

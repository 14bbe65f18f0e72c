-- ===== src/Serdes/Writer/Total.antt =====
-- serdes<serdes_writer> on any values: a write returns or throws.
use bootpd.Common.{
  ℕ, replicate, [], ◌∷◌, Bytes, length, ltb, ◌+◌, Result, Bool-cases, inl, inr, Calm, Calm-bind,
}
use bootpd.Serdes.ByteOrder.{ByteOrder, network_byte_order}
use bootpd.Serdes.Writer.{
  Writer, writer, write_uint, write_u8, write_u16, write_bytes, write_asciiz, serialize_to_vector,
}

pub write_uint-Calm :
    (order : ByteOrder) (width value : ℕ) (w : Writer) → Calm (write_uint order width value w)
unfolding write_uint
write_uint-Calm order width value w = elim (Bool-cases (ltb (length w.room) width)) [
  | inl e ↦ rw e tt
  | inr e ↦ rw e tt
]

pub write_u8-Calm : (b : ℕ) (w : Writer) → Calm (write_u8 b w)
unfolding write_u8
write_u8-Calm b w = write_uint-Calm network_byte_order 1 b w

pub write_u16-Calm : (v : ℕ) (w : Writer) → Calm (write_u16 v w)
unfolding write_u16
write_u16-Calm v w = write_uint-Calm network_byte_order 2 v w

pub write_bytes-Calm : (bs : Bytes) (w : Writer) → Calm (write_bytes bs w)
unfolding write_bytes
write_bytes-Calm [] w = tt
write_bytes-Calm (b ∷ bs) w = Calm-bind (write_u8 b w) _ (write_u8-Calm b w) (write_bytes-Calm bs)

pub write_asciiz-Calm : (bs : Bytes) (w : Writer) → Calm (write_asciiz bs w)
unfolding write_asciiz
write_asciiz-Calm bs w = Calm-bind (write_bytes bs w) _ (write_bytes-Calm bs w) (write_u8-Calm 0)

pub serialize_to_vector-Calm :
    (hint : ℕ) (f : Writer → Result Writer)
    → ((w : Writer) → Calm (f w))
    → Calm (serialize_to_vector hint f)
unfolding serialize_to_vector
serialize_to_vector-Calm hint f h =
    Calm-bind (f (writer (replicate (hint + 128) 0))) _ (h (writer (replicate (hint + 128) 0)))
      (λ w. tt)

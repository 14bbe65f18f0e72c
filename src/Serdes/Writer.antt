-- ===== src/Serdes/Writer.antt =====
-- common/serdes.hpp, serdes<serdes_writer> and serialize_to_vector: a cursor over a buffer that is
-- written in place. `written` is what lies before the cursor and `room` what lies behind it, so
-- m_data is `written ++ room` and m_curr is `room`.
pub mod Laws
pub mod Total
use bootpd.Common.{
  ℕ, zero, suc, ◌+◌, ◌-◌, List, [], ◌∷◌, ◌++◌, Bool, true, false, Bytes, codes, length, take, drop,
  ltb, ◌==◌, if◌then◌else◌, Result, ok, throw, runtime_error, ◌>>=◌, replicate,
}
use bootpd.Serdes.ByteOrder.{ByteOrder, network_byte_order, to_wire}

pub record Writer : Type 0 where
  pub written : Bytes
  pub room : Bytes

abbrev pub writer : Bytes → Writer
writer bits = record { written = []; room = bits }

-- operator () of a trivial value of `width` bytes.
unfoldable pub write_uint : ByteOrder → ℕ → ℕ → Writer → Result Writer
write_uint order width value w =
    if ltb (length w.room) width
    then throw (runtime_error (codes "serialize: not enough space"))
    else ok (record { written = w.written ++ to_wire order width value; room = drop width w.room })

unfoldable pub write_u8 : ℕ → Writer → Result Writer
write_u8 = write_uint network_byte_order 1

unfoldable pub write_u16 : ℕ → Writer → Result Writer
write_u16 = write_uint network_byte_order 2

unfoldable pub write_u32 : ℕ → Writer → Result Writer
write_u32 = write_uint network_byte_order 4

-- operator () of an array, a span, a string or a string view of single bytes.
unfoldable pub write_bytes : Bytes → Writer → Result Writer
write_bytes [] w = ok w
write_bytes (b ∷ bytes) w = write_u8 b w >>= write_bytes bytes

-- operator () of a zero-terminated string.
unfoldable pub write_asciiz : Bytes → Writer → Result Writer
write_asciiz value w = write_bytes value w >>= write_u8 0

unfoldable pub skip : ℕ → Writer → Result Writer
skip number_of_bytes w =
    if ltb (length w.room) number_of_bytes
    then throw (runtime_error (codes "skipping past end of data"))
    else ok (record {
      written = w.written ++ take number_of_bytes w.room;
      room = drop number_of_bytes w.room;
    })

unfoldable pub seek : ℕ → Writer → Result Writer
seek byte_offset w =
    let data_ = w.written ++ w.room in
    if ltb (length data_) byte_offset
    then throw (runtime_error (codes "seeking pas end of data"))
    else ok (record { written = take byte_offset data_; room = drop byte_offset data_ })

unfoldable pub rewind : Writer → Result Writer
rewind w = seek 0 w

abbrev pub remaining_bytes : Writer → ℕ
remaining_bytes w = length w.room

abbrev pub consumed_bytes : Writer → ℕ
consumed_bytes w = length (w.written ++ w.room) - length w.room

abbrev pub is_empty : Writer → Bool
is_empty w = length w.room == 0

-- `hint` is serdes_size_hint() and `f` the object's writing function.
unfoldable pub serialize_to_vector : ℕ → (Writer → Result Writer) → Result Bytes
serialize_to_vector hint f = do
  w ← f (writer (replicate (hint + 128) 0))
  ok (take (consumed_bytes w) (w.written ++ w.room))

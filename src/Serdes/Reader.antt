-- ===== src/Serdes/Reader.antt =====
-- common/serdes.hpp, serdes<serdes_reader>: a cursor over bytes. `data` is m_data and `curr` m_curr.
-- Every read returns the value and the cursor behind it, or throws and has moved nothing.
pub mod Laws
pub mod Total
use bootpd.Common.{
  ℕ, zero, suc, ◌+◌, ◌-◌, List, [], ◌∷◌, ◌++◌, Bool, true, false, Bytes, codes, length, take, drop,
  ltb, ◌==◌, if◌then◌else◌, Result, ok, throw, stuck, runtime_error, ◌>>=◌,
}
use bootpd.Serdes.ByteOrder.{ByteOrder, network_byte_order, from_wire}

pub record Reader : Type 0 where
  pub data_ : Bytes
  pub curr : Bytes

-- The constructors from a span or a vector.
abbrev pub reader : Bytes → Reader
reader bits = record { data_ = bits; curr = bits }

-- operator () of a trivial value of `width` bytes.
unfoldable pub read_uint : ByteOrder → ℕ → Reader → Result (ℕ × Reader)
read_uint order width s =
    if ltb (length s.curr) width
    then throw (runtime_error (codes "deserialize: not enough data"))
    else ok (from_wire order (take width s.curr), record s { curr = drop width s.curr })

unfoldable pub read_u8 : Reader → Result (ℕ × Reader)
read_u8 = read_uint network_byte_order 1

unfoldable pub read_u16 : Reader → Result (ℕ × Reader)
read_u16 = read_uint network_byte_order 2

unfoldable pub read_u32 : Reader → Result (ℕ × Reader)
read_u32 = read_uint network_byte_order 4

-- operator () of an array or a span of single bytes.
unfoldable pub read_bytes : ℕ → Reader → Result (Bytes × Reader)
read_bytes zero s = ok ([], s)
read_bytes (suc n) s = do (b, s') ← read_u8 s; (bytes, s'') ← read_bytes n s'; ok (b ∷ bytes, s'')

-- The loop of the zero-terminated string: each round takes a byte, so there are at most as many
-- rounds as bytes left.
unfoldable pub asciiz_loop : ℕ → Bytes → Reader → Result (Bytes × Reader)
asciiz_loop zero value s = stuck
asciiz_loop (suc fuel) value s = do
  (char_v, s') ← read_u8 s
  let more = asciiz_loop fuel (value ++ char_v ∷ []) s'
  if char_v == 0 then ok (value, s') else more

unfoldable pub read_asciiz : Reader → Result (Bytes × Reader)
read_asciiz s = asciiz_loop (suc (length s.curr)) [] s

unfoldable pub skip : ℕ → Reader → Result Reader
skip number_of_bytes s =
    if ltb (length s.curr) number_of_bytes
    then throw (runtime_error (codes "skipping past end of data"))
    else ok (record s { curr = drop number_of_bytes s.curr })

unfoldable pub seek : ℕ → Reader → Result Reader
seek byte_offset s =
    if ltb (length s.data_) byte_offset
    then throw (runtime_error (codes "seeking pas end of data"))
    else ok (record s { curr = drop byte_offset s.data_ })

unfoldable pub rewind : Reader → Result Reader
rewind s = seek 0 s

abbrev pub remaining_bytes : Reader → ℕ
remaining_bytes s = length s.curr

abbrev pub consumed_bytes : Reader → ℕ
consumed_bytes s = length s.data_ - length s.curr

abbrev pub is_empty : Reader → Bool
is_empty s = length s.curr == 0

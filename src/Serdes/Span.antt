-- ===== src/Serdes/Span.antt =====
-- take_one of common/utility_span.hpp: a value of `size` bytes from the front of a span, which is cut.
use bootpd.Common.{
  ℕ, ◌≤◌, ◌≡◌, refl, Bytes, codes, length, take, drop, ltb, ltb-false, if◌then◌else◌, Result, ok,
  throw, runtime_error, ◌>>=◌,
}
use bootpd.Serdes.ByteOrder.{host_byte_order, from_wire}
use bootpd.Serdes.Reader.{reader, read_uint}
use bootpd.Serdes.Reader.Laws.{read_uint-take}

unfoldable pub take_one : ℕ → Bytes → Result (ℕ × Bytes)
take_one size bits =
    if ltb (length bits) size
    then throw (runtime_error (codes "not enough bytes in span"))
    else ok (from_wire host_byte_order (take size bits), drop size bits)

-- Where there are enough bytes it takes what the cursor reads in the order of the host, and leaves what
-- the cursor leaves.
take_one-read_uint :
    (size : ℕ) (bits : Bytes)
    → size ≤ length bits
    → take_one size bits
      ≡ (read_uint host_byte_order size (reader bits) >>= λ (value, s). ok (value, s.curr))
unfolding take_one
take_one-read_uint size bits h =
    rw (ltb-false (length bits) size h, read_uint-take host_byte_order size bits bits h) refl

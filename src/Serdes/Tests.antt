-- ===== src/Serdes/Tests.antt =====
-- The theorems about serdes at concrete inputs, and runs of the cursors.
use bootpd.Common.{◌≡◌, refl, [], ◌∷◌, Bytes, arith}
use bootpd.Serdes.ByteOrder.{
  network_byte_order, from_wire, to_wire, octets, to_wire-octets, host_to_net_inplace, host_bytes,
  reverse_bytes_inplace,
}

-- 515 is 0x0203, the high byte first.
to_wire_example : to_wire network_byte_order 2 515 ≡ 2 ∷ 3 ∷ []
unfolding to_wire host_to_net_inplace host_bytes reverse_bytes_inplace
to_wire_example = refl

to_wire-octets_example :
    (to_wire network_byte_order 2 515 ≡ octets network_byte_order 2 515)
    × (from_wire network_byte_order (octets network_byte_order 2 515) ≡ 515)
to_wire-octets_example = to_wire-octets network_byte_order 2 515 (omega arith)

abbrev two_bytes : Bytes
two_bytes = 7 ∷ 9 ∷ []

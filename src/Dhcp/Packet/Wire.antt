-- ===== src/Dhcp/Packet/Wire.antt =====
-- dhcp_packet_v4: what is written is the wire format, and what is written is read back.
use bootpd.Common.{
  ℕ, ◌+◌, ◌^◌, ◌<◌, ◌≡◌, ◌∙◌, [], ◌∷◌, ◌++◌, Bytes, length, length-append, ltb-false, append_assoc,
  Result, ok, ◌>>=◌, arith, subst,
}
use bootpd.Serdes.ByteOrder.{network_byte_order, to_wire, length-to_wire}
use bootpd.Serdes.Reader.{Reader, read_u8, read_u16, read_u32, read_bytes}
use bootpd.Serdes.Reader.Laws.{Reads, read_u8_cons, read_bytes-Reads, read_uint-Reads, Reads-end}
use bootpd.Serdes.Writer.{write_u16, write_u32}
use bootpd.Serdes.Writer.Laws.{
  Writes, AllBytes, then-Writes, write_uint-Writes, write_u8-Writes, write_bytes-Writes,
  serialize_to_vector-Writes,
}
use bootpd.Dhcp.Options.{dhcp_magic_cookie}
use bootpd.Dhcp.Options.Table.{IsTable, options_wire}
use bootpd.Dhcp.Options.RoundTrip.{
  write_options-Writes, read_options-Reads, serdes_size_hint-options_wire,
}
use bootpd.Dhcp.Packet.{
  DhcpPacket, empty_packet, write_packet, read_packet, dhcp_packet, serdes_size_hint, serialize,
}

-- The fields fit their types, the arrays have their sizes, and the options are a well-formed table with
-- the cookie of DHCP.
pub record IsPacket (p : DhcpPacket) : Type 0 where
  pub opcode : p.opcode < 256
  pub hardware_type : p.hardware_type < 256
  pub hardware_address_length : p.hardware_address_length < 256
  pub number_of_hops : p.number_of_hops < 256
  pub transaction_id : p.transaction_id < 256 ^ 4
  pub seconds_elapsed : p.seconds_elapsed < 256 ^ 2
  pub flags : p.flags < 256 ^ 2
  pub client_address : p.client_address < 256 ^ 4
  pub your_address : p.your_address < 256 ^ 4
  pub server_address : p.server_address < 256 ^ 4
  pub gateway_address : p.gateway_address < 256 ^ 4
  pub hardware_bytes : (length p.client_hardware_address ≡ 16) × AllBytes p.client_hardware_address
  pub host_bytes : (length p.server_host_name ≡ 64) × AllBytes p.server_host_name
  pub file_bytes : (length p.boot_file_name ≡ 128) × AllBytes p.boot_file_name
  pub table : IsTable p.options
  pub cookie : p.options.cookie ≡ dhcp_magic_cookie

abbrev u16 : ℕ → Bytes
u16 = to_wire network_byte_order 2

abbrev u32 : ℕ → Bytes
u32 = to_wire network_byte_order 4

-- RFC 2131: the fields in their order, the numbers in network order. `after_f` is what follows the
-- field `f`.
abbrev after_boot_file_name : DhcpPacket → Bytes
after_boot_file_name p = options_wire p.options

abbrev after_server_host_name : DhcpPacket → Bytes
after_server_host_name p = p.boot_file_name ++ after_boot_file_name p

abbrev after_client_hardware_address : DhcpPacket → Bytes
after_client_hardware_address p = p.server_host_name ++ after_server_host_name p

abbrev after_gateway_address : DhcpPacket → Bytes
after_gateway_address p = p.client_hardware_address ++ after_client_hardware_address p

abbrev after_server_address : DhcpPacket → Bytes
after_server_address p = u32 p.gateway_address ++ after_gateway_address p

abbrev after_your_address : DhcpPacket → Bytes
after_your_address p = u32 p.server_address ++ after_server_address p

abbrev after_client_address : DhcpPacket → Bytes
after_client_address p = u32 p.your_address ++ after_your_address p

abbrev after_flags : DhcpPacket → Bytes
after_flags p = u32 p.client_address ++ after_client_address p

abbrev after_seconds_elapsed : DhcpPacket → Bytes
after_seconds_elapsed p = u16 p.flags ++ after_flags p

abbrev after_transaction_id : DhcpPacket → Bytes
after_transaction_id p = u16 p.seconds_elapsed ++ after_seconds_elapsed p

abbrev after_number_of_hops : DhcpPacket → Bytes
after_number_of_hops p = u32 p.transaction_id ++ after_transaction_id p

abbrev after_hardware_address_length : DhcpPacket → Bytes
after_hardware_address_length p = (p.number_of_hops ∷ []) ++ after_number_of_hops p

abbrev after_hardware_type : DhcpPacket → Bytes
after_hardware_type p = (p.hardware_address_length ∷ []) ++ after_hardware_address_length p

abbrev after_opcode : DhcpPacket → Bytes
after_opcode p = (p.hardware_type ∷ []) ++ after_hardware_type p

abbrev pub packet_wire : DhcpPacket → Bytes
packet_wire p = (p.opcode ∷ []) ++ after_opcode p

u16-Writes : (v : ℕ) → Writes (write_u16 v) (u16 v)
unfolding write_u16
u16-Writes v = write_uint-Writes network_byte_order 2 v

u32-Writes : (v : ℕ) → Writes (write_u32 v) (u32 v)
unfolding write_u32
u32-Writes v = write_uint-Writes network_byte_order 4 v

-- The writer writes the wire format of a well-formed packet.
pub write_packet-Writes : (p : DhcpPacket) → IsPacket p → Writes (write_packet p) (packet_wire p)
unfolding write_packet
write_packet-Writes p h =
    then-Writes _ _ (p.opcode ∷ []) (after_opcode p) (write_u8-Writes p.opcode h.opcode) (
      then-Writes _ _ (p.hardware_type ∷ []) (after_hardware_type p)
        (write_u8-Writes p.hardware_type h.hardware_type)
        (then-Writes _ _ (p.hardware_address_length ∷ []) (after_hardware_address_length p)
          (write_u8-Writes p.hardware_address_length h.hardware_address_length)
          (then-Writes _ _ (p.number_of_hops ∷ []) (after_number_of_hops p)
            (write_u8-Writes p.number_of_hops h.number_of_hops)
            (then-Writes _ _ (u32 p.transaction_id) (after_transaction_id p)
              (u32-Writes p.transaction_id)
              (then-Writes _ _ (u16 p.seconds_elapsed) (after_seconds_elapsed p)
                (u16-Writes p.seconds_elapsed)
                (then-Writes _ _ (u16 p.flags) (after_flags p) (u16-Writes p.flags) (
                  then-Writes _ _ (u32 p.client_address) (after_client_address p)
                    (u32-Writes p.client_address)
                    (then-Writes _ _ (u32 p.your_address) (after_your_address p)
                      (u32-Writes p.your_address)
                      (then-Writes _ _ (u32 p.server_address) (after_server_address p)
                        (u32-Writes p.server_address)
                        (then-Writes _ _ (u32 p.gateway_address) (after_gateway_address p)
                          (u32-Writes p.gateway_address)
                          (then-Writes _ _ p.client_hardware_address
                            (after_client_hardware_address p)
                            (write_bytes-Writes p.client_hardware_address h.hardware_bytes.1)
                            (then-Writes _ _ p.server_host_name (after_server_host_name p)
                              (write_bytes-Writes p.server_host_name h.host_bytes.1)
                              (then-Writes _ _ p.boot_file_name (after_boot_file_name p)
                                (write_bytes-Writes p.boot_file_name h.file_bytes.1)
                                (write_options-Writes p.options h.table))))))))))))))

Reads-then {ℓ} :
    {A : Type ℓ} (f : Reader → Result (A × Reader)) (bs : Bytes) (a : A) (behind bits rest : Bytes)
    → Reads f bs a
    → f (record { data_ = bits; curr = (bs ++ behind) ++ rest })
      ≡ ok (a, record { data_ = bits; curr = behind ++ rest })
Reads-then f bs a behind bits rest h = rw (append_assoc bs behind rest) (h bits (behind ++ rest))

u16-Reads : (v : ℕ) → v < 256 ^ 2 → Reads read_u16 (u16 v) v
unfolding read_u16
u16-Reads v h = read_uint-Reads network_byte_order 2 v h

u32-Reads : (v : ℕ) → v < 256 ^ 4 → Reads read_u32 (u32 v) v
unfolding read_u32
u32-Reads v h = read_uint-Reads network_byte_order 4 v h

bytes-Reads : (n : ℕ) (bs : Bytes) → length bs ≡ n → Reads (read_bytes n) bs bs
bytes-Reads n bs e = subst (λ k. Reads (read_bytes k) bs bs) e (read_bytes-Reads bs)

-- The reader reads a well-formed packet from its wire format, whatever follows.
pub read_packet-Reads :
    (p : DhcpPacket) → IsPacket p → Reads (read_packet empty_packet) (packet_wire p) p
unfolding read_packet
read_packet-Reads p h bits rest =
    rw
      (Reads-then read_u8 (p.opcode ∷ []) p.opcode (after_opcode p) bits rest
        (read_u8_cons p.opcode))
      (rw
        (Reads-then read_u8 (p.hardware_type ∷ []) p.hardware_type (after_hardware_type p) bits rest
          (read_u8_cons p.hardware_type))
        (rw
          (Reads-then read_u8 (p.hardware_address_length ∷ []) p.hardware_address_length
            (after_hardware_address_length p) bits rest (read_u8_cons p.hardware_address_length))
          (rw
            (Reads-then read_u8 (p.number_of_hops ∷ []) p.number_of_hops (after_number_of_hops p)
              bits rest (read_u8_cons p.number_of_hops))
            (rw
              (Reads-then read_u32 (u32 p.transaction_id) p.transaction_id (after_transaction_id p)
                bits rest (u32-Reads p.transaction_id h.transaction_id))
              (rw
                (Reads-then read_u16 (u16 p.seconds_elapsed) p.seconds_elapsed
                  (after_seconds_elapsed p) bits rest
                  (u16-Reads p.seconds_elapsed h.seconds_elapsed))
                (rw
                  (Reads-then read_u16 (u16 p.flags) p.flags (after_flags p) bits rest
                    (u16-Reads p.flags h.flags))
                  (rw
                    (Reads-then read_u32 (u32 p.client_address) p.client_address
                      (after_client_address p) bits rest
                      (u32-Reads p.client_address h.client_address))
                    (rw
                      (Reads-then read_u32 (u32 p.your_address) p.your_address
                        (after_your_address p) bits rest (u32-Reads p.your_address h.your_address))
                      (rw
                        (Reads-then read_u32 (u32 p.server_address) p.server_address
                          (after_server_address p) bits rest
                          (u32-Reads p.server_address h.server_address))
                        (rw
                          (Reads-then read_u32 (u32 p.gateway_address) p.gateway_address
                            (after_gateway_address p) bits rest
                            (u32-Reads p.gateway_address h.gateway_address))
                          (rw
                            (Reads-then (read_bytes 16) p.client_hardware_address
                              p.client_hardware_address (after_client_hardware_address p) bits rest
                              (bytes-Reads 16 p.client_hardware_address h.hardware_bytes.0))
                            (rw
                              (Reads-then (read_bytes 64) p.server_host_name p.server_host_name
                                (after_server_host_name p) bits rest
                                (bytes-Reads 64 p.server_host_name h.host_bytes.0))
                              (rw
                                (Reads-then (read_bytes 128) p.boot_file_name p.boot_file_name
                                  (after_boot_file_name p) bits rest
                                  (bytes-Reads 128 p.boot_file_name h.file_bytes.0))
                                (rw (read_options-Reads p.options bits rest h.table)
                                  (rw h.cookie)))))))))))))))

-- The size hint of a well-formed DHCP packet is the exact number of bytes of its wire format.
pub serdes_size_hint-packet_wire :
    (p : DhcpPacket) → IsPacket p → serdes_size_hint p ≡ length (packet_wire p)
unfolding serdes_size_hint
serdes_size_hint-packet_wire p h = omega (
  arith,
  serdes_size_hint-options_wire p.options h.table,
  length-to_wire network_byte_order 4 p.transaction_id,
  length-to_wire network_byte_order 2 p.seconds_elapsed,
  length-to_wire network_byte_order 2 p.flags,
  length-to_wire network_byte_order 4 p.client_address,
  length-to_wire network_byte_order 4 p.your_address,
  length-to_wire network_byte_order 4 p.server_address,
  length-to_wire network_byte_order 4 p.gateway_address,
  length-append (u32 p.transaction_id) (after_transaction_id p),
  length-append (u16 p.seconds_elapsed) (after_seconds_elapsed p),
  length-append (u16 p.flags) (after_flags p),
  length-append (u32 p.client_address) (after_client_address p),
  length-append (u32 p.your_address) (after_your_address p),
  length-append (u32 p.server_address) (after_server_address p),
  length-append (u32 p.gateway_address) (after_gateway_address p),
  length-append p.client_hardware_address (after_client_hardware_address p),
  length-append p.server_host_name (after_server_host_name p),
  length-append p.boot_file_name (after_boot_file_name p),
  h.hardware_bytes.0,
  h.host_bytes.0,
  h.file_bytes.0,
)

-- A well-formed packet is serialized to its wire format.
pub serialize-packet_wire : (p : DhcpPacket) → IsPacket p → serialize p ≡ ok (packet_wire p)
unfolding serialize
serialize-packet_wire p h =
    serialize_to_vector-Writes (serdes_size_hint p) (write_packet p) (packet_wire p)
      (write_packet-Writes p h)
    ∙ rw (
        ltb-false (serdes_size_hint p + 128) (length (packet_wire p))
          (omega (arith, serdes_size_hint-packet_wire p h)))

-- The constructor reads it back.
pub dhcp_packet-packet_wire : (p : DhcpPacket) → IsPacket p → dhcp_packet (packet_wire p) ≡ ok p
unfolding dhcp_packet
dhcp_packet-packet_wire p h =
    rw (
      Reads-end (read_packet empty_packet) (packet_wire p) p (packet_wire p)
        (read_packet-Reads p h))

-- Every well-formed DHCP packet is serialised without an exception, and the bytes are read back as the
-- packet.
pub dhcp_packet-serialize : (p : DhcpPacket) → IsPacket p → serialize p >>= dhcp_packet ≡ ok p
dhcp_packet-serialize p h = rw (serialize-packet_wire p h) (dhcp_packet-packet_wire p h)

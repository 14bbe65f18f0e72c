-- ===== src/Dhcp/Packet/Text.antt =====
-- dhcp_packet_v4::pretty_print of bootpd/dhcp_packet_v4.cpp.
use bootpd.Common.{
  ℕ, zero, suc, ◌+◌, ◌-◌, ◌/◌, ◌%◌, ◌==◌, ltb, if◌then◌else◌, Bytes, codes, [], ◌∷◌, ◌++◌, length,
  replicate, Result, ok, fault, ◌>>=◌, to_decimal,
}
use bootpd.Network.Inet.{Inet, v4_address_to_string}
use bootpd.Network.Mac.{mac_address_to_string}
use bootpd.Dhcp.Packet.{
  DhcpPacket, hardware_address, opcode_to_string, hardware_type_to_string, bootp_flags_to_string,
}

-- The hexadecimal digits of a number of at most `n` more of them.
abbrev pub hex_digits : ℕ → ℕ → Bytes
hex_digits zero value = []
hex_digits (suc n) value =
    let front = hex_digits n (value / 16) in
    let digit = value % 16 in
    (if value / 16 == 0 then [] else front)
    ++ (if ltb digit 10 then 48 + digit else 87 + digit) ∷ []

-- {:#08x} of 32 bits: eight characters with the prefix.
abbrev pub hex_08 : ℕ → Bytes
hex_08 value =
    let digits = hex_digits 8 value in codes "0x" ++ (replicate (6 - length digits) 48 ++ digits)

-- The text of an array of characters: one without a zero is read beyond its end.
abbrev pub c_str : Bytes → Result Bytes
c_str [] = fault
c_str (c ∷ chars) = let rest = c_str chars in if c == 0 then ok [] else (rest >>= λ t. ok (c ∷ t))

abbrev pub text_line : Bytes → Bytes → Bytes → Bytes
text_line label value end = label ++ (value ++ end)

module _ (inet : Inet) where
  abbrev address_line : Bytes → ℕ → Result Bytes
  address_line label address =
      v4_address_to_string inet address >>= λ t. ok (text_line label t (codes " \n"))

  unfoldable pub pretty_print : DhcpPacket → Result Bytes
  pretty_print p = do
    client ← address_line (codes "Client IP address ........ : ") p.client_address
    your ← address_line (codes "Your IP address .......... : ") p.your_address
    server ← address_line (codes "Server IP address ........ : ") p.server_address
    gateway ← address_line (codes "Gateway IP address ....... : ") p.gateway_address
    address ← hardware_address p
    hardware ← mac_address_to_string address
    host_name ← c_str p.server_host_name
    file_name ← c_str p.boot_file_name
    ok (
        text_line (codes "Opcode ................... : ") (opcode_to_string p.opcode) (codes " \n")
        ++ text_line (codes "Hardware type ............ : ")
            (hardware_type_to_string p.hardware_type) (codes " \n")
        ++ text_line (codes "Hardware address length .. : ") (to_decimal p.hardware_address_length)
            (codes " \n")
        ++ text_line (codes "Number of hops ........... : ") (to_decimal p.number_of_hops)
            (codes " \n")
        ++ text_line (codes "Transaction ID ........... : ") (hex_08 p.transaction_id) (codes " \n")
        ++ text_line (codes "Seconds elapsed .......... : ") (to_decimal p.seconds_elapsed)
            (codes "s \n")
        ++ text_line (codes "Bootp flags .............. : ") (bootp_flags_to_string p.flags)
            (codes " \n")
        ++ client
        ++ your
        ++ server
        ++ gateway
        ++ text_line (codes "Client hardware address .. : ") hardware (codes " \n")
        ++ text_line (codes "Server host name ......... : '") host_name (codes "' \n")
        ++ text_line (codes "Boot file name ........... : '") file_name (codes "' \n"))

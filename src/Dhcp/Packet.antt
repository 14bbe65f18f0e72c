-- ===== src/Dhcp/Packet.antt =====
-- bootpd/dhcp_packet_v4.cpp: a packet of DHCP, its accessors, and how it is read and written.
pub mod Wire
pub mod Fields
pub mod Total
pub mod Text
use Prim.Native.Nat.{bit_and}
use bootpd.Common.{
  ℕ, zero, suc, ◌+◌, ◌-◌, ◌^◌, [], ◌∷◌, ◌++◌, List, Bytes, codes, length, take, drop, replicate,
  Bool, true, false, ltb, ◌==◌, if◌then◌else◌, Option, none, some, Result, ok, throw, fault,
  logic_error, ◌>>=◌, to_decimal,
}
use bootpd.Serdes.Reader.{Reader, reader, read_u8, read_u16, read_u32, read_bytes}
use bootpd.Serdes.Writer.{Writer, write_u8, write_u16, write_u32, write_bytes, serialize_to_vector}
use bootpd.Dhcp.Options.{
  DhcpOptions, no_options, read_options, write_options, message_type as options_message_type,
  set_message_type as options_set_message_type,
  requested_parameters as options_requested_parameters, assign,
  serdes_size_hint as options_size_hint,
}

abbrev pub opcode_request : ℕ
opcode_request = 1

abbrev pub opcode_response : ℕ
opcode_response = 2

abbrev pub hardware_type_ethernet : ℕ
hardware_type_ethernet = 1

abbrev pub flags_broadcast : ℕ
flags_broadcast = 0x8000

pub record DhcpPacket : Type 0 where
  pub opcode : ℕ
  pub hardware_type : ℕ
  pub hardware_address_length : ℕ
  pub number_of_hops : ℕ
  pub transaction_id : ℕ
  pub seconds_elapsed : ℕ
  pub flags : ℕ
  pub client_address : ℕ
  pub your_address : ℕ
  pub server_address : ℕ
  pub gateway_address : ℕ
  pub client_hardware_address : Bytes
  pub server_host_name : Bytes
  pub boot_file_name : Bytes
  pub options : DhcpOptions

-- The default constructor.
abbrev pub empty_packet : DhcpPacket
empty_packet = record {
  opcode = opcode_response;
  hardware_type = hardware_type_ethernet;
  hardware_address_length = 6;
  number_of_hops = 0;
  transaction_id = 0;
  seconds_elapsed = 0;
  flags = flags_broadcast;
  client_address = 0;
  your_address = 0;
  server_address = 0;
  gateway_address = 0;
  client_hardware_address = replicate 16 0;
  server_host_name = replicate 64 0;
  boot_file_name = replicate 128 0;
  options = no_options;
}

unfoldable pub write_packet : DhcpPacket → Writer → Result Writer
write_packet p w = do
  w₁ ← write_u8 p.opcode w
  w₂ ← write_u8 p.hardware_type w₁
  w₃ ← write_u8 p.hardware_address_length w₂
  w₄ ← write_u8 p.number_of_hops w₃
  w₅ ← write_u32 p.transaction_id w₄
  w₆ ← write_u16 p.seconds_elapsed w₅
  w₇ ← write_u16 p.flags w₆
  w₈ ← write_u32 p.client_address w₇
  w₉ ← write_u32 p.your_address w₈
  w₁₀ ← write_u32 p.server_address w₉
  w₁₁ ← write_u32 p.gateway_address w₁₀
  w₁₂ ← write_bytes p.client_hardware_address w₁₁
  w₁₃ ← write_bytes p.server_host_name w₁₂
  w₁₄ ← write_bytes p.boot_file_name w₁₃
  write_options p.options w₁₄

unfoldable pub read_packet : DhcpPacket → Reader → Result (DhcpPacket × Reader)
read_packet p s = do
  (opcode, s₁) ← read_u8 s
  (hardware_type, s₂) ← read_u8 s₁
  (hardware_address_length, s₃) ← read_u8 s₂
  (number_of_hops, s₄) ← read_u8 s₃
  (transaction_id, s₅) ← read_u32 s₄
  (seconds_elapsed, s₆) ← read_u16 s₅
  (flags, s₇) ← read_u16 s₆
  (client_address, s₈) ← read_u32 s₇
  (your_address, s₉) ← read_u32 s₈
  (server_address, s₁₀) ← read_u32 s₉
  (gateway_address, s₁₁) ← read_u32 s₁₀
  (client_hardware_address, s₁₂) ← read_bytes 16 s₁₁
  (server_host_name, s₁₃) ← read_bytes 64 s₁₂
  (boot_file_name, s₁₄) ← read_bytes 128 s₁₃
  (options, s₁₅) ← read_options p.options s₁₄
  ok (
    record {
      opcode = opcode;
      hardware_type = hardware_type;
      hardware_address_length = hardware_address_length;
      number_of_hops = number_of_hops;
      transaction_id = transaction_id;
      seconds_elapsed = seconds_elapsed;
      flags = flags;
      client_address = client_address;
      your_address = your_address;
      server_address = server_address;
      gateway_address = gateway_address;
      client_hardware_address = client_hardware_address;
      server_host_name = server_host_name;
      boot_file_name = boot_file_name;
      options = options;
    },
    s₁₅,
  )

-- The constructor from bytes.
unfoldable pub dhcp_packet : Bytes → Result DhcpPacket
dhcp_packet bits = do (p, s) ← read_packet empty_packet (reader bits); ok p

unfoldable pub serdes_size_hint : DhcpPacket → ℕ
serdes_size_hint p =
    options_size_hint p.options + 1 + 1 + 1 + 1 + 4 + 2 + 2 + 4 + 4 + 4 + 4 + 16 + 64 + 128

-- serialize_to_vector of a packet.
unfoldable pub serialize : DhcpPacket → Result Bytes
serialize p = serialize_to_vector (serdes_size_hint p) (write_packet p)

abbrev pub opcode_to_string : ℕ → Bytes
opcode_to_string opcode =
    if opcode == 1
    then codes "Request"
    else if opcode == 2
    then codes "Reply"
    else codes "Other (" ++ to_decimal opcode ++ codes ")"

abbrev pub hardware_type_to_string : ℕ → Bytes
hardware_type_to_string htype =
    if htype == 1 then codes "Ethernet " else codes "Other (" ++ to_decimal htype ++ codes ")"

abbrev pub bootp_flags_to_string : ℕ → Bytes
bootp_flags_to_string flags = if bit_and flags 0x8000 == 0 then [] else codes "Broadcast"

abbrev pub is_some_value : Option ℕ → ℕ → Bool
is_some_value none value = false
is_some_value (some v) value = v == value

unfoldable pub message_type : DhcpPacket → Result (Option ℕ)
message_type p = options_message_type p.options

unfoldable pub is_message_type : ℕ → DhcpPacket → Result Bool
is_message_type msg_type p = do mto ← message_type p; ok (is_some_value mto msg_type)

-- The bytes of the span: one that is longer than the array of 16 reads beyond it.
unfoldable pub hardware_address : DhcpPacket → Result Bytes
hardware_address p =
    if ltb 16 p.hardware_address_length
    then fault
    else ok (take p.hardware_address_length p.client_hardware_address)

-- strnlen_s of an array of characters.
abbrev pub until_zero : Bytes → Bytes
until_zero [] = []
until_zero (c ∷ chars) = let rest = until_zero chars in if c == 0 then [] else c ∷ rest

abbrev pub server_host_name_view : DhcpPacket → Bytes
server_host_name_view p = until_zero p.server_host_name

abbrev pub boot_file_name_view : DhcpPacket → Bytes
boot_file_name_view p = until_zero p.boot_file_name

-- The getters of plain fields.
abbrev pub get_opcode : DhcpPacket → ℕ
get_opcode p = p.opcode

abbrev pub get_hardware_type : DhcpPacket → ℕ
get_hardware_type p = p.hardware_type

abbrev pub get_hardware_address_length : DhcpPacket → ℕ
get_hardware_address_length p = p.hardware_address_length

abbrev pub get_number_of_hops : DhcpPacket → ℕ
get_number_of_hops p = p.number_of_hops

abbrev pub get_client_address : DhcpPacket → ℕ
get_client_address p = p.client_address

abbrev pub get_your_address : DhcpPacket → ℕ
get_your_address p = p.your_address

abbrev pub get_server_address : DhcpPacket → ℕ
get_server_address p = p.server_address

abbrev pub get_gateway_address : DhcpPacket → ℕ
get_gateway_address p = p.gateway_address

abbrev pub get_transaction_id : DhcpPacket → ℕ
get_transaction_id p = p.transaction_id

abbrev pub get_seconds_elapsed : DhcpPacket → ℕ
get_seconds_elapsed p = p.seconds_elapsed

abbrev pub get_flags : DhcpPacket → ℕ
get_flags p = p.flags

-- The setters that set a field and cannot fail.
abbrev pub set_opcode : ℕ → DhcpPacket → DhcpPacket
set_opcode value p = record p { opcode = value }

abbrev pub set_hardware_type : ℕ → DhcpPacket → DhcpPacket
set_hardware_type value p = record p { hardware_type = value }

abbrev pub set_client_address : ℕ → DhcpPacket → DhcpPacket
set_client_address value p = record p { client_address = value }

abbrev pub set_your_address : ℕ → DhcpPacket → DhcpPacket
set_your_address value p = record p { your_address = value }

abbrev pub set_server_address : ℕ → DhcpPacket → DhcpPacket
set_server_address value p = record p { server_address = value }

abbrev pub set_gateway_address : ℕ → DhcpPacket → DhcpPacket
set_gateway_address value p = record p { gateway_address = value }

abbrev pub set_transaction_id : ℕ → DhcpPacket → DhcpPacket
set_transaction_id value p = record p { transaction_id = value }

abbrev pub set_seconds_elapsed : ℕ → DhcpPacket → DhcpPacket
set_seconds_elapsed value p = record p { seconds_elapsed = value }

abbrev pub set_flags : ℕ → DhcpPacket → DhcpPacket
set_flags value p = record p { flags = value }

abbrev pub set_number_of_hops : ℕ → DhcpPacket → DhcpPacket
set_number_of_hops value p = record p { number_of_hops = value }

-- These can fail.
unfoldable pub set_hardware_address : Bytes → DhcpPacket → Result DhcpPacket
set_hardware_address value p =
    if ltb 16 (length value)
    then throw (logic_error (codes "hardware_address too large"))
    else ok (record p {
      hardware_address_length = length value;
      client_hardware_address = value ++ drop (length value) p.client_hardware_address;
    })

unfoldable pub set_server_host_name : Bytes → DhcpPacket → Result DhcpPacket
set_server_host_name value p =
    if ltb 64 (length value)
    then throw (logic_error (codes "host_name too large"))
    else ok (record p { server_host_name = value ++ drop (length value) (replicate 64 0) })

unfoldable pub set_boot_file_name : Bytes → DhcpPacket → Result DhcpPacket
set_boot_file_name value p =
    if ltb 128 (length value)
    then throw (logic_error (codes "boot_file_name too large"))
    else ok (record p { boot_file_name = value ++ drop (length value) (replicate 128 0) })

unfoldable pub set_message_type : ℕ → DhcpPacket → Result DhcpPacket
set_message_type msg_type p = do
  options ← options_set_message_type msg_type p.options
  ok (record p { options = options })

unfoldable pub requested_parameters : DhcpPacket → Result Bytes
requested_parameters p = options_requested_parameters p.options

-- The loop of assign_options over the codes.
unfoldable pub assign_codes : DhcpOptions → Bytes → DhcpOptions → Result DhcpOptions
assign_codes from [] o = ok o
assign_codes from (index ∷ which) o = do
  (done, o') ← assign index from o
  assign_codes from which o'

unfoldable pub assign_options : DhcpOptions → Bytes → DhcpPacket → Result DhcpPacket
assign_options from which p = do
  options ← assign_codes from which p.options
  ok (record p { options = options })

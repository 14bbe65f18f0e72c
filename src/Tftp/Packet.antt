-- ===== src/Tftp/Packet.antt =====
-- bootpd/tftp_packet.cpp, tftp_packet.hpp and tftp_consts.hpp: the packets and their wire format.
-- m_value is a `Payload`; a packet has no other state.
pub mod Encoding
pub mod Write
pub mod Read
pub mod Total
use bootpd.Common.{
  ℕ, zero, suc, ◌+◌, List, [], ◌∷◌, ◌++◌, Bytes, codes, length, ◌==◌, if◌then◌else◌, Result, ok,
  throw, terminated, stuck, logic_error, ◌>>=◌, Dictionary, emplace, to_decimal,
}
use bootpd.Serdes.Reader.{Reader, reader, is_empty, read_u8, read_u16, read_asciiz}
use bootpd.Serdes.Writer.{Writer, write_u8, write_u16, write_asciiz, serialize_to_vector}

abbrev pub tftp_opcode_rrq : ℕ
tftp_opcode_rrq = 1

abbrev pub tftp_opcode_wrq : ℕ
tftp_opcode_wrq = 2

abbrev pub tftp_opcode_data : ℕ
tftp_opcode_data = 3

abbrev pub tftp_opcode_ack : ℕ
tftp_opcode_ack = 4

abbrev pub tftp_opcode_error : ℕ
tftp_opcode_error = 5

abbrev pub tftp_opcode_oack : ℕ
tftp_opcode_oack = 6

abbrev pub DictionaryType : Type 0
DictionaryType = Dictionary Bytes

-- The enumerators of error_category_type; any 16-bit number can come off the wire.
abbrev pub undefined : ℕ
undefined = 0

abbrev pub file_not_found : ℕ
file_not_found = 1

abbrev pub access_violation : ℕ
access_violation = 2

abbrev pub disk_full : ℕ
disk_full = 3

abbrev pub illegal_operation : ℕ
illegal_operation = 4

abbrev pub unknown_transfer_id : ℕ
unknown_transfer_id = 5

abbrev pub file_already_exists : ℕ
file_already_exists = 6

abbrev pub no_such_user : ℕ
no_such_user = 7

-- payload_type.
pub data Payload : Type 0 where
  monostate : Payload
  type_rrq type_wrq : Bytes → Bytes → DictionaryType → Payload
  type_data : ℕ → Bytes → Payload
  type_ack : ℕ → Payload
  type_error : ℕ → Bytes → Payload
  type_oack : DictionaryType → Payload

unfoldable pub error_code_to_string : ℕ → Bytes
error_code_to_string value =
    if value == undefined
    then codes "Not defined"
    else if value == file_not_found
    then codes "File not found"
    else if value == access_violation
    then codes "Access violation"
    else if value == disk_full
    then codes "Disk full or allocation exceeded."
    else if value == illegal_operation
    then codes "Illegal TFTP operation."
    else if value == unknown_transfer_id
    then codes "Unknown transfer ID."
    else if value == file_already_exists
    then codes "File already exists."
    else if value == no_such_user
    then codes "No such user."
    else codes "Unknown error code (" ++ to_decimal value ++ codes ")"

-- while (!_serdes.empty()) of the options: each round takes two bytes at least.
unfoldable pub options_loop : ℕ → DictionaryType → Reader → Result (DictionaryType × Reader)
options_loop zero options s = if is_empty s then ok (options, s) else stuck
options_loop (suc fuel) options s =
    let more = read_asciiz s >>= λ (option, s').
    read_asciiz s' >>= λ (value, s''). options_loop fuel (emplace option value options) s'' in
    if is_empty s then ok (options, s) else more

unfoldable pub read_options : Reader → Result (DictionaryType × Reader)
read_options s = options_loop (length s.curr) [] s

-- while (!_serdes.empty()) of the data bytes.
unfoldable pub data_loop : ℕ → Bytes → Reader → Result (Bytes × Reader)
data_loop zero bytes s = if is_empty s then ok (bytes, s) else stuck
data_loop (suc fuel) bytes s =
    let more = read_u8 s >>= λ (byte_v, s'). data_loop fuel (bytes ++ byte_v ∷ []) s' in
    if is_empty s then ok (bytes, s) else more

unfoldable pub read_data : Reader → Result (Bytes × Reader)
read_data s = data_loop (length s.curr) [] s

unfoldable pub read_request :
    (Bytes → Bytes → DictionaryType → Payload) → Reader → Result (Payload × Reader)
read_request make s = do
  (filename, s₁) ← read_asciiz s
  (xfermode, s₂) ← read_asciiz s₁
  (options, s₃) ← read_options s₂
  ok (make filename xfermode options, s₃)

unfoldable pub read_type_data : Reader → Result (Payload × Reader)
read_type_data s = do
  (block_id, s₁) ← read_u16 s
  (bytes, s₂) ← read_data s₁
  ok (type_data block_id bytes, s₂)

unfoldable pub read_type_ack : Reader → Result (Payload × Reader)
read_type_ack s = do (block_id, s₁) ← read_u16 s; ok (type_ack block_id, s₁)

unfoldable pub read_type_error : Reader → Result (Payload × Reader)
read_type_error s = do
  (error_code, s₁) ← read_u16 s
  (error_string, s₂) ← read_asciiz s₁
  ok (type_error error_code error_string, s₂)

unfoldable pub read_type_oack : Reader → Result (Payload × Reader)
read_type_oack s = do (options, s₁) ← read_options s; ok (type_oack options, s₁)

-- The switch on the opcode: one that is none of the six leaves m_value as it was.
unfoldable pub read_payload : Payload → ℕ → Reader → Result (Payload × Reader)
read_payload m_value opcode s =
    if opcode == tftp_opcode_rrq
    then read_request type_rrq s
    else if opcode == tftp_opcode_wrq
    then read_request type_wrq s
    else if opcode == tftp_opcode_data
    then read_type_data s
    else if opcode == tftp_opcode_ack
    then read_type_ack s
    else if opcode == tftp_opcode_error
    then read_type_error s
    else if opcode == tftp_opcode_oack
    then read_type_oack s
    else ok (m_value, s)

-- serdes of a reader.
unfoldable pub read_packet : Payload → Reader → Result (Payload × Reader)
read_packet m_value s = do (opcode, s₁) ← read_u16 s; read_payload m_value opcode s₁

-- The constructor from a span or a vector of bytes.
unfoldable pub tftp_packet : Bytes → Result Payload
tftp_packet bits = do (m_value, s) ← read_packet monostate (reader bits); ok m_value

unfoldable pub write_options : DictionaryType → Writer → Result Writer
write_options [] w = ok w
write_options ((option, value) ∷ options) w = do
  w₁ ← write_asciiz option w
  w₂ ← write_asciiz value w₁
  write_options options w₂

unfoldable pub write_data : Bytes → Writer → Result Writer
write_data [] w = ok w
write_data (byte ∷ bytes) w = do w₁ ← write_u8 byte w; write_data bytes w₁

unfoldable pub write_request : ℕ → Bytes → Bytes → DictionaryType → Writer → Result Writer
write_request opcode filename xfermode options w = do
  w₁ ← write_u16 opcode w
  w₂ ← write_asciiz filename w₁
  w₃ ← write_asciiz xfermode w₂
  write_options options w₃

-- serdes of a writer.
unfoldable pub write_packet : Payload → Writer → Result Writer
write_packet (type_rrq filename xfermode options) w =
    write_request tftp_opcode_rrq filename xfermode options w
write_packet (type_wrq filename xfermode options) w =
    write_request tftp_opcode_wrq filename xfermode options w
write_packet (type_data block_id bytes) w = do
  w₁ ← write_u16 tftp_opcode_data w
  w₂ ← write_u16 block_id w₁
  write_data bytes w₂
write_packet (type_ack block_id) w = do w₁ ← write_u16 tftp_opcode_ack w; write_u16 block_id w₁
write_packet (type_error error_code error_string) w = do
  w₁ ← write_u16 tftp_opcode_error w
  w₂ ← write_u16 error_code w₁
  write_asciiz error_string w₂
write_packet (type_oack options) w = do w₁ ← write_u16 tftp_opcode_oack w; write_options options w₁
write_packet monostate w = throw (logic_error (codes "Can't serialize empty packet."))

abbrev pub quoted : Bytes → Bytes
quoted text = codes "\"" ++ text ++ codes "\""

unfoldable pub options_to_string : DictionaryType → Bytes
options_to_string [] = []
options_to_string ((key, val) ∷ options) =
    codes ", " ++ key ++ codes "=" ++ quoted val ++ options_to_string options

unfoldable pub to_string : Payload → Bytes
to_string (type_rrq filename xfermode options) =
    codes "RRQ(file="
    ++ quoted filename
    ++ codes ", mode="
    ++ quoted xfermode
    ++ options_to_string options
    ++ codes ")"
to_string (type_wrq filename xfermode options) =
    codes "WRQ(file="
    ++ quoted filename
    ++ codes ", mode="
    ++ quoted xfermode
    ++ options_to_string options
    ++ codes ")"
to_string (type_data block_id bytes) =
    codes "DATA(block_id="
    ++ to_decimal block_id
    ++ codes ", data=["
    ++ to_decimal (length bytes)
    ++ codes " bytes])"
to_string (type_ack block_id) = codes "ACK(block_id=" ++ to_decimal block_id ++ codes ")"
to_string (type_error error_code error_string) =
    codes "ERROR(code="
    ++ error_code_to_string error_code
    ++ codes ", message="
    ++ quoted error_string
    ++ codes ")"
to_string (type_oack options) = codes "OACK(options=" ++ options_to_string options ++ codes ")"
to_string monostate = codes "(Nil)"

-- opcode() is noexcept, so its exception ends the program.
unfoldable pub opcode : Payload → Result ℕ
opcode (type_rrq filename xfermode options) = ok tftp_opcode_rrq
opcode (type_wrq filename xfermode options) = ok tftp_opcode_wrq
opcode (type_data block_id bytes) = ok tftp_opcode_data
opcode (type_ack block_id) = ok tftp_opcode_ack
opcode (type_error error_code error_string) = ok tftp_opcode_error
opcode (type_oack options) = ok tftp_opcode_oack
opcode monostate = terminated

unfoldable pub options_size : DictionaryType → ℕ
options_size [] = 0
options_size ((key, val) ∷ options) = (length key + length val + 2) + options_size options

-- serdes_size_hint() is noexcept too.
unfoldable pub serdes_size_hint : Payload → Result ℕ
serdes_size_hint (type_rrq filename xfermode options) =
    ok (2 + length filename + 1 + length xfermode + 1 + options_size options)
serdes_size_hint (type_wrq filename xfermode options) =
    ok (2 + length filename + 1 + length xfermode + 1 + options_size options)
serdes_size_hint (type_data block_id bytes) = ok (2 + 2 + length bytes)
serdes_size_hint (type_ack block_id) = ok (2 + 2)
serdes_size_hint (type_error error_code error_string) = ok (2 + 2 + length error_string + 1)
serdes_size_hint (type_oack options) = ok (2 + options_size options)
serdes_size_hint monostate = terminated

-- serialize_to_vector of a packet, as socket_udp::send calls it.
unfoldable pub serialize : Payload → Result Bytes
serialize packet = do hint ← serdes_size_hint packet; serialize_to_vector hint (write_packet packet)

-- The setters replace m_value whole, and each make function is its setter on a new packet.
unfoldable pub clear : Payload → Payload
clear m_value = monostate

unfoldable pub set_rrq : Payload → Bytes → Bytes → DictionaryType → Payload
set_rrq m_value filename xfermode options = type_rrq filename xfermode options

unfoldable pub set_wrq : Payload → Bytes → Bytes → DictionaryType → Payload
set_wrq m_value filename xfermode options = type_wrq filename xfermode options

unfoldable pub set_data : Payload → ℕ → Bytes → Payload
set_data m_value block_id bytes = type_data block_id bytes

unfoldable pub set_ack : Payload → ℕ → Payload
set_ack m_value block_id = type_ack block_id

unfoldable pub set_error : Payload → ℕ → Bytes → Payload
set_error m_value error_code error_string = type_error error_code error_string

-- set_error with no text takes the text of its code.
unfoldable pub set_error_code : Payload → ℕ → Payload
set_error_code m_value error_code = set_error m_value error_code (error_code_to_string error_code)

unfoldable pub set_oack : Payload → DictionaryType → Payload
set_oack m_value options = type_oack options

unfoldable pub make_rrq : Bytes → Bytes → DictionaryType → Payload
make_rrq = set_rrq monostate

unfoldable pub make_wrq : Bytes → Bytes → DictionaryType → Payload
make_wrq = set_wrq monostate

unfoldable pub make_data : ℕ → Bytes → Payload
make_data = set_data monostate

unfoldable pub make_ack : ℕ → Payload
make_ack = set_ack monostate

unfoldable pub make_error : ℕ → Bytes → Payload
make_error = set_error monostate

unfoldable pub make_error_code : ℕ → Payload
make_error_code = set_error_code monostate

unfoldable pub make_oack : DictionaryType → Payload
make_oack = set_oack monostate

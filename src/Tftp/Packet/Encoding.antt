-- ===== src/Tftp/Packet/Encoding.antt =====
-- The wire format of RFC 1350 and RFC 2347, written down independently of the code, and which packets
-- it can carry.
use bootpd.Common.{ℕ, ◌<◌, ◌^◌, [], ◌∷◌, ◌++◌, Bytes, DistinctFrom}
use bootpd.Serdes.ByteOrder.{network_byte_order, to_wire}
use bootpd.Serdes.Reader.Laws.{NonZero}
use bootpd.Serdes.Writer.Laws.{AllBytes}
use bootpd.Tftp.Packet.{
  Payload, monostate, type_rrq, type_wrq, type_data, type_ack, type_error, type_oack,
  DictionaryType,
}

abbrev pub u16_wire : ℕ → Bytes
u16_wire value = to_wire network_byte_order 2 value

abbrev pub asciiz_wire : Bytes → Bytes
asciiz_wire text = text ++ 0 ∷ []

abbrev pub options_wire : DictionaryType → Bytes
options_wire [] = []
options_wire ((option, value) ∷ options) =
    asciiz_wire option ++ (asciiz_wire value ++ options_wire options)

abbrev pub request_wire : ℕ → Bytes → Bytes → DictionaryType → Bytes
request_wire code filename xfermode options =
    u16_wire code ++ (asciiz_wire filename ++ (asciiz_wire xfermode ++ options_wire options))

abbrev pub encoding : Payload → Bytes
encoding monostate = []
encoding (type_rrq filename xfermode options) = request_wire 1 filename xfermode options
encoding (type_wrq filename xfermode options) = request_wire 2 filename xfermode options
encoding (type_data block_id bytes) = u16_wire 3 ++ (u16_wire block_id ++ bytes)
encoding (type_ack block_id) = u16_wire 4 ++ u16_wire block_id
encoding (type_error error_code error_string) =
    u16_wire 5 ++ (u16_wire error_code ++ asciiz_wire error_string)
encoding (type_oack options) = u16_wire 6 ++ options_wire options

-- Strings of bytes that hold no zero.
abbrev pub IsText : Bytes → Type 0
IsText text = AllBytes text × NonZero text

abbrev pub AllTexts : DictionaryType → Type 0
AllTexts [] = Unit {0}
AllTexts ((option, value) ∷ options) = IsText option × IsText value × AllTexts options

abbrev pub IsOptions : DictionaryType → Type 0
IsOptions options = AllTexts options × DistinctFrom [] options

-- The packets that a wire can carry: every one but the empty packet whose strings hold no zero, whose
-- numbers fit 16 bits and whose option names differ.
abbrev pub IsWire : Payload → Type 0
IsWire monostate = ⊥
IsWire (type_rrq filename xfermode options) = IsText filename × IsText xfermode × IsOptions options
IsWire (type_wrq filename xfermode options) = IsText filename × IsText xfermode × IsOptions options
IsWire (type_data block_id bytes) = (block_id < 2 ^ 16) × AllBytes bytes
IsWire (type_ack block_id) = block_id < 2 ^ 16
IsWire (type_error error_code error_string) = (error_code < 2 ^ 16) × IsText error_string
IsWire (type_oack options) = IsOptions options

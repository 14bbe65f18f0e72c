-- ===== src/Tftp/Packet/Read.antt =====
-- tftp_packet::serdes of a reader: it reads back what the writer wrote, and on any bytes it returns or
-- throws.
use bootpd.Common.{
  ℕ, zero, suc, ◌≤◌, ◌<◌, ◌^◌, ◌≡◌, ◌∙◌, [], ◌∷◌, ◌++◌, append-nil, append_assoc, Bytes, length,
  length-append, ◌==◌, ==-false, ok, emplace-Fresh, DistinctFrom, arith, false,
}
use bootpd.Serdes.ByteOrder.{network_byte_order}
use bootpd.Serdes.Reader.{Reader, read_u16, read_asciiz}
use bootpd.Serdes.Reader.Laws.{Reads, Reads-end, read_uint-Reads, read_u8_cons, read_asciiz-Reads}
use bootpd.Tftp.Packet.{
  Payload, monostate, type_rrq, type_wrq, type_data, type_ack, type_error, type_oack,
  DictionaryType, options_loop, read_options, data_loop, read_data, read_request, read_type_data,
  read_type_ack, read_type_error, read_type_oack, read_payload, read_packet, tftp_packet, serialize,
}
use bootpd.Tftp.Packet.Encoding.{
  u16_wire, asciiz_wire, options_wire, encoding, IsText, AllTexts, IsOptions, IsWire,
}
use bootpd.Tftp.Packet.Write.{serialize-encoding}

abbrev at_ : Bytes → Bytes → Reader
at_ bits curr = record { data_ = bits; curr = curr }

read_u16-Reads : (value : ℕ) → value < 2 ^ 16 → Reads read_u16 (u16_wire value) value
unfolding read_u16
read_u16-Reads value h = read_uint-Reads network_byte_order 2 value (omega arith)

asciiz_wire-nonempty : (text rest : Bytes) → (length (asciiz_wire text ++ rest) == 0) ≡ false
asciiz_wire-nonempty text rest =
    ==-false _ 0 (omega (arith, length-append (asciiz_wire text) rest, length-append text (0 ∷ [])))

options_wire_longer :
    (k v : Bytes) (options : DictionaryType)
    → suc (length (options_wire options)) ≤ length (options_wire ((k, v) ∷ options))
options_wire_longer k v options = omega (arith, length-append {0})

options_loop-Reads :
    (options before : DictionaryType) (bits : Bytes) (fuel : ℕ)
    → AllTexts options
    → DistinctFrom before options
    → length (options_wire options) ≤ fuel
    → options_loop fuel before (at_ bits (options_wire options))
      ≡ ok (before ++ options, at_ bits [])
unfolding options_loop
options_loop-Reads [] before bits zero ht hd hf = rw append-nil
options_loop-Reads [] before bits (suc fuel) ht hd hf = rw append-nil
options_loop-Reads ((k, v) ∷ options) before bits zero ht hd hf =
    absurd (omega (arith, options_wire_longer k v options))
options_loop-Reads ((k, v) ∷ options) before bits (suc fuel) ht hd hf =
    rw
      (
        asciiz_wire-nonempty k (asciiz_wire v ++ options_wire options),
        read_asciiz-Reads k ht.0.1 bits (asciiz_wire v ++ options_wire options),
      )
      (rw (read_asciiz-Reads v ht.1.1 bits (options_wire options), emplace-Fresh k v before hd.0)
        (options_loop-Reads options (before ++ (k, v) ∷ []) bits fuel ht.2 hd.1
            (omega (arith, options_wire_longer k v options))
          ∙ rw append_assoc))

read_options-Reads :
    (options : DictionaryType) (bits : Bytes)
    → IsOptions options
    → read_options (at_ bits (options_wire options)) ≡ ok (options, at_ bits [])
unfolding read_options
read_options-Reads options bits h =
    options_loop-Reads options [] bits (length (options_wire options)) h.0 h.1 (omega arith)

data_loop-Reads :
    (bytes out bits : Bytes) (fuel : ℕ)
    → length bytes ≤ fuel
    → data_loop fuel out (at_ bits bytes) ≡ ok (out ++ bytes, at_ bits [])
unfolding data_loop
data_loop-Reads [] out bits zero h = rw append-nil
data_loop-Reads [] out bits (suc fuel) h = rw append-nil
data_loop-Reads (b ∷ bytes) out bits zero h = absurd (omega arith)
data_loop-Reads (b ∷ bytes) out bits (suc fuel) h =
    rw (==-false (suc (length bytes)) 0 (omega arith), read_u8_cons b bits bytes)
      (data_loop-Reads bytes (out ++ b ∷ []) bits fuel (omega arith) ∙ rw append_assoc)

read_request-Reads :
    (make : Bytes → Bytes → DictionaryType → Payload) (filename xfermode : Bytes)
    (options : DictionaryType) (bits : Bytes)
    → IsText filename
    → IsText xfermode
    → IsOptions options
    → read_request make
        (at_ bits (asciiz_wire filename ++ (asciiz_wire xfermode ++ options_wire options)))
      ≡ ok (make filename xfermode options, at_ bits [])
unfolding read_request
read_request-Reads make filename xfermode options bits hf hx ho =
    rw (read_asciiz-Reads filename hf.1 bits (asciiz_wire xfermode ++ options_wire options)) (
      rw (read_asciiz-Reads xfermode hx.1 bits (options_wire options))
        (rw (read_options-Reads options bits ho)))

read_packet-Reads :
    (p old : Payload) (bits : Bytes)
    → IsWire p
    → read_packet old (at_ bits (encoding p)) ≡ ok (p, at_ bits [])
unfolding read_packet read_payload read_type_data read_type_ack read_type_error read_type_oack
read_packet-Reads monostate old bits h = absurd h
read_packet-Reads (type_rrq filename xfermode options) old bits (hf, hx, ho) =
    rw
      (read_u16-Reads 1 (omega arith) bits
        (asciiz_wire filename ++ (asciiz_wire xfermode ++ options_wire options)))
      (read_request-Reads type_rrq filename xfermode options bits hf hx ho)
read_packet-Reads (type_wrq filename xfermode options) old bits (hf, hx, ho) =
    rw
      (read_u16-Reads 2 (omega arith) bits
        (asciiz_wire filename ++ (asciiz_wire xfermode ++ options_wire options)))
      (read_request-Reads type_wrq filename xfermode options bits hf hx ho)
read_packet-Reads (type_data block_id bytes) old bits h =
    rw (read_u16-Reads 3 (omega arith) bits (u16_wire block_id ++ bytes)) (
      rw (read_u16-Reads block_id h.0 bits bytes)
        (unfold read_data in rw (data_loop-Reads bytes [] bits (length bytes) (omega arith))))
read_packet-Reads (type_ack block_id) old bits h =
    rw (read_u16-Reads 4 (omega arith) bits (u16_wire block_id))
      (rw (Reads-end read_u16 (u16_wire block_id) block_id bits (read_u16-Reads block_id h)))
read_packet-Reads (type_error error_code error_string) old bits h =
    rw (read_u16-Reads 5 (omega arith) bits (u16_wire error_code ++ asciiz_wire error_string)) (
      rw (read_u16-Reads error_code h.0 bits (asciiz_wire error_string)) (
        rw (
          Reads-end read_asciiz (asciiz_wire error_string) error_string bits
            (read_asciiz-Reads error_string h.1.1))))
read_packet-Reads (type_oack options) old bits h =
    rw (read_u16-Reads 6 (omega arith) bits (options_wire options))
      (rw (read_options-Reads options bits h))

-- A packet that a wire can carry is serialised to its wire format, and the constructor reads the
-- packet back from those bytes.
pub tftp_packet-serialize :
    (p : Payload) → IsWire p → (serialize p ≡ ok (encoding p)) × (tftp_packet (encoding p) ≡ ok p)
unfolding tftp_packet
tftp_packet-serialize p h =
    (serialize-encoding p h, rw (read_packet-Reads p monostate (encoding p) h))

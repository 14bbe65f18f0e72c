-- ===== src/Tftp/Packet/Write.antt =====
-- tftp_packet::serdes of a writer, and serdes_size_hint: what is written, and that it always fits.
use bootpd.Common.{
  ℕ, ◌+◌, ◌≡◌, refl, ap, ◌∙◌, [], ◌∷◌, Bytes, length, length-append, ltb-false, ok, terminated,
  arith, ◌≢◌, subst, Calm, Calm-bind,
}
use bootpd.Serdes.ByteOrder.{network_byte_order, length-to_wire}
use bootpd.Serdes.Writer.{Writer, write_u8, write_u16, write_asciiz}
use bootpd.Serdes.Writer.Laws.{
  Writes, AllBytes, nothing-Writes, then-Writes, write_uint-Writes, write_u8-Writes,
  write_asciiz-Writes, serialize_to_vector-Writes,
}
use bootpd.Serdes.Writer.Total.{
  write_u8-Calm, write_u16-Calm, write_asciiz-Calm, serialize_to_vector-Calm,
}
use bootpd.Tftp.Packet.{
  Payload, monostate, type_rrq, type_wrq, type_data, type_ack, type_error, type_oack,
  DictionaryType, write_options, write_data, write_request, write_packet, options_size,
  serdes_size_hint, serialize,
}
use bootpd.Tftp.Packet.Encoding.{
  u16_wire, asciiz_wire, options_wire, request_wire, encoding, IsText, AllTexts, IsWire,
}

write_u16-Writes : (value : ℕ) → Writes (write_u16 value) (u16_wire value)
unfolding write_u16
write_u16-Writes value = write_uint-Writes network_byte_order 2 value

write_options-Writes :
    (options : DictionaryType)
    → AllTexts options
    → Writes (write_options options) (options_wire options)
unfolding write_options
write_options-Writes [] h = nothing-Writes
write_options-Writes ((option, value) ∷ options) h =
    then-Writes (write_asciiz option) _ (asciiz_wire option) _ (write_asciiz-Writes option h.0.0) (
      then-Writes (write_asciiz value) (write_options options) (asciiz_wire value)
        (options_wire options) (write_asciiz-Writes value h.1.0) (write_options-Writes options h.2))

write_data-Writes : (bytes : Bytes) → AllBytes bytes → Writes (write_data bytes) bytes
unfolding write_data
write_data-Writes [] h = nothing-Writes
write_data-Writes (b ∷ bytes) h =
    then-Writes (write_u8 b) (write_data bytes) (b ∷ []) bytes (write_u8-Writes b h.0)
      (write_data-Writes bytes h.1)

write_request-Writes :
    (code : ℕ) (filename xfermode : Bytes) (options : DictionaryType)
    → IsText filename
    → IsText xfermode
    → AllTexts options
    → Writes
        (write_request code filename xfermode options)
        (request_wire code filename xfermode options)
unfolding write_request
write_request-Writes code filename xfermode options hf hx ho =
    then-Writes (write_u16 code) _ (u16_wire code) _ (write_u16-Writes code) (
      then-Writes (write_asciiz filename) _ (asciiz_wire filename) _
        (write_asciiz-Writes filename hf.0)
        (then-Writes (write_asciiz xfermode) (write_options options) (asciiz_wire xfermode)
          (options_wire options) (write_asciiz-Writes xfermode hx.0)
          (write_options-Writes options ho)))

pub write_packet-Writes : (p : Payload) → IsWire p → Writes (write_packet p) (encoding p)
unfolding write_packet
write_packet-Writes monostate h = absurd h
write_packet-Writes (type_rrq filename xfermode options) (hf, hx, ho) =
    write_request-Writes 1 filename xfermode options hf hx ho.0
write_packet-Writes (type_wrq filename xfermode options) (hf, hx, ho) =
    write_request-Writes 2 filename xfermode options hf hx ho.0
write_packet-Writes (type_data block_id bytes) h =
    then-Writes (write_u16 3) _ (u16_wire 3) _ (write_u16-Writes 3) (
      then-Writes (write_u16 block_id) (write_data bytes) (u16_wire block_id) bytes
        (write_u16-Writes block_id) (write_data-Writes bytes h.1))
write_packet-Writes (type_ack block_id) h =
    then-Writes (write_u16 4) (write_u16 block_id) (u16_wire 4) (u16_wire block_id)
      (write_u16-Writes 4) (write_u16-Writes block_id)
write_packet-Writes (type_error error_code error_string) h =
    then-Writes (write_u16 5) _ (u16_wire 5) _ (write_u16-Writes 5) (
      then-Writes (write_u16 error_code) (write_asciiz error_string) (u16_wire error_code)
        (asciiz_wire error_string) (write_u16-Writes error_code)
        (write_asciiz-Writes error_string h.1.0))
write_packet-Writes (type_oack options) h =
    then-Writes (write_u16 6) (write_options options) (u16_wire 6) (options_wire options)
      (write_u16-Writes 6) (write_options-Writes options h.0)

length-u16_wire : (value : ℕ) → length (u16_wire value) ≡ 2
length-u16_wire value = length-to_wire network_byte_order 2 value

length-options_wire :
    (options : DictionaryType) → length (options_wire options) ≡ options_size options
unfolding options_size
length-options_wire [] = refl
length-options_wire ((option, value) ∷ options) =
    omega (arith, length-append {0}, length-options_wire options)

-- On every packet but the empty one the size hint is the exact number of bytes of the wire format.
pub serdes_size_hint-encoding :
    (p : Payload) → p ≢ monostate → serdes_size_hint p ≡ ok (length (encoding p))
unfolding serdes_size_hint
serdes_size_hint-encoding monostate h = absurd (h refl)
serdes_size_hint-encoding (type_rrq filename xfermode options) h =
    ap ok (omega (arith, length-append {0}, length-u16_wire 1, length-options_wire options))
serdes_size_hint-encoding (type_wrq filename xfermode options) h =
    ap ok (omega (arith, length-append {0}, length-u16_wire 2, length-options_wire options))
serdes_size_hint-encoding (type_data block_id bytes) h =
    ap ok (omega (arith, length-append {0}, length-u16_wire 3, length-u16_wire block_id))
serdes_size_hint-encoding (type_ack block_id) h =
    ap ok (omega (arith, length-append {0}, length-u16_wire 4, length-u16_wire block_id))
serdes_size_hint-encoding (type_error error_code error_string) h =
    ap ok (omega (arith, length-append {0}, length-u16_wire 5, length-u16_wire error_code))
serdes_size_hint-encoding (type_oack options) h =
    ap ok (omega (arith, length-append {0}, length-u16_wire 6, length-options_wire options))

-- A packet that a wire can carry is serialised to its wire format: the buffer is never too small.
pub serialize-encoding : (p : Payload) → IsWire p → serialize p ≡ ok (encoding p)
unfolding serialize
serialize-encoding p h = rw (serdes_size_hint-encoding p (not_empty p h)) (
    serialize_to_vector-Writes (length (encoding p)) (write_packet p) (encoding p)
      (write_packet-Writes p h)
    ∙ rw (ltb-false (length (encoding p) + 128) (length (encoding p)) (omega arith)))
  where
    not_empty : (q : Payload) → IsWire q → q ≢ monostate
    not_empty q hq e = subst IsWire e hq

write_options-Calm : (options : DictionaryType) (w : Writer) → Calm (write_options options w)
unfolding write_options
write_options-Calm [] w = tt
write_options-Calm ((option, value) ∷ options) w =
    Calm-bind (write_asciiz option w) _ (write_asciiz-Calm option w) λ w₁.
      Calm-bind (write_asciiz value w₁) _ (write_asciiz-Calm value w₁) (write_options-Calm options)

write_data-Calm : (bytes : Bytes) (w : Writer) → Calm (write_data bytes w)
unfolding write_data
write_data-Calm [] w = tt
write_data-Calm (b ∷ bytes) w =
    Calm-bind (write_u8 b w) _ (write_u8-Calm b w) (write_data-Calm bytes)

write_request-Calm :
    (code : ℕ) (filename xfermode : Bytes) (options : DictionaryType) (w : Writer)
    → Calm (write_request code filename xfermode options w)
unfolding write_request
write_request-Calm code filename xfermode options w =
    Calm-bind (write_u16 code w) _ (write_u16-Calm code w) λ w₁.
      Calm-bind (write_asciiz filename w₁) _ (write_asciiz-Calm filename w₁) λ w₂.
        Calm-bind (write_asciiz xfermode w₂) _ (write_asciiz-Calm xfermode w₂)
          (write_options-Calm options)

write_packet-Calm : (p : Payload) (w : Writer) → Calm (write_packet p w)
unfolding write_packet
write_packet-Calm monostate w = tt
write_packet-Calm (type_rrq f x o) w = write_request-Calm 1 f x o w
write_packet-Calm (type_wrq f x o) w = write_request-Calm 2 f x o w
write_packet-Calm (type_data b d) w =
    Calm-bind (write_u16 3 w) _ (write_u16-Calm 3 w)
      λ w₁. Calm-bind (write_u16 b w₁) _ (write_u16-Calm b w₁) (write_data-Calm d)
write_packet-Calm (type_ack b) w =
    Calm-bind (write_u16 4 w) _ (write_u16-Calm 4 w) (write_u16-Calm b)
write_packet-Calm (type_error c t) w =
    Calm-bind (write_u16 5 w) _ (write_u16-Calm 5 w)
      λ w₁. Calm-bind (write_u16 c w₁) _ (write_u16-Calm c w₁) (write_asciiz-Calm t)
write_packet-Calm (type_oack o) w =
    Calm-bind (write_u16 6 w) _ (write_u16-Calm 6 w) (write_options-Calm o)

-- Serialising anything but the empty packet returns or throws.
pub serialize-Calm : (p : Payload) → p ≢ monostate → Calm (serialize p)
unfolding serialize
serialize-Calm p h =
    rw (serdes_size_hint-encoding p h)
      (serialize_to_vector-Calm (length (encoding p)) (write_packet p) (write_packet-Calm p))

-- The empty packet ends the program: serdes_size_hint throws out of a noexcept function.
pub serialize_monostate : serialize monostate ≡ terminated
unfolding serialize serdes_size_hint
serialize_monostate = refl

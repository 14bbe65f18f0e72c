-- ===== src/Tftp/Packet/Total.antt =====
-- tftp_packet::serdes of a reader on any bytes: it never runs past the data, and its loops end.
use bootpd.Common.{
  ℕ, zero, suc, ◌≤◌, ◌≡◌, refl, ◌⊎◌, inl, inr, [], ◌∷◌, ◌++◌, Bytes, length, ==_iff, Result, ok,
  ◌>>=◌, emplace, arith,
}
use bootpd.Serdes.Reader.{Reader, reader, read_u8, read_u16, read_asciiz, is_empty}
use bootpd.Serdes.Reader.Total.{
  no_data, Settles, settle_bind, settle_if, weaken, read_u8-Settles, read_u16-Settles,
  read_asciiz-Settles,
}
use bootpd.Tftp.Packet.{
  Payload, monostate, type_rrq, type_wrq, DictionaryType, options_loop, read_options, data_loop,
  read_data, read_request, read_type_data, read_type_ack, read_type_error, read_type_oack,
  read_payload, read_packet, tftp_packet,
}

options_loop-Settles :
    (fuel : ℕ) (options : DictionaryType) (s : Reader)
    → length s.curr ≤ fuel
    → Settles (suc (length s.curr)) (options_loop fuel options s)
unfolding options_loop
options_loop-Settles zero options s h =
    let e : length s.curr ≡ 0 = omega arith in
    rw ((==_iff (length s.curr) 0).1 e) (inl (_, _, refl, omega arith))
options_loop-Settles (suc fuel) options s h =
    settle_if (suc (length s.curr)) (is_empty s) _ _ (inl (_, _, refl, omega arith)) (
      settle_bind (length s.curr) (suc (length s.curr)) (read_asciiz s) _ (read_asciiz-Settles s)
        λ option s₁ h₁.
          settle_bind (length s₁.curr) (suc (length s.curr)) (read_asciiz s₁) _
            (read_asciiz-Settles s₁)
            λ value s₂ h₂.
              weaken (suc (length s₂.curr)) (suc (length s.curr)) _ (omega arith)
                (options_loop-Settles fuel (emplace option value options) s₂ (omega arith)))

read_options-Settles : (s : Reader) → Settles (suc (length s.curr)) (read_options s)
unfolding read_options
read_options-Settles s = options_loop-Settles (length s.curr) [] s (omega arith)

data_loop-Settles :
    (fuel : ℕ) (bytes : Bytes) (s : Reader)
    → length s.curr ≤ fuel
    → Settles (suc (length s.curr)) (data_loop fuel bytes s)
unfolding data_loop
data_loop-Settles zero bytes s h =
    let e : length s.curr ≡ 0 = omega arith in
    rw ((==_iff (length s.curr) 0).1 e) (inl (_, _, refl, omega arith))
data_loop-Settles (suc fuel) bytes s h =
    settle_if (suc (length s.curr)) (is_empty s) _ _ (inl (_, _, refl, omega arith)) (
      settle_bind (length s.curr) (suc (length s.curr)) (read_u8 s) _ (read_u8-Settles s) λ b s₁ h₁.
        weaken (suc (length s₁.curr)) (suc (length s.curr)) _ (omega arith)
          (data_loop-Settles fuel (bytes ++ b ∷ []) s₁ (omega arith)))

read_data-Settles : (s : Reader) → Settles (suc (length s.curr)) (read_data s)
unfolding read_data
read_data-Settles s = data_loop-Settles (length s.curr) [] s (omega arith)

read_request-Settles :
    (make : Bytes → Bytes → DictionaryType → Payload) (s : Reader)
    → Settles (length s.curr) (read_request make s)
unfolding read_request
read_request-Settles make s =
    settle_bind (length s.curr) (length s.curr) (read_asciiz s) _ (read_asciiz-Settles s) λ f s₁ h₁.
      settle_bind (length s₁.curr) (length s.curr) (read_asciiz s₁) _ (read_asciiz-Settles s₁)
        λ x s₂ h₂.
          settle_bind (suc (length s₂.curr)) (length s.curr) (read_options s₂) _
            (read_options-Settles s₂) λ o s₃ h₃. inl (_, _, refl, omega arith)

read_type_data-Settles : (s : Reader) → Settles (length s.curr) (read_type_data s)
unfolding read_type_data
read_type_data-Settles s =
    settle_bind (length s.curr) (length s.curr) (read_u16 s) _ (read_u16-Settles s) λ b s₁ h₁.
      settle_bind (suc (length s₁.curr)) (length s.curr) (read_data s₁) _ (read_data-Settles s₁)
        λ d s₂ h₂. inl (_, _, refl, omega arith)

read_type_ack-Settles : (s : Reader) → Settles (length s.curr) (read_type_ack s)
unfolding read_type_ack
read_type_ack-Settles s =
    settle_bind (length s.curr) (length s.curr) (read_u16 s) _ (read_u16-Settles s)
      λ b s₁ h₁. inl (_, _, refl, h₁)

read_type_error-Settles : (s : Reader) → Settles (length s.curr) (read_type_error s)
unfolding read_type_error
read_type_error-Settles s =
    settle_bind (length s.curr) (length s.curr) (read_u16 s) _ (read_u16-Settles s) λ c s₁ h₁.
      settle_bind (length s₁.curr) (length s.curr) (read_asciiz s₁) _ (read_asciiz-Settles s₁)
        λ t s₂ h₂. inl (_, _, refl, omega arith)

read_type_oack-Settles : (s : Reader) → Settles (suc (length s.curr)) (read_type_oack s)
unfolding read_type_oack
read_type_oack-Settles s =
    settle_bind (suc (length s.curr)) (suc (length s.curr)) (read_options s) _
      (read_options-Settles s) λ o s₁ h₁. inl (_, _, refl, h₁)

read_payload-Settles :
    (old : Payload) (code : ℕ) (s : Reader)
    → Settles (suc (length s.curr)) (read_payload old code s)
unfolding read_payload
read_payload-Settles old code s = settle_if n _ _ _ (more (read_request-Settles type_rrq s)) (
    settle_if n _ _ _ (more (read_request-Settles type_wrq s)) (
      settle_if n _ _ _ (more (read_type_data-Settles s)) (
        settle_if n _ _ _ (more (read_type_ack-Settles s)) (
          settle_if n _ _ _ (more (read_type_error-Settles s))
            (settle_if n _ _ _ (read_type_oack-Settles s) (inl (old, s, refl, omega arith)))))))
  where
    n : ℕ
    n = suc (length s.curr)

    more : {r : Result (Payload × Reader)} → Settles (length s.curr) r → Settles n r
    more {r} h = weaken (length s.curr) n r (omega arith) h

read_packet-Settles : (old : Payload) (s : Reader) → Settles (length s.curr) (read_packet old s)
unfolding read_packet
read_packet-Settles old s =
    settle_bind (length s.curr) (length s.curr) (read_u16 s) _ (read_u16-Settles s) λ code s₁ h₁.
      weaken (suc (length s₁.curr)) (length s.curr) (read_payload old code s₁) (omega arith)
        (read_payload-Settles old code s₁)

-- On any bytes the constructor of a TFTP packet returns a packet or throws that the data ended.
pub tftp_packet_total :
    (bits : Bytes) → ((p : Payload) × (tftp_packet bits ≡ ok p)) ⊎ (tftp_packet bits ≡ no_data)
unfolding tftp_packet
tftp_packet_total bits = outcome (read_packet-Settles monostate (reader bits))
  where
    outcome :
        Settles (length bits) (read_packet monostate (reader bits))
        → ((p : Payload) × ((read_packet monostate (reader bits) >>= λ r. ok r.0) ≡ ok p))
          ⊎ ((read_packet monostate (reader bits) >>= λ r. ok r.0) ≡ no_data)
    outcome (inl (p, s, e, h)) = inl (p, rw e)
    outcome (inr e) = inr (rw e)

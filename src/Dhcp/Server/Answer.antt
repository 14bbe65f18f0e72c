-- ===== src/Dhcp/Server/Answer.antt =====
-- dhcp_server_v4::thread_outgoing, one packet: what is sent for a request, and for what is no request.
use bootpd.Common.{
  lt→ltb, fault, ℕ, ◌<◌, ◌≡◌, ◌≢◌, refl, ap, ◌∙◌, ◌⊎◌, inl, inr, List, [], ◌∷◌, ◌++◌, Bytes, ◌==◌,
  ==-false, if◌then◌else◌, find, Bool-cases, true, Option, none, some, ok, throw, runtime_error,
  codes, arith,
}
use bootpd.Network.{Address, Arrival, everyone, World, Io, lift}
use bootpd.Network.Laws.{quiet, send-quiet}
use bootpd.Dhcp.Packet.{
  hardware_address, DhcpPacket, dhcp_packet, message_type, is_message_type, is_some_value,
  serialize,
}
use bootpd.Serdes.Writer.Laws.{AllBytes}
use bootpd.Dhcp.Packet.Total.{IsReceived, received}
use bootpd.Dhcp.Packet.Wire.{packet_wire, serialize-packet_wire, dhcp_packet-packet_wire}
use bootpd.Dhcp.Server.{OfferParams, Clients, client_key, answer, respond}
use bootpd.Dhcp.Server.Offer.{IsParams, IsRequest, IsResponse, make_response_lem}

-- RFC 2131: DHCPDISCOVER is answered by DHCPOFFER, and DHCPREQUEST by DHCPACK.
abbrev pub Answers : ℕ → ℕ → Type 0
Answers m t = ((m ≡ 1) × (t ≡ 2)) ⊎ ((m ≡ 3) × (t ≡ 5))

Answers-byte : (m t : ℕ) → Answers m t → t < 256
Answers-byte m t (inl (hm, ht)) = omega arith
Answers-byte m t (inr (hm, ht)) = omega arith

-- The world after one datagram more.
abbrev sent_to : Address → Bytes → List Arrival → List (Address × Bytes) → World
sent_to target bits recvs sent = quiet recvs (sent ++ (target, bits) ∷ [])

answer_lem :
    (clients : Clients) (source : Address) (p : DhcpPacket) (params_v : OfferParams)
    (which key : Bytes) (t : ℕ) (recvs : List Arrival) (sent : List (Address × Bytes))
    → IsReceived p
    → IsRequest p which
    → IsParams params_v
    → client_key p ≡ ok key
    → find key clients ≡ some params_v
    → t < 256
    → (r : DhcpPacket) × IsResponse p params_v t r
      × (answer clients source p t (quiet recvs sent)
          ≡ (ok tt, sent_to (everyone source.port) (packet_wire r) recvs sent))
unfolding answer
answer_lem clients source p params_v which key t recvs sent rc k v ek ef ht =
    let (r, er, hr) = make_response_lem p params_v which t rc k v ht in
    (
      r,
      hr,
      rw ek (
          rw ef (
            rw er (
              send-quiet (serialize r) (packet_wire r) (everyone source.port) recvs sent
                (serialize-packet_wire r hr.packet)))),
    )

is_message_type_lem :
    (p : DhcpPacket) (mto : Option ℕ) (t : ℕ)
    → message_type p ≡ ok mto
    → is_message_type t p ≡ ok (is_some_value mto t)
unfolding is_message_type
is_message_type_lem p mto t e = rw e

equal_true : (a b : ℕ) → a ≡ b → (a == b) ≡ true
equal_true a b e = ground arith

-- What follows the message type of a request.
abbrev by_type : Clients → Address → DhcpPacket → Option ℕ → Io (Unit {0})
by_type clients source p mto =
    if is_some_value mto 1
    then answer clients source p 2
    else if is_some_value mto 3
    then answer clients source p 5
    else lift (ok tt)

respond_lem :
    (clients : Clients) (source : Address) (bits : Bytes) (p : DhcpPacket) (mto : Option ℕ)
    (w : World)
    → dhcp_packet bits ≡ ok p
    → p.opcode ≡ 1
    → message_type p ≡ ok mto
    → respond clients source bits w ≡ by_type clients source p mto w
unfolding respond
respond_lem clients source bits p mto w eb eo em = rw eb (
    rw (equal_true p.opcode 1 eo)
      (rw (is_message_type_lem p mto 1 em, is_message_type_lem p mto 3 em)))

by_type_lem :
    (clients : Clients) (source : Address) (p : DhcpPacket) (m t : ℕ) (w : World)
    → Answers m t
    → by_type clients source p (some m) w ≡ answer clients source p t w
by_type_lem clients source p m t w (inl (hm, ht)) = rw (hm, ht)
by_type_lem clients source p m t w (inr (hm, ht)) = rw (hm, ht)

by_type_ignores :
    (clients : Clients) (source : Address) (p : DhcpPacket) (mto : Option ℕ) (w : World)
    → mto ≢ some 1
    → mto ≢ some 3
    → by_type clients source p mto w ≡ (ok tt, w)
by_type_ignores clients source p none w h k = refl
by_type_ignores clients source p (some m) w h k =
    rw (==-false m 1 (λ e. h (ap some e)), ==-false m 3 (λ e. k (ap some e)))

-- Bytes that are read as a DHCPDISCOVER or DHCPREQUEST, whose hardware address fits its array and
-- which asks for options with codes from 1 to 254 only, of a client that is in the map with parameters
-- that fit a packet, are answered on a network that delivers by exactly one datagram, a broadcast to
-- the port they came from. The datagram is read back as a well-formed response to this request, with
-- message type DHCPOFFER or DHCPACK.
pub respond-Answers :
    (clients : Clients) (source : Address) (bits : Bytes) (p : DhcpPacket) (params_v : OfferParams)
    (which key : Bytes) (m t : ℕ) (recvs : List Arrival) (sent : List (Address × Bytes))
    → AllBytes bits
    → dhcp_packet bits ≡ ok p
    → p.opcode ≡ 1
    → message_type p ≡ ok (some m)
    → Answers m t
    → IsRequest p which
    → IsParams params_v
    → client_key p ≡ ok key
    → find key clients ≡ some params_v
    → (r : DhcpPacket) × (reply : Bytes) × IsResponse p params_v t r
      × (dhcp_packet reply ≡ ok r)
      × (respond clients source bits (quiet recvs sent)
          ≡ (ok tt, quiet recvs (sent ++ (everyone source.port, reply) ∷ [])))
respond-Answers clients source bits p params_v which key m t recvs sent hb eb eo em ha k v ek ef =
    let rc = received bits p hb eb in
    let (r, hr, e) =
      answer_lem clients source p params_v which key t recvs sent rc k v ek ef
        (Answers-byte m t ha) in
    (
      r,
      packet_wire r,
      hr,
      dhcp_packet-packet_wire r hr.packet,
      respond_lem clients source bits p (some m) (quiet recvs sent) eb eo em
          ∙ by_type_lem clients source p m t (quiet recvs sent) ha
          ∙ e,
    )

-- A packet whose opcode is not that of a request, whatever its options, or whose message type can be
-- read and is neither DHCPDISCOVER nor DHCPREQUEST, or is none, is ignored: nothing is sent and
-- nothing is thrown.
pub respond-ignores :
    (clients : Clients) (source : Address) (bits : Bytes) (p : DhcpPacket) (w : World)
    → dhcp_packet bits ≡ ok p
    → (p.opcode ≢ 1)
      ⊎ ((mto : Option ℕ) × (message_type p ≡ ok mto) × (mto ≢ some 1) × (mto ≢ some 3))
    → respond clients source bits w ≡ (ok tt, w)
unfolding respond
respond-ignores clients source bits p w eb (inl h) = rw eb (rw (==-false p.opcode 1 h))
respond-ignores clients source bits p w eb (inr (mto, em, apart, apart₃)) =
    elim (Bool-cases (p.opcode == 1)) [
      | inl e ↦ rw eb (
          rw e (
            rw (is_message_type_lem p mto 1 em, is_message_type_lem p mto 3 em)
              (by_type_ignores clients source p mto w apart apart₃)))
      | inr e ↦ rw eb (rw e)
    ]

-- A DHCPDISCOVER or DHCPREQUEST of a client that is not in the map is an exception, and nothing is
-- sent.
respond_unknown :
    (clients : Clients) (source : Address) (bits : Bytes) (p : DhcpPacket) (key : Bytes) (m t : ℕ)
    (w : World)
    → dhcp_packet bits ≡ ok p
    → p.opcode ≡ 1
    → message_type p ≡ ok (some m)
    → Answers m t
    → client_key p ≡ ok key
    → find key clients ≡ none
    → respond clients source bits w
      ≡ (throw (runtime_error (codes "No configuration found for client : " ++ key)), w)
unfolding answer
respond_unknown clients source bits p key m t w eb eo em ha ek ef =
    respond_lem clients source bits p (some m) w eb eo em
    ∙ by_type_lem clients source p m t w ha
    ∙ no_params
  where
    no_params :
        answer clients source p t w
        ≡ (throw (runtime_error (codes "No configuration found for client : " ++ key)), w)
    no_params = rw ek (rw ef)

-- A DHCPDISCOVER or DHCPREQUEST, of a client in the map or not, that says that its hardware address
-- has more than 16 bytes makes the server read beyond the array of the address.
pub respond_overflow :
    (clients : Clients) (source : Address) (bits : Bytes) (p : DhcpPacket) (m t : ℕ) (w : World)
    → dhcp_packet bits ≡ ok p
    → p.opcode ≡ 1
    → message_type p ≡ ok (some m)
    → Answers m t
    → 16 < p.hardware_address_length
    → respond clients source bits w ≡ (fault, w)
unfolding answer client_key hardware_address
respond_overflow clients source bits p m t w eb eo em ha long =
    respond_lem clients source bits p (some m) w eb eo em
    ∙ by_type_lem clients source p m t w ha
    ∙ overflow
  where
    overflow : answer clients source p t w ≡ (fault, w)
    overflow = rw (lt→ltb 16 p.hardware_address_length long)

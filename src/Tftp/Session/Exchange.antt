-- ===== src/Tftp/Session/Exchange.antt =====
-- One exchange of a transfer over a network that delivers: the answer is accepted or not.
use bootpd.Common.{
  ℕ, ◌%◌, ◌^◌, ◌<◌, ◌≡◌, sym, ◌∙◌, List, [], ◌∷◌, ◌++◌, Bytes, codes, true, length, length-append,
  Bool-cases, inl, inr, if◌then◌else◌, ok, throw, socket_timed_out, stuck, suc, arith, append-nil,
  ==_iff,
}
use bootpd.Network.{Address, same_address, Arrival, arrives, recv}
use bootpd.Network.Waiting.{recv_within, recv_within-arrives}
use bootpd.Network.Laws.{quiet, send-quiet}
use bootpd.Serdes.ByteOrder.{network_byte_order, length-to_wire}
use bootpd.Tftp.Packet.{Payload, type_ack, type_error, serialize, make_error, set_error}
use bootpd.Tftp.Packet.Encoding.{encoding, u16_wire}
use bootpd.Tftp.Packet.Write.{serialize-encoding}
use bootpd.Tftp.Packet.Read.{tftp_packet-serialize}
use bootpd.Tftp.Session.{exchange, validate_source, validate_ack}

-- The datagram that a stranger gets.
abbrev pub complaint : Address → Address → List (Address × Bytes)
complaint client from =
    if same_address client from
    then []
    else (from, encoding (type_error 5 (codes "Invalid source address."))) ∷ []

validate_source-quiet :
    (client from : Address) (recvs : List Arrival) (sent : List (Address × Bytes))
    → validate_source client from (quiet recvs sent)
      ≡ (ok tt, quiet recvs (sent ++ complaint client from))
unfolding validate_source make_error set_error
validate_source-quiet client from recvs sent = elim (Bool-cases (same_address client from)) [
  | inl e ↦ rw e (rw append-nil)
  | inr e ↦ rw e (
      send-quiet _ (encoding (type_error 5 (codes "Invalid source address."))) from recvs sent
        (serialize-encoding (type_error 5 (codes "Invalid source address.")) (omega arith)))
]

ack_nonempty : (k : ℕ) → 0 < length (encoding (type_ack k))
ack_nonempty k =
    omega (arith, length-append (u16_wire 4) (u16_wire k), length-to_wire network_byte_order 2 4)

-- On a network that delivers, where the packet can be serialised and the next datagram is an
-- acknowledgement of its number, the exchange returns whatever source the acknowledgement comes from;
-- a source other than the client is sent an error packet.
pub exchange_any_source :
    (timeout : ℕ) (p : Payload) (bits : Bytes) (client from : Address) (number k : ℕ)
    (recvs : List Arrival) (sent : List (Address × Bytes))
    → serialize p ≡ ok bits
    → number % 2 ^ 16 ≡ k
    → exchange timeout p client number (quiet (arrives from (encoding (type_ack k)) ∷ recvs) sent)
      ≡ (ok tt, quiet recvs ((sent ++ (client, bits) ∷ []) ++ complaint client from))
unfolding exchange
exchange_any_source timeout p bits client from number k recvs sent hp hk =
    rw (send-quiet (serialize p) bits client (arrives from (encoding (type_ack k)) ∷ recvs) sent hp)
      (rw
        (recv_within-arrives timeout from (encoding (type_ack k)) recvs
          (sent ++ (client, bits) ∷ []) (ack_nonempty k))
        (rw (validate_source-quiet client from recvs (sent ++ (client, bits) ∷ [])) (
          rw ((tftp_packet-serialize (type_ack k) (omega arith)).1)
            (unfold validate_ack in rw ((==_iff k (number % 2 ^ 16)).1 (sym hk))))))

same_address_refl : (a : Address) → same_address a a ≡ true
same_address_refl a = ground arith

pub exchange-ack :
    (timeout : ℕ) (p : Payload) (bits : Bytes) (client : Address) (number k : ℕ)
    (recvs : List Arrival) (sent : List (Address × Bytes))
    → serialize p ≡ ok bits
    → number % 2 ^ 16 ≡ k
    → exchange timeout p client number (quiet (arrives client (encoding (type_ack k)) ∷ recvs) sent)
      ≡ (ok tt, quiet recvs (sent ++ (client, bits) ∷ []))
exchange-ack timeout p bits client number k recvs sent hp hk =
    exchange_any_source timeout p bits client client number k recvs sent hp hk
    ∙ rw (same_address_refl client) (rw append-nil)

-- Where nothing comes and there is a time-out.
pub exchange-silence :
    (timeout : ℕ) (p : Payload) (bits : Bytes) (client : Address) (number : ℕ)
    (sent : List (Address × Bytes))
    → serialize p ≡ ok bits
    → exchange (suc timeout) p client number (quiet [] sent) ≡ (
      throw (socket_timed_out (codes "receive operation timed out.")),
      quiet [] (sent ++ (client, bits) ∷ []),
    )
unfolding exchange recv recv_within
exchange-silence timeout p bits client number sent hp =
    rw (send-quiet (serialize p) bits client [] sent hp)

-- Where nothing comes and there is none.
pub exchange-for_ever :
    (p : Payload) (bits : Bytes) (client : Address) (number : ℕ) (sent : List (Address × Bytes))
    → serialize p ≡ ok bits
    → exchange 0 p client number (quiet [] sent) ≡ (stuck, quiet [] (sent ++ (client, bits) ∷ []))
unfolding exchange recv_within
exchange-for_ever p bits client number sent hp =
    rw (send-quiet (serialize p) bits client [] sent hp)

-- ===== src/Network/Calls/Refinement.antt =====
-- The scripts of the network stand for the calls of the system: recv and send of a script do what
-- socket_udp does with the results of recvfrom and sendto.
use bootpd.Common.{
  lt→ltb, ◌==◌, append-nil, ℕ, suc, ◌≤◌, ◌≡◌, refl, [], ◌∷◌, ◌++◌, List, Bytes, codes, length, drop,
  take-append, Bool-cases, inl, inr, if◌then◌else◌, ltb-false, ok, ◌>>=◌, arith,
}
use bootpd.Serdes.ByteOrder.{net_to_host}
use bootpd.Network.{
  Address, Arrival, arrives, times_out, fails, Delivery, delivered, send_times_out, send_fails,
  World, recv, send, send_bits,
}
use bootpd.Network.Inet.{SockaddrIn, v4_parse_sockaddr}
use bootpd.Network.Calls.{
  RecvFrom, received, recv_error, SendTo, sent, send_error, v4_socket_recv, v4_socket_send,
  socket_recv, socket_send, last_error_as_string,
}

-- What is documented of recvfrom on a datagram socket of this family: it fills the buffer at most, and
-- gives an address of the family, in its size.
abbrev pub IsReceipt : ℕ → RecvFrom → Type 0
IsReceipt size (received bytes addr_in addr_len) =
    (length bytes ≤ size) × (addr_len ≡ 16) × (addr_in.sin_family ≡ 2)
IsReceipt size (recv_error code) = Unit {0}

-- And of sendto: it sends the whole datagram.
abbrev pub IsDispatch : Bytes → SendTo → Type 0
IsDispatch bits (sent n) = n ≡ length bits
IsDispatch bits (send_error code) = Unit {0}

abbrev host_address : SockaddrIn → Address
host_address a = record { addr = net_to_host 4 a.sin_addr; port = net_to_host 2 a.sin_port }

module _ (wsa : Bytes → ℕ) where
  -- The entry of the script that stands for a call.
  abbrev pub arrival : RecvFrom → Arrival
  arrival (received bytes addr_in addr_len) = arrives (host_address addr_in) bytes
  arrival (recv_error code) =
      if wsa (codes "WSAETIMEDOUT") == code
      then times_out
      else fails (
          codes "failed to receive bytes from socket, error code : "
          ++ last_error_as_string wsa code)

  abbrev pub delivery : SendTo → Delivery
  delivery (sent n) = delivered
  delivery (send_error code) =
      if wsa (codes "WSAETIMEDOUT") == code
      then send_times_out
      else send_fails (
          codes "failed to send bytes trough socket, error code : "
          ++ last_error_as_string wsa code)

  -- What the network has got.
  abbrev pub dispatched : SendTo → Address → Bytes → List (Address × Bytes)
  dispatched (sent n) target bits = (target, bits) ∷ []
  dispatched (send_error code) target bits = []

  recv-arrival :
      (call : RecvFrom) (buffer : Bytes) (w : World) (rest : List Arrival)
      → IsReceipt (length buffer) call
      → recv (record w { recvs = arrival call ∷ rest })
        ≡ (socket_recv wsa call buffer, record w { recvs = rest })
  unfolding recv socket_recv v4_socket_recv v4_parse_sockaddr
  recv-arrival (received [] addr_in addr_len) buffer w rest (fits, size, family) =
      rw (size, family, ltb-false (length buffer) 0 fits) refl
  recv-arrival (received (b ∷ bytes) addr_in addr_len) buffer w rest (fits, size, family) =
      rw
        (
          size,
          family,
          ltb-false (length buffer) (suc (length bytes)) fits,
          lt→ltb 0 (suc (length bytes)) (omega arith),
          take-append bytes (drop (suc (length bytes)) buffer) (length bytes) refl,
        )
        refl
  recv-arrival (recv_error code) buffer w rest h =
      elim (Bool-cases (wsa (codes "WSAETIMEDOUT") == code)) [
        | inl e ↦ rw e refl
        | inr e ↦ rw e refl
      ]

  send-delivery :
      (call : SendTo) (bits : Bytes) (target : Address) (w : World) (rest : List Delivery)
      → IsDispatch bits call
      → send (ok bits) target (record w { sends = delivery call ∷ rest }) ≡ (
        socket_send wsa call (ok bits) >>= λ n. ok tt,
        record w { sends = rest; sent = w.sent ++ dispatched call target bits },
      )
  unfolding send send_bits socket_send v4_socket_send
  send-delivery (sent n) bits target w rest h =
      rw (h, ltb-false (length bits) (length bits) (omega arith)) refl
  send-delivery (send_error code) bits target w rest h =
      elim (Bool-cases (wsa (codes "WSAETIMEDOUT") == code)) [
        | inl e ↦ rw (e, append-nil) refl
        | inr e ↦ rw (e, append-nil) refl
      ]

  -- Where recvfrom gives at most as many bytes as the buffer has, with an address of this family in
  -- its size, or fails, and sendto sends the whole datagram or fails, the receiving and the sending
  -- that the servers are modelled with do, on scripts of what stands for the calls, what the code of
  -- the sockets makes of the calls: they return and throw the same, and the datagrams that were sent
  -- are put down.
  pub calls-script :
      (call : RecvFrom) (reply : SendTo) (buffer bits : Bytes) (target : Address) (w : World)
      (recvs : List Arrival) (sends : List Delivery)
      → IsReceipt (length buffer) call
      → IsDispatch bits reply
      → (recv (record w { recvs = arrival call ∷ recvs })
          ≡ (socket_recv wsa call buffer, record w { recvs = recvs }))
        × (send (ok bits) target (record w { sends = delivery reply ∷ sends }) ≡ (
          socket_send wsa reply (ok bits) >>= λ n. ok tt,
          record w { sends = sends; sent = w.sent ++ dispatched reply target bits },
        ))
  calls-script call reply buffer bits target w recvs sends h k =
      (recv-arrival call buffer w recvs h, send-delivery reply bits target w sends k)

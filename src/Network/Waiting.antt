-- ===== src/Network/Waiting.antt =====
-- SO_RCVTIMEO and SO_SNDTIMEO, which timeout of common/socket_udp.hpp sets: with a time-out of 0 a call
-- waits until it can go on.
use bootpd.Common.{
  ℕ, zero, suc, ◌*◌, ◌%◌, ◌^◌, ◌<◌, ◌≤◌, ◌≡◌, ◌≢◌, refl, List, [], ◌∷◌, Bytes, length, ok, stuck,
  arith,
}
use bootpd.Network.{
  Address, Arrival, arrives, times_out, fails, Delivery, delivered, send_times_out, send_fails,
  World, Io, recv,
}
use bootpd.Network.Laws.{Bounded, recv-Bounded, quiet, recv-arrives}

-- duration_cast to milliseconds of a count of seconds of 64 bits, cut to the 32 bits of the option.
abbrev pub milliseconds : ℕ → ℕ
milliseconds seconds = seconds * 1000 % 2 ^ 64 % 2 ^ 32

-- recvfrom without a time-out waits through what would be one, and for ever past the end of its script.
abbrev pub recv_waiting : List Arrival → Io (Address × Bytes)
recv_waiting [] w = (stuck, record w { recvs = [] })
recv_waiting (times_out ∷ rest) w = recv_waiting rest w
recv_waiting (arrives source bits ∷ rest) w = recv (record w { recvs = arrives source bits ∷ rest })
recv_waiting (fails message ∷ rest) w = recv (record w { recvs = fails message ∷ rest })

-- socket_udp::recv on a socket with this time-out in milliseconds.
unfoldable pub recv_within : ℕ → Io (Address × Bytes)
recv_within zero w = recv_waiting w.recvs w
recv_within (suc timeout) w = recv w

abbrev without_time_outs : List Delivery → List Delivery
without_time_outs [] = []
without_time_outs (send_times_out ∷ rest) = without_time_outs rest
without_time_outs (delivered ∷ rest) = delivered ∷ without_time_outs rest
without_time_outs (send_fails message ∷ rest) = send_fails message ∷ without_time_outs rest

-- No call of sendto times out on a socket without a time-out.
unfoldable pub limit_sends : ℕ → Io (Unit {0})
limit_sends zero w = (ok tt, record w { sends = without_time_outs w.sends })
limit_sends (suc timeout) w = (ok tt, w)

pub recv_within-Bounded :
    (timeout n : ℕ) (w : World)
    → timeout ≢ 0
    → length w.recvs ≤ n
    → Bounded 1 n (recv_within timeout w)
unfolding recv_within
recv_within-Bounded zero n w h k = absurd (h refl)
recv_within-Bounded (suc timeout) n w h k = recv-Bounded n w k

pub limit_sends-Bounded :
    (timeout n : ℕ) (w : World) → length w.recvs ≤ n → Bounded 0 n (limit_sends timeout w)
unfolding limit_sends
limit_sends-Bounded zero n w h = omega arith
limit_sends-Bounded (suc timeout) n w h = omega arith

-- A datagram that is there is received with any time-out.
pub recv_within-arrives :
    (timeout : ℕ) (source : Address) (bits : Bytes) (recvs : List Arrival)
    (sent : List (Address × Bytes))
    → 0 < length bits
    → recv_within timeout (quiet (arrives source bits ∷ recvs) sent)
      ≡ (ok (source, bits), quiet recvs sent)
unfolding recv_within
recv_within-arrives zero source bits recvs sent h = recv-arrives source bits recvs sent h
recv_within-arrives (suc timeout) source bits recvs sent h = recv-arrives source bits recvs sent h

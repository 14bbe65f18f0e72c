-- ===== src/Tftp/Session/Silence.antt =====
-- A client that never answers: the block is sent once for each retry, and no more.
use bootpd.Common.{
  ℕ, zero, suc, ◌<◌, ◌≡◌, ◌∙◌, List, [], ◌∷◌, ◌++◌, append-nil, append_assoc, Bytes, codes,
  replicate, Result, ok, throw, stuck, runtime_error, arith,
}
use bootpd.Network.{Address, World}
use bootpd.Network.Laws.{quiet, stop_requested-quiet}
use bootpd.Tftp.Packet.{serialize}
use bootpd.Tftp.Reader.{TftpReader, data_}
use bootpd.Tftp.Session.{test_failed, transfer_loop, after_transfer, transfer, transfer_fuel}
use bootpd.Tftp.Session.Exchange.{exchange-silence, exchange-for_ever}

transfer_loop-silence :
    (timeout fuel retry : ℕ) (r : TftpReader) (client : Address) (bits : Bytes)
    (sent : List (Address × Bytes))
    → retry < fuel
    → serialize (data_ r) ≡ ok bits
    → transfer_loop (suc timeout) fuel retry r client (quiet [] sent)
      ≡ (ok (test_failed 0), quiet [] (sent ++ replicate retry (client, bits)))
unfolding transfer_loop
transfer_loop-silence timeout zero retry r client bits sent h e = absurd (omega arith)
transfer_loop-silence timeout (suc fuel) zero r client bits sent h e =
    rw (stop_requested-quiet [] sent) (rw append-nil)
transfer_loop-silence timeout (suc fuel) (suc retry) r client bits sent h e =
    rw (stop_requested-quiet [] sent) (
      rw (exchange-silence timeout (data_ r) bits client r.number sent e) (
        transfer_loop-silence timeout fuel retry r client bits (sent ++ (client, bits) ∷ [])
          (omega arith) e
        ∙ rw append_assoc))

-- How a transfer ends where the client stays silent: without a time-out its one call of recv never
-- returns.
abbrev pub silent_end : ℕ → Address → Bytes → List (Address × Bytes) → Result (Unit {0}) × World
silent_end zero client bits sent = (stuck, quiet [] (sent ++ (client, bits) ∷ []))
silent_end (suc timeout) client bits sent = (
  throw (runtime_error (codes "Failed to send DATA packet, too many retries.")),
  quiet [] (sent ++ replicate 10 (client, bits)),
)

-- On a network that delivers and a client that stays silent, a transfer over a socket with a time-out
-- sends its current block ten times and then throws that there were too many retries; over one without
-- a time-out it sends the block once and never returns.
pub transfer-silence :
    (timeout : ℕ) (r : TftpReader) (client : Address) (bits : Bytes) (sent : List (Address × Bytes))
    → serialize (data_ r) ≡ ok bits
    → transfer timeout r client (quiet [] sent) ≡ silent_end timeout client bits sent
unfolding transfer after_transfer transfer_loop
transfer-silence zero r client bits sent e =
    rw (stop_requested-quiet [] sent) (rw (exchange-for_ever (data_ r) bits client r.number sent e))
transfer-silence (suc timeout) r client bits sent e = rw (
    transfer_loop-silence timeout (transfer_fuel (quiet [] sent)) 10 r client bits sent
      (omega arith) e)

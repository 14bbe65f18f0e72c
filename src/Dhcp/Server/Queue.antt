-- ===== src/Dhcp/Server/Queue.antt =====
-- dhcp_server_v4: what the receiving thread puts into the queue, and the loop of the other thread.
use bootpd.Common.{
  ℕ, zero, suc, ◌≡◌, refl, ap, ◌∙◌, List, [], ◌∷◌, ◌++◌, append-nil, append_assoc, Bytes, length,
  take, replicate, Bool, true, false, ltb-false, ok, arith,
}
use bootpd.Network.{
  Address, Arrival, arrives, times_out, fails, Delivery, World, stop_requested, recv,
}
use bootpd.Dhcp.Server.{thread_incoming}

-- The datagrams among what the network does: an empty one is an error, which is logged.
abbrev pub datagrams : List Arrival → List (Address × Bytes)
datagrams [] = []
datagrams (arrives source [] ∷ recvs) = datagrams recvs
datagrams (arrives source (b ∷ bits) ∷ recvs) = (source, b ∷ bits) ∷ datagrams recvs
datagrams (times_out ∷ recvs) = datagrams recvs
datagrams (fails message ∷ recvs) = datagrams recvs

take_nil : (n : ℕ) → take {A = Arrival} n [] ≡ []
take_nil zero = refl
take_nil (suc n) = refl

-- A stop is requested after `n` rounds.
abbrev pub stops_after : ℕ → List Bool
stops_after n = replicate n false ++ true ∷ []

-- The world of the receiver.
abbrev pub receiving : List Arrival → List Delivery → ℕ → List (Address × Bytes) → World
receiving recvs sends n sent = record {
  recvs = recvs;
  sends = sends;
  polls = stops_after n;
  sent = sent;
}

-- The receiving thread whose stop is requested after n rounds ends and has pushed the datagrams of the
-- first n calls of recv in their order, each once; errors and time-outs do not end it.
pub thread_incoming-datagrams :
    (n : ℕ) (packets : List (Address × Bytes)) (recvs : List Arrival) (sends : List Delivery)
    (sent : List (Address × Bytes))
    → (w : World) × (thread_incoming (suc n) packets (receiving recvs sends n sent)
        ≡ (ok (packets ++ datagrams (take n recvs)), w))
unfolding thread_incoming stop_requested recv
thread_incoming-datagrams zero packets recvs sends sent =
    (record { recvs = recvs; sends = sends; polls = []; sent = sent }, rw append-nil)
thread_incoming-datagrams (suc n) packets [] sends sent =
    let (w, e) = thread_incoming-datagrams n packets [] sends sent in (w, e ∙ rw (take_nil n))
thread_incoming-datagrams (suc n) packets (arrives source [] ∷ recvs) sends sent =
    thread_incoming-datagrams n packets recvs sends sent
thread_incoming-datagrams (suc n) packets (arrives source (b ∷ bits) ∷ recvs) sends sent =
    let (w, e) =
      thread_incoming-datagrams n (packets ++ (source, b ∷ bits) ∷ []) recvs sends sent in
    (
      w,
      rw (ltb-false (suc (length bits)) 1 (omega arith)) (
          e
          ∙ ap (λ ps. (ok ps, w))
              (append_assoc packets ((source, b ∷ bits) ∷ []) (datagrams (take n recvs)))),
    )
thread_incoming-datagrams (suc n) packets (times_out ∷ recvs) sends sent =
    thread_incoming-datagrams n packets recvs sends sent
thread_incoming-datagrams (suc n) packets (fails message ∷ recvs) sends sent =
    thread_incoming-datagrams n packets recvs sends sent

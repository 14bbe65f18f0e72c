-- ===== src/Tftp/Session/Delivery.antt =====
-- A client that confirms every block: the file arrives whole, in numbered blocks.
use bootpd.Common.{
  ℕ, zero, suc, ◌+◌, ◌*◌, ◌%◌, ◌^◌, ◌≤◌, ◌<◌, ◌≡◌, refl, ap, ◌∙◌, ◌⊎◌, List, [], ◌∷◌, ◌++◌, map,
  append-nil, append_assoc, Bytes, length, take, drop, take-append-drop, All-take, All-drop,
  ltb-false, lt→ltb, ok, arith, length-drop, drop-add, length-append,
}
use bootpd.Network.{Address, Arrival, arrives}
use bootpd.Network.Laws.{quiet, stop_requested-quiet}
use bootpd.Serdes.Writer.Laws.{AllBytes}
use bootpd.Tftp.Packet.{Payload, type_data, type_ack, serialize, make_data, set_data}
use bootpd.Tftp.Packet.Encoding.{encoding}
use bootpd.Tftp.Packet.Write.{serialize-encoding}
use bootpd.Tftp.Reader.{Stream, TftpReader, tftp_reader, data_, next}
use bootpd.Tftp.Reader.Blocks.{Streams, IsAt, tftp_reader-IsAt, last-IsAt, next_block}
use bootpd.Tftp.Session.{left_body, transfer_loop, after_transfer, transfer, transfer_fuel}
use bootpd.Tftp.Session.Exchange.{exchange-ack}

abbrev pub block : Bytes → ℕ → ℕ → Bytes
block contents blksiz k = take blksiz (drop (k * blksiz) contents)

-- The DATA packets from block `k` (counted from 0) on, `m` more behind it. Block numbers start at 1
-- and wrap at 16 bits.
abbrev pub packets : Bytes → ℕ → ℕ → ℕ → List Payload
packets contents blksiz zero k = type_data ((k + 1) % 2 ^ 16) (block contents blksiz k) ∷ []
packets contents blksiz (suc m) k =
    type_data ((k + 1) % 2 ^ 16) (block contents blksiz k) ∷ packets contents blksiz m (k + 1)

abbrev pub acks : Address → ℕ → ℕ → List Arrival
acks client zero k = arrives client (encoding (type_ack ((k + 1) % 2 ^ 16))) ∷ []
acks client (suc m) k =
    arrives client (encoding (type_ack ((k + 1) % 2 ^ 16))) ∷ acks client m (k + 1)

abbrev pub datagrams : Address → List Payload → List (Address × Bytes)
datagrams client = map (λ p. (client, encoding p))

abbrev pub payload : Payload → Bytes
payload (type_data k bytes) = bytes
payload p = []

-- The bytes that the client puts together.
abbrev pub received : List Payload → Bytes
received [] = []
received (p ∷ ps) = payload p ++ received ps

take_all : (xs : Bytes) (n : ℕ) → length xs ≤ n → take n xs ≡ xs
take_all [] zero h = refl
take_all [] (suc n) h = refl
take_all (x ∷ xs) zero h = absurd (omega arith)
take_all (x ∷ xs) (suc n) h = ap (◌∷◌ x) (take_all xs n (omega arith))

received-packets :
    (contents : Bytes) (b m k : ℕ)
    → length contents ≤ (k + m) * b + b
    → received (packets contents b m k) ≡ drop (k * b) contents
received-packets contents b zero k h =
    rw append-nil (take_all (drop (k * b) contents) b (omega (arith, length-drop (k * b) contents)))
received-packets contents b (suc m) k h =
    let e : k * b + b ≡ (k + 1) * b = omega arith in
    rw (received-packets contents b m (k + 1) (omega arith), ← e, ← drop-add (k * b) b contents)
      (take-append-drop b (drop (k * b) contents))

-- What the reader at block `k` sends.
serialize-block :
    (contents : Bytes) (b k : ℕ) (r : TftpReader)
    → AllBytes contents
    → IsAt contents b k r
    → serialize (data_ r) ≡ ok (encoding (type_data ((k + 1) % 2 ^ 16) (block contents b k)))
unfolding data_ make_data set_data
serialize-block contents b k r hc h =
    rw (h.of_number, h.of_buffer)
      (serialize-encoding (type_data ((k + 1) % 2 ^ 16) (block contents b k)) (
        omega arith,
        All-take (λ x. x < 256) b (drop (k * b) contents)
            (All-drop (λ x. x < 256) (k * b) contents hc),
      ))

transfer_loop-delivers :
    (timeout m k fuel retry b : ℕ) (contents : Bytes) (r : TftpReader) (client : Address)
    (rest : List Arrival) (sent : List (Address × Bytes))
    → AllBytes contents
    → IsAt contents b k r
    → m < fuel
    → (k + m) * b ≤ length contents
    → length contents < (k + m) * b + b
    → transfer_loop timeout fuel (suc retry) r client (quiet (acks client m k ++ rest) sent)
      ≡ (ok left_body, quiet rest (sent ++ datagrams client (packets contents b m k)))
unfolding transfer_loop
transfer_loop-delivers timeout m k zero retry b contents r client rest sent hc h hf lo hi =
    absurd (omega arith)
transfer_loop-delivers timeout zero k (suc fuel) retry b contents r client rest sent hc h hf lo hi =
    let n = (k + 1) % 2 ^ 16 in
    rw (stop_requested-quiet (arrives client (encoding (type_ack n)) ∷ rest) sent) (
      rw
        (exchange-ack timeout (data_ r) _ client r.number n rest sent
          (serialize-block contents b k r hc h) (rw (h.of_number)))
        (rw (last-IsAt contents b k r h, lt→ltb (length contents) (k * b + b) (omega arith))))
transfer_loop-delivers timeout (suc m) k (suc fuel) retry b contents r client rest sent hc h hf lo
      hi =
    let n = (k + 1) % 2 ^ 16 in
    let more = ltb-false (length contents) (k * b + b) (omega arith) in
    let e = last-IsAt contents b k r h ∙ more in
    rw
      (stop_requested-quiet
        (arrives client (encoding (type_ack n)) ∷ (acks client m (k + 1) ++ rest)) sent)
      (rw
        (exchange-ack timeout (data_ r) _ client r.number n (acks client m (k + 1) ++ rest) sent
          (serialize-block contents b k r hc h) (rw (h.of_number)))
        (rw e (
          transfer_loop-delivers timeout m (k + 1) fuel 8 b contents (next r) client rest _ hc
            (next_block contents b k r h e) (omega arith) (omega arith) (omega arith)
          ∙ rw append_assoc)))

length-acks : (client : Address) (m k : ℕ) → length (acks client m k) ≡ m + 1
length-acks client zero k = refl
length-acks client (suc m) k = omega (arith, length-acks client m (k + 1))

-- For a file of m whole blocks and a rest that is shorter than a block, whose length and one block
-- more fit 64 bits, opened in binary mode with a positive block size and its own length (or 0, for
-- which its own is taken), and a client that confirms each block in turn on a network that delivers:
-- the transfer returns; it has sent to the client exactly the DATA packets 1 to m + 1, numbered modulo
-- 2^16; and what they carry, put together, is the file.
pub transfer-delivers :
    (timeout : ℕ) (stream : Stream) (contents : Bytes) (file_size b m : ℕ) (client : Address)
    (rest : List Arrival) (sent : List (Address × Bytes))
    → Streams stream contents
    → AllBytes contents
    → (file_size ≡ 0) ⊎ (file_size ≡ length contents)
    → length contents + b < 2 ^ 64
    → 0 < b
    → m * b ≤ length contents
    → length contents < m * b + b
    → (transfer timeout
          (tftp_reader stream (length contents) file_size b)
          client
          (quiet (acks client m 0 ++ rest) sent)
        ≡ (ok tt, quiet rest (sent ++ datagrams client (packets contents b m 0))))
      × (received (packets contents b m 0) ≡ contents)
unfolding transfer after_transfer
transfer-delivers timeout stream contents file_size b m client rest sent hs hc hl fits pos lo hi = (
  rw (
      transfer_loop-delivers timeout m 0 fuel 9 b contents
        (tftp_reader stream (length contents) file_size b) client rest sent hc
        (tftp_reader-IsAt stream contents file_size b hs hl fits pos)
        (omega (arith, length-append (acks client m 0) rest, length-acks client m 0)) (omega arith)
        (omega arith)),
  received-packets contents b m 0 (omega arith) ∙ none_dropped b,
)
  where
    fuel : ℕ
    fuel = transfer_fuel (quiet (acks client m 0 ++ rest) sent)

    none_dropped : (c : ℕ) → drop (0 * c) contents ≡ contents
    none_dropped c = let e : 0 * c ≡ 0 = omega arith in rw e

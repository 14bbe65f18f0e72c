-- ===== src/Tftp/Tests.antt =====
-- The theorems about TFTP at concrete inputs.
use bootpd.Common.{
  ℕ, ◌≡◌, ◌≢◌, refl, ◌⊎◌, inl, [], ◌∷◌, ◌++◌, Bytes, codes, length, take, drop, replicate, true,
  false, ok, throw, runtime_error, Exception, Option, none, some, suc, arith, find, stoull, sym, ap,
  ◌∙◌, ok-injective,
}
use bootpd.Network.{Address, arrives, times_out, World}
use bootpd.Network.Laws.{quiet}
use bootpd.Network.Waiting.{milliseconds}
use bootpd.Serdes.Reader.Total.{no_data}
use bootpd.Tftp.Packet.{
  Payload, DictionaryType, monostate, type_rrq, type_data, type_ack, serialize, tftp_packet,
  serdes_size_hint, make_data, set_data,
}
use bootpd.Tftp.Packet.Encoding.{encoding}
use bootpd.Tftp.Packet.Write.{serdes_size_hint-encoding, serialize-encoding}
use bootpd.Tftp.Packet.Read.{tftp_packet-serialize}
use bootpd.Tftp.Packet.Total.{tftp_packet_total}
use bootpd.Tftp.Reader.{Stream, TftpReader, tftp_reader, data_, next}
use bootpd.Tftp.Reader.Blocks.{Streams}
use bootpd.Tftp.Server.{
  event_packet, event_notify, done, notified, SessionList, update, emplace_session, erase,
  visit_packet, visit_event, Server, start, Reach, here, step, receive, respond, finish, notify,
}
use bootpd.Tftp.Server.Sessions.{count}
use bootpd.Tftp.Server.Safety.{Handled, visit_event-Handled, visit_event-erase}
use bootpd.Tftp.Session.{Files, SocketCalls, exchange, transfer, io_thread_rrq, finished}
use bootpd.Tftp.Session.Exchange.{complaint, exchange_any_source}
use bootpd.Tftp.Session.Ends.{Answering, io_thread_rrq_ends}
use bootpd.Tftp.Session.Timed.{IsTimed}
use bootpd.Tftp.Session.Delivery.{acks, datagrams, packets, received, transfer-delivers}
use bootpd.Tftp.Session.Silence.{silent_end, transfer-silence}

abbrev client : Address
client = record { addr = 0x0a00_0002; port = 2070 }

abbrev stranger : Address
stranger = record { addr = 0x0a00_0003; port = 69 }

-- A file of three bytes.
abbrev three_bytes : Bytes
three_bytes = 10 ∷ 20 ∷ 30 ∷ []

abbrev three_stream : Stream
three_stream offset count = take count (drop offset three_bytes)

three_Streams : Streams three_stream three_bytes
three_Streams offset count = refl

abbrev first_data : Payload
first_data = type_data 1 (10 ∷ 20 ∷ [])

transfer-delivers_example :
    (transfer 1000
        (tftp_reader three_stream 3 0 2)
        client
        (quiet (acks client 1 0 ++ times_out ∷ []) [])
      ≡ (ok tt, quiet (times_out ∷ []) ([] ++ datagrams client (packets three_bytes 2 1 0))))
    × (received (packets three_bytes 2 1 0) ≡ three_bytes)
transfer-delivers_example =
    transfer-delivers 1000 three_stream three_bytes 0 2 1 client (times_out ∷ []) [] three_Streams
      (omega arith, (omega arith, (omega arith, tt))) (inl refl) (omega arith) (omega arith)
      (omega arith) (omega arith)

tftp_packet-serialize_example :
    (serialize first_data ≡ ok (encoding first_data))
    × (tftp_packet (encoding first_data) ≡ ok first_data)
tftp_packet-serialize_example =
    tftp_packet-serialize first_data (omega arith, (omega arith, (omega arith, tt)))

tftp_packet_total_example :
    ((p : Payload) × (tftp_packet (0 ∷ 1 ∷ 97 ∷ []) ≡ ok p))
    ⊎ (tftp_packet (0 ∷ 1 ∷ 97 ∷ []) ≡ no_data)
tftp_packet_total_example = tftp_packet_total (0 ∷ 1 ∷ 97 ∷ [])

serdes_size_hint-encoding_example :
    serdes_size_hint (type_ack 1) ≡ ok (length (encoding (type_ack 1)))
serdes_size_hint-encoding_example = serdes_size_hint-encoding (type_ack 1) not_empty
  where
    not_empty : type_ack 1 ≢ monostate
    not_empty e = cc

-- A directory with one file.
abbrev one_file : Files
one_file = record {
  exists = λ path. ok true;
  is_regular_file = λ path. ok true;
  file_size = λ path. ok 3;
  open_ = λ path binary. three_stream;
  slash = λ base name. base ++ name;
}

abbrev busy : World
busy = record {
  recvs = arrives client (encoding (type_ack 0)) ∷ times_out ∷ [];
  sends = [];
  polls = false ∷ false ∷ true ∷ [];
  sent = [];
}

abbrev working : SocketCalls
working = record { make_udp = ok tt; timeout = λ ms. ok tt }

answering : Answering one_file working
answering = (λ path. tt, λ path. tt, λ path. tt, tt, λ ms. tt)

-- A request for a time-out of two seconds.
abbrev two_seconds : DictionaryType
two_seconds = (codes "timeout", codes "2") ∷ []

two_seconds_found : find (codes "timeout") two_seconds ≡ some (codes "2")
unfolding find bootpd.Common.text_eq
two_seconds_found = refl

two_read : stoull (codes "2") ≡ ok (2, 1)
unfolding stoull bootpd.Common.spaced bootpd.Common.signed bootpd.Common.magnitude
    bootpd.Common.digits
two_read = refl

some_injective : {a b : Bytes} → some a ≡ some b → a ≡ b
some_injective h = cc

two_seconds_IsTimed : IsTimed two_seconds
two_seconds_IsTimed text number there read e =
    let same : text ≡ codes "2" = some_injective (sym there ∙ two_seconds_found) in
    let value : number ≡ (2, 1) = ok-injective (sym read ∙ ap stoull same ∙ two_read) in
    omega (arith, sym (ap (λ n. milliseconds (n.0)) value) ∙ e)

io_thread_rrq_ends_example :
    (logged : Option Exception) × (io_thread_rrq one_file [] working client
        (codes "a")
        (codes "octet")
        two_seconds
        busy).0
      ≡ ok (finished logged)
io_thread_rrq_ends_example =
    io_thread_rrq_ends one_file [] working client (codes "a") (codes "octet") two_seconds busy
      answering two_seconds_IsTimed

abbrev first_block : TftpReader
first_block = tftp_reader three_stream 3 0 2

exchange_any_source_example :
    exchange 1000 first_data client 1 (quiet (arrives stranger (encoding (type_ack 1)) ∷ []) [])
    ≡ (ok tt, quiet [] (([] ++ (client, encoding first_data) ∷ []) ++ complaint client stranger))
exchange_any_source_example =
    exchange_any_source 1000 first_data (encoding first_data) client stranger 1 1 [] []
      (serialize-encoding first_data (omega arith, (omega arith, (omega arith, tt)))) refl

first_block_data : data_ first_block ≡ first_data
unfolding data_ tftp_reader next make_data set_data
first_block_data = refl

first_data-serialize : serialize (data_ first_block) ≡ ok (encoding first_data)
first_data-serialize =
    rw first_block_data
      (serialize-encoding first_data (omega arith, (omega arith, (omega arith, tt))))

transfer-silence_example :
    transfer 1000 first_block client (quiet [] []) ≡ silent_end 1000 client (encoding first_data) []
transfer-silence_example =
    transfer-silence 1000 first_block client (encoding first_data) [] first_data-serialize

-- A server that has started session 7 for a read request, which has ended and notified it.
abbrev request : Payload
request = type_rrq (97 ∷ []) (98 ∷ []) []

abbrev request_bits : Bytes
request_bits = encoding request

request_read : tftp_packet request_bits ≡ ok request
request_read =
    (tftp_packet-serialize request (
      (((omega arith, tt)), (not_zero 96, tt)),
      (((omega arith, tt)), (not_zero 97, tt)),
      (tt, tt),
    )).1
  where
    not_zero : (n : ℕ) → suc n ≢ 0
    not_zero n = omega arith

abbrev no_sessions : SessionList
no_sessions i = none

request-visit_event :
    visit_event 7 (event_packet client request_bits) no_sessions (quiet [] [])
    ≡ (ok (emplace_session 7 no_sessions), quiet [] [])
unfolding visit_event visit_packet
request-visit_event = rw request_read

abbrev one_session : Server
one_session = record { events = []; sessions = emplace_session 7 no_sessions }

one_session-Reach : Reach start one_session
one_session-Reach = step (step here (receive start client request_bits)) (
    respond [] no_sessions (event_packet client request_bits) 7 (quiet [] []) (quiet [] [])
      (ok (emplace_session 7 no_sessions)) request-visit_event)

abbrev ended : Server
ended = record {
  events = event_notify 7 ∷ [];
  sessions = update 7 (some notified) (update 7 (some done) (emplace_session 7 no_sessions));
}

ended-Reach : Reach start ended
ended-Reach = step (step one_session-Reach (finish one_session 7 refl)) (
    notify (record { events = []; sessions = update 7 (some done) (emplace_session 7 no_sessions) })
      7 refl)

visit_event-Handled_example : Handled (visit_event 8 (event_notify 7) ended.sessions (quiet [] []))
visit_event-Handled_example =
    visit_event-Handled ended (event_notify 7) [] 8 (quiet [] []) ended-Reach refl

visit_event-erase_example :
    (ended.sessions 7 ≡ some notified)
    × (visit_event 8 (event_notify 7) ended.sessions (quiet [] [])
        ≡ (ok (erase 7 ended.sessions), quiet [] []))
    × (count 7 [] ≡ 0)
visit_event-erase_example = visit_event-erase ended 7 [] 8 (quiet [] []) ended-Reach refl

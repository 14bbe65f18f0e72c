-- ===== src/Tftp/Session.antt =====
-- bootpd/tftp_session_v4.cpp: one transfer. The file system and the clock are outside: the first is
-- the record `Files`, and a time-out is an event of the network.
pub mod Exchange
pub mod Timed
pub mod Rounds
pub mod Ends
pub mod Delivery
pub mod Silence
use bootpd.Common.{
  ℕ, zero, suc, ◌+◌, ◌-◌, ◌*◌, ◌%◌, ◌^◌, [], ◌∷◌, ◌++◌, Bytes, codes, Bool, true, false, ◌&&◌, ◌||◌,
  not, ltb, ◌==◌, if◌then◌else◌, Option, none, some, Result, ok, throw, terminated, fault, stuck,
  Exception, runtime_error, socket_timed_out, logic_error, out_of_range, invalid_argument,
  bad_lexical_cast, stop_requested as stopped, Dictionary, find, emplace, text_eq, to_decimal,
  stoull, length, ◌>>=◌ as bind_result,
}
use bootpd.Network.{
  Address, same_address, World, Io, and_then, ◌>>=◌, ◌>>◌, lift, stop_requested, send,
}
use bootpd.Network.Waiting.{milliseconds, recv_within, limit_sends}
use bootpd.Tftp.Packet.{
  Payload, type_error, type_ack, DictionaryType, to_string, tftp_packet, serialize, make_error,
  make_error_code, make_oack, undefined, file_not_found, access_violation, illegal_operation,
  unknown_transfer_id,
}
use bootpd.Tftp.Reader.{Stream, TftpReader, tftp_reader, data_, next, last}

abbrev pub max_retries : ℕ
max_retries = 10

-- options_type.
pub record OptionsType : Type 0 where
  pub blksize : ℕ
  pub timeout : ℕ
  pub tsize : ℕ

-- std::filesystem and std::ifstream, as far as the session uses them; the first three calls can throw
-- a filesystem_error. `slash` is operator / on paths,
-- and `open_` opens a file in binary mode or in text mode.
pub record Files : Type 0 where
  pub exists : Bytes → Result Bool
  pub is_regular_file : Bytes → Result Bool
  pub file_size : Bytes → Result ℕ
  pub open_ : Bytes → Bool → Stream
  pub slash : Bytes → Bytes → Bytes

-- The handler `catch (error_socket_timed_out)` behind a body.
abbrev pub caught {ℓ} : {A : Type ℓ} → Result A × World → Result (Option A) × World
caught (ok a, w) = (ok (some a), w)
caught (throw (socket_timed_out message), w) = (ok none, w)
caught (throw (runtime_error message), w) = (throw (runtime_error message), w)
caught (throw (logic_error message), w) = (throw (logic_error message), w)
caught (throw (out_of_range message), w) = (throw (out_of_range message), w)
caught (throw (invalid_argument message), w) = (throw (invalid_argument message), w)
caught (throw (bad_lexical_cast message), w) = (throw (bad_lexical_cast message), w)
caught (throw (stopped message), w) = (throw (stopped message), w)
caught (terminated, w) = (terminated, w)
caught (fault, w) = (fault, w)
caught (stuck, w) = (stuck, w)

abbrev pub catch_timed_out {ℓ} : {A : Type ℓ} → Io A → Io (Option A)
catch_timed_out m w = caught (m w)

-- The text that validate_source formats is not used, and is left out.
unfoldable pub validate_source : Address → Address → Io (Unit {0})
validate_source remote_client from_client =
    if same_address remote_client from_client
    then lift (ok tt)
    else send (serialize (make_error unknown_transfer_id (codes "Invalid source address.")))
        from_client

-- An error packet, and then the exception.
abbrev pub refuse : ℕ → Address → Bytes → Io (Unit {0})
refuse error_code remote_client message = do
  send (serialize (make_error_code error_code)) remote_client
  lift (throw (runtime_error message))

unfoldable pub validate_ack : Payload → Address → ℕ → Io (Unit {0})
validate_ack (type_error error_code error_string) remote_client number = lift (
    throw (
      runtime_error
        (codes "Connection terminated : " ++ to_string (type_error error_code error_string))))
validate_ack (type_ack block_id) remote_client number =
    if block_id == number % 2 ^ 16
    then lift (ok tt)
    else refuse illegal_operation remote_client (
        codes "Expected ACK to block: "
        ++ to_decimal (number % 2 ^ 16)
        ++ codes ", received : "
        ++ to_decimal block_id)
validate_ack packet remote_client number =
    refuse illegal_operation remote_client
      (codes "Expected ACK packet, received : " ++ to_string packet)

unfoldable pub validate_request : Bytes → Address → Io (Unit {0})
validate_request xfermode remote_client =
    if not (text_eq xfermode (codes "octet")) && not (text_eq xfermode (codes "netascii"))
    then refuse illegal_operation remote_client (codes "Unsupported transfer mode: " ++ xfermode)
    else lift (ok tt)

unfoldable pub validate_filepath : Files → Bytes → Address → Io (Unit {0})
validate_filepath files file_path remote_client = do
  there ← lift (files.exists file_path)
  if not there
      then refuse file_not_found remote_client (codes "File not found: " ++ file_path)
      else (do
        regular ← lift (files.is_regular_file file_path)
        if not regular
            then refuse file_not_found remote_client (codes "Not a file: " ++ file_path)
            else lift (ok tt))

-- One exchange, the part that the two loops share: send, receive, check the source, parse, check the
-- acknowledgement. `timeout` is the time-out of the socket, in milliseconds.
unfoldable pub exchange : ℕ → Payload → Address → ℕ → Io (Unit {0})
exchange timeout packet remote_client number = do
  send (serialize packet) remote_client
  (from_client, packet_bits) ← recv_within timeout
  validate_source remote_client from_client
  packet_v ← lift (tftp_packet packet_bits)
  validate_ack packet_v remote_client number

-- How a retry loop ends: by the return or the break in its body, or by its test, with the counter.
pub data Ending : Type 0 where
  left_body : Ending
  test_failed : ℕ → Ending

-- for (; !stop_requested() && retry_counter > 0; --retry_counter) of validate_options, where the socket
-- has the time-out of one second that io_thread has set.
unfoldable pub oack_loop : ℕ → DictionaryType → Address → Io Ending
oack_loop zero oack remote_client = do stop ← stop_requested; lift (ok (test_failed 0))
oack_loop (suc retry_counter) oack remote_client = do
  stop ← stop_requested
  if stop then lift (ok (test_failed (suc retry_counter))) else (do
    done ← catch_timed_out (exchange (milliseconds 1) (make_oack oack) remote_client 0)
    elim done [ some _ ↦ lift (ok left_body) | none ↦ oack_loop retry_counter oack remote_client ])

unfoldable pub after_oack : Address → Ending → Io (Unit {0})
after_oack remote_client left_body = lift (ok tt)
after_oack remote_client (test_failed zero) = do
  send (serialize (make_error undefined (codes "TFTP operation timed out."))) remote_client
  lift (throw (runtime_error (codes "Failed to send OACK packet, too many retries.")))
after_oack remote_client (test_failed (suc retry_counter)) = lift (ok tt)

-- A numeric option: its value, and the OACK with its entry.
abbrev pub option_value : Bytes → ℕ → DictionaryType → Option Bytes → Result (ℕ × DictionaryType)
option_value name default oack none = ok (default, oack)
option_value name default oack (some text) =
    bind_result (stoull text) (λ number. ok (number.0, emplace name text oack))

abbrev pub numeric_option :
    Bytes → DictionaryType → ℕ → DictionaryType → Result (ℕ × DictionaryType)
numeric_option name dict default oack = option_value name default oack (find name dict)

unfoldable pub size_option : DictionaryType → ℕ → DictionaryType → DictionaryType
size_option dict tsize oack = elim (find (codes "tsize") dict) [
  | none ↦ oack
  | some text ↦ emplace (codes "tsize") (to_decimal tsize) oack
]

unfoldable pub validate_options : OptionsType → DictionaryType → Address → Io OptionsType
validate_options options_v [] remote_client = lift (ok options_v)
validate_options options_v (entry ∷ rest) remote_client = do
  (blksize, oack₁) ← lift (numeric_option (codes "blksize") (entry ∷ rest) options_v.blksize [])
  (timeout, oack₂) ← lift (numeric_option (codes "timeout") (entry ∷ rest) options_v.timeout oack₁)
  ending ← oack_loop max_retries (size_option (entry ∷ rest) options_v.tsize oack₂) remote_client
  after_oack remote_client ending
  lift (ok (record { blksize = blksize; timeout = timeout; tsize = options_v.tsize }))

-- The loop that sends the file. A confirmed block resets the counter, which the loop then takes down
-- by one. `fuel` bounds the rounds.
unfoldable pub transfer_loop : ℕ → ℕ → ℕ → TftpReader → Address → Io Ending
transfer_loop timeout zero retry_counter reader remote_client = lift stuck
transfer_loop timeout (suc fuel) zero reader remote_client = do
  stop ← stop_requested
  lift (ok (test_failed 0))
transfer_loop timeout (suc fuel) (suc retry_counter) reader remote_client = do
  stop ← stop_requested
  if stop then lift (ok (test_failed (suc retry_counter))) else (do
    done ← catch_timed_out (exchange timeout (data_ reader) remote_client reader.number)
    elim done [
      | some _ ↦
          (if last reader
            then lift (ok left_body)
            else transfer_loop timeout fuel (max_retries - 1) (next reader) remote_client)
      | none ↦ transfer_loop timeout fuel retry_counter reader remote_client
    ])

unfoldable pub after_transfer : Ending → Io (Unit {0})
after_transfer left_body = lift (ok tt)
after_transfer (test_failed zero) =
    lift (throw (runtime_error (codes "Failed to send DATA packet, too many retries.")))
after_transfer (test_failed (suc retry_counter)) = lift (ok tt)

-- Enough rounds for any script: each round takes an arrival or a retry.
abbrev pub transfer_fuel : World → ℕ
transfer_fuel w = suc (max_retries + max_retries * length w.recvs)

unfoldable pub transfer : ℕ → TftpReader → Address → Io (Unit {0})
transfer timeout reader remote_client w =
    and_then (transfer_loop timeout (transfer_fuel w) max_retries reader remote_client w)
      after_transfer

-- What the calls on the socket do: make_udp, and timeout with its milliseconds, which sets two options.
pub record SocketCalls : Type 0 where
  pub make_udp : Result (Unit {0})
  pub timeout : ℕ → Result (Unit {0})

-- socket_udp::timeout of a number of seconds.
abbrev pub set_timeout : SocketCalls → ℕ → Io (Unit {0})
set_timeout socket seconds = do
  lift (socket.timeout (milliseconds seconds))
  limit_sends (milliseconds seconds)

-- The body of the try block of io_thread for a read request.
unfoldable pub read_request_body :
    Files → Bytes → SocketCalls → Address → Bytes → Bytes → DictionaryType → Io (Unit {0})
read_request_body files base_dir socket remote_client filename xfermode options = do
  lift socket.make_udp
  set_timeout socket 1
  validate_request xfermode remote_client
  let file_path = files.slash base_dir filename
  validate_filepath files file_path remote_client
  size ← lift (files.file_size file_path)
  options_v ←
      validate_options (record { blksize = 512; timeout = 1; tsize = size }) options remote_client
  set_timeout socket options_v.timeout
  let binary = text_eq xfermode (codes "octet")
  transfer (milliseconds options_v.timeout)
      (tftp_reader (files.open_ file_path binary) size options_v.tsize options_v.blksize)
      remote_client

-- m_done, whether session_notify was called, and the exception that was logged.
pub record Finished : Type 0 where
  pub done : Bool
  pub notified : Bool
  pub logged : Option Exception

abbrev pub finished : Option Exception → Finished
finished e = record { done = true; notified = true; logged = e }

-- catch (std::exception const&) and catch (...), and the two calls behind them.
abbrev pub concluded : Result (Unit {0}) × World → Result Finished × World
concluded (ok _, w) = (ok (finished none), w)
concluded (throw e, w) = (ok (finished (some e)), w)
concluded (terminated, w) = (terminated, w)
concluded (fault, w) = (fault, w)
concluded (stuck, w) = (stuck, w)

unfoldable pub io_thread_rrq :
    Files → Bytes → SocketCalls → Address → Bytes → Bytes → DictionaryType → Io Finished
io_thread_rrq files base_dir socket remote_client filename xfermode options w =
    concluded (read_request_body files base_dir socket remote_client filename xfermode options w)

-- An exception that leaves the function of a std::jthread ends the program.
abbrev pub uncaught : Result Finished × World → Result Finished × World
uncaught (throw e, w) = (terminated, w)
uncaught (ok f, w) = (ok f, w)
uncaught (terminated, w) = (terminated, w)
uncaught (fault, w) = (fault, w)
uncaught (stuck, w) = (stuck, w)

-- io_thread for a write request has no try block.
unfoldable pub io_thread_wrq : Result (Unit {0}) → Address → Io Finished
io_thread_wrq bound remote_client w = uncaught (
    (do
      lift bound
      send (serialize (make_error access_violation (codes "Not upload implemented."))) remote_client
      lift (ok (finished none)))
      w)

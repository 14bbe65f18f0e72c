-- ===== src/Tftp/Session/Ends.antt =====
-- Every session over a socket with a time-out ends: the thread of a read request returns, sets m_done
-- and notifies the server.
use bootpd.Common.{
  ℕ, ◌+◌, ◌≤◌, ◌≡◌, refl, ◌++◌, Bytes, codes, not, length, Option, none, some, Bool, Result, ok,
  throw, terminated, fault, stuck, Exception, Calm, arith, if◌then◌else◌,
}
use bootpd.Network.{Address, World, Io, and_then, ◌>>=◌, ◌>>◌, lift}
use bootpd.Network.Waiting.{milliseconds, limit_sends-Bounded}
use bootpd.Network.Laws.{Bounded, Bounded-bind, Bounded-if, Bounded-lift}
use bootpd.Tftp.Packet.{DictionaryType}
use bootpd.Tftp.Reader.{tftp_reader}
use bootpd.Tftp.Session.Timed.{Returns, IsLimit, IsTimed, validate_options-Limit}
use bootpd.Tftp.Session.{
  OptionsType, Files, SocketCalls, set_timeout, refuse, validate_request, validate_filepath,
  validate_options, transfer, read_request_body, finished, concluded, io_thread_rrq,
}
use bootpd.Tftp.Session.Rounds.{
  refuse-Bounded, one_second, transfer-Bounded, validate_options-Bounded, validate_request-Bounded,
}

-- The calls of the file system and those that set the socket up return or throw.
abbrev pub Answering : Files → SocketCalls → Type 0
Answering files socket =
    ((path : Bytes) → Calm (files.exists path))
    × ((path : Bytes) → Calm (files.is_regular_file path))
    × ((path : Bytes) → Calm (files.file_size path))
    × Calm socket.make_udp
    × ((timeout : ℕ) → Calm (socket.timeout timeout))

validate_filepath-Bounded :
    (files : Files) (socket : SocketCalls) (path : Bytes) (client : Address) (n : ℕ) (w : World)
    → Answering files socket
    → length w.recvs + 0 ≤ n
    → Bounded 0 n (validate_filepath files path client w)
unfolding validate_filepath
validate_filepath-Bounded files socket path client n w (hx, hr, hs, hm, ht) h =
    Bounded-bind 0 0 n (lift (files.exists path) w) _
      (Bounded-lift 0 n (files.exists path) w (hx path) h)
      λ there w₁ h₁.
        Bounded-if 0 n (not there) (refuse 1 client missing) kind w₁
          (refuse-Bounded 1 client missing 0 n w₁ h₁)
          (Bounded-bind 0 0 n (lift (files.is_regular_file path) w₁) _
            (Bounded-lift 0 n (files.is_regular_file path) w₁ (hr path) h₁)
            λ regular w₂ h₂.
              Bounded-if 0 n (not regular) (refuse 1 client other) (lift (ok tt)) w₂
                (refuse-Bounded 1 client other 0 n w₂ h₂) h₂)
  where
    missing : Bytes
    missing = codes "File not found: " ++ path

    other : Bytes
    other = codes "Not a file: " ++ path

    kind : Io (Unit {0})
    kind = do
      regular ← lift (files.is_regular_file path)
      if not regular then refuse 1 client other else lift (ok tt)

set_timeout-Bounded :
    (files : Files) (socket : SocketCalls) (seconds n : ℕ) (w : World)
    → Answering files socket
    → length w.recvs + 0 ≤ n
    → Bounded 0 n (set_timeout socket seconds w)
set_timeout-Bounded files socket seconds n w (hx, hr, hs, hm, ht) h =
    Bounded-bind 0 0 n (lift (socket.timeout (milliseconds seconds)) w) _
      (Bounded-lift 0 n (socket.timeout (milliseconds seconds)) w (ht (milliseconds seconds)) h)
      λ _ w₁ h₁. limit_sends-Bounded (milliseconds seconds) n w₁ (omega arith)

-- A part that returns only values with a property.
Bounded-with {ℓ κ} :
    {A : Type ℓ} {B : Type κ} (P : A → Type 0) (n : ℕ) (r : Result A × World) (f : A → Io B)
    → Bounded 0 n r
    → Returns P r
    → ((a : A) (w : World) → P a → length w.recvs + 0 ≤ n → Bounded 0 n (f a w))
    → Bounded 0 n (and_then r f)
Bounded-with P n (ok a, w) f h p g = g a w p h
Bounded-with P n (throw e, w) f h p g = h
Bounded-with P n (terminated, w) f h p g = h
Bounded-with P n (fault, w) f h p g = h
Bounded-with P n (stuck, w) f h p g = h

-- What follows the checks on the request and on the path.
sending-Bounded :
    (files : Files) (socket : SocketCalls) (path : Bytes) (client : Address) (binary : Bool)
    (options : DictionaryType) (size n : ℕ) (w : World)
    → Answering files socket
    → IsTimed options
    → length w.recvs + 0 ≤ n
    → Bounded 0 n (
        (do
          options_v ←
              validate_options (record { blksize = 512; timeout = 1; tsize = size }) options client
          set_timeout socket options_v.timeout
          transfer
              (milliseconds options_v.timeout)
              (tftp_reader (files.open_ path binary) size options_v.tsize options_v.blksize)
              client)
          w)
sending-Bounded files socket path client binary options size n w ha ht h =
    let start : OptionsType = record { blksize = 512; timeout = 1; tsize = size } in
    Bounded-with (λ o. IsLimit o.timeout) n (validate_options start options client w) _
      (validate_options-Bounded start options client n w h)
      (validate_options-Limit start options client w one_second ht)
      λ o w₁ limit h₁.
        Bounded-bind 0 0 n (set_timeout socket o.timeout w₁) _
          (set_timeout-Bounded files socket o.timeout n w₁ ha h₁)
          λ _ w₂ h₂. transfer-Bounded (milliseconds o.timeout) _ client n w₂ limit h₂

read_request_body-Bounded :
    (files : Files) (base_dir : Bytes) (socket : SocketCalls) (client : Address)
    (filename mode : Bytes) (options : DictionaryType) (w : World)
    → Answering files socket
    → IsTimed options
    → Bounded 0
        (length w.recvs)
        (read_request_body files base_dir socket client filename mode options w)
unfolding read_request_body
read_request_body-Bounded files base_dir socket client filename mode options w ha ht =
    let (hx, hr, hs, hm, _) = ha in
    Bounded-bind 0 0 n (lift socket.make_udp w) _
      (Bounded-lift 0 n socket.make_udp w hm (omega arith))
      λ _ w₁ h₁.
        Bounded-bind 0 0 n (set_timeout socket 1 w₁) _
          (set_timeout-Bounded files socket 1 n w₁ ha h₁)
          λ _ w₂ h₂.
            Bounded-bind 0 0 n (validate_request mode client w₂) _
              (validate_request-Bounded mode client n w₂ h₂)
              λ _ w₃ h₃.
                Bounded-bind 0 0 n (validate_filepath files path client w₃) _
                  (validate_filepath-Bounded files socket path client n w₃ ha h₃)
                  λ _ w₄ h₄.
                    Bounded-bind 0 0 n (lift (files.file_size path) w₄) _
                      (Bounded-lift 0 n (files.file_size path) w₄ (hs path) h₄)
                      λ size w₅ h₅.
                        sending-Bounded files socket path client _ options size n w₅ ha ht h₅
  where
    n : ℕ
    n = length w.recvs

    path : Bytes
    path = files.slash base_dir filename

-- Where the calls of the file system and those that set the socket up return or throw, and the option
-- `timeout` of the request, if there is one, does not come to 0 milliseconds in 32 bits, the thread of
-- a read request ends on every script of arrivals, deliveries and stops: it returns with m_done set
-- and the server notified, also where it logged an exception.
pub io_thread_rrq_ends :
    (files : Files) (base_dir : Bytes) (socket : SocketCalls) (client : Address)
    (filename mode : Bytes) (options : DictionaryType) (w : World)
    → Answering files socket
    → IsTimed options
    → (logged : Option Exception) × ((io_thread_rrq files base_dir socket client filename mode
          options w).0
        ≡ ok (finished logged))
unfolding io_thread_rrq
io_thread_rrq_ends files base_dir socket client filename mode options w ha ht =
    outcome (read_request_body files base_dir socket client filename mode options w)
      (read_request_body-Bounded files base_dir socket client filename mode options w ha ht)
  where
    outcome :
        (r : Result (Unit {0}) × World)
        → Bounded 0 (length w.recvs) r
        → (logged : Option Exception) × ((concluded r).0 ≡ ok (finished logged))
    outcome (ok _, v) h = (none, refl)
    outcome (throw e, v) h = (some e, refl)
    outcome (terminated, v) h = absurd h
    outcome (fault, v) h = absurd h
    outcome (stuck, v) h = absurd h

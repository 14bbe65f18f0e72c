-- ===== src/Tftp/Session/Rounds.antt =====
-- The parts of a session return or throw, and leave no more arrivals than there were: an exchange that
-- returns has taken one.
use bootpd.Common.{
  ℕ, zero, suc, ◌+◌, ◌*◌, ◌%◌, ◌^◌, ◌≤◌, ◌<◌, ◌≢◌, [], ◌∷◌, ◌++◌, Bytes, codes, not, ◌&&◌, length,
  ◌==◌, inl, inr, Option, none, some, Result, ok, throw, terminated, fault, stuck, Calm, Calm-bind,
  runtime_error, socket_timed_out, logic_error, out_of_range, invalid_argument, bad_lexical_cast,
  stop_requested as stopped, find, stoull, text_eq, arith, stoull-Calm,
}
use bootpd.Network.{Address, same_address, World, Io, and_then, stop_requested, send, lift}
use bootpd.Network.Waiting.{milliseconds, recv_within, recv_within-Bounded}
use bootpd.Network.Laws.{
  Bounded, Bounded-bind, Bounded-if, Bounded-lift, stop_requested-Bounded, send-Bounded,
}
use bootpd.Tftp.Packet.{
  Payload, monostate, type_rrq, type_wrq, type_data, type_ack, type_error, type_oack,
  DictionaryType, tftp_packet, serialize, make_error, make_error_code, make_oack, make_data,
  set_error, set_error_code, set_oack, set_data,
}
use bootpd.Tftp.Packet.Write.{serialize-Calm}
use bootpd.Tftp.Packet.Total.{tftp_packet_total}
use bootpd.Tftp.Reader.{TftpReader, data_, next, last}
use bootpd.Tftp.Session.{
  OptionsType, caught, validate_source, refuse, validate_ack, validate_request, exchange, Ending,
  left_body, test_failed, oack_loop, after_oack, option_value, numeric_option, size_option,
  validate_options, transfer_loop, after_transfer, transfer_fuel, transfer, max_retries,
}

-- The packets that a session sends are never empty.
make_error-Calm : (c : ℕ) (t : Bytes) → Calm (serialize (make_error c t))
unfolding make_error set_error
make_error-Calm c t = serialize-Calm (type_error c t) (λ e. cc)

make_error_code-Calm : (c : ℕ) → Calm (serialize (make_error_code c))
unfolding make_error_code set_error_code set_error
make_error_code-Calm c = serialize-Calm (type_error c _) (λ e. cc)

make_oack-ne : (o : DictionaryType) → make_oack o ≢ monostate
unfolding make_oack set_oack
make_oack-ne o e = cc

data_-ne : (r : TftpReader) → data_ r ≢ monostate
unfolding data_ make_data set_data
data_-ne r e = cc

tftp_packet-Calm : (bits : Bytes) → Calm (tftp_packet bits)
tftp_packet-Calm bits = elim (tftp_packet_total bits) [ inl (p, e) ↦ rw e tt | inr e ↦ rw e tt ]

validate_source-Bounded :
    (client from : Address) (d n : ℕ) (w : World)
    → length w.recvs + d ≤ n
    → Bounded d n (validate_source client from w)
unfolding validate_source
validate_source-Bounded client from d n w h =
    Bounded-if d n (same_address client from) _ _ w h
      (send-Bounded _ from d n w (make_error-Calm 5 (codes "Invalid source address.")) h)

pub refuse-Bounded :
    (c : ℕ) (client : Address) (t : Bytes) (d n : ℕ) (w : World)
    → length w.recvs + d ≤ n
    → Bounded d n (refuse c client t w)
refuse-Bounded c client t d n w h =
    Bounded-bind d d n (send (serialize (make_error_code c)) client w) _
      (send-Bounded _ client d n w (make_error_code-Calm c) h) λ _ w' h'. omega arith

validate_ack-Bounded :
    (p : Payload) (client : Address) (number d n : ℕ) (w : World)
    → length w.recvs + d ≤ n
    → Bounded d n (validate_ack p client number w)
unfolding validate_ack
validate_ack-Bounded (type_error c t) client number d n w h = omega arith
validate_ack-Bounded (type_ack b) client number d n w h =
    Bounded-if d n (b == number % 2 ^ 16) _ _ w h (refuse-Bounded 4 client _ d n w h)
validate_ack-Bounded monostate client number d n w h = refuse-Bounded 4 client _ d n w h
validate_ack-Bounded (type_rrq f x o) client number d n w h = refuse-Bounded 4 client _ d n w h
validate_ack-Bounded (type_wrq f x o) client number d n w h = refuse-Bounded 4 client _ d n w h
validate_ack-Bounded (type_data b bs) client number d n w h = refuse-Bounded 4 client _ d n w h
validate_ack-Bounded (type_oack o) client number d n w h = refuse-Bounded 4 client _ d n w h

-- An exchange that returns has taken an arrival.
exchange-Bounded :
    (timeout : ℕ) (p : Payload) (client : Address) (number n : ℕ) (w : World)
    → timeout ≢ 0
    → p ≢ monostate
    → length w.recvs ≤ n
    → Bounded 1 n (exchange timeout p client number w)
unfolding exchange
exchange-Bounded timeout p client number n w ht hp h =
    Bounded-bind 0 1 n (send (serialize p) client w) _
      (send-Bounded _ client 0 n w (serialize-Calm p hp) (omega arith))
      λ _ w₁ h₁.
        Bounded-bind 1 1 n (recv_within timeout w₁) _
          (recv_within-Bounded timeout n w₁ ht (omega arith))
          λ packet w₂ h₂.
            Bounded-bind 1 1 n (validate_source client packet.0 w₂) _
              (validate_source-Bounded client packet.0 1 n w₂ h₂)
              λ _ w₃ h₃.
                Bounded-bind 1 1 n (lift (tftp_packet packet.1) w₃) _
                  (Bounded-lift 1 n (tftp_packet packet.1) w₃ (tftp_packet-Calm packet.1) h₃)
                  λ packet_v w₄ h₄. validate_ack-Bounded packet_v client number 1 n w₄ h₄

-- A handler for time-outs: the continuation runs behind a success, or behind a time-out.
Bounded-catch {ℓ κ} :
    {A : Type ℓ} {B : Type κ} (d e n : ℕ) (r : Result A × World) (f : Option A → Io B)
    → Bounded d n r
    → ((a : A) (w : World) → length w.recvs + d ≤ n → Bounded e n (f (some a) w))
    → ((w : World) → length w.recvs ≤ n → Bounded e n (f none w))
    → Bounded e n (and_then (caught r) f)
Bounded-catch d e n (ok a, w) f h g k = g a w h
Bounded-catch d e n (throw (socket_timed_out m), w) f h g k = k w h
Bounded-catch d e n (throw (runtime_error m), w) f h g k = h
Bounded-catch d e n (throw (logic_error m), w) f h g k = h
Bounded-catch d e n (throw (out_of_range m), w) f h g k = h
Bounded-catch d e n (throw (invalid_argument m), w) f h g k = h
Bounded-catch d e n (throw (bad_lexical_cast m), w) f h g k = h
Bounded-catch d e n (throw (stopped m), w) f h g k = h
Bounded-catch d e n (terminated, w) f h g k = h
Bounded-catch d e n (fault, w) f h g k = h
Bounded-catch d e n (stuck, w) f h g k = h

pub one_second : milliseconds 1 ≢ 0
one_second e = omega (arith, e)

oack_loop-Bounded :
    (retry : ℕ) (o : DictionaryType) (client : Address) (n : ℕ) (w : World)
    → length w.recvs + 0 ≤ n
    → Bounded 0 n (oack_loop retry o client w)
unfolding oack_loop
oack_loop-Bounded zero o client n w h =
    Bounded-bind 0 0 n (stop_requested w) _ (stop_requested-Bounded 0 n w h) λ b w₁ h₁. h₁
oack_loop-Bounded (suc retry) o client n w h =
    Bounded-bind 0 0 n (stop_requested w) _ (stop_requested-Bounded 0 n w h) λ b w₁ h₁.
      Bounded-if 0 n b _ _ w₁ h₁ (
        Bounded-catch 1 0 n (exchange (milliseconds 1) (make_oack o) client 0 w₁) _
          (exchange-Bounded (milliseconds 1) (make_oack o) client 0 n w₁ one_second (make_oack-ne o)
            (omega arith))
          (λ _ w₂ h₂. Bounded-lift 0 n (ok left_body) w₂ tt (omega arith))
          (λ w₂ h₂. oack_loop-Bounded retry o client n w₂ (omega arith)))

-- The fuel: a confirmed block takes an arrival and gives back at most nine retries.
transfer_loop-Bounded :
    (timeout fuel retry : ℕ) (r : TftpReader) (client : Address) (n : ℕ) (w : World)
    → timeout ≢ 0
    → retry + 10 * length w.recvs < fuel
    → length w.recvs + 0 ≤ n
    → Bounded 0 n (transfer_loop timeout fuel retry r client w)
unfolding transfer_loop
transfer_loop-Bounded timeout zero retry r client n w ht hf h = absurd (omega arith)
transfer_loop-Bounded timeout (suc fuel) zero r client n w ht hf h =
    Bounded-bind 0 0 n (stop_requested w) _ (stop_requested-Bounded 0 n w h) λ b w₁ h₁. h₁
transfer_loop-Bounded timeout (suc fuel) (suc retry) r client n w ht hf h =
    widen n _
      (Bounded-bind 0 0 k (stop_requested w) _ (stop_requested-Bounded 0 k w (omega arith))
        λ b w₁ h₁. Bounded-if 0 k b _ _ w₁ h₁ (
          Bounded-catch 1 0 k (exchange timeout (data_ r) client r.number w₁) _
            (exchange-Bounded timeout (data_ r) client r.number k w₁ ht (data_-ne r) (omega arith))
            (λ _ w₂ h₂. Bounded-if 0 k (last r) _ _ w₂ (omega arith) (
              transfer_loop-Bounded timeout fuel 9 (next r) client k w₂ ht (omega arith)
                (omega arith)))
            (λ w₂ h₂.
              transfer_loop-Bounded timeout fuel retry r client k w₂ ht (omega arith)
                (omega arith))))
      (omega arith)
  where
    k : ℕ
    k = length w.recvs

    widen : (m : ℕ) (x : Result Ending × World) → Bounded 0 k x → k ≤ m → Bounded 0 m x
    widen m (ok a, v) b le = omega arith
    widen m (throw e, v) b le = omega arith
    widen m (terminated, v) b le = b
    widen m (fault, v) b le = b
    widen m (stuck, v) b le = b

pub transfer-Bounded :
    (timeout : ℕ) (r : TftpReader) (client : Address) (n : ℕ) (w : World)
    → timeout ≢ 0
    → length w.recvs + 0 ≤ n
    → Bounded 0 n (transfer timeout r client w)
unfolding transfer after_transfer
transfer-Bounded timeout r client n w ht h =
    Bounded-bind 0 0 n (transfer_loop timeout (transfer_fuel w) max_retries r client w)
      after_transfer
      (transfer_loop-Bounded timeout (transfer_fuel w) 10 r client n w ht (omega arith) h) close
  where
    close : (e : Ending) (v : World) → length v.recvs + 0 ≤ n → Bounded 0 n (after_transfer e v)
    close left_body v hv = hv
    close (test_failed zero) v hv = omega arith
    close (test_failed (suc k)) v hv = hv

after_oack-Bounded :
    (client : Address) (e : Ending) (n : ℕ) (w : World)
    → length w.recvs + 0 ≤ n
    → Bounded 0 n (after_oack client e w)
unfolding after_oack
after_oack-Bounded client left_body n w h = h
after_oack-Bounded client (test_failed zero) n w h =
    Bounded-bind 0 0 n
      (send (serialize (make_error 0 (codes "TFTP operation timed out."))) client w) _
      (send-Bounded _ client 0 n w (make_error-Calm 0 (codes "TFTP operation timed out.")) h)
      λ _ w' h'. omega arith
after_oack-Bounded client (test_failed (suc k)) n w h = h

numeric_option-Calm :
    (name : Bytes) (dict : DictionaryType) (default : ℕ) (oack : DictionaryType)
    → Calm (numeric_option name dict default oack)
numeric_option-Calm name dict default oack = by_value (find name dict)
  where
    by_value : (o : Option Bytes) → Calm (option_value name default oack o)
    by_value none = tt
    by_value (some text) = Calm-bind (stoull text) _ (stoull-Calm text) (λ number. tt)

pub validate_options-Bounded :
    (o : OptionsType) (dict : DictionaryType) (client : Address) (n : ℕ) (w : World)
    → length w.recvs + 0 ≤ n
    → Bounded 0 n (validate_options o dict client w)
unfolding validate_options
validate_options-Bounded o [] client n w h = h
validate_options-Bounded o (entry ∷ rest) client n w h =
    Bounded-bind 0 0 n (lift blk w) _ (Bounded-lift 0 n blk w (numeric_option-Calm _ _ _ _) h)
      λ a w₁ h₁.
        Bounded-bind 0 0 n (lift (tmo a.1) w₁) _
          (Bounded-lift 0 n (tmo a.1) w₁
            (numeric_option-Calm (codes "timeout") (entry ∷ rest) o.timeout a.1) h₁)
          λ b w₂ h₂.
            Bounded-bind 0 0 n
              (oack_loop max_retries (size_option (entry ∷ rest) o.tsize b.1) client w₂) _
              (oack_loop-Bounded 10 (size_option (entry ∷ rest) o.tsize b.1) client n w₂ h₂)
              λ e w₃ h₃.
                Bounded-bind 0 0 n (after_oack client e w₃) _ (after_oack-Bounded client e n w₃ h₃)
                  λ _ w₄ h₄. h₄
  where
    blk : Result (ℕ × DictionaryType)
    blk = numeric_option (codes "blksize") (entry ∷ rest) o.blksize []

    tmo : DictionaryType → Result (ℕ × DictionaryType)
    tmo = numeric_option (codes "timeout") (entry ∷ rest) o.timeout

pub validate_request-Bounded :
    (mode : Bytes) (client : Address) (n : ℕ) (w : World)
    → length w.recvs + 0 ≤ n
    → Bounded 0 n (validate_request mode client w)
unfolding validate_request
validate_request-Bounded mode client n w h =
    Bounded-if 0 n (not (text_eq mode (codes "octet")) && not (text_eq mode (codes "netascii")))
      (refuse 4 client message) (lift (ok tt)) w (refuse-Bounded 4 client message 0 n w h) h
  where
    message : Bytes
    message = codes "Unsupported transfer mode: " ++ mode

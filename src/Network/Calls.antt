-- ===== src/Network/Calls.antt =====
-- common/socket_api.cpp and common/socket_udp.cpp: what is made of what recvfrom and sendto do. The
-- results of the calls and the values of the system's constants are parameters.
pub mod Refinement
use bootpd.Common.{
  Bool, true, ◌||◌, ℕ, ◌+◌, ◌-◌, ◌^◌, List, [], ◌∷◌, ◌++◌, Bytes, codes, length, take, drop,
  replicate, ltb, ◌==◌, not, if◌then◌else◌, Result, ok, throw, fault, ◌>>=◌, runtime_error,
  logic_error, socket_timed_out, to_decimal,
}
use bootpd.Network.{Address}
use bootpd.Network.Inet.{Inet, to_string, SockaddrIn, v4_parse_sockaddr, v4_init_sockaddr}

-- What WSAGetLastError can name.
abbrev pub error_names : List Bytes
error_names =
    codes "WSAEINTR"
    ∷ codes "WSAEBADF"
    ∷ codes "WSAEACCES"
    ∷ codes "WSAEFAULT"
    ∷ codes "WSAEINVAL"
    ∷ codes "WSAEMFILE"
    ∷ codes "WSAEWOULDBLOCK"
    ∷ codes "WSAEINPROGRESS"
    ∷ codes "WSAEALREADY"
    ∷ codes "WSAENOTSOCK"
    ∷ codes "WSAEDESTADDRREQ"
    ∷ codes "WSAEMSGSIZE"
    ∷ codes "WSAEPROTOTYPE"
    ∷ codes "WSAENOPROTOOPT"
    ∷ codes "WSAEPROTONOSUPPORT"
    ∷ codes "WSAESOCKTNOSUPPORT"
    ∷ codes "WSAEOPNOTSUPP"
    ∷ codes "WSAEPFNOSUPPORT"
    ∷ codes "WSAEAFNOSUPPORT"
    ∷ codes "WSAEADDRINUSE"
    ∷ codes "WSAEADDRNOTAVAIL"
    ∷ codes "WSAENETDOWN"
    ∷ codes "WSAENETUNREACH"
    ∷ codes "WSAENETRESET"
    ∷ codes "WSAECONNABORTED"
    ∷ codes "WSAECONNRESET"
    ∷ codes "WSAENOBUFS"
    ∷ codes "WSAEISCONN"
    ∷ codes "WSAENOTCONN"
    ∷ codes "WSAESHUTDOWN"
    ∷ codes "WSAETOOMANYREFS"
    ∷ codes "WSAETIMEDOUT"
    ∷ codes "WSAECONNREFUSED"
    ∷ codes "WSAELOOP"
    ∷ codes "WSAENAMETOOLONG"
    ∷ codes "WSAEHOSTDOWN"
    ∷ codes "WSAEHOSTUNREACH"
    ∷ codes "WSAENOTEMPTY"
    ∷ codes "WSAEPROCLIM"
    ∷ codes "WSAEUSERS"
    ∷ codes "WSAEDQUOT"
    ∷ codes "WSAESTALE"
    ∷ codes "WSAEREMOTE"
    ∷ codes "WSASYSNOTREADY"
    ∷ codes "WSAVERNOTSUPPORTED"
    ∷ codes "WSANOTINITIALISED"
    ∷ codes "WSAEDISCON"
    ∷ codes "WSAENOMORE"
    ∷ codes "WSAECANCELLED"
    ∷ codes "WSAEINVALIDPROCTABLE"
    ∷ codes "WSAEINVALIDPROVIDER"
    ∷ codes "WSAEPROVIDERFAILEDINIT"
    ∷ codes "WSASYSCALLFAILURE"
    ∷ codes "WSASERVICE_NOT_FOUND"
    ∷ codes "WSATYPE_NOT_FOUND"
    ∷ codes "WSA_E_NO_MORE"
    ∷ codes "WSA_E_CANCELLED"
    ∷ codes "WSAEREFUSED"
    ∷ codes "WSAHOST_NOT_FOUND"
    ∷ codes "WSATRY_AGAIN"
    ∷ codes "WSANO_RECOVERY"
    ∷ codes "WSANO_DATA"
    ∷ codes "WSA_QOS_RECEIVERS"
    ∷ codes "WSA_QOS_SENDERS"
    ∷ codes "WSA_QOS_NO_SENDERS"
    ∷ codes "WSA_QOS_NO_RECEIVERS"
    ∷ codes "WSA_QOS_REQUEST_CONFIRMED"
    ∷ codes "WSA_QOS_ADMISSION_FAILURE"
    ∷ codes "WSA_QOS_POLICY_FAILURE"
    ∷ codes "WSA_QOS_BAD_STYLE"
    ∷ codes "WSA_QOS_BAD_OBJECT"
    ∷ codes "WSA_QOS_TRAFFIC_CTRL_ERROR"
    ∷ codes "WSA_QOS_GENERIC_ERROR"
    ∷ codes "WSA_QOS_ESERVICETYPE"
    ∷ codes "WSA_QOS_EFLOWSPEC"
    ∷ codes "WSA_QOS_EPROVSPECBUF"
    ∷ codes "WSA_QOS_EFILTERSTYLE"
    ∷ codes "WSA_QOS_EFILTERTYPE"
    ∷ codes "WSA_QOS_EFILTERCOUNT"
    ∷ codes "WSA_QOS_EOBJLENGTH"
    ∷ codes "WSA_QOS_EFLOWCOUNT"
    ∷ codes "WSA_QOS_EUNKOWNPSOBJ"
    ∷ codes "WSA_QOS_EPOLICYOBJ"
    ∷ codes "WSA_QOS_EFLOWDESC"
    ∷ codes "WSA_QOS_EPSFLOWSPEC"
    ∷ codes "WSA_QOS_EPSFILTERSPEC"
    ∷ codes "WSA_QOS_ESDMODEOBJ"
    ∷ codes "WSA_QOS_ESHAPERATEOBJ"
    ∷ codes "WSA_QOS_RESERVED_PETYPE"
    ∷ codes "WSA_SECURE_HOST_NOT_FOUND"
    ∷ codes "WSA_IPSEC_NAME_POLICY_ERROR"
    ∷ []

-- What a call of recvfrom does: it puts bytes into the buffer with the address of the sender and the
-- size of that address, or fails with the code of the last error. A call of sendto says how many bytes it
-- sent.
pub data RecvFrom : Type 0 where
  received : Bytes → SockaddrIn → ℕ → RecvFrom
  recv_error : ℕ → RecvFrom

pub data SendTo : Type 0 where
  sent : ℕ → SendTo
  send_error : ℕ → SendTo

-- std::to_string of a 32-bit code.
abbrev pub to_string_int : ℕ → Bytes
to_string_int code =
    if ltb code (2 ^ 31) then to_decimal code else codes "-" ++ to_decimal (2 ^ 32 - code)

-- sizeof (sockaddr_in).
abbrev pub sizeof_sockaddr_in : ℕ
sizeof_sockaddr_in = 16

-- `wsa` is the value of a constant of the system by its name.
module _ (wsa : Bytes → ℕ) where
  unfoldable pub error_string : List Bytes → ℕ → Bytes
  error_string [] last_error = codes "#" ++ to_string_int last_error
  error_string (name ∷ names) last_error =
      let rest = error_string names last_error in if last_error == wsa name then name else rest

  -- The switch: its cases are tried in their order.
  abbrev pub last_error_as_string : ℕ → Bytes
  last_error_as_string last_error = error_string error_names last_error

  -- v4_socket_recv into `buffer`, with what it returns, the sender and the buffer cut to what was received.
  -- A count beyond the buffer would make subspan undefined.
  unfoldable pub v4_socket_recv : RecvFrom → Bytes → Result (ℕ × Address × Bytes)
  v4_socket_recv (received bytes addr_in addr_len) buffer =
      let parsed = v4_parse_sockaddr addr_in >>= λ address.
      if ltb (length buffer) (length bytes)
      then fault
      else ok (length bytes, address, take (length bytes) (bytes ++ drop (length bytes) buffer)) in
      if not (addr_len == sizeof_sockaddr_in)
      then throw (runtime_error (codes "packet sender address size mismatch."))
      else parsed
  v4_socket_recv (recv_error error_code) buffer =
      if wsa (codes "WSAETIMEDOUT") == error_code
      then throw (socket_timed_out (codes "receive operation timed out."))
      else throw (
          runtime_error (
            codes "failed to receive bytes from socket, error code : "
            ++ last_error_as_string error_code))

  -- v4_socket_send: what it returns, and the buffer cut to what was not sent.
  unfoldable pub v4_socket_send : SendTo → Bytes → Result (ℕ × Bytes)
  v4_socket_send (sent sent_bytes) buffer =
      if ltb (length buffer) sent_bytes then fault else ok (sent_bytes, drop sent_bytes buffer)
  v4_socket_send (send_error error_code) buffer =
      if wsa (codes "WSAETIMEDOUT") == error_code
      then throw (socket_timed_out (codes "send operation timed out."))
      else throw (
          runtime_error (
            codes "failed to send bytes trough socket, error code : "
            ++ last_error_as_string error_code))

  -- socket_udp::recv(flags), into `array_buffer` of 65536 bytes.
  unfoldable pub socket_recv : RecvFrom → Bytes → Result (Address × Bytes)
  socket_recv call array_buffer = v4_socket_recv call array_buffer >>= λ (count, source, buffer_s).
      if ltb 0 count then ok (source, buffer_s) else throw (runtime_error (codes "recv failed"))

  -- socket_udp::send of a packet, given what serialize_to_vector makes of it.
  unfoldable pub socket_send : SendTo → Result Bytes → Result ℕ
  socket_send call buffer_v = buffer_v >>= λ bits. v4_socket_send call bits >>= λ r. ok (r.0)

  -- detail::socket_option_set and socket_option_get, given what setsockopt and getsockopt return, the last
  -- error, and the size that getsockopt leaves.
  unfoldable pub socket_option_set : ℕ → ℕ → Result (Unit {0})
  socket_option_set result last_error =
      if not (result == 0)
      then throw (
          runtime_error
            (codes "failed to set socket option, error code : " ++ last_error_as_string last_error))
      else ok tt

  unfoldable pub socket_option_get : ℕ → ℕ → ℕ → ℕ → Result (Unit {0})
  socket_option_get result last_error expected_size size =
      if not (result == 0)
      then throw (
          runtime_error
            (codes "failed to get socket option, error code : " ++ last_error_as_string last_error))
      else if not (size == expected_size)
      then throw (logic_error (codes "socket option value size mismatch."))
      else ok tt

  -- socket_udp::timeout, and each of its two calls: an option that cannot be set is an exception, and the
  -- next is then not set.
  abbrev pub timeout_recv : ℕ → ℕ → Result (Unit {0})
  timeout_recv result last_error = socket_option_set result last_error

  abbrev pub timeout_send : ℕ → ℕ → Result (Unit {0})
  timeout_send result last_error = socket_option_set result last_error

  abbrev pub timeout : ℕ × ℕ → ℕ × ℕ → Result (Unit {0})
  timeout first second = timeout_recv first.0 first.1 >>= λ set. timeout_send second.0 second.1

  -- v4_initialize, given whether it has succeeded before, what WSAStartup returns, and the last error.
  unfoldable pub v4_initialize : Bool → ℕ → ℕ → Result Bool
  v4_initialize started wsaerr last_error =
      if started || wsaerr == 0
      then ok true
      else throw (
          runtime_error (codes "WSAStartup failed with code : " ++ last_error_as_string last_error))

  -- v4_socket_bind, given what bind returns, and the last error.
  unfoldable pub v4_socket_bind : Inet → Address → ℕ → ℕ → Result (Unit {0})
  v4_socket_bind inet address error last_error =
      let failed = to_string inet address >>= λ text. throw (
        runtime_error (
          codes "failed to bind socket with address '"
          ++ (text ++ (codes "', error code : " ++ last_error_as_string last_error)))) in
      if not (error == 0) then failed else ok tt

-- ===== src/Network/Socket.antt =====
-- common/socket_udp.cpp: which object owns which socket of the system, and the calls of
-- common/socket_api.cpp that make, bind and close one. Objects and handles are numbered; an object that
-- does not exist, like one with INVALID_SOCKET, has no handle.
pub mod Ownership
use bootpd.Common.{
  ℕ, ◌==◌, ◌≡◌, ◌≢◌, Bool, true, false, if◌then◌else◌, Bytes, codes, ◌++◌, Option, none, some,
  Result, ok, throw, runtime_error,
}

-- `m_sock` of every object, the handles that the system holds open, and among them those whose bind
-- failed and those that closesocket failed to close.
pub record Sockets : Type 0 where
  pub m_sock : ℕ → Option ℕ
  pub is_open : ℕ → Bool
  pub unbound : ℕ → Bool
  pub unclosed : ℕ → Bool

-- Before the first socket.
abbrev pub no_sockets : Sockets
no_sockets = record {
  m_sock = λ i. none;
  is_open = λ h. false;
  unbound = λ h. false;
  unclosed = λ h. false;
}

abbrev pub put_at {ℓ} : {A : Type ℓ} → ℕ → A → (ℕ → A) → ℕ → A
put_at i a f k = if k == i then a else f k

-- v4_socket_make_udp, where the system gives the handle.
abbrev pub v4_socket_make_udp : ℕ → Sockets → Sockets
v4_socket_make_udp handle s = record s { is_open = put_at handle true s.is_open }

-- socket_udp::socket_udp(address) at the object `i`: the handle is made, bound, and then stored. The
-- text of the error is left out.
unfoldable pub socket_udp : ℕ → ℕ → Bool → Sockets → Result (Unit {0}) × Sockets
socket_udp i handle binds s =
    let made = v4_socket_make_udp handle s in
    if binds then (ok tt, record made { m_sock = put_at i (some handle) made.m_sock }) else (
      throw (runtime_error (codes "failed to bind socket")),
      record made { unbound = put_at handle true made.unbound },
    )

-- socket_udp::socket_udp(socket_udp&& from), by std::exchange.
unfoldable pub move : ℕ → ℕ → Sockets → Sockets
move i from s = record s { m_sock = put_at i (s.m_sock from) (put_at from none s.m_sock) }

unfoldable pub swap : ℕ → ℕ → Sockets → Sockets
swap i other s = record s {
  m_sock = put_at other (s.m_sock i) (put_at i (s.m_sock other) s.m_sock);
}

-- v4_socket_close: where closesocket fails, a warning is printed and the handle stays open.
abbrev pub v4_socket_close : Bool → ℕ → Sockets → Sockets
v4_socket_close true handle s = record s { is_open = put_at handle false s.is_open }
v4_socket_close false handle s = record s { unclosed = put_at handle true s.unclosed }

-- socket_udp::~socket_udp, which gives up the socket there is and closes it.
abbrev pub closed : Bool → ℕ → Option ℕ → Sockets → Sockets
closed closes i none s = s
closed closes i (some handle) s =
    v4_socket_close closes handle (record s { m_sock = put_at i none s.m_sock })

unfoldable pub destroy : Bool → ℕ → Sockets → Sockets
destroy closes i s = closed closes i (s.m_sock i) s

-- operator =, with `tmp` the object on the stack.
unfoldable pub assign : Bool → ℕ → ℕ → ℕ → Sockets → Sockets
assign closes tmp i from s = destroy closes tmp (swap tmp i (move tmp from s))

-- What the program can do with its sockets. A new object has no socket yet, and the system gives no
-- handle that is open.
pub data Step : Sockets → Sockets → Type 0 where
  makes :
      (i handle : ℕ) (s : Sockets) (binds : Bool)
      → s.m_sock i ≡ none
      → s.is_open handle ≡ false
      → Step s (socket_udp i handle binds s).1
  moves : (i from : ℕ) (s : Sockets) → i ≢ from → s.m_sock i ≡ none → Step s (move i from s)
  swaps : (i other : ℕ) (s : Sockets) → Step s (swap i other s)
  assigns :
      (tmp i from : ℕ) (s : Sockets) (closes : Bool)
      → tmp ≢ from
      → s.m_sock tmp ≡ none
      → Step s (assign closes tmp i from s)
  destroys : (i : ℕ) (s : Sockets) (closes : Bool) → Step s (destroy closes i s)

pub data Run : Sockets → Type 0 where
  start : Run no_sockets
  next : {s t : Sockets} → Run s → Step s t → Run t

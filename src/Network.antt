-- ===== src/Network.antt =====
-- common/address_v4.hpp, common/socket_udp.cpp and the send and receive calls of
-- common/socket_api.cpp, as a state monad with exceptions over a script of what the network does.
-- Each call of recvfrom, sendto and stop_requested takes the next entry of its script; past the end
-- nothing arrives, every send succeeds and no stop is requested.
pub mod Laws
pub mod Waiting
pub mod Inet
pub mod Socket
pub mod Calls
pub mod Mac
mod Tests
use bootpd.Common.{
  ℕ, List, [], ◌∷◌, ◌++◌, Bool, true, false, ◌&&◌, Bytes, codes, length, ltb, ◌==◌, if◌then◌else◌,
  Result, ok, throw, terminated, fault, stuck, Exception, runtime_error, socket_timed_out, Option,
  none, some,
}

pub record Address : Type 0 where
  pub addr : ℕ
  pub port : ℕ

-- operator <=>, as it is used: for equality.
abbrev pub same_address : Address → Address → Bool
same_address a b = a.addr == b.addr && a.port == b.port

abbrev pub any : ℕ → Address
any port = record { addr = 0; port = port }

abbrev pub everyone : ℕ → Address
everyone port = record { addr = 0xffff_ffff; port = port }

-- What one call of recvfrom does.
pub data Arrival : Type 0 where
  arrives : Address → Bytes → Arrival
  times_out : Arrival
  fails : Bytes → Arrival

-- What one call of sendto does.
pub data Delivery : Type 0 where
  delivered : Delivery
  send_times_out : Delivery
  send_fails : Bytes → Delivery

-- `sent` are the datagrams handed to the network so far.
pub record World : Type 0 where
  pub recvs : List Arrival
  pub sends : List Delivery
  pub polls : List Bool
  pub sent : List (Address × Bytes)

abbrev pub Io {ℓ} : Type ℓ → Type ℓ
Io A = World → Result A × World

-- A part by clauses, so that a call that returns or throws computes.
abbrev pub and_then {ℓ κ} :
    {A : Type ℓ} {B : Type κ} → Result A × World → (A → Io B) → Result B × World
and_then (ok a, w) f = f a w
and_then (throw e, w) f = (throw e, w)
and_then (terminated, w) f = (terminated, w)
and_then (fault, w) f = (fault, w)
and_then (stuck, w) f = (stuck, w)

infixl 5 ◌>>=◌ ◌>>◌
abbrev pub ◌>>=◌ {ℓ κ} : {A : Type ℓ} {B : Type κ} → Io A → (A → Io B) → Io B
◌>>=◌ m f w = and_then (m w) f

abbrev pub ◌>>◌ {ℓ κ} : {A : Type ℓ} {B : Type κ} → Io A → Io B → Io B
m >> k = m >>= λ _. k

abbrev pub lift {ℓ} : {A : Type ℓ} → Result A → Io A
lift r w = (r, w)

-- std::stop_token::stop_requested.
unfoldable pub stop_requested : Io Bool
stop_requested w = elim w.polls [
  | [] ↦ (ok false, w)
  | b ∷ rest ↦ (ok b, record w { polls = rest })
]

-- socket_udp::recv over v4_socket_recv: an empty datagram is an error.
unfoldable pub recv : Io (Address × Bytes)
recv w = elim w.recvs [
  | [] ↦ (throw (socket_timed_out (codes "receive operation timed out.")), w)
  | arrives source [] ∷ rest ↦
      (throw (runtime_error (codes "recv failed")), record w { recvs = rest })
  | arrives source (b ∷ bits) ∷ rest ↦ (ok (source, b ∷ bits), record w { recvs = rest })
  | times_out ∷ rest ↦
      (throw (socket_timed_out (codes "receive operation timed out.")), record w { recvs = rest })
  | fails message ∷ rest ↦ (throw (runtime_error message), record w { recvs = rest })
]

-- v4_socket_send of a datagram.
unfoldable pub send_bits : Bytes → Address → Io (Unit {0})
send_bits bits target w = elim w.sends [
  | [] ↦ (ok tt, record w { sent = w.sent ++ (target, bits) ∷ [] })
  | delivered ∷ rest ↦ (ok tt, record w { sends = rest; sent = w.sent ++ (target, bits) ∷ [] })
  | send_times_out ∷ rest ↦
      (throw (socket_timed_out (codes "send operation timed out.")), record w { sends = rest })
  | send_fails message ∷ rest ↦ (throw (runtime_error message), record w { sends = rest })
]

-- socket_udp::send of a packet, given what serialize_to_vector makes of it.
unfoldable pub send : Result Bytes → Address → Io (Unit {0})
send packet target = do bits ← lift packet; send_bits bits target

-- ===== src/Network/Inet.antt =====
-- common/address_v4.cpp and the part of common/socket_api.cpp that reads and prints addresses. What the
-- system does with names is a record of its functions; its numbers are in network byte order.
pub mod RoundTrip
use bootpd.Common.{
  ℕ, ◌%◌, ◌^◌, ◌==◌, ltb, not, ◌||◌, if◌then◌else◌, Bytes, codes, [], ◌∷◌, ◌++◌, length, Option,
  none, some, Result, ok, throw, terminated, fault, stuck, ◌>>=◌, runtime_error, logic_error,
  before, behind, stoul, to_decimal,
}
use bootpd.Serdes.ByteOrder.{host_to_net, net_to_host}
use bootpd.Network.{Address}

-- What gethostbyname finds: nothing, an address of another family, or the first address.
pub data Host : Type 0 where
  unresolved : Host
  other_family : Host
  resolved : ℕ → Host

-- `last_error` is what last_error_as_string says, and `long_bits` the width of a long.
pub record Inet : Type 0 where
  pub inet_pton : Bytes → Option ℕ
  pub inet_ntop : ℕ → Option Bytes
  pub gethostbyname : Bytes → Host
  pub last_error : Bytes
  pub long_bits : ℕ

-- sockaddr_in. AF_INET is 2.
pub record SockaddrIn : Type 0 where
  pub sin_family : ℕ
  pub sin_port : ℕ
  pub sin_addr : ℕ

abbrev pub af_inet : ℕ
af_inet = 2

module _ (inet : Inet) where
  abbrev pub first_address : Bytes → Host → Result ℕ
  first_address target unresolved =
      throw (runtime_error (target ++ codes " cannot be resolved, error : " ++ inet.last_error))
  first_address target other_family =
      throw (runtime_error (target ++ codes " cannot be resolved to a v4 address."))
  first_address target (resolved address) = ok (net_to_host 4 address)

  unfoldable pub v4_resolve_single : Bytes → Result ℕ
  v4_resolve_single target = first_address target (inet.gethostbyname target)

  -- The port behind the colon, 0 where there is none.
  abbrev pub checked_port : Bytes → ℕ × ℕ → Result ℕ
  checked_port tmp (value, idx) =
      if not (idx == length tmp) || ltb 65535 (value % 2 ^ 32)
      then throw (logic_error (tmp ++ codes " is not a valid port number."))
      else ok (value % 2 ^ 32 % 2 ^ 16)

  abbrev pub parse_port : Option Bytes → Result ℕ
  parse_port none = ok 0
  parse_port (some []) = ok 0
  parse_port (some (c ∷ tmp)) = stoul inet.long_bits 10 (c ∷ tmp) >>= checked_port (c ∷ tmp)

  abbrev pub parse_host : Bytes → Option ℕ → Result ℕ
  parse_host what none = v4_resolve_single what
  parse_host what (some address) = ok (net_to_host 4 address)

  unfoldable pub v4_parse_address_and_port : Bytes → Result (ℕ × ℕ)
  v4_parse_address_and_port what = parse_port (behind b':' what) >>= λ port.
      parse_host (before b':' what) (inet.inet_pton (before b':' what)) >>= λ address.
      ok (address, port)

  unfoldable pub v4_parse_address : Bytes → Result ℕ
  v4_parse_address what = v4_parse_address_and_port what >>= λ r. ok (r.0)

  abbrev pub printed : Option Bytes → Result Bytes
  printed none = throw (
      runtime_error (codes "unable to convert address to string, error code : " ++ inet.last_error))
  printed (some tmp) = ok tmp

  unfoldable pub v4_address_to_string : ℕ → Result Bytes
  v4_address_to_string address = printed (inet.inet_ntop (host_to_net 4 address))

  -- The constructors of an address, the one of a pair by its two parts.
  unfoldable pub address_v4 : Bytes → Result Address
  address_v4 address_and_port =
      v4_parse_address_and_port address_and_port >>= λ r. ok (record { addr = r.0; port = r.1 })

  unfoldable pub address_and_port_v4 : Bytes → ℕ → Result Address
  address_and_port_v4 address port =
      v4_parse_address address >>= λ a. ok (record { addr = a; port = port })

  -- What is thrown out of a noexcept function ends the program.
  abbrev pub no_throw {ℓ} : {A : Type ℓ} → Result A → Result A
  no_throw (ok a) = ok a
  no_throw (throw e) = terminated
  no_throw terminated = terminated
  no_throw fault = fault
  no_throw stuck = stuck

  unfoldable pub to_string : Address → Result Bytes
  to_string a =
      no_throw (v4_address_to_string a.addr >>= λ t. ok (t ++ codes ":" ++ to_decimal a.port))

unfoldable pub net_port : Address → ℕ
net_port a = host_to_net 2 a.port

unfoldable pub net_addr : Address → ℕ
net_addr a = host_to_net 4 a.addr

abbrev pub set_port : ℕ → Address → Address
set_port value a = record a { port = value }

abbrev pub set_addr : ℕ → Address → Address
set_addr value a = record a { addr = value }

-- v4_init_sockaddr, by which assign_to is defined, and its inverse, by which assign_from is.
unfoldable pub v4_init_sockaddr : Address → SockaddrIn
v4_init_sockaddr source = record {
  sin_family = af_inet;
  sin_port = net_port source;
  sin_addr = net_addr source;
}

unfoldable pub v4_parse_sockaddr : SockaddrIn → Result Address
v4_parse_sockaddr what =
    if not (what.sin_family == af_inet)
    then throw (logic_error (codes "address family mismatch."))
    else ok (record { addr = net_to_host 4 what.sin_addr; port = net_to_host 2 what.sin_port })

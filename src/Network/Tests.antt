-- ===== src/Network/Tests.antt =====
-- The theorem about addresses with the functions of the system as dotted decimals, and the one about
-- sockets at a run that makes two, one of them in vain, and assigns the first.
use bootpd.Common.{
  codes, length, replicate, ◌>>=◌, true, false, ℕ, zero, suc, ◌+◌, ◌*◌, ◌/◌, ◌%◌, ◌≡◌, refl, ap,
  ◌==◌, Bytes, [], ◌∷◌, ◌++◌, append-nil, All, none, some, ok, false, before, behind, Free,
  All-append, before-append, behind-append, to_decimal, to_decimal-number, IsDigit, number, arith,
}
use bootpd.Network.{Address, recv, send}
use bootpd.Network.Laws.{quiet}
use bootpd.Network.Calls.{
  RecvFrom, received, sent, socket_recv, socket_send, last_error_as_string, error_string,
}
use bootpd.Network.Calls.Refinement.{arrival, delivery, calls-script}
use bootpd.Network.Inet.{
  SockaddrIn, Inet, unresolved, to_string, address_v4, v4_init_sockaddr, v4_parse_sockaddr,
}
use bootpd.Network.Socket.{
  Sockets, no_sockets, socket_udp, assign, Run, start, next, makes, assigns,
}
use bootpd.Network.Socket.Ownership.{IsOwned, Run-IsOwned}
use bootpd.Network.Inet.RoundTrip.{PrintsBack, address_v4-to_string}

-- The octets of a number, the lowest first, with dots between them.
print_octets : ℕ → ℕ → Bytes
print_octets zero n = to_decimal n
print_octets (suc k) n = to_decimal (n % 256) ++ b'.' ∷ print_octets k (n / 256)

read_octets : ℕ → Bytes → ℕ
read_octets zero t = number 0 t
read_octets (suc k) t =
    number 0 (before b'.' t)
    + 256 * (elim (behind b'.' t) [ none ↦ 0 | some rest ↦ read_octets k rest ])

digits_without :
    (c : ℕ) (t : Bytes) → ((d : ℕ) → IsDigit d → (d == c) ≡ false) → All IsDigit t → Free c t
digits_without c [] apart h = tt
digits_without c (d ∷ t) apart h = (apart d h.0, digits_without c t apart h.1)

decimal_without_dot : (n : ℕ) → Free b'.' (to_decimal n)
decimal_without_dot n =
    digits_without b'.' (to_decimal n) (λ d h. ground (arith, h.0)) ((to_decimal-number n).0).0

decimal_without_colon : (n : ℕ) → Free b':' (to_decimal n)
decimal_without_colon n =
    digits_without b':' (to_decimal n) (λ d h. ground (arith, h.1)) ((to_decimal-number n).0).0

read_octets-print_octets : (k n : ℕ) → read_octets k (print_octets k n) ≡ n
unfolding read_octets print_octets before behind
read_octets-print_octets zero n = (to_decimal-number n).1
read_octets-print_octets (suc k) n =
    let tail = b'.' ∷ print_octets k (n / 256) in
    let rest = read_octets-print_octets k (n / 256) in
    rw
      (
        before-append b'.' (to_decimal (n % 256)) tail (decimal_without_dot (n % 256)),
        behind-append b'.' (to_decimal (n % 256)) tail (decimal_without_dot (n % 256)),
        append-nil (to_decimal (n % 256)),
        (to_decimal-number (n % 256)).1,
        rest,
      )
      (omega arith)

print_octets-Free : (k n : ℕ) → Free b':' (print_octets k n)
unfolding print_octets
print_octets-Free zero n = decimal_without_colon n
print_octets-Free (suc k) n =
    All-append _ (to_decimal (n % 256)) (b'.' ∷ print_octets k (n / 256))
      (decimal_without_colon (n % 256)) (refl, print_octets-Free k (n / 256))

dotted : Inet
dotted = record {
  inet_pton = λ t. some (read_octets 3 t);
  inet_ntop = λ n. some (print_octets 3 n);
  gethostbyname = λ t. unresolved;
  last_error = [];
  long_bits = 32;
}

dotted-PrintsBack : PrintsBack dotted
unfolding dotted
dotted-PrintsBack n h =
    (print_octets 3 n, refl, ap some (read_octets-print_octets 3 n), print_octets-Free 3 n)

abbrev server : Address
server = record { addr = 0x0a00_0001; port = 69 }

address_v4-to_string_example :
    ((text : Bytes) × (to_string dotted server ≡ ok text) × (address_v4 dotted text ≡ ok server))
    × (v4_parse_sockaddr (v4_init_sockaddr server) ≡ ok server)
unfolding dotted
address_v4-to_string_example =
    address_v4-to_string dotted server dotted-PrintsBack (omega arith) (omega arith, omega arith)

abbrev made : Sockets
made = (socket_udp 0 5 true no_sockets).1

abbrev in_vain : Sockets
in_vain = (socket_udp 1 6 false made).1

assigned : Run (assign false 3 2 0 in_vain)
unfolding socket_udp
assigned =
    next (next (next start (makes 0 5 no_sockets true refl refl)) (makes 1 6 made false refl refl))
      (assigns 3 2 0 in_vain false (λ h. omega (arith, h)) refl)

Run-IsOwned_example : IsOwned (assign false 3 2 0 in_vain)
Run-IsOwned_example = Run-IsOwned assigned

-- A system whose constants are told apart by their names' lengths, and a call that gives two bytes.
abbrev constants : Bytes → ℕ
constants name = 10000 + length name

abbrev sender : SockaddrIn
sender = record { sin_family = 2; sin_port = 17408; sin_addr = 16777343 }

abbrev datagram : RecvFrom
datagram = received (7 ∷ 8 ∷ []) sender 16

abbrev client : Address
client = record { addr = 0x7f000001; port = 68 }

calls-script_example :
    (recv (record (quiet [] []) { recvs = arrival constants datagram ∷ [] })
      ≡ (socket_recv constants datagram (replicate 4 0), quiet [] []))
    × (send
          (ok (5 ∷ 6 ∷ []))
          client
          (record (quiet [] []) { sends = delivery constants (sent 2) ∷ [] })
        ≡ (
          socket_send constants (sent 2) (ok (5 ∷ 6 ∷ [])) >>= λ n. ok tt,
          quiet [] ([] ++ (client, 5 ∷ 6 ∷ []) ∷ []),
        ))
calls-script_example =
    calls-script constants datagram (sent 2) (replicate 4 0) (5 ∷ 6 ∷ []) client (quiet [] []) [] []
      (omega arith, refl, refl) refl

-- The name of a code, and a code without a name.
named_code : last_error_as_string constants 10009 ≡ codes "WSAEACCES"
unfolding error_string
named_code = refl

unnamed_code : last_error_as_string constants 5 ≡ codes "#5"
unfolding error_string to_decimal
unnamed_code = refl

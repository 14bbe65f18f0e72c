-- ===== src/Network/Inet/RoundTrip.antt =====
-- Addresses that are printed and read again, and that go through the structures of the system.
use bootpd.Common.{
  ℕ, ◌^◌, ◌%◌, ◌<◌, ◌≡◌, refl, true, false, ◌==◌, ltb, leb, Bytes, codes, [], ◌∷◌, ◌++◌, append-nil,
  append_assoc, length, some, ok, before, behind, Free, before-append, behind-append, as_unsigned,
  spaced-number, to_decimal, to_decimal-number, IsDecimal, number, arith, ◌≤◌,
}
use native.Mathlib.Nat.{pow-le-pow_right}
use bootpd.Serdes.ByteOrder.{host_to_net, net_to_host-host_to_net, host_to_net-bound}
use bootpd.Network.{Address}
use bootpd.Network.Inet.{
  Inet, parse_port, v4_parse_address_and_port, v4_address_to_string, address_v4, to_string,
  v4_init_sockaddr, v4_parse_sockaddr, net_port, net_addr,
}

-- The documented behaviour of the two functions: what is printed has no colon, and is read again.
abbrev pub PrintsBack : Inet → Type 0
PrintsBack inet =
    (n : ℕ)
    → n < 256 ^ 4
    → (t : Bytes) × (inet.inet_ntop n ≡ some t) × (inet.inet_pton t ≡ some n) × Free b':' t

abbrev pub IsAddress : Address → Type 0
IsAddress a = (a.addr < 256 ^ 4) × (a.port < 256 ^ 2)

parse_port-decimal :
    (inet : Inet) (n : ℕ)
    → 32 ≤ inet.long_bits
    → n < 256 ^ 2
    → parse_port inet (some (to_decimal n)) ≡ ok n
parse_port-decimal inet n w h = read (to_decimal n) (to_decimal-number n).0 (to_decimal-number n).1
  where
    small : 2 ^ 32 ≤ 2 ^ inet.long_bits
    small = pow-le-pow_right (omega arith) w

    read : (t : Bytes) → IsDecimal t → number 0 t ≡ n → parse_port inet (some t) ≡ ok n
    read [] d e = absurd (omega (arith, d.1))
    read (c ∷ t) d e =
        let fits : leb (2 ^ inet.long_bits) n ≡ false = ground (arith, h, small) in
        let whole : (length (c ∷ t) == length (c ∷ t)) ≡ true = ground arith in
        let m : n % 2 ^ 32 ≡ n = omega arith in
        let port : ltb 65535 n ≡ false = ground (arith, h) in
        let m' : n % 2 ^ 16 ≡ n = omega arith in
        rw (spaced-number (as_unsigned inet.long_bits) (c ∷ t) d, e, fits, whole, m, port, m') refl

-- Where the functions of the system print addresses without a colon and read them back, and a long has
-- 32 bits or more, the text of an address and port that fit their integers is read as this address and
-- port, and they go through a sockaddr_in unchanged.
pub address_v4-to_string :
    (inet : Inet) (a : Address)
    → PrintsBack inet
    → 32 ≤ inet.long_bits
    → IsAddress a
    → ((text : Bytes) × (to_string inet a ≡ ok text) × (address_v4 inet text ≡ ok a))
      × (v4_parse_sockaddr (v4_init_sockaddr a) ≡ ok a)
unfolding to_string address_v4 v4_address_to_string v4_parse_address_and_port before behind
    v4_init_sockaddr v4_parse_sockaddr net_addr net_port
address_v4-to_string inet a back w h =
    let (t, ntop, pton, free) = back (host_to_net 4 a.addr) (host_to_net-bound 4 a.addr) in
    let host = net_to_host-host_to_net 4 a.addr h.0 in
    (
      (
        t ++ codes ":" ++ to_decimal a.port,
        rw ntop refl,
        rw
            (
              append_assoc t (codes ":") (to_decimal a.port),
              before-append b':' t (codes ":" ++ to_decimal a.port) free,
              behind-append b':' t (codes ":" ++ to_decimal a.port) free,
              append-nil t,
              parse_port-decimal inet a.port w h.1,
              pton,
              host,
            )
            refl,
      ),
      rw (host, net_to_host-host_to_net 2 a.port h.1) refl,
    )

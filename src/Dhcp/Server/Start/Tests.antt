-- ===== src/Dhcp/Server/Start/Tests.antt =====
-- The theorems about the map of clients at a configuration with one client.
use bootpd.Common.{
  Bytes, ℕ, ◌++◌, ◌&&◌, ◌==◌, not, Bool, true, take, Bool-cases, inl, inr, subst, Free, assign,
  List, arith, ◌≡◌, refl, false, codes, [], ◌∷◌, length, All, some, Result, ok, throw, terminated,
  fault, stuck, find, text_eq, behind, before, spaced, signed, magnitude, digits,
}
use bootpd.Serdes.ByteOrder.{net_to_host}
use bootpd.Serdes.Writer.{write_u8, write_u32, write_bytes, write_uint}
use bootpd.Network.{Address}
use bootpd.Network.Inet.{
  Inet, unresolved, v4_parse_address, v4_parse_address_and_port, v4_address_to_string,
  address_and_port_v4,
}
use bootpd.Config.Cast.{lexical_cast_unsigned}
use bootpd.Config.Ini.{insert, ConfigIni, value, value_as, value_or}
use bootpd.Dhcp.Options.{set_value}
use bootpd.Dhcp.Packet.{DhcpPacket, empty_packet, hardware_address}
use bootpd.Network.Mac.{mac_address_to_string}
use bootpd.Dhcp.Server.{OfferParams, Clients, lowercase, client_key}
use bootpd.Dhcp.Server.Start.{new_params, client_options, initialize_client, bind_address}
use bootpd.Dhcp.Server.Start.Sections.{client_key-lowercase}
use bootpd.Dhcp.Server.Start.Service.{construct, construct-your_address}
use bootpd.Network.{everyone}
use bootpd.Network.Laws.{quiet}
use bootpd.Dhcp.Packet.{dhcp_packet, message_type}
use bootpd.Dhcp.Packet.Wire.{packet_wire}
use bootpd.Dhcp.Server.{respond}
use bootpd.Dhcp.Server.Start.Response.{construct-respond}
use bootpd.Dhcp.Tests.{
  discover, discover_key, somewhere, all_bytes-AllBytes, discover-AllBytes, discover-IsRequest,
  discover-message_type, discover-client_key, discover_read,
}
use bootpd.Config.Ini.Lines.{Directive, header, entry, IsKey, IsDirective}
use bootpd.Config.Ini.File.{print_all}

-- A system that takes every text for an address.
abbrev system : Inet
system = record {
  inet_pton = λ t. some (length t);
  inet_ntop = λ n. some (codes "here");
  gethostbyname = λ t. unresolved;
  last_error = [];
  long_bits = 32;
}

abbrev one_client : ConfigIni
one_client = (codes "0a", (codes "v4_your_address", codes "b") ∷ []) ∷ []

abbrev params_of : Result OfferParams → OfferParams
params_of (ok p) = p
params_of (throw e) = new_params
params_of terminated = new_params
params_of fault = new_params
params_of stuck = new_params

one_client-returns :
    (p : OfferParams) × (initialize_client system 32 16 one_client
        (lowercase (codes "0a"))
        new_params
      ≡ ok p)
unfolding lowercase initialize_client client_options value_or value_as value find text_eq
    v4_parse_address v4_parse_address_and_port v4_address_to_string lexical_cast_unsigned set_value
    behind write_u8 write_uint write_u32 write_bytes
one_client-returns =
    (params_of (initialize_client system 32 16 one_client (codes "0a") new_params), refl)

abbrev here : Address
here = record { addr = net_to_host 4 7; port = 67 }

here-bind_address : bind_address system 32 16 one_client ≡ ok here
unfolding bind_address value_or value_as value find text_eq v4_parse_address
    v4_parse_address_and_port behind address_and_port_v4 lexical_cast_unsigned spaced signed
    magnitude digits before
here-bind_address = refl

abbrev client_file : List Directive
client_file = header (codes "0a") ∷ entry (codes "v4_your_address") (codes "b") [] ∷ []

-- Whether a character is in none of the places.
abbrev free : ℕ → Bytes → Bool
free c [] = true
free c (d ∷ sv) = not (d == c) && free c sv

free-Free : (c : ℕ) (sv : Bytes) → free c sv ≡ true → Free c sv
free-Free c [] h = tt
free-Free c (d ∷ sv) h = elim (Bool-cases (d == c)) [
  | inl e ↦ absurd (let refuted = subst (λ t. (not t && free c sv) ≡ true) e h in cc)
  | inr e ↦ (e, free-Free c sv (subst (λ t. (not t && free c sv) ≡ true) e h))
]

-- The two keys that the files have.
v4-IsKey : IsKey (codes "v4_your_address")
v4-IsKey = (
  (omega arith, refl, refl),
  free-Free b'=' (codes "v4_your_address") refl,
  free-Free b';' (codes "v4_your_address") refl,
  free-Free 10 (codes "v4_your_address") refl,
  (refl, refl),
)

boot_name-IsKey : IsKey (codes "boot_file_name")
boot_name-IsKey = (
  (omega arith, refl, refl),
  free-Free b'=' (codes "boot_file_name") refl,
  free-Free b';' (codes "boot_file_name") refl,
  free-Free 10 (codes "boot_file_name") refl,
  (refl, refl),
)

client_file-IsDirective : All IsDirective client_file
client_file-IsDirective = (
  ((refl, (refl, tt)), (refl, (refl, tt)), (refl, (refl, tt)), (refl, (refl, tt))),
  ((v4-IsKey, ((refl, tt), (refl, tt), (refl, tt)), tt), tt),
)

-- The client gets the length of "b", in the byte order of the host.
construct-your_address_example :
    (clients : Clients) × (p : OfferParams) × (construct system 32 16 (print_all client_file)
      ≡ ok (here, clients))
    × (find (codes "0a") clients ≡ some p)
    × (p.your_address ≡ net_to_host 4 1)
unfolding insert assign find text_eq lowercase v4_parse_address v4_parse_address_and_port behind
    before
construct-your_address_example =
    construct-your_address system 32 16 client_file (codes "0a") (codes "b") (net_to_host 4 1) here
      client_file-IsDirective here-bind_address (one_client-returns, tt) refl refl refl

abbrev packet : DhcpPacket
packet = record empty_packet { hardware_address_length = 1 }

packet_key : client_key packet ≡ ok (codes "00")
unfolding client_key hardware_address mac_address_to_string lowercase
packet_key = refl

upper_case : text_eq (lowercase (codes "0A")) (codes "0A") ≡ false
unfolding text_eq lowercase
upper_case = refl

client_key-lowercase_example : text_eq (codes "0A") (codes "00") ≡ false
client_key-lowercase_example =
    client_key-lowercase packet (codes "00") (codes "0A") packet_key upper_case

-- The configuration of the client 0A-00-00-00-00-01, which is to boot the file "pxe".
abbrev boot_file : List Directive
boot_file =
    header discover_key
    ∷ entry (codes "v4_your_address") (codes "b") []
    ∷ entry (codes "boot_file_name") (codes "pxe") []
    ∷ []

boot_file-IsDirective : All IsDirective boot_file
boot_file-IsDirective = (
  (
    free-Free b'[' discover_key refl,
    free-Free b']' discover_key refl,
    free-Free b';' discover_key refl,
    free-Free 10 discover_key refl,
  ),
  (
    (v4-IsKey, ((refl, tt), (refl, tt), (refl, tt)), tt),
    (
      (
        boot_name-IsKey,
        (
          free-Free b';' (codes "pxe") refl,
          free-Free 10 (codes "pxe") refl,
          free-Free 13 (codes "pxe") refl,
        ),
        tt,
      ),
      tt,
    ),
  ),
)

abbrev boot_ini : ConfigIni
boot_ini =
    (
      discover_key,
      (codes "v4_your_address", codes "b") ∷ (codes "boot_file_name", codes "pxe") ∷ [],
    )
    ∷ []

boot_ini-returns :
    (p : OfferParams) × (initialize_client system 32 16 boot_ini (lowercase discover_key) new_params
      ≡ ok p)
unfolding lowercase initialize_client client_options value_or value_as value find text_eq
    v4_parse_address v4_parse_address_and_port v4_address_to_string lexical_cast_unsigned set_value
    behind write_u8 write_uint write_u32 write_bytes
boot_ini-returns =
    (params_of (initialize_client system 32 16 boot_ini discover_key new_params), refl)

boot-bind_address : bind_address system 32 16 boot_ini ≡ ok here
unfolding bind_address value_or value_as value find text_eq v4_parse_address
    v4_parse_address_and_port behind address_and_port_v4 lexical_cast_unsigned spaced signed
    magnitude digits before
boot-bind_address = refl

construct-respond_example :
    (clients : Clients) × (r : DhcpPacket) × (reply : Bytes) × (construct system 32 16
        (print_all boot_file)
      ≡ ok (here, clients))
    × (respond clients somewhere (packet_wire discover) (quiet [] [])
        ≡ (ok tt, quiet [] ([] ++ (everyone 68, reply) ∷ [])))
    × (dhcp_packet reply ≡ ok r)
    × (r.your_address ≡ net_to_host 4 1)
    × (take 3 r.boot_file_name ≡ codes "pxe")
    × (r.transaction_id ≡ 77)
    × (hardware_address r ≡ hardware_address discover)
    × (message_type r ≡ ok (some 2))
unfolding insert assign find text_eq v4_parse_address v4_parse_address_and_port behind before
construct-respond_example =
    construct-respond system 32 16 boot_file discover_key (codes "b") (codes "pxe")
      (net_to_host 4 1) here somewhere (packet_wire discover) (1 ∷ 3 ∷ []) discover 1 2 [] []
      (omega arith) boot_file-IsDirective (all_bytes-AllBytes (print_all boot_file) refl)
      boot-bind_address (boot_ini-returns, tt) refl refl refl discover-AllBytes discover_read
      discover-client_key refl discover-message_type (inl (refl, refl)) discover-IsRequest

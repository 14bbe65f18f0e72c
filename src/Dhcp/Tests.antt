-- ===== src/Dhcp/Tests.antt =====
-- The theorems about DHCP at concrete inputs.
use bootpd.Common.{
  Bool, true, ltb, ltb→lt, ◌&&◌, Bool-cases, inr, subst, ◌≡◌, ◌≢◌, refl, ◌⊎◌, inl, [], ◌∷◌, ◌++◌,
  Bytes, codes, length, set, take, replicate, none, some, ok, fault, ◌>>=◌, find, text_eq_refl,
  arith,
}
use bootpd.Network.{Address, arrives, times_out, everyone, World}
use bootpd.Network.Laws.{quiet}
use bootpd.Serdes.Writer.Laws.{AllBytes}
use bootpd.Serdes.ByteOrder.{
  to_wire, host_to_net_inplace, host_bytes, from_wire, net_to_host, net_to_host_inplace, host_value,
}
use bootpd.Serdes.Reader.{read_u8, read_uint}
use bootpd.Serdes.Reader.Total.{no_data}
use bootpd.Dhcp.Options.{
  Values, DhcpOptions, no_options, read_options, assign, message_type as options_message_type,
  set_message_type as options_set_message_type, value_u8, at_index,
  requested_parameters as options_requested_parameters, dhcp_magic_cookie,
}
use bootpd.Dhcp.Options.Table.{IsSlot, IsTable, options_wire, All-set, no_options-IsTable}
use bootpd.Dhcp.Options.Read.{Tabled, read_options-Tabled}
use bootpd.Dhcp.Options.RoundTrip.{read_options-Reads}
use bootpd.Dhcp.Options.Access.{set_message_type-message_type, assign_fault}
use bootpd.Dhcp.Packet.{
  DhcpPacket, empty_packet, dhcp_packet, serialize, serdes_size_hint, message_type,
  requested_parameters, hardware_address,
}
use bootpd.Dhcp.Packet.Wire.{
  IsPacket, packet_wire, dhcp_packet-packet_wire, dhcp_packet-serialize,
  serdes_size_hint-packet_wire,
}
use bootpd.Dhcp.Packet.Fields.{zeros_All}
use bootpd.Dhcp.Packet.Total.{IsReceived, dhcp_packet_total}
use bootpd.Network.Mac.{mac_address_to_string}
use bootpd.Dhcp.Server.{OfferParams, Clients, client_key, lowercase, respond, thread_incoming}
use bootpd.Dhcp.Server.Offer.{IsParams, IsRequest, IsResponse}
use bootpd.Dhcp.Server.Answer.{respond-Answers, respond-ignores, respond_overflow}
use bootpd.Dhcp.Server.Queue.{datagrams, receiving, thread_incoming-datagrams}

-- The options of a DHCPDISCOVER that asks for the subnet mask and the router.
abbrev discover_values : Values
discover_values = set (set (replicate 254 none) 54 (some (2 ∷ 1 ∷ 3 ∷ []))) 52 (some (1 ∷ 1 ∷ []))

abbrev discover_options : DhcpOptions
discover_options = record { cookie = dhcp_magic_cookie; values = discover_values }

parameters_IsSlot : IsSlot (some (2 ∷ 1 ∷ 3 ∷ []))
parameters_IsSlot = (refl, omega arith, (omega arith, (omega arith, tt)))

type_IsSlot : IsSlot (some (1 ∷ 1 ∷ []))
type_IsSlot = (refl, omega arith, (omega arith, tt))

discover_IsTable : IsTable discover_options
discover_IsTable = (
  refl,
  All-set (set (replicate 254 none) 54 (some (2 ∷ 1 ∷ 3 ∷ []))) 52 (some (1 ∷ 1 ∷ []))
      (All-set (replicate 254 none) 54 (some (2 ∷ 1 ∷ 3 ∷ [])) no_options-IsTable.1
        parameters_IsSlot)
      type_IsSlot,
)

-- A DHCPDISCOVER of the client 0A-00-00-00-00-01.
abbrev pub discover : DhcpPacket
discover = record empty_packet {
  opcode = 1;
  transaction_id = 77;
  client_hardware_address = 10 ∷ 0 ∷ 0 ∷ 0 ∷ 0 ∷ 1 ∷ replicate 10 0;
  options = discover_options;
}

pub discover-IsPacket : IsPacket discover
discover-IsPacket = record {
  opcode = omega arith;
  hardware_type = omega arith;
  hardware_address_length = omega arith;
  number_of_hops = omega arith;
  transaction_id = omega arith;
  seconds_elapsed = omega arith;
  flags = omega arith;
  client_address = omega arith;
  your_address = omega arith;
  server_address = omega arith;
  gateway_address = omega arith;
  hardware_bytes = (
    refl,
    (
      omega arith,
      (omega arith, (omega arith, (omega arith, (omega arith, (omega arith, zeros_All 10))))),
    ),
  );
  host_bytes = (refl, zeros_All 64);
  file_bytes = (refl, zeros_All 128);
  table = discover_IsTable;
  cookie = refl;
}

pub discover-message_type : message_type discover ≡ ok (some 1)
unfolding message_type options_message_type value_u8 read_u8 read_uint from_wire net_to_host
    net_to_host_inplace host_value
discover-message_type = refl

discover_parameters : requested_parameters discover ≡ ok (1 ∷ 3 ∷ [])
unfolding requested_parameters options_requested_parameters at_index
discover_parameters = refl

abbrev pub discover_key : Bytes
discover_key = codes "0a-00-00-00-00-01"

pub discover-client_key : client_key discover ≡ ok discover_key
unfolding client_key hardware_address mac_address_to_string lowercase
discover-client_key = refl

pub discover_read : dhcp_packet (packet_wire discover) ≡ ok discover
discover_read = dhcp_packet-packet_wire discover discover-IsPacket

-- Whether all of them are bytes.
abbrev pub all_bytes : Bytes → Bool
all_bytes [] = true
all_bytes (b ∷ bytes) = ltb b 256 && all_bytes bytes

pub all_bytes-AllBytes : (bytes : Bytes) → all_bytes bytes ≡ true → AllBytes bytes
all_bytes-AllBytes [] h = tt
all_bytes-AllBytes (b ∷ bytes) h = elim (Bool-cases (ltb b 256)) [
  | inl e ↦
      (ltb→lt b 256 e, all_bytes-AllBytes bytes (subst (λ t. (t && all_bytes bytes) ≡ true) e h))
  | inr e ↦ absurd (let refuted = subst (λ t. (t && all_bytes bytes) ≡ true) e h in cc)
]

pub discover-AllBytes : AllBytes (packet_wire discover)
unfolding to_wire host_to_net_inplace host_bytes
discover-AllBytes = all_bytes-AllBytes (packet_wire discover) refl

pub discover-IsRequest : IsRequest discover (1 ∷ 3 ∷ [])
discover-IsRequest = record {
  address = omega arith;
  parameters = discover_parameters;
  codes = ((omega arith, omega arith), ((omega arith, omega arith), tt));
}

abbrev boot_params : OfferParams
boot_params = record {
  client_address = 0;
  your_address = 0x0a00_0063;
  server_address = 0x0a00_0001;
  gateway_address = 0;
  boot_file_name = codes "pxe";
  server_host_name = codes "boot";
  dhcp_options = no_options;
}

boot_IsParams : IsParams boot_params
boot_IsParams = record {
  client_address = omega arith;
  your_address = omega arith;
  server_address = omega arith;
  gateway_address = omega arith;
  boot_file_name = (omega arith, (omega arith, (omega arith, (omega arith, tt))));
  server_host_name = (omega arith, (omega arith, (omega arith, (omega arith, (omega arith, tt)))));
  dhcp_options = no_options-IsTable;
}

abbrev one_client : Clients
one_client = (discover_key, boot_params) ∷ []

one_client-find : find discover_key one_client ≡ some boot_params
unfolding find
one_client-find = rw (text_eq_refl discover_key)

abbrev pub somewhere : Address
somewhere = record { addr = 0; port = 68 }

respond-Answers_example :
    (r : DhcpPacket) × (reply : Bytes) × IsResponse discover boot_params 2 r
    × (dhcp_packet reply ≡ ok r)
    × (respond one_client somewhere (packet_wire discover) (quiet [] [])
        ≡ (ok tt, quiet [] ([] ++ (everyone 68, reply) ∷ [])))
respond-Answers_example =
    respond-Answers one_client somewhere (packet_wire discover) discover boot_params (1 ∷ 3 ∷ [])
      discover_key 1 2 [] [] discover-AllBytes discover_read refl discover-message_type
      (inl (refl, refl)) discover-IsRequest boot_IsParams discover-client_key one_client-find

-- The same packet as a reply of some other server.
abbrev other_reply : DhcpPacket
other_reply = record discover { opcode = 2 }

other_reply_read : dhcp_packet (packet_wire other_reply) ≡ ok other_reply
other_reply_read = dhcp_packet-packet_wire other_reply (record {
  opcode = omega arith;
  hardware_type = discover-IsPacket.hardware_type;
  hardware_address_length = discover-IsPacket.hardware_address_length;
  number_of_hops = discover-IsPacket.number_of_hops;
  transaction_id = discover-IsPacket.transaction_id;
  seconds_elapsed = discover-IsPacket.seconds_elapsed;
  flags = discover-IsPacket.flags;
  client_address = discover-IsPacket.client_address;
  your_address = discover-IsPacket.your_address;
  server_address = discover-IsPacket.server_address;
  gateway_address = discover-IsPacket.gateway_address;
  hardware_bytes = discover-IsPacket.hardware_bytes;
  host_bytes = discover-IsPacket.host_bytes;
  file_bytes = discover-IsPacket.file_bytes;
  table = discover_IsTable;
  cookie = refl;
})

not_request : other_reply.opcode ≢ 1
not_request = omega arith

other_message_type : message_type other_reply ≡ ok (some 1)
unfolding message_type
other_message_type = discover-message_type

respond-ignores_example :
    respond one_client somewhere (packet_wire other_reply) (quiet [] []) ≡ (ok tt, quiet [] [])
respond-ignores_example =
    respond-ignores one_client somewhere (packet_wire other_reply) other_reply (quiet [] [])
      other_reply_read (inl not_request)

dhcp_packet-serialize_example : serialize discover >>= dhcp_packet ≡ ok discover
dhcp_packet-serialize_example = dhcp_packet-serialize discover discover-IsPacket

serdes_size_hint-packet_wire_example : serdes_size_hint discover ≡ length (packet_wire discover)
serdes_size_hint-packet_wire_example = serdes_size_hint-packet_wire discover discover-IsPacket

dhcp_packet_total_example :
    ((p : DhcpPacket) × (dhcp_packet (1 ∷ 1 ∷ 6 ∷ []) ≡ ok p) × IsReceived p)
    ⊎ (dhcp_packet (1 ∷ 1 ∷ 6 ∷ []) ≡ no_data)
dhcp_packet_total_example =
    dhcp_packet_total (1 ∷ 1 ∷ 6 ∷ []) (omega arith, (omega arith, (omega arith, tt)))

read_options-Reads_example :
    read_options no_options (record { data_ = []; curr = options_wire discover_options ++ 0 ∷ [] })
    ≡ ok (
      record { cookie = dhcp_magic_cookie; values = discover_values },
      record { data_ = []; curr = 0 ∷ [] },
    )
read_options-Reads_example = read_options-Reads discover_options [] (0 ∷ []) discover_IsTable

-- A cookie, one option and the end mark.
abbrev option_bytes : Bytes
option_bytes = 99 ∷ 130 ∷ 83 ∷ 99 ∷ 53 ∷ 1 ∷ 3 ∷ 255 ∷ []

read_options-Tabled_example :
    Tabled (read_options no_options (record { data_ = []; curr = option_bytes }))
read_options-Tabled_example =
    read_options-Tabled no_options [] option_bytes
      (
        omega arith,
        (
          omega arith,
          (
            omega arith,
            (omega arith, (omega arith, (omega arith, (omega arith, (omega arith, tt))))),
          ),
        ),
      )
      no_options-IsTable

set_message_type-message_type_example :
    (o' : DhcpOptions) × (options_set_message_type 2 discover_options ≡ ok o')
    × (options_message_type o' ≡ ok (some 2))
    × IsTable o'
    × (o'.cookie ≡ dhcp_magic_cookie)
set_message_type-message_type_example =
    set_message_type-message_type discover_options 2 discover_IsTable (omega arith)

assign_fault_example : assign 0 discover_options no_options ≡ fault
assign_fault_example = assign_fault 0 discover_options no_options discover_IsTable (inl refl)

thread_incoming-datagrams_example :
    (w : World) × (thread_incoming 3 []
        (receiving (times_out ∷ arrives somewhere (1 ∷ []) ∷ []) [] 2 [])
      ≡ (ok ([] ++ datagrams (take 2 (times_out ∷ arrives somewhere (1 ∷ []) ∷ []))), w))
thread_incoming-datagrams_example =
    thread_incoming-datagrams 2 [] (times_out ∷ arrives somewhere (1 ∷ []) ∷ []) [] []

-- A DHCPDISCOVER that says that its hardware address has 17 bytes.
abbrev long_discover : DhcpPacket
long_discover = record discover { hardware_address_length = 17 }

long_discover_read : dhcp_packet (packet_wire long_discover) ≡ ok long_discover
long_discover_read = dhcp_packet-packet_wire long_discover (record {
  opcode = discover-IsPacket.opcode;
  hardware_type = discover-IsPacket.hardware_type;
  hardware_address_length = omega arith;
  number_of_hops = discover-IsPacket.number_of_hops;
  transaction_id = discover-IsPacket.transaction_id;
  seconds_elapsed = discover-IsPacket.seconds_elapsed;
  flags = discover-IsPacket.flags;
  client_address = discover-IsPacket.client_address;
  your_address = discover-IsPacket.your_address;
  server_address = discover-IsPacket.server_address;
  gateway_address = discover-IsPacket.gateway_address;
  hardware_bytes = discover-IsPacket.hardware_bytes;
  host_bytes = discover-IsPacket.host_bytes;
  file_bytes = discover-IsPacket.file_bytes;
  table = discover_IsTable;
  cookie = refl;
})

long_discover-message_type : message_type long_discover ≡ ok (some 1)
unfolding message_type
long_discover-message_type = discover-message_type

respond_overflow_example :
    respond one_client somewhere (packet_wire long_discover) (quiet [] []) ≡ (fault, quiet [] [])
respond_overflow_example =
    respond_overflow one_client somewhere (packet_wire long_discover) long_discover 1 2
      (quiet [] []) long_discover_read refl long_discover-message_type (inl (refl, refl))
      (omega arith)

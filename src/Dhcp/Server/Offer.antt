-- ===== src/Dhcp/Server/Offer.antt =====
-- dhcp_server_v4::make_offer: what a response to a client is.
use bootpd.Common.{
  ℕ, ◌^◌, ◌≤◌, ◌<◌, ◌≡◌, refl, sym, ◌∙◌, ◌++◌, Bytes, length, length-take, take, take-append, drop,
  replicate, All, All-take, ltb-false, some, ok, arith,
}
use bootpd.Serdes.Writer.Laws.{AllBytes}
use bootpd.Dhcp.Options.{DhcpOptions}
use bootpd.Dhcp.Options.Table.{IsTable, no_options-IsTable}
use bootpd.Dhcp.Packet.{
  DhcpPacket, empty_packet, opcode_response, hardware_type_ethernet, hardware_address, message_type,
  requested_parameters,
}
use bootpd.Dhcp.Packet.Wire.{IsPacket}
use bootpd.Dhcp.Packet.Total.{IsReceived}
use bootpd.Dhcp.Packet.Fields.{
  IsCode, zeros_All, set_hardware_address_lem, set_server_host_name_lem, set_boot_file_name_lem,
  with_options, assign_options_lem, set_message_type_lem,
}
use bootpd.Dhcp.Server.{OfferParams, offer_fields, offer_codes, make_offer, make_response}

-- The parameters of a client that fit a packet.
pub record IsParams (params_v : OfferParams) : Type 0 where
  pub client_address : params_v.client_address < 256 ^ 4
  pub your_address : params_v.your_address < 256 ^ 4
  pub server_address : params_v.server_address < 256 ^ 4
  pub gateway_address : params_v.gateway_address < 256 ^ 4
  pub boot_file_name : (length params_v.boot_file_name ≤ 128) × AllBytes params_v.boot_file_name
  pub server_host_name :
      (length params_v.server_host_name ≤ 64) × AllBytes params_v.server_host_name
  pub dhcp_options : IsTable params_v.dhcp_options

-- A request that can be answered: its hardware address fits the array, and each code it asks for has a slot.
pub record IsRequest (source_v : DhcpPacket) (which : Bytes) : Type 0 where
  pub address : source_v.hardware_address_length ≤ 16
  pub parameters : requested_parameters source_v ≡ ok which
  pub codes : All IsCode which

-- What a client may expect of a response of type `t`.
pub record IsResponse (source_v : DhcpPacket) (params_v : OfferParams) (t : ℕ) (p : DhcpPacket)
    : Type 0 where
  pub opcode : p.opcode ≡ 2
  pub broadcast : p.flags ≡ 0x8000
  pub transaction : p.transaction_id ≡ source_v.transaction_id
  pub your_address : p.your_address ≡ params_v.your_address
  pub server_address : p.server_address ≡ params_v.server_address
  pub hardware : hardware_address p ≡ hardware_address source_v
  pub boot_file_name :
      take (length params_v.boot_file_name) p.boot_file_name ≡ params_v.boot_file_name
  pub type : message_type p ≡ ok (some t)
  pub packet : IsPacket p

empty_packet-IsPacket : IsPacket empty_packet
empty_packet-IsPacket = record {
  opcode = omega arith;
  hardware_type = omega arith;
  hardware_address_length = omega arith;
  number_of_hops = omega arith;
  transaction_id = omega arith;
  seconds_elapsed = omega arith;
  flags = omega arith;
  client_address = omega arith;
  your_address = omega arith;
  server_address = omega arith;
  gateway_address = omega arith;
  hardware_bytes = (refl, zeros_All 16);
  host_bytes = (refl, zeros_All 64);
  file_bytes = (refl, zeros_All 128);
  table = no_options-IsTable;
  cookie = refl;
}

offer_fields-IsPacket :
    (source_v : DhcpPacket) (params_v : OfferParams) (p : DhcpPacket)
    → IsReceived source_v
    → IsParams params_v
    → IsPacket p
    → IsPacket (offer_fields source_v params_v p)
offer_fields-IsPacket source_v params_v p k v h = record {
  opcode = h.opcode;
  hardware_type = h.hardware_type;
  hardware_address_length = h.hardware_address_length;
  number_of_hops = omega arith;
  transaction_id = k.transaction_id;
  seconds_elapsed = k.seconds_elapsed;
  flags = omega arith;
  client_address = v.client_address;
  your_address = v.your_address;
  server_address = v.server_address;
  gateway_address = v.gateway_address;
  hardware_bytes = h.hardware_bytes;
  host_bytes = h.host_bytes;
  file_bytes = h.file_bytes;
  table = h.table;
  cookie = h.cookie;
}

hardware_address_lem :
    (p : DhcpPacket)
    → IsReceived p
    → p.hardware_address_length ≤ 16
    → let address = take p.hardware_address_length p.client_hardware_address in
      (hardware_address p ≡ ok address) × (length address ≤ 16) × AllBytes address
unfolding hardware_address
hardware_address_lem p h le = (
  rw (ltb-false 16 p.hardware_address_length le),
  omega (arith, length-take p.hardware_address_length p.client_hardware_address),
  All-take (λ b. b < 256) p.hardware_address_length p.client_hardware_address h.hardware_bytes.1,
)

offer_codes_All : All IsCode offer_codes
offer_codes_All = (
  (omega arith, omega arith),
  (
    (omega arith, omega arith),
    (
      (omega arith, omega arith),
      ((omega arith, omega arith), ((omega arith, omega arith), ((omega arith, omega arith), tt))),
    ),
  ),
)

-- The offer before the options are copied, for a client's address.
abbrev addressed : Bytes → DhcpPacket
addressed address = record empty_packet {
  opcode = opcode_response;
  hardware_type = hardware_type_ethernet;
  hardware_address_length = length address;
  client_hardware_address = address ++ drop (length address) (replicate 16 0);
}

abbrev with_file : OfferParams → DhcpPacket → DhcpPacket
with_file params_v p = record p {
  boot_file_name =
      params_v.boot_file_name ++ drop (length params_v.boot_file_name) (replicate 128 0);
}

abbrev with_host : OfferParams → DhcpPacket → DhcpPacket
with_host params_v p = record p {
  server_host_name =
      params_v.server_host_name ++ drop (length params_v.server_host_name) (replicate 64 0);
}

abbrev offered : DhcpPacket → OfferParams → Bytes → DhcpPacket
offered source_v params_v address =
    with_host params_v (with_file params_v (offer_fields source_v params_v (addressed address)))

make_offer_lem :
    (source_v : DhcpPacket) (params_v : OfferParams) (which : Bytes)
    → IsReceived source_v
    → IsRequest source_v which
    → IsParams params_v
    → (address : Bytes) × (o : DhcpOptions) × (hardware_address source_v ≡ ok address)
      × (make_offer source_v params_v ≡ ok (with_options (offered source_v params_v address) o))
      × IsPacket (with_options (offered source_v params_v address) o)
      × (hardware_address (with_options (offered source_v params_v address) o) ≡ ok address)
unfolding make_offer hardware_address
make_offer_lem source_v params_v which rc k v =
    let address = take source_v.hardware_address_length source_v.client_hardware_address in
    let (e, le, ha) = hardware_address_lem source_v rc k.address in
    let (e₁, h₁, a₁) = set_hardware_address_lem address empty_packet empty_packet-IsPacket le ha in
    let h₁' = offer_fields-IsPacket source_v params_v (addressed address) rc v h₁ in
    let (e₂, h₂) =
      set_boot_file_name_lem params_v.boot_file_name
        (offer_fields source_v params_v (addressed address)) h₁' v.boot_file_name.0
        v.boot_file_name.1 in
    let (e₃, h₃) =
      set_server_host_name_lem params_v.server_host_name
        (with_file params_v (offer_fields source_v params_v (addressed address))) h₂
        v.server_host_name.0 v.server_host_name.1 in
    let (o₄, e₄, h₄) =
      assign_options_lem params_v.dhcp_options which (offered source_v params_v address)
        v.dhcp_options h₃ k.codes in
    let (o₅, e₅, h₅) =
      assign_options_lem params_v.dhcp_options offer_codes
        (with_options (offered source_v params_v address) o₄) v.dhcp_options h₄ offer_codes_All in
    (address, o₅, e, rw e (rw e₁ (rw e₂ (rw e₃ (rw k.parameters (rw e₄ e₅))))), h₅, a₁)

-- A request that can be answered, with parameters that fit, gets a response of the type asked for.
pub make_response_lem :
    (source_v : DhcpPacket) (params_v : OfferParams) (which : Bytes) (t : ℕ)
    → IsReceived source_v
    → IsRequest source_v which
    → IsParams params_v
    → t < 256
    → (p : DhcpPacket) × (make_response source_v t params_v ≡ ok p)
      × IsResponse source_v params_v t p
unfolding make_response hardware_address
make_response_lem source_v params_v which t rc k v ht =
    let (address, o, e, eo, ho, ha) = make_offer_lem source_v params_v which rc k v in
    let (o', et, h, m) =
      set_message_type_lem t (with_options (offered source_v params_v address) o) ho ht in
    (
      with_options (offered source_v params_v address) o',
      rw eo et,
      record {
        opcode = refl;
        broadcast = refl;
        transaction = refl;
        your_address = refl;
        server_address = refl;
        hardware = ha ∙ sym e;
        boot_file_name = take-append params_v.boot_file_name _ _ refl;
        type = m;
        packet = h;
      },
    )

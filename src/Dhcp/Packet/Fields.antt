-- ===== src/Dhcp/Packet/Fields.antt =====
-- dhcp_packet_v4: the setters on well-formed packets, and the options copied from another table.
use bootpd.Common.{
  ℕ, zero, suc, ◌≤◌, ◌<◌, ◌≡◌, refl, ◌∙◌, [], ◌∷◌, ◌++◌, Bytes, length, length-append, length-drop,
  drop, replicate, All, All-drop, take-append, ltb-false, some, ok, arith,
}
use bootpd.Serdes.Writer.Laws.{AllBytes}
use bootpd.Dhcp.Options.{DhcpOptions, dhcp_magic_cookie}
use bootpd.Dhcp.Options.Table.{IsTable}
use bootpd.Dhcp.Options.Access.{assign_lem, set_message_type-message_type}
use bootpd.Dhcp.Packet.{
  DhcpPacket, hardware_address, set_hardware_address, set_server_host_name, set_boot_file_name,
  set_message_type, message_type, assign_codes, assign_options,
}
use bootpd.Dhcp.Packet.Wire.{IsPacket}

-- A code that has a slot.
abbrev pub IsCode : ℕ → Type 0
IsCode code = (0 < code) × (code < 255)

pub assign_codes_lem :
    (from : DhcpOptions) (which : Bytes) (o : DhcpOptions)
    → IsTable from
    → IsTable o
    → All IsCode which
    → (o' : DhcpOptions) × (assign_codes from which o ≡ ok o') × IsTable o' × (o'.cookie ≡ o.cookie)
unfolding assign_codes
assign_codes_lem from [] o hf h hw = (o, refl, h, refl)
assign_codes_lem from (c ∷ which) o hf h hw =
    let (done, o₁, e₁, t₁, k₁) = assign_lem c from o hf h hw.0.0 hw.0.1 in
    let (o₂, e₂, t₂, k₂) = assign_codes_lem from which o₁ hf t₁ hw.1 in (o₂, rw e₁ e₂, t₂, k₂ ∙ k₁)

pub zeros_All : (n : ℕ) → AllBytes (replicate n 0)
zeros_All zero = tt
zeros_All (suc n) = (omega arith, zeros_All n)

all_append : (xs ys : Bytes) → AllBytes xs → AllBytes ys → AllBytes (xs ++ ys)
all_append [] ys h k = k
all_append (x ∷ xs) ys h k = (h.0, all_append xs ys h.1 k)

-- An array of `n` characters with `value` copied to its front.
filled :
    (n : ℕ) (value old : Bytes)
    → length old ≡ n
    → length value ≤ n
    → AllBytes value
    → AllBytes old
    → (length (value ++ drop (length value) old) ≡ n) × AllBytes (value ++ drop (length value) old)
filled n value old e h hv ho = (
  omega (arith, length-append value (drop (length value) old), length-drop (length value) old),
  all_append value (drop (length value) old) hv (All-drop (λ b. b < 256) (length value) old ho),
)

pub set_hardware_address_lem :
    (value : Bytes) (p : DhcpPacket)
    → IsPacket p
    → length value ≤ 16
    → AllBytes value
    → let p' : DhcpPacket = record p {
      hardware_address_length = length value;
      client_hardware_address = value ++ drop (length value) p.client_hardware_address;
    } in
      (set_hardware_address value p ≡ ok p') × IsPacket p' × (hardware_address p' ≡ ok value)
unfolding set_hardware_address hardware_address
set_hardware_address_lem value p h le hv = (
  rw (ltb-false 16 (length value) le),
  record {
    opcode = h.opcode;
    hardware_type = h.hardware_type;
    hardware_address_length = omega arith;
    number_of_hops = h.number_of_hops;
    transaction_id = h.transaction_id;
    seconds_elapsed = h.seconds_elapsed;
    flags = h.flags;
    client_address = h.client_address;
    your_address = h.your_address;
    server_address = h.server_address;
    gateway_address = h.gateway_address;
    hardware_bytes =
        filled 16 value p.client_hardware_address h.hardware_bytes.0 le hv h.hardware_bytes.1;
    host_bytes = h.host_bytes;
    file_bytes = h.file_bytes;
    table = h.table;
    cookie = h.cookie;
  },
  rw (
    ltb-false 16 (length value) le,
    take-append value (drop (length value) p.client_hardware_address) (length value) refl,
  ),
)

pub set_server_host_name_lem :
    (value : Bytes) (p : DhcpPacket)
    → IsPacket p
    → length value ≤ 64
    → AllBytes value
    → let p' : DhcpPacket = record p {
      server_host_name = value ++ drop (length value) (replicate 64 0);
    } in
      (set_server_host_name value p ≡ ok p') × IsPacket p'
unfolding set_server_host_name
set_server_host_name_lem value p h le hv = (
  rw (ltb-false 64 (length value) le),
  record {
    opcode = h.opcode;
    hardware_type = h.hardware_type;
    hardware_address_length = h.hardware_address_length;
    number_of_hops = h.number_of_hops;
    transaction_id = h.transaction_id;
    seconds_elapsed = h.seconds_elapsed;
    flags = h.flags;
    client_address = h.client_address;
    your_address = h.your_address;
    server_address = h.server_address;
    gateway_address = h.gateway_address;
    hardware_bytes = h.hardware_bytes;
    host_bytes = filled 64 value (replicate 64 0) refl le hv (zeros_All 64);
    file_bytes = h.file_bytes;
    table = h.table;
    cookie = h.cookie;
  },
)

pub set_boot_file_name_lem :
    (value : Bytes) (p : DhcpPacket)
    → IsPacket p
    → length value ≤ 128
    → AllBytes value
    → let p' : DhcpPacket = record p {
      boot_file_name = value ++ drop (length value) (replicate 128 0);
    } in
      (set_boot_file_name value p ≡ ok p') × IsPacket p'
unfolding set_boot_file_name
set_boot_file_name_lem value p h le hv = (
  rw (ltb-false 128 (length value) le),
  record {
    opcode = h.opcode;
    hardware_type = h.hardware_type;
    hardware_address_length = h.hardware_address_length;
    number_of_hops = h.number_of_hops;
    transaction_id = h.transaction_id;
    seconds_elapsed = h.seconds_elapsed;
    flags = h.flags;
    client_address = h.client_address;
    your_address = h.your_address;
    server_address = h.server_address;
    gateway_address = h.gateway_address;
    hardware_bytes = h.hardware_bytes;
    host_bytes = h.host_bytes;
    file_bytes = filled 128 value (replicate 128 0) refl le hv (zeros_All 128);
    table = h.table;
    cookie = h.cookie;
  },
)

abbrev pub with_options : DhcpPacket → DhcpOptions → DhcpPacket
with_options p o = record p { options = o }

with_options-IsPacket :
    (p : DhcpPacket) (o : DhcpOptions)
    → IsPacket p
    → IsTable o
    → o.cookie ≡ dhcp_magic_cookie
    → IsPacket (with_options p o)
with_options-IsPacket p o h t k = record {
  opcode = h.opcode;
  hardware_type = h.hardware_type;
  hardware_address_length = h.hardware_address_length;
  number_of_hops = h.number_of_hops;
  transaction_id = h.transaction_id;
  seconds_elapsed = h.seconds_elapsed;
  flags = h.flags;
  client_address = h.client_address;
  your_address = h.your_address;
  server_address = h.server_address;
  gateway_address = h.gateway_address;
  hardware_bytes = h.hardware_bytes;
  host_bytes = h.host_bytes;
  file_bytes = h.file_bytes;
  table = t;
  cookie = k;
}

pub assign_options_lem :
    (from : DhcpOptions) (which : Bytes) (p : DhcpPacket)
    → IsTable from
    → IsPacket p
    → All IsCode which
    → (o : DhcpOptions) × (assign_options from which p ≡ ok (with_options p o))
      × IsPacket (with_options p o)
unfolding assign_options
assign_options_lem from which p hf h hw =
    let (o, e, t, k) = assign_codes_lem from which p.options hf h.table hw in
    (o, rw e, with_options-IsPacket p o h t (k ∙ h.cookie))

pub set_message_type_lem :
    (t : ℕ) (p : DhcpPacket)
    → IsPacket p
    → t < 256
    → (o : DhcpOptions) × (set_message_type t p ≡ ok (with_options p o))
      × IsPacket (with_options p o)
      × (message_type (with_options p o) ≡ ok (some t))
unfolding set_message_type message_type
set_message_type_lem t p h ht =
    let (o, e, m, table, k) = set_message_type-message_type p.options t h.table ht in
    (o, rw e, with_options-IsPacket p o h table (k ∙ h.cookie), m)

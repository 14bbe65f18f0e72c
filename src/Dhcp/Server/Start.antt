-- ===== src/Dhcp/Server/Start.antt =====
-- dhcp_server_v4::initialize and initialize_client of bootpd/dhcp_server_v4.cpp: the parameters of the
-- clients from the configuration. `string_size` and `view_size` are the sizeof of std::string and
-- std::string_view, which `set` takes for the lengths of the texts.
pub mod Sections
pub mod Service
pub mod Reads
pub mod Params
pub mod Response
mod Tests
use bootpd.Common.{
  ℕ, Bytes, codes, List, [], ◌∷◌, Option, none, some, Result, ok, ◌>>=◌, Dictionary, find, assign,
  Bool,
}
use bootpd.Network.{Address}
use bootpd.Network.Inet.{Inet, v4_parse_address, v4_address_to_string, address_and_port_v4}
use bootpd.Serdes.Writer.{write_u32, write_bytes}
use bootpd.Config.Cast.{lexical_cast_unsigned}
use bootpd.Config.Ini.{ConfigIni, Accessor, sections, value_or}
use bootpd.Dhcp.Options.{DhcpOptions, no_options, set_value}
use bootpd.Dhcp.Server.{OfferParams, Clients, lowercase}

-- A new entry of the map.
abbrev pub new_params : OfferParams
new_params = record {
  client_address = 0;
  your_address = 0;
  server_address = 0;
  gateway_address = 0;
  boot_file_name = [];
  server_host_name = [];
  dhcp_options = no_options;
}

abbrev pub or_new : Option OfferParams → OfferParams
or_new none = new_params
or_new (some params_v) = params_v

abbrev pub done : Result (Bool × DhcpOptions) → Result DhcpOptions
done m = m >>= λ r. ok (r.1)

abbrev pub set_u32 : ℕ → ℕ → DhcpOptions → Result DhcpOptions
set_u32 code v o = done (set_value 4 code (write_u32 v) o)

abbrev pub set_text : ℕ → ℕ → Bytes → DhcpOptions → Result DhcpOptions
set_text size code text o = done (set_value size code (write_bytes text) o)

-- cfg.value_or of a text.
abbrev pub text_or : ConfigIni → Bytes → Bytes → Bytes → Result Bytes
text_or cfg section keyname default =
    value_or (λ t. ok t) (record { keyname = keyname; section = section }) default cfg

module _ (inet : Inet) (string_size view_size : ℕ) (cfg : ConfigIni) where
  abbrev pub address_or : Bytes → Bytes → Bytes → Result ℕ
  address_or mac keyname default = text_or cfg mac keyname default >>= v4_parse_address inet

  abbrev pub address_or_server : Bytes → Bytes → ℕ → Result ℕ
  address_or_server mac keyname server_address =
      v4_address_to_string inet server_address >>= address_or mac keyname

  abbrev pub seconds_or : Bytes → Bytes → ℕ → Result ℕ
  seconds_or mac keyname default =
      value_or (lexical_cast_unsigned inet.long_bits 32)
        (record { keyname = keyname; section = mac }) default cfg

  -- The options, in the order they are set.
  unfoldable pub client_options : Bytes → ℕ → Bytes → Bytes → DhcpOptions → Result DhcpOptions
  client_options mac server_address server_host_name boot_file_name o = do
    subnet_mask ← address_or mac (codes "v4_subnet_mask") (codes "0.0.0.0")
    o₁ ← set_u32 0x01 subnet_mask o
    router ← address_or_server mac (codes "v4_router_address") server_address
    o₂ ← set_u32 0x03 router o₁
    log_server ← address_or_server mac (codes "v4_log_server_address") server_address
    o₃ ← set_u32 0x07 log_server o₂
    o₄ ← set_text string_size 0x0c server_host_name o₃
    domain_name ← text_or cfg mac (codes "domain_name") (codes "localhost")
    o₅ ← set_text view_size 0x0f domain_name o₄
    lease ← seconds_or mac (codes "address_lease_time") 172800
    o₆ ← set_u32 0x33 lease o₅
    dhcp_server ← address_or_server mac (codes "v4_dhcp_server_address") server_address
    o₇ ← set_u32 0x36 dhcp_server o₆
    renewal ← seconds_or mac (codes "address_renewal_time") 86400
    o₈ ← set_u32 0x3a renewal o₇
    rebinding ← seconds_or mac (codes "address_rebinding_time") 7200
    o₉ ← set_u32 0x3b rebinding o₈
    set_text string_size 0x43 boot_file_name o₉

  unfoldable pub initialize_client : Bytes → OfferParams → Result OfferParams
  initialize_client mac params_v = do
    client ← address_or mac (codes "v4_client_address") (codes "0.0.0.0")
    your ← address_or mac (codes "v4_your_address") (codes "0.0.0.0")
    server ← address_or mac (codes "v4_server_address") (codes "0.0.0.0")
    gateway ← address_or mac (codes "v4_gateway_address") (codes "0.0.0.0")
    host_name ← text_or cfg mac (codes "server_host_name") []
    file_name ← text_or cfg mac (codes "boot_file_name") []
    options ← client_options mac server host_name file_name params_v.dhcp_options
    ok (record {
      client_address = client;
      your_address = your;
      server_address = server;
      gateway_address = gateway;
      boot_file_name = file_name;
      server_host_name = host_name;
      dhcp_options = options;
    })

  -- The loop over the sections.
  unfoldable pub initialize_clients : List Bytes → Clients → Result Clients
  initialize_clients [] m_clients = ok m_clients
  initialize_clients (client_mac ∷ macs) m_clients =
      initialize_client (lowercase client_mac) (or_new (find client_mac m_clients)) >>= λ params_v.
      initialize_clients macs (assign client_mac params_v m_clients)

  unfoldable pub bind_address : Result Address
  bind_address = do
    bind_text ← text_or cfg [] (codes "v4_bind_address") (codes "0.0.0.0")
    port_text ← text_or cfg [] (codes "dhcp_listen_port") (codes "67")
    port ← lexical_cast_unsigned inet.long_bits 16 port_text
    address_and_port_v4 inet bind_text port

  unfoldable pub initialize : Result (Address × Clients)
  initialize = do
    m_bind_address ← bind_address
    m_clients ← initialize_clients (sections cfg) []
    ok (m_bind_address, m_clients)

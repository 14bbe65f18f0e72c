-- ===== src/Dhcp/Server/Start/Params.antt =====
-- dhcp_server_v4::initialize_client: the parameters it reads fit a packet.
use bootpd.Common.{
  ℕ, ◌≤◌, Bytes, codes, [], length, Result, ◌>>=◌, Ensures, Ensures-bind, Ensures-ok, Ensures-past,
  arith,
}
use bootpd.Serdes.Writer.Laws.{AllBytes}
use bootpd.Network.Inet.{Inet}
use bootpd.Config.Ini.{ConfigIni, value}
use bootpd.Dhcp.Options.{DhcpOptions}
use bootpd.Dhcp.Options.Table.{IsTable}
use bootpd.Dhcp.Server.{OfferParams}
use bootpd.Dhcp.Server.Offer.{IsParams}
use bootpd.Dhcp.Server.Start.{
  set_u32, set_text, text_or, address_or, address_or_server, seconds_or, client_options,
  initialize_client,
}
use bootpd.Dhcp.Server.Start.Reads.{
  IsAddress, IsText, Sets, text_or-AllBytes, address_or-IsAddress, set_u32-IsTable, set_text-Sets,
}

module _ (inet : Inet) (string_size view_size : ℕ) (cfg : ConfigIni) (mac : Bytes) where
  -- The options of a client: a well-formed table, and texts that fit the size that their options say.
  client_options-IsTable :
      (server_address : ℕ) (server_host_name boot_file_name : Bytes) (o : DhcpOptions)
      → IsTable o
      → Ensures
          (λ o'.
            IsTable o'
            × (string_size ≤ 255 → length server_host_name ≤ string_size)
            × (string_size ≤ 255 → length boot_file_name ≤ string_size))
          (client_options inet string_size view_size cfg mac server_address server_host_name
            boot_file_name o)
  unfolding client_options
  client_options-IsTable server_address server_host_name boot_file_name o h =
      past
        (address_or inet string_size view_size cfg mac (codes "v4_subnet_mask") (codes "0.0.0.0")) _
        λ v1.
          Ensures-bind IsTable Both (set_u32 0x01 v1 o) _
            (set_u32-IsTable 0x01 v1 o h (omega arith) (omega arith))
            λ o1 h1.
              past
                (address_or_server inet string_size view_size cfg mac (codes "v4_router_address")
                  server_address)
                _
                λ v2.
                  Ensures-bind IsTable Both (set_u32 0x03 v2 o1) _
                    (set_u32-IsTable 0x03 v2 o1 h1 (omega arith) (omega arith))
                    λ o2 h2.
                      past
                        (address_or_server inet string_size view_size cfg mac
                          (codes "v4_log_server_address") server_address)
                        _
                        λ v3.
                          Ensures-bind IsTable Both (set_u32 0x07 v3 o2) _
                            (set_u32-IsTable 0x07 v3 o2 h2 (omega arith) (omega arith))
                            λ o3 h3.
                              Ensures-bind (Sets string_size server_host_name) Both
                                (set_text string_size 0x0c server_host_name o3) _
                                (set_text-Sets string_size 0x0c server_host_name o3 h3 (omega arith)
                                  (omega arith))
                                λ o4 h4.
                                  past (text_or cfg mac (codes "domain_name") (codes "localhost")) _
                                    λ v5.
                                      Ensures-bind (Sets view_size v5) Both
                                        (set_text view_size 0x0f v5 o4) _
                                        (set_text-Sets view_size 0x0f v5 o4 h4.0 (omega arith)
                                          (omega arith))
                                        λ o5 h5.
                                          past
                                            (seconds_or inet string_size view_size cfg mac
                                              (codes "address_lease_time") 172800)
                                            _
                                            λ v6.
                                              Ensures-bind IsTable Both (set_u32 0x33 v6 o5) _
                                                (set_u32-IsTable 0x33 v6 o5 h5.0 (omega arith)
                                                  (omega arith))
                                                λ o6 h6.
                                                  past
                                                    (address_or_server inet string_size view_size
                                                      cfg mac (codes "v4_dhcp_server_address")
                                                      server_address)
                                                    _
                                                    λ v7.
                                                      Ensures-bind IsTable Both (set_u32 0x36 v7 o6)
                                                        _
                                                        (set_u32-IsTable 0x36 v7 o6 h6 (omega arith)
                                                          (omega arith))
                                                        λ o7 h7.
                                                          past
                                                            (seconds_or inet string_size view_size
                                                            cfg mac (codes "address_renewal_time")
                                                            86400)
                                                            _
                                                            λ v8.
                                                            Ensures-bind IsTable Both
                                                            (set_u32 0x3a v8 o7) _
                                                            (set_u32-IsTable 0x3a v8 o7 h7
                                                            (omega arith) (omega arith))
                                                            λ o8 h8.
                                                            past
                                                            (seconds_or inet string_size view_size
                                                            cfg mac (codes "address_rebinding_time")
                                                            7200)
                                                            _
                                                            λ v9.
                                                            Ensures-bind IsTable Both
                                                            (set_u32 0x3b v9 o8) _
                                                            (set_u32-IsTable 0x3b v9 o8 h8
                                                            (omega arith) (omega arith))
                                                            λ o9 h9. λ o10 e.
                                                            let k =
                                                            set_text-Sets string_size 0x43
                                                            boot_file_name o9 h9 (omega arith)
                                                            (omega arith) o10 e in
                                                            (k.0, h4.1, k.1)
    where
      Both : DhcpOptions → Type 0
      Both o' =
          IsTable o'
          × (string_size ≤ 255 → length server_host_name ≤ string_size)
          × (string_size ≤ 255 → length boot_file_name ≤ string_size)

      past :
          {A : Type 0} (m : Result A) (f : A → Result DhcpOptions)
          → ((a : A) → Ensures Both (f a))
          → Ensures Both (m >>= f)
      past m f k = Ensures-past Both m f k

  -- Where the configured names of the server and of the boot file are bytes, the sizeof of a string is
  -- at most 64 and the table that is there is well formed, every client that can be read has parameters
  -- that fit a packet.
  pub initialize_client-IsParams :
      (params_v : OfferParams)
      → string_size ≤ 64
      → IsTable params_v.dhcp_options
      → IsText (value (record { keyname = codes "server_host_name"; section = mac }) cfg)
      → IsText (value (record { keyname = codes "boot_file_name"; section = mac }) cfg)
      → Ensures IsParams (initialize_client inet string_size view_size cfg mac params_v)
  unfolding initialize_client
  initialize_client-IsParams params_v small t host file =
      let from = address_or inet string_size view_size cfg mac in
      let zero_address = codes "0.0.0.0" in
      Ensures-bind IsAddress IsParams (from (codes "v4_client_address") zero_address) _
        (address_or-IsAddress cfg mac inet string_size view_size (codes "v4_client_address")
          zero_address)
        λ client h₁.
          Ensures-bind IsAddress IsParams (from (codes "v4_your_address") zero_address) _
            (address_or-IsAddress cfg mac inet string_size view_size (codes "v4_your_address")
              zero_address)
            λ your h₂.
              Ensures-bind IsAddress IsParams (from (codes "v4_server_address") zero_address) _
                (address_or-IsAddress cfg mac inet string_size view_size (codes "v4_server_address")
                  zero_address)
                λ server h₃.
                  Ensures-bind IsAddress IsParams (from (codes "v4_gateway_address") zero_address) _
                    (address_or-IsAddress cfg mac inet string_size view_size
                      (codes "v4_gateway_address") zero_address)
                    λ gateway h₄.
                      Ensures-bind AllBytes IsParams (text_or cfg mac (codes "server_host_name") [])
                        _ (text_or-AllBytes cfg mac (codes "server_host_name") [] host tt)
                        λ host_name h₅.
                          Ensures-bind AllBytes IsParams
                            (text_or cfg mac (codes "boot_file_name") []) _
                            (text_or-AllBytes cfg mac (codes "boot_file_name") [] file tt)
                            λ file_name h₆.
                              Ensures-bind _ IsParams
                                (client_options inet string_size view_size cfg mac server host_name
                                  file_name params_v.dhcp_options)
                                _
                                (client_options-IsTable server host_name file_name
                                  params_v.dhcp_options t)
                                λ options h₇. Ensures-ok IsParams _ record {
                                  client_address = h₁;
                                  your_address = h₂;
                                  server_address = h₃;
                                  gateway_address = h₄;
                                  boot_file_name = (omega (arith, h₇.2 (omega arith)), h₆);
                                  server_host_name = (omega (arith, h₇.1 (omega arith)), h₅);
                                  dhcp_options = h₇.0;
                                }

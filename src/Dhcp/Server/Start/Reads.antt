-- ===== src/Dhcp/Server/Start/Reads.antt =====
-- dhcp_server_v4::initialize_client: what each text, address and option that it reads is.
use bootpd.Common.{
  ℕ, ◌^◌, ◌≤◌, ◌<◌, Bytes, length, Option, none, some, ok, ◌>>=◌, Ensures, Ensures-bind, Ensures-ok,
  Ensures-any, before, behind,
}
use bootpd.Serdes.ByteOrder.{net_to_host, net_to_host-bound}
use bootpd.Serdes.Writer.{write_u32, write_bytes}
use bootpd.Serdes.Writer.Laws.{AllBytes}
use bootpd.Network.Inet.{
  Inet, Host, unresolved, other_family, resolved, first_address, parse_host, parse_port,
  v4_resolve_single, v4_parse_address, v4_parse_address_and_port,
}
use bootpd.Config.Ini.{ConfigIni, value, value_as, value_or, or_else, cast_value}
use bootpd.Dhcp.Options.{DhcpOptions, set_value}
use bootpd.Dhcp.Options.Table.{IsTable}
use bootpd.Dhcp.Options.Stored.{set_value-IsTable, write_u32-Fills, write_bytes-Fills}
use bootpd.Dhcp.Server.Start.{set_u32, set_text, text_or, address_or}

-- An address, and the value that every parsed address is.
abbrev pub IsAddress : ℕ → Type 0
IsAddress a = a < 256 ^ 4

first_address-IsAddress :
    (inet : Inet) (target : Bytes) (host : Host)
    → Ensures IsAddress (first_address inet target host)
first_address-IsAddress inet target unresolved a e = absurd (cc)
first_address-IsAddress inet target other_family a e = absurd (cc)
first_address-IsAddress inet target (resolved address) a e =
    Ensures-ok IsAddress (net_to_host 4 address) (net_to_host-bound 4 address) a e

parse_host-IsAddress :
    (inet : Inet) (what : Bytes) (o : Option ℕ) → Ensures IsAddress (parse_host inet what o)
unfolding v4_resolve_single
parse_host-IsAddress inet what none = first_address-IsAddress inet what (inet.gethostbyname what)
parse_host-IsAddress inet what (some address) = Ensures-ok IsAddress _ (net_to_host-bound 4 address)

-- The first part of a pair is an address.
abbrev HasAddress : ℕ × ℕ → Type 0
HasAddress r = IsAddress r.0

v4_parse_address_and_port-HasAddress :
    (inet : Inet) (what : Bytes) → Ensures HasAddress (v4_parse_address_and_port inet what)
unfolding v4_parse_address_and_port
v4_parse_address_and_port-HasAddress inet what =
    Ensures-bind _ HasAddress (parse_port inet (behind b':' what)) _
      (Ensures-any (parse_port inet (behind b':' what)))
      λ port _.
        Ensures-bind IsAddress HasAddress
          (parse_host inet (before b':' what) (inet.inet_pton (before b':' what)))
          (λ address. ok (address, port))
          (parse_host-IsAddress inet (before b':' what) (inet.inet_pton (before b':' what)))
          λ address h. Ensures-ok HasAddress (address, port) h

v4_parse_address-IsAddress :
    (inet : Inet) (what : Bytes) → Ensures IsAddress (v4_parse_address inet what)
unfolding v4_parse_address
v4_parse_address-IsAddress inet what =
    Ensures-bind HasAddress IsAddress (v4_parse_address_and_port inet what) (λ r. ok (r.0))
      (v4_parse_address_and_port-HasAddress inet what) λ r h. Ensures-ok IsAddress (r.0) h

-- A text of bytes, where there is one.
abbrev pub IsText : Option Bytes → Type 0
IsText none = Unit {0}
IsText (some text) = AllBytes text

module _ (cfg : ConfigIni) (mac : Bytes) where
  pub text_or-AllBytes :
      (keyname default : Bytes)
      → IsText (value (record { keyname = keyname; section = mac }) cfg)
      → AllBytes default
      → Ensures AllBytes (text_or cfg mac keyname default)
  unfolding value_or value_as
  text_or-AllBytes keyname default h d =
      found (value (record { keyname = keyname; section = mac }) cfg) h
    where
      found :
          (o : Option Bytes)
          → IsText o
          → Ensures AllBytes (cast_value (λ t. ok t) o >>= λ p. ok (or_else (λ t. ok t) default p))
      found none k = Ensures-ok AllBytes default d
      found (some text) k = Ensures-ok AllBytes text k

  pub address_or-IsAddress :
      (inet : Inet) (string_size view_size : ℕ) (keyname default : Bytes)
      → Ensures IsAddress (address_or inet string_size view_size cfg mac keyname default)
  address_or-IsAddress inet string_size view_size keyname default =
      Ensures-bind _ IsAddress (text_or cfg mac keyname default) (v4_parse_address inet)
        (Ensures-any (text_or cfg mac keyname default))
        λ text _. v4_parse_address-IsAddress inet text

pub set_u32-IsTable :
    (code v : ℕ) (o : DhcpOptions)
    → IsTable o
    → 0 < code
    → code < 255
    → Ensures IsTable (set_u32 code v o)
set_u32-IsTable code v o h lo hi =
    Ensures-bind _ IsTable (set_value 4 code (write_u32 v) o) (λ r. ok (r.1))
      (set_value-IsTable 4 code 4 (write_u32 v) o h lo hi (write_u32-Fills v 4))
      λ r k. Ensures-ok IsTable (r.1) k.0

-- A text that was set fits the size that its option says.
abbrev pub Sets : ℕ → Bytes → DhcpOptions → Type 0
Sets size text o = IsTable o × (size ≤ 255 → length text ≤ size)

pub set_text-Sets :
    (size code : ℕ) (text : Bytes) (o : DhcpOptions)
    → IsTable o
    → 0 < code
    → code < 255
    → Ensures (Sets size text) (set_text size code text o)
set_text-Sets size code text o h lo hi =
    Ensures-bind _ (Sets size text) (set_value size code (write_bytes text) o) (λ r. ok (r.1))
      (set_value-IsTable size code (length text) (write_bytes text) o h lo hi
        (write_bytes-Fills text size))
      λ r k. Ensures-ok (Sets size text) (r.1) k

-- ===== src/Tftp/Server/Start.antt =====
-- tftp_server_v4::initialize of bootpd/tftp_server_v4.cpp: where the server listens, and the directory
-- it serves.
use bootpd.Common.{◌%◌, ◌^◌, Bytes, codes, [], Result, ok, ◌>>=◌}
use bootpd.Network.{Address, any}
use bootpd.Network.Inet.{Inet, address_v4, set_port}
use bootpd.Config.Cast.{lexical_cast_signed}
use bootpd.Config.Ini.{ConfigIni, Accessor, value_or}

abbrev pub key : Bytes → Accessor
key keyname = record { keyname = keyname; section = [] }

-- m_address and m_base_dir. The port is read as an int and cut to 16 bits.
unfoldable pub initialize : Inet → ConfigIni → Result (Address × Bytes)
initialize inet cfg = do
  address ← value_or (address_v4 inet) (key (codes "v4_bind_address")) (any 0) cfg
  port ← value_or (lexical_cast_signed inet.long_bits 32) (key (codes "tftp_listen_port")) 69 cfg
  base_dir ← value_or (λ t. ok t) (key (codes "tftp_base_dir")) (codes "./") cfg
  ok (set_port (port % 2 ^ 16) address, base_dir)

-- ===== src/Network/Mac.antt =====
-- mac_address_to_string of common/socket_api.cpp.
use bootpd.Common.{
  ℕ, ◌+◌, ◌/◌, ◌%◌, ltb, if◌then◌else◌, Bytes, codes, [], ◌∷◌, ◌++◌, Result, ok, throw,
  runtime_error,
}

abbrev pub hex_digit : ℕ → ℕ
hex_digit d = if ltb d 10 then 48 + d else 55 + d

-- to_hex of common/socket_api.cpp.
abbrev pub to_hex : ℕ → Bytes
to_hex value = hex_digit (value / 16 % 16) ∷ hex_digit (value % 16) ∷ []

abbrev pub dashed : Bytes → Bytes
dashed [] = []
dashed (b ∷ bytes) = (45 ∷ to_hex b) ++ dashed bytes

unfoldable pub mac_address_to_string : Bytes → Result Bytes
mac_address_to_string [] = throw (runtime_error (codes "address is empty"))
mac_address_to_string (b ∷ bytes) = ok (to_hex b ++ dashed bytes)

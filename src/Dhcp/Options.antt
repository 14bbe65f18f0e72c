-- ===== src/Dhcp/Options.antt =====
-- bootpd/dhcp_options_v4.hpp: the options of a packet, a table of 254 slots. A slot holds a byte string
-- that starts with its own length; code c has slot c - 1.
pub mod Table
pub mod Read
pub mod RoundTrip
pub mod Access
pub mod Stored
pub mod Moves
use bootpd.Common.{
  ℕ, zero, suc, ◌+◌, ◌-◌, ◌*◌, ◌%◌, ◌^◌, [], ◌∷◌, ◌++◌, List, Bytes, codes, length, get_or,
  get_elem?, set, take, drop, replicate, Bool, true, false, ◌||◌, ltb, leb, ◌==◌, if◌then◌else◌,
  Option, none, some, Result, ok, throw, fault, stuck, runtime_error, out_of_range, ◌>>=◌, min,
  to_decimal, not,
}
use bootpd.Serdes.Reader.{Reader, reader, read_u8, read_u32, read_bytes}
use bootpd.Serdes.Writer.{Writer, writer, write_u8, write_u32, write_bytes}

abbrev pub dhcp_magic_cookie : ℕ
dhcp_magic_cookie = 0x63825363

-- m_values: std::array of 254 owning pointers.
abbrev pub Values : Type 0
Values = List (Option Bytes)

pub record DhcpOptions : Type 0 where
  pub cookie : ℕ
  pub values : Values

abbrev pub no_options : DhcpOptions
no_options = record { cookie = dhcp_magic_cookie; values = replicate 254 none }

-- code - 1u, an unsigned int.
abbrev pub slot : ℕ → ℕ
slot code = (code + 2 ^ 32 - 1) % 2 ^ 32

-- m_values[i] of a read, and of a write: an index out of the array is undefined behaviour.
abbrev pub or_fault {ℓ} : {A : Type ℓ} → Option A → Result A
or_fault none = fault
or_fault (some a) = ok a

abbrev pub value_at : Values → ℕ → Result (Option Bytes)
value_at values i = or_fault (get_elem? values i)

abbrev pub store_at : DhcpOptions → ℕ → Bytes → Result DhcpOptions
store_at o i bytes =
    if ltb i (length o.values)
    then ok (record o { values = set o.values i (some bytes) })
    else fault

-- p[0] of a slot's bytes: its length byte.
abbrev pub size_byte : Bytes → ℕ
size_byte bytes = get_or bytes 0 0

-- The copy constructor copies the length byte and so many bytes more.
unfoldable pub copy_values : Values → Values
copy_values [] = []
copy_values (none ∷ values) = none ∷ copy_values values
copy_values (some bytes ∷ values) = some (take (size_byte bytes + 1) bytes) ∷ copy_values values

unfoldable pub copy : DhcpOptions → DhcpOptions
copy p = record { cookie = dhcp_magic_cookie; values = copy_values p.values }

-- while (true) of the reader. Each round takes a byte at least.
unfoldable pub options_loop : ℕ → DhcpOptions → Reader → Result (DhcpOptions × Reader)
options_loop zero o s = stuck
options_loop (suc fuel) o s = read_u8 s >>= λ (code, s₁).
    let again = options_loop fuel o s₁ in
    let stored = read_u8 s₁ >>= λ (size, s₂). read_bytes size s₂ >>= λ (bytes, s₃).
    store_at o (slot code) (size ∷ bytes) >>= λ o'. options_loop fuel o' s₃ in
    if code == 0 then again else if code == 0xff then ok (o, s₁) else stored

unfoldable pub read_options : DhcpOptions → Reader → Result (DhcpOptions × Reader)
read_options o s =
    if ltb (length s.curr) 4
    then ok (o, s)
    else read_u32 s >>= λ (cookie, s₁).
        let o' : DhcpOptions = record o { cookie = cookie } in
        let rest = options_loop (suc (length s₁.curr)) o' s₁ in
        if not (cookie == dhcp_magic_cookie) then ok (o', s₁) else rest

-- for (i = 0; i < count_options; ++i) of the writer, from index `i` on.
unfoldable pub write_values : ℕ → Values → Writer → Result Writer
write_values i [] w = ok w
write_values i (none ∷ values) w = write_values (i + 1) values w
write_values i (some bytes ∷ values) w = do
  w₁ ← write_u8 ((i + 1) % 256) w
  w₂ ← write_bytes (take (size_byte bytes + 1) bytes) w₁
  write_values (i + 1) values w₂

unfoldable pub write_options : DhcpOptions → Writer → Result Writer
write_options o w = do
  w₁ ← write_u32 dhcp_magic_cookie w
  w₂ ← write_values 0 (take (min (length o.values) 254) o.values) w₁
  write_u8 0xff w₂

abbrev pub option_span : Option Bytes → Bytes
option_span none = []
option_span (some bytes) = take (size_byte bytes) (drop 1 bytes)

-- operator []: the bytes behind the length byte.
unfoldable pub at_index : DhcpOptions → ℕ → Result Bytes
at_index o index =
    if leb index 0 || leb 0xff index
    then throw (out_of_range (codes "Accessing invalid option: " ++ to_decimal index))
    else (do option_bytes ← value_at o.values (slot index); ok (option_span option_bytes))

-- What `set` of a span does to the options. The source's function has no return on its success path.
unfoldable pub set_span : ℕ → Bytes → DhcpOptions → Result (Bool × DhcpOptions)
set_span code bytes o =
    if ltb code 1 || ltb 254 code || ltb 255 (length bytes)
    then ok (false, o)
    else store_at o (slot code) ((length bytes % 256) ∷ bytes) >>= λ o'. fault

-- `set` of one value of any type: `total_size` is the sizeof of the type, and `write` writes the value.
-- What stands behind the written bytes stays zero. Where the write throws, the table goes with the
-- exception: its only callers that can throw are constructors.
unfoldable pub set_value :
    ℕ → ℕ → (Writer → Result Writer) → DhcpOptions → Result (Bool × DhcpOptions)
set_value total_size code write o = if ltb 255 total_size then ok (false, o) else (do
  w ← write (writer (replicate total_size 0))
  o' ← store_at o (slot code) ((total_size % 256) ∷ (w.written ++ w.room))
  ok (true, o'))

abbrev pub first_byte : Option Bytes → Result (Option ℕ)
first_byte none = ok none
first_byte (some bytes) =
    read_u8 (reader (take (size_byte bytes) (drop 1 bytes))) >>= λ (v, s). ok (some v)

-- `value` of one byte.
unfoldable pub value_u8 : ℕ → DhcpOptions → Result (Option ℕ)
value_u8 code o =
    if ltb code 1 || ltb 254 code
    then ok none
    else (do option_bytes ← value_at o.values (slot code); first_byte option_bytes)

abbrev pub assign_value : ℕ → DhcpOptions → Option Bytes → Result (Bool × DhcpOptions)
assign_value code o none = ok (false, o)
assign_value code o (some bytes) =
    store_at o (slot code) (take (size_byte bytes + 1) bytes) >>= λ o'. ok (true, o')

-- `assign` of one option of another table. Its code is an octet, and it does not check it.
unfoldable pub assign : ℕ → DhcpOptions → DhcpOptions → Result (Bool × DhcpOptions)
assign code from o = do
  src_value ← value_at from.values (slot (code % 2 ^ 8))
  assign_value (code % 2 ^ 8) o src_value

unfoldable pub message_type : DhcpOptions → Result (Option ℕ)
message_type o = value_u8 0x35 o

unfoldable pub set_message_type : ℕ → DhcpOptions → Result DhcpOptions
set_message_type msg_type o = do (done, o') ← set_value 1 0x35 (write_u8 msg_type) o; ok o'

unfoldable pub requested_parameters : DhcpOptions → Result Bytes
requested_parameters o = at_index o 0x37

unfoldable pub values_size : Values → ℕ
values_size [] = 0
values_size (none ∷ values) = values_size values
values_size (some bytes ∷ values) = (size_byte bytes + 2) + values_size values

unfoldable pub serdes_size_hint : DhcpOptions → ℕ
serdes_size_hint o = 1 + 4 + values_size o.values

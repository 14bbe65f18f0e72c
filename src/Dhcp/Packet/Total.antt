-- ===== src/Dhcp/Packet/Total.antt =====
-- dhcp_packet_v4: the constructor on any bytes.
use bootpd.Common.{
  ℕ, ◌^◌, ◌<◌, subst, sym, ◌∙◌, ok-injective, take, ◌≡◌, refl, ◌⊎◌, inl, inr, Bytes, length,
  length-take, All-take, All-drop, Result, ok, ◌>>=◌, arith,
}
use native.Mathlib.Decide.{dec_le}
use bootpd.Serdes.ByteOrder.{network_byte_order, from_wire, from_wire_bound}
use bootpd.Serdes.Reader.{Reader, reader, read_uint, read_u8, read_u16, read_u32, read_bytes}
use bootpd.Serdes.Reader.Laws.{read_bytes-take, read_bytes_short, read_uint-take, read_uint_short}
use bootpd.Serdes.Reader.Total.{no_data}
use bootpd.Serdes.Writer.Laws.{AllBytes}
use bootpd.Dhcp.Options.{no_options}
use bootpd.Dhcp.Options.Table.{IsTable, no_options-IsTable}
use bootpd.Dhcp.Options.Read.{read_options-Tabled}
use bootpd.Dhcp.Packet.{DhcpPacket, empty_packet, read_packet, dhcp_packet}

-- The result is a value with the property `P` and bytes behind it, or the exception of the end of the data.
abbrev Yields {ℓ} : {A : Type ℓ} → (A → Type 0) → Result (A × Reader) → Type ℓ
Yields {A} P r = ((a : A) × (s : Reader) × (r ≡ ok (a, s)) × AllBytes s.curr × P a) ⊎ (r ≡ no_data)

yield_bind {ℓ κ} :
    {A : Type ℓ} {B : Type κ} (P : A → Type 0) (Q : Result (B × Reader) → Type κ)
    (r : Result (A × Reader)) (f : A × Reader → Result (B × Reader))
    → Q no_data
    → Yields P r
    → ((a : A) (s : Reader) → AllBytes s.curr → P a → Q (f (a, s)))
    → Q (r >>= f)
yield_bind P Q r f d (inl (a, s, e, h, p)) g = rw e (g a s h p)
yield_bind P Q r f d (inr e) g = rw e d

-- A number of so many bytes.
abbrev IsUint : ℕ → ℕ → Type 0
IsUint width value = value < 256 ^ width

read_uint-Yields :
    (width : ℕ) (s : Reader)
    → AllBytes s.curr
    → Yields (IsUint width) (read_uint network_byte_order width s)
read_uint-Yields width s h = elim (dec_le width (length s.curr)) [
  | yes fits ↦ inl (
    _,
    _,
    read_uint-take network_byte_order width s.data_ s.curr fits,
    All-drop (λ b. b < 256) width s.curr h,
    subst (λ n. from_wire network_byte_order (take width s.curr) < 256 ^ n)
        (omega (arith, length-take width s.curr))
        (from_wire_bound (take width s.curr) (All-take (λ b. b < 256) width s.curr h)),
  )
  | no short ↦ inr (read_uint_short network_byte_order width s.data_ s.curr (omega arith))
]

read_u8-Yields : (s : Reader) → AllBytes s.curr → Yields (IsUint 1) (read_u8 s)
unfolding read_u8
read_u8-Yields = read_uint-Yields 1

read_u16-Yields : (s : Reader) → AllBytes s.curr → Yields (IsUint 2) (read_u16 s)
unfolding read_u16
read_u16-Yields = read_uint-Yields 2

read_u32-Yields : (s : Reader) → AllBytes s.curr → Yields (IsUint 4) (read_u32 s)
unfolding read_u32
read_u32-Yields = read_uint-Yields 4

-- An array of `n` bytes.
abbrev IsArray : ℕ → Bytes → Type 0
IsArray n bytes = (length bytes ≡ n) × AllBytes bytes

read_bytes-Yields : (n : ℕ) (s : Reader) → AllBytes s.curr → Yields (IsArray n) (read_bytes n s)
read_bytes-Yields n s h = elim (dec_le n (length s.curr)) [
  | yes fits ↦ inl (
    _,
    _,
    read_bytes-take n s.data_ s.curr fits,
    All-drop (λ b. b < 256) n s.curr h,
    (omega (arith, length-take n s.curr), All-take (λ b. b < 256) n s.curr h),
  )
  | no short ↦ inr (read_bytes_short n s.data_ s.curr (omega arith))
]

-- What holds of every packet that was read: the numbers and the arrays have their sizes, and the table
-- is well formed.
pub record IsReceived (p : DhcpPacket) : Type 0 where
  pub opcode : p.opcode < 256
  pub hardware_type : p.hardware_type < 256
  pub hardware_address_length : p.hardware_address_length < 256
  pub number_of_hops : p.number_of_hops < 256
  pub transaction_id : p.transaction_id < 256 ^ 4
  pub seconds_elapsed : p.seconds_elapsed < 256 ^ 2
  pub flags : p.flags < 256 ^ 2
  pub client_address : p.client_address < 256 ^ 4
  pub your_address : p.your_address < 256 ^ 4
  pub server_address : p.server_address < 256 ^ 4
  pub gateway_address : p.gateway_address < 256 ^ 4
  pub hardware_bytes : (length p.client_hardware_address ≡ 16) × AllBytes p.client_hardware_address
  pub host_bytes : (length p.server_host_name ≡ 64) × AllBytes p.server_host_name
  pub file_bytes : (length p.boot_file_name ≡ 128) × AllBytes p.boot_file_name
  pub table : IsTable p.options

abbrev Receives : Result (DhcpPacket × Reader) → Type 0
Receives r = ((p : DhcpPacket) × (s : Reader) × (r ≡ ok (p, s)) × IsReceived p) ⊎ (r ≡ no_data)

-- On any bytes the reader settles.
read_packet_total : (s : Reader) → AllBytes s.curr → Receives (read_packet empty_packet s)
unfolding read_packet
read_packet_total s h =
    yield_bind (IsUint 1) Receives (read_u8 s) _ (inr refl) (read_u8-Yields s h) λ a1 s1 h1 k1.
      yield_bind (IsUint 1) Receives (read_u8 s1) _ (inr refl) (read_u8-Yields s1 h1) λ a2 s2 h2 k2.
        yield_bind (IsUint 1) Receives (read_u8 s2) _ (inr refl) (read_u8-Yields s2 h2)
          λ a3 s3 h3 k3.
            yield_bind (IsUint 1) Receives (read_u8 s3) _ (inr refl) (read_u8-Yields s3 h3)
              λ a4 s4 h4 k4.
                yield_bind (IsUint 4) Receives (read_u32 s4) _ (inr refl) (read_u32-Yields s4 h4)
                  λ a5 s5 h5 k5.
                    yield_bind (IsUint 2) Receives (read_u16 s5) _ (inr refl)
                      (read_u16-Yields s5 h5)
                      λ a6 s6 h6 k6.
                        yield_bind (IsUint 2) Receives (read_u16 s6) _ (inr refl)
                          (read_u16-Yields s6 h6)
                          λ a7 s7 h7 k7.
                            yield_bind (IsUint 4) Receives (read_u32 s7) _ (inr refl)
                              (read_u32-Yields s7 h7)
                              λ a8 s8 h8 k8.
                                yield_bind (IsUint 4) Receives (read_u32 s8) _ (inr refl)
                                  (read_u32-Yields s8 h8)
                                  λ a9 s9 h9 k9.
                                    yield_bind (IsUint 4) Receives (read_u32 s9) _ (inr refl)
                                      (read_u32-Yields s9 h9)
                                      λ a10 s10 h10 k10.
                                        yield_bind (IsUint 4) Receives (read_u32 s10) _ (inr refl)
                                          (read_u32-Yields s10 h10)
                                          λ a11 s11 h11 k11.
                                            yield_bind (IsArray 16) Receives (read_bytes 16 s11) _
                                              (inr refl) (read_bytes-Yields 16 s11 h11)
                                              λ a12 s12 h12 k12.
                                                yield_bind (IsArray 64) Receives (read_bytes 64 s12)
                                                  _ (inr refl) (read_bytes-Yields 64 s12 h12)
                                                  λ a13 s13 h13 k13.
                                                    yield_bind (IsArray 128) Receives
                                                      (read_bytes 128 s13) _ (inr refl)
                                                      (read_bytes-Yields 128 s13 h13)
                                                      λ a14 s14 h14 k14.
                                                        elim (read_options-Tabled no_options
                                                          s14.data_ s14.curr h14
                                                          no_options-IsTable) [
                                                            | inl (o, s15, e, t) ↦ rw e (
                                                              inl (
                                                              _,
                                                              _,
                                                              refl,
                                                              record {
                                                              opcode = k1;
                                                              hardware_type = k2;
                                                              hardware_address_length = k3;
                                                              number_of_hops = k4;
                                                              transaction_id = k5;
                                                              seconds_elapsed = k6;
                                                              flags = k7;
                                                              client_address = k8;
                                                              your_address = k9;
                                                              server_address = k10;
                                                              gateway_address = k11;
                                                              hardware_bytes = k12;
                                                              host_bytes = k13;
                                                              file_bytes = k14;
                                                              table = t;
                                                              },
                                                              ))
                                                            | inr e ↦ rw e (inr refl)
                                                          ]

-- On any bytes the constructor of a DHCP packet returns a packet whose numbers and arrays have their
-- sizes and whose options are a well-formed table, or throws that the data ended.
pub dhcp_packet_total :
    (bits : Bytes)
    → AllBytes bits
    → ((p : DhcpPacket) × (dhcp_packet bits ≡ ok p) × IsReceived p) ⊎ (dhcp_packet bits ≡ no_data)
unfolding dhcp_packet
dhcp_packet_total bits h = elim (read_packet_total (reader bits) h) [
  | inl (p, s, e, k) ↦ inl (p, rw e, k)
  | inr e ↦ inr (rw e)
]

pub received :
    (bits : Bytes) (p : DhcpPacket) → AllBytes bits → dhcp_packet bits ≡ ok p → IsReceived p
received bits p h e = elim (dhcp_packet_total bits h) [
  | inl (q, e', k) ↦ subst IsReceived (ok-injective (sym e' ∙ e)) k
  | inr e' ↦ absurd (cc)
]

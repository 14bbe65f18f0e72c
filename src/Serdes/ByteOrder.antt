-- ===== src/Serdes/ByteOrder.antt =====
-- common/byte_order.hpp: the object representation of an unsigned integer of `width` bytes on the
-- little-endian host, and its reversal.
use bootpd.Common.{
  ℕ, zero, suc, ◌+◌, ◌*◌, ◌/◌, ◌%◌, ◌^◌, ◌<◌, ◌≡◌, refl, ap, [], ◌∷◌, ◌++◌, reverse, arith, Bytes,
  length, length-reverse, ◌∙◌, All, All-append, subst, sym,
}
use mathlib.Core.List.{reverse-reverse, reverse-cons}
use native.Mathlib.Nat.{pow-suc, div-div-eq-div-mul}

pub data ByteOrder : Type 0 where
  network_byte_order host_byte_order : ByteOrder

-- The bytes of a value in the host's memory, lowest first.
unfoldable pub host_bytes : ℕ → ℕ → Bytes
host_bytes zero value = []
host_bytes (suc width) value = (value % 256) ∷ host_bytes width (value / 256)

-- The value that bytes in the host's memory stand for.
unfoldable pub host_value : Bytes → ℕ
host_value [] = 0
host_value (b ∷ bytes) = b + 256 * host_value bytes

-- details::reverse_bytes_inplace, by which host_to_net_inplace and net_to_host_inplace are defined.
unfoldable pub reverse_bytes_inplace : Bytes → Bytes
reverse_bytes_inplace bytes = reverse bytes

unfoldable pub host_to_net_inplace : Bytes → Bytes
unfolding reverse_bytes_inplace
host_to_net_inplace bytes = reverse_bytes_inplace bytes

unfoldable pub net_to_host_inplace : Bytes → Bytes
unfolding reverse_bytes_inplace
net_to_host_inplace bytes = reverse_bytes_inplace bytes

-- host_to_net and net_to_host of an unsigned integer of `width` bytes.
unfoldable pub host_to_net : ℕ → ℕ → ℕ
unfolding host_value host_bytes host_to_net_inplace
host_to_net width value = host_value (host_to_net_inplace (host_bytes width value))

unfoldable pub net_to_host : ℕ → ℕ → ℕ
unfolding host_value host_bytes net_to_host_inplace
net_to_host width value = host_value (net_to_host_inplace (host_bytes width value))

pub length-host_bytes : (width value : ℕ) → length (host_bytes width value) ≡ width
unfolding host_bytes
length-host_bytes zero value = refl
length-host_bytes (suc width) value = ap suc (length-host_bytes width (value / 256))

pub host_value-host_bytes :
    (width value : ℕ) → value < 256 ^ width → host_value (host_bytes width value) ≡ value
unfolding host_bytes host_value
host_value-host_bytes zero value h = omega arith
host_value-host_bytes (suc width) value h =
    omega (arith, host_value-host_bytes width (value / 256) (omega (arith, pow-suc 256 width)))

pub net_to_host_inplace-host_to_net_inplace :
    (bytes : Bytes) → net_to_host_inplace (host_to_net_inplace bytes) ≡ bytes
unfolding host_to_net_inplace net_to_host_inplace
net_to_host_inplace-host_to_net_inplace bytes = reverse-reverse bytes

-- The bytes on the wire, and the value that bytes on the wire stand for.
unfoldable pub to_wire : ByteOrder → ℕ → ℕ → Bytes
to_wire network_byte_order width value = host_to_net_inplace (host_bytes width value)
to_wire host_byte_order width value = host_bytes width value

unfoldable pub from_wire : ByteOrder → Bytes → ℕ
from_wire network_byte_order bytes = host_value (net_to_host_inplace bytes)
from_wire host_byte_order bytes = host_value bytes

pub length-to_wire :
    (order : ByteOrder) (width value : ℕ) → length (to_wire order width value) ≡ width
unfolding to_wire host_to_net_inplace
length-to_wire network_byte_order width value =
    length-reverse (host_bytes width value) ∙ length-host_bytes width value
length-to_wire host_byte_order width value = length-host_bytes width value

pub from_wire-to_wire :
    (order : ByteOrder) (width value : ℕ)
    → value < 256 ^ width
    → from_wire order (to_wire order width value) ≡ value
unfolding to_wire from_wire
from_wire-to_wire network_byte_order width value h =
    ap host_value (net_to_host_inplace-host_to_net_inplace (host_bytes width value))
    ∙ host_value-host_bytes width value h
from_wire-to_wire host_byte_order width value h = host_value-host_bytes width value h

-- The octets of a value with the most significant one first, and with the least significant one first.
abbrev pub big_endian : ℕ → ℕ → Bytes
big_endian zero value = []
big_endian (suc width) value = (value / 256 ^ width % 256) ∷ big_endian width value

abbrev pub octets : ByteOrder → ℕ → ℕ → Bytes
octets network_byte_order width value = big_endian width value
octets host_byte_order width value = reverse (big_endian width value)

big_endian-snoc :
    (width value : ℕ)
    → big_endian (suc width) value ≡ big_endian width (value / 256) ++ (value % 256) ∷ []
big_endian-snoc zero value = let e : value / 256 ^ 0 ≡ value = omega arith in rw e
big_endian-snoc (suc width) value =
    let power : 256 * 256 ^ width ≡ 256 ^ suc width = omega (arith, pow-suc 256 width) in
    let high : value / 256 / 256 ^ width ≡ value / 256 ^ suc width =
      div-div-eq-div-mul value 256 (256 ^ width) ∙ ap (◌/◌ value) power in
    rw (high, big_endian-snoc width value)

reverse-host_bytes : (width value : ℕ) → reverse (host_bytes width value) ≡ big_endian width value
unfolding host_bytes
reverse-host_bytes zero value = refl
reverse-host_bytes (suc width) value =
    reverse-cons (value % 256) (host_bytes width (value / 256))
    ∙ ap (λ bs. bs ++ (value % 256) ∷ []) (reverse-host_bytes width (value / 256))
    ∙ sym (big_endian-snoc width value)

-- A value is written as its octets, in network byte order the most significant one first, and in that
-- of the host the least significant one first; one that fits its width is read back from them.
pub to_wire-octets :
    (order : ByteOrder) (width value : ℕ)
    → value < 256 ^ width
    → (to_wire order width value ≡ octets order width value)
      × (from_wire order (octets order width value) ≡ value)
unfolding to_wire host_to_net_inplace reverse_bytes_inplace
to_wire-octets network_byte_order width value h =
    let e : to_wire network_byte_order width value ≡ big_endian width value =
      reverse-host_bytes width value in
    (
      e,
      subst (λ bs. from_wire network_byte_order bs ≡ value) e
          (from_wire-to_wire network_byte_order width value h),
    )
to_wire-octets host_byte_order width value h =
    let e : to_wire host_byte_order width value ≡ reverse (big_endian width value) =
      sym (reverse-reverse (host_bytes width value))
      ∙ ap reverse (reverse-host_bytes width value) in
    (
      e,
      subst (λ bs. from_wire host_byte_order bs ≡ value) e
          (from_wire-to_wire host_byte_order width value h),
    )

-- A single byte stands for itself in either order.
pub to_wire_byte : (order : ByteOrder) (b : ℕ) → b < 256 → to_wire order 1 b ≡ b ∷ []
unfolding to_wire host_to_net_inplace host_bytes
to_wire_byte network_byte_order b h = ground arith
to_wire_byte host_byte_order b h = ground arith

pub from_wire_byte : (order : ByteOrder) (b : ℕ) → from_wire order (b ∷ []) ≡ b
unfolding from_wire net_to_host_inplace host_value
from_wire_byte network_byte_order b = omega arith
from_wire_byte host_byte_order b = omega arith

-- host_to_net undoes net_to_host, and the other way round: they are one involution.
pub host_value_bound :
    (bytes : Bytes) → All (λ b. b < 256) bytes → host_value bytes < 256 ^ length bytes
unfolding host_value
host_value_bound [] h = omega arith
host_value_bound (b ∷ bytes) h =
    omega (arith, host_value_bound bytes h.1, pow-suc 256 (length bytes))

host_bytes-host_value :
    (bytes : Bytes)
    → All (λ b. b < 256) bytes
    → host_bytes (length bytes) (host_value bytes) ≡ bytes
unfolding host_value host_bytes
host_bytes-host_value [] h = refl
host_bytes-host_value (b ∷ bytes) h =
    let low : (b + 256 * host_value bytes) % 256 ≡ b = omega arith in
    let high : (b + 256 * host_value bytes) / 256 ≡ host_value bytes = omega arith in
    rw (low, high) (ap (◌∷◌ b) (host_bytes-host_value bytes h.1))

pub host_bytes-All : (width value : ℕ) → All (λ b. b < 256) (host_bytes width value)
unfolding host_bytes
host_bytes-All zero value = tt
host_bytes-All (suc width) value = (omega arith, host_bytes-All width (value / 256))

All-reverse : (P : ℕ → Type 0) (xs : Bytes) → All P xs → All P (reverse xs)
All-reverse P [] h = tt
All-reverse P (x ∷ xs) h =
    subst (All P) (sym (reverse-cons x xs))
      (All-append P (reverse xs) (x ∷ []) (All-reverse P xs h.1) (h.0, tt))

pub to_wire-All :
    (order : ByteOrder) (width value : ℕ) → All (λ b. b < 256) (to_wire order width value)
unfolding to_wire host_to_net_inplace reverse_bytes_inplace
to_wire-All network_byte_order width value = All-reverse _ _ (host_bytes-All width value)
to_wire-All host_byte_order width value = host_bytes-All width value

-- Bytes on the wire stand for a value of their width.
pub from_wire_bound :
    (bytes : Bytes)
    → All (λ b. b < 256) bytes
    → from_wire network_byte_order bytes < 256 ^ length bytes
unfolding from_wire net_to_host_inplace
from_wire_bound bytes h =
    subst (λ n. host_value (reverse bytes) < 256 ^ n) (length-reverse bytes)
      (host_value_bound (reverse bytes) (All-reverse _ bytes h))

pub net_to_host-bound : (width value : ℕ) → net_to_host width value < 256 ^ width
unfolding net_to_host net_to_host_inplace
net_to_host-bound width value =
    let bytes = host_bytes width value in
    let len : length (reverse bytes) ≡ width =
      length-reverse bytes ∙ length-host_bytes width value in
    subst (λ w. host_value (reverse bytes) < 256 ^ w) len
      (host_value_bound (reverse bytes) (All-reverse _ bytes (host_bytes-All width value)))

pub net_to_host-host_to_net :
    (width value : ℕ) → value < 256 ^ width → net_to_host width (host_to_net width value) ≡ value
unfolding net_to_host host_to_net net_to_host_inplace host_to_net_inplace
net_to_host-host_to_net width value h =
    let bytes = host_bytes width value in
    let len : length (reverse bytes) ≡ width =
      length-reverse bytes ∙ length-host_bytes width value in
    let back =
      host_bytes-host_value (reverse bytes) (All-reverse _ bytes (host_bytes-All width value)) in
    ap (λ bs. host_value (reverse bs))
      (subst (λ w. host_bytes w (host_value (reverse bytes)) ≡ reverse bytes) len back)
    ∙ ap host_value (reverse-reverse bytes)
    ∙ host_value-host_bytes width value h

pub host_to_net-bound : (width value : ℕ) → host_to_net width value < 256 ^ width
unfolding host_to_net host_to_net_inplace
host_to_net-bound width value =
    let bytes = host_bytes width value in
    let len : length (reverse bytes) ≡ width =
      length-reverse bytes ∙ length-host_bytes width value in
    subst (λ w. host_value (reverse bytes) < 256 ^ w) len
      (host_value_bound (reverse bytes) (All-reverse _ bytes (host_bytes-All width value)))

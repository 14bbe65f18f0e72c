-- ===== src/Dhcp/Options/Table.antt =====
-- The well-formed tables of options, and their wire format.
use bootpd.Common.{
  ℕ, zero, suc, ◌+◌, ◌-◌, ◌^◌, ◌≤◌, ◌<◌, ◌≡◌, refl, ap, ◌∙◌, ◌⊎◌, [], ◌∷◌, ◌++◌, Bytes, length,
  get_elem?, set, take, replicate, All, length-set, Option, none, some, ok, fault, lt→ltb, arith,
}
use bootpd.Serdes.ByteOrder.{network_byte_order, to_wire}
use bootpd.Serdes.Writer.Laws.{AllBytes}
use bootpd.Dhcp.Options.{
  Values, DhcpOptions, no_options, slot, value_at, store_at, size_byte, copy_values,
  dhcp_magic_cookie,
}

-- A slot is empty, or a length byte and so many bytes.
abbrev pub IsSlot : Option Bytes → Type 0
IsSlot none = Unit {0}
IsSlot (some []) = ⊥
IsSlot (some (n ∷ bytes)) = (length bytes ≡ n) × (n < 256) × AllBytes bytes

-- The table has its 254 slots, and each is well formed.
abbrev pub IsTable : DhcpOptions → Type 0
IsTable o = (length o.values ≡ 254) × All IsSlot o.values

abbrev pub values_wire : ℕ → Values → Bytes
values_wire i [] = []
values_wire i (none ∷ values) = values_wire (i + 1) values
values_wire i (some bytes ∷ values) = (i + 1) ∷ (bytes ++ values_wire (i + 1) values)

-- RFC 2132: the cookie, each option that is there as code, length and bytes in the order of the codes,
-- and the end mark.
abbrev pub options_wire : DhcpOptions → Bytes
options_wire o =
    to_wire network_byte_order 4 dhcp_magic_cookie ++ (values_wire 0 o.values ++ 255 ∷ [])

pub slot_pred : (code : ℕ) → 0 < code → code ≤ 2 ^ 32 → slot code ≡ code - 1
slot_pred code h k = omega arith

pub All-set :
    (values : Values) (i : ℕ) (v : Option Bytes)
    → All IsSlot values
    → IsSlot v
    → All IsSlot (set values i v)
All-set [] i v h hv = tt
All-set (x ∷ values) zero v h hv = (hv, h.1)
All-set (x ∷ values) (suc i) v h hv = (h.0, All-set values i v h.1 hv)

-- Storing a well-formed slot at a code from 1 to 254 is defined, and keeps the table well formed.
pub store_at_lem :
    (o : DhcpOptions) (code : ℕ) (bytes : Bytes)
    → IsTable o
    → 0 < code
    → code < 255
    → IsSlot (some bytes)
    → (store_at o (slot code) bytes
        ≡ ok (record o { values = set o.values (code - 1) (some bytes) }))
      × IsTable (record o { values = set o.values (code - 1) (some bytes) })
store_at_lem o code bytes h lo hi hb = (
  rw (slot_pred code lo (omega arith), lt→ltb (code - 1) (length o.values) (omega (arith, h.0))),
  (
    length-set o.values (code - 1) (some bytes) ∙ h.0,
    All-set o.values (code - 1) (some bytes) h.1 hb,
  ),
)

pub get_elem?-All :
    (values : Values) (i : ℕ)
    → All IsSlot values
    → i < length values
    → (v : Option Bytes) × (get_elem? values i ≡ some v) × IsSlot v
get_elem?-All [] i h lt = absurd (omega arith)
get_elem?-All (x ∷ values) zero h lt = (x, refl, h.0)
get_elem?-All (x ∷ values) (suc i) h lt = get_elem?-All values i h.1 (omega arith)

pub get_elem?-beyond : (values : Values) (i : ℕ) → length values ≤ i → get_elem? values i ≡ none
get_elem?-beyond [] i h = refl
get_elem?-beyond (x ∷ values) zero h = absurd (omega arith)
get_elem?-beyond (x ∷ values) (suc i) h = get_elem?-beyond values i (omega arith)

-- Reading a slot at a code from 1 to 254 is defined.
pub value_at_lem :
    (o : DhcpOptions) (code : ℕ)
    → IsTable o
    → 0 < code
    → code < 255
    → (v : Option Bytes) × (value_at o.values (slot code) ≡ ok v) × IsSlot v
value_at_lem o code h lo hi =
    let (v, e, hv) = get_elem?-All o.values (code - 1) h.1 (omega (arith, h.0)) in
    (v, rw (slot_pred code lo (omega arith), e), hv)

-- At code 0, and at every code from 255, it reads beyond the array.
pub value_at_fault :
    (o : DhcpOptions) (code : ℕ)
    → IsTable o
    → (code ≡ 0) ⊎ (255 ≤ code)
    → code < 2 ^ 32
    → value_at o.values (slot code) ≡ fault
value_at_fault o code h out hi = rw (get_elem?-beyond o.values (slot code) (omega (arith, h.0)))

no_options-All : (n : ℕ) → All IsSlot (replicate n none)
no_options-All zero = tt
no_options-All (suc n) = (tt, no_options-All n)

pub no_options-IsTable : IsTable no_options
no_options-IsTable = (refl, no_options-All 254)

pub slot_take : (v : Bytes) → IsSlot (some v) → take (size_byte v + 1) v ≡ v
slot_take [] h = absurd h
slot_take (n ∷ bytes) h =
    let e : n + 1 ≡ suc n = omega arith in rw e (ap (◌∷◌ n) (whole bytes n h.0))
  where
    whole : (xs : Bytes) (k : ℕ) → length xs ≡ k → take k xs ≡ xs
    whole [] zero e = refl
    whole [] (suc k) e = refl
    whole (x ∷ xs) zero e = absurd (omega arith)
    whole (x ∷ xs) (suc k) e = ap (◌∷◌ x) (whole xs k (omega arith))

-- A copy of a well-formed table has the same slots.
pub copy_values_lem : (values : Values) → All IsSlot values → copy_values values ≡ values
unfolding copy_values
copy_values_lem [] h = refl
copy_values_lem (none ∷ values) h = ap (◌∷◌ none) (copy_values_lem values h.1)
copy_values_lem (some v ∷ values) h =
    rw (slot_take v h.0) (ap (◌∷◌ (some v)) (copy_values_lem values h.1))

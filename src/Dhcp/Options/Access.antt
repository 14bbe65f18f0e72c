-- ===== src/Dhcp/Options/Access.antt =====
-- dhcp_options_v4: setting an option and asking for it, and the options copied from another table.
use bootpd.Common.{
  ℕ, ◌-◌, ◌%◌, ◌^◌, ◌≤◌, ◌<◌, ◌≡◌, refl, ◌⊎◌, inl, inr, [], ◌∷◌, Bytes, get_elem?,
  get_elem?-set_self, set, Option, none, some, ok, fault, Bool, true, false, ltb-false, arith,
}
use bootpd.Serdes.Reader.Laws.{read_u8_cons}
use bootpd.Serdes.Writer.{writer, write_u8}
use bootpd.Serdes.Writer.Laws.{write_u8-Writes}
use bootpd.Dhcp.Options.{
  DhcpOptions, set_value, value_u8, assign, assign_value, message_type, set_message_type,
}
use bootpd.Dhcp.Options.Table.{
  IsSlot, IsTable, store_at_lem, value_at_lem, value_at_fault, slot_take, get_elem?-All, slot_pred,
}

-- A table whose option `code` is the one byte `b`.
abbrev pub with_byte : DhcpOptions → ℕ → ℕ → DhcpOptions
with_byte o code b = record o { values = set o.values (code - 1) (some (1 ∷ b ∷ [])) }

pub set_value_byte :
    (o : DhcpOptions) (code b : ℕ)
    → IsTable o
    → 0 < code
    → code < 255
    → b < 256
    → (set_value 1 code (write_u8 b) o ≡ ok (true, with_byte o code b))
      × IsTable (with_byte o code b)
unfolding set_value
set_value_byte o code b h lo hi hb =
    let (e, t) = store_at_lem o code (1 ∷ b ∷ []) h lo hi (refl, omega arith, (hb, tt)) in
    (rw (write_u8-Writes b hb (writer (0 ∷ []))) (rw e refl), t)

pub value_u8_set :
    (o : DhcpOptions) (code b : ℕ)
    → IsTable o
    → 0 < code
    → code < 255
    → value_u8 code (with_byte o code b) ≡ ok (some b)
unfolding value_u8
value_u8_set o code b h lo hi =
    rw (ltb-false code 1 (omega arith), ltb-false 254 code (omega arith))
      (rw (slot_pred code lo (omega arith)) (
        rw (get_elem?-set_self o.values (code - 1) (some (1 ∷ b ∷ [])) (omega (arith, h.0)))
          (rw (read_u8_cons b (b ∷ []) []))))

-- Setting the message type of a well-formed table succeeds and keeps it well formed with its cookie,
-- and the message type is then the one that was set.
pub set_message_type-message_type :
    (o : DhcpOptions) (t : ℕ)
    → IsTable o
    → t < 256
    → (o' : DhcpOptions) × (set_message_type t o ≡ ok o')
      × (message_type o' ≡ ok (some t))
      × IsTable o'
      × (o'.cookie ≡ o.cookie)
unfolding set_message_type message_type
set_message_type-message_type o t h ht =
    let (e, table) = set_value_byte o 0x35 t h (omega arith) (omega arith) ht in
    (with_byte o 0x35 t, rw e, value_u8_set o 0x35 t h (omega arith) (omega arith), table, refl)

-- A code from 1 to 254 is an octet.
octet : (code : ℕ) → code < 255 → code % 2 ^ 8 ≡ code
octet code h = omega arith

-- Copying an option at a code from 1 to 254 between well-formed tables is defined: the slot becomes the
-- other table's, unless that is empty, and the result is well formed.
pub assign_lem :
    (code : ℕ) (from o : DhcpOptions)
    → IsTable from
    → IsTable o
    → 0 < code
    → code < 255
    → (done : Bool) × (o' : DhcpOptions) × (assign code from o ≡ ok (done, o'))
      × IsTable o'
      × (o'.cookie ≡ o.cookie)
unfolding assign
assign_lem code from o hf h lo hi =
    let (v, e, hv) = value_at_lem from code hf lo hi in rw (octet code hi) (rw e (branch v hv))
  where
    branch :
        (v : Option Bytes)
        → IsSlot v
        → (done : Bool) × (o' : DhcpOptions) × (assign_value code o v ≡ ok (done, o'))
          × IsTable o'
          × (o'.cookie ≡ o.cookie)
    branch none hv = (false, o, refl, h, refl)
    branch (some v) hv =
        let (e, t) = store_at_lem o code v h lo hi hv in
        (
          true,
          record o { values = set o.values (code - 1) (some v) },
          rw (slot_take v hv) (rw e refl),
          t,
          refl,
        )

-- From a well-formed table, copying an option at code 0 or 255, or at one that is cut to them, reads
-- beyond the table.
pub assign_fault :
    (code : ℕ) (from o : DhcpOptions)
    → IsTable from
    → (code % 2 ^ 8 ≡ 0) ⊎ (code % 2 ^ 8 ≡ 255)
    → assign code from o ≡ fault
unfolding assign
assign_fault code from o h out =
    rw (value_at_fault from (code % 2 ^ 8) h (beyond out) (omega arith))
  where
    beyond : (code % 2 ^ 8 ≡ 0) ⊎ (code % 2 ^ 8 ≡ 255) → (code % 2 ^ 8 ≡ 0) ⊎ (255 ≤ code % 2 ^ 8)
    beyond (inl e) = inl e
    beyond (inr e) = inr (omega arith)

-- What `assign` makes of a slot `v` of the other table.
abbrev assigned : DhcpOptions → ℕ → Option Bytes → Bool × DhcpOptions
assigned o code none = (false, o)
assigned o code (some bytes) = (true, record o { values = set o.values (code - 1) (some bytes) })

assigned_value :
    (o : DhcpOptions) (code : ℕ) (v : Option Bytes)
    → IsTable o
    → IsSlot v
    → 0 < code
    → code < 255
    → (assign_value code o v ≡ ok (assigned o code v)) × IsTable (assigned o code v).1
assigned_value o code none h hv lo hi = (refl, h)
assigned_value o code (some v) h hv lo hi =
    let (e, t) = store_at_lem o code v h lo hi hv in (rw (slot_take v hv) (rw e), t)

-- Copying an option at a code from 1 to 254 between well-formed tables is defined: where the other
-- table has the option its slot is overwritten by the other's, and else the table is left as it is;
-- the result is well formed.
assign-assigned :
    (code : ℕ) (from o : DhcpOptions)
    → IsTable from
    → IsTable o
    → 0 < code
    → code < 255
    → (v : Option Bytes) × (get_elem? from.values (code - 1) ≡ some v)
      × (assign code from o ≡ ok (assigned o code v))
      × IsTable (assigned o code v).1
unfolding assign
assign-assigned code from o hf h lo hi =
    let (v, g, hv) = get_elem?-All from.values (code - 1) hf.1 (omega (arith, hf.0)) in
    let (e, t) = assigned_value o code v h hv lo hi in
    (v, g, rw (octet code hi) (rw (slot_pred code lo (omega arith)) (rw g e)), t)

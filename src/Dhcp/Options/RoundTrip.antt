-- ===== src/Dhcp/Options/RoundTrip.antt =====
-- dhcp_options_v4: what the writer writes is the wire format, and the reader reads the table back.
use bootpd.Common.{
  ℕ, zero, suc, ◌+◌, ◌-◌, ◌%◌, ◌≤◌, ◌<◌, ◌≡◌, refl, sym, ap, subst, [], ◌∷◌, ◌++◌, Bytes, length,
  length-append, set-append, take, replicate, append_assoc, All, lt→ltb, ltb-false, ==-false, min,
  Option, none, some, ok, arith,
}
use bootpd.Serdes.ByteOrder.{network_byte_order, to_wire, length-to_wire}
use bootpd.Serdes.Reader.{read_u32, read_bytes}
use bootpd.Serdes.Reader.Laws.{read_u8_cons, read_bytes-Reads, read_uint-Reads}
use bootpd.Serdes.Writer.{write_u8, write_u32, write_bytes}
use bootpd.Serdes.Writer.Laws.{
  Writes, AllBytes, nothing-Writes, then-Writes, write_uint-Writes, write_u8-Writes,
  write_bytes-Writes,
}
use bootpd.Dhcp.Options.{
  Values, DhcpOptions, no_options, slot, store_at, size_byte, options_loop, read_options,
  write_values, write_options, values_size, serdes_size_hint, dhcp_magic_cookie,
}
use bootpd.Dhcp.Options.Table.{IsSlot, IsTable, values_wire, options_wire, slot_take, slot_pred}

slot_bytes : (v : Bytes) → IsSlot (some v) → AllBytes v
slot_bytes [] h = absurd h
slot_bytes (n ∷ bytes) h = (h.1, h.2)

write_values-Writes :
    (i : ℕ) (values : Values)
    → i + length values ≤ 254
    → All IsSlot values
    → Writes (write_values i values) (values_wire i values)
unfolding write_values
write_values-Writes i [] h hs = nothing-Writes
write_values-Writes i (none ∷ values) h hs = write_values-Writes (i + 1) values (omega arith) hs.1
write_values-Writes i (some v ∷ values) h hs =
    let code : (i + 1) % 256 ≡ i + 1 = omega arith in
    rw (code, slot_take v hs.0)
      (then-Writes (write_u8 (i + 1)) _ ((i + 1) ∷ []) (v ++ values_wire (i + 1) values)
        (write_u8-Writes (i + 1) (omega arith))
        (then-Writes (write_bytes v) (write_values (i + 1) values) v (values_wire (i + 1) values)
          (write_bytes-Writes v (slot_bytes v hs.0))
          (write_values-Writes (i + 1) values (omega arith) hs.1)))

take_whole : (values : Values) (n : ℕ) → length values ≤ n → take n values ≡ values
take_whole [] zero h = refl
take_whole [] (suc n) h = refl
take_whole (x ∷ values) zero h = absurd (omega arith)
take_whole (x ∷ values) (suc n) h = ap (◌∷◌ x) (take_whole values n (omega arith))

pub write_options-Writes : (o : DhcpOptions) → IsTable o → Writes (write_options o) (options_wire o)
unfolding write_options write_u32
write_options-Writes o h =
    rw (take_whole o.values (min (length o.values) 254) (omega (arith, h.0))) (
      then-Writes (write_u32 dhcp_magic_cookie) _ (to_wire network_byte_order 4 dhcp_magic_cookie) _
        (write_uint-Writes network_byte_order 4 dhcp_magic_cookie)
        (then-Writes (write_values 0 o.values) (write_u8 255) (values_wire 0 o.values) (255 ∷ [])
          (write_values-Writes 0 o.values (omega (arith, h.0)) h.1)
          (write_u8-Writes 255 (omega arith))))

size_byte-length : (v : Bytes) → IsSlot (some v) → length v ≡ size_byte v + 1
size_byte-length [] h = absurd h
size_byte-length (n ∷ bytes) h = omega (arith, h.0)

values_size-length :
    (i : ℕ) (values : Values)
    → All IsSlot values
    → length (values_wire i values) ≡ values_size values
unfolding values_size
values_size-length i [] h = refl
values_size-length i (none ∷ values) h = values_size-length (i + 1) values h.1
values_size-length i (some v ∷ values) h = omega (
  arith,
  length-append v (values_wire (i + 1) values),
  values_size-length (i + 1) values h.1,
  size_byte-length v h.0,
)

-- The size hint is the exact number of bytes of the wire format.
pub serdes_size_hint-options_wire :
    (o : DhcpOptions) → IsTable o → serdes_size_hint o ≡ length (options_wire o)
unfolding serdes_size_hint
serdes_size_hint-options_wire o h = omega (
  arith,
  length-append (to_wire network_byte_order 4 dhcp_magic_cookie)
      (values_wire 0 o.values ++ 255 ∷ []),
  length-to_wire network_byte_order 4 dhcp_magic_cookie,
  length-append (values_wire 0 o.values) (255 ∷ []),
  values_size-length 0 o.values h.1,
)

snoc :
    (front : Values) (x : Option Bytes) (rest : Values)
    → front ++ x ∷ rest ≡ (front ++ x ∷ []) ++ rest
snoc [] x rest = refl
snoc (y ∷ front) x rest = ap (◌∷◌ y) (snoc front x rest)

store_front :
    (front rest : Values) (cookie code : ℕ) (v : Bytes)
    → code ≡ length front + 1
    → length front < 254
    → store_at (record { cookie = cookie; values = front ++ none ∷ rest }) (slot code) v
      ≡ ok (record { cookie = cookie; values = front ++ some v ∷ rest })
store_front front rest cookie code v e h = rw (slot_pred code (omega arith) (omega arith)) (
    let at : code - 1 ≡ length front = omega arith in
    rw (
      at,
      lt→ltb (length front) (length (front ++ none ∷ rest))
          (omega (arith, length-append front (none ∷ rest))),
      set-append front rest (length front) none (some v) refl,
    ))

assoc₄ : (a b c d : Bytes) → ((a ++ b) ++ c) ++ d ≡ a ++ ((b ++ c) ++ d)
assoc₄ [] b c d = refl
assoc₄ (x ∷ a) b c d = ap (◌∷◌ x) (assoc₄ a b c d)

read_bytes_n :
    (n : ℕ) (bs bits rest : Bytes)
    → length bs ≡ n
    → read_bytes n (record { data_ = bits; curr = bs ++ rest })
      ≡ ok (bs, record { data_ = bits; curr = rest })
read_bytes_n n bs bits rest e = rw (sym e) (read_bytes-Reads bs bits rest)

-- The reader's loop over what is left of a table, `front` being what it has stored.
options_loop-Reads :
    (values front : Values) (i cookie : ℕ) (bits rest : Bytes) (fuel : ℕ)
    → i ≡ length front
    → i + length values ≡ 254
    → All IsSlot values
    → length (values_wire i values) < fuel
    → options_loop fuel
        (record { cookie = cookie; values = front ++ replicate (length values) none })
        (record { data_ = bits; curr = (values_wire i values ++ 255 ∷ []) ++ rest })
      ≡ ok (
        record { cookie = cookie; values = front ++ values },
        record { data_ = bits; curr = rest },
      )
unfolding options_loop
options_loop-Reads values front i cookie bits rest zero hi hl hs hf = absurd (omega arith)
options_loop-Reads [] front i cookie bits rest (suc fuel) hi hl hs hf =
    rw (read_u8_cons 255 bits rest)
options_loop-Reads (none ∷ values) front i cookie bits rest (suc fuel) hi hl hs hf =
    rw (snoc front none (replicate (length values) none), snoc front none values)
      (options_loop-Reads values (front ++ none ∷ []) (i + 1) cookie bits rest (suc fuel)
        (omega (arith, length-append front (none ∷ []))) (omega arith) hs.1 hf)
options_loop-Reads (some [] ∷ values) front i cookie bits rest (suc fuel) hi hl hs hf =
    absurd (hs.0)
options_loop-Reads (some (n ∷ bytes) ∷ values) front i cookie bits rest (suc fuel) hi hl hs hf =
    let flat : ((bytes ++ values_wire (i + 1) values) ++ 255 ∷ []) ++ rest
        ≡ bytes ++ ((values_wire (i + 1) values ++ 255 ∷ []) ++ rest) =
      assoc₄ bytes _ (255 ∷ []) rest in
    rw
      (read_u8_cons (i + 1) bits
        (n ∷ (((bytes ++ values_wire (i + 1) values) ++ 255 ∷ []) ++ rest)))
      (rw (==-false (i + 1) 0 (omega arith), ==-false (i + 1) 255 (omega arith))
        (rw (read_u8_cons n bits (((bytes ++ values_wire (i + 1) values) ++ 255 ∷ []) ++ rest)) (
          rw
            (
              flat,
              read_bytes_n n bytes bits ((values_wire (i + 1) values ++ 255 ∷ []) ++ rest) (hs.0.0),
            )
            (rw
              (store_front front (replicate (length values) none) cookie (i + 1) (n ∷ bytes)
                (omega arith) (omega arith))
              (rw
                (
                  snoc front (some (n ∷ bytes)) (replicate (length values) none),
                  snoc front (some (n ∷ bytes)) values,
                )
                (options_loop-Reads values (front ++ some (n ∷ bytes) ∷ []) (i + 1) cookie bits rest
                  fuel (omega (arith, length-append front (some (n ∷ bytes) ∷ []))) (omega arith)
                  hs.1 (omega (arith, length-append bytes (values_wire (i + 1) values)))))))))

-- The wire format of a well-formed table of options, read into a fresh packet, is the table with the
-- cookie of DHCP, and the cursor stands behind it.
pub read_options-Reads :
    (o : DhcpOptions) (bits rest : Bytes)
    → IsTable o
    → read_options no_options (record { data_ = bits; curr = options_wire o ++ rest })
      ≡ ok (
        record { cookie = dhcp_magic_cookie; values = o.values },
        record { data_ = bits; curr = rest },
      )
unfolding read_options read_u32
read_options-Reads o bits rest h =
    let long : 4 ≤ length (options_wire o ++ rest) = omega (
      arith,
      length-append (options_wire o) rest,
      length-append (to_wire network_byte_order 4 dhcp_magic_cookie)
          (values_wire 0 o.values ++ 255 ∷ []),
      length-to_wire network_byte_order 4 dhcp_magic_cookie,
    ) in
    let split : options_wire o ++ rest
        ≡ to_wire network_byte_order 4 dhcp_magic_cookie
          ++ ((values_wire 0 o.values ++ 255 ∷ []) ++ rest) =
      append_assoc (to_wire network_byte_order 4 dhcp_magic_cookie)
        (values_wire 0 o.values ++ 255 ∷ []) rest in
    rw (ltb-false (length (options_wire o ++ rest)) 4 long) (
      rw
        (
          split,
          read_uint-Reads network_byte_order 4 dhcp_magic_cookie (omega arith) bits
              ((values_wire 0 o.values ++ 255 ∷ []) ++ rest),
        )
        (loop h.0))
  where
    loop :
        length o.values ≡ 254
        → options_loop
            (suc (length ((values_wire 0 o.values ++ 255 ∷ []) ++ rest)))
            no_options
            (record { data_ = bits; curr = (values_wire 0 o.values ++ 255 ∷ []) ++ rest })
          ≡ ok (
            record { cookie = dhcp_magic_cookie; values = o.values },
            record { data_ = bits; curr = rest },
          )
    loop e =
        subst
          (λ n.
            options_loop (suc (length ((values_wire 0 o.values ++ 255 ∷ []) ++ rest)))
              (record { cookie = dhcp_magic_cookie; values = replicate n none })
              (record { data_ = bits; curr = (values_wire 0 o.values ++ 255 ∷ []) ++ rest })
            ≡ ok (
              record { cookie = dhcp_magic_cookie; values = o.values },
              record { data_ = bits; curr = rest },
            ))
          e
          (options_loop-Reads o.values [] 0 dhcp_magic_cookie bits rest _ refl (omega arith) h.1 (
            omega (
              arith,
              length-append (values_wire 0 o.values ++ 255 ∷ []) rest,
              length-append (values_wire 0 o.values) (255 ∷ []),
            )))

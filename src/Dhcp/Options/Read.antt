-- ===== src/Dhcp/Options/Read.antt =====
-- dhcp_options_v4::serdes of a reader on any bytes: no index leaves the table, and the loop ends.
use bootpd.Common.{
  ℕ, zero, suc, ◌≤◌, ◌<◌, ◌≡◌, ◌≢◌, refl, ◌⊎◌, inl, inr, [], ◌∷◌, Bytes, length, length-take,
  length-drop, take, drop, All-take, All-drop, Bool-cases, ◌==◌, ltb, not, Result, ok, ◌>>=◌, arith,
  Bool, true, false, if◌then◌else◌,
}
use native.Mathlib.Decide.{dec_le}
use bootpd.Serdes.Reader.{Reader, read_u8, read_u32, read_bytes}
use bootpd.Serdes.Reader.Laws.{
  read_u8_nil, read_u8_cons, read_bytes-take, read_bytes_short, read_uint-take,
}
use bootpd.Serdes.ByteOrder.{network_byte_order, from_wire}
use bootpd.Serdes.Reader.Total.{no_data}
use bootpd.Serdes.Writer.Laws.{AllBytes}
use bootpd.Dhcp.Options.{DhcpOptions, options_loop, read_options, store_at, slot, dhcp_magic_cookie}
use bootpd.Dhcp.Options.Table.{IsTable, store_at_lem}

-- A well-formed table with the cursor behind it, or the exception of a read past the end.
abbrev pub Tabled : Result (DhcpOptions × Reader) → Type 0
Tabled r = ((o : DhcpOptions) × (s : Reader) × (r ≡ ok (o, s)) × IsTable o) ⊎ (r ≡ no_data)

not-eq : (a b : ℕ) → (a == b) ≡ false → a ≢ b
not-eq a b h = ground arith

options_loop-Tabled :
    (fuel : ℕ) (o : DhcpOptions) (bits curr : Bytes)
    → length curr < fuel
    → AllBytes curr
    → IsTable o
    → Tabled (options_loop fuel o (record { data_ = bits; curr = curr }))
unfolding options_loop
options_loop-Tabled zero o bits curr hf hb ho = absurd (omega arith)
options_loop-Tabled (suc fuel) o bits [] hf hb ho = rw (read_u8_nil bits) (inr refl)
options_loop-Tabled (suc fuel) o bits (c ∷ curr) hf hb ho =
    rw (read_u8_cons c bits curr) (elim (Bool-cases (c == 0)) [
      | inl e ↦ rw e (options_loop-Tabled fuel o bits curr (omega arith) hb.1 ho)
      | inr e ↦ rw e (elim (Bool-cases (c == 255)) [
        | inl f ↦ rw f (inl (o, _, refl, ho))
        | inr f ↦ rw f (
            option curr hb.1 (omega arith) (not-eq c 0 e) (not-eq c 255 f)
              (λ curr' o' h' b' t'. options_loop-Tabled fuel o' bits curr' h' b' t'))
      ])
    ])
  where
    option :
        (rest : Bytes)
        → AllBytes rest
        → length rest < fuel
        → c ≢ 0
        → c ≢ 255
        → ((curr' : Bytes) (o' : DhcpOptions)
            → length curr' < fuel
            → AllBytes curr'
            → IsTable o'
            → Tabled (options_loop fuel o' (record { data_ = bits; curr = curr' })))
        → Tabled (
            read_u8 (record { data_ = bits; curr = rest }) >>= λ (size, s₂).
            read_bytes size s₂ >>= λ (bytes, s₃).
            store_at o (slot c) (size ∷ bytes) >>= λ o'. options_loop fuel o' s₃)
    option [] rb lt n0 n255 ih = rw (read_u8_nil bits) (inr refl)
    option (n ∷ rest) rb lt n0 n255 ih =
        rw (read_u8_cons n bits rest) (elim (dec_le n (length rest)) [
          | yes fits ↦
              let (e, t) =
                store_at_lem o c (n ∷ take n rest) ho (omega arith) (omega (arith, hb.0))
                  (omega (arith, length-take n rest), rb.0, All-take (λ b. b < 256) n rest rb.1) in
              rw (read_bytes-take n bits rest fits) (
                rw e (
                  ih (drop n rest) _ (omega (arith, length-drop n rest))
                    (All-drop (λ b. b < 256) n rest rb.1) t))
          | no short ↦ rw (read_bytes_short n bits rest (omega arith)) (inr refl)
        ])

-- On any bytes and into any well-formed table the reader of options returns a well-formed table or
-- throws that the data ended; in neither case does it write beyond the slots or loop for ever.
pub read_options-Tabled :
    (o : DhcpOptions) (bits curr : Bytes)
    → AllBytes curr
    → IsTable o
    → Tabled (read_options o (record { data_ = bits; curr = curr }))
unfolding read_options read_u32
read_options-Tabled o bits curr hb ho = elim (Bool-cases (ltb (length curr) 4)) [
  | inl e ↦ rw e (inl (o, _, refl, ho))
  | inr e ↦ rw e (
      rw (read_uint-take network_byte_order 4 bits curr (long (length curr) e)) (
        choose (not (cookie == dhcp_magic_cookie)) (
          options_loop-Tabled (suc (length (drop 4 curr))) (record o { cookie = cookie }) bits
            (drop 4 curr) (omega arith) (All-drop (λ b. b < 256) 4 curr hb) ho)))
]
  where
    cookie : ℕ
    cookie = from_wire network_byte_order (take 4 curr)

    long : (n : ℕ) → ltb n 4 ≡ false → 4 ≤ n
    long n h = ground arith

    choose :
        (b : Bool) {r : Result (DhcpOptions × Reader)}
        → Tabled r
        → Tabled (
            if b
            then ok (record o { cookie = cookie }, record { data_ = bits; curr = drop 4 curr })
            else r)
    choose true h = inl (_, _, refl, ho)
    choose false h = h

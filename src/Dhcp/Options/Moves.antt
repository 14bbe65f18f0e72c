-- ===== src/Dhcp/Options/Moves.antt =====
-- The assignments, the move constructor and swap of bootpd/dhcp_options_v4.hpp. Each gives back both
-- objects, as what was moved from is left in some state.
use bootpd.Common.{ℕ, zero, suc, ◌≡◌, refl, replicate, none, Result, ok, stuck, ◌>>=◌}
use bootpd.Dhcp.Options.{DhcpOptions, copy}

-- operator = of another object: what was there is destroyed, and the copy made in its place.
abbrev pub copy_assign : DhcpOptions → DhcpOptions → DhcpOptions
copy_assign this p = copy p

-- The move constructor gives m_cookie no value: `garbage` is what it holds.
abbrev pub move_construct : ℕ → DhcpOptions → DhcpOptions × DhcpOptions
move_construct garbage prev =
    (record { cookie = garbage; values = prev.values }, record prev { values = replicate 254 none })

abbrev pub swap : DhcpOptions → DhcpOptions → DhcpOptions × DhcpOptions
swap this other = (record this { values = other.values }, record other { values = this.values })

-- The move assignment. std::swap has a move construction and two move assignments, which are this
-- function again: `fuel` is how deep the calls may go.
unfoldable pub move_assign : ℕ → ℕ → DhcpOptions → DhcpOptions → Result (DhcpOptions × DhcpOptions)
move_assign zero garbage this prev = stuck
move_assign (suc fuel) garbage this prev =
    let (tmp, prev') = move_construct garbage prev in
    let (t, tmp') = move_construct garbage tmp in
    move_assign fuel garbage tmp' this >>= λ first.
    move_assign fuel garbage (first.1) t >>= λ second. ok (second.0, prev')

-- However deep the calls of the move assignment may go, it does not return.
move_assign-stuck :
    (fuel garbage : ℕ) (this prev : DhcpOptions) → move_assign fuel garbage this prev ≡ stuck
unfolding move_assign
move_assign-stuck zero garbage this prev = refl
move_assign-stuck (suc fuel) garbage this prev =
    rw
      (move_assign-stuck fuel garbage (move_construct garbage (move_construct garbage prev).0).1
        this)
      refl

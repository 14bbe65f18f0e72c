-- ===== src/Program/Shutdown.antt =====
-- main: what was started is asked to stop, and joined.
use bootpd.Common.{ℕ, ◌≡◌, ◌↔◌, Bool, List, [], ◌∷◌, Result, ok}
use bootpd.Program.{
  Thread, dhcp_incoming, dhcp_outgoing, tftp_incoming, tftp_outgoing, Event, started, asked, joined,
  running, and_after, leaving, start, dhcp_cease, tftp_cease, wait,
}

-- Both servers were started, and ceased in the reverse order, with every thread asked to stop and then
-- joined.
abbrev pub full_run : List Event
full_run =
    started dhcp_incoming
    ∷ started dhcp_outgoing
    ∷ started tftp_incoming
    ∷ started tftp_outgoing
    ∷ asked tftp_incoming
    ∷ joined tftp_incoming
    ∷ asked tftp_outgoing
    ∷ joined tftp_outgoing
    ∷ asked dhcp_incoming
    ∷ asked dhcp_outgoing
    ∷ joined dhcp_incoming
    ∷ joined dhcp_outgoing
    ∷ []

-- The program ends with an exit code and without threads, and with 0 exactly after a full run.
abbrev pub Ends : Result ℕ × List Event → Type 0
Ends r = (code : ℕ) × (r.0 ≡ ok code) × (running r.1 [] ≡ []) × ((code ≡ 0) ↔ (r.1 ≡ full_run))

-- Where the servers were started as far as their sockets let them.
abbrev after_starts : Result (Unit {0}) → Result (Unit {0}) → Bool → Result (Unit {0}) × List Event
after_starts a b pressed =
    and_after
      (and_after (start dhcp_incoming dhcp_outgoing a []) (start tftp_incoming tftp_outgoing b))
      (wait pressed)

abbrev ceased : (Thread → Bool) → Result (Unit {0}) × List Event → Result (Unit {0}) × List Event
ceased ends r = leaving (dhcp_cease ends) (leaving (tftp_cease ends) r)

-- Which of the threads end.
abbrev pick : Bool → Bool → Bool → Bool → Thread → Bool
pick a b c d dhcp_incoming = a
pick a b c d dhcp_outgoing = b
pick a b c d tftp_incoming = c
pick a b c d tftp_outgoing = d

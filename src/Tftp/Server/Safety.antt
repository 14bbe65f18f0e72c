-- ===== src/Tftp/Server/Safety.antt =====
-- What the server does with an event in a state that its threads can reach.
use bootpd.Common.{
  ℕ, ◌+◌, ◌≡◌, refl, sym, ap, ◌∙◌, List, ◌∷◌, Option, none, some, Result, ok, throw, terminated,
  fault, stuck, arith,
}
use bootpd.Network.{World}
use bootpd.Tftp.Server.{
  Event, event_packet, event_notify, Phase, running, done, notified, SessionList, erase,
  visit_session, visit_event, Server, start, Reach,
}
use bootpd.Tftp.Server.Sessions.{
  count, pending, IsTracked, Keeps, pending_bound, count_self, visit_session-erase,
  visit_event-Keeps, Reach-IsTracked,
}

-- The result of a handler that neither ends the program nor has undefined behaviour.
abbrev pub Handled : Result SessionList × World → Type 0
Handled (ok sessions, w) = Unit {0}
Handled (throw e, w) = Unit {0}
Handled (terminated, w) = ⊥
Handled (fault, w) = ⊥
Handled (stuck, w) = ⊥

Keeps-Handled :
    (who : ℕ) (sessions : SessionList) (r : Result SessionList × World)
    → Keeps who sessions r
    → Handled r
Keeps-Handled who sessions (ok ss, w) h = tt
Keeps-Handled who sessions (throw e, w) h = tt
Keeps-Handled who sessions (terminated, w) h = h
Keeps-Handled who sessions (fault, w) h = h
Keeps-Handled who sessions (stuck, w) h = h

erased :
    (s : Server) (who : ℕ) (events : List Event)
    → IsTracked s
    → s.events ≡ event_notify who ∷ events
    → visit_session who (s.sessions who) s.sessions ≡ ok (erase who s.sessions)
erased s who events h e =
    visit_session-erase who (count who events) (s.sessions who) s.sessions
      (sym (count_self who events) ∙ ap (count who) (sym e) ∙ h who)

-- In every state that the receiving thread, the responding thread and the threads of the sessions can
-- reach from the start in any interleaving, the handler of the event at the front of the queue returns
-- or throws: it never reads a session that was erased, and never ends the program.
pub visit_event-Handled :
    (s : Server) (event : Event) (events : List Event) (who : ℕ) (w : World)
    → Reach start s
    → s.events ≡ event ∷ events
    → Handled (visit_event who event s.sessions w)
unfolding visit_event
visit_event-Handled s (event_packet source bits) events who w r e =
    Keeps-Handled who s.sessions _ (visit_event-Keeps who source bits s.sessions w)
visit_event-Handled s (event_notify j) events who w r e =
    rw (erased s j events (Reach-IsTracked r) e) tt

-- In every reachable state, where a notification is at the front of the queue, its session is there
-- and has ended, the handler erases it from the list of sessions, and the rest of the queue has no
-- second notification of it.
pub visit_event-erase :
    (s : Server) (session : ℕ) (events : List Event) (who : ℕ) (w : World)
    → Reach start s
    → s.events ≡ event_notify session ∷ events
    → (s.sessions session ≡ some notified)
      × (visit_event who (event_notify session) s.sessions w ≡ (ok (erase session s.sessions), w))
      × (count session events ≡ 0)
unfolding visit_event
visit_event-erase s session events who w r e =
    let h = Reach-IsTracked r session in
    let c : 1 + count session events ≡ pending (s.sessions session) =
      sym (count_self session events) ∙ ap (count session) (sym e) ∙ h in
    (
      phase_of _ (s.sessions session) c,
      rw (erased s session events (Reach-IsTracked r) e),
      omega (arith, c, pending_bound (s.sessions session)),
    )
  where
    phase_of : (n : ℕ) (phase : Option Phase) → 1 + n ≡ pending phase → phase ≡ some notified
    phase_of n none h = absurd (omega arith)
    phase_of n (some running) h = absurd (omega arith)
    phase_of n (some done) h = absurd (omega arith)
    phase_of n (some notified) h = refl

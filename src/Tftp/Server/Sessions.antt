-- ===== src/Tftp/Server/Sessions.antt =====
-- The life of a session: what is in the queue, and what the server reads of a session that ended.
use bootpd.Common.{
  ℕ, ◌+◌, ◌≤◌, ◌≡◌, ◌≢◌, refl, sym, ap, ◌∙◌, subst, ◌⊎◌, inl, inr, List, [], ◌∷◌, ◌++◌, Bytes,
  length, true, false, ◌==◌, ==_iff, Bool-cases, if◌then◌else◌, Option, none, some, Result, ok,
  throw, terminated, fault, stuck, arith,
}
use bootpd.Network.{Address, World, and_then, lift, send}
use bootpd.Network.Laws.{Bounded, send-Bounded}
use bootpd.Tftp.Packet.{
  Payload, type_rrq, type_wrq, type_data, type_ack, type_error, type_oack, monostate,
  make_error_code, set_error_code, set_error, serialize, illegal_operation,
}
use bootpd.Tftp.Packet.Write.{serialize-Calm}
use bootpd.Tftp.Packet.Total.{tftp_packet_total}
use bootpd.Tftp.Server.{
  Event, event_packet, event_notify, Phase, running, done, notified, SessionList, update, started,
  emplace_session, erase, visit_packet, visit_session, visit_event, Server, start, after_event,
  Step, receive, respond, finish, notify, Reach, here, step,
}

-- The notifications of a session in the queue, and how many there have to be.
abbrev pub count : ℕ → List Event → ℕ
count i [] = 0
count i (event_packet source bits ∷ events) = count i events
count i (event_notify j ∷ events) = (if i == j then 1 else 0) + count i events

abbrev pub pending : Option Phase → ℕ
pending none = 0
pending (some running) = 0
pending (some done) = 0
pending (some notified) = 1

-- Each session that has notified the server has one notification in the queue, and no other key has any.
abbrev pub IsTracked : Server → Type 0
IsTracked s = (i : ℕ) → count i s.events ≡ pending (s.sessions i)

count-append : (i : ℕ) (xs ys : List Event) → count i (xs ++ ys) ≡ count i xs + count i ys
count-append i [] ys = omega arith
count-append i (event_packet source bits ∷ xs) ys = count-append i xs ys
count-append i (event_notify j ∷ xs) ys = omega (arith, count-append i xs ys)

-- What a packet does to the sessions where it returns: nothing, or a new one. It has no undefined
-- behaviour, and does not end the program.
abbrev pub Keeps : ℕ → SessionList → Result SessionList × World → Type 0
Keeps who sessions (ok sessions', w) =
    (sessions' ≡ sessions) ⊎ (sessions' ≡ emplace_session who sessions)
Keeps who sessions (throw e, w) = Unit {0}
Keeps who sessions (terminated, w) = ⊥
Keeps who sessions (fault, w) = ⊥
Keeps who sessions (stuck, w) = ⊥

Keeps-send :
    (who : ℕ) (sessions : SessionList) (n : ℕ) (r : Result (Unit {0}) × World)
    → Bounded 0 n r
    → Keeps who sessions (and_then r (λ _. lift (ok sessions)))
Keeps-send who sessions n (ok a, w) h = inl refl
Keeps-send who sessions n (throw e, w) h = tt
Keeps-send who sessions n (terminated, w) h = h
Keeps-send who sessions n (fault, w) h = h
Keeps-send who sessions n (stuck, w) h = h

refusal :
    (who : ℕ) (sessions : SessionList) (source : Address) (w : World)
    → Keeps who sessions (
        and_then
          (send (serialize (make_error_code illegal_operation)) source w)
          (λ _. lift (ok sessions)))
unfolding make_error_code set_error_code set_error
refusal who sessions source w =
    Keeps-send who sessions (length w.recvs)
      (send (serialize (make_error_code illegal_operation)) source w)
      (send-Bounded _ source 0 (length w.recvs) w
        (serialize-Calm (make_error_code illegal_operation) not_empty) (omega arith))
  where
    not_empty : make_error_code illegal_operation ≢ monostate
    not_empty = cc

visit_packet-Keeps :
    (who : ℕ) (p : Payload) (source : Address) (sessions : SessionList) (w : World)
    → Keeps who sessions (visit_packet who p source sessions w)
unfolding visit_packet
visit_packet-Keeps who (type_rrq filename xfermode options) source sessions w = inr refl
visit_packet-Keeps who (type_wrq filename xfermode options) source sessions w = inr refl
visit_packet-Keeps who monostate source sessions w = tt
visit_packet-Keeps who (type_data k bytes) source sessions w = refusal who sessions source w
visit_packet-Keeps who (type_ack k) source sessions w = refusal who sessions source w
visit_packet-Keeps who (type_error k text) source sessions w = refusal who sessions source w
visit_packet-Keeps who (type_oack options) source sessions w = refusal who sessions source w

pub visit_event-Keeps :
    (who : ℕ) (source : Address) (bits : Bytes) (sessions : SessionList) (w : World)
    → Keeps who sessions (visit_event who (event_packet source bits) sessions w)
unfolding visit_event
visit_event-Keeps who source bits sessions w = elim (tftp_packet_total bits) [
  | inl (p, e) ↦ rw e (visit_packet-Keeps who p source sessions w)
  | inr e ↦ rw e tt
]

pub pending_bound : (phase : Option Phase) → pending phase ≤ 1
pending_bound none = omega arith
pending_bound (some running) = omega arith
pending_bound (some done) = omega arith
pending_bound (some notified) = omega arith

pending-started : (phase : Option Phase) → pending (started phase) ≡ pending phase
pending-started none = refl
pending-started (some phase) = refl

-- An update that asks for as many notifications as before.
pending-update :
    (who i : ℕ) (phase : Option Phase) (sessions : SessionList)
    → pending phase ≡ pending (sessions who)
    → pending (update who phase sessions i) ≡ pending (sessions i)
pending-update who i phase sessions e = elim (Bool-cases (i == who)) [
  | inl same ↦ rw same (e ∙ ap (λ k. pending (sessions k)) (sym ((==_iff i who).0 same)))
  | inr other ↦ rw other
]

-- A session with a notification in the queue is there and has ended.
pub visit_session-erase :
    (who n : ℕ) (phase : Option Phase) (sessions : SessionList)
    → 1 + n ≡ pending phase
    → visit_session who phase sessions ≡ ok (erase who sessions)
visit_session-erase who n none sessions h = absurd (omega arith)
visit_session-erase who n (some running) sessions h = absurd (omega arith)
visit_session-erase who n (some done) sessions h = absurd (omega arith)
visit_session-erase who n (some notified) sessions h = refl

pub count_self :
    (who : ℕ) (events : List Event) → count who (event_notify who ∷ events) ≡ 1 + count who events
count_self who events = rw ((==_iff who who).1 refl)

front-erase :
    (who i : ℕ) (events : List Event) (sessions : SessionList)
    → IsTracked (record { events = event_notify who ∷ events; sessions = sessions })
    → count i events ≡ pending (erase who sessions i)
front-erase who i events sessions h = elim (Bool-cases (i == who)) [
  | inl same ↦ rw same (
      rw ((==_iff i who).0 same)
        (omega (arith, count_self who events, h who, pending_bound (sessions who))))
  | inr other ↦ rw other (skipped (h i) other)
]
  where
    skipped :
        {n : ℕ}
        → (if i == who then 1 else 0) + count i events ≡ n
        → (i == who) ≡ false
        → count i events ≡ n
    skipped e f = ground arith

after_packet :
    (who : ℕ) (events : List Event) (sessions : SessionList) (r : Result SessionList) (w : World)
    → ((i : ℕ) → count i events ≡ pending (sessions i))
    → Keeps who sessions (r, w)
    → IsTracked (after_event events sessions r)
after_packet who events sessions (ok sessions') w h (inl e) i =
    h i ∙ ap (λ ss. pending (ss i)) (sym e)
after_packet who events sessions (ok sessions') w h (inr e) i =
    h i
    ∙ sym (pending-update who i (started (sessions who)) sessions (pending-started (sessions who)))
    ∙ ap (λ ss. pending (ss i)) (sym e)
after_packet who events sessions (throw e) w h k i = h i
after_packet who events sessions terminated w h k i = h i
after_packet who events sessions fault w h k i = h i
after_packet who events sessions stuck w h k i = h i

after_notify :
    (who : ℕ) (events : List Event) (sessions : SessionList) (r : Result SessionList)
    → IsTracked (record { events = event_notify who ∷ events; sessions = sessions })
    → r ≡ ok (erase who sessions)
    → IsTracked (after_event events sessions r)
after_notify who events sessions r h e =
    subst (λ x. IsTracked (after_event events sessions x)) (sym e)
      (λ i. front-erase who i events sessions h)

notified_once :
    (s : Server) (j : ℕ)
    → s.sessions j ≡ some done
    → IsTracked s
    → IsTracked (record s {
      events = s.events ++ event_notify j ∷ [];
      sessions = update j (some notified) s.sessions;
    })
notified_once s j e h i = elim (Bool-cases (i == j)) [
  | inl same ↦ rw same (
      omega (
        arith,
        count-append i s.events (event_notify j ∷ []),
        count-self i same,
        h i ∙ ap (λ k. pending (s.sessions k)) ((==_iff i j).0 same) ∙ ap pending e,
      ))
  | inr other ↦
      rw other
        (omega (arith, count-append i s.events (event_notify j ∷ []), count_other i other, h i))
]
  where
    count-self : (i : ℕ) → (i == j) ≡ true → count i (event_notify j ∷ []) ≡ 1
    count-self i f = rw f

    count_other : (i : ℕ) → (i == j) ≡ false → count i (event_notify j ∷ []) ≡ 0
    count_other i f = rw f

Step-IsTracked : {s t : Server} → Step s t → IsTracked s → IsTracked t
unfolding visit_event
Step-IsTracked (receive s source bits) h =
    λ i. omega (arith, count-append i s.events (event_packet source bits ∷ []), h i)
Step-IsTracked (respond events sessions (event_packet source bits) who w w' r e) h =
    after_packet who events sessions r w' h
      (subst (Keeps who sessions) e (visit_event-Keeps who source bits sessions w))
Step-IsTracked (respond events sessions (event_notify j) who w w' r e) h =
    after_notify j events sessions r h (
      sym (ap (λ x. x.0) e)
      ∙ visit_session-erase j (count j events) (sessions j) sessions
          (sym (count_self j events) ∙ h j))
Step-IsTracked (finish s j e) h = λ i. h i ∙ sym (pending-update j i (some done) s.sessions (rw e))
Step-IsTracked (notify s j e) h = notified_once s j e h

pub Reach-IsTracked : {t : Server} → Reach start t → IsTracked t
Reach-IsTracked here = λ i. refl
Reach-IsTracked (step r s) = Step-IsTracked s (Reach-IsTracked r)

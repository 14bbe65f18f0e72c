-- ===== src/Tftp/Server.antt =====
-- bootpd/tftp_server_v4.cpp: the event queue, the sessions, and what the server does with an event.
-- A session is named by its address. The interleavings of the receiving thread, the responding thread
-- and the threads of the sessions are the steps of a relation.
pub mod Sessions
pub mod Safety
pub mod Start
use bootpd.Common.{
  ℕ, ◌+◌, ◌≡◌, List, [], ◌∷◌, ◌++◌, Bytes, codes, Bool, true, false, ◌==◌, if◌then◌else◌, Option,
  none, some, Result, ok, throw, terminated, fault, stuck, logic_error,
}
use bootpd.Network.{Address, World, Io, and_then, ◌>>=◌, ◌>>◌, lift, send}
use bootpd.Tftp.Packet.{
  Payload, type_rrq, type_wrq, type_data, type_ack, type_error, type_oack, monostate, tftp_packet,
  serialize, make_error_code, illegal_operation,
}

-- event_type.
pub data Event : Type 0 where
  event_packet : Address → Bytes → Event
  event_notify : ℕ → Event

-- How far the thread of a session is: behind the loop it stores m_done, and then notifies the server.
pub data Phase : Type 0 where
  running done notified : Phase

abbrev pub is_done : Phase → Bool
is_done running = false
is_done done = true
is_done notified = true

-- m_session_list.
abbrev pub SessionList : Type 0
SessionList = ℕ → Option Phase

abbrev pub update : ℕ → Option Phase → SessionList → SessionList
update who phase sessions i = if i == who then phase else sessions i

-- What a key has after `emplace` of a session that has just been started.
abbrev pub started : Option Phase → Option Phase
started none = some running
started (some phase) = some phase

abbrev pub emplace_session : ℕ → SessionList → SessionList
emplace_session who sessions = update who (started (sessions who)) sessions

abbrev pub erase : ℕ → SessionList → SessionList
erase who = update who none

-- The overloads of visit_packet; `who` is the address that make_unique gives the session.
unfoldable pub visit_packet : ℕ → Payload → Address → SessionList → Io SessionList
visit_packet who (type_rrq filename xfermode options) source_v sessions =
    lift (ok (emplace_session who sessions))
visit_packet who (type_wrq filename xfermode options) source_v sessions =
    lift (ok (emplace_session who sessions))
visit_packet who monostate source_v sessions =
    lift (throw (logic_error (codes "Empty packet, packet parsing failed.")))
visit_packet who packet_v source_v sessions = do
  send (serialize (make_error_code illegal_operation)) source_v
  lift (ok sessions)

-- (*session_ptr).is_done() of a session that was erased reads freed memory.
abbrev pub visit_session : ℕ → Option Phase → SessionList → Result SessionList
visit_session who none sessions = fault
visit_session who (some phase) sessions =
    if is_done phase then ok (erase who sessions) else ok sessions

-- The overloads of visit_event.
unfoldable pub visit_event : ℕ → Event → SessionList → Io SessionList
visit_event who (event_packet source_v packet_bits) sessions = do
  packet_v ← lift (tftp_packet packet_bits)
  visit_packet who packet_v source_v sessions
visit_event who (event_notify session_ptr) sessions =
    lift (visit_session session_ptr (sessions session_ptr) sessions)

pub record Server : Type 0 where
  pub events : List Event
  pub sessions : SessionList

-- The server that has just started.
abbrev pub start : Server
start = record { events = []; sessions = λ i. none }

-- The state after an event: the handlers of thread_outgoing log an exception and go on.
abbrev pub after_event : List Event → SessionList → Result SessionList → Server
after_event events sessions (ok sessions') = record { events = events; sessions = sessions' }
after_event events sessions r = record { events = events; sessions = sessions }

pub data Step : Server → Server → Type 0 where
  -- thread_incoming receives a datagram.
  receive :
      (s : Server) (source : Address) (bits : Bytes)
      → Step s (record s { events = s.events ++ event_packet source bits ∷ [] })
  -- thread_outgoing takes the front of the queue.
  respond :
      (events : List Event) (sessions : SessionList) (event : Event) (who : ℕ) (w w' : World)
      (r : Result SessionList)
      → visit_event who event sessions w ≡ (r, w')
      → Step
          (record { events = event ∷ events; sessions = sessions })
          (after_event events sessions r)
  -- io_thread stores m_done.
  finish :
      (s : Server) (i : ℕ)
      → s.sessions i ≡ some running
      → Step s (record s { sessions = update i (some done) s.sessions })
  -- io_thread calls session_notify.
  notify :
      (s : Server) (i : ℕ)
      → s.sessions i ≡ some done
      → Step s (record {
        events = s.events ++ event_notify i ∷ [];
        sessions = update i (some notified) s.sessions;
      })

pub data Reach (s : Server) : Server → Type 0 where
  here : Reach s s
  step : {t u : Server} → Reach s t → Step t u → Reach s u

-- ===== src/Queue.antt =====
-- common/concurrent_queue.hpp: a queue that one thread takes from, any thread puts into, and any thread
-- may stop. The steps are the stretches of code between which the scheduler, a wake-up or a request to
-- stop can come; a stretch under the mutex is one step. `stop` stands for the stop token of pop, and
-- `cease` for m_cease, which the code tests together.
pub mod Fifo
pub mod Wakeup
pub mod Pops
mod Tests
use bootpd.Common.{
  ℕ, zero, suc, ◌≡◌, ◌≢◌, List, [], ◌∷◌, ◌++◌, Bool, true, false, ◌||◌, if◌then◌else◌,
}

-- Where the consumer is: not in pop; in pop with its stop_callback set up; under the mutex with the
-- queue found empty, just before the wait; in the wait; and behind a wait that has been notified.
pub data Phase : Type 0 where
  outside entered tested blocked woken : Phase

-- `notices` counts the calls of notify_one that stand behind an unlock, and `alarm` those of notify_all
-- that a request to stop or the destructor has still to make.
pub record Monitor {ℓ} (A : Type ℓ) : Type ℓ where
  pub items : List A
  pub notices : ℕ
  pub phase : Phase
  pub stop : Bool
  pub cease : Bool
  pub alarm : ℕ

-- What the environment sees of a step.
pub data Event {ℓ} (A : Type ℓ) : Type ℓ where
  put : A → Event A
  got : A → Event A
  silent : Event A
  stopped : Event A

abbrev pub wake : Phase → Phase
wake outside = outside
wake entered = entered
wake tested = tested
wake blocked = woken
wake woken = woken

module _ {ℓ} {A : Type ℓ} where
  -- The constructor.
  abbrev pub empty_queue : Monitor A
  empty_queue = record {
    items = [];
    notices = 0;
    phase = outside;
    stop = false;
    cease = false;
    alarm = 0;
  }

  -- push and emplace, up to the unlock.
  unfoldable pub push : A → Monitor A → Monitor A
  push value s = record s { items = s.items ++ value ∷ []; notices = suc s.notices }

  -- notify_one with `n` more of them to come.
  unfoldable pub notify_one : ℕ → Monitor A → Monitor A
  notify_one n s = record s { notices = n; phase = wake s.phase }

  -- request_stop of the token, up to the callback: only the first request runs it.
  unfoldable pub request_stop : Monitor A → Monitor A
  request_stop s = if s.stop then s else record s { stop = true; alarm = suc s.alarm }

  -- The destructor, up to its notify_all, which it calls in any case.
  unfoldable pub destroy : Monitor A → Monitor A
  destroy s = record s { cease = true; alarm = suc s.alarm }

  -- notify_all, of please_stop and of the destructor, with `n` more of them to come.
  unfoldable pub notify_all : ℕ → Monitor A → Monitor A
  notify_all n s = record s { phase = wake s.phase; alarm = n }

  abbrev pub take_front : List A → Monitor A → Phase → Event A × Monitor A
  take_front [] s empty_phase = (silent, record s { phase = empty_phase })
  take_front (value ∷ rest) s empty_phase = (got value, record s { items = rest; phase = outside })

  -- while (m_queue.empty()), and the rest of pop where it ends.
  unfoldable pub test : Monitor A → Event A × Monitor A
  test s = take_front s.items s tested

  -- What follows the wait in the body of the loop, and the next test.
  unfoldable pub resume : Monitor A → Event A × Monitor A
  resume s =
      if s.stop || s.cease
      then (stopped, record s { phase = outside })
      else take_front s.items s tested

  abbrev pub polled : List A → Monitor A → Event A × Monitor A
  polled [] s = (silent, s)
  polled (value ∷ rest) s = (got value, record s { items = rest })

  -- try_pop of some other thread.
  unfoldable pub try_pop : Monitor A → Event A × Monitor A
  try_pop s = polled s.items s

pub data Step {ℓ} {A : Type ℓ} : Monitor A → Event A → Monitor A → Type ℓ where
  pushes : (s : Monitor A) (value : A) → s.phase ≢ tested → Step s (put value) (push value s)
  notifies : (s : Monitor A) (n : ℕ) → s.notices ≡ suc n → Step s silent (notify_one n s)
  enters : (s : Monitor A) → s.phase ≡ outside → Step s silent (record s { phase = entered })
  tests : (s t : Monitor A) (e : Event A) → s.phase ≡ entered → test s ≡ (e, t) → Step s e t
  sleeps : (s : Monitor A) → s.phase ≡ tested → Step s silent (record s { phase = blocked })
  wakes : (s : Monitor A) → s.phase ≡ blocked → Step s silent (record s { phase = woken })
  resumes : (s t : Monitor A) (e : Event A) → s.phase ≡ woken → resume s ≡ (e, t) → Step s e t
  stops : (s : Monitor A) → Step s silent (request_stop s)
  destroys : (s : Monitor A) → Step s silent (destroy s)
  alarms : (s : Monitor A) (n : ℕ) → s.alarm ≡ suc n → Step s silent (notify_all n s)
  polls : (s t : Monitor A) (e : Event A) → s.phase ≢ tested → try_pop s ≡ (e, t) → Step s e t

-- A run with what it shows, the last event first.
pub data Run {ℓ} {A : Type ℓ} (s : Monitor A) : List (Event A) → Monitor A → Type ℓ where
  here : Run s [] s
  next :
      {es : List (Event A)} {e : Event A} {t u : Monitor A}
      → Run s es t
      → Step t e u
      → Run s (e ∷ es) u

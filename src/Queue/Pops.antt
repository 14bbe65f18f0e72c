-- ===== src/Queue/Pops.antt =====
-- common/concurrent_queue.hpp: every pop as its caller sees it. What other threads do while the caller
-- waits is a script: for each time that its wait ends, what it then finds.
use bootpd.Common.{
  ◌≡◌, refl, List, [], ◌∷◌, ◌++◌, All, Bool, true, false, ◌||◌, if◌then◌else◌, Bytes, codes, Option,
  none, some,
}
use bootpd.Queue.{Monitor, Event, got, silent, stopped, outside, tested, take_front, resume}

-- The end of a wait: whether it timed out, what the stop token and m_cease say, and the items.
pub record Wake {ℓ} (A : Type ℓ) : Type ℓ where
  pub timed_out : Bool
  pub stop_requested : Bool
  pub m_cease : Bool
  pub items : List A

-- What pop does: return with a value and the items it leaves, throw, or still wait.
pub data Popped {ℓ} (A : Type ℓ) : Type ℓ where
  popped : A → List A → Popped A
  error_stop_requested error_queue_timed_out : Popped A
  runtime_error : Bytes → Popped A
  waiting : Popped A

module _ {ℓ} {A : Type ℓ} where
  -- What the body of the loop throws behind a wait, if it does: without a time and with a token, with
  -- both, and without a token.
  abbrev pub throws_stop : Wake A → Option (Popped A)
  throws_stop w = if w.stop_requested || w.m_cease then some error_stop_requested else none

  abbrev pub throws_timed : Wake A → Option (Popped A)
  throws_timed w = if w.timed_out then some error_queue_timed_out else throws_stop w

  abbrev pub throws_cease : Wake A → Option (Popped A)
  throws_cease w = if w.m_cease then some (runtime_error (codes "stop requested")) else none

  abbrev pub or_again : Option (Popped A) → Popped A → Popped A
  or_again none rest = rest
  or_again (some e) rest = e

  -- while (m_queue.empty()), and the front of the queue where it ends.
  unfoldable pub pop_loop : (Wake A → Option (Popped A)) → List A → List (Wake A) → Popped A
  pop_loop throws (value ∷ rest) wakes = popped value rest
  pop_loop throws [] [] = waiting
  pop_loop throws [] (w ∷ wakes) = or_again (throws w) (pop_loop throws w.items wakes)

  abbrev pub pop_token : List A → List (Wake A) → Popped A
  pop_token items wakes = pop_loop throws_stop items wakes

  abbrev pub pop_for : List A → List (Wake A) → Popped A
  pop_for items wakes = pop_loop throws_timed items wakes

  abbrev pub pop : List A → List (Wake A) → Popped A
  pop items wakes = pop_loop throws_cease items wakes

  -- The try_pop that returns its value.
  abbrev pub try_pop_value : List A → Popped A
  try_pop_value [] = runtime_error (codes "empty")
  try_pop_value (value ∷ rest) = popped value rest

  -- A wake-up with nothing in it.
  abbrev pub IsSpurious : (Wake A → Option (Popped A)) → Wake A → Type ℓ
  IsSpurious throws w = (throws w ≡ none) × (w.items ≡ [])

  -- However often the wait ends for nothing, it goes on; then an item is returned, but not where there is
  -- something to throw: that comes first, and the item stays.
  pop_loop-spurious :
      (throws : Wake A → Option (Popped A)) (idle : List (Wake A)) (wakes : List (Wake A))
      → All (IsSpurious throws) idle
      → pop_loop throws [] (idle ++ wakes) ≡ pop_loop throws [] wakes
  unfolding pop_loop
  pop_loop-spurious throws [] wakes h = refl
  pop_loop-spurious throws (w ∷ idle) wakes h =
      rw (h.0.0, h.0.1) (pop_loop-spurious throws idle wakes h.1)

  pop_loop-wake :
      (throws : Wake A → Option (Popped A)) (idle : List (Wake A)) (w : Wake A) (value : A)
      (rest : List A)
      → All (IsSpurious throws) idle
      → w.items ≡ value ∷ rest
      → pop_loop throws [] (idle ++ w ∷ []) ≡ or_again (throws w) (popped value rest)
  unfolding pop_loop
  pop_loop-wake throws idle w value rest h e = rw (pop_loop-spurious throws idle (w ∷ []) h, e) refl

  -- What a step of the queue's machine shows of it.
  abbrev shown : Popped A → Event A
  shown (popped value rest) = got value
  shown error_stop_requested = stopped
  shown error_queue_timed_out = stopped
  shown (runtime_error message) = stopped
  shown waiting = silent

  abbrev seen : Monitor A → Wake A
  seen s = record { timed_out = false; stop_requested = s.stop; m_cease = s.cease; items = s.items }

  -- The pop with a token does behind a wait what the machine's consumer does.
  resume-pop_token : (s : Monitor A) → shown (pop_token [] (seen s ∷ [])) ≡ (resume s).0
  unfolding pop_loop resume
  resume-pop_token s = by_stop (s.stop || s.cease) s.items
    where
      by_stop :
          (stop : Bool) (items : List A)
          → shown (
              or_again
                (if stop then some error_stop_requested else none)
                (pop_loop throws_stop items []))
            ≡ (if stop
                then (stopped, record s { phase = outside })
                else take_front items s tested).0
      by_stop true items = refl
      by_stop false [] = refl
      by_stop false (value ∷ rest) = refl

-- ===== src/Queue/Wakeup.antt =====
-- Who wakes the consumer of the queue.
use bootpd.Common.{
  ℕ, suc, ◌<◌, ◌≡◌, refl, sym, ap, ◌∙◌, ◌⊎◌, inl, inr, List, [], ◌∷◌, true, if◌then◌else◌, arith,
}
use bootpd.Queue.{
  Phase, outside, entered, tested, blocked, woken, Monitor, Event, put, silent, request_stop,
  destroy, take_front, test, polled, try_pop, Step, pushes, notifies, enters, tests, sleeps, wakes,
  resumes, stops, destroys, alarms, polls, Run, here, next,
}

module _ {ℓ} {A : Type ℓ} where
  -- Under the mutex before the wait the queue is empty, and in the wait beside an item a notification
  -- is still to come.
  abbrev Attended : Phase → List A → ℕ → Type 0
  Attended outside xs n = Unit {0}
  Attended entered xs n = Unit {0}
  Attended tested [] n = Unit {0}
  Attended tested (x ∷ xs) n = ⊥
  Attended blocked [] n = Unit {0}
  Attended blocked (x ∷ xs) n = 0 < n
  Attended woken xs n = Unit {0}

  abbrev IsAttended : Monitor A → Type 0
  IsAttended s = Attended s.phase s.items s.notices

  -- The steps of a consumer that waits beside an empty queue, with the stop behind it.
  asleep :
      {s t : Monitor A} {e : Event A}
      → Step s e t
      → s.phase ≡ blocked
      → s.items ≡ []
      → s.notices ≡ 0
      → s.stop ≡ true
      → s.alarm ≡ 0
      → (t ≡ s)
        ⊎ (t ≡ record s { phase = woken })
        ⊎ ((value : A) × (e ≡ put value))
        ⊎ (t ≡ destroy s)
  unfolding request_stop try_pop
  asleep (pushes s value h) hp hi hn hs ha = inr (inr (inl (value, refl)))
  asleep (notifies s n h) hp hi hn hs ha = absurd (omega (arith, h, hn))
  asleep (enters s h) hp hi hn hs ha = cc
  asleep (tests s t e h c) hp hi hn hs ha = cc
  asleep (sleeps s h) hp hi hn hs ha = cc
  asleep (wakes s h) hp hi hn hs ha = inr (inl refl)
  asleep (resumes s t e h c) hp hi hn hs ha = cc
  asleep (stops s) hp hi hn hs ha =
      inl (ap (λ b. if b then s else record s { stop = true; alarm = suc s.alarm }) hs)
  asleep (destroys s) hp hi hn hs ha = inr (inr (inr refl))
  asleep (alarms s n h) hp hi hn hs ha = absurd (omega (arith, h, ha))
  asleep (polls s t e h c) hp hi hn hs ha =
      inl (sym (ap (λ r. r.1) (sym (ap (λ xs. polled xs s) hi) ∙ c)))

  -- Where a stop is requested, and its notification over, before pop is called on an empty queue with
  -- no notification to come, pop goes to its wait, and any step from there leaves the state as it is,
  -- is a spurious wake-up, puts a value, or is the destructor: nothing else ends the wait.
  pub stop_missed :
      (s t : Monitor A) (e : Event A)
      → s.phase ≡ outside
      → s.items ≡ []
      → s.notices ≡ 0
      → s.stop ≡ true
      → s.alarm ≡ 0
      → Step (record s { phase = blocked }) e t
      → Run s (silent ∷ silent ∷ silent ∷ []) (record s { phase = blocked })
        × ((t ≡ record s { phase = blocked })
            ⊎ (t ≡ record s { phase = woken })
            ⊎ ((value : A) × (e ≡ put value))
            ⊎ (t ≡ destroy (record s { phase = blocked })))
  unfolding test
  stop_missed s t e hp hi hn hs ha st = (
    next
        (next (next here (enters s hp)) (
          tests (record s { phase = entered }) (record s { phase = tested }) silent refl
            (ap (λ xs. take_front xs (record s { phase = entered }) tested) hi)))
        (sleeps (record s { phase = tested }) refl),
    asleep st refl hi hn hs ha,
  )

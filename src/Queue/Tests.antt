-- ===== src/Queue/Tests.antt =====
-- The theorems about the queue at a run in which the consumer waits, and an item comes.
use bootpd.Common.{ℕ, ◌≡◌, refl, [], ◌∷◌, ◌++◌, ◌⊎◌, true, false}
use bootpd.Queue.{
  outside, tested, blocked, entered, woken, Monitor, put, silent, empty_queue, push, destroy, test,
  Step, Run, here, next, pushes, enters, tests, sleeps, wakes,
}
use bootpd.Queue.Fifo.{Spec, Step-Spec, puts, gots, Run-fifo}
use bootpd.Queue.Wakeup.{stop_missed}

abbrev waiting : Monitor ℕ
waiting = record {
  items = [];
  notices = 0;
  phase = blocked;
  stop = false;
  cease = false;
  alarm = 0;
}

waiting-Run : Run empty_queue (silent ∷ silent ∷ silent ∷ []) waiting
unfolding test
waiting-Run =
    next
      (next (next here (enters empty_queue refl))
        (tests (record empty_queue { phase = entered }) _ _ refl refl))
      (sleeps (record empty_queue { phase = tested }) refl)

abbrev offered : Monitor ℕ
offered = record {
  items = 5 ∷ [];
  notices = 1;
  phase = blocked;
  stop = false;
  cease = false;
  alarm = 0;
}

offered-Step : Step waiting (put 5) offered
unfolding push
offered-Step = pushes waiting 5 (cc)

offered-Run : Run empty_queue (put 5 ∷ silent ∷ silent ∷ silent ∷ []) offered
offered-Run = next waiting-Run offered-Step

Step-Spec_example : Spec {A = ℕ} [] (put 5) (5 ∷ [])
Step-Spec_example = Step-Spec offered-Step

Run-fifo_example :
    puts {A = ℕ} (put 5 ∷ silent ∷ silent ∷ silent ∷ [])
    ≡ gots (put 5 ∷ silent ∷ silent ∷ silent ∷ []) ++ 5 ∷ []
Run-fifo_example = Run-fifo offered-Run

abbrev stopping : Monitor ℕ
stopping = record {
  items = [];
  notices = 0;
  phase = outside;
  stop = true;
  cease = false;
  alarm = 0;
}

stop_missed_example :
    Run stopping (silent ∷ silent ∷ silent ∷ []) (record stopping { phase = blocked })
    × ((record stopping { phase = woken } ≡ record stopping { phase = blocked })
        ⊎ (record stopping { phase = woken } ≡ record stopping { phase = woken })
        ⊎ ((value : ℕ) × (silent ≡ put value))
        ⊎ (record stopping { phase = woken } ≡ destroy (record stopping { phase = blocked })))
stop_missed_example =
    stop_missed stopping (record stopping { phase = woken }) silent refl refl refl refl refl
      (wakes (record stopping { phase = blocked }) refl)

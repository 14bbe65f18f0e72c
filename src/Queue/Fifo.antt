-- ===== src/Queue/Fifo.antt =====
-- The queue as a list, without its threads.
use bootpd.Common.{
  ◌≡◌, refl, sym, ◌∙◌, List, [], ◌∷◌, ◌++◌, append_assoc, Bool, true, false, ◌||◌, if◌then◌else◌,
  subst, Bool-cases, inl, inr,
}
use bootpd.Queue.{
  Phase, tested, Monitor, Event, put, got, silent, stopped, empty_queue, push, notify_one,
  request_stop, destroy, notify_all, take_front, test, resume, polled, try_pop, Step, pushes,
  notifies, enters, tests, sleeps, wakes, resumes, stops, destroys, alarms, polls, Run, here, next,
}

module _ {ℓ} {A : Type ℓ} where
  -- The specification, which knows no threads.
  abbrev pub Spec : List A → Event A → List A → Type ℓ
  Spec xs (put value) ys = ys ≡ xs ++ value ∷ []
  Spec xs (got value) ys = xs ≡ value ∷ ys
  Spec xs silent ys = ys ≡ xs
  Spec xs stopped ys = ys ≡ xs

  take_front-Spec :
      (xs : List A) (s : Monitor A) (p : Phase)
      → s.items ≡ xs
      → Spec xs (take_front xs s p).0 ((take_front xs s p).1).items
  take_front-Spec [] s p h = h
  take_front-Spec (x ∷ xs) s p h = refl

  polled-Spec :
      (xs : List A) (s : Monitor A) → s.items ≡ xs → Spec xs (polled xs s).0 ((polled xs s).1).items
  polled-Spec [] s h = h
  polled-Spec (x ∷ xs) s h = refl

  abbrev Refines : List A → Event A × Monitor A → Type ℓ
  Refines xs r = Spec xs r.0 (r.1).items

  if-Refines :
      (b : Bool) (xs : List A) (x y : Event A × Monitor A)
      → Refines xs x
      → Refines xs y
      → Refines xs (if b then x else y)
  if-Refines true xs x y h k = h
  if-Refines false xs x y h k = k

  resume-Refines : (s : Monitor A) → Refines s.items (resume s)
  unfolding resume
  resume-Refines s =
      if-Refines (s.stop || s.cease) s.items _ _ refl (take_front-Spec s.items s tested refl)

  request_stop-items : (s : Monitor A) → (request_stop s).items ≡ s.items
  unfolding request_stop
  request_stop-items s = elim (Bool-cases s.stop) [ inl e ↦ rw e refl | inr e ↦ rw e refl ]

  -- Every step of the code is a step of the specification, a list that is put to at the end and taken
  -- from at the front.
  pub Step-Spec : {s t : Monitor A} {e : Event A} → Step s e t → Spec s.items e t.items
  unfolding push notify_one notify_all destroy test try_pop
  Step-Spec (pushes s value h) = refl
  Step-Spec (notifies s n h) = refl
  Step-Spec (enters s h) = refl
  Step-Spec (tests s t e h k) = subst (Refines s.items) k (take_front-Spec s.items s tested refl)
  Step-Spec (sleeps s h) = refl
  Step-Spec (wakes s h) = refl
  Step-Spec (resumes s t e h k) = subst (Refines s.items) k (resume-Refines s)
  Step-Spec (stops s) = request_stop-items s
  Step-Spec (destroys s) = refl
  Step-Spec (alarms s n h) = refl
  Step-Spec (polls s t e h k) = subst (Refines s.items) k (polled-Spec s.items s refl)

  -- The values that a run has put and got, in the order of time.
  abbrev pub puts : List (Event A) → List A
  puts [] = []
  puts (put value ∷ es) = puts es ++ value ∷ []
  puts (got value ∷ es) = puts es
  puts (silent ∷ es) = puts es
  puts (stopped ∷ es) = puts es

  abbrev pub gots : List (Event A) → List A
  gots [] = []
  gots (put value ∷ es) = gots es
  gots (got value ∷ es) = gots es ++ value ∷ []
  gots (silent ∷ es) = gots es
  gots (stopped ∷ es) = gots es

  extend :
      (e : Event A) (es : List (Event A)) (xs ys : List A)
      → Spec xs e ys
      → puts es ≡ gots es ++ xs
      → puts (e ∷ es) ≡ gots (e ∷ es) ++ ys
  extend (put value) es xs ys h ih = rw (h, ih) (append_assoc (gots es) xs (value ∷ []))
  extend (got value) es xs ys h ih = ih ∙ rw h (sym (append_assoc (gots es) (value ∷ []) ys))
  extend silent es xs ys h ih = ih ∙ rw h refl
  extend stopped es xs ys h ih = ih ∙ rw h refl

  -- In every run from the empty queue, of any interleaving, the values put are the values got followed
  -- by the items left, in the same order.
  pub Run-fifo :
      {es : List (Event A)} {s : Monitor A} → Run empty_queue es s → puts es ≡ gots es ++ s.items
  Run-fifo here = refl
  Run-fifo (next {es} {e} {t} {u} r st) = extend e es t.items u.items (Step-Spec st) (Run-fifo r)

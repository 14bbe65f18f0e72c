-- ===== src/Network/Socket/Ownership.antt =====
-- Who owns a socket, over all that the program can do with its sockets.
use bootpd.Common.{
  ℕ, ◌==◌, ◌≡◌, ◌≢◌, ◌⊎◌, inl, inr, refl, sym, ap, ◌∙◌, subst, Bool, true, false, if◌then◌else◌,
  Bool-cases, Option, none, some, ==_iff, ==-false, arith,
}
use bootpd.Network.Socket.{
  Sockets, put_at, socket_udp, move, swap, closed, destroy, assign, Step, makes, moves, swaps,
  assigns, destroys, Run, start, next,
}

-- No handle has two owners, an owned handle is open, and an open one is owned, or its bind or its
-- closing failed.
pub record IsOwned (s : Sockets) : Type 0 where
  pub single : (k l h : ℕ) → s.m_sock k ≡ some h → s.m_sock l ≡ some h → k ≡ l
  pub live : (k h : ℕ) → s.m_sock k ≡ some h → s.is_open h ≡ true
  pub kept :
      (h : ℕ)
      → s.is_open h ≡ true
      → ((k : ℕ) × (s.m_sock k ≡ some h)) ⊎ (s.unbound h ≡ true) ⊎ (s.unclosed h ≡ true)

bool_apart : true ≢ false
bool_apart h = cc

module _ {ℓ} {A : Type ℓ} where
  put_at-same : (i : ℕ) (a : A) (f : ℕ → A) → put_at i a f i ≡ a
  put_at-same i a f = rw ((==_iff i i).1 refl) refl

  put_at-other : (i k : ℕ) (a : A) (f : ℕ → A) → k ≢ i → put_at i a f k ≡ f k
  put_at-other i k a f h = rw (==-false k i h) refl

  -- Either place of an update.
  put_at-cases :
      (i k : ℕ) (a b : A) (f : ℕ → A)
      → put_at i a f k ≡ b
      → ((k ≡ i) × (a ≡ b)) ⊎ ((k ≢ i) × (f k ≡ b))
  put_at-cases i k a b f e = elim (Bool-cases (k == i)) [
    | inl same ↦
        let at_i = (==_iff k i).0 same in inl (at_i, subst (λ t. (if t then a else f k) ≡ b) same e)
    | inr apart ↦ inr (
      λ h. bool_apart (sym ((==_iff k i).1 h) ∙ apart),
      subst (λ t. (if t then a else f k) ≡ b) apart e,
    )
  ]

-- Objects that have exchanged their handles.
transpose : ℕ → ℕ → ℕ → ℕ
transpose i j k = if k == i then j else if k == j then i else k

transpose_idem : (i j k : ℕ) → transpose i j (transpose i j k) ≡ k
unfolding transpose
transpose_idem i j k = ground arith

abbrev Exchanged : ℕ → ℕ → Sockets → Sockets → Type 0
Exchanged i j s t =
    ((k : ℕ) → t.m_sock k ≡ s.m_sock (transpose i j k))
    × (t.is_open ≡ s.is_open)
    × (t.unbound ≡ s.unbound)
    × (t.unclosed ≡ s.unclosed)

Exchanged-IsOwned : (i j : ℕ) (s t : Sockets) → Exchanged i j s t → IsOwned s → IsOwned t
Exchanged-IsOwned i j s t (at, opened, failed, left) o = record {
  single = λ k l h e f.
      let same = o.single (transpose i j k) (transpose i j l) h (sym (at k) ∙ e) (sym (at l) ∙ f) in
      sym (transpose_idem i j k) ∙ ap (transpose i j) same ∙ transpose_idem i j l;
  live = λ k h e. ap (λ f. f h) opened ∙ o.live (transpose i j k) h (sym (at k) ∙ e);
  kept = λ h e. elim (o.kept h (sym (ap (λ f. f h) opened) ∙ e)) [
    | inl (k, f) ↦
        inl (transpose i j k, at (transpose i j k) ∙ ap s.m_sock (transpose_idem i j k) ∙ f)
    | inr (inl f) ↦ inr (inl (ap (λ u. u h) failed ∙ f))
    | inr (inr f) ↦ inr (inr (ap (λ u. u h) left ∙ f))
  ];
}

swap-Exchanged : (i j : ℕ) (s : Sockets) → Exchanged i j s (swap i j s)
unfolding swap transpose
swap-Exchanged i j s = (place, refl, refl, refl)
  where
    place :
        (k : ℕ)
        → put_at j (s.m_sock i) (put_at i (s.m_sock j) s.m_sock) k ≡ s.m_sock (transpose i j k)
    place k = elim (Bool-cases (k == i)) [
      | inl a ↦ elim (Bool-cases (k == j)) [
        | inl b ↦ rw (a, b) (ap s.m_sock (sym ((==_iff k i).0 a) ∙ (==_iff k j).0 b))
        | inr b ↦ rw (a, b) refl
      ]
      | inr a ↦ elim (Bool-cases (k == j)) [ inl b ↦ rw (a, b) refl | inr b ↦ rw (a, b) refl ]
    ]

move-Exchanged : (i j : ℕ) (s : Sockets) → i ≢ j → s.m_sock i ≡ none → Exchanged i j s (move i j s)
unfolding move transpose
move-Exchanged i j s h e = (place, refl, refl, refl)
  where
    place : (k : ℕ) → put_at i (s.m_sock j) (put_at j none s.m_sock) k ≡ s.m_sock (transpose i j k)
    place k = elim (Bool-cases (k == i)) [
      | inl a ↦ rw a refl
      | inr a ↦ elim (Bool-cases (k == j)) [ inl b ↦ rw (a, b) (sym e) | inr b ↦ rw (a, b) refl ]
    ]

some_apart : {h : ℕ} → ◌≡◌ {A = Option ℕ} none (some h) → ⊥
some_apart e = cc

some_injective : {a b : ℕ} → some a ≡ some b → a ≡ b
some_injective h = cc

-- A handle that has no owner once its object has given it up.
gives_up :
    (i handle : ℕ) (s : Sockets) (k h : ℕ)
    → s.m_sock i ≡ some handle
    → put_at i none s.m_sock k ≡ some h
    → IsOwned s
    → (s.m_sock k ≡ some h) × (h ≢ handle)
gives_up i handle s k h e f o = elim (put_at-cases i k none (some h) s.m_sock f) [
  | inl (same, wrong) ↦ absurd (some_apart wrong)
  | inr (apart, old) ↦ (old, λ same. apart (o.single k i h old (e ∙ ap some (sym same))))
]

-- Another handle keeps its owner.
keeps_owner :
    (i handle : ℕ) (s : Sockets) (k h : ℕ)
    → s.m_sock i ≡ some handle
    → h ≢ handle
    → s.m_sock k ≡ some h
    → put_at i none s.m_sock k ≡ some h
keeps_owner i handle s k h e apart g =
    put_at-other i k none s.m_sock (λ same. apart (some_injective (sym g ∙ ap s.m_sock same ∙ e)))
    ∙ g

closed-IsOwned :
    (closes : Bool) (i : ℕ) (o : Option ℕ) (s : Sockets)
    → s.m_sock i ≡ o
    → IsOwned s
    → IsOwned (closed closes i o s)
closed-IsOwned closes i none s e o = o
closed-IsOwned true i (some handle) s e o = record {
  single = λ k l h f g.
      o.single k l h (gives_up i handle s k h e f o).0 (gives_up i handle s l h e g o).0;
  live = λ k h f.
      let (old, apart) = gives_up i handle s k h e f o in
      put_at-other handle h false s.is_open apart ∙ o.live k h old;
  kept = λ h f. elim (put_at-cases handle h false true s.is_open f) [
    | inl (same, wrong) ↦ absurd (bool_apart (sym wrong))
    | inr (apart, old) ↦ elim (o.kept h old) [
      | inl (k, g) ↦ inl (k, keeps_owner i handle s k h e apart g)
      | inr g ↦ inr g
    ]
  ];
}
closed-IsOwned false i (some handle) s e o = record {
  single = λ k l h f g.
      o.single k l h (gives_up i handle s k h e f o).0 (gives_up i handle s l h e g o).0;
  live = λ k h f. o.live k h (gives_up i handle s k h e f o).0;
  kept = λ h f. elim (Bool-cases (h == handle)) [
    | inl same ↦ inr (inr (rw same refl))
    | inr apart ↦ elim (o.kept h f) [
      | inl (k, g) ↦
          let other : h ≢ handle = λ p. bool_apart (sym ((==_iff h handle).1 p) ∙ apart) in
          inl (k, keeps_owner i handle s k h e other g)
      | inr (inl g) ↦ inr (inl g)
      | inr (inr g) ↦ inr (inr (rw apart g))
    ]
  ];
}

destroy-IsOwned : (closes : Bool) (i : ℕ) (s : Sockets) → IsOwned s → IsOwned (destroy closes i s)
unfolding destroy
destroy-IsOwned closes i s o = closed-IsOwned closes i (s.m_sock i) s refl o

-- What is open stays so where one more handle is opened.
opened_live : (f : ℕ → Bool) (handle h : ℕ) → f h ≡ true → put_at handle true f h ≡ true
opened_live f handle h e = elim (Bool-cases (h == handle)) [ inl b ↦ rw b refl | inr b ↦ rw b e ]

socket_udp-IsOwned :
    (i handle : ℕ) (s : Sockets) (binds : Bool)
    → s.m_sock i ≡ none
    → s.is_open handle ≡ false
    → IsOwned s
    → IsOwned (socket_udp i handle binds s).1
unfolding socket_udp
socket_udp-IsOwned i handle s true e c o = record {
  single = λ k l h f g. elim (after k h f) [
    | inl (a, p) ↦ elim (after l h g) [
      | inl (b, q) ↦ a ∙ sym b
      | inr (b, q) ↦ absurd (not_yet l h p q)
    ]
    | inr (a, p) ↦ elim (after l h g) [
      | inl (b, q) ↦ absurd (not_yet k h q p)
      | inr (b, q) ↦ o.single k l h p q
    ]
  ];
  live = λ k h f. elim (after k h f) [
    | inl (a, p) ↦
        subst (λ g. put_at handle true s.is_open g ≡ true) p (put_at-same handle true s.is_open)
    | inr (a, p) ↦ opened_live s.is_open handle h (o.live k h p)
  ];
  kept = λ h f. elim (put_at-cases handle h true true s.is_open f) [
    | inl (same, p) ↦ inl (i, put_at-same i (some handle) s.m_sock ∙ ap some (sym same))
    | inr (apart, p) ↦ elim (o.kept h p) [
      | inl (k, g) ↦ inl (
        k,
        put_at-other i k (some handle) s.m_sock
              (λ same. some_apart (sym e ∙ ap s.m_sock (sym same) ∙ g))
            ∙ g,
      )
      | inr g ↦ inr g
    ]
  ];
}
  where
    after :
        (k h : ℕ)
        → put_at i (some handle) s.m_sock k ≡ some h
        → ((k ≡ i) × (handle ≡ h)) ⊎ ((k ≢ i) × (s.m_sock k ≡ some h))
    after k h f = elim (put_at-cases i k (some handle) (some h) s.m_sock f) [
      | inl (same, p) ↦ inl (same, some_injective p)
      | inr old ↦ inr old
    ]

    not_yet : (l h : ℕ) → handle ≡ h → s.m_sock l ≡ some h → ⊥
    not_yet l h p q = bool_apart (sym (o.live l h q) ∙ ap s.is_open (sym p) ∙ c)
socket_udp-IsOwned i handle s false e c o = record {
  single = o.single;
  live = λ k h f. opened_live s.is_open handle h (o.live k h f);
  kept = λ h f. elim (put_at-cases handle h true true s.is_open f) [
    | inl (same, p) ↦ inr (
        inl (
          subst (λ g. put_at handle true s.unbound g ≡ true) (sym same)
            (put_at-same handle true s.unbound)))
    | inr (apart, p) ↦ elim (o.kept h p) [
      | inl owner ↦ inl owner
      | inr (inl g) ↦ inr (inl (opened_live s.unbound handle h g))
      | inr (inr g) ↦ inr (inr g)
    ]
  ];
}

assign-IsOwned :
    (closes : Bool) (tmp i from : ℕ) (s : Sockets)
    → tmp ≢ from
    → s.m_sock tmp ≡ none
    → IsOwned s
    → IsOwned (assign closes tmp i from s)
unfolding assign
assign-IsOwned closes tmp i from s h e o =
    let moved = Exchanged-IsOwned tmp from s (move tmp from s) (move-Exchanged tmp from s h e) o in
    let swapped =
      Exchanged-IsOwned tmp i (move tmp from s) (swap tmp i (move tmp from s))
        (swap-Exchanged tmp i _) moved in
    destroy-IsOwned closes tmp (swap tmp i (move tmp from s)) swapped

Step-IsOwned : {s t : Sockets} → Step s t → IsOwned s → IsOwned t
Step-IsOwned (makes i handle s binds e c) o = socket_udp-IsOwned i handle s binds e c o
Step-IsOwned (moves i from s h e) o =
    Exchanged-IsOwned i from s (move i from s) (move-Exchanged i from s h e) o
Step-IsOwned (swaps i other s) o =
    Exchanged-IsOwned i other s (swap i other s) (swap-Exchanged i other s) o
Step-IsOwned (assigns tmp i from s closes h e) o = assign-IsOwned closes tmp i from s h e o
Step-IsOwned (destroys i s closes) o = destroy-IsOwned closes i s o

-- Whatever the program does with its sockets, by making, moving, swapping, assigning and destroying
-- them, no handle has two owners, an owned handle is open, and an open handle is owned or is one whose
-- bind, or whose closing, failed.
pub Run-IsOwned : {s : Sockets} → Run s → IsOwned s
Run-IsOwned start = record {
  single = λ k l h e f. absurd (some_apart e);
  live = λ k h e. absurd (some_apart e);
  kept = λ h e. absurd (bool_apart (sym e));
}
Run-IsOwned (next r st) = Step-IsOwned st (Run-IsOwned r)

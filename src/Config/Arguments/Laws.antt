-- ===== src/Config/Arguments/Laws.antt =====
-- What the accessors give, against the command line itself.
use mathlib.Core.Bool.{or_assoc, or-false}
use bootpd.Common.{
  ◌≡◌, refl, sym, ap, ◌∙◌, false, ◌||◌, if◌then◌else◌, Bool-cases, inl, inr, Bytes, codes, List, [],
  ◌∷◌, ◌++◌, append-nil, append_assoc, Option, none, some, Result, ok, throw, out_of_range, ◌>>=◌,
  Dictionary, find, text_eq, text_eq→eq, find-assign_self, find-assign_ne,
}
use bootpd.Config.Arguments.{
  Arguments, is_flag, member, insert_flag, or_none, push_value, arguments_loop, arguments, has, at_,
  first_of, values, value, value_or, or_default,
}

-- The plain arguments whose last flag before them is the key; `last` is the flag before them all.
abbrev pub values_behind : List Bytes → Bytes → Bytes → List Bytes
values_behind [] last key = []
values_behind (arg ∷ args) last key =
    let flag = values_behind args arg key in
    let plain = values_behind args last key in
    if is_flag arg then flag else if text_eq last key then arg ∷ plain else plain

abbrev pub flags : List Bytes → List Bytes
flags [] = []
flags (arg ∷ args) = let rest = flags args in if is_flag arg then arg ∷ rest else rest

abbrev as_found : List Bytes → Option (List Bytes)
as_found [] = none
as_found (v ∷ vs) = some (v ∷ vs)

or_none-as_found : (vs : List Bytes) → or_none (as_found vs) ≡ vs
or_none-as_found [] = refl
or_none-as_found (v ∷ vs) = refl

as_found-snoc : (vs : List Bytes) (arg : Bytes) → as_found (vs ++ arg ∷ []) ≡ some (vs ++ arg ∷ [])
as_found-snoc [] arg = refl
as_found-snoc (v ∷ vs) arg = refl

find-push_value_self :
    (key arg : Bytes) (vs : List Bytes) (m : Dictionary (List Bytes))
    → find key m ≡ as_found vs
    → find key (push_value key arg m) ≡ as_found (vs ++ arg ∷ [])
unfolding push_value
find-push_value_self key arg vs m h =
    find-assign_self key (or_none (find key m) ++ arg ∷ []) m
    ∙ ap (λ o. some (or_none o ++ arg ∷ [])) h
    ∙ ap (λ ws. some (ws ++ arg ∷ [])) (or_none-as_found vs)
    ∙ sym (as_found-snoc vs arg)

find-push_value_ne :
    (last key arg : Bytes) (m : Dictionary (List Bytes))
    → text_eq last key ≡ false
    → find key (push_value last arg m) ≡ find key m
unfolding push_value
find-push_value_ne last key arg m f = find-assign_ne last key _ m f

find-arguments_loop :
    (args : List Bytes) (last key : Bytes) (s : Arguments) (vs : List Bytes)
    → find key s.m_values ≡ as_found vs
    → find key (arguments_loop args last s).m_values ≡ as_found (vs ++ values_behind args last key)
unfolding arguments_loop
find-arguments_loop [] last key s vs h = h ∙ ap as_found (sym (append-nil vs))
find-arguments_loop (arg ∷ args) last key s vs h = elim (Bool-cases (is_flag arg)) [
  | inl e ↦ rw e (find-arguments_loop args arg key _ vs h)
  | inr e ↦ rw e (elim (Bool-cases (text_eq last key)) [
    | inl f ↦
        let same = text_eq→eq last key f in
        let ih =
          find-arguments_loop args key key (record s { m_values = push_value key arg s.m_values })
            (vs ++ arg ∷ []) (find-push_value_self key arg vs s.m_values h) in
        rw (f, same) (ih ∙ ap as_found (append_assoc vs (arg ∷ []) (values_behind args key key)))
    | inr f ↦ rw f (
        find-arguments_loop args last key (record s { m_values = push_value last arg s.m_values })
          vs (find-push_value_ne last key arg s.m_values f ∙ h))
  ])
]

member-append :
    (key : Bytes) (xs ys : List Bytes) → member key (xs ++ ys) ≡ (member key xs || member key ys)
unfolding member
member-append key [] ys = refl
member-append key (x ∷ xs) ys = elim (Bool-cases (text_eq x key)) [
  | inl e ↦ rw e refl
  | inr e ↦ rw e (member-append key xs ys)
]

member-insert_flag :
    (key flag : Bytes) (xs : List Bytes)
    → member key (insert_flag flag xs) ≡ (member key xs || text_eq flag key)
unfolding member
member-insert_flag key flag xs = elim (Bool-cases (member flag xs)) [
  | inl e ↦ rw e (elim (Bool-cases (text_eq flag key)) [
    | inl f ↦ let m = e in rw (f, sym (text_eq→eq flag key f), e) refl
    | inr f ↦ rw f (sym (or-false (member key xs)))
  ])
  | inr e ↦ rw e (
      member-append key xs (flag ∷ []) ∙ ap (λ b. member key xs || b) (or-false (text_eq flag key)))
]

member-arguments_loop :
    (args : List Bytes) (last key : Bytes) (s : Arguments)
    → member key (arguments_loop args last s).m_flags
      ≡ (member key s.m_flags || member key (flags args))
unfolding arguments_loop member
member-arguments_loop [] last key s = sym (or-false (member key s.m_flags))
member-arguments_loop (arg ∷ args) last key s = elim (Bool-cases (is_flag arg)) [
  | inl e ↦ rw e (
      member-arguments_loop args arg key _
      ∙ ap (λ b. b || member key (flags args)) (member-insert_flag key arg s.m_flags)
      ∙ or_assoc (member key s.m_flags) (text_eq arg key) (member key (flags args)))
  | inr e ↦ rw e (member-arguments_loop args last key _)
]

abbrev pub found : List Bytes → Result (List Bytes)
found [] = throw (out_of_range (codes "invalid unordered_map<K, T> key"))
found (v ∷ vs) = ok (v ∷ vs)

abbrev pub first_or : Bytes → List Bytes → Bytes
first_or default [] = default
first_or default (v ∷ vs) = v

-- On every command line a flag is had exactly where it stands in it, the values of a key are the plain
-- arguments whose last flag before them is the key, in order, and where there are none the access
-- throws and the default is given.
pub arguments-values_behind :
    (args : List Bytes) (key default : Bytes)
    → (has key (arguments args) ≡ member key (flags args))
      × (values key (arguments args) ≡ found (values_behind args [] key))
      × (value_or key default (arguments args) ≡ ok (first_or default (values_behind args [] key)))
unfolding arguments member values value value_or find
arguments-values_behind args key default =
    let start : Arguments = record { m_args = args; m_flags = []; m_values = [] } in
    let place = find-arguments_loop args [] key start [] refl in
    (
      member-arguments_loop args [] key start,
      ap at_ place ∙ at_found (values_behind args [] key),
      ap (λ o. first_of o >>= λ a. ok (or_default default a)) place
          ∙ first_found (values_behind args [] key),
    )
  where
    at_found : (vs : List Bytes) → at_ (as_found vs) ≡ found vs
    at_found [] = refl
    at_found (v ∷ vs) = refl

    first_found :
        (vs : List Bytes)
        → (first_of (as_found vs) >>= λ a. ok (or_default default a)) ≡ ok (first_or default vs)
    first_found [] = refl
    first_found (v ∷ vs) = refl

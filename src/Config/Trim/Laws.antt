-- ===== src/Config/Trim/Laws.antt =====
-- What is left of a text by trim.
use bootpd.Common.{
  ℕ, zero, suc, ◌-◌, ◌<◌, ◌≡◌, refl, sym, Bool, true, false, Bytes, [], ◌∷◌, ◌++◌, append-nil,
  Option, none, some, length, take, drop, All, take-append-drop, arith,
}
use bootpd.Config.Trim.{
  contains, blanks, first_place, find_first_not_of, last_place, find_last_not_of, remove_front,
  ltrim, remove_back, rtrim,
}

abbrev pub IsBlank : ℕ → Type 0
IsBlank c = contains c blanks ≡ true

-- Nothing, or a first character that is no blank.
abbrev pub Starts : Bytes → Type 0
Starts [] = Unit {0}
Starts (c ∷ s) = contains c blanks ≡ false

abbrev pub Ends : Bytes → Type 0
Ends [] = Unit {0}
Ends (c ∷ []) = contains c blanks ≡ false
Ends (c ∷ d ∷ s) = Ends (d ∷ s)

-- What the two searches find.
abbrev FirstAt : Bytes → Option ℕ → Type 0
FirstAt sv none = All IsBlank sv
FirstAt sv (some pos) = All IsBlank (take pos sv) × Starts (drop pos sv)

first_place-FirstAt :
    (c : ℕ) (sv : Bytes) (b : Bool) (o : Option ℕ)
    → contains c blanks ≡ b
    → FirstAt sv o
    → FirstAt (c ∷ sv) (first_place b o)
first_place-FirstAt c sv true none e h = (e, h)
first_place-FirstAt c sv true (some pos) e h = ((e, h.0), h.1)
first_place-FirstAt c sv false o e h = (tt, e)

find_first_not_of-FirstAt : (sv : Bytes) → FirstAt sv (find_first_not_of blanks sv)
unfolding find_first_not_of
find_first_not_of-FirstAt [] = tt
find_first_not_of-FirstAt (c ∷ sv) =
    first_place-FirstAt c sv (contains c blanks) _ refl (find_first_not_of-FirstAt sv)

abbrev LastAt : Bytes → Option ℕ → Type 0
LastAt sv none = All IsBlank sv
LastAt sv (some pos) =
    All IsBlank (drop (suc pos) sv) × Ends (take (suc pos) sv) × (pos < length sv)

Ends-cons :
    (c : ℕ) (sv : Bytes) (n : ℕ)
    → n < length sv
    → Ends (take (suc n) sv)
    → Ends (c ∷ take (suc n) sv)
Ends-cons c [] n h e = absurd (omega arith)
Ends-cons c (d ∷ sv) n h e = e

last_place-LastAt :
    (c : ℕ) (sv : Bytes) (b : Bool) (o : Option ℕ)
    → contains c blanks ≡ b
    → LastAt sv o
    → LastAt (c ∷ sv) (last_place b o)
last_place-LastAt c sv b (some pos) e h = (h.0, Ends-cons c sv pos h.2 h.1, omega (arith, h.2))
last_place-LastAt c sv true none e h = (e, h)
last_place-LastAt c sv false none e h = (h, e, omega arith)

find_last_not_of-LastAt : (sv : Bytes) → LastAt sv (find_last_not_of blanks sv)
unfolding find_last_not_of
find_last_not_of-LastAt [] = tt
find_last_not_of-LastAt (c ∷ sv) =
    last_place-LastAt c sv (contains c blanks) _ refl (find_last_not_of-LastAt sv)

take-Starts : (n : ℕ) (sv : Bytes) → Starts sv → Starts (take n sv)
take-Starts zero sv h = tt
take-Starts (suc n) [] h = tt
take-Starts (suc n) (c ∷ sv) h = h

drop_all : (sv : Bytes) → drop (length sv) sv ≡ []
drop_all [] = refl
drop_all (c ∷ sv) = drop_all sv

take_none : (sv : Bytes) → take (length sv - length sv) sv ≡ []
take_none sv = let e : length sv - length sv ≡ 0 = omega arith in rw e

-- What a trim of one end leaves.
abbrev FrontOff : Bytes → Bytes → Type 0
FrontOff sv rest = (front : Bytes) × (sv ≡ front ++ rest) × All IsBlank front × Starts rest

remove_front-FrontOff : (sv : Bytes) (o : Option ℕ) → FirstAt sv o → FrontOff sv (remove_front sv o)
remove_front-FrontOff sv none h = rw (drop_all sv) (sv, sym (append-nil sv), h, tt)
remove_front-FrontOff sv (some pos) h = (take pos sv, sym (take-append-drop pos sv), h.0, h.1)

pub ltrim-FrontOff : (sv : Bytes) → FrontOff sv (ltrim sv)
unfolding ltrim
ltrim-FrontOff [] = ([], refl, tt, tt)
ltrim-FrontOff (c ∷ sv) = remove_front-FrontOff (c ∷ sv) _ (find_first_not_of-FirstAt (c ∷ sv))

abbrev BackOff : Bytes → Bytes → Type 0
BackOff sv rest =
    (back : Bytes) × (sv ≡ rest ++ back) × All IsBlank back × Ends rest × (Starts sv → Starts rest)

remove_back-BackOff : (sv : Bytes) (o : Option ℕ) → LastAt sv o → BackOff sv (remove_back sv o)
remove_back-BackOff sv none h = rw (take_none sv) (sv, refl, h, tt, λ s. tt)
remove_back-BackOff sv (some pos) h =
    let e : length sv - (length sv - pos - 1) ≡ suc pos = omega (arith, h.2) in
    rw e (
      drop (suc pos) sv,
      sym (take-append-drop (suc pos) sv),
      h.0,
      h.1,
      λ s. take-Starts (suc pos) sv s,
    )

pub rtrim-BackOff : (sv : Bytes) → BackOff sv (rtrim sv)
unfolding rtrim
rtrim-BackOff [] = ([], refl, tt, tt, λ s. s)
rtrim-BackOff (c ∷ sv) = remove_back-BackOff (c ∷ sv) _ (find_last_not_of-LastAt (c ∷ sv))

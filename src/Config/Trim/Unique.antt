-- ===== src/Config/Trim/Unique.antt =====
-- The text that trim finds between blanks.
use bootpd.Common.{
  ℕ, ◌<◌, ◌≡◌, refl, ap, ◌∙◌, Bytes, [], ◌∷◌, ◌++◌, none, some, length, drop, All, take-append,
  length-append, arith,
}
use bootpd.Config.Trim.{
  blanks, find_first_not_of, find_last_not_of, remove_front, ltrim, remove_back, rtrim, trim,
}
use bootpd.Config.Trim.Laws.{IsBlank, Starts, Ends}

-- Something that neither starts nor ends with a blank.
abbrev pub IsWord : Bytes → Type 0
IsWord m = (0 < length m) × Starts m × Ends m

-- Something that starts with no blank.
abbrev IsStart : Bytes → Type 0
IsStart m = (0 < length m) × Starts m

find_first-append :
    (front m : Bytes)
    → All IsBlank front
    → IsStart m
    → find_first_not_of blanks (front ++ m) ≡ some (length front)
unfolding find_first_not_of
find_first-append [] [] h w = absurd (omega (arith, w.0))
find_first-append [] (c ∷ m) h w = rw (w.1) refl
find_first-append (d ∷ front) m h w = rw (h.0, find_first-append front m h.1 w) refl

drop_front : (front m : Bytes) → drop (length front) (front ++ m) ≡ m
drop_front [] m = refl
drop_front (c ∷ front) m = drop_front front m

ltrim-append : (front m : Bytes) → All IsBlank front → IsStart m → ltrim (front ++ m) ≡ m
unfolding ltrim
ltrim-append [] [] h w = refl
ltrim-append [] (c ∷ m) h w = ap (remove_front (c ∷ m)) (find_first-append [] (c ∷ m) h w)
ltrim-append (d ∷ front) m h w =
    ap (remove_front (d ∷ front ++ m)) (find_first-append (d ∷ front) m h w) ∙ drop_front front m

find_last-blank : (back : Bytes) → All IsBlank back → find_last_not_of blanks back ≡ none
unfolding find_last_not_of
find_last-blank [] h = refl
find_last-blank (c ∷ back) h = rw (h.0, find_last-blank back h.1) refl

find_last-append :
    (c : ℕ) (m back : Bytes)
    → All IsBlank back
    → Ends (c ∷ m)
    → find_last_not_of blanks (c ∷ m ++ back) ≡ some (length m)
unfolding find_last_not_of
find_last-append c [] back h e = rw (e, find_last-blank back h) refl
find_last-append c (d ∷ m) back h e = rw (find_last-append d m back h e) refl

rtrim-append : (m back : Bytes) → All IsBlank back → IsWord m → rtrim (m ++ back) ≡ m
unfolding rtrim
rtrim-append [] back h w = absurd (omega (arith, w.0))
rtrim-append (c ∷ m) back h w =
    let snoc = length-append m back in
    ap (remove_back (c ∷ m ++ back)) (find_last-append c m back h w.2)
    ∙ take-append (c ∷ m) back _ (omega (arith, snoc))

IsWord-IsStart : (m back : Bytes) → IsWord m → IsStart (m ++ back)
IsWord-IsStart [] back w = absurd (omega (arith, w.0))
IsWord-IsStart (c ∷ m) back w = (omega arith, w.1)

pub trim-word :
    (front m back : Bytes)
    → All IsBlank front
    → All IsBlank back
    → IsWord m
    → trim (front ++ (m ++ back)) ≡ m
unfolding trim
trim-word front m back hf hb w =
    ap rtrim (ltrim-append front (m ++ back) hf (IsWord-IsStart m back w))
    ∙ rtrim-append m back hb w

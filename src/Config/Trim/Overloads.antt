-- ===== src/Config/Trim/Overloads.antt =====
-- trim of a view and trim of a string.
use mathlib.Core.List.{reverse-append, reverse-reverse, reverse-cons}
use bootpd.Common.{
  ℕ, ◌<◌, ◌≡◌, refl, sym, ap, ◌∙◌, subst, Bytes, [], ◌∷◌, ◌++◌, length, length-reverse, All,
  All-append, is_space, reverse, arith,
}
use bootpd.Config.Trim.{
  contains, blanks, ltrim, rtrim, trim, drop_spaces, ltrim_string, rtrim_string, trim_string,
}
use bootpd.Config.Trim.Laws.{IsBlank, Starts, Ends, ltrim-FrontOff, rtrim-BackOff}

is_space-blank : (c : ℕ) → is_space c ≡ contains c blanks
is_space-blank c = ground arith

drop_spaces-blank : (front m : Bytes) → All IsBlank front → drop_spaces (front ++ m) ≡ drop_spaces m
drop_spaces-blank [] m h = refl
drop_spaces-blank (c ∷ front) m h = rw (is_space-blank c, h.0) (drop_spaces-blank front m h.1)

drop_spaces-Starts : (m : Bytes) → Starts m → drop_spaces m ≡ m
drop_spaces-Starts [] h = refl
drop_spaces-Starts (c ∷ m) h = rw (is_space-blank c, h) refl

IsBlank-reverse : (xs : Bytes) → All IsBlank xs → All IsBlank (reverse xs)
IsBlank-reverse [] h = tt
IsBlank-reverse (x ∷ xs) h =
    subst (All IsBlank) (sym (reverse-cons x xs))
      (All-append IsBlank (reverse xs) (x ∷ []) (IsBlank-reverse xs h.1) (h.0, tt))

Starts-append : (xs ys : Bytes) → 0 < length xs → Starts xs → Starts (xs ++ ys)
Starts-append [] ys n h = absurd (omega (arith, n))
Starts-append (x ∷ xs) ys n h = h

Ends-reverse : (m : Bytes) → Ends m → Starts (reverse m)
Ends-reverse [] h = tt
Ends-reverse (c ∷ []) h = h
Ends-reverse (c ∷ d ∷ m) h = subst Starts (sym (reverse-cons c (d ∷ m))) (
    Starts-append (reverse (d ∷ m)) (c ∷ []) (let n = length-reverse (d ∷ m) in omega (arith, n))
      (Ends-reverse (d ∷ m) h))

rtrim_string-append : (m back : Bytes) → All IsBlank back → Ends m → rtrim_string (m ++ back) ≡ m
unfolding rtrim_string
rtrim_string-append m back hb he =
    ap (λ s. reverse (drop_spaces s)) (reverse-append m back)
    ∙ ap reverse (
        drop_spaces-blank (reverse back) (reverse m) (IsBlank-reverse back hb)
        ∙ drop_spaces-Starts (reverse m) (Ends-reverse m he))
    ∙ reverse-reverse m

-- Every text is blanks, what trim of a view leaves, and blanks; what it leaves neither starts nor ends
-- with a blank, and is what trim of a string leaves.
pub trim-Ends :
    (sv : Bytes)
    → ((front back : Bytes) × (sv ≡ front ++ (trim sv ++ back))
        × All IsBlank front
        × All IsBlank back
        × Starts (trim sv)
        × Ends (trim sv))
      × (trim_string sv ≡ trim sv)
unfolding trim trim_string ltrim_string
trim-Ends sv =
    let (front, e, hf, hs) = ltrim-FrontOff sv in
    let (back, f, hb, he, keep) = rtrim-BackOff (ltrim sv) in
    (
      (front, back, e ∙ ap (λ s. front ++ s) f, hf, hb, keep hs, he),
      ap rtrim_string (
            ap drop_spaces e
            ∙ drop_spaces-blank front (ltrim sv) hf
            ∙ drop_spaces-Starts (ltrim sv) hs
            ∙ f)
          ∙ rtrim_string-append (rtrim (ltrim sv)) back hb he,
    )

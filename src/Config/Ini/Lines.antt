-- ===== src/Config/Ini/Lines.antt =====
-- The lines of a well-formed configuration, and what parse_line does with each.
use bootpd.Common.{
  Free, All-append, before-append, behind-append, before-Free, any_of-false, before, behind, any_of,
  ℕ, ◌<◌, ◌≡◌, refl, sym, ap, ◌∙◌, false, ◌==◌, Bytes, codes, [], ◌∷◌, ◌++◌, append-nil, none, some,
  All, length, length-append, take-append, ok, arith,
}
use bootpd.Config.Trim.{trim, ltrim, rtrim}
use bootpd.Config.Trim.Laws.{IsBlank, Ends}
use bootpd.Config.Trim.Unique.{IsWord, trim-word}
use bootpd.Config.Ini.{
  ConfigIni, section_match, is_line_end, matched, kv_match, back, remove_suffix_1, unquote, insert,
  parse_kv, parse_section, parse_trimmed, parse_line,
}

-- A section, an assignment of a quoted value with a note behind it, a remark, and an empty line.
pub data Directive : Type 0 where
  header : Bytes → Directive
  entry : Bytes → Bytes → Bytes → Directive
  remark : Bytes → Directive
  empty_line : Directive

abbrev pub kv_text : Bytes → Bytes → Bytes
kv_text key val = key ++ (codes " = \"" ++ (val ++ codes "\""))

abbrev pub print : Directive → Bytes
print (header name) = codes "[" ++ (name ++ codes "]")
print (entry key val note) = kv_text key val ++ codes " " ++ (codes "; " ++ note)
print (remark note) = codes "; " ++ note
print empty_line = []

abbrev pub Opens : Bytes → Type 0
Opens [] = Unit {0}
Opens (c ∷ sv) = ((c == b'[') ≡ false) × ((c == b'"') ≡ false)

-- A key is a word without the characters that mean something else in its place.
abbrev pub IsKey : Bytes → Type 0
IsKey key = IsWord key × Free b'=' key × Free b';' key × Free 10 key × Opens key

abbrev pub IsDirective : Directive → Type 0
IsDirective (header name) = Free b'[' name × Free b']' name × Free b';' name × Free 10 name
IsDirective (entry key val note) =
    IsKey key × (Free b';' val × Free 10 val × Free 13 val) × Free 10 note
IsDirective (remark note) = Free 10 note
IsDirective empty_line = Unit {0}

-- The section that the next lines belong to, and what is assigned so far.
abbrev pub step : Directive → Bytes × ConfigIni → Bytes × ConfigIni
step (header name) s = (name, s.1)
step (entry key val note) s = (s.0, insert s.0 key val s.1)
step (remark note) s = s
step empty_line s = s

Ends-cons : (c : ℕ) (ys : Bytes) → 0 < length ys → Ends ys → Ends (c ∷ ys)
Ends-cons c [] n e = absurd (omega (arith, n))
Ends-cons c (y ∷ ys) n e = e

Ends-append : (xs ys : Bytes) → 0 < length ys → Ends ys → Ends (xs ++ ys)
Ends-append [] ys n e = e
Ends-append (x ∷ xs) ys n e =
    Ends-cons x (xs ++ ys) (let l = length-append xs ys in omega (arith, n, l))
      (Ends-append xs ys n e)

pub IsWord-append : (m ys : Bytes) → IsWord m → 0 < length ys → Ends ys → IsWord (m ++ ys)
IsWord-append [] ys w n e = absurd (omega (arith, w.0))
IsWord-append (c ∷ m) ys w n e = (omega arith, w.1, Ends-append (c ∷ m) ys n e)

trim_self : (m : Bytes) → IsWord m → trim m ≡ m
trim_self m w = ap trim (sym (append-nil m)) ∙ trim-word [] m [] tt tt w

-- Quotes.
back-snoc : (c d : ℕ) (sv : Bytes) → back c (sv ++ d ∷ []) ≡ d
back-snoc c d [] = refl
back-snoc c d (x ∷ sv) = back-snoc x d sv

remove_suffix_1-snoc : (sv : Bytes) (c : ℕ) → remove_suffix_1 (sv ++ c ∷ []) ≡ ok sv
remove_suffix_1-snoc [] c = refl
remove_suffix_1-snoc (x ∷ sv) c =
    let snoc = length-append sv (c ∷ []) in
    ap ok (take-append (x ∷ sv) (c ∷ []) _ (omega (arith, snoc)))

unquote-quoted : (val : Bytes) → unquote (b'"' ∷ (val ++ b'"' ∷ [])) ≡ ok val
unfolding unquote
unquote-quoted val = rw (back-snoc b'"' b'"' val) (remove_suffix_1-snoc val b'"')

pub unquote-key : (key : Bytes) → IsWord key → Opens key → unquote key ≡ ok key
unfolding unquote
unquote-key [] w o = absurd (omega (arith, w.0))
unquote-key (c ∷ key) w o = rw (o.1) refl

pub section_match-Opens : (c : ℕ) (sv : Bytes) → (c == b'[') ≡ false → section_match (c ∷ sv) ≡ none
unfolding section_match
section_match-Opens c sv h = rw h refl

pub parse_trimmed-kv :
    (key sv section : Bytes) (line_no : ℕ) (ini : ConfigIni)
    → IsKey key
    → parse_trimmed (key ++ sv) section line_no ini
      ≡ parse_kv (kv_match (key ++ sv)) (key ++ sv) section line_no ini
parse_trimmed-kv [] sv section line_no ini k = absurd (omega (arith, k.0.0))
parse_trimmed-kv (c ∷ key) sv section line_no ini k =
    ap (λ o. parse_section o (c ∷ key ++ sv) section line_no ini)
      (section_match-Opens c (key ++ sv) k.4.0)

matched-nonempty :
    (key rest val : Bytes)
    → IsWord key
    → any_of is_line_end val ≡ false
    → matched (key ++ rest) (some val) ≡ some (key ++ rest, val)
matched-nonempty [] rest val w h = absurd (omega (arith, w.0))
matched-nonempty (c ∷ key) rest val w h = rw h refl

-- `gap` stands between the key and the first '='.
pub kv_match-key :
    (key gap val : Bytes)
    → IsKey key
    → Free b'=' gap
    → any_of is_line_end val ≡ false
    → kv_match (key ++ (gap ++ b'=' ∷ val)) ≡ some (key ++ gap, val)
unfolding kv_match before behind
kv_match-key key gap val k g h =
    rw
      (
        before-append b'=' key (gap ++ b'=' ∷ val) k.1,
        behind-append b'=' key (gap ++ b'=' ∷ val) k.1,
        before-append b'=' gap (b'=' ∷ val) g,
        behind-append b'=' gap (b'=' ∷ val) g,
        append-nil gap,
      )
      (matched-nonempty key gap val k.0 h)

quoted-line_end :
    (val : Bytes)
    → Free 10 val
    → Free 13 val
    → any_of is_line_end (32 ∷ b'"' ∷ (val ++ b'"' ∷ [])) ≡ false
unfolding any_of
quoted-line_end val n r =
    any_of-false is_line_end (val ++ b'"' ∷ [])
      (All-append _ val (b'"' ∷ []) (no_line_end val n r) (refl, tt))
  where
    no_line_end : (v : Bytes) → Free 10 v → Free 13 v → All (λ d. is_line_end d ≡ false) v
    no_line_end [] n r = tt
    no_line_end (d ∷ v) n r = (rw (n.0, r.0) refl, no_line_end v n.1 r.1)

kv_text-IsWord : (key val : Bytes) → IsKey key → IsWord (kv_text key val)
kv_text-IsWord key val k =
    let snoc = length-append val (b'"' ∷ []) in
    IsWord-append key (codes " = \"" ++ (val ++ codes "\"")) k.0 (omega arith) (
      Ends-append (codes " = \"") (val ++ b'"' ∷ []) (omega (arith, snoc))
        (Ends-append val (b'"' ∷ []) (omega arith) refl))

-- What is left of a line whose comment begins behind a word and blanks.
pub trim-comment :
    (word gap note : Bytes)
    → IsWord word
    → All IsBlank gap
    → Free b';' (word ++ gap)
    → trim (before b';' (word ++ gap ++ b';' ∷ note)) ≡ word
unfolding before
trim-comment word gap note w g f =
    rw (before-append b';' (word ++ gap) (b';' ∷ note) f, append-nil (word ++ gap))
      (trim-word [] word gap tt g w)

parse_line-entry :
    (key val note section : Bytes) (line_no : ℕ) (ini : ConfigIni)
    → IsDirective (entry key val note)
    → parse_line (print (entry key val note)) section line_no ini
      ≡ ok (section, insert section key val ini)
unfolding parse_line
parse_line-entry key val note section line_no ini (k, v, n) =
    let free : Free b';' (kv_text key val ++ codes " ") =
      All-append _ (kv_text key val) (codes " ")
        (All-append _ key _ k.2 (
          All-append _ (codes " = \"") (val ++ codes "\"") (refl, (refl, (refl, (refl, tt))))
            (All-append _ val (codes "\"") v.0 (refl, tt))))
        (refl, tt) in
    ap (λ sv. parse_trimmed sv section line_no ini)
      (trim-comment (kv_text key val) (codes " ") (32 ∷ note) (kv_text-IsWord key val k) (refl, tt)
        free)
    ∙ parse_trimmed-kv key _ section line_no ini k
    ∙ ap (λ o. parse_kv o (kv_text key val) section line_no ini)
        (kv_match-key key (codes " ") (32 ∷ b'"' ∷ (val ++ b'"' ∷ [])) k (refl, tt)
          (quoted-line_end val v.1 v.2))
    ∙ rw
        (
          trim-word [] key (codes " ") tt (refl, tt) k.0,
          unquote-key key k.0 k.4,
          ap trim (sym (append-nil (32 ∷ b'"' ∷ (val ++ b'"' ∷ [])))),
          trim-word (32 ∷ []) (b'"' ∷ (val ++ b'"' ∷ [])) [] (refl, tt) tt
              (omega arith, refl, Ends-append (b'"' ∷ val) (b'"' ∷ []) (omega arith) refl),
          unquote-quoted val,
        )
        refl

section_match-header :
    (name : Bytes)
    → Free b'[' name
    → Free b']' name
    → section_match (codes "[" ++ (name ++ codes "]")) ≡ some name
unfolding section_match before behind
section_match-header name o c =
    rw
      (
        before-append b']' name (codes "]") c,
        behind-append b']' name (codes "]") c,
        append-nil name,
        any_of-false (λ d. d == b'[') name o,
      )
      refl

parse_line-header :
    (name section : Bytes) (line_no : ℕ) (ini : ConfigIni)
    → IsDirective (header name)
    → parse_line (print (header name)) section line_no ini ≡ ok (name, ini)
unfolding parse_line
parse_line-header name section line_no ini (o, c, s, n) =
    rw
      (
        before-Free b';' (print (header name)) (refl, All-append _ name (codes "]") s (refl, tt)),
        trim_self (print (header name))
            (omega arith, refl, Ends-append (b'[' ∷ name) (codes "]") (omega arith) refl),
      )
      (ap (λ m. parse_section m (print (header name)) section line_no ini)
        (section_match-header name o c))

-- A printed line is parsed as what it says.
pub parse_line-print :
    (d : Directive) (section : Bytes) (line_no : ℕ) (ini : ConfigIni)
    → IsDirective d
    → parse_line (print d) section line_no ini ≡ ok (step d (section, ini))
unfolding parse_line trim ltrim rtrim before
parse_line-print (header name) section line_no ini h = parse_line-header name section line_no ini h
parse_line-print (entry key val note) section line_no ini h =
    parse_line-entry key val note section line_no ini h
parse_line-print (remark note) section line_no ini h = refl
parse_line-print empty_line section line_no ini h = refl

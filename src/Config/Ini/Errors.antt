-- ===== src/Config/Ini/Errors.antt =====
-- Lines that the parser does not take.
use bootpd.Common.{
  Free, All-append, behind-Free, before-Free, any_of, ℕ, ◌+◌, ◌<◌, ◌≡◌, refl, sym, ap, ◌∙◌, false,
  ◌==◌, Bytes, codes, List, [], ◌∷◌, ◌++◌, append-nil, All, length, Result, throw, fault,
  runtime_error, ◌>>=◌, to_decimal, arith, length-append,
}
use bootpd.Config.Trim.{trim, ltrim, rtrim}
use bootpd.Config.Trim.Laws.{IsBlank}
use bootpd.Config.Trim.Unique.{IsWord, trim-word}
use bootpd.Config.Ini.{
  ConfigIni, getlines, kv_match, unquote, bad_line, parse_kv, parse_trimmed, parse_line,
  parse_lines, config_ini,
}
use bootpd.Config.Ini.Lines.{
  Directive, Opens, IsKey, IsDirective, trim-comment, parse_trimmed-kv, kv_match-key, unquote-key,
  IsWord-append, section_match-Opens,
}
use bootpd.Config.Ini.File.{
  print_all, run, counted, getlines-line, parse-print_all, parse_lines-line,
}

-- A key without a value: blanks and a comment may follow the '='.
abbrev pub no_value : Bytes → Bytes → Bytes → Bytes
no_value key gap note = key ++ codes "=" ++ gap ++ (codes ";" ++ note)

blank-Free : (gap : Bytes) → All IsBlank gap → Free b';' gap
blank-Free [] g = tt
blank-Free (c ∷ gap) g = (not_blank, blank-Free gap g.1)
  where
    not_blank : (c == b';') ≡ false
    not_blank = ground (arith, g.0)

parse_line-no_value :
    (key gap note section : Bytes) (line_no : ℕ) (ini : ConfigIni)
    → IsKey key
    → All IsBlank gap
    → parse_line (no_value key gap note) section line_no ini ≡ fault
unfolding parse_line unquote trim ltrim rtrim any_of
parse_line-no_value key gap note section line_no ini k g =
    let free =
      All-append _ (key ++ codes "=") gap (All-append _ key (codes "=") k.2 (refl, tt))
        (blank-Free gap g) in
    ap (λ sv. parse_trimmed sv section line_no ini)
      (trim-comment (key ++ codes "=") gap note
        (IsWord-append key (codes "=") k.0 (omega arith) refl) g free)
    ∙ parse_trimmed-kv key (codes "=") section line_no ini k
    ∙ ap (λ o. parse_kv o (key ++ codes "=") section line_no ini) (kv_match-key key [] [] k tt refl)
    ∙ ap (λ s. unquote s >>= λ key_v. fault)
        (ap trim (append-nil key) ∙ ap trim (sym (append-nil key)) ∙ trim-word [] key [] tt tt k.0)
    ∙ ap (λ r. r >>= λ key_v. fault) (unquote-key key k.0 k.4)

-- A word that is neither a section nor an assignment.
abbrev pub IsStray : Bytes → Type 0
IsStray word = IsWord word × Free b'=' word × Free b';' word × Free 10 word × Opens word

parse_line-stray :
    (word section : Bytes) (line_no : ℕ) (ini : ConfigIni)
    → IsStray word
    → parse_line word section line_no ini ≡ throw (bad_line line_no word)
unfolding parse_line kv_match
parse_line-stray [] section line_no ini s = absurd (omega (arith, s.0.0))
parse_line-stray (c ∷ word) section line_no ini s =
    rw
      (
        before-Free b';' (c ∷ word) s.2,
        ap trim (sym (append-nil (c ∷ word))),
        trim-word [] (c ∷ word) [] tt tt s.0,
        section_match-Opens c word s.4.0,
        behind-Free b'=' (c ∷ word) s.1,
      )
      refl

-- The first line behind well-formed ones, where parsing it does not return.
stops_at :
    (ds : List Directive) (line rest : Bytes) (r : ℕ → Result ConfigIni)
    → All IsDirective ds
    → Free 10 line
    → 0 < length line
    → ((section : Bytes) (n : ℕ) (ini : ConfigIni) (lines : List Bytes)
        → (parse_line line section n ini >>= λ s. parse_lines lines s.0 n s.1) ≡ r n)
    → config_ini (print_all ds ++ (line ++ 10 ∷ rest)) ≡ r (counted ds 0 + 1)
stops_at ds [] rest r h f n k = absurd (omega (arith, n))
stops_at ds (c ∷ line) rest r h f n k =
    parse-print_all ds (c ∷ line ++ 10 ∷ rest) h
    ∙ ap (λ lines. parse_lines lines (run ds ([], [])).0 (counted ds 0) (run ds ([], [])).1)
        (getlines-line (c ∷ line) rest f)
    ∙ parse_lines-line c line _ (getlines rest) (counted ds 0) _
    ∙ k _ (counted ds 0 + 1) _ (getlines rest)

-- A file in which a word that is neither a section nor an assignment follows well-formed lines is
-- refused with that word and the number of lines up to it, empty lines not counted.
config_ini-stray :
    (ds : List Directive) (word rest : Bytes)
    → All IsDirective ds
    → IsStray word
    → config_ini (print_all ds ++ (word ++ 10 ∷ rest))
      ≡ throw (
          runtime_error
            (codes "Bad line nr " ++ to_decimal (counted ds 0 + 1) ++ codes " : " ++ word))
config_ini-stray ds word rest h s =
    stops_at ds word rest (λ n. throw (bad_line n word)) h s.3 s.0.0
      (λ section n ini lines. rw (parse_line-stray word section n ini s) refl)
    ∙ numbered (counted ds 0 + 1) (omega arith)
  where
    numbered :
        (n : ℕ)
        → 0 < n
        → ◌≡◌ {A = Result ConfigIni}
            (throw (bad_line n word))
            (throw (runtime_error (codes "Bad line nr " ++ to_decimal n ++ codes " : " ++ word)))
    numbered n p = let e : (n == 0) ≡ false = ground (arith, p) in rw e refl

-- A file in which a key without a value, with blanks and a comment behind the equals sign, follows
-- well-formed lines has undefined behaviour: the first character of an empty view is read.
pub config_ini-no_value :
    (ds : List Directive) (key gap note rest : Bytes)
    → All IsDirective ds
    → IsKey key
    → All IsBlank gap
    → Free 10 (gap ++ note)
    → config_ini (print_all ds ++ (no_value key gap note ++ 10 ∷ rest)) ≡ fault
config_ini-no_value ds key gap note rest h k g n =
    let snoc = length-append (key ++ codes "=" ++ gap) (codes ";" ++ note) in
    stops_at ds (no_value key gap note) rest (λ m. fault) h (free (Free-split gap note n))
      (omega (arith, snoc))
      (λ section m ini lines. rw (parse_line-no_value key gap note section m ini k g) refl)
  where
    Free-split : (xs ys : Bytes) → Free 10 (xs ++ ys) → Free 10 xs × Free 10 ys
    Free-split [] ys h = (tt, h)
    Free-split (x ∷ xs) ys h = let (a, b) = Free-split xs ys h.1 in ((h.0, a), b)

    free : Free 10 gap × Free 10 note → Free 10 (no_value key gap note)
    free (a, b) =
        All-append _ (key ++ codes "=" ++ gap) (codes ";" ++ note)
          (All-append _ (key ++ codes "=") gap (All-append _ key (codes "=") k.3 (refl, tt)) a)
          (refl, b)

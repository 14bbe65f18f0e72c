-- ===== src/Config/Ini/File.antt =====
-- Whole configuration files: lists of printed lines, and what may follow them.
use bootpd.Common.{
  Free, All-append, ℕ, ◌+◌, ◌≡◌, refl, sym, ap, ◌∙◌, ◌&&◌, if◌then◌else◌, Bool-cases, inl, inr,
  Bytes, codes, List, [], ◌∷◌, ◌++◌, append-nil, append_assoc, map, Option, none, some, All, ok,
  ◌>>=◌, find, assign, text_eq, text_eq→eq, find-assign_self, find-assign_ne, arith,
}
use bootpd.Config.Ini.{
  ConfigIni, Section, Accessor, split_line, getlines, or_empty, insert, parse_line, parse_lines,
  parse, config_ini, value_in, value,
}
use bootpd.Config.Ini.Lines.{
  Directive, header, entry, remark, empty_line, print, kv_text, IsDirective, step, parse_line-print,
}

-- The text of a file.
abbrev pub print_all : List Directive → Bytes
print_all [] = []
print_all (d ∷ ds) = print d ++ 10 ∷ print_all ds

abbrev pub run : List Directive → Bytes × ConfigIni → Bytes × ConfigIni
run [] s = s
run (d ∷ ds) s = run ds (step d s)

-- The lines that are counted.
abbrev pub counted : List Directive → ℕ → ℕ
counted [] n = n
counted (header name ∷ ds) n = counted ds (n + 1)
counted (entry key val note ∷ ds) n = counted ds (n + 1)
counted (remark note ∷ ds) n = counted ds (n + 1)
counted (empty_line ∷ ds) n = counted ds n

-- What is assigned last to a key of a section, read off the directives alone.
abbrev pub last_assigned : List Directive → Bytes → Accessor → Option Bytes → Option Bytes
last_assigned [] section index found = found
last_assigned (header name ∷ ds) section index found = last_assigned ds name index found
last_assigned (entry key val note ∷ ds) section index found =
    last_assigned ds section index
      (if text_eq section index.section && text_eq key index.keyname then some val else found)
last_assigned (remark note ∷ ds) section index found = last_assigned ds section index found
last_assigned (empty_line ∷ ds) section index found = last_assigned ds section index found

pub getlines-line :
    (line rest : Bytes) → Free 10 line → getlines (line ++ 10 ∷ rest) ≡ line ∷ getlines rest
unfolding getlines
getlines-line [] rest h = newline (getlines rest)
  where
    newline : (lines : List Bytes) → split_line 10 lines ≡ [] ∷ lines
    newline [] = refl
    newline (line ∷ lines) = refl
getlines-line (c ∷ line) rest h = ap (split_line c) (getlines-line line rest h.1) ∙ rw (h.0) refl

print-Free : (d : Directive) → IsDirective d → Free 10 (print d)
print-Free (header name) (o, c, s, n) = (refl, All-append _ name (codes "]") n (refl, tt))
print-Free (entry key val note) (k, v, n) =
    All-append _ (kv_text key val ++ codes " ") (codes "; " ++ note)
      (All-append _ (kv_text key val) (codes " ")
        (All-append _ key _ k.3 (
          All-append _ (codes " = \"") (val ++ codes "\"") (refl, (refl, (refl, (refl, tt))))
            (All-append _ val (codes "\"") v.1 (refl, tt))))
        (refl, tt))
      (All-append _ (codes "; ") note (refl, (refl, tt)) n)
print-Free (remark note) n = (refl, (refl, n))
print-Free empty_line h = tt

getlines-print_all :
    (ds : List Directive) (rest : Bytes)
    → All IsDirective ds
    → getlines (print_all ds ++ rest) ≡ map print ds ++ getlines rest
getlines-print_all [] rest h = refl
getlines-print_all (d ∷ ds) rest h =
    ap getlines (append_assoc (print d) (10 ∷ print_all ds) rest)
    ∙ getlines-line (print d) (print_all ds ++ rest) (print-Free d h.0)
    ∙ ap (λ ls. print d ∷ ls) (getlines-print_all ds rest h.1)

-- A line that is not empty.
pub parse_lines-line :
    (c : ℕ) (line section : Bytes) (lines : List Bytes) (n : ℕ) (ini : ConfigIni)
    → parse_lines ((c ∷ line) ∷ lines) section n ini
      ≡ (parse_line (c ∷ line) section (n + 1) ini >>= λ r. parse_lines lines r.0 (n + 1) r.1)
unfolding parse_lines
parse_lines-line c line section lines n ini = refl

parse_lines-print :
    (ds : List Directive) (lines : List Bytes) (section : Bytes) (n : ℕ) (ini : ConfigIni)
    → All IsDirective ds
    → parse_lines (map print ds ++ lines) section n ini
      ≡ parse_lines lines (run ds (section, ini)).0 (counted ds n) (run ds (section, ini)).1
unfolding parse_lines
parse_lines-print [] lines section n ini h = refl
parse_lines-print (header name ∷ ds) lines section n ini h =
    rw (parse_line-print (header name) section (n + 1) ini h.0)
      (parse_lines-print ds lines name (n + 1) ini h.1)
parse_lines-print (entry [] val note ∷ ds) lines section n ini h = absurd (omega (arith, h.0.0.0.0))
parse_lines-print (entry (c ∷ key) val note ∷ ds) lines section n ini h =
    rw (parse_line-print (entry (c ∷ key) val note) section (n + 1) ini h.0)
      (parse_lines-print ds lines section (n + 1) (insert section (c ∷ key) val ini) h.1)
parse_lines-print (remark note ∷ ds) lines section n ini h =
    rw (parse_line-print (remark note) section (n + 1) ini h.0)
      (parse_lines-print ds lines section (n + 1) ini h.1)
parse_lines-print (empty_line ∷ ds) lines section n ini h =
    parse_lines-print ds lines section n ini h.1

-- Lookup behind an insertion.
pub value-insert :
    (section key val : Bytes) (index : Accessor) (ini : ConfigIni)
    → value index (insert section key val ini) ≡ (
        if text_eq section index.section && text_eq key index.keyname
        then some val
        else value index ini)
unfolding value insert find
value-insert section key val index ini = elim (Bool-cases (text_eq section index.section)) [
  | inr e ↦ rw (find-assign_ne section index.section _ ini e, e) refl
  | inl e ↦
      let same = text_eq→eq section index.section e in
      rw
        (
          e,
          same,
          find-assign_self index.section (assign key val (or_empty (find index.section ini))) ini,
        )
        (elim (Bool-cases (text_eq key index.keyname)) [
          | inr f ↦
              rw (f, find-assign_ne key index.keyname val (or_empty (find index.section ini)) f)
                (in_section (find index.section ini))
          | inl f ↦
              rw (f, text_eq→eq key index.keyname f)
                (find-assign_self index.keyname val (or_empty (find index.section ini)))
        ])
]
  where
    in_section : (o : Option Section) → find index.keyname (or_empty o) ≡ value_in o index.keyname
    in_section none = refl
    in_section (some entries) = refl

pub value-run :
    (ds : List Directive) (section : Bytes) (index : Accessor) (ini : ConfigIni)
    → value index (run ds (section, ini)).1 ≡ last_assigned ds section index (value index ini)
value-run [] section index ini = refl
value-run (header name ∷ ds) section index ini = value-run ds name index ini
value-run (entry key val note ∷ ds) section index ini =
    value-run ds section index (insert section key val ini)
    ∙ ap (last_assigned ds section index) (value-insert section key val index ini)
value-run (remark note ∷ ds) section index ini = value-run ds section index ini
value-run (empty_line ∷ ds) section index ini = value-run ds section index ini

pub parse-print_all :
    (ds : List Directive) (rest : Bytes)
    → All IsDirective ds
    → config_ini (print_all ds ++ rest)
      ≡ parse_lines (getlines rest) (run ds ([], [])).0 (counted ds 0) (run ds ([], [])).1
unfolding parse
parse-print_all ds rest h =
    ap (λ lines. parse_lines lines [] 0 []) (getlines-print_all ds rest h)
    ∙ parse_lines-print ds (getlines rest) [] 0 [] h

-- The text of any list of well-formed lines, which are sections, assignments of quoted values with a
-- note behind, remarks and empty lines, is parsed, and each key then has the value that was assigned
-- to it last in its section.
pub config_ini-print_all :
    (ds : List Directive) (index : Accessor)
    → All IsDirective ds
    → (ini : ConfigIni) × (config_ini (print_all ds) ≡ ok ini)
      × (value index ini ≡ last_assigned ds [] index none)
unfolding parse_lines value find getlines
config_ini-print_all ds index h = (
  (run ds ([], [])).1,
  ap config_ini (sym (append-nil (print_all ds))) ∙ parse-print_all ds [] h,
  value-run ds [] index [],
)

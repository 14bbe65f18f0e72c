-- ===== src/Config/Start.antt =====
-- bootpd/main.cpp up to the start of the servers: the file is read, and each value behind -O is a line
-- that goes on top of it. The checks on the file are calls of the file system.
use bootpd.Common.{
  ◌≡◌, refl, ap, ◌∙◌, true, if◌then◌else◌, Bytes, codes, List, [], ◌∷◌, map, none, All, Result, ok,
  ◌>>=◌,
}
use bootpd.Config.Ini.{ConfigIni, Accessor, config_ini, insert, insert_line, value}
use bootpd.Config.Ini.Lines.{
  Directive, header, entry, remark, empty_line, print, IsDirective, step, parse_line-print,
}
use bootpd.Config.Ini.File.{print_all, last_assigned, config_ini-print_all, value-insert}
use bootpd.Config.Arguments.{Arguments, arguments, has, member, values}
use bootpd.Config.Arguments.Laws.{values_behind, flags, arguments-values_behind}

abbrev pub insert_lines : List Bytes → ConfigIni → Result ConfigIni
insert_lines [] ini = ok ini
insert_lines (line ∷ lines) ini = insert_line line [] ini >>= insert_lines lines

unfoldable pub configure : Arguments → Bytes → Result ConfigIni
configure args file = config_ini file >>= λ ini.
    if has (codes "-O") args
    then values (codes "-O") args >>= (λ lines. insert_lines lines ini)
    else ok ini

-- An override assigns; a section on the command line would not hold for the next line.
abbrev pub Assigns : Directive → Type 0
Assigns (header name) = ⊥
Assigns (entry key val note) = IsDirective (entry key val note)
Assigns (remark note) = IsDirective (remark note)
Assigns empty_line = Unit {0}

insert_line-step :
    (d : Directive) (ini : ConfigIni)
    → Assigns d
    → insert_line (print d) [] ini ≡ ok (step d ([], ini)).1
unfolding insert_line
insert_line-step (header name) ini h = absurd h
insert_line-step (entry key val note) ini h =
    rw (parse_line-print (entry key val note) [] 0 ini h) refl
insert_line-step (remark note) ini h = rw (parse_line-print (remark note) [] 0 ini h) refl
insert_line-step empty_line ini h = rw (parse_line-print empty_line [] 0 ini tt) refl

insert_lines-print :
    (os : List Directive) (index : Accessor) (ini : ConfigIni)
    → All Assigns os
    → (after : ConfigIni) × (insert_lines (map print os) ini ≡ ok after)
      × (value index after ≡ last_assigned os [] index (value index ini))
insert_lines-print [] index ini h = (ini, refl, refl)
insert_lines-print (header name ∷ os) index ini h = absurd h.0
insert_lines-print (entry key val note ∷ os) index ini h =
    let (after, e, v) = insert_lines-print os index (insert [] key val ini) h.1 in
    (
      after,
      ap (λ r. r >>= insert_lines (map print os)) (insert_line-step (entry key val note) ini h.0)
          ∙ e,
      v ∙ ap (last_assigned os [] index) (value-insert [] key val index ini),
    )
insert_lines-print (remark note ∷ os) index ini h =
    let (after, e, v) = insert_lines-print os index ini h.1 in
    (
      after,
      ap (λ r. r >>= insert_lines (map print os)) (insert_line-step (remark note) ini h.0) ∙ e,
      v,
    )
insert_lines-print (empty_line ∷ os) index ini h =
    let (after, e, v) = insert_lines-print os index ini h.1 in
    (after, ap (λ r. r >>= insert_lines (map print os)) (insert_line-step empty_line ini tt) ∙ e, v)

-- With well-formed lines in the file, and behind -O one argument or more that are each empty, a
-- remark, or a key with a quoted value and a note behind it, the start returns a configuration in
-- which a key has what was assigned to it last, by an argument behind -O in the section without a
-- name, or else by the file.
pub configure-overrides :
    (args : List Bytes) (ds os : List Directive) (o : Directive) (index : Accessor)
    → All IsDirective ds
    → All Assigns (o ∷ os)
    → member (codes "-O") (flags args) ≡ true
    → values_behind args [] (codes "-O") ≡ map print (o ∷ os)
    → (ini : ConfigIni) × (configure (arguments args) (print_all ds) ≡ ok ini)
      × (value index ini ≡ last_assigned (o ∷ os) [] index (last_assigned ds [] index none))
unfolding configure
configure-overrides args ds os o index h k f b =
    let (from_file, e, v) = config_ini-print_all ds index h in
    let (after, e', v') = insert_lines-print (o ∷ os) index from_file k in
    let (flagged, there, rest) = arguments-values_behind args (codes "-O") [] in
    (after, rw (e, flagged, f, there, b) e', v' ∙ ap (last_assigned (o ∷ os) [] index) v)

-- ===== src/Config/Ini.antt =====
-- common/config_ini.cpp and config_ini.hpp: the configuration file. Both maps are association lists;
-- the order of a list stands for the order of iteration. What the rest of a parse sees of a line is
-- the section and the map. A stream is its bytes.
pub mod Lines
pub mod File
pub mod Errors
use bootpd.Common.{
  ℕ, zero, suc, ◌+◌, ◌-◌, ◌==◌, ltb, Bool, true, false, not, ◌&&◌, ◌||◌, if◌then◌else◌, Bytes,
  codes, List, [], ◌∷◌, ◌++◌, map, reverse, length, take, drop, Option, none, some, Result, ok,
  throw, fault, runtime_error, bad_lexical_cast, ◌>>=◌, before, behind, any_of, Dictionary, find,
  assign, to_decimal, Exception,
}
use bootpd.Config.Trim.{trim}

abbrev pub Section : Type 0
Section = Dictionary Bytes

-- m_data
abbrev pub ConfigIni : Type 0
ConfigIni = Dictionary Section

pub record Accessor : Type 0 where
  pub keyname : Bytes
  pub section : Bytes

-- std::getline to the end: what stands behind the last line end is a line unless it is empty.
abbrev pub split_line : ℕ → List Bytes → List Bytes
split_line c [] = (if c == 10 then [] else c ∷ []) ∷ []
split_line c (line ∷ lines) = if c == 10 then [] ∷ line ∷ lines else (c ∷ line) ∷ lines

unfoldable pub getlines : Bytes → List Bytes
getlines [] = []
getlines (c ∷ iss) = split_line c (getlines iss)

-- ^\[([^\[\]]*)\]$
abbrev pub closes : Option Bytes → Bytes → Option Bytes
closes none name = none
closes (some []) name = some name
closes (some (c ∷ sv)) name = none

unfoldable pub section_match : Bytes → Option Bytes
section_match [] = none
section_match (c ∷ sv) =
    if c == b'[' && not (any_of (λ d. d == b'[') (before b']' sv))
    then closes (behind b']' sv) (before b']' sv)
    else none

-- ^([^=]+)=(.*)$, where a dot is no line end.
abbrev pub is_line_end : ℕ → Bool
is_line_end c = c == 10 || c == 13

abbrev pub matched : Bytes → Option Bytes → Option (Bytes × Bytes)
matched key none = none
matched [] (some val) = none
matched (c ∷ key) (some val) = if any_of is_line_end val then none else some (c ∷ key, val)

unfoldable pub kv_match : Bytes → Option (Bytes × Bytes)
kv_match sv = matched (before b'=' sv) (behind b'=' sv)

-- front, back and remove_suffix (1) of an empty view are undefined.
abbrev pub back : ℕ → Bytes → ℕ
back c [] = c
back c (d ∷ sv) = back d sv

abbrev pub remove_suffix_1 : Bytes → Result Bytes
remove_suffix_1 [] = fault
remove_suffix_1 (c ∷ sv) = ok (take (length sv) (c ∷ sv))

unfoldable pub unquote : Bytes → Result Bytes
unquote [] = fault
unquote (c ∷ sv) = if c == b'"' && back c sv == b'"' then remove_suffix_1 sv else ok (c ∷ sv)

-- m_data[section][key] = val
abbrev pub or_empty : Option Section → Section
or_empty none = []
or_empty (some entries) = entries

unfoldable pub insert : Bytes → Bytes → Bytes → ConfigIni → ConfigIni
insert section key val ini = assign section (assign key val (or_empty (find section ini))) ini

abbrev pub bad_line : ℕ → Bytes → Exception
bad_line line_no line_sv = runtime_error (
    if not (line_no == 0)
    then codes "Bad line nr " ++ to_decimal line_no ++ codes " : " ++ line_sv
    else codes "Bad config directive : " ++ line_sv)

abbrev pub parse_kv :
    Option (Bytes × Bytes) → Bytes → Bytes → ℕ → ConfigIni → Result (Bytes × ConfigIni)
parse_kv none line_sv section line_no ini = throw (bad_line line_no line_sv)
parse_kv (some (key, val)) line_sv section line_no ini = unquote (trim key) >>= λ key_v.
    unquote (trim val) >>= λ val_v. ok (section, insert section key_v val_v ini)

abbrev pub parse_section : Option Bytes → Bytes → Bytes → ℕ → ConfigIni → Result (Bytes × ConfigIni)
parse_section (some name) line_sv section line_no ini = ok (name, ini)
parse_section none line_sv section line_no ini =
    parse_kv (kv_match line_sv) line_sv section line_no ini

-- The line with its comment cut off and trimmed.
abbrev pub parse_trimmed : Bytes → Bytes → ℕ → ConfigIni → Result (Bytes × ConfigIni)
parse_trimmed [] section line_no ini = ok (section, ini)
parse_trimmed (c ∷ line_sv) section line_no ini =
    parse_section (section_match (c ∷ line_sv)) (c ∷ line_sv) section line_no ini

unfoldable pub parse_line : Bytes → Bytes → ℕ → ConfigIni → Result (Bytes × ConfigIni)
parse_line line_sv section line_no ini =
    parse_trimmed (trim (before b';' line_sv)) section line_no ini

-- The loop; an empty line is not counted.
unfoldable pub parse_lines : List Bytes → Bytes → ℕ → ConfigIni → Result ConfigIni
parse_lines [] section line_no ini = ok ini
parse_lines ([] ∷ lines) section line_no ini = parse_lines lines section line_no ini
parse_lines ((c ∷ line_s) ∷ lines) section line_no ini =
    parse_line (c ∷ line_s) section (line_no + 1) ini >>= λ r.
    parse_lines lines r.0 (line_no + 1) r.1

unfoldable pub parse : Bytes → ConfigIni → Result ConfigIni
parse iss ini = parse_lines (getlines iss) [] 0 ini

abbrev pub config_ini : Bytes → Result ConfigIni
config_ini iss = parse iss []

unfoldable pub insert_line : Bytes → Bytes → ConfigIni → Result ConfigIni
insert_line line_sv section_in ini = parse_line line_sv section_in 0 ini >>= λ r. ok (r.1)

abbrev pub sections : ConfigIni → List Bytes
sections ini = map (λ entry. entry.0) ini

abbrev pub keynames : Bytes → ConfigIni → List Bytes
keynames section ini = map (λ entry. entry.0) (or_empty (find section ini))

abbrev pub value_in : Option Section → Bytes → Option Bytes
value_in none keyname = none
value_in (some entries) keyname = find keyname entries

unfoldable pub value : Accessor → ConfigIni → Option Bytes
value index ini = value_in (find index.section ini) index.keyname

module _ {ℓ} {A : Type ℓ} (cast : Bytes → Result A) where
  -- catch (bad_lexical_cast const&); the other exceptions of a cast go on.
  abbrev pub catch_bad_cast : Result A → Result (Option A)
  catch_bad_cast (ok a) = ok (some a)
  catch_bad_cast (throw (bad_lexical_cast message)) = ok none
  catch_bad_cast (throw e) = throw e
  catch_bad_cast Result.terminated = Result.terminated
  catch_bad_cast fault = fault
  catch_bad_cast Result.stuck = Result.stuck

  abbrev pub cast_value : Option Bytes → Result (Option A)
  cast_value none = ok none
  cast_value (some text) = catch_bad_cast (cast text)

  unfoldable pub value_as : Accessor → ConfigIni → Result (Option A)
  value_as index ini = cast_value (value index ini)

  abbrev pub or_else : A → Option A → A
  or_else alternative none = alternative
  or_else alternative (some a) = a

  unfoldable pub value_or : Accessor → A → ConfigIni → Result A
  value_or index alternative ini = value_as index ini >>= λ o. ok (or_else alternative o)

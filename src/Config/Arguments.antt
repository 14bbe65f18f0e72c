-- ===== src/Config/Arguments.antt =====
-- common/arguments.cpp and arguments.hpp: flags of the command line and the values behind them. The set
-- of flags and the map of values are lists. The templates print the message of an exception and go on
-- with their default.
pub mod Laws
use bootpd.Common.{
  ℕ, ◌==◌, ltb, leb, Bool, true, false, not, ◌&&◌, ◌||◌, if◌then◌else◌, Bytes, codes, List, [], ◌∷◌,
  ◌++◌, length, Option, none, some, Result, ok, throw, terminated, fault, stuck, out_of_range,
  ◌>>=◌, Dictionary, find, assign, text_eq,
}

pub record Arguments : Type 0 where
  pub m_args : List Bytes
  pub m_flags : List Bytes
  pub m_values : Dictionary (List Bytes)

-- arg.size() > 1 && arg[0] == '-'
abbrev pub is_flag : Bytes → Bool
is_flag [] = false
is_flag (c ∷ arg) = ltb 1 (length (c ∷ arg)) && c == b'-'

unfoldable pub member : Bytes → List Bytes → Bool
member key [] = false
member key (flag ∷ flags) = text_eq flag key || member key flags

-- insert of a set.
abbrev pub insert_flag : Bytes → List Bytes → List Bytes
insert_flag flag flags = if member flag flags then flags else flags ++ flag ∷ []

abbrev pub or_none : Option (List Bytes) → List Bytes
or_none none = []
or_none (some values) = values

-- m_values[last_key].push_back(arg)
unfoldable pub push_value : Bytes → Bytes → Dictionary (List Bytes) → Dictionary (List Bytes)
push_value last_key arg m_values =
    assign last_key (or_none (find last_key m_values) ++ arg ∷ []) m_values

unfoldable pub arguments_loop : List Bytes → Bytes → Arguments → Arguments
arguments_loop [] last_key s = s
arguments_loop (arg ∷ args) last_key s =
    let flag = arguments_loop args arg (record s { m_flags = insert_flag arg s.m_flags }) in
    let plain =
      arguments_loop args last_key (record s { m_values = push_value last_key arg s.m_values }) in
    if is_flag arg then flag else plain

unfoldable pub arguments : List Bytes → Arguments
arguments args = arguments_loop args [] (record { m_args = args; m_flags = []; m_values = [] })

abbrev pub has : Bytes → Arguments → Bool
has key s = member key s.m_flags

-- has with several keys.
abbrev pub has_any : Bytes → List Bytes → Arguments → Bool
has_any key [] s = has key s
has_any key (other ∷ keys) s = has key s || has_any other keys s

-- at throws where the key is missing, and front of an empty vector is undefined.
abbrev pub at_ : Option (List Bytes) → Result (List Bytes)
at_ none = throw (out_of_range (codes "invalid unordered_map<K, T> key"))
at_ (some values) = ok values

abbrev pub front : List Bytes → Result Bytes
front [] = fault
front (arg ∷ args) = ok arg

unfoldable pub values : Bytes → Arguments → Result (List Bytes)
values key s = at_ (find key s.m_values)

-- count (_key) > 0, and then the first value.
abbrev pub first_of : Option (List Bytes) → Result (Option Bytes)
first_of none = ok none
first_of (some values) = front values >>= λ arg. ok (some arg)

unfoldable pub value : Bytes → Arguments → Result (Option Bytes)
value key s = first_of (find key s.m_values)

abbrev pub or_default : Bytes → Option Bytes → Bytes
or_default default none = default
or_default default (some arg) = arg

unfoldable pub value_or : Bytes → Bytes → Arguments → Result Bytes
value_or key default s = value key s >>= λ o. ok (or_default default o)

module _ {ℓ} {A : Type ℓ} (cast : Bytes → Result A) where
  -- catch (const std::exception&)
  abbrev pub catch_all : {B : Type ℓ} → B → Result B → Result B
  catch_all default (ok b) = ok b
  catch_all default (throw e) = ok default
  catch_all default terminated = terminated
  catch_all default fault = fault
  catch_all default stuck = stuck

  abbrev pub cast_first : Option Bytes → Result (Option A)
  cast_first none = ok none
  cast_first (some arg) = cast arg >>= λ a. ok (some a)

  unfoldable pub value_as : Bytes → Arguments → Result (Option A)
  value_as key s = catch_all none (value key s >>= cast_first)

  abbrev pub cast_all : List Bytes → Result (List A)
  cast_all [] = ok []
  cast_all (arg ∷ args) = cast arg >>= λ a. cast_all args >>= λ rest. ok (a ∷ rest)

  unfoldable pub values_as : Bytes → Arguments → Result (List A)
  values_as key s = catch_all [] (values key s >>= cast_all)

  abbrev pub value_or_default : A → Option A → A
  value_or_default default none = default
  value_or_default default (some a) = a

  unfoldable pub value_or_as : Bytes → A → Arguments → Result A
  value_or_as key default s = value_as key s >>= λ o. ok (value_or_default default o)

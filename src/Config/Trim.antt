-- ===== src/Config/Trim.antt =====
-- common/utility_trim.hpp: blanks off the ends of a text. An operation that changes its argument gives
-- the new text back.
pub mod Laws
pub mod Unique
pub mod Overloads
use bootpd.Common.{
  ℕ, suc, ◌-◌, ◌==◌, Bool, true, false, not, ◌||◌, if◌then◌else◌, Bytes, List, [], ◌∷◌, Option,
  none, some, length, take, drop, is_space, reverse,
}

abbrev pub contains : ℕ → Bytes → Bool
contains c [] = false
contains c (d ∷ set) = c == d || contains c set

-- " \t\n\r\f\v"
abbrev pub blanks : Bytes
blanks = 32 ∷ 9 ∷ 10 ∷ 13 ∷ 12 ∷ 11 ∷ []

-- std::string_view::find_first_not_of and find_last_not_of, npos being none.
abbrev pub first_place : Bool → Option ℕ → Option ℕ
first_place true none = none
first_place true (some pos) = some (suc pos)
first_place false pos = some 0

unfoldable pub find_first_not_of : Bytes → Bytes → Option ℕ
find_first_not_of set [] = none
find_first_not_of set (c ∷ sv) = first_place (contains c set) (find_first_not_of set sv)

abbrev pub last_place : Bool → Option ℕ → Option ℕ
last_place b (some pos) = some (suc pos)
last_place true none = none
last_place false none = some 0

unfoldable pub find_last_not_of : Bytes → Bytes → Option ℕ
find_last_not_of set [] = none
find_last_not_of set (c ∷ sv) = last_place (contains c set) (find_last_not_of set sv)

abbrev pub remove_front : Bytes → Option ℕ → Bytes
remove_front sv (some pos) = drop pos sv
remove_front sv none = drop (length sv) sv

unfoldable pub ltrim : Bytes → Bytes
ltrim [] = []
ltrim (c ∷ sv) = remove_front (c ∷ sv) (find_first_not_of blanks (c ∷ sv))

-- remove_suffix (n) keeps the first size - n characters.
abbrev pub remove_back : Bytes → Option ℕ → Bytes
remove_back sv (some pos) = take (length sv - (length sv - pos - 1)) sv
remove_back sv none = take (length sv - length sv) sv

unfoldable pub rtrim : Bytes → Bytes
rtrim [] = []
rtrim (c ∷ sv) = remove_back (c ∷ sv) (find_last_not_of blanks (c ∷ sv))

unfoldable pub trim : Bytes → Bytes
trim sv = rtrim (ltrim sv)

-- The overloads for std::string: erase up to std::find_if.
abbrev pub drop_spaces : Bytes → Bytes
drop_spaces [] = []
drop_spaces (c ∷ s) = let rest = drop_spaces s in if not (is_space c) then c ∷ s else rest

unfoldable pub ltrim_string : Bytes → Bytes
ltrim_string s = drop_spaces s

unfoldable pub rtrim_string : Bytes → Bytes
rtrim_string s = reverse (drop_spaces (reverse s))

unfoldable pub trim_string : Bytes → Bytes
trim_string s = rtrim_string (ltrim_string s)

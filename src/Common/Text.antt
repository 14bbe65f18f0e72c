-- ===== src/Common/Text.antt =====
-- Strings as lists of bytes, decimal numbers, and std::unordered_map<std::string, T> as the list of
-- its entries in the order of iteration.
use Prim.Native.Nat.{ℕ, zero, suc, ◌+◌, ◌/◌, ◌%◌}
use Prim.Native.Char.{code}
use Prim.Native.String.{String}
use mathlib.Core.Path.{◌≡◌, refl, ap}
use mathlib.Core.Logic.{◌≢◌, inl, inr}
use mathlib.Core.Bool.{Bool, true, false, ◌&&◌}
use mathlib.Core.List.{List, [], ◌∷◌, ◌++◌}
use mathlib.Core.Option.{Option, none, some}
use native.Mathlib.Omega.{arith}
use bootpd.Common.Tests.{◌==◌, if◌then◌else◌, Bool-cases}

abbrev pub Bytes : Type 0
Bytes = List ℕ

-- The bytes of an ASCII literal.
abbrev pub codes : String → Bytes
codes String.[] = []
codes (String.◌∷◌ c s) = code c ∷ codes s

-- Equality of strings.
unfoldable pub text_eq : Bytes → Bytes → Bool
text_eq [] [] = true
text_eq [] (b ∷ bs) = false
text_eq (a ∷ rest) [] = false
text_eq (a ∷ rest) (b ∷ bs) = a == b && text_eq rest bs

pub text_eq_refl : (a : Bytes) → text_eq a a ≡ true
unfolding text_eq
text_eq_refl [] = refl
text_eq_refl (x ∷ a) = ground (arith, text_eq_refl a)

pub text_eq→eq : (a b : Bytes) → text_eq a b ≡ true → a ≡ b
unfolding text_eq
text_eq→eq [] [] h = refl
text_eq→eq [] (y ∷ b) h = cc
text_eq→eq (x ∷ a) [] h = cc
text_eq→eq (x ∷ a) (y ∷ b) h = ground (arith, text_eq→eq a b)

pub text_eq-false : (a b : Bytes) → a ≢ b → text_eq a b ≡ false
text_eq-false a b h = elim (Bool-cases (text_eq a b)) [
  | inl e ↦ absurd (h (text_eq→eq a b e))
  | inr e ↦ e
]

-- std::to_string of an unsigned number: the fuel is more than its number of digits.
unfoldable pub decimal_loop : ℕ → ℕ → Bytes → Bytes
decimal_loop zero n acc = acc
decimal_loop (suc fuel) n acc =
    let acc' = (n % 10 + 48) ∷ acc in
    let more = decimal_loop fuel (n / 10) acc' in if n / 10 == 0 then acc' else more

unfoldable pub to_decimal : ℕ → Bytes
unfolding decimal_loop
to_decimal n = decimal_loop (suc n) n []

abbrev pub Dictionary {ℓ} : Type ℓ → Type ℓ
Dictionary V = List (Bytes × V)

module _ {ℓ} {V : Type ℓ} where
  unfoldable pub find : Bytes → Dictionary V → Option V
  find k [] = none
  find k ((j, v) ∷ m) = if text_eq j k then some v else find k m

  -- emplace: an entry that is there is kept.
  unfoldable pub emplace : Bytes → V → Dictionary V → Dictionary V
  emplace k v [] = (k, v) ∷ []
  emplace k v ((j, w) ∷ m) = if text_eq j k then (j, w) ∷ m else (j, w) ∷ emplace k v m

  -- m[k] = v: an entry that is there is overwritten.
  unfoldable pub assign : Bytes → V → Dictionary V → Dictionary V
  assign k v [] = (k, v) ∷ []
  assign k v ((j, w) ∷ m) = if text_eq j k then (j, v) ∷ m else (j, w) ∷ assign k v m

  pub find-assign_self : (k : Bytes) (v : V) (m : Dictionary V) → find k (assign k v m) ≡ some v
  unfolding find assign
  find-assign_self k v [] = rw (text_eq_refl k)
  find-assign_self k v ((j, w) ∷ m) = elim (Bool-cases (text_eq j k)) [
    | inl e ↦ rw e (rw e)
    | inr e ↦ rw e (rw e (find-assign_self k v m))
  ]

  pub find-assign_ne :
      (k j : Bytes) (v : V) (m : Dictionary V)
      → text_eq k j ≡ false
      → find j (assign k v m) ≡ find j m
  unfolding find assign
  find-assign_ne k j v [] h = rw h
  find-assign_ne k j v ((i, w) ∷ m) h = elim (Bool-cases (text_eq i k)) [
    | inl e ↦ rw e (rw (text_eq→eq i k e, h))
    | inr e ↦ rw e (ground (arith, find-assign_ne k j v m h))
  ]

  -- Keys that are pairwise different, as in every std::unordered_map.
  abbrev pub Fresh : Bytes → Dictionary V → Type 0
  Fresh k [] = Unit {0}
  Fresh k ((j, w) ∷ m) = (text_eq j k ≡ false) × Fresh k m

  -- Each key of the second list is new at its place behind the first.
  abbrev pub DistinctFrom : Dictionary V → Dictionary V → Type 0
  DistinctFrom before [] = Unit {0}
  DistinctFrom before ((k, v) ∷ m) = Fresh k before × DistinctFrom (before ++ (k, v) ∷ []) m

  -- A new key goes to the end.
  pub emplace-Fresh :
      (k : Bytes) (v : V) (m : Dictionary V) → Fresh k m → emplace k v m ≡ m ++ (k, v) ∷ []
  unfolding emplace
  emplace-Fresh k v [] h = refl
  emplace-Fresh k v ((j, w) ∷ m) h = rw (h.0) (ap (◌∷◌ (j, w)) (emplace-Fresh k v m h.1))

-- ===== src/Common/Cut.antt =====
-- Texts up to the first character of a code and behind it, as find and substr of a string give them.
use Prim.Native.Nat.{ℕ}
use mathlib.Core.Path.{◌≡◌, refl}
use mathlib.Core.Bool.{Bool, false, ◌||◌}
use mathlib.Core.List.{[], ◌∷◌, ◌++◌}
use mathlib.Core.Option.{Option, none, some}
use bootpd.Common.Tests.{◌==◌, if◌then◌else◌}
use bootpd.Common.Lists.{All}
use bootpd.Common.Text.{Bytes}

-- Up to the first character of that code.
unfoldable pub before : ℕ → Bytes → Bytes
before c [] = []
before c (d ∷ sv) = let rest = before c sv in if d == c then [] else d ∷ rest

-- What follows the first character of that code.
unfoldable pub behind : ℕ → Bytes → Option Bytes
behind c [] = none
behind c (d ∷ sv) = let rest = behind c sv in if d == c then some sv else rest

unfoldable pub any_of : (ℕ → Bool) → Bytes → Bool
any_of p [] = false
any_of p (c ∷ sv) = p c || any_of p sv

-- Without the character.
abbrev pub Free : ℕ → Bytes → Type 0
Free c sv = All (λ d. (d == c) ≡ false) sv

pub All-append {κ} : (P : ℕ → Type κ) (xs ys : Bytes) → All P xs → All P ys → All P (xs ++ ys)
All-append P [] ys h k = k
All-append P (x ∷ xs) ys h k = (h.0, All-append P xs ys h.1 k)

pub All-append_left {κ} : (P : ℕ → Type κ) (xs ys : Bytes) → All P (xs ++ ys) → All P xs
All-append_left P [] ys h = tt
All-append_left P (x ∷ xs) ys h = (h.0, All-append_left P xs ys h.1)

pub All-append_right {κ} : (P : ℕ → Type κ) (xs ys : Bytes) → All P (xs ++ ys) → All P ys
All-append_right P [] ys h = h
All-append_right P (x ∷ xs) ys h = All-append_right P xs ys h.1

module _ (c : ℕ) where
  pub before-append : (s t : Bytes) → Free c s → before c (s ++ t) ≡ s ++ before c t
  unfolding before
  before-append [] t h = refl
  before-append (d ∷ s) t h = rw (h.0, before-append s t h.1) refl

  pub behind-append : (s t : Bytes) → Free c s → behind c (s ++ t) ≡ behind c t
  unfolding behind
  behind-append [] t h = refl
  behind-append (d ∷ s) t h = rw (h.0) (behind-append s t h.1)

  pub before-Free : (s : Bytes) → Free c s → before c s ≡ s
  unfolding before
  before-Free [] h = refl
  before-Free (d ∷ s) h = rw (h.0, before-Free s h.1) refl

  pub behind-Free : (s : Bytes) → Free c s → behind c s ≡ none
  unfolding behind
  behind-Free [] h = refl
  behind-Free (d ∷ s) h = rw (h.0) (behind-Free s h.1)

pub any_of-false : (p : ℕ → Bool) (s : Bytes) → All (λ d. p d ≡ false) s → any_of p s ≡ false
unfolding any_of
any_of-false p [] h = refl
any_of-false p (d ∷ s) h = rw (h.0, any_of-false p s h.1) refl

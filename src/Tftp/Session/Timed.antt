-- ===== src/Tftp/Session/Timed.antt =====
-- The time-out that validate_options settles.
use bootpd.Common.{
  ℕ, ◌≡◌, ◌≢◌, refl, [], ◌∷◌, Bytes, codes, Option, none, some, Result, ok, throw, terminated,
  fault, stuck, find, emplace, stoull, ◌>>=◌ as bind_result,
}
use bootpd.Network.{Address, World, Io, and_then, lift}
use bootpd.Network.Waiting.{milliseconds}
use bootpd.Tftp.Packet.{DictionaryType}
use bootpd.Tftp.Session.{
  OptionsType, max_retries, oack_loop, after_oack, option_value, numeric_option, size_option,
  validate_options,
}

-- Where the call returns, its value has the property.
abbrev pub Returns {ℓ} : {A : Type ℓ} → (A → Type 0) → Result A × World → Type 0
Returns P (ok a, w) = P a
Returns P (throw e, w) = Unit {0}
Returns P (terminated, w) = Unit {0}
Returns P (fault, w) = Unit {0}
Returns P (stuck, w) = Unit {0}

Returns-any {ℓ} : {A : Type ℓ} (r : Result A × World) → Returns (λ a. Unit {0}) r
Returns-any (ok a, w) = tt
Returns-any (throw e, w) = tt
Returns-any (terminated, w) = tt
Returns-any (fault, w) = tt
Returns-any (stuck, w) = tt

Returns-bind {ℓ κ} :
    {A : Type ℓ} {B : Type κ} (P : A → Type 0) (Q : B → Type 0) (r : Result A × World)
    (f : A → Io B)
    → Returns P r
    → ((a : A) (w : World) → P a → Returns Q (f a w))
    → Returns Q (and_then r f)
Returns-bind P Q (ok a, w) f h k = k a w h
Returns-bind P Q (throw e, w) f h k = tt
Returns-bind P Q (terminated, w) f h k = tt
Returns-bind P Q (fault, w) f h k = tt
Returns-bind P Q (stuck, w) f h k = tt

-- A number of seconds that is no time-out of 0 milliseconds.
abbrev pub IsLimit : ℕ → Type 0
IsLimit seconds = milliseconds seconds ≢ 0

-- The option `timeout` of a request, where it is there and is a number, is such a time-out.
abbrev pub IsTimed : DictionaryType → Type 0
IsTimed options =
    (text : Bytes) (number : ℕ × ℕ)
    → find (codes "timeout") options ≡ some text
    → stoull text ≡ ok number
    → IsLimit (number.0)

option-Limit :
    (name : Bytes) (default : ℕ) (oack : DictionaryType) (found : Option Bytes) (w : World)
    → IsLimit default
    → ((text : Bytes) (number : ℕ × ℕ)
        → found ≡ some text
        → stoull text ≡ ok number
        → IsLimit (number.0))
    → Returns (λ (a : ℕ × DictionaryType). IsLimit (a.0)) (option_value name default oack found, w)
option-Limit name default oack none w h k = h
option-Limit name default oack (some text) w h k = read (stoull text) refl
  where
    read :
        (r : Result (ℕ × ℕ))
        → stoull text ≡ r
        → Returns
            (λ (a : ℕ × DictionaryType). IsLimit (a.0))
            (bind_result r (λ number. ok (number.0, emplace name text oack)), w)
    read (ok number) e = k text number refl e
    read (throw x) e = tt
    read terminated e = tt
    read fault e = tt
    read stuck e = tt

-- With a default that is a time-out, and where the option is one, so is what is settled.
pub validate_options-Limit :
    (o : OptionsType) (options : DictionaryType) (client : Address) (w : World)
    → IsLimit o.timeout
    → IsTimed options
    → Returns
        (λ (settled : OptionsType). IsLimit settled.timeout)
        (validate_options o options client w)
unfolding validate_options
validate_options-Limit o [] client w h k = h
validate_options-Limit o (entry ∷ rest) client w h k =
    Returns-bind (λ a. Unit {0}) _ (lift blk w) _ (Returns-any (lift blk w))
      λ a w₁ _.
        Returns-bind (λ (b : ℕ × DictionaryType). IsLimit (b.0)) _ (lift (tmo a.1) w₁) _
          (option-Limit (codes "timeout") o.timeout a.1 (find (codes "timeout") (entry ∷ rest)) w₁ h
            k)
          λ b w₂ limit.
            Returns-bind (λ e. Unit {0}) _
              (oack_loop max_retries (size_option (entry ∷ rest) o.tsize b.1) client w₂) _
              (Returns-any _)
              λ e w₃ _.
                Returns-bind (λ u. Unit {0}) _ (after_oack client e w₃) _ (Returns-any _)
                  λ u w₄ _. limit
  where
    blk : Result (ℕ × DictionaryType)
    blk = numeric_option (codes "blksize") (entry ∷ rest) o.blksize []

    tmo : DictionaryType → Result (ℕ × DictionaryType)
    tmo = numeric_option (codes "timeout") (entry ∷ rest) o.timeout

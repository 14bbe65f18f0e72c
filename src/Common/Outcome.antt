-- ===== src/Common/Outcome.antt =====
-- What a C++ call can do: return, throw, call std::terminate (an exception that leaves a noexcept
-- function), or have undefined behaviour. `stuck` is no C++ outcome:
-- it says that a loop of the model ran out of fuel, which the development proves never happens.
use mathlib.Core.List.{List}
use mathlib.Core.Path.{◌≡◌, refl, subst}
use Prim.Native.Nat.{ℕ}

-- The exception classes that the program throws or catches, with their messages.
pub data Exception : Type 0 where
  runtime_error logic_error out_of_range invalid_argument bad_lexical_cast : List ℕ → Exception
  socket_timed_out stop_requested : List ℕ → Exception

pub data Result {ℓ} (A : Type ℓ) : Type ℓ where
  ok : A → Result A
  throw : Exception → Result A
  terminated : Result A
  fault : Result A
  stuck : Result A

infixl 5 ◌>>=◌ ◌>>◌
abbrev pub ◌>>=◌ {ℓ κ} : {A : Type ℓ} {B : Type κ} → Result A → (A → Result B) → Result B
ok a >>= f = f a
throw e >>= f = throw e
terminated >>= f = terminated
fault >>= f = fault
stuck >>= f = stuck

abbrev pub ◌>>◌ {ℓ} : {B : Type ℓ} → Result (Unit {0}) → Result B → Result B
m >> k = m >>= λ _. k

-- What a chain that returns has returned on the way.
pub bind-ok {ℓ κ} :
    {A : Type ℓ} {B : Type κ} (m : Result A) (f : A → Result B) (b : B)
    → (m >>= f) ≡ ok b
    → (a : A) × (m ≡ ok a) × (f a ≡ ok b)
bind-ok (ok a) f b h = (a, refl, h)
bind-ok (throw e) f b h = cc
bind-ok terminated f b h = cc
bind-ok fault f b h = cc
bind-ok stuck f b h = cc

pub ok-injective {ℓ} : {A : Type ℓ} {a b : A} → ◌≡◌ {A = Result A} (ok a) (ok b) → a ≡ b
ok-injective h = cc

-- Whatever the call returns has the property.
abbrev pub Ensures {ℓ κ} : {A : Type ℓ} → (A → Type κ) → Result A → Type (ℓ ⊔ κ)
Ensures {A} P m = (a : A) → m ≡ ok a → P a

pub Ensures-bind {ℓ κ μ ν} :
    {A : Type ℓ} {B : Type κ} (P : A → Type μ) (Q : B → Type ν) (m : Result A) (f : A → Result B)
    → Ensures P m
    → ((a : A) → P a → Ensures Q (f a))
    → Ensures Q (m >>= f)
Ensures-bind P Q m f h k b e = let (a, e₁, e₂) = bind-ok m f b e in k a (h a e₁) b e₂

pub Ensures-ok {ℓ κ} : {A : Type ℓ} (P : A → Type κ) (a : A) → P a → Ensures P (ok a)
Ensures-ok P a p b e = subst P (ok-injective e) p

-- Nothing is asked of what the call returns.
pub Ensures-any {ℓ} : {A : Type ℓ} (m : Result A) → Ensures (λ a. Unit {0}) m
Ensures-any m a e = tt

pub Ensures-past {ℓ κ ν} :
    {A : Type ℓ} {B : Type κ} (Q : B → Type ν) (m : Result A) (f : A → Result B)
    → ((a : A) → Ensures Q (f a))
    → Ensures Q (m >>= f)
Ensures-past Q m f k = Ensures-bind _ Q m f (Ensures-any m) λ a p. k a

-- Returns or throws: nothing that ends the program, and no loop without fuel.
abbrev pub Calm {ℓ} : {A : Type ℓ} → Result A → Type 0
Calm (ok a) = Unit {0}
Calm (throw e) = Unit {0}
Calm terminated = ⊥
Calm fault = ⊥
Calm stuck = ⊥

pub Calm-bind {ℓ κ} :
    {A : Type ℓ} {B : Type κ} (m : Result A) (f : A → Result B)
    → Calm m
    → ((a : A) → Calm (f a))
    → Calm (m >>= f)
Calm-bind (ok a) f h g = g a
Calm-bind (throw e) f h g = tt
Calm-bind terminated f h g = h
Calm-bind fault f h g = h
Calm-bind stuck f h g = h

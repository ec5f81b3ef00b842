-- ===== src/Common/Outcome.antt =====
-- Results of code that can fail: `Result` for `Result<A, E>`, in `do` blocks for the `?` operator.
pub mod Chain
use mathlib.Core.Path.{◌≡◌, refl}

pub data Result {ℓ κ} (A : Type ℓ) (E : Type κ) : Type (ℓ ⊔ κ) where
  ok : A → Result A E
  err : E → Result A E

infixl 5 ◌>>=◌ ◌>>◌
abbrev pub ◌>>=◌ {ℓ κ μ} :
    {A : Type ℓ} {B : Type κ} {E : Type μ} → Result A E → (A → Result B E) → Result B E
err failure >>= _ = err failure
ok value >>= next = next value

abbrev pub ◌>>◌ {ℓ κ μ} :
    {A : Type ℓ} {B : Type κ} {E : Type μ} → Result A E → Result B E → Result B E
m >> k = m >>= λ _. k

-- `.context(…)`: the error is wrapped, the value is kept.
abbrev pub map_err {ℓ κ μ} :
    {A : Type ℓ} {E : Type κ} {F : Type μ} → (E → F) → Result A E → Result A F
map_err f (ok a) = ok a
map_err f (err e) = err (f e)

abbrev pub map_ok {ℓ κ μ} :
    {A : Type ℓ} {B : Type κ} {E : Type μ} → (A → B) → Result A E → Result B E
map_ok f (ok a) = ok (f a)
map_ok f (err e) = err e

pub map_ok-map_ok {ℓ κ μ ν} :
    {A : Type ℓ} {B : Type κ} {C : Type μ} {E : Type ν} (g : B → C) (f : A → B) (r : Result A E)
    → map_ok g (map_ok f r) ≡ map_ok (λ a. g (f a)) r
map_ok-map_ok g f (ok a) = refl
map_ok-map_ok g f (err e) = refl

pub map_err-eq-ok {ℓ κ μ} :
    {A : Type ℓ} {E : Type κ} {F : Type μ} (f : E → F) (r : Result A E) {a : A}
    → map_err f r ≡ ok a
    → r ≡ ok a
map_err-eq-ok f (ok b) h = cc
map_err-eq-ok f (err e) h = cc

pub ok-injective {ℓ κ} :
    {A : Type ℓ} {E : Type κ} {a b : A} → ◌≡◌ {A = Result A E} (ok a) (ok b) → a ≡ b
ok-injective h = cc

pub err-injective {ℓ κ} :
    {A : Type ℓ} {E : Type κ} {e f : E} → ◌≡◌ {A = Result A E} (err e) (err f) → e ≡ f
err-injective h = cc

-- Inversion of a successful bind, for chains: the rest of the chain proves `P`.
pub bind_ok {ℓ κ μ ν} :
    {A : Type ℓ} {B : Type κ} {E : Type μ} (P : Type ν) (m : Result A E) (f : A → Result B E)
    {b : B}
    → ((a : A) → m ≡ ok a → f a ≡ ok b → P)
    → (m >>= f) ≡ ok b
    → P
bind_ok P (ok a) f k h = k a refl h
bind_ok P (err e) f k h = cc

-- ===== src/Common/Outcome/Chain.antt =====
-- Inversion of a chain of results as a `do` block: each line names the value of one step, and the last
-- line takes the end of the chain and the proofs of its steps, the last step first.
use mathlib.Core.Path.{◌≡◌}
use armoni_k_api.Common.Outcome
use armoni_k_api.Common.Outcome.{Result, ok, bind_ok}

infixl 5 ◌>>=◌
abbrev pub ◌>>=◌ {ℓ κ μ ν} :
    {E : Type μ} {A : Type ℓ} {B : Type κ} {P : Type ν} {rest : A → Result B E} {b : B}
    (m : Result A E)
    → ((a : A) → rest a ≡ ok b → m ≡ ok a → P)
    → Outcome.◌>>=◌ m rest ≡ ok b
    → P
◌>>=◌ {P} {rest} m k = bind_ok P m rest λ a found done. k a done found

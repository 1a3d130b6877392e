-- ===== src/Base/Result.antt =====
-- The results of fallible code: `persistent::ResultStatus`, and a Boolean beside an error string.
use mathlib.Core.Path.{◌≡◌, refl}
use mathlib.Core.Logic.{◌⊎◌, inl, inr}
use mathlib.Core.Bool.{Bool, true, false}
use attemory.Base.Text.{Bytes}

pub data Result {ℓ} (A : Type ℓ) : Type ℓ where
  ok : A → Result A
  err : Bytes → Result A

abbrev pub ResultStatus : Type 0
ResultStatus = Result (Unit {0})

infixl 5 ◌>>=◌ ◌>>◌
abbrev pub ◌>>=◌ {ℓ κ} : {A : Type ℓ} {B : Type κ} → Result A → (A → Result B) → Result B
ok a >>= f = f a
err e >>= f = err e

abbrev pub ◌>>◌ {ℓ} : {B : Type ℓ} → ResultStatus → Result B → Result B
m >> k = m >>= λ _. k

-- `if (!test) return {false, e};`
abbrev pub require : Bool → Bytes → ResultStatus
require true e = ok tt
require false e = err e

pub Result-cases {ℓ} :
    {A : Type ℓ} (r : Result A) → ((a : A) × (r ≡ ok a)) ⊎ ((e : Bytes) × (r ≡ err e))
Result-cases (ok a) = inl (a, refl)
Result-cases (err e) = inr (e, refl)

-- Go on by the outcome. A call that is stuck shows the result that it waits for.
abbrev pub on_result {ℓ κ} : {A : Type ℓ} {B : Type κ} → Result A → (Bytes → B) → (A → B) → B
on_result (ok a) failed done = done a
on_result (err e) failed done = failed e

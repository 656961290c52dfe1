-- ===== src/Common/Options.antt =====
-- Steps that may fail, in a row.
use mathlib.Core.Path.{◌≡◌, sym, subst}
use mathlib.Core.Option.{Option, none, some}

infixl 5 ◌>>=◌
abbrev pub ◌>>=◌ {ℓ κ} : {A : Type ℓ} {B : Type κ} → Option A → (A → Option B) → Option B
none >>= f = none
some a >>= f = f a

-- A step that succeeds hands its value on.
pub >>=-some {ℓ κ} :
    {A : Type ℓ} {B : Type κ} {m : Option A} {a : A} (f : A → Option B) (r : Option B)
    → m ≡ some a
    → f a ≡ r
    → (m >>= f) ≡ r
>>=-some f r e e' = subst (λ o. (o >>= f) ≡ r) (sym e) e'

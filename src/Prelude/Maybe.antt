-- ===== src/Prelude/Maybe.antt =====
-- Chains of steps that may give nothing, for the code that returns `None` early.
use mathlib.Core.Path.{◌≡◌, refl}
use mathlib.Core.Bool.{Bool, true, false}
use mathlib.Core.Option.{Option, none, some}

infixl 5 ◌>>=◌ ◌>>◌
abbrev pub ◌>>=◌ {ℓ κ} : {A : Type ℓ} {B : Type κ} → Option A → (A → Option B) → Option B
none >>= next = none
some value >>= next = next value

abbrev pub ◌>>◌ {ℓ} : {B : Type ℓ} → Option (Unit {0}) → Option B → Option B
check >> next = check >>= λ _. next

-- `if not test: return None`
abbrev pub when : Bool → Option (Unit {0})
when true = some tt
when false = none

-- What a chain that gave a value went through.
pub bind-some {ℓ κ} :
    {A : Type ℓ} {B : Type κ} (m : Option A) (next : A → Option B) {b : B}
    → (m >>= next) ≡ some b
    → (a : A) × (m ≡ some a) × (next a ≡ some b)
bind-some none next h = cc
bind-some (some a) next h = (a, refl, h)

pub when-some {ℓ} :
    {B : Type ℓ} (test : Bool) (next : Option B) {b : B}
    → (when test >> next) ≡ some b
    → (test ≡ true) × (next ≡ some b)
when-some true next h = (refl, h)
when-some false next h = cc

-- ===== src/Resource.antt =====
-- edge/kanban_resource_admission.py: the shared results. The children model its parts.
pub mod Glob
pub mod Config
pub mod Workers
pub mod Scan
pub mod Outcomes
pub mod Dispatch
pub mod Tests
use hermes_n8n_control_plane.Prelude.{
  ℕ, String, ◌≡◌, refl, subst, Bool, true, false, ◌⊎◌, inl, inr, if◌then◌else◌, Comparable, ◌↔◌,
  arith, nat_beq, nat_beq_iff,
}

-- What a call may raise: `ResourceAdmissionError`, an `OSError`, or anything else, with its text.
pub data Fault : Type 0 where
  admission : String → Fault
  os : String → Fault
  other : String → Fault

pub data Attempt {ℓ} (A : Type ℓ) : Type ℓ where
  done : A → Attempt A
  raised : Fault → Attempt A

infixl 5 ◌>>=◌ ◌>>◌
unfoldable pub ◌>>=◌ {ℓ κ} : {A : Type ℓ} {B : Type κ} → Attempt A → (A → Attempt B) → Attempt B
raised fault >>= next = raised fault
done value >>= next = next value

unfoldable pub ◌>>◌ {ℓ} : {B : Type ℓ} → Attempt (Unit {0}) → Attempt B → Attempt B
unfolding ◌>>=◌
check >> next = check >>= λ _. next

-- `if test: raise ResourceAdmissionError(message)`
unfoldable pub refuse_if : Bool → String → Attempt (Unit {0})
refuse_if test message = if test then raised (admission message) else done tt

pub Attempt-cases {ℓ} :
    {A : Type ℓ} (m : Attempt A) → ((a : A) × (m ≡ done a)) ⊎ ((f : Fault) × (m ≡ raised f))
Attempt-cases (done a) = inl (a, refl)
Attempt-cases (raised f) = inr (f, refl)

pub done_injective {ℓ} : {A : Type ℓ} {a b : A} → done a ≡ done b → a ≡ b
done_injective h = cc

-- The value of a chain, through its first step.
pub bind-done {ℓ κ} :
    {A : Type ℓ} {B : Type κ} {m : Attempt A} {next : A → Attempt B} {b : B}
    → (m >>= next) ≡ done b
    → (a : A) × (m ≡ done a) × (next a ≡ done b)
unfolding ◌>>=◌
bind-done {m = raised f} h = cc
bind-done {m = done a} h = (a, refl, h)

-- Whatever value the call returns satisfies P.
pub record Ensures {ℓ κ} {A : Type ℓ} (P : A → Type κ) (m : Attempt A) : Type (ℓ ⊔ κ) where
  pub of_value : (a : A) → m ≡ done a → P a

pub done-Ensures {ℓ κ} : {A : Type ℓ} (P : A → Type κ) {a : A} → P a → Ensures P (done a)
done-Ensures P h = record { of_value = λ b e. subst P (done_injective e) h }

pub raised-Ensures {ℓ κ} : {A : Type ℓ} (P : A → Type κ) {f : Fault} → Ensures P (raised f)
raised-Ensures P = record { of_value = λ b e. cc }

-- A chain ensures what its last step ensures of what its first step ensures.
pub bind-Ensures {ℓ κ μ ν} :
    {A : Type ℓ} {B : Type κ} (P : A → Type μ) (Q : B → Type ν) {m : Attempt A}
    {next : A → Attempt B}
    → Ensures P m
    → ((a : A) → P a → Ensures Q (next a))
    → Ensures Q (m >>= next)
bind-Ensures P Q h step = record {
  of_value =
      λ b e. let (a, first, rest) = bind-done e in (step a (h.of_value a first)).of_value b rest;
}

pub then-Ensures {ℓ κ} :
    {B : Type ℓ} (Q : B → Type κ) (test : Bool) (message : String) {next : Attempt B}
    → (test ≡ false → Ensures Q next)
    → Ensures Q (refuse_if test message >> next)
unfolding ◌>>◌ ◌>>=◌ refuse_if
then-Ensures Q true message step = raised-Ensures Q
then-Ensures Q false message step = step refl

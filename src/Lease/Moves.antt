-- ===== src/Lease/Moves.antt =====
-- The moves of one lease that is not drawn again, over its phase and the number of its threads.
use hermes_n8n_control_plane.Prelude.{ℕ, zero, suc, ◌≤◌, ◌<◌, ◌≡◌, refl, ◌≢◌, ◌⊎◌, inl, inr, arith}
use hermes_n8n_control_plane.Lease.Phase.{Phase, foreign, waiting, held, closed, other, PauseLeaves}

-- One move of a lease: its phase, and its threads.
pub data Move : Phase → ℕ → Phase → ℕ → Type 0 where
  stay : {p : Phase} {n : ℕ} → Move p n p n
  replace : {p : Phase} {n : ℕ} → Move p n foreign n
  fail : {p : Phase} {n : ℕ} → Move p (suc n) p n
  finish :
      {p q : Phase} {n : ℕ}
      → (p ≡ held → q ≡ closed)
      → (q ≡ closed) ⊎ (q ≡ other)
      → p ≢ foreign
      → Move p (suc n) q n
  ask : {p : Phase} {n : ℕ} → Move p n held n
  close : {p q : Phase} {n : ℕ} → (p ≡ closed) ⊎ (p ≡ other) → q ≡ closed → Move p n q n
  restart : {p : Phase} {n m : ℕ} → m ≤ 1 → (0 < m → (p ≢ closed) × (p ≢ other)) → Move p n p m

-- A closed or active lease has no thread left.
abbrev pub Settled : Phase → ℕ → Type 0
Settled closed n = n ≡ 0
Settled other n = n ≡ 0
Settled _ n = n ≤ 1

-- The lease is paused for good.
abbrev pub Paused : Phase → ℕ → Type 0
Paused closed n = n ≡ 0
Paused other n = ⊥
Paused waiting n = ⊥
Paused _ n = n ≤ 1

Paused-le : (p : Phase) (n : ℕ) → Paused p n → n ≤ 1
Paused-le foreign n h = h
Paused-le waiting n h = absurd h
Paused-le held n h = h
Paused-le closed n h = omega arith
Paused-le other n h = absurd h

Settled-le : (p : Phase) (n : ℕ) → Settled p n → n ≤ 1
Settled-le closed n h = omega arith
Settled-le other n h = omega arith
Settled-le foreign n h = h
Settled-le waiting n h = h
Settled-le held n h = h

Paused-fail : (p : Phase) (n : ℕ) → Paused p (suc n) → Paused p n
Paused-fail closed n h = absurd (omega arith)
Paused-fail other n h = h
Paused-fail waiting n h = h
Paused-fail foreign n h = omega arith
Paused-fail held n h = omega arith

Paused-finish :
    (p q : Phase) (n : ℕ) → (p ≡ held → q ≡ closed) → p ≢ foreign → Paused p (suc n) → Paused q n
Paused-finish held q n e ne h = rw (e refl) (omega arith)
Paused-finish foreign q n e ne h = absurd (ne refl)
Paused-finish closed q n e ne h = absurd (omega arith)
Paused-finish other q n e ne h = absurd h
Paused-finish waiting q n e ne h = absurd h

Paused-close :
    (p q : Phase) (n : ℕ) → (p ≡ closed) ⊎ (p ≡ other) → q ≡ closed → Paused p n → Paused q n
Paused-close p q n (inl e) k h = rw k (rw e at h)
Paused-close p q n (inr e) k h = absurd (rw e at h)

Paused-restart :
    (p : Phase) (m n : ℕ) → m ≤ 1 → (0 < m → (p ≢ closed) × (p ≢ other)) → Paused p n → Paused p m
Paused-restart closed zero n le k h = refl
Paused-restart closed (suc m) n le k h = absurd ((k (omega arith)).0 refl)
Paused-restart other m n le k h = h
Paused-restart waiting m n le k h = h
Paused-restart foreign m n le k h = le
Paused-restart held m n le k h = le

pub Move-Paused : {p q : Phase} {n m : ℕ} → Move p n q m → Paused p n → Paused q m
Move-Paused stay h = h
Move-Paused (replace {p = p} {n = n}) h = Paused-le p n h
Move-Paused (fail {p = p} {n = n}) h = Paused-fail p n h
Move-Paused (finish {p = p} {q = q} {n = n} e _ ne) h = Paused-finish p q n e ne h
Move-Paused (ask {p = p} {n = n}) h = Paused-le p n h
Move-Paused (close {p = p} {q = q} {n = n} e k) h = Paused-close p q n e k h
Move-Paused (restart {p = p} {n = n} {m = m} le k) h = Paused-restart p m n le k h

Settled-fail : (p : Phase) (n : ℕ) → Settled p (suc n) → Settled p n
Settled-fail closed n h = absurd (omega arith)
Settled-fail other n h = absurd (omega arith)
Settled-fail waiting n h = omega arith
Settled-fail foreign n h = omega arith
Settled-fail held n h = omega arith

Settled-ended : (q : Phase) (n : ℕ) → n ≡ 0 → Settled q n
Settled-ended closed n h = h
Settled-ended other n h = h
Settled-ended waiting n h = omega arith
Settled-ended foreign n h = omega arith
Settled-ended held n h = omega arith

Settled-restart : (p : Phase) (m : ℕ) → m ≤ 1 → (0 < m → (p ≢ closed) × (p ≢ other)) → Settled p m
Settled-restart p zero le k = Settled-ended p 0 refl
Settled-restart closed (suc m) le k = absurd ((k (omega arith)).0 refl)
Settled-restart other (suc m) le k = absurd ((k (omega arith)).1 refl)
Settled-restart waiting (suc m) le k = le
Settled-restart foreign (suc m) le k = le
Settled-restart held (suc m) le k = le

Settled-close :
    (p q : Phase) (n : ℕ) → (p ≡ closed) ⊎ (p ≡ other) → q ≡ closed → Settled p n → Settled q n
Settled-close p q n (inl e) k h = rw k (rw e at h)
Settled-close p q n (inr e) k h = rw k (rw e at h)

pub Move-Settled : {p q : Phase} {n m : ℕ} → Move p n q m → Settled p n → Settled q m
Move-Settled stay h = h
Move-Settled (replace {p = p} {n = n}) h = Settled-le p n h
Move-Settled (fail {p = p} {n = n}) h = Settled-fail p n h
Move-Settled (finish {p = p} {q = q} {n = n} e _ ne) h =
    let le = Settled-le p (suc n) h in Settled-ended q n (omega arith)
Move-Settled (ask {p = p} {n = n}) h = Settled-le p n h
Move-Settled (close {p = p} {q = q} {n = n} e k) h = Settled-close p q n e k h
Move-Settled (restart {p = p} {n = n} {m = m} le k) h = Settled-restart p m le k

-- A pause that is granted, in a settled state, pauses.
pub granted : (p q : Phase) (n : ℕ) → PauseLeaves p q → Settled p n → Paused q n
granted p foreign n l h = Settled-le p n h
granted p held n l h = Settled-le p n h
granted p closed n (inl e) h = rw e at h
granted p closed n (inr e) h = rw e at h
granted p waiting n l h = absurd l
granted p other n l h = absurd l

-- ===== src/Router/Scope/Sorting.antt =====
-- `list.sort(key=…)` on texts by the code points of a key.
use hermes_n8n_control_plane.Prelude.{
  ℕ, String, ◌≡◌, refl, true, false, ◌||◌, sym, ◌∙◌, codes_beq_iff, List, [], ◌∷◌, ◌==◌,
  codes_comparable, number_comparable, codes_le, contains, length, suc, ap, arith, if◌then◌else◌,
  All, Bool-cases, inl, inr,
}

module _ (key : String → List ℕ) where
  unfoldable pub insert_by : String → List String → List String
  insert_by x [] = x ∷ []
  insert_by x (y ∷ ys) = if codes_le (key x) (key y) then x ∷ y ∷ ys else y ∷ insert_by x ys

  unfoldable pub sort_by : List String → List String
  unfolding insert_by
  sort_by [] = []
  sort_by (x ∷ xs) = insert_by x (sort_by xs)

  -- In the order of the keys.
  abbrev pub Sorted : List String → Type 0
  Sorted [] = Unit
  Sorted (x ∷ []) = Unit
  Sorted (x ∷ y ∷ ys) = (codes_le (key x) (key y) ≡ true) × Sorted (y ∷ ys)

  -- No two keys are equal, and none is among those seen.
  abbrev pub Fresh : List (List ℕ) → List String → Type 0
  Fresh seen [] = Unit
  Fresh seen (x ∷ xs) = (contains (key x) seen ≡ false) × Fresh (key x ∷ seen) xs

codes_le_total : (xs ys : List ℕ) → codes_le xs ys ≡ false → codes_le ys xs ≡ true
unfolding codes_le
codes_le_total [] ys h = cc
codes_le_total (x ∷ xs) [] h = refl
codes_le_total (x ∷ xs) (y ∷ ys) h = ground (arith, codes_le_total xs ys)

module _ (key : String → List ℕ) where
  -- A sorted list is left as it is.
  pub sort_by_fixed : (xs : List String) → Sorted key xs → sort_by key xs ≡ xs
  unfolding sort_by
  sort_by_fixed [] h = refl
  sort_by_fixed (x ∷ []) h = refl
  sort_by_fixed (x ∷ y ∷ ys) h = rw (sort_by_fixed (y ∷ ys) h.1, insert_by, h.0)

  Sorted-cons-insert :
      (x y : String) (ys : List String)
      → codes_le (key y) (key x) ≡ true
      → Sorted key (y ∷ ys)
      → Sorted key (insert_by key x ys)
      → Sorted key (y ∷ insert_by key x ys)
  unfolding insert_by
  Sorted-cons-insert x y [] le h k = (le, k)
  Sorted-cons-insert x y (z ∷ zs) le h k = elim (Bool-cases (codes_le (key x) (key z))) [
    | inl first ↦ rw (first, insert_by) (le, rw (first, insert_by) at k)
    | inr later ↦ rw (later, insert_by) (h.0, rw (later, insert_by) at k)
  ]

  Sorted-tail : (x : String) (xs : List String) → Sorted key (x ∷ xs) → Sorted key xs
  Sorted-tail x [] h = tt
  Sorted-tail x (y ∷ ys) h = h.1

  Sorted-insert : (x : String) (ys : List String) → Sorted key ys → Sorted key (insert_by key x ys)
  unfolding insert_by
  Sorted-insert x [] h = tt
  Sorted-insert x (y ∷ ys) h = elim (Bool-cases (codes_le (key x) (key y))) [
    | inl first ↦ rw (first, insert_by) (first, h)
    | inr later ↦
        rw (later, insert_by)
          (Sorted-cons-insert x y ys (codes_le_total (key x) (key y) later) h
            (Sorted-insert x ys (Sorted-tail y ys h)))
  ]

  pub Sorted-sort_by : (xs : List String) → Sorted key (sort_by key xs)
  unfolding sort_by
  Sorted-sort_by [] = tt
  Sorted-sort_by (x ∷ xs) = Sorted-insert x (sort_by key xs) (Sorted-sort_by xs)

  Fresh-ext :
      (s t : List (List ℕ)) (xs : List String)
      → ((k : List ℕ) → contains k s ≡ contains k t)
      → Fresh key s xs
      → Fresh key t xs
  Fresh-ext s t [] same h = tt
  Fresh-ext s t (x ∷ xs) same h = (
    sym (same (key x)) ∙ h.0,
    Fresh-ext (key x ∷ s) (key x ∷ t) xs (λ k. ap (λ b. (key x == k) || b) (same k)) h.1,
  )

  Fresh-swap :
      (seen : List (List ℕ)) (x y : String) (ys : List String)
      → Fresh key seen (x ∷ y ∷ ys)
      → Fresh key seen (y ∷ x ∷ ys)
  Fresh-swap seen x y ys (hx, (hy, h)) = (
    ground arith,
    (
      ground (arith, codes_beq_iff (key x) (key y), codes_beq_iff (key y) (key x)),
      Fresh-ext (key y ∷ key x ∷ seen) (key x ∷ key y ∷ seen) ys (λ k. ground arith) h,
    ),
  )

  Fresh-insert :
      (seen : List (List ℕ)) (x : String) (ys : List String)
      → Fresh key seen (x ∷ ys)
      → Fresh key seen (insert_by key x ys)
  unfolding insert_by
  Fresh-insert seen x [] h = h
  Fresh-insert seen x (y ∷ ys) h = elim (Bool-cases (codes_le (key x) (key y))) [
    | inl first ↦ rw (first, insert_by) h
    | inr later ↦
        let swapped = Fresh-swap seen x y ys h in
        rw (later, insert_by) (swapped.0, Fresh-insert (key y ∷ seen) x ys swapped.1)
  ]

  pub Fresh-sort_by :
      (seen : List (List ℕ)) (xs : List String)
      → Fresh key seen xs
      → Fresh key seen (sort_by key xs)
  unfolding sort_by
  Fresh-sort_by seen [] h = h
  Fresh-sort_by seen (x ∷ xs) h =
      Fresh-insert seen x (sort_by key xs) (h.0, Fresh-sort_by (key x ∷ seen) xs h.1)

  length-insert_by : (x : String) (ys : List String) → length (insert_by key x ys) ≡ suc (length ys)
  unfolding insert_by
  length-insert_by x [] = refl
  length-insert_by x (y ∷ ys) = ground (arith, length-insert_by x ys)

  pub length-sort_by : (xs : List String) → length (sort_by key xs) ≡ length xs
  unfolding sort_by
  length-sort_by [] = refl
  length-sort_by (x ∷ xs) = length-insert_by x (sort_by key xs) ∙ ap suc (length-sort_by xs)

  module _ (P : String → Type 0) where
    All-insert_by : (x : String) (ys : List String) → P x → All P ys → All P (insert_by key x ys)
    unfolding insert_by
    All-insert_by x [] h k = (h, tt)
    All-insert_by x (y ∷ ys) h k = elim (Bool-cases (codes_le (key x) (key y))) [
      | inl first ↦ rw (first, insert_by) (h, k)
      | inr later ↦ rw (later, insert_by) (k.0, All-insert_by x ys h k.1)
    ]

    pub All-sort_by : (xs : List String) → All P xs → All P (sort_by key xs)
    unfolding sort_by
    All-sort_by [] h = tt
    All-sort_by (x ∷ xs) h = All-insert_by x (sort_by key xs) h.0 (All-sort_by xs h.1)

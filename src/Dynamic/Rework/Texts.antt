-- ===== src/Dynamic/Rework/Texts.antt =====
-- What the two patterns find in a text: `_REWORK_MARKER_RE` and `_INTAKE_MARKER_RE`.
use hermes_n8n_control_plane.Prelude.{
  ℕ, ◌≡◌, ◌⊎◌, inl, inr, refl, sym, ap, subst, Bool, true, false, not, ◌||◌, Option, none, some,
  List, [], ◌∷◌, ◌++◌, ◌==◌, number_comparable, codes, is_space, is_digit, ltb, Bool-cases,
  and-parts, All, arith,
}
use hermes_n8n_control_plane.Dynamic.Rework.{
  Marks, fold_one, after_text, found, skip_spaces, dev_round_here, digit_first, numbered_round,
  rework_marker_here, somewhere, has_rework_marker, has_intake_marker,
}

-- The text in any case: code point by code point, with equal folds.
abbrev pub Folds : Marks → List ℕ → List ℕ → Type 0
Folds marks [] [] = Unit
Folds marks (p ∷ ps) (c ∷ cs) = (fold_one marks c ≡ fold_one marks p) × Folds marks ps cs
Folds marks _ _ = ⊥

-- The list is the text in any case and what is left.
pub record Begins (marks : Marks) (text cs left : List ℕ) : Type 0 where
  pub said : List ℕ
  pub split : cs ≡ said ++ left
  pub folds : Folds marks text said

-- A decimal digit, of ASCII or by the table.
abbrev pub IsDigit : Marks → ℕ → Type 0
IsDigit marks c = (is_digit c ≡ true) ⊎ (marks.digit_table c ≡ true)

abbrev pub IsSeparator : ℕ → Type 0
IsSeparator c = ((c ≡ b'-') ⊎ (c ≡ b'_')) ⊎ (c ≡ b' ')

-- What the text of a rework has: a word for it, `DEV Round`, or a numbered round.
pub data Marker (marks : Marks) (cs : List ℕ) : Type 0 where
  rework : (left : List ℕ) → Begins marks (codes "rework") cs left → Marker marks cs
  rework_korean : (left : List ℕ) → Begins marks (codes "재작업") cs left → Marker marks cs
  dev_round :
      (c : ℕ) (spaces round left : List ℕ)
      → Begins marks (codes "dev") cs (c ∷ spaces ++ round)
      → is_space c ≡ true
      → All (λ d. is_space d ≡ true) spaces
      → Begins marks (codes "round") round left
      → Marker marks cs
  numbered :
      (d : ℕ) (left : List ℕ)
      → Begins marks (codes "round") cs (d ∷ left)
      → IsDigit marks d
      → Marker marks cs
  numbered_apart :
      (c d : ℕ) (left : List ℕ)
      → Begins marks (codes "round") cs (c ∷ d ∷ left)
      → IsSeparator c
      → IsDigit marks d
      → Marker marks cs

-- The list has a part from which P holds.
abbrev pub Somewhere : (List ℕ → Type 0) → List ℕ → Type 0
Somewhere P cs = (front : List ℕ) × (rest : List ℕ) × (cs ≡ front ++ rest) × P rest

abbrev pub IsIntake : Marks → List ℕ → Type 0
IsIntake marks cs =
    Somewhere (λ rest. (left : List ℕ) × Begins marks (codes "github issue intake") rest left) cs

pub or-parts : (a b : Bool) → (a || b) ≡ true → (a ≡ true) ⊎ (b ≡ true)
or-parts true b h = inl refl
or-parts false b h = inr h

module _ (marks : Marks) where
  after_text-Begins :
      (text cs left : List ℕ) → after_text marks text cs ≡ some left → Begins marks text cs left
  unfolding after_text
  after_text-Begins [] cs left h = record { said = []; split = cc; folds = tt }
  after_text-Begins (p ∷ ps) [] left h = cc
  after_text-Begins (p ∷ ps) (c ∷ cs) left h =
      elim (Bool-cases (fold_one marks c == fold_one marks p)) [
        | inr other ↦ absurd (cc (rw (other, after_text) at h))
        | inl same ↦
            let b = after_text-Begins ps cs left (rw (same, after_text) at h) in
            record {
              said = c ∷ b.said;
              split = ap (λ l. c ∷ l) b.split;
              folds = (
                (number_comparable.same_iff (fold_one marks c) (fold_one marks p)).0 same,
                b.folds,
              );
            }
      ]

  begun :
      (text said left : List ℕ)
      → Folds marks text said
      → after_text marks text (said ++ left) ≡ some left
  unfolding after_text
  begun [] [] left f = refl
  begun [] (c ∷ said) left f = absurd f
  begun (p ∷ ps) [] left f = absurd f
  begun (p ∷ ps) (c ∷ said) left f =
      rw ((number_comparable.same_iff (fold_one marks c) (fold_one marks p)).1 f.0, after_text)
        (begun ps said left f.1)

  somewhere_sound :
      (here : List ℕ → Bool) (P : List ℕ → Type 0)
      → ((rest : List ℕ) → here rest ≡ true → P rest)
      → (cs : List ℕ) → somewhere here cs ≡ true
      → Somewhere P cs
  somewhere_sound here P sound [] h = ([], [], refl, sound [] h)
  somewhere_sound here P sound (c ∷ cs) h = elim (Bool-cases (here (c ∷ cs))) [
    | inl now ↦ ([], c ∷ cs, refl, sound (c ∷ cs) now)
    | inr later ↦
        let (front, rest, split, p) = somewhere_sound here P sound cs (rw later at h) in
        (c ∷ front, rest, ap (λ l. c ∷ l) split, p)
  ]

  nowhere :
      (here : List ℕ → Bool) (front rest : List ℕ)
      → somewhere here (front ++ rest) ≡ false
      → here rest ≡ false
  nowhere here [] [] h = h
  nowhere here [] (c ∷ rest) h = ground arith
  nowhere here (c ∷ front) rest h = nowhere here front rest (ground (arith))

  -- A title without the intake's words has them nowhere.
  pub no-IsIntake : (cs : List ℕ) → has_intake_marker marks cs ≡ false → ¬ IsIntake marks cs
  unfolding has_intake_marker
  no-IsIntake cs h (front, rest, split, (left, b)) =
      let silent =
        nowhere (λ r. found (after_text marks (codes "github issue intake") r)) front rest
          (subst (λ l. has_intake_marker marks l ≡ false) split h) in
      let begins : after_text marks (codes "github issue intake") rest ≡ some left =
        subst (λ l. after_text marks (codes "github issue intake") l ≡ some left) (sym b.split)
          (begun (codes "github issue intake") b.said left b.folds) in
      let yes : found (after_text marks (codes "github issue intake") rest) ≡ true =
        rw begins refl in
      cc (yes, silent)

  found-some : {A : Type 0} (o : Option A) → found o ≡ true → (a : A) × (o ≡ some a)
  found-some none h = cc
  found-some (some a) h = (a, refl)

  found-Begins :
      (text cs : List ℕ)
      → found (after_text marks text cs) ≡ true
      → (left : List ℕ) × Begins marks text cs left
  found-Begins text cs h =
      let (left, e) = found-some (after_text marks text cs) h in
      (left, after_text-Begins text cs left e)

  spaces_skipped :
      (cs : List ℕ)
      → (spaces : List ℕ) × (cs ≡ spaces ++ skip_spaces cs) × All (λ d. is_space d ≡ true) spaces
  spaces_skipped [] = ([], refl, tt)
  spaces_skipped (c ∷ cs) = elim (Bool-cases (is_space c)) [
    | inl space ↦
        let (spaces, split, all) = spaces_skipped cs in
        (c ∷ spaces, rw space (ap (λ l. c ∷ l) split), (space, all))
    | inr other ↦ ([], rw other refl, tt)
  ]

  dev_round_here-Marker :
      (cs : List ℕ) (o : Option (List ℕ))
      → after_text marks (codes "dev") cs ≡ o
      → dev_round_here marks o ≡ true
      → Marker marks cs
  dev_round_here-Marker cs none e h = cc
  dev_round_here-Marker cs (some []) e h = cc
  dev_round_here-Marker cs (some (c ∷ rest)) e h =
      let (space, round) = and-parts (is_space c) _ h in
      let (spaces, split, all) = spaces_skipped rest in
      let (left, b) = found-Begins (codes "round") (skip_spaces rest) round in
      dev_round c spaces (skip_spaces rest) left
        (subst (λ l. Begins marks (codes "dev") cs (c ∷ l)) split
          (after_text-Begins (codes "dev") cs (c ∷ rest) e))
        space all b

  digit_first-IsDigit :
      (cs : List ℕ)
      → digit_first marks cs ≡ true
      → (d : ℕ) × (left : List ℕ) × (cs ≡ d ∷ left) × IsDigit marks d
  digit_first-IsDigit [] h = cc
  digit_first-IsDigit (c ∷ cs) h = elim (or-parts (is_digit c) _ h) [
    | inl ascii ↦ (c, cs, refl, inl ascii)
    | inr table ↦ (c, cs, refl, inr (and-parts (not (ltb c 128)) _ table).1)
  ]

  separator : (c : ℕ) → (c == b'-' || c == b'_' || c == b' ') ≡ true → IsSeparator c
  separator c h = ground arith

  numbered_round-Marker :
      (cs : List ℕ) (o : Option (List ℕ))
      → after_text marks (codes "round") cs ≡ o
      → numbered_round marks o ≡ true
      → Marker marks cs
  numbered_round-Marker cs none e h = cc
  numbered_round-Marker cs (some []) e h = cc
  numbered_round-Marker cs (some (c ∷ rest)) e h =
      let begins = after_text-Begins (codes "round") cs (c ∷ rest) e in
      elim (or-parts (digit_first marks (c ∷ rest)) _ h) [
        | inl digit ↦
            let (d, left, split, is) = digit_first-IsDigit (c ∷ rest) digit in
            numbered d left (subst (λ l. Begins marks (codes "round") cs l) split begins) is
        | inr apart ↦
            let (mark, digit) = and-parts (c == b'-' || c == b'_' || c == b' ') _ apart in
            let (d, left, split, is) = digit_first-IsDigit rest digit in
            numbered_apart c d left
              (subst (λ l. Begins marks (codes "round") cs (c ∷ l)) split begins) (separator c mark)
              is
      ]

  rework_marker_here-Marker : (cs : List ℕ) → rework_marker_here marks cs ≡ true → Marker marks cs
  unfolding rework_marker_here
  rework_marker_here-Marker cs h = elim (or-parts _ _ h) [
    | inr round ↦ numbered_round-Marker cs _ refl round
    | inl h3 ↦ elim (or-parts _ _ h3) [
      | inr dev ↦ dev_round_here-Marker cs _ refl dev
      | inl h2 ↦ elim (or-parts _ _ h2) [
        | inr korean ↦ let (left, b) = found-Begins (codes "재작업") cs korean in rework_korean left b
        | inl english ↦ let (left, b) = found-Begins (codes "rework") cs english in rework left b
      ]
    ]
  ]

  pub has_rework_marker-Marker :
      (cs : List ℕ) → has_rework_marker marks cs ≡ true → Somewhere (Marker marks) cs
  unfolding has_rework_marker
  has_rework_marker-Marker cs h =
      somewhere_sound (λ rest. rework_marker_here marks rest) (Marker marks)
        rework_marker_here-Marker cs h

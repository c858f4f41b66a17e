-- ===== src/Signals/Lines.antt =====
-- The lines of a comment: `splitlines`, stripped, without the blank ones.
use hermes_n8n_control_plane.Prelude.{
  ℕ, String, Bool, true, false, ◌&&◌, ◌||◌, List, [], ◌∷◌, ◌++◌, ◌==◌, number_comparable,
  codes_comparable, if◌then◌else◌, codes, trim_left, trim_right, between,
}

-- The line boundaries of `str.splitlines`; a CR LF pair counts as two, with a blank line between.
abbrev pub is_break : ℕ → Bool
is_break c = between 10 13 c || between 28 30 c || c == 133 || c == 8232 || c == 8233

-- A line is kept when it is not blank.
abbrev pub with_line : List ℕ → List (List ℕ) → List (List ℕ)
with_line line rest =
    let trimmed = trim_right (trim_left line) in if trimmed == [] then rest else trimmed ∷ rest

-- `line` holds the code points of the line so far.
unfoldable pub lines_from : List ℕ → List ℕ → List (List ℕ)
unfolding trim_left trim_right
lines_from line [] = with_line line []
lines_from line (c ∷ cs) =
    if is_break c then with_line line (lines_from [] cs) else lines_from (line ++ c ∷ []) cs

-- `[line.strip() for line in text.splitlines() if line.strip()]`
unfoldable pub stripped_lines : String → List (List ℕ)
unfolding lines_from
stripped_lines text = lines_from [] (codes text)

abbrev pub same_lines : List (List ℕ) → List (List ℕ) → Bool
same_lines [] [] = true
same_lines (x ∷ xs) (y ∷ ys) = x == y && same_lines xs ys
same_lines _ _ = false

-- `reversed(l)`
unfoldable pub reversed {ℓ} : {A : Type ℓ} → List A → List A
reversed [] = []
reversed (x ∷ xs) = reversed xs ++ x ∷ []

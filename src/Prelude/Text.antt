-- ===== src/Prelude/Text.antt =====
-- Python's `str` as the native text: strip, case folding and the character classes of the patterns.
use Prim.Native.Nat.{ℕ, suc, ◌+◌}
use Prim.Native.Char.{code}
use Prim.Native.String.{String}
use mathlib.Core.Path.{◌≡◌, refl}
use mathlib.Core.Logic.{◌≢◌, inl, inr}
use native.Mathlib.Omega.{arith}
use text.Mathlib.TextEquality.{eq_iff}
use mathlib.Core.Bool.{Bool, true, false, not, ◌&&◌, ◌||◌}
use mathlib.Core.Option.{Option, none, some}
use mathlib.Core.List.{List, [], ◌∷◌, ◌++◌}
use hermes_n8n_control_plane.Prelude.Tests.{
  leb, ltb, ◌==◌, number_comparable, codes_comparable, text_comparable, if◌then◌else◌, Bool-cases,
}

-- The code points of a text.
abbrev pub codes : String → List ℕ
codes String.[] = []
codes (String.◌∷◌ c s) = code c ∷ codes s

-- `len(s)`
abbrev pub len_of : String → ℕ
len_of String.[] = 0
len_of (String.◌∷◌ c s) = suc (len_of s)

abbrev pub between : ℕ → ℕ → ℕ → Bool
between lo hi c = leb lo c && leb c hi

-- `str.isspace` of one code point.
unfoldable pub is_space : ℕ → Bool
is_space c =
    between 9 13 c
    || between 28 32 c
    || c == 133
    || c == 160
    || c == 5760
    || between 8192 8202 c
    || between 8232 8233 c
    || c == 8239
    || c == 8287
    || c == 12288

-- `strip` on code points.
unfoldable pub trim_left : List ℕ → List ℕ
unfolding is_space
trim_left [] = []
trim_left (c ∷ cs) = let rest = trim_left cs in if is_space c then rest else c ∷ cs

unfoldable pub trim_right : List ℕ → List ℕ
unfolding is_space
trim_right [] = []
trim_right (c ∷ cs) = let rest = trim_right cs in if is_space c && rest == [] then [] else c ∷ rest

unfoldable pub strip_left : String → String
unfolding is_space
strip_left String.[] = String.[]
strip_left (String.◌∷◌ c s) =
    let rest = strip_left s in if is_space (code c) then rest else String.◌∷◌ c s

unfoldable pub strip_right : String → String
unfolding is_space
strip_right String.[] = String.[]
strip_right (String.◌∷◌ c s) =
    let rest = strip_right s in
    if is_space (code c) && rest == "" then String.[] else String.◌∷◌ c rest

-- `s.strip()`
unfoldable pub strip : String → String
unfolding strip_left strip_right
strip s = strip_right (strip_left s)

abbrev pub is_digit : ℕ → Bool
is_digit c = between b'0' b'9' c

abbrev pub is_lower : ℕ → Bool
is_lower c = between b'a' b'z' c

abbrev pub is_upper : ℕ → Bool
is_upper c = between b'A' b'Z' c

-- [A-Za-z0-9]
abbrev pub is_alnum : ℕ → Bool
is_alnum c = is_upper c || is_lower c || is_digit c

abbrev pub all_codes : (ℕ → Bool) → List ℕ → Bool
all_codes p [] = true
all_codes p (c ∷ cs) = p c && all_codes p cs

-- One code point under `str.casefold`; beyond ASCII by the Unicode table.
unfoldable pub fold_code : (ℕ → List ℕ) → ℕ → List ℕ
fold_code table c = if is_upper c then (c + 32) ∷ [] else if ltb c 128 then c ∷ [] else table c

unfoldable pub fold_codes : (ℕ → List ℕ) → List ℕ → List ℕ
unfolding fold_code
fold_codes table [] = []
fold_codes table (c ∷ cs) = fold_code table c ++ fold_codes table cs

-- The code points of `s.casefold()`.
unfoldable pub casefold : (ℕ → List ℕ) → String → List ℕ
unfolding fold_codes
casefold table s = fold_codes table (codes s)

-- `a <= b` on texts, by code points.
unfoldable pub codes_le : List ℕ → List ℕ → Bool
codes_le [] ys = true
codes_le (x ∷ xs) [] = false
codes_le (x ∷ xs) (y ∷ ys) = ltb x y || (x == y && codes_le xs ys)

-- What follows the prefix p of a text that starts with it.
unfoldable pub drop_prefix : String → String → Option String
drop_prefix String.[] s = some s
drop_prefix (String.◌∷◌ p ps) String.[] = none
drop_prefix (String.◌∷◌ p ps) (String.◌∷◌ c cs) =
    let rest = drop_prefix ps cs in if code p == code c then rest else none

pub ne→beq : (a b : String) → a ≢ b → (a == b) ≡ false
ne→beq a b h = ground (arith, eq_iff a b)

-- Two texts that compare as different are different.
pub differ : (a b : String) → (a == b) ≡ false → a ≢ b
differ a b h e = ground (arith, eq_iff a b)

strip_left_clean :
    (s : String) → all_codes (λ c. not (is_space c)) (codes s) ≡ true → strip_left s ≡ s
unfolding strip_left
strip_left_clean String.[] h = refl
strip_left_clean (String.◌∷◌ c s) h = elim (Bool-cases (is_space (code c))) [
  | inl space ↦ let no : false ≡ true = rw space at h in cc
  | inr other ↦ rw other
]

strip_right_clean :
    (s : String) → all_codes (λ c. not (is_space c)) (codes s) ≡ true → strip_right s ≡ s
unfolding strip_right
strip_right_clean String.[] h = refl
strip_right_clean (String.◌∷◌ c s) h = elim (Bool-cases (is_space (code c))) [
  | inl space ↦ let no : false ≡ true = rw space at h in cc
  | inr other ↦ rw (other, strip_right_clean s (rw other at h))
]

-- A text without blanks is stripped already.
pub strip_clean : (s : String) → all_codes (λ c. not (is_space c)) (codes s) ≡ true → strip s ≡ s
unfolding strip
strip_clean s h = rw (strip_left_clean s h) (strip_right_clean s h)

pub all_codes_mono :
    (p q : ℕ → Bool) (cs : List ℕ)
    → ((c : ℕ) → p c ≡ true → q c ≡ true)
    → all_codes p cs ≡ true
    → all_codes q cs ≡ true
all_codes_mono p q [] step h = refl
all_codes_mono p q (c ∷ cs) step h = elim (Bool-cases (p c)) [
  | inl good ↦ rw (step c good) (all_codes_mono p q cs step (rw good at h))
  | inr bad ↦ let wrong : false ≡ true = rw bad at h in cc
]

-- ===== src/Resource/Glob.antt =====
-- `fnmatch.fnmatchcase` on code points: the pattern is compiled to tokens, which a text is matched
-- against.
use hermes_n8n_control_plane.Prelude.{
  ℕ, zero, suc, ◌+◌, String, Bool, true, false, not, ◌||◌, Option, none, some, List, [], ◌∷◌, ◌==◌,
  number_comparable, between, codes, if◌then◌else◌,
}

-- One member of a set: `a` is the span from a to a, `a-z` the span from a to z.
pub record Span : Type 0 where
  pub lo : ℕ
  pub hi : ℕ

pub data Token : Type 0 where
  star : Token
  any_one : Token
  lit : ℕ → Token
  one_of : Bool → List Span → Token

-- The members of a set, read from the left; a dash at either end stands for itself.
unfoldable pub spans : List ℕ → List Span
spans [] = []
spans (c ∷ []) = record { lo = c; hi = c } ∷ []
spans (c ∷ d ∷ []) = record { lo = c; hi = c } ∷ record { lo = d; hi = d } ∷ []
spans (c ∷ d ∷ e ∷ cs) = elim (d == b'-') [
  | true ↦ record { lo = c; hi = e } ∷ spans cs
  | false ↦ record { lo = c; hi = c } ∷ spans (d ∷ e ∷ cs)
]

-- What stands before the first `]`.
unfoldable pub before_bracket : List ℕ → Option (List ℕ)
before_bracket [] = none
before_bracket (c ∷ cs) =
    let rest = before_bracket cs in
    if c == b']' then some [] else elim rest [ some inside ↦ some (c ∷ inside) | none ↦ none ]

-- A `]` that comes first is a member.
unfoldable pub set_body : List ℕ → Option (List ℕ)
unfolding before_bracket
set_body [] = none
set_body (c ∷ cs) =
    if c == b']'
    then elim (before_bracket cs) [ some inside ↦ some (c ∷ inside) | none ↦ none ]
    else before_bracket (c ∷ cs)

abbrev size_of : List ℕ → ℕ
size_of [] = 0
size_of (c ∷ cs) = suc (size_of cs)

-- The set after an opening bracket, with the number of code points up to its closing one.
unfoldable pub read_set : List ℕ → Option (Token × ℕ)
unfolding set_body spans
read_set [] = none
read_set (c ∷ cs) = elim (c == b'!') [
  | true ↦ elim (set_body cs) [
    | some inside ↦ some (one_of true (spans inside), size_of inside + 2)
    | none ↦ none
  ]
  | false ↦ elim (set_body (c ∷ cs)) [
    | some inside ↦ some (one_of false (spans inside), size_of inside + 1)
    | none ↦ none
  ]
]

-- `fnmatch.translate`; the number counts the code points that a set has used.
unfoldable pub compile : ℕ → List ℕ → List Token
unfolding read_set
compile skip [] = []
compile (suc skip) (c ∷ cs) = compile skip cs
compile zero (c ∷ cs) =
    if c == b'*'
    then star ∷ compile zero cs
    else if c == b'?'
    then any_one ∷ compile zero cs
    else if c == b'['
    then elim (read_set cs) [
      | some (set, used) ↦ set ∷ compile used cs
      | none ↦ lit c ∷ compile zero cs
    ]
    else lit c ∷ compile zero cs

abbrev pub in_spans : ℕ → List Span → Bool
in_spans c [] = false
in_spans c (s ∷ ss) = between s.lo s.hi c || in_spans c ss

-- Whether one token other than a star takes the code point.
abbrev pub accepts : Token → ℕ → Bool
accepts star c = false
accepts any_one c = true
accepts (lit d) c = c == d
accepts (one_of negated ss) c = if negated then not (in_spans c ss) else in_spans c ss

-- The match of the whole text: a star takes nothing, or one code point and goes on.
unfoldable pub glob_match : List Token → List ℕ → Bool
glob_match [] [] = true
glob_match [] (c ∷ cs) = false
glob_match (star ∷ p) [] = glob_match p []
glob_match (star ∷ p) (c ∷ cs) = elim (glob_match p (c ∷ cs)) [
  | true ↦ true
  | false ↦ glob_match (star ∷ p) cs
]
glob_match (any_one ∷ p) [] = false
glob_match (any_one ∷ p) (c ∷ cs) = glob_match p cs
glob_match (lit d ∷ p) [] = false
glob_match (lit d ∷ p) (c ∷ cs) = elim (c == d) [ true ↦ glob_match p cs | false ↦ false ]
glob_match (one_of n ss ∷ p) [] = false
glob_match (one_of n ss ∷ p) (c ∷ cs) = elim (accepts (one_of n ss) c) [
  | true ↦ glob_match p cs
  | false ↦ false
]

unfoldable pub fnmatchcase : String → String → Bool
unfolding compile glob_match
fnmatchcase name pattern_text = glob_match (compile zero (codes pattern_text)) (codes name)

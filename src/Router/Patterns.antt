-- ===== src/Router/Patterns.antt =====
-- The settings and the regular expressions of router.py, each matched against a whole text.
use hermes_n8n_control_plane.Prelude.{
  ℕ, String, Bool, true, false, ◌&&◌, ◌||◌, Option, none, some, List, [], ◌∷◌, ◌==◌,
  number_comparable, text_comparable, ◌≡◌, refl, leb, length, codes, all_codes, strip, is_digit,
  is_lower, is_alnum, between, if◌then◌else◌,
}

-- What the environment configures. `fold_table` is `str.casefold` beyond ASCII.
pub record Settings : Type 0 where
  pub scope_ttl_seconds : ℕ
  pub scope_claim_lease_seconds : ℕ
  pub scope_max_attempts : ℕ
  pub scope_max_pending : ℕ
  pub delivery_ttl_seconds : ℕ
  pub delivery_max_entries : ℕ
  pub github_owner : String
  pub github_owner_type : String
  pub github_installation_id : Option ℕ
  pub fold_table : ℕ → List ℕ

-- `s == s.strip()`
unfoldable pub is_stripped : String → Bool
unfolding strip
is_stripped s = strip s == s

abbrev pub one_of : String → ℕ → Bool
one_of s c = any_code (codes s)
  where
    any_code : List ℕ → Bool
    any_code = elim [ [] ↦ false | x ∷ (xs → found) ↦ x == c || found ]

abbrev pub long : ℕ → ℕ → List ℕ → Bool
long lo hi cs = leb lo (length cs) && leb (length cs) hi

-- _DELIVERY_ID_RE and _SCOPE_ID_RE: [A-Za-z0-9._:-]{1,128}
unfoldable pub delivery_id_ok : String → Bool
delivery_id_ok s = all_codes (λ c. is_alnum c || one_of "._:-" c) (codes s) && long 1 128 (codes s)

-- _CLAIM_TOKEN_RE: [a-f0-9]{32}
unfoldable pub claim_token_ok : String → Bool
claim_token_ok s =
    all_codes (λ c. between b'a' b'f' c || is_digit c) (codes s) && long 32 32 (codes s)

-- _SCOPE_REASON_RE: [a-z][a-z0-9_]{1,63}
abbrev reason_codes_ok : List ℕ → Bool
reason_codes_ok [] = false
reason_codes_ok (c ∷ cs) =
    is_lower c && all_codes (λ d. is_lower d || is_digit d || d == b'_') cs && long 1 63 cs

unfoldable pub scope_reason_ok : String → Bool
scope_reason_ok s = reason_codes_ok (codes s)

-- _ACTION_RE: [A-Za-z0-9_-]{1,64}
unfoldable pub action_ok : String → Bool
action_ok s = all_codes (λ c. is_alnum c || one_of "_-" c) (codes s) && long 1 64 (codes s)

-- The code points before the first slash, and those behind it, if there is one.
unfoldable pub split_at_slash : List ℕ → List ℕ × Option (List ℕ)
split_at_slash [] = ([], none)
split_at_slash (c ∷ cs) =
    let rest = split_at_slash cs in if c == b'/' then ([], some cs) else (c ∷ rest.0, rest.1)

-- An alphanumeric first, and at most n more of a class.
abbrev part_ok : (ℕ → Bool) → ℕ → List ℕ → Bool
part_ok p n [] = false
part_ok p n (c ∷ cs) = is_alnum c && all_codes p cs && leb (length cs) n

abbrev split_ok : List ℕ × Option (List ℕ) → Bool
split_ok (owner, none) = false
split_ok (owner, some name) =
    part_ok (λ c. is_alnum c || c == b'-') 38 owner
    && part_ok (λ c. is_alnum c || one_of "._-" c) 99 name

-- _REPOSITORY_RE: owner/name; neither part can hold a slash.
unfoldable pub repository_ok : String → Bool
unfolding split_at_slash
repository_ok s = split_ok (split_at_slash (codes s))

-- `_safe_scope_reason`
unfoldable pub safe_scope_reason : String → String
unfolding scope_reason_ok
safe_scope_reason s = if scope_reason_ok s then s else "scope_retryable"

pub safe_scope_reason_fixed : scope_reason_ok "scope_retryable" ≡ true
unfolding scope_reason_ok
safe_scope_reason_fixed = refl

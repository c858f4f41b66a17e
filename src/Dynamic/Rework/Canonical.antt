-- ===== src/Dynamic/Rework/Canonical.antt =====
-- The payload of a requeue that counts: `_valid_rework_requeue_after_completed` after its queries.
use mathlib.Core.List.{Memᴰ}
use hermes_n8n_control_plane.Prelude.{
  ℕ, zero, suc, ◌≤◌, String, ◌≡◌, ◌≢◌, ◌⊎◌, inl, inr, refl, sym, ap, subst, ◌∙◌, true, false, not,
  ◌&&◌, List, [], ◌∷◌, ◌++◌, number_comparable, text_comparable, length, codes, contains, all_codes,
  and-parts, not-true, All, arith, Memᴰ-cons,
}
use hermes_n8n_control_plane.Json.{
  Value, Fields, null, bool, int, negative, float, str, obj, arr, get,
}
use hermes_n8n_control_plane.Dynamic.Rework.{
  positive_json_int, starts, ends, repository_shape, is_hex, full_sha, absent_or_positive,
  same_comment, is_null, is_maintainer_retry, canonical_payload,
}

-- A positive integer.
abbrev pub Counts : Value → Type 0
Counts v = (n : ℕ) × (v ≡ int (suc n))

-- A decimal digit or a letter from a to f.
abbrev pub Hex : ℕ → Type 0
Hex c = ((48 ≤ c) × (c ≤ 57)) ⊎ ((97 ≤ c) × (c ≤ 102))

-- `owner/name`: a slash that is neither the first nor the last code point.
pub record IsRepository (v : Value) : Type 0 where
  pub text : String
  pub is_text : v ≡ str text
  pub slash : Memᴰ b'/' (codes text)
  pub not_first : (rest : List ℕ) → codes text ≢ b'/' ∷ rest
  pub not_last : (front : List ℕ) → codes text ≢ front ++ b'/' ∷ []

pub record IsHead (v : Value) : Type 0 where
  pub text : String
  pub is_text : v ≡ str text
  pub full : length (codes text) ≡ 40
  pub hex : All Hex (codes text)

-- The fields of a payload that counts: a repository, positive numbers of the issue, the pull request
-- and the round, a full head, and comments that fit: a retry comment is the request comment, and only a
-- requeue that no maintainer retried has none.
pub record IsCanonical (p : Fields) : Type 0 where
  pub repository : IsRepository (get "repository" p)
  pub issue : Counts (get "issue_number" p)
  pub pull_request : Counts (get "pr_number" p)
  pub round : Counts (get "rework_round" p)
  pub head : IsHead (get "head_sha" p)
  pub request : (get "request_comment_id" p ≡ null) ⊎ Counts (get "request_comment_id" p)
  pub retry :
      (get "retry_comment_id" p ≡ null) × (get "trigger" p ≢ str "maintainer_retry")
      ⊎ Counts (get "retry_comment_id" p) × (get "request_comment_id" p ≡ get "retry_comment_id" p)

positive-Counts : (v : Value) → positive_json_int v ≡ true → Counts v
unfolding positive_json_int
positive-Counts (int zero) h = cc
positive-Counts (int (suc n)) h = (n, refl)
positive-Counts null h = cc
positive-Counts (bool b) h = cc
positive-Counts (negative n) h = cc
positive-Counts (float t) h = cc
positive-Counts (str t) h = cc
positive-Counts (obj p) h = cc
positive-Counts (arr vs) h = cc

contains-Memᴰ : (a : ℕ) (xs : List ℕ) → contains a xs ≡ true → Memᴰ a xs
contains-Memᴰ a [] h = cc
contains-Memᴰ a (x ∷ xs) h = ground (arith, Memᴰ-cons a x xs, contains-Memᴰ a xs)

not_started : (a : ℕ) (xs rest : List ℕ) → starts a xs ≡ false → xs ≢ a ∷ rest
not_started a xs rest h e =
    let started : starts a xs ≡ true = rw e ((number_comparable.same_iff a a).1 refl) in
    cc (started, h)

ends_after : (a : ℕ) (front : List ℕ) → ends a (front ++ a ∷ []) ≡ true
ends_after a [] = (number_comparable.same_iff a a).1 refl
ends_after a (x ∷ []) = ends_after a []
ends_after a (x ∷ y ∷ front) = ends_after a (y ∷ front)

not_ended : (a : ℕ) (xs front : List ℕ) → ends a xs ≡ false → xs ≢ front ++ a ∷ []
not_ended a xs front h e = let ended : ends a xs ≡ true = rw e (ends_after a front) in cc (ended, h)

repository_shape-IsRepository : (v : Value) → repository_shape v ≡ true → IsRepository v
repository_shape-IsRepository (str s) h =
    let (inside_first, last) = and-parts _ _ h in
    let (inside, first) = and-parts _ _ inside_first in
    record {
      text = s;
      is_text = refl;
      slash = contains-Memᴰ b'/' (codes s) inside;
      not_first = λ rest. not_started b'/' (codes s) rest (not-true _ first);
      not_last = λ front. not_ended b'/' (codes s) front (not-true _ last);
    }
repository_shape-IsRepository null h = cc
repository_shape-IsRepository (bool b) h = cc
repository_shape-IsRepository (int n) h = cc
repository_shape-IsRepository (negative n) h = cc
repository_shape-IsRepository (float t) h = cc
repository_shape-IsRepository (obj p) h = cc
repository_shape-IsRepository (arr vs) h = cc

is_hex-Hex : (c : ℕ) → is_hex c ≡ true → Hex c
is_hex-Hex c h = ground arith

All-Hex : (cs : List ℕ) → all_codes is_hex cs ≡ true → All Hex cs
All-Hex [] h = tt
All-Hex (c ∷ cs) h = let (one, rest) = and-parts _ _ h in (is_hex-Hex c one, All-Hex cs rest)

full_sha-IsHead : (v : Value) → full_sha v ≡ true → IsHead v
full_sha-IsHead (str s) h =
    let (hex, full) = and-parts _ _ h in
    record {
      text = s;
      is_text = refl;
      full = (number_comparable.same_iff (length (codes s)) 40).0 full;
      hex = All-Hex (codes s) hex;
    }
full_sha-IsHead null h = cc
full_sha-IsHead (bool b) h = cc
full_sha-IsHead (int n) h = cc
full_sha-IsHead (negative n) h = cc
full_sha-IsHead (float t) h = cc
full_sha-IsHead (obj p) h = cc
full_sha-IsHead (arr vs) h = cc

absent-cases : (v : Value) → absent_or_positive v ≡ true → (v ≡ null) ⊎ Counts v
absent-cases null h = inl refl
absent-cases (bool b) h = inr (positive-Counts (bool b) h)
absent-cases (int n) h = inr (positive-Counts (int n) h)
absent-cases (negative n) h = inr (positive-Counts (negative n) h)
absent-cases (float t) h = inr (positive-Counts (float t) h)
absent-cases (str t) h = inr (positive-Counts (str t) h)
absent-cases (obj p) h = inr (positive-Counts (obj p) h)
absent-cases (arr vs) h = inr (positive-Counts (arr vs) h)

same_comment-int : (v : Value) (n : ℕ) → same_comment v (int n) ≡ true → v ≡ int n
same_comment-int (int k) n h = ap int ((number_comparable.same_iff k n).0 h)
same_comment-int null n h = cc
same_comment-int (bool b) n h = cc
same_comment-int (negative k) n h = cc
same_comment-int (float t) n h = cc
same_comment-int (str t) n h = cc
same_comment-int (obj p) n h = cc
same_comment-int (arr vs) n h = cc

maintainer : (v : Value) → v ≡ str "maintainer_retry" → is_maintainer_retry v ≡ true
maintainer v e = rw e refl

retry_fits :
    (request retry trigger : Value)
    → (retry ≡ null) ⊎ Counts retry
    → same_comment request retry ≡ true
    → not (is_maintainer_retry trigger && is_null retry) ≡ true
    → (retry ≡ null) × (trigger ≢ str "maintainer_retry") ⊎ Counts retry × (request ≡ retry)
retry_fits request retry trigger (inl absent) same free = inl (
  absent,
  λ e.
      let both : (is_maintainer_retry trigger && is_null retry) ≡ true =
        rw (maintainer trigger e, absent) refl in
      cc (free, both),
)
retry_fits request retry trigger (inr (n, e)) same free = inr (
  (n, e),
  same_comment-int request (suc n) (subst (λ v. same_comment request v ≡ true) e same) ∙ sym e,
)

pub canonical_payload-IsCanonical : (p : Fields) → canonical_payload p ≡ true → IsCanonical p
unfolding canonical_payload
canonical_payload-IsCanonical p h =
    let (h8, free) = and-parts _ _ h in
    let (h7, same) = and-parts _ _ h8 in
    let (h6, retry) = and-parts _ _ h7 in
    let (h5, request) = and-parts _ _ h6 in
    let (h4, head) = and-parts _ _ h5 in
    let (h3, round) = and-parts _ _ h4 in
    let (h2, pr) = and-parts _ _ h3 in
    let (repository, issue) = and-parts _ _ h2 in
    record {
      repository = repository_shape-IsRepository _ repository;
      issue = positive-Counts _ issue;
      pull_request = positive-Counts _ pr;
      round = positive-Counts _ round;
      head = full_sha-IsHead _ head;
      request = absent-cases _ request;
      retry = retry_fits _ _ (get "trigger" p) (absent-cases _ retry) same free;
    }

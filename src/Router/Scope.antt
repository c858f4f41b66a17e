-- ===== src/Router/Scope.antt =====
-- The scope items of the router's queue: `_normalise_scope_item`, and the dict that it builds.
pub mod Sorting
pub mod RoundTrip
pub mod Sound
use hermes_n8n_control_plane.Prelude.{
  ℕ, suc, ◌+◌, String, Bool, true, false, not, ◌&&◌, ◌||◌, Option, none, some, List, [], ◌∷◌, map,
  ◌==◌, number_comparable, text_comparable, codes_comparable, leb, ltb, length, contains, len_of,
  casefold, if◌then◌else◌,
}
use hermes_n8n_control_plane.Prelude.Maybe.{◌>>=◌, ◌>>◌, when}
use hermes_n8n_control_plane.Json.{
  Value, Items, Fields, null, int, str, arr, obj, end, field, get, get_or, items, pack,
}
use hermes_n8n_control_plane.Router.Patterns.{Settings, is_stripped, delivery_id_ok, repository_ok}
use Sorting.{sort_by}

pub data Mode : Type 0 where
  event full : Mode

pub record Scope : Type 0 where
  pub id : String
  pub mode : Mode
  pub repositories : List String
  pub created_at : ℕ
  pub expires_at : ℕ
  pub attempts : ℕ
  pub not_before : ℕ
  pub delivery : Option String

abbrev pub max_scope_repositories : ℕ
max_scope_repositories = 100

abbrev pub as_text : Value → Option String
as_text (str s) = some s
as_text _ = none

-- An integer that is not negative. A negative one fails the tests that follow in any case.
abbrev pub as_count : Value → Option ℕ
as_count (int n) = some n
as_count _ = none

abbrev pub as_items : Value → Option (List Value)
as_items (arr vs) = some (items vs)
as_items _ = none

abbrev pub as_fields : Value → Option Fields
as_fields (obj fs) = some fs
as_fields _ = none

unfoldable pub as_mode : Value → Option Mode
as_mode (str s) = if s == "event" then some event else if s == "full" then some full else none
as_mode _ = none

abbrev pub mode_text : Mode → String
mode_text event = "event"
mode_text full = "full"

abbrev pub is_empty {ℓ} : {A : Type ℓ} → List A → Bool
is_empty [] = true
is_empty (x ∷ xs) = false

-- The tests on one repository name.
abbrev pub name_ok : String → Bool
name_ok r = is_stripped r && leb (len_of r) 256 && repository_ok r

-- The loop over `raw_repositories`; `seen` holds the case-folded names so far.
unfoldable pub read_repositories :
    (String → List ℕ) → List (List ℕ) → List Value → Option (List String)
read_repositories fold seen [] = some []
read_repositories fold seen (v ∷ vs) = do
  r ← as_text v
  when (name_ok r && not (contains (fold r) seen))
  rest ← read_repositories fold (fold r ∷ seen) vs
  some (r ∷ rest)

-- The tests on the four integers.
abbrev pub times_ok : Settings → ℕ → ℕ → ℕ → ℕ → Bool
times_ok st created expires attempts not_before =
    ltb 0 created
    && ltb created expires
    && leb attempts st.scope_max_attempts
    && leb not_before expires

abbrev pub mode_fits : Mode → List String → Bool
mode_fits event repositories = not (is_empty repositories)
mode_fits full repositories = is_empty repositories

-- `raw_delivery`: none, or a delivery id.
unfoldable pub read_delivery : Value → Option (Option String)
read_delivery null = some none
read_delivery (str d) = if is_stripped d && delivery_id_ok d then some (some d) else none
read_delivery _ = none

unfoldable pub normalise_fields : Settings → Fields → ℕ → Bool → Option Scope
unfolding get get_or items as_mode read_delivery sort_by
normalise_fields st raw now allow_expired = do
  id ← as_text (get "id" raw)
  when (is_stripped id && delivery_id_ok id)
  created ← as_count (get "created_at" raw)
  expires ← as_count (get "expires_at" raw)
  attempts ← as_count (get "attempts" raw)
  not_before ← as_count (get "not_before" raw)
  when (times_ok st created expires attempts not_before)
  when (allow_expired || ltb now expires)
  mode ← as_mode (get "mode" raw)
  raw_repositories ← as_items (get_or "repositories" raw (arr (pack [])))
  names ← read_repositories (casefold st.fold_table) [] raw_repositories
  when (leb (length names) max_scope_repositories)
  let repositories = sort_by (casefold st.fold_table) names
  when (mode_fits mode repositories)
  delivery ← read_delivery (get "delivery" raw)
  some (record {
    id = id;
    mode = mode;
    repositories = repositories;
    created_at = created;
    expires_at = expires;
    attempts = attempts;
    not_before = not_before;
    delivery = delivery;
  })

-- `_normalise_scope_item`
unfoldable pub normalise_scope_item : Settings → Value → ℕ → Bool → Option Scope
normalise_scope_item st raw now allow_expired =
    as_fields raw >>= λ fs. normalise_fields st fs now allow_expired

abbrev pub delivery_fields : Option String → Fields → Fields
delivery_fields none fs = fs
delivery_fields (some d) fs = field "delivery" (str d) fs

-- The dict that `_normalise_scope_item` returns, with the further keys of `{**item, …}`.
unfoldable pub scope_fields : Scope → Fields → Fields
scope_fields s more = field "id" (str s.id) (
    field "mode" (str (mode_text s.mode)) (
      field "repositories" (arr (pack (map str s.repositories))) (
        field "created_at" (int s.created_at) (
          field "expires_at" (int s.expires_at) (
            field "attempts" (int s.attempts)
              (field "not_before" (int s.not_before) (delivery_fields s.delivery more)))))))

unfoldable pub encode_scope : Scope → Value
encode_scope s = obj (scope_fields s end)

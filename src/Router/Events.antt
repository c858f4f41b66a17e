-- ===== src/Router/Events.antt =====
-- What a webhook payload names: `_event_repositories`, `_normalise_pull_request_event` and
-- `_ignored_event_response`.
use hermes_n8n_control_plane.Prelude.{
  ℕ, String, Bool, true, ◌&&◌, Option, none, some, List, [], ◌∷◌, map, ◌==◌, text_comparable,
  codes_comparable, leb, length, len_of, contains, strip, codes, casefold, if◌then◌else◌, Result,
  ok, err, ◌>>=◌, ◌>>◌, unless_raise,
}
use hermes_n8n_control_plane.Json.{
  Value, Fields, null, bool, str, arr, obj, end, field, get, items, pack, truthy, str_of,
}
use hermes_n8n_control_plane.Router.Patterns.{Settings, is_stripped, repository_ok, action_ok}
use hermes_n8n_control_plane.Router.Scope.{max_scope_repositories}

-- `str(value or "")`
abbrev pub text_or_empty : (Value → String) → Value → String
text_or_empty render v = if truthy v then str_of render v else ""

-- `str(payload.get("action") or "").strip().casefold()`
unfoldable pub folded_action : Settings → (Value → String) → Fields → List ℕ
unfolding strip truthy str_of
folded_action st render payload =
    casefold st.fold_table (strip (text_or_empty render (get "action" payload)))

abbrev checked_name : Value → Result String
checked_name (str r) = if is_stripped r && repository_ok r then ok r else err "repository_missing"
checked_name _ = err "repository_missing"

-- `_repository_from_event_item`
unfoldable pub repository_from_event_item : Value → Result String
repository_from_event_item (obj item) = checked_name (get "full_name" item)
repository_from_event_item _ = err "repository_missing"

-- The loop of `_event_repositories`: a name that was seen up to case is left out.
unfoldable pub named_repositories :
    (String → List ℕ) → List (List ℕ) → List Value → Result (List String)
unfolding repository_from_event_item
named_repositories fold seen [] = ok []
named_repositories fold seen (v ∷ vs) = do
  r ← repository_from_event_item v
  let old = contains (fold r) seen
  rest ← named_repositories fold (if old then seen else fold r ∷ seen) vs
  ok (if old then rest else r ∷ rest)

abbrev listed : Value → Result (List Value)
listed (arr vs) = ok (items vs)
listed _ = err "repository_missing"

-- `raw_items`, none where the event names no repositories.
unfoldable pub raw_repositories : Settings → (Value → String) → String → Fields → Option Value
unfolding folded_action
raw_repositories st render event payload =
    if event == "installation"
    then present (get "repositories" payload)
    else if event == "installation_repositories"
    then (if folded_action st render payload == codes "removed"
        then none
        else present (get "repositories_added" payload))
    else some (arr (pack (get "repository" payload ∷ [])))
  where
    present : Value → Option Value
    present = elim [ null ↦ none | v ↦ some v ]

-- `_event_repositories`
unfoldable pub event_repositories :
    Settings → (Value → String) → String → Fields → Result (List String)
unfolding raw_repositories named_repositories items pack
event_repositories st render event payload = elim (raw_repositories st render event payload) [
  | none ↦ ok []
  | some raw ↦ do
    vs ← listed raw
    unless_raise (leb (length vs) max_scope_repositories) "repository_scope_too_large"
    named_repositories (casefold st.fold_table) [] vs
]

abbrev action_text : Value → String
action_text (str s) = strip s
action_text _ = ""

-- The name of the label, the empty text if there is none.
abbrev label_text : Value → Result String
label_text (str s) =
    if leb (len_of (strip s)) 128 then ok (strip s) else err "pull_request_label_invalid"
label_text _ = err "pull_request_label_invalid"

unfoldable pub label_name : Value → Result String
unfolding strip
label_name null = ok ""
label_name (obj label) = label_text (get "name" label)
label_name _ = err "pull_request_label_invalid"

abbrev merged_flag : Value → Result Bool
merged_flag (bool b) = ok b
merged_flag _ = err "pull_request_merged_invalid"

-- `_normalise_pull_request_event`
unfoldable pub normalise_pull_request_event : Fields → String → String → Result Fields
unfolding label_name strip
normalise_pull_request_event payload repository delivery = elim (get "pull_request" payload) [
  | obj pull_request ↦ do
    let action = action_text (get "action" payload)
    unless_raise (action_ok action) "pull_request_action_invalid"
    merged ← merged_flag (get "merged" pull_request)
    label ← label_name (get "label" payload)
    ok (
        field "repository" (str repository) (
          field "event" (str "pull_request") (
            field "action" (str action) (
              field "merged" (bool merged)
                (field "label" (str label) (field "delivery" (str delivery) end))))))
  | _ ↦ err "pull_request_missing"
]

abbrev one_repository : List String → Fields
one_repository (r ∷ []) = field "repository" (str r) end
one_repository _ = end

abbrev repository_keys : List String → Fields
repository_keys [] = end
repository_keys (r ∷ rs) =
    field "repositories" (arr (pack (map str (r ∷ rs)))) (one_repository (r ∷ rs))

-- `_ignored_event_response`
unfoldable pub ignored_event_response : String → String → String → List String → Fields
ignored_event_response reason event delivery repositories = field "ok" (bool true) (
    field "ignored" (bool true) (
      field "reason" (str reason) (
        field "event" (str event)
          (field "delivery" (str delivery) (repository_keys repositories)))))

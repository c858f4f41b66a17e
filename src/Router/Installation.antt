-- ===== src/Router/Installation.antt =====
-- Whose webhook payload it is: the App installation and the owner that the router is configured for.
use hermes_n8n_control_plane.Prelude.{
  ℕ, ◌+◌, ◌*◌, ◌-◌, String, Bool, true, false, not, ◌&&◌, ◌||◌, Option, none, some, List, [], ◌∷◌,
  ◌==◌, text_comparable, codes_comparable, number_comparable, ltb, leb, length, every, codes,
  all_codes, is_digit, casefold, fold_codes, if◌then◌else◌,
}
use hermes_n8n_control_plane.Prelude.Maybe.{◌>>=◌, ◌>>◌, when}
use hermes_n8n_control_plane.Json.{Value, Fields, int, str, obj, get, has_key}
use hermes_n8n_control_plane.Router.Patterns.{Settings, is_stripped, split_at_slash}

unfoldable pub decimal : ℕ → List ℕ → ℕ
decimal acc [] = acc
decimal acc (c ∷ cs) = decimal (acc * 10 + (c - b'0')) cs

-- `s.isascii() and s.isdigit()`
abbrev pub digits_only : List ℕ → Bool
digits_only [] = false
digits_only (c ∷ cs) = all_codes is_digit (c ∷ cs)

abbrev pub above_zero : ℕ → Option ℕ
above_zero n = if ltb 0 n then some n else none

-- `_parse_installation_id`; `int` of a text refuses more than 4300 digits.
unfoldable pub parse_installation_id : Value → Option ℕ
unfolding decimal
parse_installation_id (int n) = above_zero n
parse_installation_id (str s) = do
  when (is_stripped s && digits_only (codes s))
  when (leb (length (codes s)) 4300)
  above_zero (decimal 0 (codes s))
parse_installation_id _ = none

abbrev pub clean_text : Value → Bool
clean_text (str s) = not (s == "") && is_stripped s
clean_text _ = false

abbrev pub fields_at : String → Fields → Option Fields
fields_at key fs = elim (get key fs) [ obj inner ↦ some inner | _ ↦ none ]

-- `_installation_id`
unfoldable pub installation_id : Fields → Option ℕ
unfolding get has_key parse_installation_id
installation_id payload = do
  installation ← fields_at "installation" payload
  id ← parse_installation_id (get "id" installation)
  when (not (has_key "node_id" installation) || clean_text (get "node_id" installation))
  some id

abbrev pub same_id : Option ℕ → Option ℕ → Bool
same_id (some a) (some b) = a == b
same_id _ _ = false

-- `_configured_installation_matches`
unfoldable pub configured_installation_matches : Settings → Fields → Bool
unfolding installation_id
configured_installation_matches st payload =
    same_id (installation_id payload) st.github_installation_id

-- The login and the type of the account; both are empty if one is malformed.
abbrev pub account_texts : Value → Value → String × String
account_texts (str login) (str type) =
    if is_stripped login && is_stripped type then (login, type) else ("", "")
account_texts _ _ = ("", "")

abbrev pub account_of : Value → String × String
account_of (obj account) = account_texts (get "login" account) (get "type" account)
account_of _ = ("", "")

-- `_installation_account`
unfoldable pub installation_account : Fields → Option (String × String)
unfolding get has_key
installation_account payload = do
  installation ← fields_at "installation" payload
  when (has_key "account" installation)
  some (account_of (get "account" installation))

abbrev pub expected_type : Settings → String
expected_type st = if st.github_owner_type == "personal" then "User" else "Organization"

-- The test on the account, where there is one.
unfoldable pub account_matches : Settings → Option (String × String) → Bool
account_matches st none = true
account_matches st (some (login, type)) =
    not (login == "")
    && casefold st.fold_table login == casefold st.fold_table st.github_owner
    && casefold st.fold_table type == casefold st.fold_table (expected_type st)

-- `_installation_context_matches`, and `_has_app_installation_context`, which is the same code.
unfoldable pub installation_context_matches : Settings → Fields → Bool
unfolding configured_installation_matches installation_account account_matches
installation_context_matches st payload =
    configured_installation_matches st payload && account_matches st (installation_account payload)

unfoldable pub has_app_installation_context : Settings → Fields → Bool
unfolding configured_installation_matches installation_account account_matches
has_app_installation_context st payload =
    configured_installation_matches st payload && account_matches st (installation_account payload)

-- The part of the name before the slash, case-folded.
unfoldable pub owner_key : Settings → String → List ℕ
unfolding split_at_slash fold_codes
owner_key st repository = fold_codes st.fold_table (split_at_slash (codes repository)).0

unfoldable pub owner_configured : Settings → Bool
owner_configured st =
    not (casefold st.fold_table st.github_owner == [])
    && (st.github_owner_type == "personal" || st.github_owner_type == "organization")

abbrev pub owned : Settings → String → Bool
owned st repository = owner_key st repository == casefold st.fold_table st.github_owner

-- The test on the account in `_owner_scope_matches`, which also refuses an empty type.
unfoldable pub owner_account_matches : Settings → Option (String × String) → Bool
unfolding account_matches
owner_account_matches st none = true
owner_account_matches st (some (login, type)) =
    not (type == "") && account_matches st (some (login, type))

-- `_owner_scope_matches`
unfoldable pub owner_scope_matches : Settings → Fields → List String → Bool
unfolding owner_configured has_key configured_installation_matches installation_account
    owner_account_matches
owner_scope_matches st payload repositories =
    owner_configured st
    && every (owned st) repositories
    && (not (has_key "installation" payload)
        || (configured_installation_matches st payload
            && owner_account_matches st (installation_account payload)))

-- ===== src/Router/State.antt =====
-- The router's state file, the typed lists that the code keeps between loading and writing it, and
-- the pending list.
use hermes_n8n_control_plane.Prelude.{
  ℕ, String, Bool, true, not, Option, none, some, List, [], ◌∷◌, ◌++◌, map, ◌==◌, text_comparable,
  ltb, last_n, keep, if◌then◌else◌,
}
use hermes_n8n_control_plane.Json.{Value, Fields, int, str, arr, obj, end, field, get, items, pack}
use hermes_n8n_control_plane.Router.Patterns.{Settings, safe_scope_reason}
use hermes_n8n_control_plane.Router.Scope.{Scope, normalise_fields, scope_fields, encode_scope}

-- The keys of the state dict; a missing key is null.
pub record State : Type 0 where
  pub scope_queue : Value
  pub scope_claims : Value
  pub pending_scopes : Value
  pub last_scope_transition : Value
  pub last_claimed_scope : Value
  pub delivery_dedupe : Value
  pub managed_repositories : Value

pub record Claim : Type 0 where
  pub item : Scope
  pub claim_expires_at : ℕ
  pub claim_token : String

pub record Pending : Type 0 where
  pub item : Scope
  pub pending_at : ℕ
  pub reason : String

-- The three lists after `_recover_scope_claims_unlocked`.
pub record Live : Type 0 where
  pub queue : List Scope
  pub claims : List Claim
  pub pending : List Pending

unfoldable pub claim_fields : Claim → Fields
claim_fields c = scope_fields c.item (
    field "claim_expires_at" (int c.claim_expires_at) (field "claim_token" (str c.claim_token) end))

unfoldable pub pending_fields : Pending → Fields
pending_fields p =
    scope_fields p.item (field "pending_at" (int p.pending_at) (field "reason" (str p.reason) end))

abbrev pub encode_pending : Pending → Value
encode_pending p = obj (pending_fields p)

-- The dict `scope_claims`, by id.
unfoldable pub encode_claims : List Claim → Fields
encode_claims [] = end
encode_claims (c ∷ cs) = field c.item.id (obj (claim_fields c)) (encode_claims cs)

-- What `_write_state_unlocked` writes of the three lists.
unfoldable pub save : State → Live → State
save state live = record state {
  scope_queue = arr (pack (map encode_scope live.queue));
  scope_claims = obj (encode_claims live.claims);
  pending_scopes = arr (pack (map encode_pending live.pending));
}

-- `_safe_scope_reason` of a value.
unfoldable pub safe_reason_of : Value → String
safe_reason_of (str s) = safe_scope_reason s
safe_reason_of _ = "scope_retryable"

abbrev pub positive : Value → Option ℕ
positive (int n) = if ltb 0 n then some n else none
positive _ = none

abbrev pub pending_of : Option Scope → Option ℕ → String → List Pending
pending_of (some item) (some at) reason =
    record { item = item; pending_at = at; reason = reason } ∷ []
pending_of _ _ _ = []

-- One element of the loop of `_prune_pending_scopes`.
unfoldable pub kept_pending : Settings → ℕ → Value → List Pending
kept_pending st now (obj raw) =
    pending_of (normalise_fields st raw now true) (positive (get "pending_at" raw))
      (safe_reason_of (get "reason" raw))
kept_pending st now _ = []

unfoldable pub prune_pending_list : Settings → ℕ → List Value → List Pending
prune_pending_list st now [] = []
prune_pending_list st now (v ∷ vs) = kept_pending st now v ++ prune_pending_list st now vs

-- `_prune_pending_scopes`
unfoldable pub prune_pending_scopes : Settings → Value → ℕ → List Pending
unfolding items
prune_pending_scopes st (arr vs) now =
    last_n st.scope_max_pending (prune_pending_list st now (items vs))
prune_pending_scopes st _ now = []

abbrev pub other_pending : String → Pending → Bool
other_pending id p = not (p.item.id == id)

-- `_append_pending_scope`: the list is pruned again, and the item replaces one of the same id.
unfoldable pub append_pending_scope : Settings → List Pending → Scope → ℕ → String → List Pending
append_pending_scope st pending item now reason =
    let pruned = prune_pending_scopes st (arr (pack (map encode_pending pending))) now in
    last_n st.scope_max_pending (
      keep (other_pending item.id) pruned
      ++ record { item = item; pending_at = now; reason = safe_scope_reason reason } ∷ [])

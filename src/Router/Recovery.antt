-- ===== src/Router/Recovery.antt =====
-- `_recover_queued_scopes_unlocked` and `_recover_scope_claims_unlocked`: expired work is retried, or
-- kept in the pending list.
use hermes_n8n_control_plane.Prelude.{
  ℕ, ◌+◌, String, Bool, true, false, not, ◌&&◌, Option, none, some, List, [], ◌∷◌, ◌++◌, ◌==◌,
  text_comparable, ltb, leb, keep, contains, if◌then◌else◌,
}
use hermes_n8n_control_plane.Json.{Value, Fields, str, arr, obj, end, field, get, items}
use hermes_n8n_control_plane.Router.Patterns.{Settings, delivery_id_ok, claim_token_ok}
use hermes_n8n_control_plane.Router.Scope.{Scope, normalise_fields, normalise_scope_item}
use hermes_n8n_control_plane.Router.State.{
  State, Claim, Pending, Live, prune_pending_scopes, append_pending_scope, positive,
}

-- What becomes of one element of the queue.
pub data Fate : Type 0 where
  dropped : Fate
  queued : String → Scope → Fate
  parked : String → Scope → Fate

-- `{**item, "attempts": …, "expires_at": now + SCOPE_TTL_SECONDS, "not_before": …}`
abbrev pub retried : Settings → ℕ → ℕ → Scope → Scope
retried st now not_before item = record item {
  attempts = item.attempts + 1;
  expires_at = now + st.scope_ttl_seconds;
  not_before = not_before;
}

abbrev pub attempted : Scope → Scope
attempted item = record item { attempts = item.attempts + 1 }

unfoldable pub expired_fate : Settings → ℕ → Scope → Fate
expired_fate st now item =
    if leb st.scope_max_attempts (item.attempts + 1)
    then parked item.id (attempted item)
    else queued item.id (retried st now now item)

unfoldable pub fate : Settings → ℕ → List String → Option Scope → Fate
unfolding expired_fate
fate st now seen none = dropped
fate st now seen (some item) =
    if contains item.id seen
    then dropped
    else if ltb now item.expires_at
    then queued item.id item
    else expired_fate st now item

abbrev pub seen_by : Fate → List String → List String
seen_by dropped seen = seen
seen_by (queued id s) seen = id ∷ seen
seen_by (parked id s) seen = id ∷ seen

abbrev pub queued_by : Fate → List Scope → List Scope
queued_by (queued id s) queue = s ∷ queue
queued_by _ queue = queue

abbrev pub pending_by : Settings → ℕ → Fate → List Pending → List Pending
pending_by st now (parked id s) pending = append_pending_scope st pending s now "scope_expired"
pending_by st now _ pending = pending

-- The loop of `_recover_queued_scopes_unlocked`: the new queue, and the pending list.
unfoldable pub recover_queue :
    Settings → ℕ → List Value → List String → List Pending → List Scope × List Pending
recover_queue st now [] seen pending = ([], pending)
recover_queue st now (v ∷ vs) seen pending =
    let f = fate st now seen (normalise_scope_item st v now true) in
    let rest = recover_queue st now vs (seen_by f seen) (pending_by st now f pending) in
    (queued_by f rest.0, rest.1)

-- `_recover_queued_scopes_unlocked`
unfoldable pub recover_queued_scopes :
    Settings → ℕ → Value → List Pending → List Scope × List Pending
unfolding items
recover_queued_scopes st now (arr vs) pending = recover_queue st now (items vs) [] pending
recover_queued_scopes st now _ pending = ([], pending)

-- `claims[scope_id] = …`
unfoldable pub put_claim : Claim → List Claim → List Claim
put_claim c [] = c ∷ []
put_claim c (d ∷ ds) = if d.item.id == c.item.id then c ∷ ds else d ∷ put_claim c ds

abbrev pub is_id : String → Value → Bool
is_id id (str s) = s == id
is_id id _ = false

-- The stored token, or a new one.
unfoldable pub token_or : Value → String → String
token_or (str t) fresh = if claim_token_ok t then t else fresh
token_or _ fresh = fresh

-- The claim that an entry of the dict stands for, if it is one; `fresh` draws a token.
unfoldable pub read_claim : Settings → (String → String) → ℕ → String → Value → Option Claim
read_claim st fresh now id (obj raw) =
    if not (delivery_id_ok id && is_id id (get "id" raw))
    then none
    else elim (positive (get "claim_expires_at" raw)) [
      | none ↦ none
      | some at ↦ elim (normalise_fields st raw now true) [
        | none ↦ none
        | some item ↦ some (record {
          item = item;
          claim_expires_at = at;
          claim_token = token_or (get "claim_token" raw) (fresh id);
        })
      ]
    ]
read_claim st fresh now id _ = none

abbrev pub other_scope : String → Scope → Bool
other_scope id s = not (s.id == id)

-- What becomes of one claim: still in flight, retried or kept pending.
unfoldable pub settle_claim : Settings → ℕ → Option Claim → Live → Live
settle_claim st now none live = live
settle_claim st now (some c) live =
    let queue = keep (other_scope c.item.id) live.queue in
    if ltb now c.claim_expires_at
    then record live { queue = queue; claims = put_claim c live.claims }
    else if leb st.scope_max_attempts (c.item.attempts + 1)
    then record live {
      queue = queue;
      pending = append_pending_scope st live.pending (attempted c.item) now "claim_lease_expired";
    }
    else record live { queue = queue ++ retried st now now c.item ∷ [] }

unfoldable pub recover_claims : Settings → (String → String) → ℕ → Fields → Live → Live
recover_claims st fresh now end live = live
recover_claims st fresh now (field id raw more) live =
    recover_claims st fresh now more (settle_claim st now (read_claim st fresh now id raw) live)

abbrev pub with_queue : List Scope × List Pending → Live
with_queue (queue, pending) = record { queue = queue; claims = []; pending = pending }

abbrev pub claims_of : Value → Fields
claims_of (obj fs) = fs
claims_of _ = end

-- `_recover_scope_claims_unlocked`; a `scope_claims` that is no dict counts as an empty one.
unfoldable pub recover_scope_claims : Settings → (String → String) → ℕ → State → Live
unfolding recover_claims recover_queued_scopes
recover_scope_claims st fresh now state =
    recover_claims st fresh now (claims_of state.scope_claims) (
      with_queue (
        recover_queued_scopes st now state.scope_queue
          (prune_pending_scopes st state.pending_scopes now)))

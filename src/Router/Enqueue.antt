-- ===== src/Router/Enqueue.antt =====
-- `_enqueue_scope`: a new scope is queued, unless its delivery is queued, pending or in flight.
use hermes_n8n_control_plane.Prelude.{
  ℕ, ◌+◌, String, Bool, true, false, not, ◌&&◌, Option, none, some, List, [], ◌∷◌, ◌++◌, ◌==◌,
  text_comparable, codes_comparable, leb, contains, length, casefold, if◌then◌else◌, Result, ok,
  ◌>>=◌, ◌>>◌, unless_raise,
}
use hermes_n8n_control_plane.Router.Patterns.{Settings, is_stripped, delivery_id_ok}
use hermes_n8n_control_plane.Router.Scope.{
  Scope, Mode, event, full, max_scope_repositories, name_ok, is_empty,
}
use hermes_n8n_control_plane.Router.State.{State, Claim, Pending, Live, save}
use hermes_n8n_control_plane.Router.Recovery.{recover_scope_claims}

-- The loop over the repositories of an event: every name must be clean, and a name that was seen
-- up to case is left out.
unfoldable pub scoped_repositories :
    (String → List ℕ) → List (List ℕ) → List String → Result (List String)
scoped_repositories fold seen [] = ok []
scoped_repositories fold seen (r ∷ rs) =
    let old = contains (fold r) seen in
    do
      unless_raise (name_ok r) "invalid repository identity"
      rest ← scoped_repositories fold (if old then seen else fold r ∷ seen) rs
      ok (if old then rest else r ∷ rest)

unfoldable pub scope_names : Settings → Mode → List String → Result (List String)
unfolding scoped_repositories
scope_names st full names = ok []
scope_names st event names = do
  kept ← scoped_repositories (casefold st.fold_table) [] names
  unless_raise (not (is_empty kept) && leb (length kept) max_scope_repositories)
      "invalid repository scope"
  ok kept

abbrev pub delivery_valid : Option String → Bool
delivery_valid none = true
delivery_valid (some d) = is_stripped d && delivery_id_ok d

abbrev pub has_delivery : String → Option String → Bool
has_delivery d none = false
has_delivery d (some e) = e == d

abbrev pub first_scope : String → List Scope → Option Scope
first_scope d [] = none
first_scope d (s ∷ ss) = if has_delivery d s.delivery then some s else first_scope d ss

abbrev pub first_pending : String → List Pending → Option Scope
first_pending d [] = none
first_pending d (p ∷ ps) =
    if has_delivery d p.item.delivery then some p.item else first_pending d ps

abbrev pub first_claim : String → List Claim → Option Scope
first_claim d [] = none
first_claim d (c ∷ cs) = if has_delivery d c.item.delivery then some c.item else first_claim d cs

-- Where the scope of the answer stands.
pub data Place : Type 0 where
  new waiting parked in_flight : Place

pub record Enqueued : Type 0 where
  pub item : Scope
  pub place : Place

abbrev placed : Place → Option Scope → Option Enqueued → Option Enqueued
placed place none next = next
placed place (some s) next = some (record { item = s; place = place })

-- The searches for the delivery, in the order of the code.
unfoldable pub find_delivery : Option String → Live → Option Enqueued
find_delivery none live = none
find_delivery (some d) live = placed waiting (first_scope d live.queue) (
    placed parked (first_pending d live.pending)
      (placed in_flight (first_claim d live.claims) none))

unfoldable pub enqueue_item : State → Live → Scope → Option Enqueued → Enqueued × State
enqueue_item state live item (some found) = (found, save state live)
enqueue_item state live item none = (
  record { item = item; place = new },
  save state (record live { queue = live.queue ++ item ∷ [] }),
)

-- `_enqueue_scope`; `id` is the new UUID.
unfoldable pub enqueue_scope :
    Settings
    → (String → String)
    → String
    → ℕ
    → Mode
    → List String
    → Option String
    → State
    → Result (Enqueued × State)
unfolding scope_names find_delivery enqueue_item
enqueue_scope st fresh id now mode names delivery state = do
  repositories ← scope_names st mode names
  unless_raise (delivery_valid delivery) "invalid delivery id"
  let item : Scope = record {
    id = id;
    mode = mode;
    repositories = repositories;
    created_at = now;
    expires_at = now + st.scope_ttl_seconds;
    attempts = 0;
    not_before = now;
    delivery = delivery;
  }
  let live = recover_scope_claims st fresh now state
  ok (enqueue_item state live item (find_delivery delivery live))

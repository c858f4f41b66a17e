-- ===== src/Router/Operations.antt =====
-- The operations on the durable scope queue: each loads the state, recovers it, and gives what it
-- answers with the state that it writes. An error writes nothing.
use hermes_n8n_control_plane.Prelude.{
  ℕ, ◌+◌, String, Bool, true, false, not, ◌&&◌, ◌||◌, Option, none, some, List, [], ◌∷◌, ◌++◌, ◌==◌,
  text_comparable, codes_comparable, number_comparable, leb, keep, length, if◌then◌else◌, Result,
  ok, err, ◌>>=◌, ◌>>◌, unless_raise,
}
use hermes_n8n_control_plane.Json.{
  Value, Fields, null, int, str, arr, obj, end, field, get, get_or, items,
}
use hermes_n8n_control_plane.Router.Patterns.{
  Settings, is_stripped, delivery_id_ok, claim_token_ok, safe_scope_reason,
}
use hermes_n8n_control_plane.Router.Scope.{Scope, normalise_fields, scope_fields}
use hermes_n8n_control_plane.Router.State.{
  State, Claim, Live, claim_fields, save, append_pending_scope,
}
use hermes_n8n_control_plane.Router.Recovery.{
  recover_scope_claims, put_claim, retried, attempted, is_id,
}

-- The first item that is due, and the queue without it.
unfoldable pub pop_due : ℕ → List Scope → Option (Scope × List Scope)
pop_due now [] = none
pop_due now (s ∷ ss) =
    if leb s.not_before now
    then some (s, ss)
    else elim (pop_due now ss) [ none ↦ none | some (t, rest) ↦ some (t, s ∷ rest) ]

unfoldable pub claim_due :
    Settings
    → ℕ
    → String
    → State
    → Live
    → Option (Scope × List Scope)
    → Option (Scope × String) × State
claim_due st now token state live none = (none, save state live)
claim_due st now token state live (some (s, rest)) =
    let c : Claim = record {
      item = s;
      claim_expires_at = now + st.scope_claim_lease_seconds;
      claim_token = token;
    } in
    (
      some (s, token),
      save
          (record state {
            last_claimed_scope = obj (scope_fields s (field "claim_token" (str token) end));
          })
          (record live { queue = rest; claims = put_claim c live.claims }),
    )

-- `_claim_scope`; `token` is the new claim token.
unfoldable pub claim_scope :
    Settings → (String → String) → String → ℕ → State → Option (Scope × String) × State
unfolding claim_due
claim_scope st fresh token now state =
    let live = recover_scope_claims st fresh now state in
    claim_due st now token state live (pop_due now live.queue)

-- `_claim_token_matches` on a stored token and on a stored dict.
unfoldable pub token_matches : String → String → Bool
token_matches stored token = claim_token_ok stored && claim_token_ok token && stored == token

unfoldable pub claim_token_matches : Value → String → Bool
unfolding token_matches
claim_token_matches (str stored) token = token_matches stored token
claim_token_matches _ token = false

abbrev pub dict_of : Value → Fields
dict_of (obj fs) = fs
dict_of _ = end

unfoldable pub find_claim : String → List Claim → Option Claim
find_claim id [] = none
find_claim id (c ∷ cs) = if c.item.id == id then some c else find_claim id cs

abbrev pub other_claim : String → Claim → Bool
other_claim id c = not (c.item.id == id)

-- `del claims[scope_id]`
abbrev pub drop_claim : String → List Claim → List Claim
drop_claim id claims = keep (other_claim id) claims

-- An answer of `/scope/ack` and `/scope/requeue`.
pub record Answer : Type 0 where
  pub id : String
  pub status : String
  pub attempts : Value

abbrev answer : String → String → Value → Answer
answer id status attempts = record { id = id; status = status; attempts = attempts }

abbrev pub mismatch {ℓ} : {A : Type ℓ} → Result A
mismatch = err "scope claim token mismatch"

-- An ack that finds no claim: the last transition may be the answer.
unfoldable pub replayed_ack : String → String → Fields → Result Answer
unfolding claim_token_matches
replayed_ack id token last =
    if not (is_id id (get "id" last) && claim_token_matches (get "claim_token" last) token)
    then mismatch
    else if is_id "acknowledged" (get "status" last)
    then ok (answer id "already_acknowledged" null)
    else if is_id "requeued" (get "status" last) || is_id "pending" (get "status" last)
    then ok (answer id "already_requeued" null)
    else mismatch

abbrev pub ack_transition : String → ℕ → String → Value
ack_transition id now token = obj (
    field "id" (str id) (
      field "status" (str "acknowledged")
        (field "at" (int now) (field "claim_token" (str token) end))))

unfoldable pub ack_claim :
    String → String → ℕ → State → Live → Option Claim → Result (Answer × State)
unfolding replayed_ack token_matches
ack_claim id token now state live none = do
  a ← replayed_ack id token (dict_of state.last_scope_transition)
  ok (a, save state live)
ack_claim id token now state live (some c) =
    if not (token_matches c.claim_token token)
    then mismatch
    else ok (
      answer id "acknowledged" null,
      save (record state { last_scope_transition = ack_transition id now token })
          (record live { claims = drop_claim id live.claims }),
    )

-- The checks of both handlers on the id and the token.
unfoldable pub check_control : String → String → Result (Unit {0})
check_control id token = do
  unless_raise (claim_token_ok token) "invalid scope claim token"
  unless_raise (is_stripped id && delivery_id_ok id) "invalid scope id"
  ok tt

-- `_ack_scope`
unfoldable pub ack_scope :
    Settings → (String → String) → ℕ → String → String → State → Result (Answer × State)
unfolding ack_claim check_control
ack_scope st fresh now id token state = do
  check_control id token
  let live = recover_scope_claims st fresh now state
  ack_claim id token now state live (find_claim id live.claims)

-- SCOPE_RETRY_BACKOFF_SECONDS, by the number of the attempt.
unfoldable pub backoff : ℕ → ℕ
backoff next_attempt = if leb next_attempt 1 then 1 else 5

abbrev requeue_transition : String → String → ℕ → ℕ → String → String → Value
requeue_transition id status now attempts reason token = obj (
    field "id" (str id) (
      field "status" (str status) (
        field "at" (int now) (
          field "attempts" (int attempts)
            (field "reason" (str reason) (field "claim_token" (str token) end))))))

-- A requeue that finds no claim.
unfoldable pub replayed_requeue : String → String → Fields → Result Answer
unfolding claim_token_matches
replayed_requeue id token last =
    if not (is_id id (get "id" last) && claim_token_matches (get "claim_token" last) token)
    then mismatch
    else if is_id "requeued" (get "status" last)
    then ok (answer id "already_requeued" (get_or "attempts" last (int 0)))
    else if is_id "pending" (get "status" last)
    then ok (answer id "pending" (get_or "attempts" last (int 0)))
    else mismatch

-- The scope of a claim whose worker failed: kept pending after the last attempt, or queued again.
unfoldable pub requeue_item :
    Settings → ℕ → String → String → String → State → Live → Scope → Answer × State
unfolding backoff
requeue_item st now id reason token state live item =
    let next = item.attempts + 1 in
    let claims = drop_claim id live.claims in
    if leb st.scope_max_attempts next
    then (
      answer id "pending" (int next),
      save
          (record state {
            last_scope_transition = requeue_transition id "pending" now next reason token;
          })
          (record live {
            claims = claims;
            pending = append_pending_scope st live.pending (attempted item) now reason;
          }),
    )
    else (
      answer id "requeued" (int next),
      save
          (record state {
            last_scope_transition = requeue_transition id "requeued" now next reason token;
          })
          (record live {
            claims = claims;
            queue = live.queue ++ retried st now (now + backoff next) item ∷ [];
          }),
    )

unfoldable pub requeue_claim :
    Settings → ℕ → String → String → String → State → Live → Option Claim → Result (Answer × State)
unfolding replayed_requeue token_matches requeue_item
requeue_claim st now id reason token state live none = do
  a ← replayed_requeue id token (dict_of state.last_scope_transition)
  ok (a, save state live)
requeue_claim st now id reason token state live (some c) =
    if not (token_matches c.claim_token token)
    then mismatch
    else elim (normalise_fields st (claim_fields c) now true) [
      | none ↦ err "scope claim is invalid"
      | some item ↦ ok (requeue_item st now id reason token state live item)
    ]

-- `_requeue_scope`
unfoldable pub requeue_scope :
    Settings → (String → String) → ℕ → String → String → String → State → Result (Answer × State)
unfolding requeue_claim check_control
requeue_scope st fresh now id reason token state = do
  check_control id token
  let live = recover_scope_claims st fresh now state
  requeue_claim st now id (safe_scope_reason reason) token state live (find_claim id live.claims)

-- `_queue_status`: the counts, and the state with the recovery written back. The reconciliation writes
-- `managed_repositories` as a list.
unfoldable pub queue_status : Settings → (String → String) → ℕ → State → (ℕ × ℕ × ℕ × ℕ) × State
unfolding items
queue_status st fresh now state =
    let live = recover_scope_claims st fresh now state in
    (
      (
        length live.queue,
        length live.claims,
        length live.pending,
        elim state.managed_repositories [ arr vs ↦ length (items vs) | _ ↦ 0 ],
      ),
      save state live,
    )

-- ===== src/Router/QueueTests.antt =====
-- The theorems on the scope queue at concrete inputs.
use hermes_n8n_control_plane.Prelude.{String, ◌≡◌, refl, true, [], ◌∷◌, arith, Result, ok, err}
use hermes_n8n_control_plane.Prelude.{casefold}
use hermes_n8n_control_plane.Json.{null, int, get, get_or, items, pack}
use hermes_n8n_control_plane.Router.Patterns.{
  is_stripped, delivery_id_ok, claim_token_ok, repository_ok, safe_scope_reason,
}
use hermes_n8n_control_plane.Router.Scope.{
  scope_fields, normalise_fields, normalise_scope_item, encode_scope, read_repositories, as_mode,
  read_delivery,
}
use hermes_n8n_control_plane.Router.Scope.Sorting.{sort_by}
use hermes_n8n_control_plane.Router.State.{
  State, Live, save, prune_pending_scopes, encode_claims, claim_fields,
}
use hermes_n8n_control_plane.Router.Recovery.{
  recover_scope_claims, read_claim, settle_claim, put_claim, recover_claims, recover_queue,
  recover_queued_scopes, token_or, fate,
}
use hermes_n8n_control_plane.Router.Operations.{
  Answer, claim_scope, ack_scope, requeue_scope, find_claim, pop_due, check_control, token_matches,
  ack_claim, requeue_claim, requeue_item, backoff,
}
use hermes_n8n_control_plane.Router.Known.{IsWork}
use hermes_n8n_control_plane.Router.Kept.Handled.{IsTimely}
use hermes_n8n_control_plane.Router.Kept.Claims.{IsLive}
use hermes_n8n_control_plane.Router.Kept.Lossless.{IsLossless, claim_scope-IsLossless}
use hermes_n8n_control_plane.Router.Kept.Answers.{
  IsAcknowledged, requeue_scope-IsLossless, ack_scope-IsAcknowledged,
}
use hermes_n8n_control_plane.Router.Kept.Handover.{claim_then_ack}
use hermes_n8n_control_plane.Router.Tests.{settings, demo, demo-IsScope, one_managed}

abbrev token : String
token = "0123456789abcdef0123456789abcdef"

abbrev other_token : String → String
other_token id = "ffffffffffffffffffffffffffffffff"

abbrev waiting_one : Live
waiting_one = record { queue = demo ∷ []; claims = []; pending = [] }

abbrev flying_one : Live
flying_one = record {
  queue = [];
  claims = record { item = demo; claim_expires_at = 1400; claim_token = token } ∷ [];
  pending = [];
}

timely : IsTimely settings 200
timely = record { now_pos = omega arith; ttl = omega arith; room_pos = omega arith }

demo-IsWork : IsWork settings 200 demo
demo-IsWork = record { item_ok = demo-IsScope; left = omega arith; past = omega arith }

waiting_one-IsLive : IsLive settings 200 waiting_one
waiting_one-IsLive = record { queue_ok = (demo-IsWork, tt); claims_ok = tt; pending_ok = tt }

flying_one-IsLive : IsLive settings 200 flying_one
unfolding claim_token_ok
flying_one-IsLive = record {
  queue_ok = tt;
  claims_ok = (record { work = demo-IsWork; token = refl; until = refl }, tt);
  pending_ok = tt;
}

token_clean : claim_token_ok token ≡ true
unfolding claim_token_ok
token_clean = refl

abbrev state_of : Result (Answer × State) → State
state_of (ok out) = out.1
state_of (err e) = one_managed

claim_scope-IsLossless_example :
    IsLossless settings 200 waiting_one
      (claim_scope settings other_token token 200 (save one_managed waiting_one)).1
claim_scope-IsLossless_example =
    claim_scope-IsLossless settings other_token token 200 one_managed waiting_one token_clean timely
      waiting_one-IsLive (omega arith)

requeue_scope-IsLossless_example : IsLossless settings 200 flying_one (
    state_of (
      requeue_scope settings other_token 200 "s-1" "worker_failed" token
        (save one_managed flying_one)))
unfolding requeue_scope is_stripped delivery_id_ok find_claim recover_scope_claims save
    encode_claims settle_claim read_claim get claim_fields scope_fields normalise_fields
    read_repositories pack repository_ok put_claim get_or items casefold check_control token_matches
    claim_token_ok recover_claims recover_queue recover_queued_scopes token_or sort_by as_mode
    read_delivery prune_pending_scopes requeue_claim requeue_item backoff safe_scope_reason
requeue_scope-IsLossless_example =
    requeue_scope-IsLossless settings other_token 200 "s-1" "worker_failed" token one_managed
      flying_one (record { id = "s-1"; status = "requeued"; attempts = int 1 })
      (state_of (
        requeue_scope settings other_token 200 "s-1" "worker_failed" token
          (save one_managed flying_one)))
      timely flying_one-IsLive (omega arith) refl

ack_scope-IsAcknowledged_example :
    IsAcknowledged settings 200 "s-1" flying_one
      (state_of (ack_scope settings other_token 200 "s-1" token (save one_managed flying_one)))
unfolding ack_scope is_stripped delivery_id_ok find_claim recover_scope_claims save encode_claims
    settle_claim read_claim get claim_fields scope_fields normalise_fields read_repositories pack
    repository_ok put_claim get_or items casefold check_control token_matches claim_token_ok
    recover_claims recover_queue recover_queued_scopes token_or sort_by as_mode read_delivery
    prune_pending_scopes ack_claim
ack_scope-IsAcknowledged_example =
    ack_scope-IsAcknowledged settings other_token 200 "s-1" token one_managed flying_one
      (record { id = "s-1"; status = "acknowledged"; attempts = null })
      (state_of (ack_scope settings other_token 200 "s-1" token (save one_managed flying_one)))
      timely flying_one-IsLive (omega arith) refl

claim_then_ack_example :
    (after : State) × (ack_scope settings other_token 500 "s-1" token
        (claim_scope settings other_token token 200 (save one_managed waiting_one)).1
      ≡ ok (record { id = "s-1"; status = "acknowledged"; attempts = null }, after))
unfolding claim_scope pop_due recover_scope_claims save encode_claims recover_queue pack fate
    normalise_scope_item encode_scope normalise_fields scope_fields is_stripped delivery_id_ok
    read_repositories repository_ok
claim_then_ack_example =
    claim_then_ack settings other_token token 200 500 one_managed waiting_one demo
      (claim_scope settings other_token token 200 (save one_managed waiting_one)).1 token_clean
      timely waiting_one-IsLive (omega arith) (omega arith) (omega arith) refl

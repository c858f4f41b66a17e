-- ===== src/Router/Tests.antt =====
-- The theorems on the router at concrete inputs.
use hermes_n8n_control_plane.Prelude.{
  err, ◌≡◌, refl, true, false, ◌||◌, Option, none, some, [], ◌∷◌, ltb, arith, ok, strip, casefold,
}
use hermes_n8n_control_plane.Json.{Value, Fields, null, str, arr, obj, end, field, get, pack}
use hermes_n8n_control_plane.Router.Patterns.{Settings, is_stripped, delivery_id_ok, repository_ok}
use hermes_n8n_control_plane.Router.Scope.{
  Scope, event, normalise_fields, scope_fields, encode_scope,
}
use hermes_n8n_control_plane.Router.Scope.RoundTrip.{IsScope, normalise-scope_fields}
use hermes_n8n_control_plane.Router.Scope.Sound.{normalise-IsScope}
use hermes_n8n_control_plane.Router.State.{State, prune_pending_scopes}
use hermes_n8n_control_plane.Router.Known.{IsWork}
use hermes_n8n_control_plane.Router.Recovery.{recover_queue, recover_scope_claims}
use hermes_n8n_control_plane.Router.Kept.Handled.{IsTimely}
use hermes_n8n_control_plane.Router.Kept.Queue.{QueueKept, recover_queue-QueueKept}
use hermes_n8n_control_plane.Router.Deliveries.{
  prune_deliveries, claim_delivery, release_delivery, has_delivery_id,
}
use hermes_n8n_control_plane.Router.Deliveries.Capping.{Integer}
use hermes_n8n_control_plane.Router.Deliveries.Dedupe.{
  IsBounded, claim_again, claim_released, deliveries-IsBounded,
}
use hermes_n8n_control_plane.Router.Installation.{owner_key}
use hermes_n8n_control_plane.Router.Server.{
  Request, Outside, github_signature_valid, service_authorized, error_body, Store,
}
use hermes_n8n_control_plane.Router.Server.Webhook.{github_event, admit_known}
use hermes_n8n_control_plane.Router.Server.Control.{do_post}
use hermes_n8n_control_plane.Router.Server.Admitted.{IsFresh, body_of, github_event_admits}
use hermes_n8n_control_plane.Router.Server.Retryable.{failed_dispatch_retryable}
use hermes_n8n_control_plane.Router.Server.Guarded.{unauthenticated_post}

abbrev pub settings : Settings
settings = record {
  scope_ttl_seconds = 300;
  scope_claim_lease_seconds = 1200;
  scope_max_attempts = 3;
  scope_max_pending = 4096;
  delivery_ttl_seconds = 3600;
  delivery_max_entries = 4096;
  github_owner = "rhgo1749";
  github_owner_type = "personal";
  github_installation_id = none;
  fold_table = λ c. c ∷ [];
}

abbrev pub demo : Scope
demo = record {
  id = "s-1";
  mode = event;
  repositories = "rhgo1749/demo" ∷ [];
  created_at = 100;
  expires_at = 400;
  attempts = 0;
  not_before = 100;
  delivery = some "d-1";
}

pub demo-IsScope : IsScope settings demo
unfolding is_stripped delivery_id_ok repository_ok
demo-IsScope = record {
  id_clean = refl;
  times = refl;
  names = (refl, tt);
  fresh = (refl, tt);
  sorted = tt;
  bounded = omega arith;
  mode_ok = refl;
  delivery_ok = refl;
}

normalise-scope_fields_example :
    normalise_fields settings (scope_fields demo end) 200 false ≡ some demo
unfolding get
normalise-scope_fields_example =
    normalise-scope_fields settings demo end 200 false demo-IsScope refl refl

normalise-IsScope_example : IsScope settings demo × ((false || ltb 200 400) ≡ true)
normalise-IsScope_example =
    normalise-IsScope settings (scope_fields demo end) 200 false demo normalise-scope_fields_example

demo-IsWork : IsWork settings 500 demo
demo-IsWork = record { item_ok = demo-IsScope; left = omega arith; past = omega arith }

timely : IsTimely settings 500
timely = record { now_pos = omega arith; ttl = omega arith; room_pos = omega arith }

recover_queue-QueueKept_example :
    let out = recover_queue settings 500 (encode_scope demo ∷ []) [] [] in
    QueueKept settings 500 (demo ∷ []) [] [] out.0 out.1
recover_queue-QueueKept_example =
    recover_queue-QueueKept settings 500 (demo ∷ []) [] [] timely (demo-IsWork, tt) tt (omega arith)

abbrev no_number : Value → Option Integer
no_number v = none

abbrev pub one_managed : State
one_managed = record {
  scope_queue = null;
  scope_claims = null;
  pending_scopes = null;
  last_scope_transition = null;
  last_claimed_scope = null;
  delivery_dedupe = null;
  managed_repositories = arr (pack (str "rhgo1749/demo" ∷ []));
}

first_claim : (claim_delivery settings no_number "d-1" 100 one_managed).0 ≡ false
unfolding claim_delivery prune_deliveries has_delivery_id
first_claim = refl

claim_again_example :
    (claim_delivery settings no_number "d-1" 200
      (claim_delivery settings no_number "d-1" 100 one_managed).1).0
    ≡ true
unfolding prune_deliveries delivery_id_ok
claim_again_example =
    claim_again settings no_number "d-1" 100 200 one_managed refl (omega arith) tt first_claim
      (omega arith)

claim_released_example :
    (claim_delivery settings no_number "d-1" 200
      (release_delivery settings no_number "d-1" 100 one_managed)).0
    ≡ false
claim_released_example = claim_released settings no_number "d-1" 100 200 one_managed

deliveries-IsBounded_example :
    IsBounded settings (claim_delivery settings no_number "d-1" 100 one_managed).1
    × IsBounded settings (release_delivery settings no_number "d-1" 100 one_managed)
deliveries-IsBounded_example = deliveries-IsBounded settings no_number "d-1" 100 one_managed

abbrev payload : Fields
payload =
    field "repository" (obj (field "full_name" (str "rhgo1749/demo") end))
      (field "action" (str "opened") end)

abbrev pub outside : Outside
outside = record {
  render = λ v. "";
  parse_int = no_number;
  parse_json = λ body. some (obj payload);
  hmac_hex = λ secret body. "ab";
  webhook_secret = some "hook";
  control_token = some "token";
  clock = λ m. 100;
  fresh_token = λ id. id;
  new_id = "s-2";
  new_token = "0123456789abcdef0123456789abcdef";
  lease_request = λ path token. ok (200, field "lease" (str "l-1") end);
  edge_sync = λ fields. ok 200;
  reconcile = λ store. (ok end, store);
  configured = end;
  between = λ moment store. store;
}

abbrev pub signed : Request
signed = record {
  path = "/github/hermes-intake";
  authorization = "";
  content_length = "2";
  received = 123 ∷ 125 ∷ [];
  signature = "sha256=ab";
  delivery = "d-1";
  event = "issues";
}

abbrev unsigned : Request
unsigned = record {
  path = "/scope/claim";
  authorization = "Bearer other";
  content_length = "2";
  received = 123 ∷ 125 ∷ [];
  signature = "sha256=";
  delivery = "d-1";
  event = "issues";
}

github_event_admits_example :
    (github_signature_valid outside (body_of signed) (strip "sha256=ab") ≡ true)
    × (delivery_id_ok (strip "d-1") ≡ true)
    × IsFresh settings outside signed (ok one_managed)
unfolding github_event delivery_id_ok is_stripped repository_ok casefold owner_key admit_known
    recover_scope_claims prune_pending_scopes
github_event_admits_example = github_event_admits settings outside signed (ok one_managed) refl

unauthenticated_post_example :
    ((do_post settings outside unsigned (ok one_managed)).store ≡ ok one_managed)
    × ((do_post settings outside unsigned (ok one_managed)).sent ≡ [])
unfolding github_signature_valid service_authorized
unauthenticated_post_example =
    unauthenticated_post settings outside unsigned (ok one_managed) refl refl

-- The lease controller is down.
abbrev lease_down : Outside
lease_down = record outside { lease_request = λ path token. err "lease-controller request failed" }

abbrev left_by : Store → State
left_by (ok state) = state
left_by (err e) = one_managed

failed_dispatch_retryable_example :
    (claim_delivery settings no_number
      (strip "d-1")
      200
      (left_by (github_event settings lease_down signed (ok one_managed)).store)).0
    ≡ false
unfolding github_event delivery_id_ok is_stripped repository_ok casefold owner_key admit_known
    recover_scope_claims prune_pending_scopes
failed_dispatch_retryable_example =
    failed_dispatch_retryable settings lease_down signed (ok one_managed)
      (error_body "lease-controller request failed")
      (left_by (github_event settings lease_down signed (ok one_managed)).store) 200 refl refl

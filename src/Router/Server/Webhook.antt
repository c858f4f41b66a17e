-- ===== src/Router/Server/Webhook.antt =====
-- `_github_event`: a signed webhook delivery is claimed, admitted, and handed on to n8n or queued.
use hermes_n8n_control_plane.Prelude.{
  ℕ, zero, suc, ◌*◌, String, Bool, true, false, not, ◌&&◌, ◌||◌, Option, none, some, List, [], ◌∷◌,
  map, ◌==◌, text_comparable, codes_comparable, number_comparable, ltb, length, codes, strip,
  contains, if◌then◌else◌, Result, ok, err,
}
use hermes_n8n_control_plane.Json.{Value, Fields, null, bool, int, str, arr, obj, end, field, pack}
use hermes_n8n_control_plane.Router.Patterns.{Settings, delivery_id_ok}
use hermes_n8n_control_plane.Router.Scope.{event, is_empty, scope_fields}
use hermes_n8n_control_plane.Router.Enqueue.{
  Enqueued, Place, new, waiting, parked, in_flight, enqueue_scope,
}
use hermes_n8n_control_plane.Router.Deliveries.{claim_delivery, release_delivery}
use hermes_n8n_control_plane.Router.Installation.{
  decimal, digits_only, installation_context_matches, has_app_installation_context,
  owner_scope_matches,
}
use hermes_n8n_control_plane.Router.Events.{
  folded_action, event_repositories, normalise_pull_request_event, ignored_event_response,
}
use hermes_n8n_control_plane.Router.Server.{
  Store, Request, claiming, queueing, releasing, Outside, Sent, edge_event, Served, reply, refuse,
  transact, transact_checked, github_signature_valid, wake,
}
use hermes_n8n_control_plane.Router.Server.Admission.{unknown_repositories}

abbrev pub max_body_bytes : ℕ
max_body_bytes = 1024 * 1024

abbrev pub supported_events : List String
supported_events =
    "installation" ∷ "installation_repositories" ∷ "issues" ∷ "issue_comment" ∷ "pull_request"
    ∷ "pull_request_review" ∷ "public" ∷ "repository" ∷ []

abbrev pub is_installation : String → Bool
is_installation name = name == "installation" || name == "installation_repositories"

-- `self.rfile.read(length)`
unfoldable pub take_bytes : ℕ → List ℕ → List ℕ
take_bytes zero bs = []
take_bytes (suc n) [] = []
take_bytes (suc n) (b ∷ bs) = b ∷ take_bytes n bs

abbrev texts : List String → Value
texts rs = arr (pack (map str rs))

abbrev first_text : List String → Value
first_text (r ∷ []) = str r
first_text _ = null

-- The answer, unless the release raised itself.
abbrev pub released : List Sent → String → Result (Unit {0}) × Store → Served
released sent e (err later, store) = record { store = store; reply = err later; sent = sent }
released sent e (ok _, store) = refuse store sent 502 e

-- A dispatch that failed: the delivery is released, and the answer is 502.
unfoldable pub fail_dispatch : Settings → Outside → String → Store → List Sent → String → Served
unfolding release_delivery
fail_dispatch st o id store sent e = released sent e (
    transact (o.between releasing store)
      (λ state. (tt, release_delivery st o.parse_int id (o.clock releasing) state)))

abbrev pub edge_body : String → String → ℕ → Fields
edge_body id repository status = field "ok" (bool true) (
    field "edge_sync" (bool true) (
      field "repository" (str repository) (
        field "event" (str "pull_request")
          (field "delivery" (str id) (field "upstream_status" (int status) end)))))

-- The low-latency hop of a pull request of a managed repository.
unfoldable pub dispatch_edge : Settings → Outside → String → String → Fields → Store → Served
unfolding normalise_pull_request_event fail_dispatch
dispatch_edge st o id repository payload store =
    elim (normalise_pull_request_event payload repository id) [
      | err e ↦ refuse store [] 400 e
      | ok normalised ↦ elim (o.edge_sync normalised) [
        | err e ↦ fail_dispatch st o id store (edge_event normalised ∷ []) e
        | ok status ↦ reply store (edge_event normalised ∷ []) 202 (edge_body id repository status)
      ]
    ]

abbrev pub skipped_wake : Fields
skipped_wake =
    field "skipped" (bool true) (field "reason" (str "scope_already_active_or_pending") end)

-- The wake that follows the queueing, unless the scope is in flight or pending.
unfoldable pub wake_for : Outside → Place → Result Fields × List Sent
unfolding wake
wake_for o in_flight = (ok skipped_wake, [])
wake_for o parked = (ok skipped_wake, [])
wake_for o new = wake o
wake_for o waiting = wake o

-- The answer shows the item; the further keys of a stored entry are left out here.
abbrev pub queued_body : String → String → List String → Enqueued → Fields → Fields
queued_body name id repositories e woken = field "ok" (bool true) (
    field "queued" (bool true) (
      field "repository" (first_text repositories) (
        field "repositories" (texts repositories) (
          field "event" (str name) (
            field "delivery" (str id)
              (field "scope" (obj (scope_fields e.item end)) (field "wake" (obj woken) end)))))))

-- The answer to a scope that was queued, after the wake.
unfoldable pub queued_answer :
    Settings
    → Outside
    → String
    → String
    → List String
    → Store
    → Enqueued
    → Result Fields × List Sent
    → Served
unfolding fail_dispatch
queued_answer st o id name repositories store queued (err e, sent) =
    fail_dispatch st o id store sent e
queued_answer st o id name repositories store queued (ok woken, sent) =
    reply store sent 202 (queued_body name id repositories queued woken)

unfoldable pub after_queueing :
    Settings → Outside → String → String → List String → Result Enqueued × Store → Served
unfolding fail_dispatch queued_answer wake_for
after_queueing st o id name repositories (err e, store) = fail_dispatch st o id store [] e
after_queueing st o id name repositories (ok queued, store) =
    queued_answer st o id name repositories store queued (wake_for o queued.place)

-- The queue, for every other event.
unfoldable pub dispatch_queue : Settings → Outside → String → String → List String → Store → Served
unfolding enqueue_scope after_queueing
dispatch_queue st o id name repositories store = after_queueing st o id name repositories (
    transact_checked (o.between queueing store)
      (enqueue_scope st o.fresh_token o.new_id (o.clock queueing) event repositories (some id)))

abbrev pub ignore : Store → String → String → String → List String → Served
ignore store reason name id repositories =
    reply store [] 202 (ignored_event_response reason name id repositories)

abbrev pub one_of_them : List String → Option String
one_of_them (r ∷ []) = some r
one_of_them _ = none

-- The choice between the hop and the queue.
unfoldable pub dispatch :
    Settings → Outside → String → String → Fields → List String → List String → Store → Served
unfolding dispatch_edge dispatch_queue
dispatch st o id name payload repositories unknown store =
    if name == "pull_request" && is_empty unknown
    then elim (one_of_them repositories) [
      | some repository ↦ dispatch_edge st o id repository payload store
      | none ↦ dispatch_queue st o id name repositories store
    ]
    else dispatch_queue st o id name repositories store

abbrev pub no_repository_reason : String → String
no_repository_reason name =
    if is_installation name then "installation_no_repository_candidates" else "repository_missing"

-- What follows the test on the managed repositories.
unfoldable pub admit_known :
    Settings
    → Outside
    → String
    → String
    → Fields
    → List String
    → Result (List String) × Store
    → Served
unfolding has_app_installation_context dispatch
admit_known st o id name payload repositories (err e, store) = record {
  store = store;
  reply = err e;
  sent = [];
}
admit_known st o id name payload repositories (ok unknown, store) =
    if not (is_empty unknown) && not (has_app_installation_context st payload)
    then ignore store "repository_not_managed" name id unknown
    else dispatch st o id name payload repositories unknown store

-- The tests on the event, its owner and its repositories.
unfoldable pub admit : Settings → Outside → String → String → Fields → List String → Store → Served
unfolding installation_context_matches owner_scope_matches has_app_installation_context
    folded_action unknown_repositories dispatch
admit st o id name payload repositories store =
    if (is_installation name && not (installation_context_matches st payload))
      || not (owner_scope_matches st payload repositories)
    then ignore store "owner_scope_mismatch" name id repositories
    else if is_empty repositories
    then ignore store (no_repository_reason name) name id []
    else if name == "repository" && not (folded_action st o.render payload == codes "archived")
    then ignore store "unsupported_repository_action" name id repositories
    else admit_known st o id name payload repositories
        (unknown_repositories st o 0 store repositories)

-- What follows the reading of the repositories.
unfoldable pub admit_named :
    Settings → Outside → String → String → Fields → Store → Result (List String) → Served
unfolding admit
admit_named st o id name payload store (err e) = refuse store [] 400 e
admit_named st o id name payload store (ok repositories) =
    admit st o id name payload repositories store

-- What follows `json.loads` of the body.
unfoldable pub handle_payload : Settings → Outside → String → String → Store → Option Value → Served
unfolding event_repositories admit_named
handle_payload st o id name store none = refuse store [] 400 "invalid_json"
handle_payload st o id name store (some (obj payload)) =
    admit_named st o id name payload store (event_repositories st o.render name payload)
handle_payload st o id name store (some _) = refuse store [] 400 "payload_invalid"

-- A delivery that this request owns.
unfoldable pub handle_delivery : Settings → Outside → String → String → List ℕ → Store → Served
unfolding handle_payload
handle_delivery st o id name body store =
    if name == "ping"
    then reply store [] 200
        (field "ok" (bool true) (field "event" (str "ping") (field "delivery" (str id) end)))
    else if not (contains name supported_events)
    then ignore store "unsupported_event" name id []
    else handle_payload st o id name store (o.parse_json body)

abbrev pub duplicate_body : String → Fields
duplicate_body id = field "ok" (bool true) (
    field "duplicate" (bool true)
      (field "reason" (str "duplicate_delivery") (field "delivery" (str id) end)))

-- What follows the claim of the delivery.
unfoldable pub claimed :
    Settings → Outside → String → String → List ℕ → Result Bool × Store → Served
unfolding handle_delivery
claimed st o id name body (err e, store) = refuse store [] 503 e
claimed st o id name body (ok true, store) = reply store [] 202 (duplicate_body id)
claimed st o id name body (ok false, store) = handle_delivery st o id name body store

-- `_github_event`; `int` of a Content-Length of more than 4300 digits, which raises, is left out.
unfoldable pub github_event : Settings → Outside → Request → Store → Served
unfolding decimal take_bytes github_signature_valid strip claim_delivery claimed
github_event st o req store =
    let length_given = decimal 0 (codes req.content_length) in
    let body = take_bytes length_given req.received in
    let id = strip req.delivery in
    if not (digits_only (codes req.content_length))
    then refuse store [] 400 "invalid_body_length"
    else if length_given == 0 || ltb max_body_bytes length_given
    then refuse store [] 400 "invalid_body_length"
    else if not (length body == length_given)
    then refuse store [] 400 "truncated_body"
    else if not (github_signature_valid o body (strip req.signature))
    then refuse store [] 401 "invalid_signature"
    else if not (delivery_id_ok id)
    then refuse store [] 400 "invalid_delivery_id"
    else claimed st o id (strip req.event) body
        (transact (o.between claiming store) (claim_delivery st o.parse_int id (o.clock claiming)))

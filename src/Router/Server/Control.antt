-- ===== src/Router/Server/Control.antt =====
-- `do_GET` and `do_POST`: the routes of the router, and the control of the scope queue.
use hermes_n8n_control_plane.Prelude.{
  ℕ, String, Bool, true, false, not, ◌&&◌, ◌||◌, Option, none, some, List, [], ◌==◌,
  text_comparable, number_comparable, ltb, leb, length, codes, strip, drop_prefix, if◌then◌else◌,
  Result, ok, err, ◌>>=◌, ◌>>◌, unless_raise,
}
use hermes_n8n_control_plane.Json.{
  Value, Fields, null, bool, int, str, arr, obj, end, field, get, get_or, pack,
}
use hermes_n8n_control_plane.Router.Patterns.{Settings}
use hermes_n8n_control_plane.Router.Scope.{Scope, full, scope_fields}
use hermes_n8n_control_plane.Router.Operations.{
  Answer, claim_scope, check_control, ack_scope, requeue_scope, queue_status,
}
use hermes_n8n_control_plane.Router.Enqueue.{Enqueued, enqueue_scope}
use hermes_n8n_control_plane.Router.Installation.{decimal, digits_only}
use hermes_n8n_control_plane.Router.Server.{
  Store, Request, Outside, claiming, queueing, Sent, Served, reply, refuse, transact,
  transact_checked, service_authorized, wake,
}
use hermes_n8n_control_plane.Router.Server.Webhook.{take_bytes, github_event}

abbrev payload_of : Option Value → Result Fields
payload_of (some (obj payload)) = ok payload
payload_of _ = err "invalid_scope_control_body"

-- `_read_scope_control_body`
unfoldable pub read_scope_control_body : Outside → Request → Result Fields
unfolding decimal take_bytes
read_scope_control_body o req = do
  let given = decimal 0 (codes req.content_length)
  let body = take_bytes given req.received
  unless_raise (digits_only (codes req.content_length)) "invalid_scope_control_body"
  unless_raise (ltb 0 given && leb given 4096) "invalid_scope_control_body"
  unless_raise (length body == given) "invalid_scope_control_body"
  payload_of (o.parse_json body)

abbrev text_or_raise : String → Value → Result String
text_or_raise e (str s) = ok s
text_or_raise e _ = err e

-- `piece in text`
unfoldable pub occurs : String → String → Bool
unfolding drop_prefix
occurs piece String.[] = piece == ""
occurs piece (String.◌∷◌ c s) = elim (drop_prefix piece (String.◌∷◌ c s)) [
  | some rest ↦ true
  | none ↦ occurs piece s
]

abbrev starts_with : String → String → Bool
starts_with piece text = elim (drop_prefix piece text) [ some rest ↦ true | none ↦ false ]

-- The status of a RouterError of a control request.
unfoldable pub control_status : String → ℕ
unfolding occurs drop_prefix
control_status e =
    if occurs "not in flight" e || occurs "claim token mismatch" e
    then 409
    else if starts_with "invalid" e
    then 400
    else 503

abbrev attempts_field : Value → Fields
attempts_field null = end
attempts_field v = field "attempts" v end

abbrev answer_body : Answer → Fields
answer_body a =
    field "ok" (bool true)
      (field "id" (str a.id) (field "status" (str a.status) (attempts_field a.attempts)))

abbrev controlled : Result Answer × Store → Served
controlled (err e, store) = refuse store [] (control_status e) e
controlled (ok a, store) = reply store [] 200 (answer_body a)

-- The id, the token and the reason of a control request; an ack has none.
unfoldable pub control_inputs : Bool → Fields → Result (String × String × String)
unfolding get get_or check_control
control_inputs is_ack payload = do
  id ← text_or_raise "invalid scope id" (get "id" payload)
  token ← text_or_raise "invalid scope claim token" (get "claim_token" payload)
  reason ← reason_of is_ack (get_or "reason" payload (str ""))
  check_control id token
  ok (id, token, reason)
  where
    reason_of : Bool → Value → Result String
    reason_of true v = ok ""
    reason_of false v = text_or_raise "invalid scope reason" v

abbrev controlled_change :
    Settings → Outside → Bool → Store → Result (String × String × String) → Result Answer × Store
controlled_change st o is_ack store (err e) = (err e, store)
controlled_change st o true store (ok (id, token, reason)) =
    transact_checked store (ack_scope st o.fresh_token (o.clock claiming) id token)
controlled_change st o false store (ok (id, token, reason)) =
    transact_checked store (requeue_scope st o.fresh_token (o.clock claiming) id reason token)

-- A control request whose body is read; the checks precede the load of the state.
unfoldable pub control_scope : Settings → Outside → Bool → Store → Fields → Result Answer × Store
unfolding control_inputs ack_scope requeue_scope
control_scope st o is_ack store payload =
    controlled_change st o is_ack store (control_inputs is_ack payload)

unfoldable pub serve_control : Settings → Outside → Bool → Request → Store → Served
unfolding control_status read_scope_control_body control_scope
serve_control st o is_ack req store = elim (read_scope_control_body o req) [
  | err e ↦ controlled (err e, store)
  | ok payload ↦ controlled (control_scope st o is_ack store payload)
]

-- The body of a claim that found nothing.
abbrev no_scope : ℕ → Fields
no_scope now = field "id" (str "") (
    field "mode" (str "none") (
      field "repositories" (arr (pack [])) (
        field "created_at" (int now) (
          field "expires_at" (int 0) (field "attempts" (int 0) (field "not_before" (int 0) end))))))

abbrev claim_body : ℕ → Option (Scope × String) → Fields
claim_body now none = no_scope now
claim_body now (some (s, token)) = scope_fields s (field "claim_token" (str token) end)

abbrev claim_answer : ℕ → Result (Option (Scope × String)) × Store → Served
claim_answer now (err e, store) = refuse store [] 503 e
claim_answer now (ok found, store) =
    reply store [] 200 (field "ok" (bool true) (claim_body now found))

unfoldable pub serve_claim : Settings → Outside → Store → Served
unfolding claim_scope
serve_claim st o store =
    claim_answer (o.clock claiming)
      (transact store (claim_scope st o.fresh_token o.new_token (o.clock claiming)))

abbrev reconcile_answer : Result Fields × Store → Served
reconcile_answer (err e, store) = refuse store [] 502 e
reconcile_answer (ok body, store) = reply store [] 200 body

abbrev reconciled : Result Fields → Bool
reconciled (ok body) = true
reconciled (err e) = false

abbrev fallback_body : Result Fields → Enqueued → Fields → Fields
fallback_body reconciliation e woken = field "ok" (bool true) (
    field "mode" (str "fallback") (
      field "scope" (obj (scope_fields e.item end)) (
        field "wake" (obj woken) (
          field "reconcile_ok" (bool (reconciled reconciliation)) (
            field "reconcile" (elim reconciliation [ ok body ↦ obj body | err e ↦ null ])
              (field "reconcile_warning" (str (elim reconciliation [ ok body ↦ "" | err e ↦ e ]))
                end))))))

abbrev woken_fallback : Result Fields → Store → Enqueued → Result Fields × List Sent → Served
woken_fallback reconciliation store queued (err e, sent) = refuse store sent 502 e
woken_fallback reconciliation store queued (ok woken, sent) =
    reply store sent 200 (fallback_body reconciliation queued woken)

abbrev fallback_answer : Outside → Result Fields → Result Enqueued × Store → Served
fallback_answer o reconciliation (err e, store) = refuse store [] 502 e
fallback_answer o reconciliation (ok queued, store) =
    woken_fallback reconciliation store queued (wake o)

-- `/fallback`: a full scope is queued and the lease controller is woken, even if the webhooks could
-- not be reconciled.
unfoldable pub serve_fallback : Settings → Outside → Store → Served
unfolding enqueue_scope wake
serve_fallback st o store =
    let (reconciliation, after) = o.reconcile store in
    fallback_answer o reconciliation (
      transact_checked (o.between queueing after)
        (enqueue_scope st o.fresh_token o.new_id (o.clock queueing) full [] none))

-- `except RouterError` around `_github_event`.
unfoldable pub or_unavailable : Served → Served
or_unavailable s = elim s.reply [ ok _ ↦ s | err e ↦ refuse s.store s.sent 503 e ]

-- `do_POST`
unfoldable pub do_post : Settings → Outside → Request → Store → Served
unfolding strip service_authorized github_event or_unavailable serve_claim serve_control
    serve_fallback
do_post st o req store =
    if req.path == "/github/hermes-intake"
    then or_unavailable (github_event st o req store)
    else if not (service_authorized o (strip req.authorization))
    then refuse store [] 401 "authorization_required"
    else if req.path == "/scope/claim"
    then serve_claim st o store
    else if req.path == "/scope/ack"
    then serve_control st o true req store
    else if req.path == "/scope/requeue"
    then serve_control st o false req store
    else if req.path == "/reconcile"
    then reconcile_answer (o.reconcile store)
    else if req.path == "/fallback"
    then serve_fallback st o store
    else refuse store [] 404 "not_found"

abbrev status_answer : Fields → Result (ℕ × ℕ × ℕ × ℕ) × Store → Served
status_answer configured (err e, store) = refuse store [] 503 e
status_answer configured (ok (queued, in_flight, pending, managed), store) = reply store [] 200 (
    field "ok" (bool true) (
      field "queued_scopes" (int queued) (
        field "in_flight_scopes" (int in_flight)
          (field "pending_scopes" (int pending) (field "managed_count" (int managed) configured)))))

-- `do_GET`
unfoldable pub do_get : Settings → Outside → Request → Store → Served
unfolding strip service_authorized queue_status
do_get st o req store =
    if req.path == "/healthz"
    then reply store [] 200 (field "ok" (bool true) end)
    else if not (req.path == "/debug/state")
    then refuse store [] 404 "not_found"
    else if not (service_authorized o (strip req.authorization))
    then refuse store [] 401 "authorization_required"
    else status_answer o.configured
        (transact store (queue_status st o.fresh_token (o.clock claiming)))

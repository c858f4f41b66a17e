-- ===== src/Router/Server/Retryable.antt =====
-- A dispatch that failed leaves the delivery for a retry.
use hermes_n8n_control_plane.Prelude.{
  ℕ, String, ◌≡◌, ◌≢◌, refl, subst, ap, Bool, true, false, not, ◌&&◌, ◌||◌, Option, none, some,
  List, [], ◌∷◌, ◌==◌, text_comparable, codes_comparable, number_comparable, ltb, length, codes,
  strip, contains, arith, if_both, Result, ok, err, ok_injective,
}
use hermes_n8n_control_plane.Json.{Value, Fields, null, bool, int, negative, float, str, arr, obj}
use hermes_n8n_control_plane.Router.Patterns.{Settings, delivery_id_ok}
use hermes_n8n_control_plane.Router.Scope.{event, is_empty}
use hermes_n8n_control_plane.Router.State.{State}
use hermes_n8n_control_plane.Router.Enqueue.{Enqueued, enqueue_scope}
use hermes_n8n_control_plane.Router.Deliveries.{claim_delivery, release_delivery}
use hermes_n8n_control_plane.Router.Deliveries.Dedupe.{claim_released}
use hermes_n8n_control_plane.Router.Installation.{
  decimal, digits_only, has_app_installation_context, installation_context_matches,
  owner_scope_matches,
}
use hermes_n8n_control_plane.Router.Events.{
  event_repositories, normalise_pull_request_event, folded_action,
}
use hermes_n8n_control_plane.Router.Server.{
  transact_checked, Store, Request, claiming, queueing, releasing, Outside, Sent, edge_event,
  Response, Served, reply, refuse, transact, github_signature_valid,
}
use hermes_n8n_control_plane.Router.Server.Admission.{unknown_repositories}
use hermes_n8n_control_plane.Router.Server.Webhook.{
  github_event, claimed, handle_delivery, handle_payload, admit_named, admit, admit_known, dispatch,
  dispatch_edge, dispatch_queue, after_queueing, queued_answer, fail_dispatch, supported_events,
  is_installation, max_body_bytes, one_of_them, wake_for, released, edge_body,
}
use hermes_n8n_control_plane.Router.Server.Admitted.{body_of}

-- If the answer is 502, the next claim of the delivery is no duplicate.
IsRetryable : Settings → Outside → String → Served → Type 0
IsRetryable st o id s =
    (body : Fields) (state : State) (later : ℕ)
    → s.reply ≡ ok (record { status = 502; body = body })
    → s.store ≡ ok state
    → (claim_delivery st o.parse_int id later state).0 ≡ false

module _ (st : Settings) (o : Outside) (id : String) where
  other_status :
      (status : ℕ) (store : Store) (sent : List Sent) (body : Fields)
      → status ≢ 502
      → IsRetryable st o id (reply store sent status body)
  unfolding IsRetryable
  other_status status store sent body differs b state later answered kept =
      absurd (differs (ap (λ (r : Response). r.status) (ok_injective answered)))

  raised : (s : Served) (e : String) → s.reply ≡ err e → IsRetryable st o id s
  unfolding IsRetryable
  raised s e r b state later answered kept = cc

  failed :
      (store : Store) (sent : List Sent) (e : String)
      → IsRetryable st o id (fail_dispatch st o id store sent e)
  unfolding fail_dispatch IsRetryable
  failed store sent e = go (o.between releasing store)
    where
      go :
          (now : Store)
          → IsRetryable st o id (
              released sent e (
                transact now
                  (λ state. (tt, release_delivery st o.parse_int id (o.clock releasing) state))))
      go (err m) b state later answered kept = cc
      go (ok before) b state later answered kept =
          subst (λ (s : State). (claim_delivery st o.parse_int id later s).0 ≡ false)
            (ok_injective kept) (claim_released st o.parse_int id (o.clock releasing) later before)

  refused :
      (status : ℕ) (store : Store) (e : String)
      → (status == 502) ≡ false
      → IsRetryable st o id (refuse store [] status e)
  refused status store e differs = other_status status store [] _ (λ same. ground arith)

  edge-IsRetryable :
      (repository : String) (payload : Fields) (store : Store)
      → IsRetryable st o id (dispatch_edge st o id repository payload store)
  unfolding dispatch_edge
  edge-IsRetryable repository payload store =
      go (normalise_pull_request_event payload repository id)
    where
      sent_on :
          (sent_event : Fields) (answer : Result ℕ)
          → IsRetryable st o id (elim answer [
            | err e ↦ fail_dispatch st o id store (edge_event sent_event ∷ []) e
            | ok status ↦
                reply store (edge_event sent_event ∷ []) 202 (edge_body id repository status)
          ])
      sent_on sent_event (err e) = failed store (edge_event sent_event ∷ []) e
      sent_on sent_event (ok status) =
          other_status 202 store (edge_event sent_event ∷ []) _ (λ same. omega arith)

      go :
          (normalised : Result Fields)
          → IsRetryable st o id (elim normalised [
            | err e ↦ refuse store [] 400 e
            | ok sent_event ↦ elim (o.edge_sync sent_event) [
              | err e ↦ fail_dispatch st o id store (edge_event sent_event ∷ []) e
              | ok status ↦
                  reply store (edge_event sent_event ∷ []) 202 (edge_body id repository status)
            ]
          ])
      go (err e) = refused 400 store e refl
      go (ok sent_event) = sent_on sent_event (o.edge_sync sent_event)

  queued-IsRetryable :
      (name : String) (repositories : List String) (store : Store) (queued : Enqueued)
      (woken : Result Fields × List Sent)
      → IsRetryable st o id (queued_answer st o id name repositories store queued woken)
  unfolding queued_answer
  queued-IsRetryable name repositories store queued (err e, sent) = failed store sent e
  queued-IsRetryable name repositories store queued (ok woken, sent) =
      other_status 202 store sent _ (λ same. omega arith)

  after_queueing-IsRetryable :
      (name : String) (repositories : List String) (out : Result Enqueued × Store)
      → IsRetryable st o id (after_queueing st o id name repositories out)
  unfolding after_queueing
  after_queueing-IsRetryable name repositories (err e, store) = failed store [] e
  after_queueing-IsRetryable name repositories (ok queued, store) =
      queued-IsRetryable name repositories store queued (wake_for o queued.place)

  queue-IsRetryable :
      (name : String) (repositories : List String) (store : Store)
      → IsRetryable st o id (dispatch_queue st o id name repositories store)
  unfolding dispatch_queue
  queue-IsRetryable name repositories store = after_queueing-IsRetryable name repositories (
      transact_checked (o.between queueing store)
        (enqueue_scope st o.fresh_token o.new_id (o.clock queueing) event repositories (some id)))

  single-IsRetryable :
      (name : String) (payload : Fields) (repositories : List String) (store : Store)
      (one : Option String)
      → IsRetryable st o id (elim one [
        | some repository ↦ dispatch_edge st o id repository payload store
        | none ↦ dispatch_queue st o id name repositories store
      ])
  single-IsRetryable name payload repositories store none =
      queue-IsRetryable name repositories store
  single-IsRetryable name payload repositories store (some repository) =
      edge-IsRetryable repository payload store

  dispatch-IsRetryable :
      (name : String) (payload : Fields) (repositories unknown : List String) (store : Store)
      → IsRetryable st o id (dispatch st o id name payload repositories unknown store)
  unfolding dispatch
  dispatch-IsRetryable name payload repositories unknown store =
      if_both (IsRetryable st o id) (name == "pull_request" && is_empty unknown)
        (single-IsRetryable name payload repositories store (one_of_them repositories))
        (queue-IsRetryable name repositories store)

  accepted : (store : Store) (body : Fields) → IsRetryable st o id (reply store [] 202 body)
  accepted store body = other_status 202 store [] body (λ same. omega arith)

  known-IsRetryable :
      (name : String) (payload : Fields) (repositories : List String)
      (tested : Result (List String) × Store)
      → IsRetryable st o id (admit_known st o id name payload repositories tested)
  unfolding admit_known
  known-IsRetryable name payload repositories (err e, store) =
      raised (record { store = store; reply = err e; sent = [] }) e refl
  known-IsRetryable name payload repositories (ok unknown, store) =
      if_both (IsRetryable st o id)
        (not (is_empty unknown) && not (has_app_installation_context st payload)) (accepted store _)
        (dispatch-IsRetryable name payload repositories unknown store)

  admit-IsRetryable :
      (name : String) (payload : Fields) (repositories : List String) (store : Store)
      → IsRetryable st o id (admit st o id name payload repositories store)
  unfolding admit
  admit-IsRetryable name payload repositories store =
      if_both (IsRetryable st o id)
        ((is_installation name && not (installation_context_matches st payload))
          || not (owner_scope_matches st payload repositories))
        (accepted store _)
        (if_both (IsRetryable st o id) (is_empty repositories) (accepted store _) (
          if_both (IsRetryable st o id)
            (name == "repository" && not (folded_action st o.render payload == codes "archived"))
            (accepted store _)
            (known-IsRetryable name payload repositories
              (unknown_repositories st o 0 store repositories))))

  named-IsRetryable :
      (name : String) (payload : Fields) (store : Store) (found : Result (List String))
      → IsRetryable st o id (admit_named st o id name payload store found)
  unfolding admit_named
  named-IsRetryable name payload store (err e) = refused 400 store e refl
  named-IsRetryable name payload store (ok repositories) =
      admit-IsRetryable name payload repositories store

  payload-IsRetryable :
      (name : String) (store : Store) (read : Option Value)
      → IsRetryable st o id (handle_payload st o id name store read)
  unfolding handle_payload
  payload-IsRetryable name store none = refused 400 store _ refl
  payload-IsRetryable name store (some (obj payload)) =
      named-IsRetryable name payload store (event_repositories st o.render name payload)
  payload-IsRetryable name store (some null) = refused 400 store _ refl
  payload-IsRetryable name store (some (bool b)) = refused 400 store _ refl
  payload-IsRetryable name store (some (int n)) = refused 400 store _ refl
  payload-IsRetryable name store (some (negative n)) = refused 400 store _ refl
  payload-IsRetryable name store (some (float s)) = refused 400 store _ refl
  payload-IsRetryable name store (some (str s)) = refused 400 store _ refl
  payload-IsRetryable name store (some (arr vs)) = refused 400 store _ refl

  claimed-IsRetryable :
      (name : String) (body : List ℕ) (out : Result Bool × Store)
      → IsRetryable st o id (claimed st o id name body out)
  unfolding claimed handle_delivery
  claimed-IsRetryable name body (err e, store) = refused 503 store e refl
  claimed-IsRetryable name body (ok true, store) = accepted store _
  claimed-IsRetryable name body (ok false, store) =
      if_both (IsRetryable st o id) (name == "ping")
        (other_status 200 store [] _ (λ same. omega arith))
        (if_both (IsRetryable st o id) (not (contains name supported_events)) (accepted store _)
          (payload-IsRetryable name store (o.parse_json body)))

webhook-IsRetryable :
    (st : Settings) (o : Outside) (req : Request) (store : Store)
    → IsRetryable st o (strip req.delivery) (github_event st o req store)
unfolding github_event
webhook-IsRetryable st o req store =
    let given : ℕ = decimal 0 (codes req.content_length) in
    let id : String = strip req.delivery in
    let Q : Served → Type 0 = IsRetryable st o id in
    if_both Q (not (digits_only (codes req.content_length))) (refused st o id 400 store _ refl) (
      if_both Q (given == 0 || ltb max_body_bytes given) (refused st o id 400 store _ refl) (
        if_both Q (not (length (body_of req) == given)) (refused st o id 400 store _ refl) (
          if_both Q (not (github_signature_valid o (body_of req) (strip req.signature)))
            (refused st o id 401 store _ refl)
            (if_both Q (not (delivery_id_ok id)) (refused st o id 400 store _ refl) (
              claimed-IsRetryable st o id (strip req.event) (body_of req) (
                transact (o.between claiming store)
                  (claim_delivery st o.parse_int id (o.clock claiming))))))))

-- When the webhook handler answers 502, the delivery was released: in the state that it leaves, the
-- next claim of the delivery is no duplicate, whenever that is.
pub failed_dispatch_retryable :
    (st : Settings) (o : Outside) (req : Request) (store : Store) (body : Fields) (state : State)
    (later : ℕ)
    → (github_event st o req store).reply ≡ ok (record { status = 502; body = body })
    → (github_event st o req store).store ≡ ok state
    → (claim_delivery st o.parse_int (strip req.delivery) later state).0 ≡ false
unfolding IsRetryable
failed_dispatch_retryable st o req store = webhook-IsRetryable st o req store

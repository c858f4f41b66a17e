-- ===== src/Router/Server.antt =====
-- The HTTP server of router.py: the requests, what the process asks of the world outside, and the
-- pieces that the handlers share.
pub mod Webhook
pub mod Control
pub mod Admission
pub mod Admitted
pub mod Guarded
pub mod Retryable
use hermes_n8n_control_plane.Prelude.{
  ℕ, ◌+◌, String, Bool, true, false, not, ◌&&◌, ◌||◌, Option, none, some, List, [], ◌∷◌, ◌++◌, ◌==◌,
  text_comparable, codes_comparable, ltb, leb, keep, codes, strip, drop_prefix, if◌then◌else◌,
  Result, ok, err, ◌>>=◌, ◌>>◌, unless_raise,
}
use hermes_n8n_control_plane.Json.{Value, Fields, bool, str, arr, end, field, get, items, str_of}
use hermes_n8n_control_plane.Router.Patterns.{Settings, is_stripped}
use hermes_n8n_control_plane.Router.State.{State}
use hermes_n8n_control_plane.Router.Deliveries.{claim_delivery, release_delivery}
use hermes_n8n_control_plane.Router.Deliveries.Capping.{Integer}

-- The state file: what `_load_state_unlocked` returns of it, or the message that it raises.
abbrev pub Store : Type 0
Store = Result State

-- A request: a missing header is the empty text, a missing Content-Length is "0".
pub record Request : Type 0 where
  pub path : String
  pub authorization : String
  pub content_length : String
  pub received : List ℕ
  pub signature : String
  pub delivery : String
  pub event : String

-- The moments at which the handler of a webhook takes the lock.
pub data Moment : Type 0 where
  claiming : Moment
  checking : ℕ → Moment
  queueing : Moment
  releasing : Moment

-- What is outside of the handlers: how numbers and containers print, `int` of texts and floats,
-- `json.loads`, the HMAC, the secret files, the clock and the new UUIDs, the exchanges with the
-- lease controller and n8n, the webhook reconciliation, and what the other threads do to the state
-- file before the handler takes the lock.
pub record Outside : Type 0 where
  pub render : Value → String
  pub parse_int : Value → Option Integer
  pub parse_json : List ℕ → Option Value
  pub hmac_hex : String → List ℕ → String
  pub webhook_secret : Option String
  pub control_token : Option String
  pub clock : Moment → ℕ
  pub fresh_token : String → String
  pub new_id : String
  pub new_token : String
  pub lease_request : String → String → Result (ℕ × Fields)
  pub edge_sync : Fields → Result ℕ
  pub reconcile : Store → Result Fields × Store
  pub configured : Fields
  pub between : Moment → Store → Store

-- What the handler sent on.
pub data Sent : Type 0 where
  lease_trigger : Sent
  edge_event : Fields → Sent
  delayed_pause : String → Sent

pub record Response : Type 0 where
  pub status : ℕ
  pub body : Fields

-- A handler leaves the state file, and answers or raises a RouterError.
pub record Served : Type 0 where
  pub store : Store
  pub reply : Result Response
  pub sent : List Sent

abbrev pub reply : Store → List Sent → ℕ → Fields → Served
reply store sent status body = record {
  store = store;
  reply = ok (record { status = status; body = body });
  sent = sent;
}

abbrev pub error_body : String → Fields
error_body e = field "ok" (bool false) (field "error" (str e) end)

abbrev pub refuse : Store → List Sent → ℕ → String → Served
refuse store sent status e = reply store sent status (error_body e)

-- A transaction under the lock: load, change, write. A load that raises leaves the file; a file that
-- was written is taken to be within the 8 MiB that a load accepts.
abbrev pub transact {ℓ} : {A : Type ℓ} → Store → (State → A × State) → Result A × Store
transact (err e) change = (err e, err e)
transact (ok state) change = let out = change state in (ok out.0, ok out.1)

abbrev checked_change {ℓ} : {A : Type ℓ} → State → Result (A × State) → Result A × Store
checked_change state (err e) = (err e, ok state)
checked_change state (ok out) = (ok out.0, ok out.1)

-- The same for a change that may raise, which writes nothing then.
abbrev pub transact_checked {ℓ} :
    {A : Type ℓ} → Store → (State → Result (A × State)) → Result A × Store
transact_checked (err e) change = (err e, err e)
transact_checked (ok state) change = checked_change state (change state)

-- `_read_secret`, with its two messages.
unfoldable pub read_secret : Option String → String → String → Result String
unfolding strip
read_secret none unavailable empty = err unavailable
read_secret (some text) unavailable empty = if strip text == "" then err empty else ok (strip text)

abbrev control_secret : Outside → Result String
control_secret o =
    read_secret o.control_token "intake control token is unavailable"
      "intake control token is empty"

abbrev webhook_key : Outside → Result String
webhook_key o =
    read_secret o.webhook_secret "GitHub webhook secret is unavailable"
      "GitHub webhook secret is empty"

-- `_service_authorized`
unfoldable pub service_authorized : Outside → String → Bool
unfolding read_secret drop_prefix
service_authorized o header = elim (control_secret o) [
  | err _ ↦ false
  | ok token ↦ elim (drop_prefix "Bearer " header) [ none ↦ false | some rest ↦ rest == token ]
]

-- `_github_signature_valid`; what is not ASCII is left out of the signature.
unfoldable pub github_signature_valid : Outside → List ℕ → String → Bool
unfolding read_secret
github_signature_valid o body signature = elim (webhook_key o) [
  | err _ ↦ false
  | ok secret ↦
      not (signature == "")
      && keep (λ c. ltb c 128) (codes signature)
        == codes "sha256=" ++ codes (o.hmac_hex secret body)
]

abbrev lease_of : Value → Result String
lease_of (str lease) =
    if is_stripped lease && not (lease == "")
    then ok lease
    else err "lease-controller trigger returned no lease"
lease_of _ = err "lease-controller trigger returned no lease"

-- `_wake`: the answer with what it sent; the thread of the delayed pause is only started, and the
-- message of a rejected trigger leaves its status out.
unfoldable pub wake : Outside → Result Fields × List Sent
unfolding read_secret
wake o = elim (control_secret o) [
  | err e ↦ (err e, [])
  | ok token ↦ elim (o.lease_request "/trigger" token) [
    | err e ↦ (err e, lease_trigger ∷ [])
    | ok (status, payload) ↦
        if not (leb 200 status && ltb status 300)
        then (err "lease-controller trigger rejected", lease_trigger ∷ [])
        else elim (lease_of (get "lease" payload)) [
          | err e ↦ (err e, lease_trigger ∷ [])
          | ok lease ↦ (
            ok (
                field "lease" (str lease)
                  (field "upstream_status" (get "upstream_status" payload) end)),
            lease_trigger ∷ delayed_pause lease ∷ [],
          )
        ]
  ]
]

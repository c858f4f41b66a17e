-- ===== src/Router/Server/Admitted.antt =====
-- What a webhook went through before anything is sent on, and that nothing changes without a
-- signature or the token.
use hermes_n8n_control_plane.Prelude.{
  ℕ, String, ◌≡◌, refl, Bool, true, false, not, ◌&&◌, ◌||◌, Option, none, some, List, [], ◌==◌,
  text_comparable, codes_comparable, number_comparable, ltb, length, codes, strip, contains, arith,
  if◌then◌else◌, Result, ok, err,
}
use hermes_n8n_control_plane.Json.{
  Value, Fields, null, bool, int, negative, float, str, arr, obj, end, field,
}
use hermes_n8n_control_plane.Router.Patterns.{Settings, delivery_id_ok}
use hermes_n8n_control_plane.Router.Scope.{is_empty}
use hermes_n8n_control_plane.Router.Deliveries.{claim_delivery}
use hermes_n8n_control_plane.Router.Installation.{
  decimal, digits_only, has_app_installation_context, installation_context_matches,
  owner_scope_matches,
}
use hermes_n8n_control_plane.Router.Events.{event_repositories, folded_action}
use hermes_n8n_control_plane.Router.Server.{
  Store, Request, claiming, Outside, Served, reply, refuse, transact, github_signature_valid,
}
use hermes_n8n_control_plane.Router.Server.Admission.{unknown_repositories}
use hermes_n8n_control_plane.Router.Server.Webhook.{
  take_bytes, supported_events, is_installation, github_event, claimed, handle_delivery,
  handle_payload, admit_named, admit, max_body_bytes, admit_known, ignore, no_repository_reason,
}

-- Something was sent on.
abbrev pub Sends : Served → Type 0
Sends s = is_empty s.sent ≡ false

-- Guards whose answers send nothing were passed.
past :
    (test : Bool) (refused next : Served)
    → is_empty refused.sent ≡ true
    → Sends (if test then refused else next)
    → (test ≡ false) × Sends next
past true refused next quiet h = cc
past false refused next quiet h = (refl, h)

past_three :
    (a b c : Bool) (x y z next : Served)
    → is_empty x.sent ≡ true
    → is_empty y.sent ≡ true
    → is_empty z.sent ≡ true
    → Sends (if a then x else if b then y else if c then z else next)
    → (a ≡ false) × (b ≡ false) × (c ≡ false) × Sends next
past_three true b c x y z next hx hy hz h = cc
past_three false true c x y z next hx hy hz h = cc
past_three false false true x y z next hx hy hz h = cc
past_three false false false x y z next hx hy hz h = (refl, refl, refl, h)

-- The body that is read of a request.
abbrev pub body_of : Request → List ℕ
body_of req = take_bytes (decimal 0 (codes req.content_length)) req.received

-- The payload and its repositories are those of the configured owner, the repositories are managed
-- or the installation is the configured one, and an App event comes from that installation.
pub record IsAdmitted (st : Settings) (o : Outside) (name : String) (payload : Fields)
    (repositories : List String) (store : Store) : Type 0 where
  pub installed : (is_installation name && not (installation_context_matches st payload)) ≡ false
  pub owned : owner_scope_matches st payload repositories ≡ true
  pub named : is_empty repositories ≡ false
  pub unknown : List String
  pub after : Store
  pub tested : unknown_repositories st o 0 store repositories ≡ (ok unknown, after)
  pub known : (is_empty unknown || has_app_installation_context st payload) ≡ true

or_false_left : (a b : Bool) → (a || b) ≡ false → a ≡ false
or_false_left false b h = refl
or_false_left true b h = cc

or_false_right : (a b : Bool) → (a || b) ≡ false → b ≡ false
or_false_right false b h = h
or_false_right true b h = cc

not-false : (a : Bool) → not a ≡ false → a ≡ true
not-false true h = refl
not-false false h = cc

known-Sends :
    (st : Settings) (o : Outside) (id name : String) (payload : Fields) (repositories : List String)
    (tested : Result (List String) × Store)
    → Sends (admit_known st o id name payload repositories tested)
    → (unknown : List String) × (after : Store) × (tested ≡ (ok unknown, after))
      × ((is_empty unknown || has_app_installation_context st payload) ≡ true)
unfolding admit_known
known-Sends st o id name payload repositories (err e, after) h = cc
known-Sends st o id name payload repositories (ok unknown, after) h =
    (unknown, after, refl, ground arith)

admit-Sends :
    (st : Settings) (o : Outside) (id name : String) (payload : Fields) (repositories : List String)
    (store : Store)
    → Sends (admit st o id name payload repositories store)
    → IsAdmitted st o name payload repositories store
unfolding admit
admit-Sends st o id name payload repositories store h =
    let wrong : Bool =
      (is_installation name && not (installation_context_matches st payload))
      || not (owner_scope_matches st payload repositories) in
    let other : Bool =
      name == "repository" && not (folded_action st o.render payload == codes "archived") in
    let (right, named, action, sends) =
      past_three wrong (is_empty repositories) other
        (ignore store "owner_scope_mismatch" name id repositories)
        (ignore store (no_repository_reason name) name id [])
        (ignore store "unsupported_repository_action" name id repositories)
        (admit_known st o id name payload repositories
          (unknown_repositories st o 0 store repositories))
        refl refl refl h in
    let (unknown, after, tested, known) =
      known-Sends st o id name payload repositories (unknown_repositories st o 0 store repositories)
        sends in
    record {
      installed = or_false_left _ _ right;
      owned = not-false _ (or_false_right _ _ right);
      named = named;
      unknown = unknown;
      after = after;
      tested = tested;
      known = known;
    }

-- A delivery that was claimed afresh, of a supported event, with an admitted payload.
pub record IsFresh (st : Settings) (o : Outside) (req : Request) (store : Store) : Type 0 where
  pub after : Store
  pub fresh :
      transact
        (o.between claiming store)
        (claim_delivery st o.parse_int (strip req.delivery) (o.clock claiming))
      ≡ (ok false, after)
  pub supported : contains (strip req.event) supported_events ≡ true
  pub payload : Fields
  pub parsed : o.parse_json (body_of req) ≡ some (obj payload)
  pub repositories : List String
  pub named : event_repositories st o.render (strip req.event) payload ≡ ok repositories
  pub admitted : IsAdmitted st o (strip req.event) payload repositories after

-- What was read of the body.
record IsRead (st : Settings) (o : Outside) (name : String) (read : Option Value) (store : Store)
    : Type 0 where
  payload : Fields
  parsed : read ≡ some (obj payload)
  repositories : List String
  named : event_repositories st o.render name payload ≡ ok repositories
  admitted : IsAdmitted st o name payload repositories store

named-Sends :
    (st : Settings) (o : Outside) (id name : String) (payload : Fields) (store : Store)
    (found : Result (List String))
    → Sends (admit_named st o id name payload store found)
    → (repositories : List String) × (found ≡ ok repositories)
      × IsAdmitted st o name payload repositories store
unfolding admit_named
named-Sends st o id name payload store (err e) h = cc
named-Sends st o id name payload store (ok repositories) h =
    (repositories, refl, admit-Sends st o id name payload repositories store h)

payload-Sends :
    (st : Settings) (o : Outside) (id name : String) (store : Store) (read : Option Value)
    → Sends (handle_payload st o id name store read)
    → IsRead st o name read store
unfolding handle_payload
payload-Sends st o id name store none h = cc
payload-Sends st o id name store (some (obj payload)) h =
    let (repositories, named, admitted) =
      named-Sends st o id name payload store (event_repositories st o.render name payload) h in
    record {
      payload = payload;
      parsed = refl;
      repositories = repositories;
      named = named;
      admitted = admitted;
    }
payload-Sends st o id name store (some null) h = cc
payload-Sends st o id name store (some (bool b)) h = cc
payload-Sends st o id name store (some (int n)) h = cc
payload-Sends st o id name store (some (negative n)) h = cc
payload-Sends st o id name store (some (float s)) h = cc
payload-Sends st o id name store (some (str s)) h = cc
payload-Sends st o id name store (some (arr vs)) h = cc

handled-Sends :
    (st : Settings) (o : Outside) (id name : String) (body : List ℕ) (store : Store)
    → Sends (handle_delivery st o id name body store)
    → (contains name supported_events ≡ true) × IsRead st o name (o.parse_json body) store
unfolding handle_delivery
handled-Sends st o id name body store h =
    let (ping, h1) =
      past (name == "ping")
        (reply store [] 200
          (field "ok" (bool true) (field "event" (str "ping") (field "delivery" (str id) end))))
        (if not (contains name supported_events)
          then ignore store "unsupported_event" name id []
          else handle_payload st o id name store (o.parse_json body))
        refl h in
    let (supported, h2) =
      past (not (contains name supported_events)) (ignore store "unsupported_event" name id [])
        (handle_payload st o id name store (o.parse_json body)) refl h1 in
    (not-false _ supported, payload-Sends st o id name store (o.parse_json body) h2)

claimed-Sends :
    (st : Settings) (o : Outside) (req : Request) (store : Store) (out : Result Bool × Store)
    → transact
        (o.between claiming store)
        (claim_delivery st o.parse_int (strip req.delivery) (o.clock claiming))
      ≡ out
    → Sends (claimed st o (strip req.delivery) (strip req.event) (body_of req) out)
    → IsFresh st o req store
unfolding claimed
claimed-Sends st o req store (err e, after) e0 h = cc
claimed-Sends st o req store (ok true, after) e0 h = cc
claimed-Sends st o req store (ok false, after) e0 h =
    let (supported, read) =
      handled-Sends st o (strip req.delivery) (strip req.event) (body_of req) after h in
    record {
      after = after;
      fresh = e0;
      supported = supported;
      payload = read.payload;
      parsed = read.parsed;
      repositories = read.repositories;
      named = read.named;
      admitted = read.admitted;
    }

past_five :
    (a b c d f : Bool) (u v x y z next : Served)
    → is_empty u.sent ≡ true
    → is_empty v.sent ≡ true
    → is_empty x.sent ≡ true
    → is_empty y.sent ≡ true
    → is_empty z.sent ≡ true
    → Sends
        (if a then u else if b then v else if c then x else if d then y else if f then z else next)
    → (d ≡ false) × (f ≡ false) × Sends next
past_five true b c d f u v x y z next hu hv hx hy hz h = cc
past_five false true c d f u v x y z next hu hv hx hy hz h = cc
past_five false false c d f u v x y z next hu hv hx hy hz h =
    let (_, passed, other, sends) = past_three c d f x y z next hx hy hz h in (passed, other, sends)

-- When the webhook handler sends anything on, the request is signed, and its delivery, which is
-- well formed, was claimed afresh; its event is supported, its repositories belong to the owner, and
-- they are managed, or the App installation is the configured one.
pub github_event_admits :
    (st : Settings) (o : Outside) (req : Request) (store : Store)
    → Sends (github_event st o req store)
    → (github_signature_valid o (body_of req) (strip req.signature) ≡ true)
      × (delivery_id_ok (strip req.delivery) ≡ true)
      × IsFresh st o req store
unfolding github_event
github_event_admits st o req store h =
    let given : ℕ = decimal 0 (codes req.content_length) in
    let id : String = strip req.delivery in
    let (signed, clean, sends) =
      past_five (not (digits_only (codes req.content_length)))
        (given == 0 || ltb max_body_bytes given) (not (length (body_of req) == given))
        (not (github_signature_valid o (body_of req) (strip req.signature)))
        (not (delivery_id_ok id)) (refuse store [] 400 "invalid_body_length")
        (refuse store [] 400 "invalid_body_length") (refuse store [] 400 "truncated_body")
        (refuse store [] 401 "invalid_signature") (refuse store [] 400 "invalid_delivery_id")
        (claimed st o id (strip req.event) (body_of req) (
          transact (o.between claiming store)
            (claim_delivery st o.parse_int id (o.clock claiming))))
        refl refl refl refl refl h in
    (not-false _ signed, not-false _ clean, claimed-Sends st o req store _ refl sends)

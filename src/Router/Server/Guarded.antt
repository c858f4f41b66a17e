-- ===== src/Router/Server/Guarded.antt =====
-- Requests that are neither signed nor authorized.
use hermes_n8n_control_plane.Prelude.{
  ℕ, String, ◌≡◌, refl, false, not, ◌||◌, [], ◌==◌, text_comparable, number_comparable, ltb, length,
  codes, strip, if_both, Result, ok, err,
}
use hermes_n8n_control_plane.Router.Patterns.{Settings}
use hermes_n8n_control_plane.Router.Installation.{decimal, digits_only}
use hermes_n8n_control_plane.Router.Server.{
  Store, Request, Outside, Served, Response, refuse, github_signature_valid, service_authorized,
}
use hermes_n8n_control_plane.Router.Server.Webhook.{github_event, max_body_bytes}
use hermes_n8n_control_plane.Router.Server.Control.{do_post, or_unavailable}
use hermes_n8n_control_plane.Router.Server.Admitted.{body_of}

-- The handler left the file and sent nothing on.
abbrev pub Quiet : Store → Served → Type 0
Quiet store s = (s.store ≡ store) × (s.sent ≡ [])

unsigned-Quiet :
    (st : Settings) (o : Outside) (req : Request) (store : Store)
    → github_signature_valid o (body_of req) (strip req.signature) ≡ false
    → Quiet store (github_event st o req store)
unfolding github_event
unsigned-Quiet st o req store unsigned =
    let given : ℕ = decimal 0 (codes req.content_length) in
    let quiet : (status : ℕ) (e : String) → Quiet store (refuse store [] status e) =
      λ status e. (refl, refl) in
    if_both (Quiet store) (not (digits_only (codes req.content_length)))
      (quiet 400 "invalid_body_length")
      (if_both (Quiet store) (given == 0 || ltb max_body_bytes given)
        (quiet 400 "invalid_body_length")
        (if_both (Quiet store) (not (length (body_of req) == given)) (quiet 400 "truncated_body")
          (rw unsigned (quiet 401 "invalid_signature"))))

unavailable-Quiet : (store : Store) (s : Served) → Quiet store s → Quiet store (or_unavailable s)
unfolding or_unavailable
unavailable-Quiet store s h = go s.reply h
  where
    go :
        (reply : Result Response)
        → Quiet store s
        → Quiet store (elim reply [ ok _ ↦ s | err e ↦ refuse s.store s.sent 503 e ])
    go (ok r) h = h
    go (err e) h = h

-- A POST whose body is not signed with the webhook secret, and that does not bear the control token,
-- leaves the state file and sends nothing on, whatever its path.
pub unauthenticated_post :
    (st : Settings) (o : Outside) (req : Request) (store : Store)
    → github_signature_valid o (body_of req) (strip req.signature) ≡ false
    → service_authorized o (strip req.authorization) ≡ false
    → ((do_post st o req store).store ≡ store) × ((do_post st o req store).sent ≡ [])
unfolding do_post
unauthenticated_post st o req store unsigned unauthorized =
    if_both (Quiet store) (req.path == "/github/hermes-intake")
      (unavailable-Quiet store (github_event st o req store)
        (unsigned-Quiet st o req store unsigned))
      (rw unauthorized (refl, refl))

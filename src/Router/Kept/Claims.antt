-- ===== src/Router/Kept/Claims.antt =====
-- The recovery of the claims that the router wrote: each stays in flight, is queued again, or is kept
-- pending.
use hermes_n8n_control_plane.Prelude.{
  ℕ, ◌+◌, String, ◌≡◌, refl, Bool, true, false, ◌&&◌, some, text_comparable, eq_refl, ltb, length,
  All,
}
use hermes_n8n_control_plane.Json.{Fields, int, str, obj, end, field, get, get_or}
use hermes_n8n_control_plane.Router.Patterns.{Settings, is_stripped, delivery_id_ok, claim_token_ok}
use hermes_n8n_control_plane.Router.Scope.{Scope, scope_fields}
use hermes_n8n_control_plane.Router.Scope.RoundTrip.{normalise-scope_fields}
use hermes_n8n_control_plane.Router.State.{Claim, Live, claim_fields}
use hermes_n8n_control_plane.Router.Recovery.{read_claim, token_or}
use hermes_n8n_control_plane.Router.Known.{IsPending, IsWork, get-delivery_fields}

-- A claim as the router writes it.
pub record IsClaim (st : Settings) (now : ℕ) (c : Claim) : Type 0 where
  pub work : IsWork st now c.item
  pub token : claim_token_ok c.claim_token ≡ true
  pub until : ltb 0 c.claim_expires_at ≡ true

-- The three lists as the router leaves them.
pub record IsLive (st : Settings) (now : ℕ) (live : Live) : Type 0 where
  pub queue_ok : All (IsWork st now) live.queue
  pub claims_ok : All (IsClaim st now) live.claims
  pub pending_ok : All (IsPending st) live.pending

abbrev pub total : Live → ℕ
total live = length live.queue + length live.claims + length live.pending

get-claim_expires_at :
    (s : Scope) (more : Fields)
    → get "claim_expires_at" (scope_fields s more) ≡ get "claim_expires_at" more
unfolding scope_fields get get_or
get-claim_expires_at s more = get-delivery_fields "claim_expires_at" s.delivery more refl

get-claim_token :
    (s : Scope) (more : Fields) → get "claim_token" (scope_fields s more) ≡ get "claim_token" more
unfolding scope_fields get get_or
get-claim_token s more = get-delivery_fields "claim_token" s.delivery more refl

get-id : (s : Scope) (more : Fields) → get "id" (scope_fields s more) ≡ str s.id
unfolding scope_fields get get_or
get-id s more = refl

and_right : (a b : Bool) → (a && b) ≡ true → b ≡ true
and_right true b h = h
and_right false b h = cc

kept_token : (t fresh : String) → claim_token_ok t ≡ true → token_or (str t) fresh ≡ t
unfolding token_or
kept_token t fresh h = rw h

-- A written claim is read back.
pub read_claim-fields :
    (st : Settings) (fresh : String → String) (now : ℕ) (c : Claim)
    → IsClaim st now c
    → read_claim st fresh now c.item.id (obj (claim_fields c)) ≡ some c
unfolding read_claim claim_fields get get_or
read_claim-fields st fresh now c h =
    let more : Fields =
      field "claim_expires_at" (int c.claim_expires_at)
        (field "claim_token" (str c.claim_token) end) in
    rw
      (
        and_right (is_stripped c.item.id) (delivery_id_ok c.item.id) h.work.item_ok.id_clean,
        get-id c.item more,
        eq_refl c.item.id,
        get-claim_expires_at c.item more,
        h.until,
        normalise-scope_fields st c.item more now true h.work.item_ok refl refl,
        get-claim_token c.item more,
        kept_token c.claim_token (fresh c.item.id) h.token,
      )
      refl

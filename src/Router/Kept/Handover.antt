-- ===== src/Router/Kept/Handover.antt =====
-- What a claim hands out can be acknowledged while its lease lasts.
use hermes_n8n_control_plane.Prelude.{
  ℕ, ◌+◌, ◌≤◌, ◌<◌, String, ◌≡◌, refl, sym, ap, subst, ◌∙◌, true, Option, none, some, List, [], ◌∷◌,
  map, text_comparable, eq_refl, ltb, All, arith, ok,
}
use hermes_n8n_control_plane.Json.{null}
use hermes_n8n_control_plane.Router.Patterns.{Settings, claim_token_ok}
use hermes_n8n_control_plane.Router.Scope.{Scope, encode_scope}
use hermes_n8n_control_plane.Router.State.{State, Claim, Pending, Live, save}
use hermes_n8n_control_plane.Router.Recovery.{
  put_claim, recover_queue, recover_scope_claims, with_queue,
}
use hermes_n8n_control_plane.Router.Operations.{
  pop_due, claim_due, claim_scope, find_claim, token_matches, check_control, ack_claim, ack_scope,
  ack_transition, drop_claim,
}
use hermes_n8n_control_plane.Router.Known.{IsWork}
use hermes_n8n_control_plane.Router.Kept.Handled.{IsTimely}
use hermes_n8n_control_plane.Router.Kept.Claims.{IsClaim, IsLive, total}
use hermes_n8n_control_plane.Router.Kept.Settled.{length-put_claim, All-put_claim}
use hermes_n8n_control_plane.Router.Kept.Recovered.{
  IsRecovered, queue_recovered, recover_scope_claims-IsRecovered,
}
use hermes_n8n_control_plane.Router.Kept.Lossless.{Popped, pop_due-Popped}
use hermes_n8n_control_plane.Router.Kept.Flight.{
  IsUnique, IsUnique-put_claim, find-put_claim, IsUnique-recover_claims, find-recover_claims,
}

later-IsWork :
    (st : Settings) (now later : ℕ) (s : Scope) → now ≤ later → IsWork st now s → IsWork st later s
later-IsWork st now later s le h = record {
  item_ok = h.item_ok;
  left = h.left;
  past = omega (arith, h.past);
}

later-works :
    (st : Settings) (now later : ℕ) (q : List Scope)
    → now ≤ later
    → All (IsWork st now) q
    → All (IsWork st later) q
later-works st now later [] le h = tt
later-works st now later (s ∷ ss) le h =
    (later-IsWork st now later s le h.0, later-works st now later ss le h.1)

later-claims :
    (st : Settings) (now later : ℕ) (cs : List Claim)
    → now ≤ later
    → All (IsClaim st now) cs
    → All (IsClaim st later) cs
later-claims st now later [] le h = tt
later-claims st now later (c ∷ cs) le h = (
  record {
    work = later-IsWork st now later c.item le h.0.work;
    token = h.0.token;
    until = h.0.until;
  },
  later-claims st now later cs le h.1,
)

-- An ack of a claim that the recovery finds.
acked :
    (st : Settings) (fresh : String → String) (now : ℕ) (state : State) (c : Claim)
    → IsClaim st now c
    → find_claim c.item.id (recover_scope_claims st fresh now state).claims ≡ some c
    → ack_scope st fresh now c.item.id c.claim_token state
      ≡ ok (
        record { id = c.item.id; status = "acknowledged"; attempts = null },
        save
            (record state { last_scope_transition = ack_transition c.item.id now c.claim_token })
            (record (recover_scope_claims st fresh now state) {
              claims = drop_claim c.item.id (recover_scope_claims st fresh now state).claims;
            }),
      )
unfolding ack_scope check_control ack_claim token_matches
acked st fresh now state c h found =
    rw (h.token, h.work.item_ok.id_clean, found, h.token, eq_refl c.claim_token) refl

-- A written state whose claims hold one that is in flight.
written_acked :
    (st : Settings) (fresh : String → String) (later : ℕ) (state : State) (live : Live) (c : Claim)
    → IsLive st later live
    → total live ≤ st.scope_max_pending
    → IsUnique live.claims
    → IsClaim st later c
    → find_claim c.item.id live.claims ≡ some c
    → ltb later c.claim_expires_at ≡ true
    → (out : State) × (ack_scope st fresh later c.item.id c.claim_token (save state live)
        ≡ ok (record { id = c.item.id; status = "acknowledged"; attempts = null }, out))
written_acked st fresh later state live c h fits unique hc here flying =
    let queue : List Scope × List Pending =
      recover_queue st later (map encode_scope live.queue) [] live.pending in
    let found : find_claim c.item.id (recover_scope_claims st fresh later (save state live)).claims
        ≡ some c =
      ap (λ (out : Live). find_claim c.item.id out.claims)
        (queue_recovered st fresh later state live h fits)
      ∙ find-recover_claims st fresh later c live.claims (with_queue queue) h.claims_ok unique
          flying here in
    (_, acked st fresh later (save state live) c hc found)

-- What was handed out, if anything, can be acknowledged.
abbrev Ackable : Settings → (String → String) → ℕ → Option (Scope × String) × State → Type 0
Ackable st fresh later (none, out) = Unit
Ackable st fresh later (some (s, token), out) =
    (after : State) × (ack_scope st fresh later s.id token out
      ≡ ok (record { id = s.id; status = "acknowledged"; attempts = null }, after))

handed :
    (st : Settings) (now later : ℕ) (fresh : String → String) (token : String) (state : State)
    (mid : Live) (found : Option (Scope × List Scope))
    → claim_token_ok token ≡ true
    → 0 < now
    → now ≤ later
    → later < now + st.scope_claim_lease_seconds
    → IsLive st now mid
    → total mid ≤ st.scope_max_pending
    → IsUnique mid.claims
    → Popped st now mid.queue found
    → Ackable st fresh later (claim_due st now token state mid found)
unfolding claim_due
handed st now later fresh token state mid none clean pos le within h fits unique k = tt
handed st now later fresh token state mid (some (s, rest)) clean pos le within h fits unique k =
    let c : Claim = record {
      item = s;
      claim_expires_at = now + st.scope_claim_lease_seconds;
      claim_token = token;
    } in
    let left : Live = record mid { queue = rest; claims = put_claim c mid.claims } in
    let hc : IsClaim st later c = record {
      work = later-IsWork st now later s le k.item_ok;
      token = clean;
      until = ground arith;
    } in
    let ok_later : IsLive st later left = record {
      queue_ok = later-works st now later rest le k.rest_ok;
      claims_ok =
          All-put_claim st later c mid.claims hc
            (later-claims st now later mid.claims le h.claims_ok);
      pending_ok = h.pending_ok;
    } in
    let here : find_claim s.id (put_claim c mid.claims) ≡ some c =
      rw (find-put_claim s.id c mid.claims, eq_refl s.id) in
    written_acked st fresh later _ left c ok_later
      (omega (arith, k.size, length-put_claim c mid.claims))
      (IsUnique-put_claim c mid.claims unique) hc here (ground arith)

mid-IsUnique :
    (st : Settings) (fresh : String → String) (now : ℕ) (state : State) (live : Live)
    → IsLive st now live
    → total live ≤ st.scope_max_pending
    → IsUnique (recover_scope_claims st fresh now (save state live)).claims
mid-IsUnique st fresh now state live h fits =
    subst (λ (out : Live). IsUnique out.claims)
      (sym (queue_recovered st fresh now state live h fits))
      (IsUnique-recover_claims st fresh now live.claims
        (with_queue (recover_queue st now (map encode_scope live.queue) [] live.pending))
        h.claims_ok tt)

-- A scope that a claim handed out with a well-formed token can be acknowledged with that token
-- until the lease ends: the ack is answered with acknowledged. The claim is made on a written
-- state whose lists are well formed, at a positive time, with a TTL of five seconds or more and
-- room in the pending list for all scopes.
pub claim_then_ack :
    (st : Settings) (fresh : String → String) (token : String) (now later : ℕ) (state : State)
    (live : Live) (s : Scope) (out : State)
    → claim_token_ok token ≡ true
    → IsTimely st now
    → IsLive st now live
    → total live ≤ st.scope_max_pending
    → now ≤ later
    → later < now + st.scope_claim_lease_seconds
    → claim_scope st fresh token now (save state live) ≡ (some (s, token), out)
    → (after : State) × (ack_scope st fresh later s.id token out
        ≡ ok (record { id = s.id; status = "acknowledged"; attempts = null }, after))
unfolding claim_scope
claim_then_ack st fresh token now later state live s out clean time h fits le within e =
    let mid : Live = recover_scope_claims st fresh now (save state live) in
    let r : IsRecovered st now live mid =
      recover_scope_claims-IsRecovered st fresh now state live time h fits in
    subst (Ackable st fresh later) e (
      handed st now later fresh token (save state live) mid (pop_due now mid.queue) clean
        time.now_pos le within r.live_ok (omega (arith, r.size))
        (mid-IsUnique st fresh now state live h fits)
        (pop_due-Popped st now mid.queue r.live_ok.queue_ok))

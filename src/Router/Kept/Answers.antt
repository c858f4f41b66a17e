-- ===== src/Router/Kept/Answers.antt =====
-- What the control requests on the scope queue leave.
use hermes_n8n_control_plane.Prelude.{
  ℕ, ◌≤◌, String, ◌≡◌, refl, true, false, not, Option, none, some, ◌==◌, text_comparable,
  length-keep, All-keep, arith, if_both, Result, ok, err, ◌>>=◌, ◌>>◌,
}
use hermes_n8n_control_plane.Json.{int, str, end, field, get}
use hermes_n8n_control_plane.Router.Patterns.{Settings, safe_scope_reason}
use hermes_n8n_control_plane.Router.Scope.{normalise_fields}
use hermes_n8n_control_plane.Router.Scope.RoundTrip.{normalise-scope_fields}
use hermes_n8n_control_plane.Router.State.{State, Claim, Live, save, claim_fields}
use hermes_n8n_control_plane.Router.Recovery.{recover_scope_claims}
use hermes_n8n_control_plane.Router.Operations.{
  Answer, find_claim, other_claim, drop_claim, dict_of, token_matches, check_control, replayed_ack,
  ack_claim, ack_scope, replayed_requeue, requeue_claim, requeue_scope,
}
use hermes_n8n_control_plane.Router.Known.{holds}
use hermes_n8n_control_plane.Router.Kept.Handled.{IsTimely}
use hermes_n8n_control_plane.Router.Kept.Claims.{IsClaim, IsLive, total}
use hermes_n8n_control_plane.Router.Kept.Recovered.{IsRecovered, recover_scope_claims-IsRecovered}
use hermes_n8n_control_plane.Router.Kept.Lossless.{IsLossless, IsRecovered-trans}
use hermes_n8n_control_plane.Router.Kept.Requeued.{
  Found, find_claim-Found, any-drop_claim, IfOk, requeue_item-Lossless,
}

unchanged :
    (st : Settings) (now : ℕ) (state : State) (live : Live)
    → IsLive st now live
    → IsLossless st now live (save state live)
unchanged st now state live h = record {
  state = state;
  left = live;
  written = refl;
  recovered = record { live_ok = h; size = omega arith; kept = λ id held. held };
}

-- An answer that writes the state as it was recovered.
replayed-IfOk {κ} :
    (P : Answer × State → Type κ) (r : Result Answer) (out : State)
    → ((a : Answer) → P (a, out))
    → IfOk P (r >>= λ a. ok (a, out))
replayed-IfOk P (ok a) out h = h a
replayed-IfOk P (err e) out h = tt

-- The checks come first.
checked-IfOk {κ} :
    (P : Answer × State → Type κ) (check : Result (Unit {0})) (r : Result (Answer × State))
    → IfOk P r
    → IfOk P (check >> r)
checked-IfOk P (ok u) r h = h
checked-IfOk P (err e) r h = tt

normalise-claim_fields :
    (st : Settings) (now : ℕ) (c : Claim)
    → IsClaim st now c
    → normalise_fields st (claim_fields c) now true ≡ some c.item
unfolding claim_fields get
normalise-claim_fields st now c h =
    normalise-scope_fields st c.item
      (field "claim_expires_at" (int c.claim_expires_at)
        (field "claim_token" (str c.claim_token) end))
      now true h.work.item_ok refl refl

at_ok {κ} :
    (P : Answer × State → Type κ) (r : Result (Answer × State)) (out : Answer × State)
    → r ≡ ok out
    → IfOk P r
    → P out
at_ok P r out e h = let k : IfOk P (ok out) = rw e at h in k

-- What an answer leaves loses no scope.
abbrev Keeps : Settings → ℕ → Live → Answer × State → Type 0
Keeps st now live out = IsLossless st now live out.1

requeue_claim-Lossless :
    (st : Settings) (now : ℕ) (id reason token : String) (state : State) (live : Live)
    (found : Option Claim)
    → IsTimely st now
    → IsLive st now live
    → total live ≤ st.scope_max_pending
    → Found st now id live.claims found
    → IfOk (Keeps st now live) (requeue_claim st now id reason token state live found)
unfolding requeue_claim
requeue_claim-Lossless st now id reason token state live none time h fits k =
    replayed-IfOk (Keeps st now live)
      (replayed_requeue id token (dict_of state.last_scope_transition)) (save state live)
      (λ a. unchanged st now state live h)
requeue_claim-Lossless st now id reason token state live (some c) time h fits k =
    if_both (IfOk (Keeps st now live)) (not (token_matches c.claim_token token)) tt (
      rw (normalise-claim_fields st now c k.claim_ok)
        (requeue_item-Lossless st now id reason token state live c time h fits k))

recovered-Lossless :
    (st : Settings) (now : ℕ) (live mid : Live) (out : State)
    → IsRecovered st now live mid
    → IsLossless st now mid out
    → IsLossless st now live out
recovered-Lossless st now live mid out r k = record {
  state = k.state;
  left = k.left;
  written = k.written;
  recovered = IsRecovered-trans st now live mid k.left r k.recovered;
}

IfOk-map {κ λκ} :
    (P : Answer × State → Type κ) (Q : Answer × State → Type λκ) (r : Result (Answer × State))
    → ((out : Answer × State) → P out → Q out)
    → IfOk P r
    → IfOk Q r
IfOk-map P Q (ok out) f h = f out h
IfOk-map P Q (err e) f h = tt

-- A requeue that is answered loses no scope: whatever is queued, in flight or pending is so after
-- it, and the lists are well formed again and no longer in all. It is made on a written state
-- whose lists are well formed, at a positive time, with a TTL of five seconds or more and room in
-- the pending list for all scopes.
pub requeue_scope-IsLossless :
    (st : Settings) (fresh : String → String) (now : ℕ) (id reason token : String) (state : State)
    (live : Live) (a : Answer) (out : State)
    → IsTimely st now
    → IsLive st now live
    → total live ≤ st.scope_max_pending
    → requeue_scope st fresh now id reason token (save state live) ≡ ok (a, out)
    → IsLossless st now live out
unfolding requeue_scope
requeue_scope-IsLossless st fresh now id reason token state live a out time h fits answered =
    let mid : Live = recover_scope_claims st fresh now (save state live) in
    let r : IsRecovered st now live mid =
      recover_scope_claims-IsRecovered st fresh now state live time h fits in
    at_ok (Keeps st now live) _ (a, out) answered
      (checked-IfOk (Keeps st now live) (check_control id token) _ (
        IfOk-map (Keeps st now mid) (Keeps st now live)
          (requeue_claim st now id (safe_scope_reason reason) token (save state live) mid
            (find_claim id mid.claims))
          (λ left k. recovered-Lossless st now live mid left.1 r k)
          (requeue_claim-Lossless st now id (safe_scope_reason reason) token (save state live) mid
            (find_claim id mid.claims) time r.live_ok (omega (arith, r.size))
            (find_claim-Found st now id mid.claims r.live_ok.claims_ok))))

-- A state that was written with well-formed lists that hold every scope but that of the id.
pub record IsAcknowledged (st : Settings) (now : ℕ) (id : String) (live : Live) (out : State)
    : Type 0 where
  pub state : State
  pub left : Live
  pub written : out ≡ save state left
  pub live_ok : IsLive st now left
  pub size : total left ≤ total live
  pub kept : (i : String) → (id == i) ≡ false → holds i live ≡ true → holds i left ≡ true

abbrev Acknowledges : Settings → ℕ → String → Live → Answer × State → Type 0
Acknowledges st now id live out = IsAcknowledged st now id live out.1

ack_claim-Acknowledged :
    (st : Settings) (now : ℕ) (id token : String) (state : State) (live : Live)
    (found : Option Claim)
    → IsLive st now live
    → IfOk (Acknowledges st now id live) (ack_claim id token now state live found)
unfolding ack_claim holds
ack_claim-Acknowledged st now id token state live none h =
    replayed-IfOk (Acknowledges st now id live)
      (replayed_ack id token (dict_of state.last_scope_transition)) (save state live)
      (λ a. record {
        state = state;
        left = live;
        written = refl;
        live_ok = h;
        size = omega arith;
        kept = λ i other held. held;
      })
ack_claim-Acknowledged st now id token state live (some c) h =
    let short = length-keep (other_claim id) live.claims in
    if_both (IfOk (Acknowledges st now id live)) (not (token_matches c.claim_token token)) tt
      (record {
        state = _;
        left = record live { claims = drop_claim id live.claims };
        written = refl;
        live_ok = record {
          queue_ok = h.queue_ok;
          claims_ok = All-keep (IsClaim st now) (other_claim id) live.claims h.claims_ok;
          pending_ok = h.pending_ok;
        };
        size = omega arith;
        kept = λ i other held. rw (any-drop_claim i id live.claims other) held;
      })

-- An ack that is answered loses no scope but that of its id: every other scope that is queued, in
-- flight or pending is so after it, and the lists are well formed again and no longer in all. It
-- is made on a written state whose lists are well formed, at a positive time, with a TTL of five
-- seconds or more and room in the pending list for all scopes.
pub ack_scope-IsAcknowledged :
    (st : Settings) (fresh : String → String) (now : ℕ) (id token : String) (state : State)
    (live : Live) (a : Answer) (out : State)
    → IsTimely st now
    → IsLive st now live
    → total live ≤ st.scope_max_pending
    → ack_scope st fresh now id token (save state live) ≡ ok (a, out)
    → IsAcknowledged st now id live out
unfolding ack_scope
ack_scope-IsAcknowledged st fresh now id token state live a out time h fits answered =
    let mid : Live = recover_scope_claims st fresh now (save state live) in
    let r : IsRecovered st now live mid =
      recover_scope_claims-IsRecovered st fresh now state live time h fits in
    at_ok (Acknowledges st now id live) _ (a, out) answered
      (checked-IfOk (Acknowledges st now id live) (check_control id token) _ (
        IfOk-map (Acknowledges st now id mid) (Acknowledges st now id live)
          (ack_claim id token now (save state live) mid (find_claim id mid.claims))
          (λ left k. record {
            state = k.state;
            left = k.left;
            written = k.written;
            live_ok = k.live_ok;
            size = omega (arith, k.size, r.size);
            kept = λ i other held. k.kept i other (r.kept i held);
          })
          (ack_claim-Acknowledged st now id token (save state live) mid (find_claim id mid.claims)
            r.live_ok)))

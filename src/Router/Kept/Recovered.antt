-- ===== src/Router/Kept/Recovered.antt =====
-- The recovery of a whole state that the router wrote loses no scope.
use hermes_n8n_control_plane.Prelude.{
  ℕ, ◌+◌, ◌≤◌, String, ◌≡◌, refl, sym, ap, subst, true, ◌||◌, some, List, [], ◌∷◌, map, ◌==◌,
  text_comparable, eq_iff, length, any, All, arith, Bool-cases, inl, inr, ◌⊎◌,
}
use hermes_n8n_control_plane.Json.Laws.{items-pack}
use hermes_n8n_control_plane.Router.Patterns.{Settings}
use hermes_n8n_control_plane.Router.Scope.{Scope, encode_scope}
use hermes_n8n_control_plane.Router.State.{State, Claim, Pending, Live, encode_claims, save}
use hermes_n8n_control_plane.Router.Recovery.{
  recover_queue, recover_queued_scopes, settle_claim, recover_claims, recover_scope_claims,
  with_queue,
}
use hermes_n8n_control_plane.Router.Known.{scope_is, claim_is, pending_is, holds, prune-encode}
use hermes_n8n_control_plane.Router.Kept.Handled.{IsTimely}
use hermes_n8n_control_plane.Router.Kept.Queue.{QueueKept, or-cases, recover_queue-QueueKept}
use hermes_n8n_control_plane.Router.Kept.Claims.{IsClaim, IsLive, total, read_claim-fields}
use hermes_n8n_control_plane.Router.Kept.Settled.{IsSettled, settle_claim-IsSettled}

-- What is left of the lists and the claims that are still to be settled.
record ClaimsKept (st : Settings) (now : ℕ) (cs : List Claim) (live out : Live) : Type 0 where
  live_ok : IsLive st now out
  size : total out ≤ total live + length cs
  claimed : (id : String) → any (claim_is id) cs ≡ true → holds id out ≡ true
  kept : (id : String) → holds id live ≡ true → holds id out ≡ true

-- One written claim, and then the rest.
pub recover_claims-cons :
    (st : Settings) (fresh : String → String) (now : ℕ) (c : Claim) (cs : List Claim) (live : Live)
    → IsClaim st now c
    → recover_claims st fresh now (encode_claims (c ∷ cs)) live
      ≡ recover_claims st fresh now (encode_claims cs) (settle_claim st now (some c) live)
unfolding recover_claims encode_claims
recover_claims-cons st fresh now c cs live h =
    ap (λ o. recover_claims st fresh now (encode_claims cs) (settle_claim st now o live))
      (read_claim-fields st fresh now c h)

cons-ClaimsKept :
    (st : Settings) (now : ℕ) (c : Claim) (cs : List Claim) (live next out : Live)
    → IsSettled st now c live next
    → ClaimsKept st now cs next out
    → ClaimsKept st now (c ∷ cs) live out
cons-ClaimsKept st now c cs live next out step rest = record {
  live_ok = rest.live_ok;
  size = omega (arith, step.size, rest.size);
  claimed = λ id held. elim (Bool-cases (c.item.id == id)) [
    | inl same ↦ rest.kept id (own_kept id same)
    | inr other ↦ rest.claimed id (rw other at held)
  ];
  kept = λ id held. rest.kept id (elim (Bool-cases (c.item.id == id)) [
    | inl same ↦ own_kept id same
    | inr other ↦ step.others id other held
  ]);
}
  where
    own_kept : (id : String) → (c.item.id == id) ≡ true → holds id next ≡ true
    own_kept id same = subst (λ i. holds i next ≡ true) ((eq_iff c.item.id id).0 same) step.own

recover_claims-ClaimsKept :
    (st : Settings) (fresh : String → String) (now : ℕ) (cs : List Claim) (live : Live)
    → IsTimely st now
    → IsLive st now live
    → All (IsClaim st now) cs
    → total live + length cs ≤ st.scope_max_pending
    → ClaimsKept st now cs live (recover_claims st fresh now (encode_claims cs) live)
recover_claims-ClaimsKept st fresh now [] live time h hcs fits =
    unfold recover_claims encode_claims in
    record { live_ok = h; size = omega arith; claimed = λ id held. cc; kept = λ id held. held }
recover_claims-ClaimsKept st fresh now (c ∷ cs) live time h hcs fits =
    let next : Live = settle_claim st now (some c) live in
    let step : IsSettled st now c live next =
      settle_claim-IsSettled st now c live time h hcs.0 (omega arith) in
    subst (ClaimsKept st now (c ∷ cs) live) (sym (recover_claims-cons st fresh now c cs live hcs.0))
      (cons-ClaimsKept st now c cs live next _ step (
        recover_claims-ClaimsKept st fresh now cs next time step.live_ok hcs.1
          (omega (arith, step.size))))

-- What the recovery of a written state leaves.
pub record IsRecovered (st : Settings) (now : ℕ) (live out : Live) : Type 0 where
  pub live_ok : IsLive st now out
  pub size : total out ≤ total live
  pub kept : (id : String) → holds id live ≡ true → holds id out ≡ true

holds-cases :
    (id : String) (live : Live)
    → holds id live ≡ true
    → (any (scope_is id) live.queue ≡ true)
      ⊎ (any (claim_is id) live.claims ≡ true)
      ⊎ (any (pending_is id) live.pending ≡ true)
unfolding holds
holds-cases id live h = or-cases _ _ _ h

-- A scope of one of the lists is held after the recovery of the queue and that of the claims.
kept_through :
    (st : Settings) (now : ℕ) (id : String) (live mid out : Live)
    → mid.claims ≡ []
    → QueueKept st now live.queue [] live.pending mid.queue mid.pending
    → ClaimsKept st now live.claims mid out
    → holds id live ≡ true
    → holds id out ≡ true
kept_through st now id live mid out e q r held = go (holds-cases id live held)
  where
    in_mid :
        (any (scope_is id) mid.queue || any (pending_is id) mid.pending) ≡ true
        → holds id mid ≡ true
    in_mid h = unfold holds in rw e (ground (arith, h))

    go :
        (any (scope_is id) live.queue ≡ true)
          ⊎ (any (claim_is id) live.claims ≡ true)
          ⊎ (any (pending_is id) live.pending ≡ true)
        → holds id out ≡ true
    go (inl queued) = r.kept id (in_mid (q.found id queued))
    go (inr (inl claimed)) = r.claimed id claimed
    go (inr (inr pending)) = r.kept id (in_mid (rw (q.kept id pending) (ground arith)))

pub queue_recovered :
    (st : Settings) (fresh : String → String) (now : ℕ) (state : State) (live : Live)
    → IsLive st now live
    → total live ≤ st.scope_max_pending
    → recover_scope_claims st fresh now (save state live)
      ≡ recover_claims st fresh now
          (encode_claims live.claims)
          (with_queue (recover_queue st now (map encode_scope live.queue) [] live.pending))
unfolding recover_scope_claims save recover_queued_scopes
queue_recovered st fresh now state live h fits = rw (
  prune-encode st now live.pending h.pending_ok (omega arith),
  items-pack (map encode_scope live.queue),
)

module _ (st : Settings) (fresh : String → String) (now : ℕ) where
  -- The recovery of a state that the router wrote keeps every scope, and leaves lists that are well
  -- formed again and no longer in all.
  pub recover_scope_claims-IsRecovered :
      (state : State) (live : Live)
      → IsTimely st now
      → IsLive st now live
      → total live ≤ st.scope_max_pending
      → IsRecovered st now live (recover_scope_claims st fresh now (save state live))
  recover_scope_claims-IsRecovered state live time h fits =
      let out : List Scope × List Pending =
        recover_queue st now (map encode_scope live.queue) [] live.pending in
      let q : QueueKept st now live.queue [] live.pending out.0 out.1 =
        recover_queue-QueueKept st now live.queue [] live.pending time h.queue_ok h.pending_ok
          (omega arith) in
      let mid : Live = with_queue out in
      let r =
        recover_claims-ClaimsKept st fresh now live.claims mid time
          (record { queue_ok = q.queue_ok; claims_ok = tt; pending_ok = q.pending_ok }) h.claims_ok
          (omega (arith, q.size)) in
      subst (IsRecovered st now live) (sym (queue_recovered st fresh now state live h fits))
        (record {
          live_ok = r.live_ok;
          size = omega (arith, r.size, q.size);
          kept = λ id held. kept_through st now id live mid _ refl q r held;
        })

-- ===== src/Router/Kept/Settled.antt =====
-- What the recovery makes of one claim: no scope is lost.
use hermes_n8n_control_plane.Prelude.{
  ℕ, ◌+◌, ◌≤◌, String, ◌≡◌, refl, subst, true, false, ◌||◌, some, List, [], ◌∷◌, ◌++◌, ◌==◌,
  text_comparable, eq_iff, eq_refl, ltb, leb, length, keep, any, length-append, length-keep, All,
  All-append, All-keep, arith, Bool-cases, inl, inr,
}
use hermes_n8n_control_plane.Router.Patterns.{Settings}
use hermes_n8n_control_plane.Router.Scope.{Scope}
use hermes_n8n_control_plane.Router.State.{Claim, Pending, Live, append_pending_scope}
use hermes_n8n_control_plane.Router.Recovery.{
  retried, attempted, put_claim, other_scope, settle_claim,
}
use hermes_n8n_control_plane.Router.Known.{
  IsWork, Added, append_pending-Added, retried-IsWork, attempted-IsScope, scope_is, claim_is,
  pending_is, holds, any-append,
}
use hermes_n8n_control_plane.Router.Kept.Handled.{IsTimely}
use hermes_n8n_control_plane.Router.Kept.Claims.{IsClaim, IsLive, total}

pub any-put_claim :
    (id : String) (c : Claim) (cs : List Claim)
    → any (claim_is id) (put_claim c cs) ≡ (c.item.id == id || any (claim_is id) cs)
unfolding put_claim
any-put_claim id c [] = refl
any-put_claim id c (d ∷ ds) = ground (
  arith,
  any-put_claim id c ds,
  eq_iff d.item.id c.item.id,
  eq_iff d.item.id id,
  eq_iff c.item.id id,
)

pub length-put_claim : (c : Claim) (cs : List Claim) → length (put_claim c cs) ≤ length cs + 1
unfolding put_claim
length-put_claim c [] = omega arith
length-put_claim c (d ∷ ds) = ground (arith, length-put_claim c ds)

pub All-put_claim :
    (st : Settings) (now : ℕ) (c : Claim) (cs : List Claim)
    → IsClaim st now c
    → All (IsClaim st now) cs
    → All (IsClaim st now) (put_claim c cs)
unfolding put_claim
All-put_claim st now c [] h hs = (h, tt)
All-put_claim st now c (d ∷ ds) h hs = elim (Bool-cases (d.item.id == c.item.id)) [
  | inl same ↦ rw same (h, hs.1)
  | inr other ↦ rw other (hs.0, All-put_claim st now c ds h hs.1)
]

pub any-other_scope :
    (id own : String) (q : List Scope)
    → (own == id) ≡ false
    → any (scope_is id) (keep (other_scope own) q) ≡ any (scope_is id) q
any-other_scope id own [] h = refl
any-other_scope id own (s ∷ ss) h =
    ground (arith, any-other_scope id own ss h, eq_iff s.id own, eq_iff s.id id, eq_iff own id)

-- What the step leaves.
pub record IsSettled (st : Settings) (now : ℕ) (c : Claim) (live out : Live) : Type 0 where
  pub live_ok : IsLive st now out
  pub size : total out ≤ total live + 1
  pub own : holds c.item.id out ≡ true
  pub others :
      (id : String) → (c.item.id == id) ≡ false → holds id live ≡ true → holds id out ≡ true

in_flight-IsSettled :
    (st : Settings) (now : ℕ) (c : Claim) (live : Live)
    → IsLive st now live
    → IsClaim st now c
    → IsSettled st now c live (record live {
      queue = keep (other_scope c.item.id) live.queue;
      claims = put_claim c live.claims;
    })
unfolding holds
in_flight-IsSettled st now c live h hc =
    let short = length-keep (other_scope c.item.id) live.queue in
    let long = length-put_claim c live.claims in
    record {
      live_ok = record {
        queue_ok = All-keep (IsWork st now) (other_scope c.item.id) live.queue h.queue_ok;
        claims_ok = All-put_claim st now c live.claims hc h.claims_ok;
        pending_ok = h.pending_ok;
      };
      size = omega arith;
      own = rw (any-put_claim c.item.id c live.claims, eq_refl c.item.id) (ground arith);
      others = λ id differs held.
          rw
            (
              any-other_scope id c.item.id live.queue differs,
              any-put_claim id c live.claims,
              differs,
            )
            held;
    }

requeued-IsSettled :
    (st : Settings) (now : ℕ) (c : Claim) (s : Scope) (live : Live)
    → IsLive st now live
    → IsWork st now s
    → s.id ≡ c.item.id
    → IsSettled st now c live
        (record live { queue = keep (other_scope c.item.id) live.queue ++ s ∷ [] })
unfolding holds
requeued-IsSettled st now c s live h hs e =
    let kept : List Scope = keep (other_scope c.item.id) live.queue in
    let short = length-keep (other_scope c.item.id) live.queue in
    let long = length-append kept (s ∷ []) in
    record {
      live_ok = record {
        queue_ok =
            All-append (IsWork st now) kept (s ∷ [])
              (All-keep (IsWork st now) (other_scope c.item.id) live.queue h.queue_ok) (hs, tt);
        claims_ok = h.claims_ok;
        pending_ok = h.pending_ok;
      };
      size = omega arith;
      own = rw (any-append (scope_is c.item.id) kept (s ∷ []), e, eq_refl c.item.id) (ground arith);
      others = λ id differs held.
          rw
            (
              any-append (scope_is id) kept (s ∷ []),
              any-other_scope id c.item.id live.queue differs,
              e,
              differs,
            )
            (ground (arith, held));
    }

parked-IsSettled :
    (st : Settings) (now : ℕ) (c : Claim) (s : Scope) (ps : List Pending) (live : Live)
    → IsLive st now live
    → Added st live.pending s ps
    → s.id ≡ c.item.id
    → IsSettled st now c live
        (record live { queue = keep (other_scope c.item.id) live.queue; pending = ps })
unfolding holds
parked-IsSettled st now c s ps live h a e =
    let short = length-keep (other_scope c.item.id) live.queue in
    record {
      live_ok = record {
        queue_ok = All-keep (IsWork st now) (other_scope c.item.id) live.queue h.queue_ok;
        claims_ok = h.claims_ok;
        pending_ok = a.all_ok;
      };
      size = omega (arith, a.size);
      own =
          let there = subst (λ i. any (pending_is i) ps ≡ true) e a.own in rw there (ground arith);
      others = λ id differs held.
          rw (any-other_scope id c.item.id live.queue differs) (others_in id held);
    }
  where
    others_in :
        (id : String)
        → (any (scope_is id) live.queue
            || any (claim_is id) live.claims
            || any (pending_is id) live.pending)
          ≡ true
        → (any (scope_is id) live.queue || any (claim_is id) live.claims || any (pending_is id) ps)
          ≡ true
    others_in id held = elim (Bool-cases (any (pending_is id) live.pending)) [
      | inl there ↦ rw (a.others id there) (ground arith)
      | inr absent ↦ ground arith
    ]

-- One claim of the dict, as the router wrote it.
pub settle_claim-IsSettled :
    (st : Settings) (now : ℕ) (c : Claim) (live : Live)
    → IsTimely st now
    → IsLive st now live
    → IsClaim st now c
    → total live + 1 ≤ st.scope_max_pending
    → IsSettled st now c live (settle_claim st now (some c) live)
unfolding settle_claim
settle_claim-IsSettled st now c live time h hc fits =
    elim (Bool-cases (ltb now c.claim_expires_at)) [
      | inl flying ↦ rw flying (in_flight-IsSettled st now c live h hc)
      | inr over ↦ elim (Bool-cases (leb st.scope_max_attempts (c.item.attempts + 1))) [
        | inl last ↦
            rw (over, last)
              (parked-IsSettled st now c (attempted c.item)
                (append_pending_scope st live.pending (attempted c.item) now "claim_lease_expired")
                live h
                (append_pending-Added st now live.pending (attempted c.item) "claim_lease_expired"
                  h.pending_ok (attempted-IsScope st now c.item hc.work) time.now_pos (omega arith))
                refl)
        | inr more ↦
            rw (over, more)
              (requeued-IsSettled st now c (retried st now now c.item) live h (retried_now more)
                refl)
      ]
    ]
  where
    retried_now :
        leb st.scope_max_attempts (c.item.attempts + 1) ≡ false
        → IsWork st now (retried st now now c.item)
    retried_now more =
        let e : now + 0 ≡ now = omega arith in
        subst (λ n. IsWork st now (retried st now n c.item)) e
          (retried-IsWork st now 0 c.item hc.work (omega (arith, time.ttl)) (omega arith) more)

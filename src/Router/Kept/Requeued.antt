-- ===== src/Router/Kept/Requeued.antt =====
-- A requeue loses no scope, and an ack none but its own.
use hermes_n8n_control_plane.Prelude.{
  ℕ, ◌+◌, ◌≤◌, String, ◌≡◌, refl, subst, true, false, ◌||◌, Option, none, some, List, [], ◌∷◌, ◌++◌,
  ◌==◌, text_comparable, eq_iff, eq_refl, leb, length, any, length-append, length-keep, All,
  All-append, All-keep, arith, Bool-cases, inl, inr, Result, ok, err,
}
use hermes_n8n_control_plane.Router.Patterns.{Settings}
use hermes_n8n_control_plane.Router.Scope.{Scope}
use hermes_n8n_control_plane.Router.State.{State, Claim, Pending, Live, append_pending_scope}
use hermes_n8n_control_plane.Router.Recovery.{attempted, retried}
use hermes_n8n_control_plane.Router.Operations.{
  find_claim, other_claim, drop_claim, backoff, requeue_item,
}
use hermes_n8n_control_plane.Router.Known.{
  IsWork, Added, append_pending-Added, retried-IsWork, attempted-IsScope, scope_is, claim_is,
  pending_is, holds, any-append,
}
use hermes_n8n_control_plane.Router.Kept.Handled.{IsTimely}
use hermes_n8n_control_plane.Router.Kept.Claims.{IsClaim, IsLive, total}
use hermes_n8n_control_plane.Router.Kept.Lossless.{IsLossless}

-- A claim that was found under an id.
pub record IsFound (st : Settings) (now : ℕ) (id : String) (cs : List Claim) (c : Claim)
    : Type 0 where
  pub claim_ok : IsClaim st now c
  pub same : c.item.id ≡ id
  pub size : length (drop_claim id cs) + 1 ≤ length cs

abbrev pub Found : Settings → ℕ → String → List Claim → Option Claim → Type 0
Found st now id cs none = Unit
Found st now id cs (some c) = IsFound st now id cs c

later-Found :
    (st : Settings) (now : ℕ) (id : String) (d : Claim) (ds : List Claim) (found : Option Claim)
    → (d.item.id == id) ≡ false
    → Found st now id ds found
    → Found st now id (d ∷ ds) found
later-Found st now id d ds none other k = tt
later-Found st now id d ds (some c) other k = record {
  claim_ok = k.claim_ok;
  same = k.same;
  size = rw other (omega (arith, k.size));
}

pub find_claim-Found :
    (st : Settings) (now : ℕ) (id : String) (cs : List Claim)
    → All (IsClaim st now) cs
    → Found st now id cs (find_claim id cs)
unfolding find_claim
find_claim-Found st now id [] h = tt
find_claim-Found st now id (d ∷ ds) h =
    let rest = find_claim-Found st now id ds h.1 in
    let short = length-keep (other_claim id) ds in
    elim (Bool-cases (d.item.id == id)) [
      | inl same ↦ rw same (record {
        claim_ok = h.0;
        same = (eq_iff d.item.id id).0 same;
        size = rw same (omega arith);
      })
      | inr other ↦ rw other (later-Found st now id d ds (find_claim id ds) other rest)
    ]

pub any-drop_claim :
    (id own : String) (cs : List Claim)
    → (own == id) ≡ false
    → any (claim_is id) (drop_claim own cs) ≡ any (claim_is id) cs
any-drop_claim id own [] h = refl
any-drop_claim id own (c ∷ cs) h =
    ground
      (arith, any-drop_claim id own cs h, eq_iff c.item.id own, eq_iff c.item.id id, eq_iff own id)

-- What a result holds, if it is one.
abbrev pub IfOk {ℓ κ} : {A : Type ℓ} → (A → Type κ) → Result A → Type κ
IfOk P (ok a) = P a
IfOk P (err e) = Unit

-- The claim of the scope is given up, and the scope is held elsewhere.
moved :
    (st : Settings) (now : ℕ) (id : String) (live out : Live)
    → out.claims ≡ drop_claim id live.claims
    → holds id out ≡ true
    → ((i : String)
        → (id == i) ≡ false
        → any (scope_is i) live.queue ≡ true
        → any (scope_is i) out.queue ≡ true)
    → ((i : String)
        → any (pending_is i) live.pending ≡ true
        → any (pending_is i) out.pending ≡ true)
    → (i : String) → holds i live ≡ true
    → holds i out ≡ true
unfolding holds
moved st now id live out e own queued pending i held = elim (Bool-cases (id == i)) [
  | inl same ↦
      subst
        (λ j.
          (any (scope_is j) out.queue
            || any (claim_is j) out.claims
            || any (pending_is j) out.pending)
          ≡ true)
        ((eq_iff id i).0 same) own
  | inr other ↦
      rw e (rw (any-drop_claim i id live.claims other) (ground (arith, queued i other, pending i)))
]

backoff_fits : (n ttl : ℕ) → 5 ≤ ttl → backoff n ≤ ttl
unfolding backoff
backoff_fits n ttl h = ground arith

pub requeue_item-Lossless :
    (st : Settings) (now : ℕ) (id reason token : String) (state : State) (live : Live) (c : Claim)
    → IsTimely st now
    → IsLive st now live
    → total live ≤ st.scope_max_pending
    → IsFound st now id live.claims c
    → IsLossless st now live (requeue_item st now id reason token state live c.item).1
unfolding requeue_item
requeue_item-Lossless st now id reason token state live c time h fits k =
    elim (Bool-cases (leb st.scope_max_attempts (c.item.attempts + 1))) [
      | inl last ↦ rw last (record {
        state = _;
        left = parked;
        written = refl;
        recovered = record {
          live_ok = record {
            queue_ok = h.queue_ok;
            claims_ok = dropped_ok;
            pending_ok = added.all_ok;
          };
          size = omega (arith, added.size, k.size);
          kept = moved st now id live parked refl parked_own (λ i other held. held) added.others;
        };
      })
      | inr more ↦ rw more (record {
        state = _;
        left = queued;
        written = refl;
        recovered = record {
          live_ok = record {
            queue_ok =
                All-append (IsWork st now) live.queue (again ∷ []) h.queue_ok (again_ok more, tt);
            claims_ok = dropped_ok;
            pending_ok = h.pending_ok;
          };
          size = omega (arith, k.size, length-append live.queue (again ∷ []));
          kept =
              moved st now id live queued refl queued_own
                (λ i other held. rw (any-append (scope_is i) live.queue (again ∷ []), held))
                (λ i held. held);
        };
      })
    ]
  where
    dropped_ok : All (IsClaim st now) (drop_claim id live.claims)
    dropped_ok = All-keep (IsClaim st now) (other_claim id) live.claims h.claims_ok

    again : Scope
    again = retried st now (now + backoff (c.item.attempts + 1)) c.item

    again_ok : leb st.scope_max_attempts (c.item.attempts + 1) ≡ false → IsWork st now again
    again_ok more =
        retried-IsWork st now (backoff (c.item.attempts + 1)) c.item k.claim_ok.work
          (omega (arith, time.ttl))
          (backoff_fits (c.item.attempts + 1) st.scope_ttl_seconds time.ttl) more

    queued : Live
    queued = record live { claims = drop_claim id live.claims; queue = live.queue ++ again ∷ [] }

    queued_own : holds id queued ≡ true
    queued_own =
        unfold holds in
        rw (any-append (scope_is id) live.queue (again ∷ []), k.same, eq_refl id) (ground arith)

    parked_list : List Pending
    parked_list = append_pending_scope st live.pending (attempted c.item) now reason

    added : Added st live.pending (attempted c.item) parked_list
    added =
        append_pending-Added st now live.pending (attempted c.item) reason h.pending_ok
          (attempted-IsScope st now c.item k.claim_ok.work) time.now_pos (omega (arith, k.size))

    parked : Live
    parked = record live { claims = drop_claim id live.claims; pending = parked_list }

    parked_own : holds id parked ≡ true
    parked_own =
        unfold holds in
        let there = subst (λ i. any (pending_is i) parked_list ≡ true) k.same added.own in
        rw there (ground arith)

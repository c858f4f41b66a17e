-- ===== src/Router/Kept/Lossless.antt =====
-- The operations on the scope queue lose no scope.
use hermes_n8n_control_plane.Prelude.{
  ℕ, ◌+◌, ◌≤◌, ◌<◌, String, ◌≡◌, refl, true, ◌||◌, Option, none, some, List, [], ◌∷◌, ◌==◌,
  text_comparable, leb, length, any, All, arith, Bool-cases, inl, inr,
}
use hermes_n8n_control_plane.Router.Patterns.{Settings, claim_token_ok}
use hermes_n8n_control_plane.Router.Scope.{Scope}
use hermes_n8n_control_plane.Router.State.{State, Claim, Live, save}
use hermes_n8n_control_plane.Router.Recovery.{put_claim, recover_scope_claims}
use hermes_n8n_control_plane.Router.Operations.{pop_due, claim_due, claim_scope}
use hermes_n8n_control_plane.Router.Known.{IsWork, scope_is, holds}
use hermes_n8n_control_plane.Router.Kept.Handled.{IsTimely}
use hermes_n8n_control_plane.Router.Kept.Claims.{IsLive, total}
use hermes_n8n_control_plane.Router.Kept.Settled.{any-put_claim, length-put_claim, All-put_claim}
use hermes_n8n_control_plane.Router.Kept.Recovered.{IsRecovered, recover_scope_claims-IsRecovered}

-- A state that was written with lists that are well formed, no longer in all than the lists before,
-- and that hold all of their scopes.
pub record IsLossless (st : Settings) (now : ℕ) (live : Live) (out : State) : Type 0 where
  pub state : State
  pub left : Live
  pub written : out ≡ save state left
  pub recovered : IsRecovered st now live left

pub IsRecovered-trans :
    (st : Settings) (now : ℕ) (a b c : Live)
    → IsRecovered st now a b
    → IsRecovered st now b c
    → IsRecovered st now a c
IsRecovered-trans st now a b c h k = record {
  live_ok = k.live_ok;
  size = omega (arith, h.size, k.size);
  kept = λ id held. k.kept id (h.kept id held);
}

-- The queue is the item that is due and the rest.
pub record IsPopped (st : Settings) (now : ℕ) (q : List Scope) (s : Scope) (rest : List Scope)
    : Type 0 where
  pub item_ok : IsWork st now s
  pub rest_ok : All (IsWork st now) rest
  pub size : length rest + 1 ≤ length q
  pub parts : (id : String) → any (scope_is id) q ≡ (s.id == id || any (scope_is id) rest)
  pub due : leb s.not_before now ≡ true

abbrev pub Popped : Settings → ℕ → List Scope → Option (Scope × List Scope) → Type 0
Popped st now q none = Unit
Popped st now q (some (s, rest)) = IsPopped st now q s rest

first-Popped :
    (st : Settings) (now : ℕ) (t : Scope) (ts : List Scope)
    → IsWork st now t
    → All (IsWork st now) ts
    → leb t.not_before now ≡ true
    → Popped st now (t ∷ ts) (some (t, ts))
first-Popped st now t ts h hs due = record {
  item_ok = h;
  rest_ok = hs;
  size = omega arith;
  parts = λ id. refl;
  due = due;
}

-- The item stands behind another.
behind-Popped :
    (st : Settings) (now : ℕ) (t : Scope) (ts : List Scope) (found : Option (Scope × List Scope))
    → IsWork st now t
    → Popped st now ts found
    → Popped st now (t ∷ ts) (elim found [ none ↦ none | some (s, rest) ↦ some (s, t ∷ rest) ])
behind-Popped st now t ts none h k = tt
behind-Popped st now t ts (some (s, rest)) h k = record {
  item_ok = k.item_ok;
  rest_ok = (h, k.rest_ok);
  size = omega (arith, k.size);
  parts = λ id. ground (arith, k.parts id);
  due = k.due;
}

pub pop_due-Popped :
    (st : Settings) (now : ℕ) (q : List Scope)
    → All (IsWork st now) q
    → Popped st now q (pop_due now q)
unfolding pop_due
pop_due-Popped st now [] h = tt
pop_due-Popped st now (t ∷ ts) h =
    let rest = pop_due-Popped st now ts h.1 in
    elim (Bool-cases (leb t.not_before now)) [
      | inl due ↦ rw due (first-Popped st now t ts h.0 h.1 due)
      | inr later ↦ rw later (behind-Popped st now t ts (pop_due now ts) h.0 rest)
    ]

claim_due-Lossless :
    (st : Settings) (now : ℕ) (token : String) (state : State) (live : Live)
    (found : Option (Scope × List Scope))
    → 0 < now
    → claim_token_ok token ≡ true
    → IsLive st now live
    → Popped st now live.queue found
    → IsLossless st now live (claim_due st now token state live found).1
unfolding claim_due holds
claim_due-Lossless st now token state live none pos clean h k = record {
  state = state;
  left = live;
  written = refl;
  recovered = record { live_ok = h; size = omega arith; kept = λ id held. held };
}
claim_due-Lossless st now token state live (some (s, rest)) pos clean h k =
    let c : Claim = record {
      item = s;
      claim_expires_at = now + st.scope_claim_lease_seconds;
      claim_token = token;
    } in
    let long = length-put_claim c live.claims in
    record {
      state = _;
      left = record live { queue = rest; claims = put_claim c live.claims };
      written = refl;
      recovered = record {
        live_ok = record {
          queue_ok = k.rest_ok;
          claims_ok =
              All-put_claim st now c live.claims
                (record { work = k.item_ok; token = clean; until = ground arith }) h.claims_ok;
          pending_ok = h.pending_ok;
        };
        size = omega (arith, k.size);
        kept = λ id held. rw (any-put_claim id c live.claims) (ground (arith, k.parts id, held));
      };
    }

-- A claim loses no scope: whatever is queued, in flight or pending is so after it, and the lists
-- are well formed again and no longer in all. It is made with a well-formed token on a written
-- state whose lists are well formed, at a positive time, with a TTL of five seconds or more and
-- room in the pending list for all scopes.
pub claim_scope-IsLossless :
    (st : Settings) (fresh : String → String) (token : String) (now : ℕ) (state : State)
    (live : Live)
    → claim_token_ok token ≡ true
    → IsTimely st now
    → IsLive st now live
    → total live ≤ st.scope_max_pending
    → IsLossless st now live (claim_scope st fresh token now (save state live)).1
unfolding claim_scope
claim_scope-IsLossless st fresh token now state live clean time h fits =
    let mid : Live = recover_scope_claims st fresh now (save state live) in
    let r : IsRecovered st now live mid =
      recover_scope_claims-IsRecovered st fresh now state live time h fits in
    let out =
      claim_due-Lossless st now token (save state live) mid (pop_due now mid.queue) time.now_pos
        clean r.live_ok (pop_due-Popped st now mid.queue r.live_ok.queue_ok) in
    record {
      state = out.state;
      left = out.left;
      written = out.written;
      recovered = IsRecovered-trans st now live mid out.left r out.recovered;
    }

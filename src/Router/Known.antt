-- ===== src/Router/Known.antt =====
-- Which scopes the three lists of the router hold, and what the pieces of the recovery keep.
use hermes_n8n_control_plane.Prelude.{
  ℕ, ◌+◌, ◌≤◌, ◌<◌, String, ◌≡◌, refl, Bool, true, false, ◌||◌, Option, none, some, List, [], ◌∷◌,
  ◌++◌, map, ◌==◌, text_comparable, eq_iff, eq_refl, ltb, leb, length, keep, any, last_n_all,
  length-append, length-keep, All, All-append, All-keep, arith, Bool-cases, inl, inr,
}
use hermes_n8n_control_plane.Json.{Fields, int, str, arr, end, field, get, get_or, pack}
use hermes_n8n_control_plane.Json.Laws.{items-pack}
use hermes_n8n_control_plane.Router.Patterns.{
  Settings, scope_reason_ok, safe_scope_reason, safe_scope_reason_fixed,
}
use hermes_n8n_control_plane.Router.Scope.{Scope, scope_fields, delivery_fields, times_ok}
use hermes_n8n_control_plane.Router.Scope.RoundTrip.{IsScope, normalise-scope_fields}
use hermes_n8n_control_plane.Router.Recovery.{attempted, retried}
use hermes_n8n_control_plane.Router.State.{
  Claim, Pending, Live, pending_fields, encode_pending, safe_reason_of, kept_pending,
  prune_pending_list, prune_pending_scopes, other_pending, append_pending_scope,
}

abbrev pub scope_is : String → Scope → Bool
scope_is id s = s.id == id

abbrev pub claim_is : String → Claim → Bool
claim_is id c = c.item.id == id

abbrev pub pending_is : String → Pending → Bool
pending_is id p = p.item.id == id

-- The router still holds the scope.
unfoldable pub holds : String → Live → Bool
holds id live =
    any (scope_is id) live.queue
    || any (claim_is id) live.claims
    || any (pending_is id) live.pending

-- A pending entry as the code keeps it.
pub record IsPending (st : Settings) (p : Pending) : Type 0 where
  pub item_ok : IsScope st p.item
  pub since : ltb 0 p.pending_at ≡ true
  pub reason_ok : scope_reason_ok p.reason ≡ true

module _ {ℓ} {A : Type ℓ} where
  pub any-append : (p : A → Bool) (xs ys : List A) → any p (xs ++ ys) ≡ (any p xs || any p ys)
  any-append p [] ys = refl
  any-append p (x ∷ xs) ys = ground (arith, any-append p xs ys)

pub get-delivery_fields :
    (k : String) (d : Option String) (more : Fields)
    → ("delivery" == k) ≡ false
    → get k (delivery_fields d more) ≡ get k more
unfolding get get_or
get-delivery_fields k none more h = refl
get-delivery_fields k (some d) more h = rw h

-- A further key of the dict of an item is found behind the item's own keys.
pub get-pending_at :
    (s : Scope) (more : Fields) → get "pending_at" (scope_fields s more) ≡ get "pending_at" more
unfolding scope_fields get get_or
get-pending_at s more = get-delivery_fields "pending_at" s.delivery more refl

pub get-reason :
    (s : Scope) (more : Fields) → get "reason" (scope_fields s more) ≡ get "reason" more
unfolding scope_fields get get_or
get-reason s more = get-delivery_fields "reason" s.delivery more refl

reason_kept : (r : String) → scope_reason_ok r ≡ true → safe_reason_of (str r) ≡ r
unfolding safe_reason_of safe_scope_reason
reason_kept r h = rw h

kept_pending-fields :
    (st : Settings) (now : ℕ) (p : Pending)
    → IsPending st p
    → kept_pending st now (encode_pending p) ≡ p ∷ []
unfolding kept_pending pending_fields get
kept_pending-fields st now p h =
    let more : Fields = field "pending_at" (int p.pending_at) (field "reason" (str p.reason) end) in
    rw
      (
        normalise-scope_fields st p.item more now true h.item_ok refl refl,
        get-pending_at p.item more,
        get-reason p.item more,
      )
      (unfold get get_or in rw (h.since, reason_kept p.reason h.reason_ok))

prune_list-encode :
    (st : Settings) (now : ℕ) (ps : List Pending)
    → All (IsPending st) ps
    → prune_pending_list st now (map encode_pending ps) ≡ ps
unfolding prune_pending_list
prune_list-encode st now [] h = refl
prune_list-encode st now (p ∷ ps) h =
    rw (kept_pending-fields st now p h.0, prune_list-encode st now ps h.1)

-- A pending list that the code wrote is read back whole.
pub prune-encode :
    (st : Settings) (now : ℕ) (ps : List Pending)
    → All (IsPending st) ps
    → length ps ≤ st.scope_max_pending
    → prune_pending_scopes st (arr (pack (map encode_pending ps))) now ≡ ps
unfolding prune_pending_scopes
prune-encode st now ps h fits =
    rw (items-pack (map encode_pending ps), prune_list-encode st now ps h)
      (last_n_all st.scope_max_pending ps fits)

-- The item with other attempts and times is well formed if these are.
pub IsScope-with :
    (st : Settings) (s : Scope) (attempts expires not_before : ℕ)
    → IsScope st s
    → times_ok st s.created_at expires attempts not_before ≡ true
    → IsScope st (record s { attempts = attempts; expires_at = expires; not_before = not_before })
IsScope-with st s attempts expires not_before h t = record {
  id_clean = h.id_clean;
  times = t;
  names = h.names;
  fresh = h.fresh;
  sorted = h.sorted;
  bounded = h.bounded;
  mode_ok = h.mode_ok;
  delivery_ok = h.delivery_ok;
}

-- An item on which work may still be tried: well formed, with an attempt left, and not from the
-- future.
pub record IsWork (st : Settings) (now : ℕ) (s : Scope) : Type 0 where
  pub item_ok : IsScope st s
  pub left : s.attempts < st.scope_max_attempts
  pub past : s.created_at ≤ now

pub attempted-IsScope :
    (st : Settings) (now : ℕ) (s : Scope) → IsWork st now s → IsScope st (attempted s)
attempted-IsScope st now s h =
    IsScope-with st s (s.attempts + 1) s.expires_at s.not_before h.item_ok
      (ground (arith, h.item_ok.times, h.left))

-- A retry is work again, if it is not the last attempt and the backoff fits in the TTL.
pub retried-IsWork :
    (st : Settings) (now wait : ℕ) (s : Scope)
    → IsWork st now s
    → 0 < st.scope_ttl_seconds
    → wait ≤ st.scope_ttl_seconds
    → leb st.scope_max_attempts (s.attempts + 1) ≡ false
    → IsWork st now (retried st now (now + wait) s)
retried-IsWork st now wait s h pos fits more = record {
  item_ok =
      IsScope-with st s (s.attempts + 1) (now + st.scope_ttl_seconds) (now + wait) h.item_ok
        (ground (arith, h.item_ok.times, h.left, h.past));
  left = ground arith;
  past = h.past;
}

safe_scope_reason-ok : (r : String) → scope_reason_ok (safe_scope_reason r) ≡ true
unfolding safe_scope_reason
safe_scope_reason-ok r = elim (Bool-cases (scope_reason_ok r)) [
  | inl good ↦ rw good good
  | inr bad ↦ rw bad safe_scope_reason_fixed
]

-- What a pending list holds after a scope was added to it.
pub record Added (st : Settings) (ps : List Pending) (item : Scope) (out : List Pending)
    : Type 0 where
  pub all_ok : All (IsPending st) out
  pub size : length out ≤ length ps + 1
  pub own : any (pending_is item.id) out ≡ true
  pub others : (id : String) → any (pending_is id) ps ≡ true → any (pending_is id) out ≡ true

any-other :
    (id own : String) (ps : List Pending)
    → (own == id) ≡ false
    → any (pending_is id) (keep (other_pending own) ps) ≡ any (pending_is id) ps
any-other id own [] h = refl
any-other id own (p ∷ ps) h =
    ground (arith, any-other id own ps h, eq_iff p.item.id own, eq_iff p.item.id id, eq_iff own id)

others_kept :
    (id : String) (new : Pending) (ps : List Pending)
    → any (pending_is id) ps ≡ true
    → any (pending_is id) (keep (other_pending new.item.id) ps ++ new ∷ []) ≡ true
others_kept id new ps held =
    rw (any-append (pending_is id) (keep (other_pending new.item.id) ps) (new ∷ []))
      (elim (Bool-cases (new.item.id == id)) [
        | inl same ↦ rw same (ground arith)
        | inr differ ↦ rw (any-other id new.item.id ps differ, held)
      ])

-- Adding to a list that the code wrote and that has room: the scope stands in it, with all the
-- others.
pub append_pending-Added :
    (st : Settings) (now : ℕ) (ps : List Pending) (item : Scope) (reason : String)
    → All (IsPending st) ps
    → IsScope st item
    → 0 < now
    → length ps + 1 ≤ st.scope_max_pending
    → Added st ps item (append_pending_scope st ps item now reason)
unfolding append_pending_scope
append_pending-Added st now ps item reason h hi pos fits =
    let new : Pending = record {
      item = item;
      pending_at = now;
      reason = safe_scope_reason reason;
    } in
    let rest : List Pending = keep (other_pending item.id) ps in
    let le = length-keep (other_pending item.id) ps in
    let size = length-append rest (new ∷ []) in
    rw
      (
        prune-encode st now ps h (omega arith),
        last_n_all st.scope_max_pending (rest ++ new ∷ []) (omega arith),
      )
      (record {
        all_ok =
            All-append (IsPending st) rest (new ∷ [])
              (All-keep (IsPending st) (other_pending item.id) ps h)
              (
                record {
                  item_ok = hi;
                  since = ground arith;
                  reason_ok = safe_scope_reason-ok reason;
                },
                tt,
              );
        size = omega arith;
        own = rw (any-append (pending_is item.id) rest (new ∷ []), eq_refl item.id) (ground arith);
        others = λ id held. others_kept id new ps held;
      })

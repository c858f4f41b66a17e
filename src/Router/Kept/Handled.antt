-- ===== src/Router/Kept/Handled.antt =====
-- What the recovery makes of one queued item that the router wrote.
use hermes_n8n_control_plane.Prelude.{
  ℕ, ◌+◌, ◌≤◌, ◌<◌, String, ◌≡◌, refl, subst, Bool, true, false, ◌||◌, some, List, ◌∷◌, ◌==◌,
  text_comparable, eq_iff, eq_refl, ltb, leb, length, any, contains, All, arith, Bool-cases, inl,
  inr,
}
use hermes_n8n_control_plane.Json.{end, get}
use hermes_n8n_control_plane.Router.Patterns.{Settings}
use hermes_n8n_control_plane.Router.Scope.{Scope, normalise_scope_item, encode_scope}
use hermes_n8n_control_plane.Router.Scope.RoundTrip.{IsScope, normalise-scope_fields}
use hermes_n8n_control_plane.Router.State.{Pending, append_pending_scope}
use hermes_n8n_control_plane.Router.Recovery.{
  Fate, dropped, queued, parked, fate, expired_fate, seen_by, queued_by, pending_by, retried,
  attempted,
}
use hermes_n8n_control_plane.Router.Known.{
  IsPending, IsWork, Added, append_pending-Added, retried-IsWork, attempted-IsScope, scope_is,
  pending_is,
}

-- The time and the settings under which the retries are well formed.
pub record IsTimely (st : Settings) (now : ℕ) : Type 0 where
  pub now_pos : 0 < now
  pub ttl : 5 ≤ st.scope_ttl_seconds
  pub room_pos : 0 < st.scope_max_pending

pub normalise-encode_scope :
    (st : Settings) (now : ℕ) (s : Scope)
    → IsScope st s
    → normalise_scope_item st (encode_scope s) now true ≡ some s
unfolding normalise_scope_item encode_scope get
normalise-encode_scope st now s h = normalise-scope_fields st s end now true h refl refl

pub or_third : (a b : Bool) {c : Bool} → c ≡ true → (a || b || c) ≡ true
or_third a b {c} h = ground arith

-- What a step over one queued item leaves: the lists it adds to, and where the item is found.
pub record Handled (st : Settings) (now : ℕ) (s : Scope) (seen : List String) (ps : List Pending)
    (f : Fate) : Type 0 where
  pub queue_ok : (q : List Scope) → All (IsWork st now) q → All (IsWork st now) (queued_by f q)
  pub pending_ok : All (IsPending st) (pending_by st now f ps)
  pub size :
      (q : List Scope)
      → length (queued_by f q) + length (pending_by st now f ps) ≤ length q + length ps + 1
  pub found :
      (q : List Scope)
      → (contains s.id seen
          || any (scope_is s.id) (queued_by f q)
          || any (pending_is s.id) (pending_by st now f ps))
        ≡ true
  pub kept :
      (id : String)
      → any (pending_is id) ps ≡ true
      → any (pending_is id) (pending_by st now f ps) ≡ true
  pub tail_kept :
      (id : String) (q : List Scope)
      → any (scope_is id) q ≡ true
      → any (scope_is id) (queued_by f q) ≡ true
  pub seen_found :
      (id : String) (q : List Scope)
      → contains id (seen_by f seen) ≡ true
      → (contains id seen
          || any (scope_is id) (queued_by f q)
          || any (pending_is id) (pending_by st now f ps))
        ≡ true

queued-Handled :
    (st : Settings) (now : ℕ) (s t : Scope) (seen : List String) (ps : List Pending)
    → All (IsPending st) ps
    → IsWork st now t
    → t.id ≡ s.id
    → Handled st now s seen ps (queued s.id t)
queued-Handled st now s t seen ps hp ht e = record {
  queue_ok = λ q hq. (ht, hq);
  pending_ok = hp;
  size = λ q. omega arith;
  found = λ q. rw (e, eq_refl s.id) (ground arith);
  kept = λ id h. h;
  tail_kept = λ id q h. ground (arith, h);
  seen_found = λ id q h. rw e (ground (arith, h));
}

dropped-Handled :
    (st : Settings) (now : ℕ) (s : Scope) (seen : List String) (ps : List Pending)
    → All (IsPending st) ps
    → contains s.id seen ≡ true
    → Handled st now s seen ps dropped
dropped-Handled st now s seen ps hp old = record {
  queue_ok = λ q hq. hq;
  pending_ok = hp;
  size = λ q. omega arith;
  found = λ q. rw old;
  kept = λ id h. h;
  tail_kept = λ id q h. h;
  seen_found = λ id q h. rw h;
}

parked-Handled :
    (st : Settings) (now : ℕ) (s t : Scope) (seen : List String) (ps : List Pending)
    → Added st ps t (append_pending_scope st ps t now "scope_expired")
    → t.id ≡ s.id
    → Handled st now s seen ps (parked s.id t)
parked-Handled st now s t seen ps a e =
    let own =
      subst (λ i. any (pending_is i) (append_pending_scope st ps t now "scope_expired") ≡ true) e
        a.own in
    record {
      queue_ok = λ q hq. hq;
      pending_ok = a.all_ok;
      size = λ q. omega (arith, a.size);
      found = λ q. or_third (contains s.id seen) (any (scope_is s.id) q) own;
      kept = a.others;
      tail_kept = λ id q h. h;
      seen_found = λ id q h. parked_found id q own h;
    }
  where
    parked_found :
        (id : String) (q : List Scope)
        → any (pending_is s.id) (append_pending_scope st ps t now "scope_expired") ≡ true
        → contains id (s.id ∷ seen) ≡ true
        → (contains id seen
            || any (scope_is id) q
            || any (pending_is id) (append_pending_scope st ps t now "scope_expired"))
          ≡ true
    parked_found id q own h = elim (Bool-cases (s.id == id)) [
      | inl same ↦ or_third (contains id seen) (any (scope_is id) q) (
          subst (λ i. any (pending_is i) (append_pending_scope st ps t now "scope_expired") ≡ true)
            ((eq_iff s.id id).0 same) own)
      | inr differ ↦ let old : contains id seen ≡ true = rw differ at h in rw old
    ]

expired-Handled :
    (st : Settings) (now : ℕ) (s : Scope) (seen : List String) (ps : List Pending)
    → IsTimely st now
    → All (IsPending st) ps
    → length ps + 1 ≤ st.scope_max_pending
    → IsWork st now s
    → Handled st now s seen ps (expired_fate st now s)
unfolding expired_fate
expired-Handled st now s seen ps time hp fits hs =
    elim (Bool-cases (leb st.scope_max_attempts (s.attempts + 1))) [
      | inl last ↦ rw last (
          parked-Handled st now s (attempted s) seen ps
            (append_pending-Added st now ps (attempted s) "scope_expired" hp
              (attempted-IsScope st now s hs) time.now_pos fits)
            refl)
      | inr more ↦
          rw more
            (queued-Handled st now s (retried st now now s) seen ps hp (retried_now more) refl)
    ]
  where
    retried_now :
        leb st.scope_max_attempts (s.attempts + 1) ≡ false → IsWork st now (retried st now now s)
    retried_now more =
        let e : now + 0 ≡ now = omega arith in
        subst (λ n. IsWork st now (retried st now n s)) e
          (retried-IsWork st now 0 s hs (omega (arith, time.ttl)) (omega arith) more)

pub handled :
    (st : Settings) (now : ℕ) (s : Scope) (seen : List String) (ps : List Pending)
    → IsTimely st now
    → All (IsPending st) ps
    → length ps + 1 ≤ st.scope_max_pending
    → IsWork st now s
    → Handled st now s seen ps (fate st now seen (some s))
unfolding fate
handled st now s seen ps time hp fits hs = elim (Bool-cases (contains s.id seen)) [
  | inl old ↦ rw old (dropped-Handled st now s seen ps hp old)
  | inr new ↦ elim (Bool-cases (ltb now s.expires_at)) [
    | inl live ↦ rw (new, live) (queued-Handled st now s s seen ps hp hs refl)
    | inr expired ↦ rw (new, expired) (expired-Handled st now s seen ps time hp fits hs)
  ]
]

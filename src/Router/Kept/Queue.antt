-- ===== src/Router/Kept/Queue.antt =====
-- The recovery of a queue that the router wrote keeps every scope, and leaves lists that are well
-- formed again.
use hermes_n8n_control_plane.Prelude.{
  ℕ, ◌+◌, ◌≤◌, String, ◌≡◌, refl, sym, subst, Bool, true, false, ◌||◌, some, List, [], ◌∷◌, map,
  text_comparable, eq_iff, length, any, contains, All, arith, inl, inr, ◌⊎◌,
}
use hermes_n8n_control_plane.Json.{Value}
use hermes_n8n_control_plane.Router.Patterns.{Settings}
use hermes_n8n_control_plane.Router.Scope.{Scope, encode_scope}
use hermes_n8n_control_plane.Router.Scope.RoundTrip.{IsScope}
use hermes_n8n_control_plane.Router.State.{Pending}
use hermes_n8n_control_plane.Router.Recovery.{
  Fate, fate, seen_by, queued_by, pending_by, recover_queue,
}
use hermes_n8n_control_plane.Router.Known.{IsPending, IsWork, scope_is, pending_is}
use hermes_n8n_control_plane.Router.Kept.Handled.{
  IsTimely, Handled, handled, normalise-encode_scope, or_third,
}

pub or-cases : (a b c : Bool) → (a || b || c) ≡ true → (a ≡ true) ⊎ (b ≡ true) ⊎ (c ≡ true)
or-cases true b c h = inl refl
or-cases false true c h = inr (inl refl)
or-cases false false c h = inr (inr h)

or_first : (a b c : Bool) → a ≡ true → (a || b || c) ≡ true
or_first a b c h = rw h

or_second : (a b c : Bool) → b ≡ true → (a || b || c) ≡ true
or_second a b c h = ground arith

-- What the recovery of a written queue leaves.
pub record QueueKept (st : Settings) (now : ℕ) (qs : List Scope) (seen : List String)
    (ps : List Pending) (q : List Scope) (p : List Pending) : Type 0 where
  pub queue_ok : All (IsWork st now) q
  pub pending_ok : All (IsPending st) p
  pub size : length q + length p ≤ length qs + length ps
  pub found :
      (id : String)
      → any (scope_is id) qs ≡ true
      → (contains id seen || any (scope_is id) q || any (pending_is id) p) ≡ true
  pub kept : (id : String) → any (pending_is id) ps ≡ true → any (pending_is id) p ≡ true

-- One more item in front.
cons-QueueKept :
    (st : Settings) (now : ℕ) (s : Scope) (qs : List Scope) (seen : List String) (ps : List Pending)
    (f : Fate) (q : List Scope) (p : List Pending)
    → Handled st now s seen ps f
    → QueueKept st now qs (seen_by f seen) (pending_by st now f ps) q p
    → QueueKept st now (s ∷ qs) seen ps (queued_by f q) p
cons-QueueKept st now s qs seen ps f q p h r = record {
  queue_ok = h.queue_ok q r.queue_ok;
  pending_ok = r.pending_ok;
  size = omega (arith, h.size q, r.size);
  found = λ id held. found_in id (cons_cases id held);
  kept = λ id held. r.kept id (h.kept id held);
}
  where
    cons_cases :
        (id : String)
        → any (scope_is id) (s ∷ qs) ≡ true
        → (s.id ≡ id) ⊎ (any (scope_is id) qs ≡ true)
    cons_cases id held = ground (arith, eq_iff s.id id)

    settle :
        (id : String)
        → (contains id seen ≡ true)
          ⊎ (any (scope_is id) (queued_by f q) ≡ true)
          ⊎ (any (pending_is id) (pending_by st now f ps) ≡ true)
        → (contains id seen || any (scope_is id) (queued_by f q) || any (pending_is id) p) ≡ true
    settle id (inl a) = or_first (contains id seen) _ _ a
    settle id (inr (inl b)) = or_second (contains id seen) (any (scope_is id) (queued_by f q)) _ b
    settle id (inr (inr c)) =
        or_third (contains id seen) (any (scope_is id) (queued_by f q)) (r.kept id c)

    from_rest :
        (id : String)
        → (contains id (seen_by f seen) ≡ true)
          ⊎ (any (scope_is id) q ≡ true)
          ⊎ (any (pending_is id) p ≡ true)
        → (contains id seen || any (scope_is id) (queued_by f q) || any (pending_is id) p) ≡ true
    from_rest id (inl a) = settle id (or-cases _ _ _ (h.seen_found id q a))
    from_rest id (inr (inl b)) = settle id (inr (inl (h.tail_kept id q b)))
    from_rest id (inr (inr c)) = or_third (contains id seen) (any (scope_is id) (queued_by f q)) c

    found_in :
        (id : String)
        → (s.id ≡ id) ⊎ (any (scope_is id) qs ≡ true)
        → (contains id seen || any (scope_is id) (queued_by f q) || any (pending_is id) p) ≡ true
    found_in id (inl e) =
        subst
          (λ i.
            (contains i seen || any (scope_is i) (queued_by f q) || any (pending_is i) p) ≡ true)
          e (settle s.id (or-cases _ _ _ (h.found q)))
    found_in id (inr held) = from_rest id (or-cases _ _ _ (r.found id held))

recover_queue-cons :
    (st : Settings) (now : ℕ) (s : Scope) (vs : List Value) (seen : List String) (ps : List Pending)
    → IsScope st s
    → let f = fate st now seen (some s) in
      let rest = recover_queue st now vs (seen_by f seen) (pending_by st now f ps) in
      recover_queue st now (encode_scope s ∷ vs) seen ps ≡ (queued_by f rest.0, rest.1)
recover_queue-cons st now s vs seen ps h =
    unfold recover_queue in rw (normalise-encode_scope st now s h)

-- The recovery of a written queue of well-formed items with an attempt left and not from the
-- future leaves every one of them in the queue, in the pending list or among the ids seen before,
-- keeps the pending ones, makes the lists no longer in all, and leaves items that are so again. It
-- is made at a positive time, with a TTL of five seconds or more, a well-formed pending list and
-- room in it for all scopes.
pub recover_queue-QueueKept :
    (st : Settings) (now : ℕ) (qs : List Scope) (seen : List String) (ps : List Pending)
    → IsTimely st now
    → All (IsWork st now) qs
    → All (IsPending st) ps
    → length qs + length ps ≤ st.scope_max_pending
    → (let out = recover_queue st now (map encode_scope qs) seen ps in
        QueueKept st now qs seen ps out.0 out.1)
recover_queue-QueueKept st now [] seen ps time hq hp fits =
    unfold recover_queue in
    record {
      queue_ok = tt;
      pending_ok = hp;
      size = omega arith;
      found = λ id held. cc;
      kept = λ id held. held;
    }
recover_queue-QueueKept st now (s ∷ qs) seen ps time hq hp fits =
    let f : Fate = fate st now seen (some s) in
    let h : Handled st now s seen ps f = handled st now s seen ps time hp (omega arith) hq.0 in
    let size : length (queued_by f []) + length (pending_by st now f ps) ≤ 0 + length ps + 1 =
      h.size [] in
    let e = recover_queue-cons st now s (map encode_scope qs) seen ps hq.0.item_ok in
    subst (λ out. QueueKept st now (s ∷ qs) seen ps out.0 out.1) (sym e)
      (cons-QueueKept st now s qs seen ps f _ _ h (
        recover_queue-QueueKept st now qs (seen_by f seen) (pending_by st now f ps) time hq.1
          h.pending_ok (omega arith)))

-- ===== src/Signals/Provenance/Claimed.antt =====
-- A round counts as claimed just when an event of the edge says so.
use mathlib.Core.List.{Memᴰ}
use mathlib.Core.List.Memᴰ
use hermes_n8n_control_plane.Prelude.{
  ℕ, zero, suc, String, ◌≡◌, ◌⊎◌, inl, inr, refl, sym, ◌∙◌, ap, subst, Bool, true, false, ◌&&◌,
  Option, none, some, List, [], ◌∷◌, ◌==◌, text_comparable, number_comparable, and-parts, Result,
  ok, err, Bool-cases,
}
use hermes_n8n_control_plane.Json.{Value, int}
use hermes_n8n_control_plane.Router.Deliveries.Capping.{Integer, pos, negsuc}
use hermes_n8n_control_plane.Signals.Provenance.{
  rework_dispatch_provenance_kind, Event, json_payload, whole, or_later, bootstrap_row,
  bootstrap_rows, positive, with_round, has_round_bootstrap,
}
use hermes_n8n_control_plane.Signals.Provenance.Payloads.{
  IsClaim, literal, some_injective, whole-literal, RowClaims, bootstrap_row_sound,
  bootstrap_row_complete,
}

-- An event of the table by which the edge claimed the round: the claim names the run of its own row.
pub record IsClaimed (events : List Event) (task_id : String) (at_time round : Value) : Type 0 where
  pub event : Event
  pub listed : Memᴰ event events
  pub of_task : event.task_id ≡ task_id
  pub of_kind : event.kind ≡ "github_pr_rework_dispatch"
  pub run_id : ℕ
  pub of_run : event.run_id ≡ some run_id
  pub claim : IsClaim task_id at_time round run_id (json_payload event.payload)

later_claim :
    (e : Event) (es : List Event) (task_id : String) (at_time round : Value)
    → IsClaimed es task_id at_time round
    → IsClaimed (e ∷ es) task_id at_time round
later_claim e es task_id at_time round c = record {
  event = c.event;
  listed = Memᴰ.tail c.listed;
  of_task = c.of_task;
  of_kind = c.of_kind;
  run_id = c.run_id;
  of_run = c.of_run;
  claim = c.claim;
}

or_later-true : (r s : Result Bool) → or_later r s ≡ ok true → (r ≡ ok true) ⊎ (s ≡ ok true)
or_later-true (err text) s h = cc
or_later-true (ok true) s h = inl refl
or_later-true (ok false) s h = inr h

or_later-false : (r s : Result Bool) → or_later r s ≡ ok false → (r ≡ ok false) × (s ≡ ok false)
or_later-false (err text) s h = cc
or_later-false (ok true) s h = cc
or_later-false (ok false) s h = (refl, h)

abbrev asked : String → Event → Bool
asked task_id e = e.task_id == task_id && e.kind == rework_dispatch_provenance_kind

module _ (task_id : String) (at_time round : Integer) where
  abbrev Claims : List Event → Type 0
  Claims events = IsClaimed events task_id (literal at_time) (literal round)

  bootstrap_rows_sound :
      (events : List Event) → bootstrap_rows task_id at_time round events ≡ ok true → Claims events
  unfolding bootstrap_rows
  bootstrap_rows_sound [] h = cc
  bootstrap_rows_sound (e ∷ es) h = elim (Bool-cases (asked task_id e)) [
    | inr other ↦ later_claim e es task_id _ _ (bootstrap_rows_sound es (rw other at h))
    | inl mine ↦ elim (or_later-true _ _ (rw mine at h)) [
      | inr rest ↦ later_claim e es task_id _ _ (bootstrap_rows_sound es rest)
      | inl now ↦
          let (task, kind) = and-parts _ _ mine in
          let (n, run, claim) =
            bootstrap_row_sound task_id at_time round e.run_id (json_payload e.payload) now in
          record {
            event = e;
            listed = Memᴰ.head refl;
            of_task = (text_comparable.same_iff e.task_id task_id).0 task;
            of_kind = (text_comparable.same_iff e.kind rework_dispatch_provenance_kind).0 kind;
            run_id = n;
            of_run = run;
            claim = claim;
          }
    ]
  ]

  no_rest :
      (e : Event) (es : List Event)
      → bootstrap_rows task_id at_time round (e ∷ es) ≡ ok false
      → bootstrap_rows task_id at_time round es ≡ ok false
  unfolding bootstrap_rows
  no_rest e es h = elim (Bool-cases (asked task_id e)) [
    | inr other ↦ rw other at h
    | inl mine ↦ (or_later-false _ _ (rw mine at h)).1
  ]

  not_first :
      (e : Event) (es : List Event)
      → bootstrap_rows task_id at_time round (e ∷ es) ≡ ok false
      → e.task_id ≡ task_id
      → e.kind ≡ "github_pr_rework_dispatch"
      → ¬ RowClaims task_id at_time round e.run_id (json_payload e.payload)
  unfolding bootstrap_rows
  not_first e es h task kind claim =
      let of_task : (e.task_id == task_id) ≡ true =
        (text_comparable.same_iff e.task_id task_id).1 task in
      let of_kind : (e.kind == rework_dispatch_provenance_kind) ≡ true =
        (text_comparable.same_iff e.kind rework_dispatch_provenance_kind).1 kind in
      let (silent, rest) =
        or_later-false (bootstrap_row task_id at_time round e.run_id (json_payload e.payload))
          (bootstrap_rows task_id at_time round es) (rw (of_task, of_kind) at h) in
      cc (
        silent,
        bootstrap_row_complete task_id at_time round e.run_id (json_payload e.payload) claim,
      )

  bootstrap_rows_complete :
      (events : List Event)
      → bootstrap_rows task_id at_time round events ≡ ok false
      → ¬ Claims events
  bootstrap_rows_complete [] h c = absurd (Memᴰ.not-nil c.listed)
  bootstrap_rows_complete (e ∷ es) h c = elim (Memᴰ.cases_cons c.listed) [
    | inl same ↦
        not_first e es h (subst (λ q. q.task_id ≡ task_id) same c.of_task)
          (subst (λ q. q.kind ≡ "github_pr_rework_dispatch") same c.of_kind)
          (subst (λ q. RowClaims task_id at_time round q.run_id (json_payload q.payload)) same
            (c.run_id, c.of_run, c.claim))
    | inr m ↦ bootstrap_rows_complete es (no_rest e es h) (record {
      event = c.event;
      listed = m;
      of_task = c.of_task;
      of_kind = c.of_kind;
      run_id = c.run_id;
      of_run = c.of_run;
      claim = c.claim;
    })
  ]

-- The round counts from 1, its time is an integer, and an event claimed it.
pub record IsBootstrapped (events : List Event) (task_id : String) (at_time round : Value)
    : Type 0 where
  pub stamp : Integer
  pub timed : whole at_time ≡ some stamp
  pub count : ℕ
  pub counted : round ≡ int (suc count)
  pub claimed : IsClaimed events task_id at_time round

-- A payload that raises leaves no answer.
abbrev pub Verdict : List Event → String → Value → Value → Result Bool → Type 0
Verdict events task_id at_time round (err text) = Unit
Verdict events task_id at_time round (ok true) = IsBootstrapped events task_id at_time round
Verdict events task_id at_time round (ok false) = ¬ IsBootstrapped events task_id at_time round

positive-suc : (n : Integer) → positive n ≡ true → (k : ℕ) × (n ≡ pos (suc k))
positive-suc (pos zero) h = cc
positive-suc (pos (suc k)) h = (k, refl)
positive-suc (negsuc k) h = cc

module _ (events : List Event) (task_id : String) (at_time round : Value) where
  backed :
      (stamp n : Integer)
      → whole at_time ≡ some stamp
      → whole round ≡ some n
      → positive n ≡ true
      → bootstrap_rows task_id stamp n events ≡ ok true
      → IsBootstrapped events task_id at_time round
  backed stamp n t r counts h =
      let (k, e) = positive-suc n counts in
      let time : literal stamp ≡ at_time = sym (whole-literal stamp at_time t) in
      let count : literal n ≡ round = sym (whole-literal n round r) in
      record {
        stamp = stamp;
        timed = t;
        count = k;
        counted = sym count ∙ ap literal e;
        claimed =
            subst (λ v. IsClaimed events task_id at_time v) count
              (subst (λ v. IsClaimed events task_id v (literal n)) time
                (bootstrap_rows_sound task_id stamp n events h));
      }

  answered :
      (t r : Option Integer)
      → whole at_time ≡ t
      → whole round ≡ r
      → Verdict events task_id at_time round (with_round task_id events t r)
  answered none r t_is r_is = λ b. cc (t_is, b.timed)
  answered (some stamp) none t_is r_is = λ b. cc (r_is, ap whole b.counted)
  answered (some stamp) (some n) t_is r_is = elim (Bool-cases (positive n)) [
    | inr uncounted ↦ rw uncounted (λ b.
        let e : n ≡ pos (suc b.count) = some_injective (sym r_is ∙ ap whole b.counted) in
        cc (uncounted, ap positive e))
    | inl counts ↦ rw counts (by_rows counts (bootstrap_rows task_id stamp n events) refl)
  ]
    where
      by_rows :
          positive n ≡ true
          → (v : Result Bool) → bootstrap_rows task_id stamp n events ≡ v
          → Verdict events task_id at_time round v
      by_rows counts (err text) e = tt
      by_rows counts (ok true) e = backed stamp n t_is r_is counts e
      by_rows counts (ok false) e = λ b. bootstrap_rows_complete task_id stamp n events e (
          subst (λ v. IsClaimed events task_id v (literal n)) (whole-literal stamp at_time t_is)
            (subst (λ v. IsClaimed events task_id at_time v) (whole-literal n round r_is)
              b.claimed))

pub has_round_bootstrap-Verdict :
    (events : List Event) (task_id : String) (rework_at rework_round : Value)
    → Verdict events task_id rework_at rework_round
        (has_round_bootstrap events task_id rework_at rework_round)
unfolding has_round_bootstrap
has_round_bootstrap-Verdict events task_id rework_at rework_round =
    answered events task_id rework_at rework_round (whole rework_at) (whole rework_round) refl refl

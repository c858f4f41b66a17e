-- ===== src/Signals/Provenance/Payloads.antt =====
-- The test of one event: it accepts just the claims of the round for the run of the event.
use mathlib.Core.Logic.{⊎_elim}
use hermes_n8n_control_plane.Prelude.{
  ℕ, String, ◌≡◌, ◌⊎◌, inl, inr, refl, ap, Bool, true, false, ◌&&◌, ◌||◌, Option, none, some,
  text_comparable, number_comparable, and-parts, Result, ok, err, Bool-cases, ok_injective, ◌>>=◌,
}
use hermes_n8n_control_plane.Json.{
  Value, Fields, null, bool, int, negative, float, str, obj, arr, get,
}
use hermes_n8n_control_plane.Router.Deliveries.Capping.{Integer, pos, negsuc}
use hermes_n8n_control_plane.Signals.{integer_beq}
use hermes_n8n_control_plane.Signals.Provenance.{
  rework_dispatch_provenance_source, whole, is_text, is_whole, claimed_phase, same_run,
  bootstrap_row,
}

-- The payload of a claim of the round by the edge, for the run.
pub record IsClaim (task_id : String) (at_time round : Value) (run_id : ℕ) (p : Fields)
    : Type 0 where
  pub source : get "source" p ≡ str "github_edge_rework_dispatch"
  pub task : get "task_id" p ≡ str task_id
  pub phase : (get "phase" p ≡ str "claimed") ⊎ (get "phase" p ≡ str "spawned")
  pub time : get "rework_event_at" p ≡ at_time
  pub of_round : get "rework_round" p ≡ round
  pub run : get "run_id" p ≡ int run_id

is_text_sound : (text : String) (v : Value) → is_text text v ≡ true → v ≡ str text
is_text_sound text (Value.str s) h = ap str ((text_comparable.same_iff s text).0 h)
is_text_sound text null h = cc
is_text_sound text (bool b) h = cc
is_text_sound text (int n) h = cc
is_text_sound text (negative n) h = cc
is_text_sound text (float t) h = cc
is_text_sound text (obj p) h = cc
is_text_sound text (arr vs) h = cc

integer_beq_sound : (m n : Integer) → integer_beq m n ≡ true → m ≡ n
integer_beq_sound (pos a) (pos b) h = ap pos ((number_comparable.same_iff a b).0 h)
integer_beq_sound (negsuc a) (negsuc b) h = ap negsuc ((number_comparable.same_iff a b).0 h)
integer_beq_sound (pos a) (negsuc b) h = cc
integer_beq_sound (negsuc a) (pos b) h = cc

abbrev pub literal : Integer → Value
literal (pos n) = int n
literal (negsuc n) = negative n

is_whole_sound : (n : Integer) (v : Value) → is_whole n v ≡ true → v ≡ literal n
is_whole_sound n (int k) h = ap literal (integer_beq_sound (pos k) n h)
is_whole_sound n (negative k) h = ap literal (integer_beq_sound (negsuc k) n h)
is_whole_sound n null h = cc
is_whole_sound n (bool b) h = cc
is_whole_sound n (float t) h = cc
is_whole_sound n (Value.str s) h = cc
is_whole_sound n (obj p) h = cc
is_whole_sound n (arr vs) h = cc

pub some_injective : {m n : Integer} → some m ≡ some n → m ≡ n
some_injective h = cc

pub whole-literal : (n : Integer) (v : Value) → whole v ≡ some n → v ≡ literal n
whole-literal n (int k) h = ap literal (some_injective h)
whole-literal n (negative k) h = ap literal (some_injective h)
whole-literal n null h = cc
whole-literal n (bool b) h = cc
whole-literal n (float t) h = cc
whole-literal n (Value.str s) h = cc
whole-literal n (obj p) h = cc
whole-literal n (arr vs) h = cc

is_text_self : (text : String) (v : Value) → v ≡ str text → is_text text v ≡ true
is_text_self text v e = rw e ((text_comparable.same_iff text text).1 refl)

is_whole_self : (n : Integer) (v : Value) → v ≡ literal n → is_whole n v ≡ true
is_whole_self (pos n) v e = rw e ((number_comparable.same_iff n n).1 refl)
is_whole_self (negsuc n) v e = rw e ((number_comparable.same_iff n n).1 refl)

or-cases : (a b : Bool) → (a || b) ≡ true → (a ≡ true) ⊎ (b ≡ true)
or-cases true b h = inl refl
or-cases false b h = inr h

abbrev InPhase : Value → Type 0
InPhase v = (v ≡ str "claimed") ⊎ (v ≡ str "spawned")

tests-InPhase : (v : Value) → (is_text "claimed" v || is_text "spawned" v) ≡ true → InPhase v
tests-InPhase v h =
    ⊎_elim (λ c. inl (is_text_sound "claimed" v c)) (λ s. inr (is_text_sound "spawned" v s))
      (or-cases _ _ h)

claimed_phase_sound : (v : Value) → claimed_phase v ≡ ok true → InPhase v
claimed_phase_sound (obj p) h = cc
claimed_phase_sound (arr vs) h = cc
claimed_phase_sound null h = cc
claimed_phase_sound (bool b) h = cc
claimed_phase_sound (int n) h = cc
claimed_phase_sound (negative n) h = cc
claimed_phase_sound (float t) h = cc
claimed_phase_sound (Value.str s) h = tests-InPhase (str s) (ok_injective h)

claimed_phase_complete : (v : Value) → InPhase v → claimed_phase v ≡ ok true
claimed_phase_complete v (inl e) = rw e refl
claimed_phase_complete v (inr e) = rw e refl

same_run_sound :
    (o : Option ℕ) (v : Value) → same_run o v ≡ true → (n : ℕ) × (o ≡ some n) × (v ≡ int n)
same_run_sound none v h = cc
same_run_sound (some n) v h = (n, refl, is_whole_sound (pos n) v h)

four_parts :
    (a b c d : Bool)
    → ok (a && b && c && d) ≡ ok true
    → (a ≡ true) × (b ≡ true) × (c ≡ true) × (d ≡ true)
four_parts a b c d h =
    let (abc, last) = and-parts (a && b && c) d (ok_injective h) in
    let (ab, third) = and-parts (a && b) c abc in
    let (first, second) = and-parts a b ab in (first, second, third, last)

phase_parts :
    (r : Result Bool) (b c d : Bool)
    → (r >>= λ inside. ok (inside && b && c && d)) ≡ ok true
    → (r ≡ ok true) × (b ≡ true) × (c ≡ true) × (d ≡ true)
phase_parts (err text) b c d h = cc
phase_parts (ok inside) b c d h =
    let (first, second, third, last) = four_parts inside b c d h in
    (ap ok first, second, third, last)

module _ (task_id : String) (at_time round : Integer) where
  -- The row claims the round: its run stands in the payload.
  abbrev pub RowClaims : Option ℕ → Fields → Type 0
  RowClaims o p = (n : ℕ) × (o ≡ some n) × IsClaim task_id (literal at_time) (literal round) n p

  pub bootstrap_row_sound :
      (o : Option ℕ) (p : Fields)
      → bootstrap_row task_id at_time round o p ≡ ok true
      → RowClaims o p
  unfolding bootstrap_row
  bootstrap_row_sound o p h =
      elim (Bool-cases (is_text rework_dispatch_provenance_source (get "source" p))) [
        | inr other ↦ absurd (cc (rw other at h))
        | inl source ↦ elim (Bool-cases (is_text task_id (get "task_id" p))) [
          | inr other ↦ absurd (cc (rw (source, other) at h))
          | inl task ↦
              let (in_phase, time, of_round, run) =
                phase_parts (claimed_phase (get "phase" p))
                  (is_whole at_time (get "rework_event_at" p))
                  (is_whole round (get "rework_round" p)) (same_run o (get "run_id" p))
                  (rw (source, task) at h) in
              let (n, has_run, run_said) = same_run_sound o (get "run_id" p) run in
              (
                n,
                has_run,
                record {
                  source = is_text_sound rework_dispatch_provenance_source (get "source" p) source;
                  task = is_text_sound task_id (get "task_id" p) task;
                  phase = claimed_phase_sound (get "phase" p) in_phase;
                  time = is_whole_sound at_time (get "rework_event_at" p) time;
                  of_round = is_whole_sound round (get "rework_round" p) of_round;
                  run = run_said;
                },
              )
        ]
      ]

  pub bootstrap_row_complete :
      (o : Option ℕ) (p : Fields)
      → RowClaims o p
      → bootstrap_row task_id at_time round o p ≡ ok true
  unfolding bootstrap_row
  bootstrap_row_complete o p (n, e, c) =
      rw
        (
          e,
          is_text_self rework_dispatch_provenance_source (get "source" p) c.source,
          is_text_self task_id (get "task_id" p) c.task,
          claimed_phase_complete (get "phase" p) c.phase,
          is_whole_self at_time (get "rework_event_at" p) c.time,
          is_whole_self round (get "rework_round" p) c.of_round,
          is_whole_self (pos n) (get "run_id" p) c.run,
        )
        refl

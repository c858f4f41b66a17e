-- ===== src/Signals/Asked.antt =====
-- The comments that the searches look for, said without the code, and that one round accepts just these.
use mathlib.Core.List.{Memᴰ}
use mathlib.Core.List.Memᴰ
use hermes_n8n_control_plane.Prelude.{
  ℕ, suc, ◌<◌, String, ◌≡◌, ◌↔◌, inl, inr, refl, sym, ap, subst, ◌∙◌, zero, Memᴰ-cons, true, not,
  Option, none, some, List, [], ◌∷◌, ◌==◌, text_comparable, codes_comparable, codes_beq_iff, codes,
  number_comparable, any, and-parts, Bool-cases, ok, arith,
}
use hermes_n8n_control_plane.Json.{
  Value, Fields, null, bool, int, negative, float, str, obj, arr, get,
}
use hermes_n8n_control_plane.Router.Deliveries.Capping.{Integer, pos, negsuc}
use hermes_n8n_control_plane.Router.Events.{text_or_empty}
use hermes_n8n_control_plane.Signals.Lines.{stripped_lines, same_lines}
use hermes_n8n_control_plane.Signals.{
  Clock, Signal, Ask, trusted_github_actors, parse_iso_ts, author_of, as_integer, integer_beq,
  integer_lt, in_set, fresh_number, fresh_positive, timely, accepts, signal_of, signal_by,
  signal_in, retry_ask, supersede_ask,
}
use Prim.Native.String.{◌++◌ as joins}

-- The order of the integers.
abbrev pub Before : Integer → Integer → Type 0
Before (pos a) (pos b) = a < b
Before (pos a) (negsuc b) = ⊥
Before (negsuc a) (pos b) = Unit
Before (negsuc a) (negsuc b) = b < a

-- What a search looks for in a comment beside its author.
pub record Wanted : Type 1 where
  pub InTime : Integer → Type 0
  pub Fresh : Value → Type 0
  pub lines : List (List ℕ)

-- The comment is by the maintainer, at a time and with an id that are wanted, and its lines are those
-- wanted and no others; the signal says so.
pub record IsSignal (clock : Clock) (wanted : Wanted) (c : Value) (s : Signal) : Type 0 where
  pub comment : Fields
  pub is_comment : c ≡ obj comment
  pub trusted : author_of clock comment ≡ ok "rhgo1749"
  pub time : Integer
  pub timed : parse_iso_ts clock (get "created_at" comment) ≡ some time
  pub in_time : wanted.InTime time
  pub fresh : wanted.Fresh (get "id" comment)
  pub exact : stripped_lines (text_or_empty clock.render (get "body" comment)) ≡ wanted.lines
  pub gives : s ≡ record { comment_id = get "id" comment; author = "rhgo1749"; created_at = time }

-- A retry comes after the baseline, under an integer that was not consumed.
abbrev pub wanted_retry : String → Integer → List Integer → Wanted
wanted_retry task_id baseline consumed = record {
  InTime = λ t. Before baseline t;
  Fresh = λ v. (n : Integer) × (as_integer v ≡ some n) × (¬ Memᴰ n consumed);
  lines = codes "AGENT_REWORK_RETRY" ∷ codes (joins "task=" task_id) ∷ [];
}

-- A supersede comes at the baseline or after it, under a positive integer that was not consumed.
abbrev pub wanted_supersede : String → String → Integer → List Integer → Wanted
wanted_supersede pr_text task_id baseline consumed = record {
  InTime = λ t. ¬ Before t baseline;
  Fresh = λ v. (k : ℕ) × (v ≡ int (suc k)) × (¬ Memᴰ (pos (suc k)) consumed);
  lines =
      codes "AGENT_PR_SUPERSEDE"
      ∷ codes (joins "pr=" (joins pr_text (joins " task=" task_id)))
      ∷ [];
}

-- The tests of a search are those of what is wanted.
pub record Tests (ask : Ask) (wanted : Wanted) : Type 0 where
  pub time_iff : (t : Integer) → (ask.in_time t ≡ true) ↔ wanted.InTime t
  pub id_iff : (v : Value) → (ask.id_ok v ≡ true) ↔ wanted.Fresh v
  pub same : ask.lines ≡ wanted.lines

integer_lt-Before : (a b : Integer) → (integer_lt a b ≡ true) ↔ Before a b
integer_lt-Before (pos a) (pos b) = ground arith
integer_lt-Before (pos a) (negsuc b) = (λ h. cc, λ h. absurd h)
integer_lt-Before (negsuc a) (pos b) = (λ h. tt, λ h. refl)
integer_lt-Before (negsuc a) (negsuc b) = ground arith

not-Before : (a b : Integer) → (not (integer_lt a b) ≡ true) ↔ (¬ Before a b)
not-Before a b = elim (Bool-cases (integer_lt a b)) [
  | inl less ↦ rw less (λ h. cc, λ h. absurd (h ((integer_lt-Before a b).0 less)))
  | inr more ↦
      rw more (λ _ k. let wrong = (integer_lt-Before a b).1 k in cc (more, wrong), λ h. refl)
]

integer_beq_iff : (m n : Integer) → (integer_beq m n ≡ true) ↔ (m ≡ n)
integer_beq_iff (pos a) (pos b) = ground (arith)
integer_beq_iff (negsuc a) (negsuc b) = ground (arith)
integer_beq_iff (pos a) (negsuc b) = (λ h. cc, λ h. cc)
integer_beq_iff (negsuc a) (pos b) = (λ h. cc, λ h. cc)

in_set-Memᴰ : (n : Integer) (ks : List Integer) → (in_set n ks ≡ true) ↔ Memᴰ n ks
in_set-Memᴰ n [] = (λ h. cc, λ m. absurd (Memᴰ.not-nil m))
in_set-Memᴰ n (k ∷ ks) = ground (arith, integer_beq_iff k n, Memᴰ-cons n k ks, in_set-Memᴰ n ks)

not-in_set : (n : Integer) (ks : List Integer) → (not (in_set n ks) ≡ true) ↔ (¬ Memᴰ n ks)
not-in_set n ks = elim (Bool-cases (in_set n ks)) [
  | inl inside ↦ rw inside (λ h. cc, λ h. absurd (h ((in_set-Memᴰ n ks).0 inside)))
  | inr outside ↦
      rw outside (λ _ m. let wrong = (in_set-Memᴰ n ks).1 m in cc (outside, wrong), λ h. refl)
]

some_integer : {m n : Integer} → some m ≡ some n → m ≡ n
some_integer h = cc

fresh_number_iff :
    (consumed : List Integer) (o : Option Integer)
    → (fresh_number consumed o ≡ true) ↔ ((n : Integer) × (o ≡ some n) × (¬ Memᴰ n consumed))
fresh_number_iff consumed none = (λ h. cc, λ (n, e, _). cc)
fresh_number_iff consumed (some k) = (
  λ h. (k, refl, (not-in_set k consumed).0 h),
  λ (n, same, outside).
      (not-in_set k consumed).1 (λ m. outside (subst (λ j. Memᴰ j consumed) (some_integer same) m)),
)

pub retry-Tests :
    (task_id : String) (baseline : Integer) (consumed : List Integer)
    → Tests (retry_ask task_id baseline consumed) (wanted_retry task_id baseline consumed)
retry-Tests task_id baseline consumed = record {
  time_iff = λ t. integer_lt-Before baseline t;
  id_iff = λ v. fresh_number_iff consumed (as_integer v);
  same = refl;
}

int_injective : {m n : ℕ} → int m ≡ int n → m ≡ n
int_injective h = cc

fresh_positive_iff :
    (consumed : List Integer) (v : Value)
    → (fresh_positive consumed v ≡ true)
      ↔ ((k : ℕ) × (v ≡ int (suc k)) × (¬ Memᴰ (pos (suc k)) consumed))
fresh_positive_iff consumed (int zero) =
    (λ h. cc, λ (k, e, _). let wrong : 0 ≡ suc k = int_injective e in absurd (omega (arith, wrong)))
fresh_positive_iff consumed (int (suc n)) = (
  λ h. (n, refl, (not-in_set (pos (suc n)) consumed).0 h),
  λ (k, e, outside).
      (not-in_set (pos (suc n)) consumed).1
        (λ m. outside (subst (λ j. Memᴰ (pos j) consumed) (int_injective e) m)),
)
fresh_positive_iff consumed null = (λ h. cc, λ (k, e, _). cc)
fresh_positive_iff consumed (bool b) = (λ h. cc, λ (k, e, _). cc)
fresh_positive_iff consumed (negative n) = (λ h. cc, λ (k, e, _). cc)
fresh_positive_iff consumed (float t) = (λ h. cc, λ (k, e, _). cc)
fresh_positive_iff consumed (str t) = (λ h. cc, λ (k, e, _). cc)
fresh_positive_iff consumed (obj p) = (λ h. cc, λ (k, e, _). cc)
fresh_positive_iff consumed (arr vs) = (λ h. cc, λ (k, e, _). cc)

pub supersede-Tests :
    (pr_text task_id : String) (baseline : Integer) (consumed : List Integer)
    → Tests
        (supersede_ask pr_text task_id baseline consumed)
        (wanted_supersede pr_text task_id baseline consumed)
supersede-Tests pr_text task_id baseline consumed = record {
  time_iff = λ t. not-Before t baseline;
  id_iff = λ v. fresh_positive_iff consumed v;
  same = refl;
}

same_lines_iff : (xs ys : List (List ℕ)) → (same_lines xs ys ≡ true) ↔ (xs ≡ ys)
same_lines_iff xs ys =
    (same_lines_sound xs ys, λ e. subst (λ l. same_lines xs l ≡ true) e (same_lines_self xs))
  where
    same_lines_sound : (xs ys : List (List ℕ)) → same_lines xs ys ≡ true → xs ≡ ys
    same_lines_sound [] [] h = refl
    same_lines_sound [] (y ∷ ys) h = cc
    same_lines_sound (x ∷ xs) [] h = cc
    same_lines_sound (x ∷ xs) (y ∷ ys) h =
        let (first, rest) = and-parts _ _ h in
        let e : x ≡ y = (codes_beq_iff x y).0 first in
        let es : xs ≡ ys = same_lines_sound xs ys rest in cc

    same_lines_self : (xs : List (List ℕ)) → same_lines xs xs ≡ true
    same_lines_self [] = refl
    same_lines_self (x ∷ xs) = rw ((codes_beq_iff x x).1 refl, same_lines_self xs) refl

trusted_iff :
    (author : String)
    → (any (λ actor. actor == author) trusted_github_actors ≡ true) ↔ (author ≡ "rhgo1749")
trusted_iff author = ground (arith, text_comparable.same_iff "rhgo1749" author)

module _ (clock : Clock) (ask : Ask) (wanted : Wanted) (tests : Tests ask wanted) where
  timely-InTime :
      (o : Option Integer) → timely ask o ≡ true → (t : Integer) × (o ≡ some t) × wanted.InTime t
  timely-InTime none h = cc
  timely-InTime (some t) h = (t, refl, (tests.time_iff t).0 h)

  -- A comment that passes the tests is wanted.
  pub accepts-IsSignal :
      (comment : Fields) (author : String)
      → author_of clock comment ≡ ok author
      → accepts clock ask comment author ≡ true
      → IsSignal clock wanted (obj comment) (signal_of clock comment author)
  unfolding accepts
  accepts-IsSignal comment author e h =
      let (timed_id, lines) = and-parts _ _ h in
      let (trusted_time, id) = and-parts _ _ timed_id in
      let (trust, time) = and-parts _ _ trusted_time in
      let by : author ≡ "rhgo1749" = (trusted_iff author).0 trust in
      let (t, timed, in_time) = timely-InTime _ time in
      record {
        comment = comment;
        is_comment = refl;
        trusted = e ∙ ap ok by;
        time = t;
        timed = timed;
        in_time = in_time;
        fresh = (tests.id_iff (get "id" comment)).0 id;
        exact = (same_lines_iff _ ask.lines).0 lines ∙ tests.same;
        gives =
            rw timed
              (ap (λ a. record { comment_id = get "id" comment; author = a; created_at = t }) by);
      }

  accepts_wanted :
      (comment : Fields) (t : Integer)
      → parse_iso_ts clock (get "created_at" comment) ≡ some t
      → wanted.InTime t
      → wanted.Fresh (get "id" comment)
      → stripped_lines (text_or_empty clock.render (get "body" comment)) ≡ wanted.lines
      → accepts clock ask comment "rhgo1749" ≡ true
  unfolding accepts
  accepts_wanted comment t timed in_time fresh exact =
      rw
        (
          (trusted_iff "rhgo1749").1 refl,
          timed,
          (tests.time_iff t).1 in_time,
          (tests.id_iff (get "id" comment)).1 fresh,
          (same_lines_iff _ ask.lines).1 (exact ∙ sym tests.same),
        )
        refl

  -- A wanted comment is taken.
  pub signal_in_wanted :
      (c : Value) (s : Signal) → IsSignal clock wanted c s → signal_in clock ask c ≡ ok (some s)
  unfolding signal_in signal_by
  signal_in_wanted c s i =
      rw
        (
          i.is_comment,
          i.trusted,
          accepts_wanted i.comment i.time i.timed i.in_time i.fresh i.exact,
          i.timed,
        )
        (ap (λ q. ok (some q)) (sym i.gives))

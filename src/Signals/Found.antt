-- ===== src/Signals/Found.antt =====
-- What a search finds: the newest comment that is wanted, and none only when there is none.
use mathlib.Core.List.{append_assoc}
use hermes_n8n_control_plane.Prelude.{
  String, ◌≡◌, refl, ap, subst, ◌∙◌, Bool, true, false, Option, none, some, List, [], ◌∷◌, ◌++◌,
  if◌then◌else◌, All, All-append, Result, ok, err,
}
use hermes_n8n_control_plane.Json.{Value, Fields, null, bool, int, negative, float, str, obj, arr}
use hermes_n8n_control_plane.Router.Deliveries.Capping.{Integer}
use hermes_n8n_control_plane.Signals.Lines.{reversed}
use hermes_n8n_control_plane.Signals.{
  Clock, Signal, Ask, author_of, accepts, signal_of, signal_by, signal_in, or_next, first_signal,
  retry_ask, supersede_ask, find_rework_retry_signal, find_pr_supersede_signal,
}
use hermes_n8n_control_plane.Signals.Asked.{
  Wanted, IsSignal, wanted_retry, wanted_supersede, Tests, retry-Tests, supersede-Tests,
  accepts-IsSignal, signal_in_wanted,
}

-- The comment is no signal at all.
abbrev pub NoSignal : Clock → Wanted → Value → Type 0
NoSignal clock wanted c = (s : Signal) → ¬ IsSignal clock wanted c s

-- The comments, the oldest first, with one whose later ones are no signals.
pub record AfterAll (clock : Clock) (wanted : Wanted) (comments : List Value) (c : Value)
    : Type 0 where
  pub older : List Value
  pub newer : List Value
  pub split : comments ≡ older ++ c ∷ newer
  pub no_newer : All (NoSignal clock wanted) newer

-- None: no comment is wanted. Some: the newest wanted one. Raised: the author of a comment cannot be
-- read, and no later one is wanted.
abbrev pub Verdict : Clock → Wanted → List Value → Result (Option Signal) → Type 0
Verdict clock wanted comments (err text) =
    (comment : Fields) × (author_of clock comment ≡ err text)
    × AfterAll clock wanted comments (obj comment)
Verdict clock wanted comments (ok none) = All (NoSignal clock wanted) comments
Verdict clock wanted comments (ok (some s)) =
    (c : Value) × IsSignal clock wanted c s × AfterAll clock wanted comments c

module _ {ℓ} {A : Type ℓ} where
  reversed-append : (xs : List A) (x : A) → reversed (xs ++ x ∷ []) ≡ x ∷ reversed xs
  unfolding reversed
  reversed-append [] x = refl
  reversed-append (z ∷ xs) x = ap (λ l. l ++ z ∷ []) (reversed-append xs x)

  reversed-reversed : (xs : List A) → reversed (reversed xs) ≡ xs
  unfolding reversed
  reversed-reversed [] = refl
  reversed-reversed (x ∷ xs) =
      reversed-append (reversed xs) x ∙ ap (λ l. x ∷ l) (reversed-reversed xs)

module _ (clock : Clock) (wanted : Wanted) where
  -- A later comment that is no signal.
  one_newer :
      (c d : Value) (cs : List Value)
      → NoSignal clock wanted d
      → AfterAll clock wanted cs c
      → AfterAll clock wanted (cs ++ d ∷ []) c
  one_newer c d cs silent a = record {
    older = a.older;
    newer = a.newer ++ d ∷ [];
    split = ap (λ l. l ++ d ∷ []) a.split ∙ append_assoc a.older (c ∷ a.newer) (d ∷ []);
    no_newer = All-append (NoSignal clock wanted) a.newer (d ∷ []) a.no_newer (silent, tt);
  }

  newest_so_far : (d : Value) (ds : List Value) → AfterAll clock wanted (reversed (d ∷ ds)) d
  unfolding reversed
  newest_so_far d ds = record { older = reversed ds; newer = []; split = refl; no_newer = tt }

  passed_over :
      (d : Value) (cs : List Value) (r : Result (Option Signal))
      → NoSignal clock wanted d
      → Verdict clock wanted cs r
      → Verdict clock wanted (cs ++ d ∷ []) r
  passed_over d cs (err text) silent (comment, raises, a) =
      (comment, raises, one_newer (obj comment) d cs silent a)
  passed_over d cs (ok none) silent v =
      All-append (NoSignal clock wanted) cs (d ∷ []) v (silent, tt)
  passed_over d cs (ok (some s)) silent (c, signal, a) = (c, signal, one_newer c d cs silent a)

module _ (clock : Clock) (ask : Ask) (wanted : Wanted) (tests : Tests ask wanted) where
  -- What one round gives, by its cases.
  abbrev RoundOf : Value → Result (Option Signal) → Type 0
  RoundOf c (err text) =
      (comment : Fields) × (c ≡ obj comment) × (author_of clock comment ≡ err text)
  RoundOf c (ok none) = Unit
  RoundOf c (ok (some s)) = IsSignal clock wanted c s

  signal_by-RoundOf :
      (comment : Fields) (author : Result String)
      → author_of clock comment ≡ author
      → RoundOf (obj comment) (signal_by clock ask comment author)
  unfolding signal_by
  signal_by-RoundOf comment (err text) e = (comment, refl, e)
  signal_by-RoundOf comment (ok author) e = by_test (accepts clock ask comment author) refl
    where
      by_test :
          (b : Bool)
          → accepts clock ask comment author ≡ b
          → RoundOf (obj comment) (ok (if b then some (signal_of clock comment author) else none))
      by_test true h = accepts-IsSignal clock ask wanted tests comment author e h
      by_test false h = tt

  signal_in-RoundOf : (c : Value) → RoundOf c (signal_in clock ask c)
  unfolding signal_in
  signal_in-RoundOf null = tt
  signal_in-RoundOf (bool b) = tt
  signal_in-RoundOf (int n) = tt
  signal_in-RoundOf (negative n) = tt
  signal_in-RoundOf (float t) = tt
  signal_in-RoundOf (str t) = tt
  signal_in-RoundOf (arr vs) = tt
  signal_in-RoundOf (obj comment) = signal_by-RoundOf comment (author_of clock comment) refl

  -- A comment that a round goes on from is not wanted.
  silent-NoSignal : (c : Value) → signal_in clock ask c ≡ ok none → NoSignal clock wanted c
  silent-NoSignal c silent s i = cc (silent, signal_in_wanted clock ask wanted tests c s i)

  first_signal-Verdict :
      (ds : List Value) → Verdict clock wanted (reversed ds) (first_signal clock ask ds)
  unfolding first_signal reversed
  first_signal-Verdict [] = tt
  first_signal-Verdict (d ∷ ds) =
      by_round (signal_in clock ask d) refl (signal_in-RoundOf d) (first_signal-Verdict ds)
    where
      by_round :
          (r : Result (Option Signal))
          → signal_in clock ask d ≡ r
          → RoundOf d r
          → Verdict clock wanted (reversed ds) (first_signal clock ask ds)
          → Verdict clock wanted (reversed (d ∷ ds)) (or_next r (first_signal clock ask ds))
      by_round (err text) e (comment, same, raises) v = (
        comment,
        raises,
        subst (λ c. AfterAll clock wanted (reversed (d ∷ ds)) c) same
            (newest_so_far clock wanted d ds),
      )
      by_round (ok none) e round v =
          passed_over clock wanted d (reversed ds) (first_signal clock ask ds) (silent-NoSignal d e)
            v
      by_round (ok (some s)) e signal v = (d, signal, newest_so_far clock wanted d ds)

  pub searched-Verdict :
      (comments : List Value)
      → Verdict clock wanted comments (first_signal clock ask (reversed comments))
  searched-Verdict comments =
      subst (λ l. Verdict clock wanted l (first_signal clock ask (reversed comments)))
        (reversed-reversed comments) (first_signal-Verdict (reversed comments))

-- The retry that is found is the newest comment by the maintainer, later than the baseline and under an
-- integer that was not consumed, whose lines are the marker and the task and no others; when none is
-- found, no comment is such a retry. The search raises only where a comment's author cannot be read and
-- no later comment is such a retry.
pub find_rework_retry_signal-Verdict :
    (clock : Clock) (task_id : String) (baseline : Integer) (consumed : List Integer)
    (comments : List Value)
    → Verdict clock
        (wanted_retry task_id baseline consumed)
        comments
        (find_rework_retry_signal clock task_id baseline consumed comments)
unfolding find_rework_retry_signal
find_rework_retry_signal-Verdict clock task_id baseline consumed comments =
    searched-Verdict clock (retry_ask task_id baseline consumed)
      (wanted_retry task_id baseline consumed) (retry-Tests task_id baseline consumed) comments

-- The supersede signal that is found is the newest comment by the maintainer, not before the baseline,
-- with a positive id that was not consumed, whose lines are the marker and the pull request with the
-- task and no others; when none is found, no comment is such a signal. The search raises only where a
-- comment's author cannot be read and no later comment is such a signal.
pub find_pr_supersede_signal-Verdict :
    (clock : Clock) (pr_text task_id : String) (baseline : Integer) (consumed : List Integer)
    (comments : List Value)
    → Verdict clock
        (wanted_supersede pr_text task_id baseline consumed)
        comments
        (find_pr_supersede_signal clock pr_text task_id baseline consumed comments)
unfolding find_pr_supersede_signal
find_pr_supersede_signal-Verdict clock pr_text task_id baseline consumed comments =
    searched-Verdict clock (supersede_ask pr_text task_id baseline consumed)
      (wanted_supersede pr_text task_id baseline consumed)
      (supersede-Tests pr_text task_id baseline consumed) comments

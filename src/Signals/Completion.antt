-- ===== src/Signals/Completion.antt =====
-- `install_closed_completed_terminal_fallback`: a card parked for want of a linked pull request is done
-- when its issue was closed as completed by a trusted actor.
use hermes_n8n_control_plane.Prelude.{
  ℕ, String, ◌≡◌, ◌⊎◌, inl, inr, refl, subst, Bool, true, false, ◌&&◌, ◌||◌, Option, none, some,
  List, ◌==◌, text_comparable, codes_comparable, if◌then◌else◌, any, codes, casefold, and-parts,
  codes_beq_iff, eq_iff,
}
use hermes_n8n_control_plane.Json.{
  Value, Fields, null, bool, int, negative, float, str, obj, arr, get, get_or, truthy, str_of,
}
use hermes_n8n_control_plane.Router.Events.{text_or_empty}
use hermes_n8n_control_plane.Signals.{trusted_github_actors}

-- `GithubCompletionDecision`; pull requests are kept as they come.
pub record Decision : Type 0 where
  pub desired_status : Option String
  pub reason : String
  pub linked_pr_numbers : List ℕ
  pub pull_requests : List Value
  pub error : Option String

abbrev pub authoritative : Decision → Bool
authoritative d = elim d.error [ none ↦ true | some text ↦ false ]

-- A call of the GitHub client: a value, a GithubCompletionError, or another exception.
pub data Fetched {ℓ} (A : Type ℓ) : Type ℓ where
  fetched : A → Fetched A
  query_failed : String → Fetched A
  crashed : String → Fetched A

pub record Reader : Type 0 where
  pub render : Value → String
  pub fold_table : ℕ → List ℕ
  pub issue_text : String

abbrev pub has_text : Option String → String → Bool
has_text none s = false
has_text (some t) s = t == s

abbrev pub is_parked : Decision → Bool
is_parked d = authoritative d && has_text d.desired_status "review" && d.reason == "no_linked_pr"

-- `closed_by.get("login") or ""`
abbrev pub closer : Reader → Value → String
closer rd (obj user) = text_or_empty rd.render (get "login" user)
closer rd _ = ""

-- The state and the reason of the state, folded.
abbrev pub folded_state : Reader → Fields → List ℕ
folded_state rd issue = casefold rd.fold_table (str_of rd.render (get_or "state" issue (str "")))

abbrev pub folded_reason : Reader → Fields → List ℕ
folded_reason rd issue = casefold rd.fold_table (text_or_empty rd.render (get "state_reason" issue))

unfoldable pub closed_as_completed : Reader → Fields → Bool
unfolding casefold truthy str_of get get_or
closed_as_completed rd issue =
    folded_state rd issue == codes "closed"
    && folded_reason rd issue == codes "completed"
    && any (λ actor. actor == closer rd (get "closed_by" issue)) trusted_github_actors

abbrev pub completed_decision : Decision → Decision
completed_decision d = record {
  desired_status = some "done";
  reason = "trusted_issue_completed";
  linked_pr_numbers = d.linked_pr_numbers;
  pull_requests = d.pull_requests;
  error = none;
}

abbrev pub failed_decision : Decision → String → Decision
failed_decision d text = record {
  desired_status = none;
  reason = "github_query_failed";
  linked_pr_numbers = d.linked_pr_numbers;
  pull_requests = d.pull_requests;
  error = some text;
}

-- The read of the issue: one that is no mapping, or has no known state, is an error.
unfoldable pub by_issue : Reader → Decision → Fetched Value → Fetched Decision
unfolding closed_as_completed casefold str_of get_or
by_issue rd d (crashed text) = crashed text
by_issue rd d (query_failed text) = fetched (failed_decision d text)
by_issue rd d (fetched (obj issue)) =
    if folded_state rd issue == codes "open" || folded_state rd issue == codes "closed"
    then (if closed_as_completed rd issue then fetched (completed_decision d) else fetched d)
    else fetched (failed_decision d rd.issue_text)
by_issue rd d (fetched _) = fetched (failed_decision d rd.issue_text)

-- What follows the decision of the canonical verifier.
unfoldable pub after_decision : Reader → Fetched Value → Fetched Decision → Fetched Decision
unfolding by_issue
after_decision rd issue (query_failed text) = query_failed text
after_decision rd issue (crashed text) = crashed text
after_decision rd issue (fetched d) = if is_parked d then by_issue rd d issue else fetched d

-- `verify_completion`, on the answer of the original and the issue, which is read when it is needed.
unfoldable pub verify_completion : Reader → Fetched Decision → Fetched Value → Fetched Decision
unfolding after_decision
verify_completion rd original issue = after_decision rd issue original

-- The issue was closed as completed by a trusted actor.
pub record IsCompleted (rd : Reader) (issue : Fields) : Type 0 where
  pub is_closed : folded_state rd issue ≡ codes "closed"
  pub as_completed : folded_reason rd issue ≡ codes "completed"
  pub trusted :
      any (λ actor. actor == closer rd (get "closed_by" issue)) trusted_github_actors ≡ true

-- Whether the decision asks for the card to be done.
abbrev pub SaysDone : Fetched Decision → Type 0
SaysDone (fetched d) = has_text d.desired_status "done" ≡ true
SaysDone _ = ⊥

closed_as_completed-IsCompleted :
    (rd : Reader) (issue : Fields) → closed_as_completed rd issue ≡ true → IsCompleted rd issue
unfolding closed_as_completed
closed_as_completed-IsCompleted rd issue h =
    let (states, who) = and-parts _ _ h in
    let (closed, completed) = and-parts _ _ states in
    record {
      is_closed = (codes_beq_iff _ _).0 closed;
      as_completed = (codes_beq_iff _ _).0 completed;
      trusted = who;
    }

parked_not_done : (d : Decision) → is_parked d ≡ true → has_text d.desired_status "done" ≡ true → ⊥
parked_not_done d h k =
    let (auth_review, _) = and-parts _ _ h in
    let (_, review) = and-parts _ _ auth_review in differs d.desired_status review k
  where
    differs : (o : Option String) → has_text o "review" ≡ true → has_text o "done" ≡ true → ⊥
    differs none h k = cc
    differs (some t) h k =
        let e : t ≡ "review" = (eq_iff t "review").0 h in
        let wrong : false ≡ true = subst (λ (u : String). has_text (some u) "done" ≡ true) e k in cc

-- The issue that was read is closed as completed by a trusted actor.
abbrev pub ReadCompleted : Reader → Fetched Value → Type 0
ReadCompleted rd issue = (fs : Fields) × (issue ≡ fetched (obj fs)) × IsCompleted rd fs

by_issue-ReadCompleted :
    (rd : Reader) (d : Decision) (issue : Fetched Value)
    → is_parked d ≡ true
    → SaysDone (by_issue rd d issue)
    → ReadCompleted rd issue
unfolding by_issue
by_issue-ReadCompleted rd d (crashed text) parked h = absurd h
by_issue-ReadCompleted rd d (query_failed text) parked h = cc
by_issue-ReadCompleted rd d (fetched null) parked h = cc
by_issue-ReadCompleted rd d (fetched (bool b)) parked h = cc
by_issue-ReadCompleted rd d (fetched (int n)) parked h = cc
by_issue-ReadCompleted rd d (fetched (negative n)) parked h = cc
by_issue-ReadCompleted rd d (fetched (float t)) parked h = cc
by_issue-ReadCompleted rd d (fetched (str t)) parked h = cc
by_issue-ReadCompleted rd d (fetched (arr vs)) parked h = cc
by_issue-ReadCompleted rd d (fetched (obj fs)) parked h =
    by_tests (folded_state rd fs == codes "open" || folded_state rd fs == codes "closed")
      (closed_as_completed rd fs) refl h
  where
    by_tests :
        (known completed : Bool)
        → closed_as_completed rd fs ≡ completed
        → SaysDone (
            if known
            then (if completed then fetched (completed_decision d) else fetched d)
            else fetched (failed_decision d rd.issue_text))
        → ReadCompleted rd (fetched (obj fs))
    by_tests true true e h = (fs, refl, closed_as_completed-IsCompleted rd fs e)
    by_tests true false e h = absurd (parked_not_done d parked h)
    by_tests false completed e h = cc

-- The fallback says that a card is done only when the canonical verifier says so, or when that one
-- parked the card for want of a linked pull request and the issue that was read is closed as
-- completed by a trusted actor.
pub verify_completion-ReadCompleted :
    (rd : Reader) (original : Fetched Decision) (issue : Fetched Value)
    → SaysDone (verify_completion rd original issue)
    → SaysDone original
      ⊎ ((d : Decision) × (original ≡ fetched d) × (is_parked d ≡ true) × ReadCompleted rd issue)
unfolding verify_completion after_decision
verify_completion-ReadCompleted rd (query_failed text) issue h = absurd h
verify_completion-ReadCompleted rd (crashed text) issue h = absurd h
verify_completion-ReadCompleted rd (fetched d) issue h = by_parking (is_parked d) refl h
  where
    by_parking :
        (b : Bool)
        → is_parked d ≡ b
        → SaysDone (if b then by_issue rd d issue else fetched d)
        → SaysDone (fetched d)
          ⊎ ((e : Decision) × (fetched d ≡ fetched e)
              × (is_parked e ≡ true)
              × ReadCompleted rd issue)
    by_parking true e h = inr (d, refl, e, by_issue-ReadCompleted rd d issue e h)
    by_parking false e h = inl h

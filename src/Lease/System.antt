-- ===== src/Lease/System.antt =====
-- The lease controller of controller.py as a whole: requests, ends of background threads and
-- restarts, in any order. `_REQUEST_LOCK` makes each of them one step on the lease file.
use hermes_n8n_control_plane.Prelude.{
  ℕ, suc, String, ◌≢◌, Option, none, some, List, [], ◌∷◌, ◌==◌, text_comparable, Result, ok,
  if◌then◌else◌, contains,
}
use hermes_n8n_control_plane.Json.{Value}
use hermes_n8n_control_plane.Lease.Defs.{StateFile, Outcome, background, resume_pending}
use hermes_n8n_control_plane.Lease.Handlers.{do_post}

pub record System : Type 0 where
  pub file : StateFile
  pub threads : List String

-- A POST request with the UUID that it would draw, the end of a thread, or a new process.
pub data Event : Type 0 where
  posted : String → Option String → String → String → String → Event
  finished : String → Outcome → Event
  restarted : Option String → Event

abbrev pub occurs : String → List String → ℕ
occurs l [] = 0
occurs l (x ∷ xs) = if x == l then suc (occurs l xs) else occurs l xs

abbrev pub erase : String → List String → List String
erase l [] = []
erase l (x ∷ xs) = if x == l then xs else x ∷ erase l xs

abbrev pub with_started : Option String → List String → List String
with_started none threads = threads
with_started (some l) threads = l ∷ threads

abbrev pub resumed : Result (Option (String × String)) → List String
resumed (ok (some (lease, token))) = lease ∷ []
resumed _ = []

module _ (render : Value → String) where
  unfoldable pub step : System → Event → System
  step s (posted fresh token header path lease) =
      let served = do_post render fresh token header path lease s.file in
      record { file = served.file; threads = with_started served.started s.threads }
  step s (finished lease outcome) =
      if contains lease s.threads
      then record { file = background render lease outcome s.file; threads = erase lease s.threads }
      else s
  step s (restarted token) = record s { threads = resumed (resume_pending s.file token) }

  unfoldable pub run : System → List Event → System
  unfolding step
  run s [] = s
  run s (e ∷ es) = run (step s e) es

-- The event does not draw the lease.
abbrev pub IsOther : String → Event → Type 0
IsOther l (posted fresh _ _ _ _) = fresh ≢ l
IsOther l _ = Unit

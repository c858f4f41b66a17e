-- ===== src/Lease/Actuator.antt =====
-- The call of the intake actuator in controller.py: its address, one request, and the bounded retry
-- while the actuator answers that it is busy.
use hermes_n8n_control_plane.Prelude.{
  ℕ, zero, suc, ◌+◌, ◌≤◌, ◌≡◌, refl, String, Bool, true, false, not, ◌&&◌, Option, none, some, List,
  [], ◌∷◌, ◌==◌, number_comparable, text_comparable, leb, ltb, length, contains, Result, ok, err,
  if◌then◌else◌, arith,
}
use hermes_n8n_control_plane.Lease.Defs.{Outcome}

-- The parts that `urlparse` gives; the empty text where Python has `None`.
pub record ParsedUrl : Type 0 where
  pub scheme : String
  pub hostname : String
  pub port : Option ℕ
  pub username : String
  pub password : String
  pub query : String
  pub fragment : String
  pub path : String

unfoldable pub is_loopback_url : ParsedUrl → Bool
is_loopback_url p =
    contains p.scheme ("http" ∷ "https" ∷ [])
    && contains p.hostname ("127.0.0.1" ∷ "localhost" ∷ "::1" ∷ [])
    && p.username == ""
    && p.password == ""
    && p.query == ""
    && p.fragment == ""
    && contains p.path ("" ∷ "/" ∷ [])

unfoldable pub port_ok : Option ℕ → Bool
port_ok none = true
port_ok (some n) = leb 1 n && leb n 65535

-- `s.rstrip("/")`
unfoldable pub rstrip_slash : String → String
rstrip_slash String.[] = String.[]
rstrip_slash (String.◌∷◌ c s) =
    let rest = rstrip_slash s in if String.◌∷◌ c rest == "/" then String.[] else String.◌∷◌ c rest

-- `_validated_actuator_base_url` on the configured text and its parts, if it can be parsed.
unfoldable pub validated_actuator_base_url : String → Option ParsedUrl → Result String
unfolding is_loopback_url port_ok rstrip_slash
validated_actuator_base_url url none = err "LEASE_ACTUATOR_BASE_URL is malformed"
validated_actuator_base_url url (some p) =
    if not (is_loopback_url p)
    then err "LEASE_ACTUATOR_BASE_URL must be a loopback URL"
    else if not (port_ok p.port)
    then err "LEASE_ACTUATOR_BASE_URL has an invalid port"
    else ok (rstrip_slash url)

-- What one HTTP request comes to.
pub data Reply : Type 0 where
  response : ℕ → List ℕ → Reply
  http_error : ℕ → Reply
  transport_error : Reply

abbrev pub max_response_bytes : ℕ
max_response_bytes = 65536

-- `_call_actuator`
unfoldable pub call_actuator : Result String → Reply → Outcome
call_actuator (err e) reply = err e
call_actuator (ok base) (response status body) =
    if ltb max_response_bytes (length body)
    then err "intake actuator response is too large"
    else ok (status, body)
call_actuator (ok base) (http_error status) = ok (status, [])
call_actuator (ok base) transport_error = err "intake actuator request failed"

abbrev pub conflict : ℕ
conflict = 409

abbrev pub busy_retry_seconds : List ℕ
busy_retry_seconds = 1 ∷ 5 ∷ 15 ∷ 30 ∷ 60 ∷ 120 ∷ []

abbrev pub busy : Outcome → Bool
busy (ok (status, body)) = status == conflict
busy (err e) = false

-- The loop of `_call_actuator_serialized` from `attempt` on, over the delays that are left: the
-- outcome, and the seconds slept.
unfoldable pub retry : (ℕ → Outcome) → ℕ → List ℕ → Outcome × List ℕ
retry call attempt [] = (call attempt, [])
retry call attempt (d ∷ ds) =
    let rest = retry call (suc attempt) ds in
    if busy (call attempt) then (rest.0, d ∷ rest.1) else (call attempt, [])

-- `_call_actuator_serialized`
unfoldable pub call_actuator_serialized : (ℕ → Outcome) → Outcome × List ℕ
unfolding retry
call_actuator_serialized call = retry call 0 busy_retry_seconds

abbrev pub sum : List ℕ → ℕ
sum [] = 0
sum (x ∷ xs) = x + sum xs

-- Every attempt below n, counted from `first`, was answered busy.
abbrev pub AllBusy : (ℕ → Outcome) → ℕ → ℕ → Type 0
AllBusy call first zero = Unit
AllBusy call first (suc n) = (busy (call first) ≡ true) × AllBusy call (suc first) n

abbrev pub nth : (ℕ → Outcome) → ℕ → ℕ → Outcome
nth call first zero = call first
nth call first (suc n) = nth call (suc first) n

-- The result is that of the first attempt that is not busy, or of the last one.
pub record Retried (call : ℕ → Outcome) (first : ℕ) (delays slept : List ℕ) (out : Outcome)
    : Type 0 where
  pub bounded : length slept ≤ length delays
  pub total : sum slept ≤ sum delays
  pub earlier_busy : AllBusy call first (length slept)
  pub answer : out ≡ nth call first (length slept)
  pub gives_up : busy out ≡ true → length slept ≡ length delays

retry-Retried :
    (call : ℕ → Outcome) (first : ℕ) (ds : List ℕ)
    → Retried call first ds (retry call first ds).1 (retry call first ds).0
unfolding retry
retry-Retried call first [] = record {
  bounded = omega arith;
  total = omega arith;
  earlier_busy = tt;
  answer = refl;
  gives_up = λ _. refl;
}
retry-Retried call first (d ∷ ds) = ground (arith, retry-Retried call (suc first) ds)

-- `_call_actuator_serialized` sleeps at most six times and 231 seconds in all. Every attempt before
-- the last one made was answered 409, the result is the last attempt's, and a result of 409 is
-- returned only after all seven attempts.
pub call_actuator_serialized_bounded :
    (call : ℕ → Outcome)
    → let (out, slept) = call_actuator_serialized call in
      (length slept ≤ 6)
      × (sum slept ≤ 231)
      × AllBusy call 0 (length slept)
      × (out ≡ nth call 0 (length slept))
      × (busy out ≡ true → length slept ≡ 6)
unfolding call_actuator_serialized
call_actuator_serialized_bounded call =
    let r = retry-Retried call 0 busy_retry_seconds in
    (r.bounded, r.total, r.earlier_busy, r.answer, r.gives_up)

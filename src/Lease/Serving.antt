-- ===== src/Lease/Serving.antt =====
-- Who may change the lease file, and how a restart finds a trigger that has not ended.
use hermes_n8n_control_plane.Prelude.{
  String, ◌≡◌, refl, ◌≢◌, ◌⊎◌, not, true, Option, none, some, ◌==◌, text_comparable, ok, eq_iff,
  arith, strip, drop_prefix, Bool-cases, Option-cases, Result-cases, ne→beq, sym, ◌&&◌,
  ok_injective, subst, ◌∙◌, inl, inr,
}
use hermes_n8n_control_plane.Json.{Value, str, get}
use hermes_n8n_control_plane.Lease.Defs.{
  StateFile, load_state, write_state, lease_record, is_str, canonical_lease_id, read_token,
  resume_pending, resume_state,
}
use hermes_n8n_control_plane.Lease.Handlers.{Served, authorized, trigger, do_post}

-- The header carries the token of the token file.
pub record Bears (token : Option String) (header : String) : Type 0 where
  pub rest : String
  pub text : String
  pub prefix : drop_prefix "Bearer " header ≡ some rest
  pub file : token ≡ some text
  pub same : strip rest ≡ strip text
  pub nonempty : strip rest ≢ ""

read_token-ok :
    (token : Option String) (value : String)
    → read_token token ≡ ok value
    → (text : String) × (token ≡ some text) × (strip text ≡ value)
unfolding read_token
read_token-ok none value h = cc
read_token-ok (some text) value h = (text, refl, ground arith)

authorized_parts :
    (token : Option String) (header : String)
    → authorized token header ≡ true
    → (rest : String) × (value : String) × (drop_prefix "Bearer " header ≡ some rest)
      × (read_token token ≡ ok value)
      × (strip rest ≡ value)
      × (strip rest ≢ "")
unfolding authorized
authorized_parts token header h = elim (Option-cases (drop_prefix "Bearer " header)) [
  | inl missing ↦ cc (rw (missing, authorized) at h)
  | inr (rest, found) ↦ elim (Result-cases (read_token token)) [
    | inl (value, readable) ↦
        let tests : (not (strip rest == "") && strip rest == value) ≡ true =
          rw (found, readable, authorized) at h in
        (
          rest,
          value,
          found,
          readable,
          ground (arith, eq_iff (strip rest) value),
          λ e. ground (arith, eq_iff (strip rest) ""),
        )
    | inr (msg, e) ↦ cc (rw (found, e, authorized) at h)
  ]
]

-- A POST that changes the lease file or starts a thread bears the token of the token file.
pub post_needs_token :
    (render : Value → String) (fresh : String) (token : Option String) (header path lease : String)
    (file : StateFile)
    → let served = do_post render fresh token header path lease file in
      (served.file ≢ file) ⊎ (served.started ≢ none) → Bears token (strip header)
unfolding do_post
post_needs_token render fresh token header path lease file changed =
    elim (Bool-cases (authorized token (strip header))) [
      | inl granted ↦
          let (rest, value, found, readable, same, nonempty) =
            authorized_parts token (strip header) granted in
          let (text, present, stripped) = read_token-ok token value readable in
          record {
            rest = rest;
            text = text;
            prefix = found;
            file = present;
            same = same ∙ sym stripped;
            nonempty = nonempty;
          }
      | inr refused ↦ elim changed [
        | inl other ↦ absurd (other (rw refused))
        | inr started ↦ absurd (started (rw refused))
      ]
    ]

trigger_resumes_at :
    (l t : String) (token : Option String)
    → canonical_lease_id (str l) ≡ l
    → l ≢ ""
    → read_token token ≡ ok t
    → resume_pending (write_state (lease_record l "pending")) token ≡ ok (some (l, t))
unfolding resume_pending load_state write_state resume_state lease_record is_str get
trigger_resumes_at l t token canonical ne readable =
    let e : canonical_lease_id (get "lease" (lease_record l "pending")) ≡ l = canonical in
    rw (e, ne→beq l "" ne, readable, resume_state, e)

-- A new process resumes the trigger that was accepted last, if its thread had not ended: from the
-- file that `/trigger` leaves, the same lease is started again with the current token.
pub trigger_resumes :
    (l t : String) (token : Option String) (file : StateFile) (served : Served)
    → trigger l file ≡ ok served
    → canonical_lease_id (str l) ≡ l
    → l ≢ ""
    → read_token token ≡ ok t
    → resume_pending served.file token ≡ ok (some (l, t))
unfolding trigger
trigger_resumes l t token file served h canonical ne readable =
    elim (Result-cases (load_state file)) [
      | inl (state, e) ↦
          subst (λ (v : Served). resume_pending v.file token ≡ ok (some (l, t)))
            (ok_injective (rw e at h)) (trigger_resumes_at l t token canonical ne readable)
      | inr (msg, e) ↦ cc (rw e at h)
    ]

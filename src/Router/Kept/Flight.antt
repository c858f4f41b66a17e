-- ===== src/Router/Kept/Flight.antt =====
-- A claim that is in flight when the state is recovered is found again with its token.
use hermes_n8n_control_plane.Prelude.{
  ℕ, ◌+◌, String, ◌≡◌, refl, sym, ap, subst, ◌∙◌, true, false, some, List, [], ◌∷◌, ◌==◌,
  text_comparable, eq_iff, eq_refl, ltb, leb, any, All, arith, if◌then◌else◌, Bool-cases, inl, inr,
}
use hermes_n8n_control_plane.Router.Patterns.{Settings}
use hermes_n8n_control_plane.Router.State.{Claim, Live, encode_claims}
use hermes_n8n_control_plane.Router.Recovery.{put_claim, settle_claim, recover_claims}
use hermes_n8n_control_plane.Router.Operations.{find_claim}
use hermes_n8n_control_plane.Router.Known.{claim_is}
use hermes_n8n_control_plane.Router.Kept.Claims.{IsClaim}
use hermes_n8n_control_plane.Router.Kept.Settled.{any-put_claim}
use hermes_n8n_control_plane.Router.Kept.Recovered.{recover_claims-cons}

-- No two claims have the same id, as in a dict.
abbrev pub IsUnique : List Claim → Type 0
IsUnique [] = Unit
IsUnique (c ∷ cs) = (any (claim_is c.item.id) cs ≡ false) × IsUnique cs

pub IsUnique-put_claim : (c : Claim) (cs : List Claim) → IsUnique cs → IsUnique (put_claim c cs)
unfolding put_claim
IsUnique-put_claim c [] h = (refl, tt)
IsUnique-put_claim c (d ∷ ds) h = elim (Bool-cases (d.item.id == c.item.id)) [
  | inl same ↦
      rw same
        (subst (λ i. any (claim_is i) ds ≡ false) ((eq_iff d.item.id c.item.id).0 same) h.0, h.1)
  | inr other ↦ rw other (new other, IsUnique-put_claim c ds h.1)
]
  where
    new : (d.item.id == c.item.id) ≡ false → any (claim_is d.item.id) (put_claim c ds) ≡ false
    new other =
        rw (any-put_claim d.item.id c ds, h.0)
          (ground (arith, eq_iff d.item.id c.item.id, eq_iff c.item.id d.item.id))

pub find-put_claim :
    (id : String) (c : Claim) (cs : List Claim)
    → find_claim id (put_claim c cs) ≡ (if c.item.id == id then some c else find_claim id cs)
unfolding put_claim find_claim
find-put_claim id c [] = refl
find-put_claim id c (d ∷ ds) = ground (
  arith,
  find-put_claim id c ds,
  eq_iff d.item.id c.item.id,
  eq_iff d.item.id id,
  eq_iff c.item.id id,
)

-- Settling another claim does not touch this one.
find-settle_other :
    (st : Settings) (now : ℕ) (id : String) (d : Claim) (live : Live)
    → (d.item.id == id) ≡ false
    → find_claim id (settle_claim st now (some d) live).claims ≡ find_claim id live.claims
unfolding settle_claim
find-settle_other st now id d live other = elim (Bool-cases (ltb now d.claim_expires_at)) [
  | inl flying ↦ rw (flying, find-put_claim id d live.claims, other)
  | inr over ↦ elim (Bool-cases (leb st.scope_max_attempts (d.item.attempts + 1))) [
    | inl last ↦ rw (over, last)
    | inr more ↦ rw (over, more)
  ]
]

-- A claim that has not expired stands in the claims after it was settled.
find-settle_own :
    (st : Settings) (now : ℕ) (c : Claim) (live : Live)
    → ltb now c.claim_expires_at ≡ true
    → find_claim c.item.id (settle_claim st now (some c) live).claims ≡ some c
unfolding settle_claim
find-settle_own st now c live flying =
    rw (flying, find-put_claim c.item.id c live.claims, eq_refl c.item.id)

some_claim : {c d : Claim} → some c ≡ some d → c ≡ d
some_claim h = cc

module _ (st : Settings) (fresh : String → String) (now : ℕ) where
  IsUnique-settle :
      (c : Claim) (live : Live)
      → IsUnique live.claims
      → IsUnique (settle_claim st now (some c) live).claims
  unfolding settle_claim
  IsUnique-settle c live h = elim (Bool-cases (ltb now c.claim_expires_at)) [
    | inl flying ↦ rw flying (IsUnique-put_claim c live.claims h)
    | inr over ↦ elim (Bool-cases (leb st.scope_max_attempts (c.item.attempts + 1))) [
      | inl last ↦ rw (over, last) h
      | inr more ↦ rw (over, more) h
    ]
  ]

  -- The recovered claims are a dict again.
  pub IsUnique-recover_claims :
      (cs : List Claim) (live : Live)
      → All (IsClaim st now) cs
      → IsUnique live.claims
      → IsUnique (recover_claims st fresh now (encode_claims cs) live).claims
  IsUnique-recover_claims [] live h u = unfold recover_claims encode_claims in u
  IsUnique-recover_claims (c ∷ cs) live h u =
      subst (λ (out : Live). IsUnique out.claims)
        (sym (recover_claims-cons st fresh now c cs live h.0))
        (IsUnique-recover_claims cs (settle_claim st now (some c) live) h.1
          (IsUnique-settle c live u))

  find-recover_absent :
      (id : String) (cs : List Claim) (live : Live)
      → All (IsClaim st now) cs
      → any (claim_is id) cs ≡ false
      → find_claim id (recover_claims st fresh now (encode_claims cs) live).claims
        ≡ find_claim id live.claims
  find-recover_absent id [] live h absent = unfold recover_claims encode_claims in refl
  find-recover_absent id (c ∷ cs) live h absent =
      let other : (c.item.id == id) ≡ false = ground arith in
      let rest : any (claim_is id) cs ≡ false = ground arith in
      ap (λ (out : Live). find_claim id out.claims) (recover_claims-cons st fresh now c cs live h.0)
      ∙ find-recover_absent id cs (settle_claim st now (some c) live) h.1 rest
      ∙ find-settle_other st now id c live other

  -- A claim that has not expired is found again.
  pub find-recover_claims :
      (c : Claim) (cs : List Claim) (live : Live)
      → All (IsClaim st now) cs
      → IsUnique cs
      → ltb now c.claim_expires_at ≡ true
      → find_claim c.item.id cs ≡ some c
      → find_claim c.item.id (recover_claims st fresh now (encode_claims cs) live).claims ≡ some c
  find-recover_claims c [] live h u flying e = unfold find_claim in cc
  find-recover_claims c (d ∷ ds) live h u flying e =
      ap (λ (out : Live). find_claim c.item.id out.claims)
        (recover_claims-cons st fresh now d ds live h.0)
      ∙ elim (Bool-cases (d.item.id == c.item.id)) [
        | inl same ↦ mine same (found_first same)
        | inr other ↦
            find-recover_claims c ds (settle_claim st now (some d) live) h.1 u.1 flying
              (unfold find_claim in rw other at e)
      ]
    where
      found_first : (d.item.id == c.item.id) ≡ true → d ≡ c
      found_first same = unfold find_claim in some_claim (rw same at e)

      mine :
          (d.item.id == c.item.id) ≡ true
          → d ≡ c
          → find_claim c.item.id
              (recover_claims st fresh now
                (encode_claims ds)
                (settle_claim st now (some d) live)).claims
            ≡ some c
      mine same eq =
          let absent : any (claim_is c.item.id) ds ≡ false =
            subst (λ i. any (claim_is i) ds ≡ false) ((eq_iff d.item.id c.item.id).0 same) u.0 in
          find-recover_absent c.item.id ds (settle_claim st now (some d) live) h.1 absent
          ∙ subst
              (λ (k : Claim).
                find_claim c.item.id (settle_claim st now (some k) live).claims ≡ some c)
              (sym eq) (find-settle_own st now c live flying)

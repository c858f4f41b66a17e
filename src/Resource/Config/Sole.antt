-- ===== src/Resource/Config/Sole.antt =====
-- The choice of `resource_for_assignee`: one resource or none, whatever the order of the entries.
use mathlib.Core.List.{Permᴰ}
use hermes_n8n_control_plane.Prelude.{
  String, ◌≡◌, refl, sym, ap, ◌∙◌, subst, Bool, true, false, Option, none, some, List, [], ◌∷◌,
  ◌==◌, text_comparable, if◌then◌else◌, keep, strip, All, All-keep, Bool-cases, inl, inr,
}
use hermes_n8n_control_plane.Json.{Fields}
use hermes_n8n_control_plane.Resource.{done, ◌>>=◌, bind-done, done_injective}
use hermes_n8n_control_plane.Resource.Config.{
  Reader, WorkerResource, resource_matches, resource_policies, resource_for_assignee, resource_name,
  sole,
}
use hermes_n8n_control_plane.Resource.Config.Reading.{IsUsable, resource_policies-IsUsable}

-- The matching entries counted up to two: none, the only one, or several.
abbrev grow {ℓ} : {A : Type ℓ} → A → Option (Option A) → Option (Option A)
grow x (some none) = some (some x)
grow x _ = none

abbrev tally {ℓ} : {A : Type ℓ} → (A → Bool) → List A → Option (Option A)
tally p [] = some none
tally p (x ∷ xs) = let rest = tally p xs in if p x then grow x rest else rest

module _ {ℓ} {A : Type ℓ} where
  grow_comm : (x y : A) (t : Option (Option A)) → grow x (grow y t) ≡ grow y (grow x t)
  grow_comm x y none = refl
  grow_comm x y (some none) = refl
  grow_comm x y (some (some z)) = refl

  swapped :
      (b c : Bool) (x y : A) (t : Option (Option A))
      → (if b then grow x (if c then grow y t else t) else (if c then grow y t else t))
        ≡ (if c then grow y (if b then grow x t else t) else (if b then grow x t else t))
  swapped true true x y t = grow_comm x y t
  swapped true false x y t = refl
  swapped false true x y t = refl
  swapped false false x y t = refl

  tally-Permᴰ : (p : A → Bool) {xs ys : List A} → Permᴰ xs ys → tally p xs ≡ tally p ys
  tally-Permᴰ p Permᴰ.nil = refl
  tally-Permᴰ p (Permᴰ.cons {a} {b} {l₁} {l₂} e d) =
      subst (λ z. tally p (a ∷ l₁) ≡ tally p (z ∷ l₂)) e
        (ap (λ t. if p a then grow a t else t) (tally-Permᴰ p d))
  tally-Permᴰ p (Permᴰ.swap {a} {b} {a'} {b'} {l} e f) =
      subst (λ z. tally p (a ∷ b ∷ l) ≡ tally p (a' ∷ z ∷ l)) e
        (subst (λ z. tally p (a ∷ b ∷ l) ≡ tally p (z ∷ a ∷ l)) f
          (swapped (p a) (p b) a b (tally p l)))
  tally-Permᴰ p (Permᴰ.trans d e) = tally-Permᴰ p d ∙ tally-Permᴰ p e

-- The tally is the answer of `sole`.
abbrev told : List WorkerResource → Option (Option WorkerResource)
told [] = some none
told (r ∷ []) = some (some r)
told (r ∷ q ∷ rs) = none

told-cons : (r : WorkerResource) (rs : List WorkerResource) → told (r ∷ rs) ≡ grow r (told rs)
told-cons r [] = refl
told-cons r (q ∷ []) = refl
told-cons r (q ∷ s ∷ rs) = refl

told-keep : (p : WorkerResource → Bool) (rs : List WorkerResource) → told (keep p rs) ≡ tally p rs
told-keep p [] = refl
told-keep p (r ∷ rs) = go (p r) (told-keep p rs)
  where
    go :
        (b : Bool)
        → told (keep p rs) ≡ tally p rs
        → told (if b then r ∷ keep p rs else keep p rs)
          ≡ (if b then grow r (tally p rs) else tally p rs)
    go true h = told-cons r (keep p rs) ∙ ap (grow r) h
    go false h = h

sole→told :
    (rd : Reader) (name : String) (rs : List WorkerResource) (o : Option WorkerResource)
    → sole resource_name rd name rs ≡ done o
    → told rs ≡ some o
unfolding sole
sole→told rd name [] o h = ap some (done_injective h)
sole→told rd name (r ∷ []) o h = ap some (done_injective h)
sole→told rd name (r ∷ q ∷ rs) o h = cc

told→sole :
    (rd : Reader) (name : String) (rs : List WorkerResource) (o : Option WorkerResource)
    → told rs ≡ some o
    → sole resource_name rd name rs ≡ done o
unfolding sole
told→sole rd name [] o h = ap done (cc)
told→sole rd name (r ∷ []) o h = ap done (cc)
told→sole rd name (r ∷ q ∷ rs) o h = cc

pub blank_choice :
    (rd : Reader) (cfg : Fields) (a : String)
    → (strip a == "") ≡ true
    → resource_for_assignee rd cfg a ≡ done none
unfolding resource_for_assignee
blank_choice rd cfg a e = rw (e, resource_for_assignee)

pub named_choice :
    (rd : Reader) (cfg : Fields) (a : String) (rs : List WorkerResource)
    → (strip a == "") ≡ false
    → resource_policies rd cfg ≡ done rs
    → resource_for_assignee rd cfg a
      ≡ sole resource_name rd (strip a) (keep (λ r. resource_matches r (strip a)) rs)
unfolding resource_for_assignee ◌>>=◌
named_choice rd cfg a rs e h = rw (e, resource_for_assignee) (rw h)

-- The order of the configured resources does not matter: when two configurations yield the same
-- worker resources in any order and one of them answers an assignee with a resource or with none,
-- the other gives the same answer.
pub resource_for_assignee-perm :
    (rd : Reader) (cfg other_cfg : Fields) (rs qs : List WorkerResource) (a : String)
    (o : Option WorkerResource)
    → resource_policies rd cfg ≡ done rs
    → resource_policies rd other_cfg ≡ done qs
    → Permᴰ rs qs
    → resource_for_assignee rd cfg a ≡ done o
    → resource_for_assignee rd other_cfg a ≡ done o
resource_for_assignee-perm rd cfg other_cfg rs qs a o c d perm h =
    elim (Bool-cases (strip a == "")) [
      | inl blank ↦ blank_choice rd other_cfg a blank ∙ sym (blank_choice rd cfg a blank) ∙ h
      | inr named ↦
          named_choice rd other_cfg a qs named d
          ∙ told→sole rd (strip a) _ o (
              told-keep matched qs
              ∙ sym (tally-Permᴰ matched perm)
              ∙ sym (told-keep matched rs)
              ∙ sole→told rd (strip a) _ o (sym (named_choice rd cfg a rs named c) ∙ h))
    ]
  where
    matched : WorkerResource → Bool
    matched r = resource_matches r (strip a)

pub named_chain :
    (rd : Reader) (cfg : Fields) (a : String)
    → (strip a == "") ≡ false
    → resource_for_assignee rd cfg a ≡ (
        resource_policies rd cfg >>= λ rs.
        sole resource_name rd (strip a) (keep (λ r. resource_matches r (strip a)) rs))
unfolding resource_for_assignee
named_chain rd cfg a e = rw (e, resource_for_assignee)

sole-All {κ} :
    (P : WorkerResource → Type κ) (rd : Reader) (name : String) (rs : List WorkerResource)
    (r : WorkerResource)
    → sole resource_name rd name rs ≡ done (some r)
    → All P rs
    → P r
unfolding sole
sole-All P rd name [] r h ps = let wrong : none ≡ some r = done_injective h in cc
sole-All P rd name (q ∷ []) r h ps = subst (of_some P) (done_injective h) ps.0
  where
    of_some : (WorkerResource → Type κ) → Option WorkerResource → Type κ
    of_some P none = Unit
    of_some P (some q) = P q
sole-All P rd name (q ∷ s ∷ rs) r h ps = cc

-- The resource that is chosen was read from the configuration, and is usable.
pub resource_for_assignee-IsUsable :
    (rd : Reader) (cfg : Fields) (a : String) (r : WorkerResource)
    → resource_for_assignee rd cfg a ≡ done (some r)
    → IsUsable r
resource_for_assignee-IsUsable rd cfg a r h = elim (Bool-cases (strip a == "")) [
  | inl blank ↦
      let wrong : none ≡ some r = done_injective (sym (blank_choice rd cfg a blank) ∙ h) in cc
  | inr named ↦
      let (rs, read, chosen) = bind-done (sym (named_chain rd cfg a named) ∙ h) in
      sole-All IsUsable rd (strip a) _ r chosen (
        All-keep IsUsable (λ r. resource_matches r (strip a)) rs
          (resource_policies-IsUsable rd cfg rs read))
]

-- ===== src/Dynamic/Policies/Static.antt =====
-- Without `backend` selectors the dynamic policies are the static ones.
use hermes_n8n_control_plane.Prelude.{
  String, ◌≡◌, refl, sym, ap, ◌∙◌, Bool, true, false, ◌&&◌, Option, none, some, List, [], ◌∷◌, map,
  ◌==◌, text_comparable, if◌then◌else◌, keep, strip, Bool-cases, inl, inr,
}
use hermes_n8n_control_plane.Json.{Fields, null, field, get, get_or, obj, end, truthy}
use hermes_n8n_control_plane.Resource.{done, ◌>>=◌, bind-done, done_injective}
use hermes_n8n_control_plane.Resource.Config.{
  Reader, WorkerResource, resource_matches, resource_policies, resource_for_assignee, resource_name,
  sole,
}
use hermes_n8n_control_plane.Resource.Config.Sole.{blank_choice, named_chain}
use hermes_n8n_control_plane.Dynamic.Backends.{Net}
use hermes_n8n_control_plane.Dynamic.Policies.{
  DynamicResource, any_backend, dynamic_matches, backend_matches, read_selector, with_selectors,
  as_mapping, selector_text, dynamic_policies, dynamic_name, dynamic_for_assignee,
}

abbrev pub unselected : WorkerResource → DynamicResource
unselected r = record { policy = r; backend = any_backend }

abbrev pub unselected_answer : Option WorkerResource → Option DynamicResource
unselected_answer none = none
unselected_answer (some r) = some (unselected r)

-- No entry of the section selects a backend.
abbrev pub NoSelector : Fields → Type 0
NoSelector end = Unit
NoSelector (field name spec rest) = (get "backend" (as_mapping spec) ≡ null) × NoSelector rest

read_selector-any :
    (net : Net) (rd : Reader) (name : String) (spec : Fields)
    → get "backend" spec ≡ null
    → read_selector net rd name spec ≡ done any_backend
unfolding read_selector selector_text truthy
read_selector-any net rd name spec h = rw (h, selector_text, read_selector)

backend-get_or :
    (name : String) (raw : Fields)
    → NoSelector raw
    → get "backend" (as_mapping (get_or name raw (obj end))) ≡ null
unfolding get get_or
backend-get_or name end h = refl
backend-get_or name (field j v fs) h = by_key (j == name) (backend-get_or name fs h.1)
  where
    by_key :
        (b : Bool)
        → get "backend" (as_mapping (get_or name fs (obj end))) ≡ null
        → get "backend" (as_mapping (if b then v else get_or name fs (obj end))) ≡ null
    by_key true ih = h.0
    by_key false ih = ih

module _ (net : Net) (rd : Reader) (raw : Fields) where
  with_selectors-unselected :
      (rs : List WorkerResource)
      → NoSelector raw
      → with_selectors net rd raw rs ≡ done (map unselected rs)
  unfolding with_selectors ◌>>=◌
  with_selectors-unselected [] plain = refl
  with_selectors-unselected (r ∷ rs) plain =
      rw (read_selector-any net rd r.name _ (backend-get_or r.name raw plain))
        (rw (with_selectors-unselected rs plain))

dynamic_matches-unselected :
    (net : Net) (r : WorkerResource) (a : String)
    → strip a ≡ a
    → (a == "") ≡ false
    → dynamic_matches net (unselected r) a ≡ resource_matches r a
unfolding dynamic_matches backend_matches
dynamic_matches-unselected net r a clean named =
    rw (clean, dynamic_matches) (rw named (and_true (resource_matches r a)))
  where
    and_true : (b : Bool) → (b && true) ≡ b
    and_true true = refl
    and_true false = refl

keep-unselected :
    (net : Net) (a : String) (rs : List WorkerResource)
    → strip a ≡ a
    → (a == "") ≡ false
    → keep (λ r. dynamic_matches net r a) (map unselected rs)
      ≡ map unselected (keep (λ r. resource_matches r a) rs)
keep-unselected net a [] clean named = refl
keep-unselected net a (r ∷ rs) clean named =
    rw (dynamic_matches-unselected net r a clean named)
      (both (resource_matches r a) (keep-unselected net a rs clean named))
  where
    both :
        (b : Bool)
        → keep (λ r. dynamic_matches net r a) (map unselected rs)
          ≡ map unselected (keep (λ r. resource_matches r a) rs)
        → (if b
            then unselected r ∷ keep (λ r. dynamic_matches net r a) (map unselected rs)
            else keep (λ r. dynamic_matches net r a) (map unselected rs))
          ≡ map unselected (
              if b
              then r ∷ keep (λ r. resource_matches r a) rs
              else keep (λ r. resource_matches r a) rs)
    both true ih = ap (λ found. unselected r ∷ found) ih
    both false ih = ih

sole-unselected :
    (rd : Reader) (name : String) (rs : List WorkerResource) (o : Option WorkerResource)
    → sole resource_name rd name rs ≡ done o
    → sole dynamic_name rd name (map unselected rs) ≡ done (unselected_answer o)
unfolding sole
sole-unselected rd name [] o h = ap (λ p. done (unselected_answer p)) (done_injective h)
sole-unselected rd name (r ∷ []) o h = ap (λ p. done (unselected_answer p)) (done_injective h)
sole-unselected rd name (r ∷ q ∷ rs) o h = cc

blank_dynamic :
    (net : Net) (rd : Reader) (cfg : Fields) (a : String)
    → (strip a == "") ≡ true
    → dynamic_for_assignee net rd cfg a ≡ done none
unfolding dynamic_for_assignee
blank_dynamic net rd cfg a e = rw (e, dynamic_for_assignee)

named_dynamic :
    (net : Net) (rd : Reader) (cfg : Fields) (a : String) (rs : List DynamicResource)
    → (strip a == "") ≡ false
    → dynamic_policies net rd cfg ≡ done rs
    → dynamic_for_assignee net rd cfg a
      ≡ sole dynamic_name rd (strip a) (keep (λ r. dynamic_matches net r (strip a)) rs)
unfolding dynamic_for_assignee ◌>>=◌
named_dynamic net rd cfg a rs e h = rw (e, dynamic_for_assignee) (rw h)

policies-unselected :
    (net : Net) (rd : Reader) (cfg : Fields) (rs : List WorkerResource)
    → NoSelector (as_mapping (get "worker_resources" cfg))
    → resource_policies rd cfg ≡ done rs
    → dynamic_policies net rd cfg ≡ done (map unselected rs)
unfolding dynamic_policies ◌>>=◌
policies-unselected net rd cfg rs plain h =
    rw h (with_selectors-unselected net rd (as_mapping (get "worker_resources" cfg)) rs plain)

-- When no entry of the section selects a backend, the dynamic policies answer an assignee that has
-- no blanks around it as the static ones do, whenever those give an answer.
pub dynamic_for_assignee-static :
    (net : Net) (rd : Reader) (cfg : Fields) (a : String) (o : Option WorkerResource)
    → NoSelector (as_mapping (get "worker_resources" cfg))
    → strip a ≡ a
    → resource_for_assignee rd cfg a ≡ done o
    → dynamic_for_assignee net rd cfg a ≡ done (unselected_answer o)
dynamic_for_assignee-static net rd cfg a o plain clean h = elim (Bool-cases (strip a == "")) [
  | inl blank ↦
      blank_dynamic net rd cfg a blank
      ∙ ap (λ p. done (unselected_answer p))
          (done_injective (sym (blank_choice rd cfg a blank) ∙ h))
  | inr named ↦
      let (rs, read, chosen) = bind-done (sym (named_chain rd cfg a named) ∙ h) in
      named_dynamic net rd cfg a (map unselected rs) named
        (policies-unselected net rd cfg rs plain read)
      ∙ ap (sole dynamic_name rd (strip a))
          (keep-unselected net (strip a) rs (ap strip clean) named)
      ∙ sole-unselected rd (strip a) _ o chosen
]

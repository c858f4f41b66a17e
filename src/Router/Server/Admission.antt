-- ===== src/Router/Server/Admission.antt =====
-- Which repositories of an event the router manages: `_managed_repository`, and the comprehension
-- over it in `_github_event`.
use hermes_n8n_control_plane.Prelude.{
  ℕ, suc, String, Bool, List, [], ◌∷◌, map, text_comparable, codes_comparable, contains, casefold,
  if◌then◌else◌, Result, ok, err,
}
use hermes_n8n_control_plane.Json.{Value, arr, items, str_of}
use hermes_n8n_control_plane.Router.Patterns.{Settings}
use hermes_n8n_control_plane.Router.State.{State}
use hermes_n8n_control_plane.Router.Server.{Store, Outside, checking}

-- The stored names; the reconciliation writes a list there.
abbrev pub managed_names : (Value → String) → Value → List String
managed_names render (arr vs) = map (str_of render) (items vs)
managed_names render _ = []

-- `_managed_repository` on a loaded state.
unfoldable pub managed_repository : Settings → (Value → String) → State → String → Bool
unfolding str_of items
managed_repository st render state repository =
    contains (casefold st.fold_table repository)
      (map (casefold st.fold_table) (managed_names render state.managed_repositories))

abbrev with_unknown : Bool → String → Result (List String) × Store → Result (List String) × Store
with_unknown managed r (err e, store) = (err e, store)
with_unknown managed r (ok unknown, store) = (ok (if managed then unknown else r ∷ unknown), store)

-- The repositories that are not managed; every test loads the state anew, and the first that raises
-- ends the loop.
unfoldable pub unknown_repositories :
    Settings → Outside → ℕ → Store → List String → Result (List String) × Store
unfolding managed_repository
unknown_repositories st o k store [] = (ok [], store)
unknown_repositories st o k store (r ∷ rs) =
    let rest = unknown_repositories st o (suc k) (o.between (checking k) store) rs in
    elim (o.between (checking k) store) [
      | err e ↦ (err e, err e)
      | ok state ↦ with_unknown (managed_repository st o.render state r) r rest
    ]

-- ===== src/Router/Scope/RoundTrip.antt =====
-- What `_normalise_scope_item` accepts is well formed, and the dict that it builds is read back
-- as the same item.
use hermes_n8n_control_plane.Prelude.{
  ℕ, ◌≤◌, String, ◌≡◌, refl, Bool, true, ◌&&◌, ◌||◌, Option, none, some, List, [], ◌∷◌, map,
  text_comparable, codes_comparable, ltb, le→leb, length, casefold, All,
}
use hermes_n8n_control_plane.Json.{Fields, null, str, get, get_or}
use hermes_n8n_control_plane.Json.Laws.{items-pack}
use hermes_n8n_control_plane.Router.Patterns.{Settings, is_stripped, delivery_id_ok}
use hermes_n8n_control_plane.Router.Scope.{
  Scope, Mode, event, full, max_scope_repositories, as_mode, mode_text, name_ok, read_repositories,
  times_ok, mode_fits, read_delivery, normalise_fields, delivery_fields, scope_fields,
}
use hermes_n8n_control_plane.Router.Scope.Sorting.{Sorted, Fresh, sort_by_fixed}

abbrev pub IsDelivery : Option String → Type 0
IsDelivery none = Unit
IsDelivery (some d) = (is_stripped d && delivery_id_ok d) ≡ true

abbrev pub IsName : String → Type 0
IsName r = name_ok r ≡ true

-- A scope item as the code keeps it: a clean id, consistent times, a repository list that is
-- clean, without repetition up to case and sorted, and that is empty exactly for a full scope.
pub record IsScope (st : Settings) (s : Scope) : Type 0 where
  pub id_clean : (is_stripped s.id && delivery_id_ok s.id) ≡ true
  pub times : times_ok st s.created_at s.expires_at s.attempts s.not_before ≡ true
  pub names : All IsName s.repositories
  pub fresh : Fresh (casefold st.fold_table) [] s.repositories
  pub sorted : Sorted (casefold st.fold_table) s.repositories
  pub bounded : length s.repositories ≤ max_scope_repositories
  pub mode_ok : mode_fits s.mode s.repositories ≡ true
  pub delivery_ok : IsDelivery s.delivery

read_names :
    (fold : String → List ℕ) (seen : List (List ℕ)) (names : List String)
    → All IsName names
    → Fresh fold seen names
    → read_repositories fold seen (map str names) ≡ some names
unfolding read_repositories
read_names fold seen [] ok fresh = refl
read_names fold seen (r ∷ rs) ok fresh =
    rw (ok.0, fresh.0, read_names fold (fold r ∷ seen) rs ok.1 fresh.1)

read-delivery-fields :
    (d : Option String) (more : Fields)
    → IsDelivery d
    → get "delivery" more ≡ null
    → read_delivery (get "delivery" (delivery_fields d more)) ≡ some d
unfolding read_delivery
read-delivery-fields none more h e = rw e
read-delivery-fields (some d) more h e = unfold get get_or in rw h

as_mode-mode_text : (m : Mode) → as_mode (str (mode_text m)) ≡ some m
unfolding as_mode
as_mode-mode_text event = refl
as_mode-mode_text full = refl

-- A well-formed item is read back from its dict, whatever further keys follow, unless it has
-- expired and expired items are refused.
pub normalise-scope_fields :
    (st : Settings) (s : Scope) (more : Fields) (now : ℕ) (allow_expired : Bool)
    → IsScope st s
    → get "delivery" more ≡ null
    → (allow_expired || ltb now s.expires_at) ≡ true
    → normalise_fields st (scope_fields s more) now allow_expired ≡ some s
unfolding normalise_fields scope_fields
normalise-scope_fields st s more now allow_expired h e live = rw (
  h.id_clean,
  h.times,
  live,
  as_mode-mode_text s.mode,
  items-pack (map str s.repositories),
  read_names (casefold st.fold_table) [] s.repositories h.names h.fresh,
  le→leb (length s.repositories) max_scope_repositories h.bounded,
  sort_by_fixed (casefold st.fold_table) s.repositories h.sorted,
  h.mode_ok,
  read-delivery-fields s.delivery more h.delivery_ok e,
)

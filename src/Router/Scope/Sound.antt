-- ===== src/Router/Scope/Sound.antt =====
-- What `_normalise_scope_item` accepts is well formed.
use hermes_n8n_control_plane.Prelude.{
  ℕ, ◌≤◌, String, ◌≡◌, Bool, true, not, ◌&&◌, ◌||◌, Option, none, some, List, [], ◌∷◌,
  text_comparable, codes_comparable, leb, ltb, leb→le, length, contains, casefold, All, arith,
  and-parts, not-true, subst, sym,
}
use hermes_n8n_control_plane.Prelude.Maybe.{bind-some, when-some}
use hermes_n8n_control_plane.Json.{Value, Fields, null, str, arr, get, get_or, pack}
use hermes_n8n_control_plane.Router.Patterns.{Settings, is_stripped, delivery_id_ok}
use hermes_n8n_control_plane.Router.Scope.{
  Scope, max_scope_repositories, as_text, as_count, as_items, as_mode, name_ok, read_repositories,
  times_ok, mode_fits, read_delivery, normalise_fields,
}
use hermes_n8n_control_plane.Router.Scope.Sorting.{
  sort_by, Fresh, Sorted-sort_by, Fresh-sort_by, length-sort_by, All-sort_by,
}
use hermes_n8n_control_plane.Router.Scope.RoundTrip.{IsDelivery, IsName, IsScope}

module _ (fold : String → List ℕ) where
  read_sound :
      (vs : List Value) (seen : List (List ℕ)) (names : List String)
      → read_repositories fold seen vs ≡ some names
      → All IsName names × Fresh fold seen names
  unfolding read_repositories
  read_sound [] seen [] h = (tt, tt)
  read_sound [] seen (r ∷ rs) h = cc
  read_sound (v ∷ vs) seen names h =
      let (r, _, h1) = bind-some (as_text v) _ h in
      let (ok, h2) = when-some (name_ok r && not (contains (fold r) seen)) _ h1 in
      let (rest, e, h3) = bind-some (read_repositories fold (fold r ∷ seen) vs) _ h2 in
      let (clean, new) = and-parts (name_ok r) (not (contains (fold r) seen)) ok in
      let (all, fresh) = read_sound vs (fold r ∷ seen) rest e in
      subst (λ l. All IsName l × Fresh fold seen l) (some_injective h3)
        ((clean, all), (not-true (contains (fold r) seen) new, fresh))
    where
      some_injective : {xs ys : List String} → some xs ≡ some ys → xs ≡ ys
      some_injective p = cc

read_delivery_sound : (v : Value) (d : Option String) → read_delivery v ≡ some d → IsDelivery d
unfolding read_delivery
read_delivery_sound v none h = tt
read_delivery_sound (str s) (some d) h = ground arith
read_delivery_sound null (some d) h = cc
read_delivery_sound v (some d) h = cc

some_scope : {s t : Scope} → some s ≡ some t → s ≡ t
some_scope h = cc

-- What `_normalise_scope_item` accepts is well formed, and has not expired unless expired items
-- are allowed.
pub normalise-IsScope :
    (st : Settings) (raw : Fields) (now : ℕ) (allow_expired : Bool) (s : Scope)
    → normalise_fields st raw now allow_expired ≡ some s
    → IsScope st s × ((allow_expired || ltb now s.expires_at) ≡ true)
unfolding normalise_fields
normalise-IsScope st raw now allow_expired s h =
    let (id, _, h1) = bind-some (as_text (get "id" raw)) _ h in
    let (id_ok, h2) = when-some (is_stripped id && delivery_id_ok id) _ h1 in
    let (created, _, h3) = bind-some (as_count (get "created_at" raw)) _ h2 in
    let (expires, _, h4) = bind-some (as_count (get "expires_at" raw)) _ h3 in
    let (attempts, _, h5) = bind-some (as_count (get "attempts" raw)) _ h4 in
    let (not_before, _, h6) = bind-some (as_count (get "not_before" raw)) _ h5 in
    let (times, h7) = when-some (times_ok st created expires attempts not_before) _ h6 in
    let (live, h8) = when-some (allow_expired || ltb now expires) _ h7 in
    let (mode, _, h9) = bind-some (as_mode (get "mode" raw)) _ h8 in
    let (vs, _, h10) = bind-some (as_items (get_or "repositories" raw (arr (pack [])))) _ h9 in
    let (names, read, h11) = bind-some (read_repositories (casefold st.fold_table) [] vs) _ h10 in
    let (bounded, h12) = when-some (leb (length names) max_scope_repositories) _ h11 in
    let (fits, h13) = when-some (mode_fits mode (sort_by (casefold st.fold_table) names)) _ h12 in
    let (delivery, delivered, h14) = bind-some (read_delivery (get "delivery" raw)) _ h13 in
    let (all, fresh) = read_sound (casefold st.fold_table) vs [] names read in
    let key : String → List ℕ = casefold st.fold_table in
    subst (λ (t : Scope). IsScope st t × ((allow_expired || ltb now t.expires_at) ≡ true))
      (some_scope h14)
      (
        record {
          id_clean = id_ok;
          times = times;
          names = All-sort_by key IsName names all;
          fresh = Fresh-sort_by key [] names fresh;
          sorted = Sorted-sort_by key names;
          bounded =
              subst (λ n. n ≤ max_scope_repositories) (sym (length-sort_by key names))
                (leb→le (length names) max_scope_repositories bounded);
          mode_ok = fits;
          delivery_ok = read_delivery_sound (get "delivery" raw) delivery delivered;
        },
        live,
      )

-- ===== src/Router/Deliveries/Dedupe.antt =====
-- A delivery that was claimed is a duplicate until it expires or is released, and the record of
-- deliveries is bounded.
use hermes_n8n_control_plane.Prelude.{
  ℕ, ◌+◌, ◌-◌, ◌≤◌, ◌<◌, String, ◌≡◌, refl, subst, sym, Bool, true, false, ◌&&◌, Option, List, [],
  ◌∷◌, ◌++◌, ◌==◌, text_comparable, eq_refl, ltb, leb, le→leb, length, length-keep, keep, All,
  All-keep, All-append, arith, Bool-cases, inl, inr, if_both,
}
use hermes_n8n_control_plane.Json.{Value, null, bool, int, negative, float, str, arr, obj}
use hermes_n8n_control_plane.Router.Patterns.{Settings, delivery_id_ok}
use hermes_n8n_control_plane.Router.State.{State}
use hermes_n8n_control_plane.Router.Deliveries.{
  put_delivery, prune_entries, prune_deliveries, bounded_deliveries, encode_deliveries,
  has_delivery_id, save_deliveries, claim_delivery, release_delivery, other_delivery,
}
use hermes_n8n_control_plane.Router.Deliveries.Capping.{
  Integer, pos, Delivery, int_le, oldest_first, first_ids, spared, cap_deliveries,
  length-cap_deliveries,
}
use hermes_n8n_control_plane.Router.Deliveries.ReadBack.{
  IsClean, is_live, has-prune_live, has-prune_absent, length-prune, IsClean-prune,
}
use hermes_n8n_control_plane.Router.Deliveries.Surviving.{
  IsOlder, any-cap_deliveries_last, put_delivery_new,
}

All-cap_deliveries {κ} :
    (P : Delivery → Type κ) (bound : ℕ) (ds : List Delivery)
    → All P ds
    → All P (cap_deliveries bound ds)
unfolding cap_deliveries
All-cap_deliveries P bound ds h =
    if_both (All P) (leb (length ds) bound) h
      (All-keep P (spared (first_ids (length ds - bound) (oldest_first ds))) ds h)

has-keep :
    (id : String) (q : Delivery → Bool) (ds : List Delivery)
    → has_delivery_id id ds ≡ false
    → has_delivery_id id (keep q ds) ≡ false
unfolding has_delivery_id
has-keep id q [] h = refl
has-keep id q (d ∷ ds) h = ground (arith, has-keep id q ds)

has-cap_deliveries :
    (id : String) (bound : ℕ) (ds : List Delivery)
    → has_delivery_id id ds ≡ false
    → has_delivery_id id (cap_deliveries bound ds) ≡ false
unfolding cap_deliveries
has-cap_deliveries id bound ds h =
    if_both (λ ks. has_delivery_id id ks ≡ false) (leb (length ds) bound) h
      (has-keep id (spared (first_ids (length ds - bound) (oldest_first ds))) ds h)

cap_deliveries-fits :
    (bound : ℕ) (ds : List Delivery) → length ds ≤ bound → cap_deliveries bound ds ≡ ds
unfolding cap_deliveries
cap_deliveries-fits bound ds h = rw (le→leb (length ds) bound h)

bounded-IsClean :
    (st : Settings) (parse : Value → Option Integer) (raw : Value) (now : ℕ)
    → All IsClean (bounded_deliveries st parse raw now)
unfolding bounded_deliveries prune_deliveries
bounded-IsClean st parse (obj fs) now =
    All-cap_deliveries IsClean st.delivery_max_entries (prune_entries parse now fs [])
      (IsClean-prune parse now fs [] tt)
bounded-IsClean st parse null now = All-cap_deliveries IsClean st.delivery_max_entries [] tt
bounded-IsClean st parse (bool b) now = All-cap_deliveries IsClean st.delivery_max_entries [] tt
bounded-IsClean st parse (int n) now = All-cap_deliveries IsClean st.delivery_max_entries [] tt
bounded-IsClean st parse (negative n) now = All-cap_deliveries IsClean st.delivery_max_entries [] tt
bounded-IsClean st parse (float t) now = All-cap_deliveries IsClean st.delivery_max_entries [] tt
bounded-IsClean st parse (str t) now = All-cap_deliveries IsClean st.delivery_max_entries [] tt
bounded-IsClean st parse (arr vs) now = All-cap_deliveries IsClean st.delivery_max_entries [] tt

-- A live entry of a list that was written within the bound is found again.
bounded-live :
    (st : Settings) (parse : Value → Option Integer) (id : String) (now : ℕ) (ds : List Delivery)
    → All IsClean ds
    → length ds ≤ st.delivery_max_entries
    → is_live id now ds ≡ true
    → has_delivery_id id (bounded_deliveries st parse (obj (encode_deliveries ds)) now) ≡ true
unfolding bounded_deliveries prune_deliveries
bounded-live st parse id now ds clean fits live =
    let size = length-prune parse now ds [] in
    rw
      (cap_deliveries-fits st.delivery_max_entries
        (prune_entries parse now (encode_deliveries ds) []) (omega arith))
      (has-prune_live parse now id ds [] clean live)

-- An id that was not written is not found.
bounded-absent :
    (st : Settings) (parse : Value → Option Integer) (id : String) (now : ℕ) (ds : List Delivery)
    → All IsClean ds
    → has_delivery_id id ds ≡ false
    → has_delivery_id id (bounded_deliveries st parse (obj (encode_deliveries ds)) now) ≡ false
unfolding bounded_deliveries prune_deliveries
bounded-absent st parse id now ds clean absent =
    has-cap_deliveries id st.delivery_max_entries
      (prune_entries parse now (encode_deliveries ds) [])
      (has-prune_absent parse now id ds [] clean absent (unfold has_delivery_id in refl))

-- A claim decides by what is found.
claim_delivery-found :
    (st : Settings) (parse : Value → Option Integer) (id : String) (now : ℕ) (state : State)
    → (claim_delivery st parse id now state).0
      ≡ has_delivery_id id (bounded_deliveries st parse state.delivery_dedupe now)
unfolding claim_delivery
claim_delivery-found st parse id now state =
    elim (Bool-cases (has_delivery_id id (bounded_deliveries st parse state.delivery_dedupe now))) [
      | inl old ↦ rw old
      | inr new ↦ rw new
    ]

-- Dated no later than a time.
abbrev pub IsDatedBy : ℕ → Delivery → Type 0
IsDatedBy now d = int_le d.created_at (pos now) ≡ true

claim_delivery-new :
    (st : Settings) (parse : Value → Option Integer) (id : String) (now : ℕ) (state : State)
    → has_delivery_id id (bounded_deliveries st parse state.delivery_dedupe now) ≡ false
    → (claim_delivery st parse id now state).1
      ≡ save_deliveries state (
          cap_deliveries st.delivery_max_entries (
            bounded_deliveries st parse state.delivery_dedupe now
            ++ record { id = id; created_at = pos now; expires_at = now + st.delivery_ttl_seconds }
              ∷ []))
unfolding claim_delivery
claim_delivery-new st parse id now state new = rw (
  new,
  put_delivery_new
      (record { id = id; created_at = pos now; expires_at = now + st.delivery_ttl_seconds })
      (bounded_deliveries st parse state.delivery_dedupe now) new,
)

has-released :
    (id : String) (ds : List Delivery) → has_delivery_id id (keep (other_delivery id) ds) ≡ false
unfolding has_delivery_id
has-released id [] = refl
has-released id (d ∷ ds) = ground (arith, has-released id ds)

-- After a claim of a well-formed delivery that is no duplicate, a second claim of the delivery is
-- a duplicate for as long as the TTL lasts, if at least one delivery may be recorded and no
-- recorded delivery is dated later than the first claim.
pub claim_again :
    (st : Settings) (parse : Value → Option Integer) (id : String) (now later : ℕ) (state : State)
    → delivery_id_ok id ≡ true
    → 1 ≤ st.delivery_max_entries
    → All (IsDatedBy now) (prune_deliveries parse state.delivery_dedupe now)
    → (claim_delivery st parse id now state).0 ≡ false
    → later < now + st.delivery_ttl_seconds
    → (claim_delivery st parse id later (claim_delivery st parse id now state).1).0 ≡ true
claim_again st parse id now later state clean room older first within =
    let d : Delivery = record {
      id = id;
      created_at = pos now;
      expires_at = now + st.delivery_ttl_seconds;
    } in
    let kept : List Delivery = bounded_deliveries st parse state.delivery_dedupe now in
    let new : has_delivery_id id kept ≡ false =
      subst (λ b. b ≡ false) (claim_delivery-found st parse id now state) first in
    let written : List Delivery = cap_deliveries st.delivery_max_entries (kept ++ d ∷ []) in
    let older_kept : All (IsOlder d) kept =
      unfold bounded_deliveries in
      All-cap_deliveries (IsOlder d) st.delivery_max_entries
        (prune_deliveries parse state.delivery_dedupe now) older in
    let all_clean : All IsClean written =
      All-cap_deliveries IsClean st.delivery_max_entries (kept ++ d ∷ []) (
        All-append IsClean kept (d ∷ []) (bounded-IsClean st parse state.delivery_dedupe now)
          (clean, tt)) in
    let live : is_live id later written ≡ true =
      unfold is_live in
      any-cap_deliveries_last (λ e. e.id == id && ltb later e.expires_at) st.delivery_max_entries d
        kept room older_kept new (ground (arith, eq_refl id)) in
    rw (claim_delivery-new st parse id now state new) (
      subst (λ b. b ≡ true)
        (sym (claim_delivery-found st parse id later (save_deliveries state written)))
        (bounded-live st parse id later written all_clean
          (length-cap_deliveries st.delivery_max_entries (kept ++ d ∷ [])) live))

-- A delivery that was released is no duplicate at its next claim, whenever that is.
pub claim_released :
    (st : Settings) (parse : Value → Option Integer) (id : String) (now later : ℕ) (state : State)
    → (claim_delivery st parse id later (release_delivery st parse id now state)).0 ≡ false
unfolding release_delivery
claim_released st parse id now later state =
    let kept : List Delivery = bounded_deliveries st parse state.delivery_dedupe now in
    let rest : List Delivery = keep (other_delivery id) kept in
    subst (λ b. b ≡ false)
      (sym (claim_delivery-found st parse id later (save_deliveries state rest)))
      (bounded-absent st parse id later rest
        (All-keep IsClean (other_delivery id) kept
          (bounded-IsClean st parse state.delivery_dedupe now))
        (has-released id kept))

-- A list of deliveries that a state was written with, within the bound.
abbrev pub IsBounded : Settings → State → Type 0
IsBounded st state =
    (ds : List Delivery) × (state.delivery_dedupe ≡ obj (encode_deliveries ds))
    × (length ds ≤ st.delivery_max_entries)

-- Whatever the state file held, a claim and a release write no more deliveries than the bound.
pub deliveries-IsBounded :
    (st : Settings) (parse : Value → Option Integer) (id : String) (now : ℕ) (state : State)
    → IsBounded st (claim_delivery st parse id now state).1
      × IsBounded st (release_delivery st parse id now state)
unfolding claim_delivery release_delivery bounded_deliveries
deliveries-IsBounded st parse id now state =
    let bound : ℕ = st.delivery_max_entries in
    let read : List Delivery = prune_deliveries parse state.delivery_dedupe now in
    let kept : List Delivery = cap_deliveries bound read in
    let size : length kept ≤ bound = length-cap_deliveries bound read in
    let d : Delivery = record {
      id = id;
      created_at = pos now;
      expires_at = now + st.delivery_ttl_seconds;
    } in
    (
      if_both (λ (out : Bool × State). IsBounded st out.1) (has_delivery_id id kept)
          (kept, refl, size)
          (
            cap_deliveries bound (put_delivery d kept),
            refl,
            length-cap_deliveries bound (put_delivery d kept),
          ),
      (keep (other_delivery id) kept, refl, omega (arith, length-keep (other_delivery id) kept)),
    )

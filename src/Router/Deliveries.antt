-- ===== src/Router/Deliveries.antt =====
-- The record of the webhook deliveries that were dispatched: `_prune_deliveries`, `_cap_deliveries`,
-- `_claim_delivery` and `_release_delivery`.
pub mod Capping
pub mod ReadBack
pub mod Surviving
pub mod Dedupe
use hermes_n8n_control_plane.Prelude.{
  ℕ, suc, ◌+◌, ◌-◌, String, Bool, true, false, not, ◌&&◌, Option, none, some, List, [], ◌∷◌, ◌++◌,
  map, ◌==◌, text_comparable, ltb, leb, length, keep, contains, strip, if◌then◌else◌,
}
use hermes_n8n_control_plane.Prelude.Maybe.{◌>>=◌, ◌>>◌, when}
use hermes_n8n_control_plane.Json.{
  Value, Fields, null, bool, int, negative, float, str, arr, obj, end, field, get, truthy,
}
use hermes_n8n_control_plane.Router.Patterns.{Settings, delivery_id_ok}
use hermes_n8n_control_plane.Router.State.{State}
use Capping.{Integer, pos, negsuc, Delivery, cap_deliveries}

-- `int(value or 0)`, none where it raises; `parse` is `int` of a text or a float.
unfoldable pub int_or_zero : (Value → Option Integer) → Value → Option Integer
unfolding truthy
int_or_zero parse v = if not (truthy v) then some (pos 0) else elim v [
  | bool b ↦ some (pos 1)
  | int n ↦ some (pos n)
  | negative n ↦ some (negsuc n)
  | float s ↦ parse (float s)
  | str s ↦ parse (str s)
  | _ ↦ none
]

-- A time that is later than `now`.
abbrev pub later : ℕ → Integer → Option ℕ
later now (pos n) = if ltb now n then some n else none
later now (negsuc n) = none

-- One entry of the stored dict, if it is kept; `parse` is none where `int` raises a TypeError or a
-- ValueError. The OverflowError of an infinite float, which the code does not catch, is left out.
unfoldable pub read_delivery_entry : (Value → Option Integer) → ℕ → String → Value → Option Delivery
unfolding int_or_zero strip
read_delivery_entry parse now raw_id (obj raw) = do
  when (delivery_id_ok (strip raw_id))
  raw_expires ← int_or_zero parse (get "expires_at" raw)
  expires ← later now raw_expires
  created ← int_or_zero parse (get "created_at" raw)
  some (record { id = strip raw_id; created_at = created; expires_at = expires })
read_delivery_entry parse now raw_id _ = none

-- `kept[delivery_id] = …`
unfoldable pub put_delivery : Delivery → List Delivery → List Delivery
put_delivery d [] = d ∷ []
put_delivery d (e ∷ es) = if e.id == d.id then d ∷ es else e ∷ put_delivery d es

abbrev pub put_entry : Option Delivery → List Delivery → List Delivery
put_entry none kept = kept
put_entry (some d) kept = put_delivery d kept

unfoldable pub prune_entries : (Value → Option Integer) → ℕ → Fields → List Delivery → List Delivery
unfolding put_delivery
prune_entries parse now end kept = kept
prune_entries parse now (field k v more) kept =
    prune_entries parse now more (put_entry (read_delivery_entry parse now k v) kept)

-- `_prune_deliveries`
unfoldable pub prune_deliveries : (Value → Option Integer) → Value → ℕ → List Delivery
unfolding prune_entries
prune_deliveries parse (obj fs) now = prune_entries parse now fs []
prune_deliveries parse _ now = []

-- `_bounded_deliveries`
unfoldable pub bounded_deliveries : Settings → (Value → Option Integer) → Value → ℕ → List Delivery
unfolding prune_deliveries cap_deliveries
bounded_deliveries st parse raw now =
    cap_deliveries st.delivery_max_entries (prune_deliveries parse raw now)

abbrev pub encode_integer : Integer → Value
encode_integer (pos n) = int n
encode_integer (negsuc n) = negative n

unfoldable pub encode_deliveries : List Delivery → Fields
encode_deliveries [] = end
encode_deliveries (d ∷ ds) =
    field d.id
      (obj (
        field "created_at" (encode_integer d.created_at)
          (field "expires_at" (int d.expires_at) end)))
      (encode_deliveries ds)

unfoldable pub has_delivery_id : String → List Delivery → Bool
has_delivery_id id [] = false
has_delivery_id id (d ∷ ds) = if d.id == id then true else has_delivery_id id ds

abbrev pub save_deliveries : State → List Delivery → State
save_deliveries state kept = record state { delivery_dedupe = obj (encode_deliveries kept) }

-- `_claim_delivery`: whether the delivery is a duplicate, and the state that is written.
unfoldable pub claim_delivery :
    Settings → (Value → Option Integer) → String → ℕ → State → Bool × State
unfolding bounded_deliveries has_delivery_id cap_deliveries put_delivery
claim_delivery st parse id now state =
    let kept = bounded_deliveries st parse state.delivery_dedupe now in
    if has_delivery_id id kept then (true, save_deliveries state kept) else (
      false,
      save_deliveries state (
          cap_deliveries st.delivery_max_entries (
            put_delivery
              (record { id = id; created_at = pos now; expires_at = now + st.delivery_ttl_seconds })
              kept)),
    )

abbrev pub other_delivery : String → Delivery → Bool
other_delivery id d = not (d.id == id)

-- `_release_delivery`
unfoldable pub release_delivery : Settings → (Value → Option Integer) → String → ℕ → State → State
unfolding bounded_deliveries
release_delivery st parse id now state =
    save_deliveries state
      (keep (other_delivery id) (bounded_deliveries st parse state.delivery_dedupe now))

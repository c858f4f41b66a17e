-- ===== src/Router/Deliveries/Surviving.antt =====
-- The newest delivery is not evicted.
use hermes_n8n_control_plane.Prelude.{
  ℕ, zero, suc, ◌-◌, ◌≤◌, String, ◌≡◌, refl, Bool, true, false, ◌||◌, List, [], ◌∷◌, ◌++◌, ◌==◌,
  text_comparable, leb, length, length-append, keep, any, contains, All, arith, Bool-cases, inl,
  inr,
}
use hermes_n8n_control_plane.Router.Deliveries.{put_delivery, has_delivery_id}
use hermes_n8n_control_plane.Router.Deliveries.Capping.{
  Delivery, int_le, insert_oldest, oldest_first, first_ids, spared, cap_deliveries,
  length-oldest_first,
}

-- Dated no later than another.
abbrev pub IsOlder : Delivery → Delivery → Type 0
IsOlder d e = int_le e.created_at d.created_at ≡ true

insert_oldest-last :
    (d e : Delivery) (ds : List Delivery)
    → IsOlder d e
    → insert_oldest e (ds ++ d ∷ []) ≡ insert_oldest e ds ++ d ∷ []
unfolding insert_oldest
insert_oldest-last d e [] h = rw h
insert_oldest-last d e (x ∷ xs) h = elim (Bool-cases (int_le e.created_at x.created_at)) [
  | inl first ↦ rw first
  | inr later ↦ rw (later, insert_oldest-last d e xs h)
]

-- The newest comes last.
oldest_first-last :
    (d : Delivery) (ds : List Delivery)
    → All (IsOlder d) ds
    → oldest_first (ds ++ d ∷ []) ≡ oldest_first ds ++ d ∷ []
unfolding oldest_first
oldest_first-last d [] h = unfold insert_oldest in refl
oldest_first-last d (e ∷ es) h =
    rw (oldest_first-last d es h.1) (insert_oldest-last d e (oldest_first es) h.0)

has-insert_oldest :
    (id : String) (d : Delivery) (ds : List Delivery)
    → has_delivery_id id (insert_oldest d ds) ≡ (d.id == id || has_delivery_id id ds)
unfolding insert_oldest has_delivery_id
has-insert_oldest id d [] = ground arith
has-insert_oldest id d (e ∷ es) = ground (arith, has-insert_oldest id d es)

has-oldest_first :
    (id : String) (ds : List Delivery)
    → has_delivery_id id (oldest_first ds) ≡ has_delivery_id id ds
unfolding oldest_first has_delivery_id
has-oldest_first id [] = refl
has-oldest_first id (d ∷ ds) =
    ground (arith, has-insert_oldest id d (oldest_first ds), has-oldest_first id ds)

-- The first ids of a list do not reach what is appended behind.
first_ids-short :
    (id : String) (n : ℕ) (ds es : List Delivery)
    → n ≤ length ds
    → has_delivery_id id ds ≡ false
    → contains id (first_ids n (ds ++ es)) ≡ false
unfolding first_ids has_delivery_id
first_ids-short id zero ds es fits h = refl
first_ids-short id (suc n) [] es fits h = ground arith
first_ids-short id (suc n) (d ∷ ds) es fits h = elim (Bool-cases (d.id == id)) [
  | inl same ↦ let no : true ≡ false = rw same at h in cc
  | inr other ↦ rw other (first_ids-short id n ds es (omega arith) (rw other at h))
]

-- The last element that passes the filter is still there.
any-keep_last :
    (p q : Delivery → Bool) (d : Delivery) (ds : List Delivery)
    → p d ≡ true
    → q d ≡ true
    → any p (keep q (ds ++ d ∷ [])) ≡ true
any-keep_last p q d [] hp hq = rw (hq, hp)
any-keep_last p q d (e ∷ es) hp hq = ground (arith, any-keep_last p q d es hp hq)

any-append_last :
    (p : Delivery → Bool) (d : Delivery) (ds : List Delivery)
    → p d ≡ true
    → any p (ds ++ d ∷ []) ≡ true
any-append_last p d [] h = rw h
any-append_last p d (e ∷ es) h = rw (any-append_last p d es h) (ground arith)

-- A new delivery that is the newest of all survives the cap, if the bound allows for one at all.
pub any-cap_deliveries_last :
    (p : Delivery → Bool) (bound : ℕ) (d : Delivery) (ds : List Delivery)
    → 1 ≤ bound
    → All (IsOlder d) ds
    → has_delivery_id d.id ds ≡ false
    → p d ≡ true
    → any p (cap_deliveries bound (ds ++ d ∷ [])) ≡ true
unfolding cap_deliveries
any-cap_deliveries_last p bound d ds room older new hp =
    let size = length-append ds (d ∷ []) in
    let same = length-oldest_first ds in
    elim (Bool-cases (leb (length (ds ++ d ∷ [])) bound)) [
      | inl fits ↦ rw fits (any-append_last p d ds hp)
      | inr over ↦
          let n : ℕ = length (ds ++ d ∷ []) - bound in
          let few : n ≤ length (oldest_first ds) = omega arith in
          let spared_last : contains d.id (first_ids n (oldest_first ds ++ d ∷ [])) ≡ false =
            first_ids-short d.id n (oldest_first ds) (d ∷ []) few
              (rw (has-oldest_first d.id ds) new) in
          rw (over, oldest_first-last d ds older)
            (any-keep_last p (spared (first_ids n (oldest_first ds ++ d ∷ []))) d ds hp
              (rw spared_last))
    ]

-- A new id is put at the end.
pub put_delivery_new :
    (d : Delivery) (ds : List Delivery)
    → has_delivery_id d.id ds ≡ false
    → put_delivery d ds ≡ ds ++ d ∷ []
unfolding put_delivery has_delivery_id
put_delivery_new d [] h = refl
put_delivery_new d (e ∷ es) h = elim (Bool-cases (e.id == d.id)) [
  | inl same ↦ let no : true ≡ false = rw same at h in cc
  | inr other ↦ rw (other, put_delivery_new d es (rw other at h))
]

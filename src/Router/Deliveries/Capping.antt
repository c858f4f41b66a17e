-- ===== src/Router/Deliveries/Capping.antt =====
-- `_cap_deliveries`: the oldest deliveries beyond the bound are evicted.
use hermes_n8n_control_plane.Prelude.{
  ℕ, suc, zero, ◌-◌, ◌≤◌, String, ◌≡◌, refl, Bool, true, false, not, List, [], ◌∷◌, text_comparable,
  eq_refl, leb, length, keep, contains, length-keep, arith, if◌then◌else◌,
}

-- `negsuc n` is -(n + 1).
pub data Integer : Type 0 where
  pos : ℕ → Integer
  negsuc : ℕ → Integer

pub record Delivery : Type 0 where
  pub id : String
  pub created_at : Integer
  pub expires_at : ℕ

abbrev pub int_le : Integer → Integer → Bool
int_le (pos a) (pos b) = leb a b
int_le (pos a) (negsuc b) = false
int_le (negsuc a) (pos b) = true
int_le (negsuc a) (negsuc b) = leb b a

-- `sorted(…, key=created_at)`, which is stable.
unfoldable pub insert_oldest : Delivery → List Delivery → List Delivery
insert_oldest d [] = d ∷ []
insert_oldest d (e ∷ es) =
    if int_le d.created_at e.created_at then d ∷ e ∷ es else e ∷ insert_oldest d es

unfoldable pub oldest_first : List Delivery → List Delivery
unfolding insert_oldest
oldest_first [] = []
oldest_first (d ∷ ds) = insert_oldest d (oldest_first ds)

unfoldable pub first_ids : ℕ → List Delivery → List String
first_ids zero ds = []
first_ids (suc n) [] = []
first_ids (suc n) (d ∷ ds) = d.id ∷ first_ids n ds

abbrev pub spared : List String → Delivery → Bool
spared evicted d = not (contains d.id evicted)

-- `_cap_deliveries`
unfoldable pub cap_deliveries : ℕ → List Delivery → List Delivery
unfolding oldest_first first_ids
cap_deliveries bound kept =
    if leb (length kept) bound
    then kept
    else keep (spared (first_ids (length kept - bound) (oldest_first kept))) kept

keep-insert_oldest :
    (p : Delivery → Bool) (d : Delivery) (ds : List Delivery)
    → length (keep p (insert_oldest d ds)) ≡ length (keep p (d ∷ ds))
unfolding insert_oldest
keep-insert_oldest p d [] = refl
keep-insert_oldest p d (e ∷ es) = ground (arith, keep-insert_oldest p d es)

keep-oldest_first :
    (p : Delivery → Bool) (ds : List Delivery)
    → length (keep p (oldest_first ds)) ≡ length (keep p ds)
unfolding oldest_first
keep-oldest_first p [] = refl
keep-oldest_first p (d ∷ ds) =
    ground (arith, keep-oldest_first p ds, keep-insert_oldest p d (oldest_first ds))

length-insert_oldest :
    (d : Delivery) (ds : List Delivery) → length (insert_oldest d ds) ≡ suc (length ds)
unfolding insert_oldest
length-insert_oldest d [] = refl
length-insert_oldest d (e ∷ es) = ground (arith, length-insert_oldest d es)

pub length-oldest_first : (ds : List Delivery) → length (oldest_first ds) ≡ length ds
unfolding oldest_first
length-oldest_first [] = refl
length-oldest_first (d ∷ ds) =
    omega (arith, length-insert_oldest d (oldest_first ds), length-oldest_first ds)

-- Every text of the one list stands in the other.
abbrev Among : List String → List String → Type 0
Among [] evicted = Unit
Among (i ∷ is) evicted = (contains i evicted ≡ true) × Among is evicted

Among-more : (i : String) (is evicted : List String) → Among is evicted → Among is (i ∷ evicted)
Among-more i [] evicted h = tt
Among-more i (j ∷ js) evicted h = (ground (arith, h.0), Among-more i js evicted h.1)

Among-self : (is : List String) → Among is is
Among-self [] = tt
Among-self (i ∷ is) = (rw (eq_refl i) refl, Among-more i is is (Among-self is))

keep-spared :
    (evicted : List String) (n : ℕ) (ds : List Delivery)
    → Among (first_ids n ds) evicted
    → length (keep (spared evicted) ds) ≤ length ds - n
unfolding first_ids
keep-spared evicted zero ds h = omega (arith, length-keep (spared evicted) ds)
keep-spared evicted (suc n) [] h = omega arith
keep-spared evicted (suc n) (d ∷ ds) h = rw h.0 (omega (arith, keep-spared evicted n ds h.1))

-- No more than the bound remain.
pub length-cap_deliveries :
    (bound : ℕ) (kept : List Delivery) → length (cap_deliveries bound kept) ≤ bound
unfolding cap_deliveries
length-cap_deliveries bound kept =
    let evicted : List String = first_ids (length kept - bound) (oldest_first kept) in
    let sorted =
      keep-spared evicted (length kept - bound) (oldest_first kept) (Among-self evicted) in
    ground (arith, sorted, keep-oldest_first (spared evicted) kept, length-oldest_first kept)

-- ===== src/Router/Deliveries/ReadBack.antt =====
-- What is read back of the deliveries that were written.
use hermes_n8n_control_plane.Prelude.{
  ℕ, zero, suc, ◌+◌, ◌≤◌, String, ◌≡◌, refl, ap, subst, Bool, true, false, not, ◌&&◌, ◌||◌, Option,
  none, some, List, [], ◌∷◌, ◌==◌, text_comparable, eq_iff, ltb, length, any, All, arith,
  if◌then◌else◌, Bool-cases, inl, inr, codes, is_alnum, is_space, strip, strip_clean,
  all_codes_mono,
}
use hermes_n8n_control_plane.Prelude.Maybe.{when-some, bind-some}
use hermes_n8n_control_plane.Json.{
  Value, Fields, null, bool, int, negative, float, str, arr, obj, end, field, get, get_or,
}
use hermes_n8n_control_plane.Router.Patterns.{delivery_id_ok, one_of}
use hermes_n8n_control_plane.Router.Deliveries.{
  int_or_zero, later, read_delivery_entry, put_delivery, put_entry, prune_entries, encode_integer,
  encode_deliveries, has_delivery_id,
}
use hermes_n8n_control_plane.Router.Deliveries.Capping.{Integer, pos, negsuc, Delivery}

some_injective : {a b : Delivery} → some a ≡ some b → a ≡ b
some_injective h = cc

id_code-not-space : (c : ℕ) → (is_alnum c || one_of "._:-" c) ≡ true → not (is_space c) ≡ true
unfolding is_space
id_code-not-space c h = ground arith

-- A delivery id has no blanks.
delivery_id-strip : (s : String) → delivery_id_ok s ≡ true → strip s ≡ s
unfolding delivery_id_ok
delivery_id-strip s h = strip_clean s (
    all_codes_mono (λ c. is_alnum c || one_of "._:-" c) (λ c. not (is_space c)) (codes s)
      id_code-not-space (and_left _ _ h))
  where
    and_left : (a b : Bool) → (a && b) ≡ true → a ≡ true
    and_left true b h = refl
    and_left false b h = cc

-- The id of a delivery that is kept.
abbrev pub IsClean : Delivery → Type 0
IsClean d = delivery_id_ok d.id ≡ true

module _ (parse : Value → Option Integer) (now : ℕ) where
  int_or_zero-encode : (n : Integer) → int_or_zero parse (encode_integer n) ≡ some n
  unfolding int_or_zero
  int_or_zero-encode (pos zero) = refl
  int_or_zero-encode (pos (suc n)) = ground arith
  int_or_zero-encode (negsuc n) = refl

  -- What a written entry is read back as.
  read_entry-encode :
      (d : Delivery)
      → IsClean d
      → read_delivery_entry parse now d.id (
          obj (
            field "created_at"
              (encode_integer d.created_at)
              (field "expires_at" (int d.expires_at) end)))
        ≡ (if ltb now d.expires_at then some d else none)
  unfolding read_delivery_entry get get_or
  read_entry-encode d h =
      rw
        (
          delivery_id-strip d.id h,
          h,
          int_or_zero-encode (pos d.expires_at),
          int_or_zero-encode d.created_at,
        )
        (elim (Bool-cases (ltb now d.expires_at)) [ inl fresh ↦ rw fresh | inr over ↦ rw over ])

-- One written entry, and then the rest.
prune-encode_cons :
    (parse : Value → Option Integer) (now : ℕ) (d : Delivery) (ds acc : List Delivery)
    → IsClean d
    → prune_entries parse now (encode_deliveries (d ∷ ds)) acc
      ≡ prune_entries parse now
          (encode_deliveries ds)
          (put_entry (if ltb now d.expires_at then some d else none) acc)
unfolding prune_entries encode_deliveries
prune-encode_cons parse now d ds acc h =
    ap (λ o. prune_entries parse now (encode_deliveries ds) (put_entry o acc))
      (read_entry-encode parse now d h)

has-put_delivery :
    (id : String) (d : Delivery) (es : List Delivery)
    → has_delivery_id id (put_delivery d es) ≡ (d.id == id || has_delivery_id id es)
unfolding put_delivery has_delivery_id
has-put_delivery id d [] = ground arith
has-put_delivery id d (e ∷ es) =
    ground (arith, has-put_delivery id d es, eq_iff e.id d.id, eq_iff e.id id, eq_iff d.id id)

length-put_delivery :
    (d : Delivery) (es : List Delivery) → length (put_delivery d es) ≤ length es + 1
unfolding put_delivery
length-put_delivery d [] = omega arith
length-put_delivery d (e ∷ es) = ground (arith, length-put_delivery d es)

-- The entry with this id is there, and has not expired.
unfoldable pub is_live : String → ℕ → List Delivery → Bool
is_live id now ds = any (λ d. d.id == id && ltb now d.expires_at) ds

module _ (parse : Value → Option Integer) (now : ℕ) where
  -- What is read is kept by what follows.
  has-prune_kept :
      (id : String) (fs : Fields) (acc : List Delivery)
      → has_delivery_id id acc ≡ true
      → has_delivery_id id (prune_entries parse now fs acc) ≡ true
  unfolding prune_entries
  has-prune_kept id end acc h = h
  has-prune_kept id (field k v more) acc h =
      has-prune_kept id more _ (put_kept (read_delivery_entry parse now k v))
    where
      put_kept : (o : Option Delivery) → has_delivery_id id (put_entry o acc) ≡ true
      put_kept none = h
      put_kept (some d) = rw (has-put_delivery id d acc, h) (ground arith)

  -- A live entry is read back.
  pub has-prune_live :
      (id : String) (ds : List Delivery) (acc : List Delivery)
      → All IsClean ds
      → is_live id now ds ≡ true
      → has_delivery_id id (prune_entries parse now (encode_deliveries ds) acc) ≡ true
  unfolding is_live
  has-prune_live id [] acc h live = cc
  has-prune_live id (d ∷ ds) acc h live = elim (Bool-cases (d.id == id && ltb now d.expires_at)) [
    | inl found ↦
        let same : (d.id == id) ≡ true = ground arith in
        let fresh : ltb now d.expires_at ≡ true = ground arith in
        rw (prune-encode_cons parse now d ds acc h.0, fresh)
          (has-prune_kept id (encode_deliveries ds) (put_delivery d acc)
            (rw (has-put_delivery id d acc, same)))
    | inr other ↦
        rw (prune-encode_cons parse now d ds acc h.0)
          (has-prune_live id ds _ h.1 (rw other at live))
  ]

  -- An id that was not written is not read.
  pub has-prune_absent :
      (id : String) (ds : List Delivery) (acc : List Delivery)
      → All IsClean ds
      → has_delivery_id id ds ≡ false
      → has_delivery_id id acc ≡ false
      → has_delivery_id id (prune_entries parse now (encode_deliveries ds) acc) ≡ false
  unfolding has_delivery_id
  has-prune_absent id [] acc h absent before = unfold prune_entries encode_deliveries in before
  has-prune_absent id (d ∷ ds) acc h absent before =
      let differs : (d.id == id) ≡ false = ground arith in
      let rest : has_delivery_id id ds ≡ false = ground arith in
      rw (prune-encode_cons parse now d ds acc h.0)
        (has-prune_absent id ds _ h.1 rest (put_absent (ltb now d.expires_at) differs))
    where
      put_absent :
          (b : Bool)
          → (d.id == id) ≡ false
          → has_delivery_id id (put_entry (if b then some d else none) acc) ≡ false
      put_absent true differs = rw (has-put_delivery id d acc, differs) before
      put_absent false differs = before

  -- No more is read than was written.
  pub length-prune :
      (fs : List Delivery) (acc : List Delivery)
      → length (prune_entries parse now (encode_deliveries fs) acc) ≤ length acc + length fs
  unfolding prune_entries encode_deliveries
  length-prune [] acc = omega arith
  length-prune (d ∷ ds) acc =
      let more = length-prune ds (
        put_entry
          (read_delivery_entry parse now d.id (
            obj (
              field "created_at" (encode_integer d.created_at)
                (field "expires_at" (int d.expires_at) end))))
          acc) in
      omega (
        arith,
        more,
        put_length (
            read_delivery_entry parse now d.id (
              obj (
                field "created_at" (encode_integer d.created_at)
                  (field "expires_at" (int d.expires_at) end)))),
      )
    where
      put_length : (o : Option Delivery) → length (put_entry o acc) ≤ length acc + 1
      put_length none = omega arith
      put_length (some e) = length-put_delivery e acc

All-put_delivery :
    (d : Delivery) (es : List Delivery)
    → IsClean d
    → All IsClean es
    → All IsClean (put_delivery d es)
unfolding put_delivery
All-put_delivery d [] h hs = (h, tt)
All-put_delivery d (e ∷ es) h hs = elim (Bool-cases (e.id == d.id)) [
  | inl same ↦ rw same (h, hs.1)
  | inr other ↦ rw other (hs.0, All-put_delivery d es h hs.1)
]

entry-IsClean :
    (parse : Value → Option Integer) (now : ℕ) (k : String) (v : Value) (d : Delivery)
    → read_delivery_entry parse now k v ≡ some d
    → IsClean d
unfolding read_delivery_entry
entry-IsClean parse now k (obj raw) d e =
    let (clean, e1) = when-some (delivery_id_ok (strip k)) _ e in
    let (raw_expires, _, e2) = bind-some (int_or_zero parse (get "expires_at" raw)) _ e1 in
    let (expires, _, e3) = bind-some (later now raw_expires) _ e2 in
    let (created, _, e4) = bind-some (int_or_zero parse (get "created_at" raw)) _ e3 in
    let same : record { id = strip k; created_at = created; expires_at = expires } ≡ d =
      some_injective e4 in
    subst IsClean same clean
entry-IsClean parse now k null d e = cc
entry-IsClean parse now k (bool b) d e = cc
entry-IsClean parse now k (int n) d e = cc
entry-IsClean parse now k (negative n) d e = cc
entry-IsClean parse now k (float t) d e = cc
entry-IsClean parse now k (str t) d e = cc
entry-IsClean parse now k (arr vs) d e = cc

-- The ids that are read are clean.
pub IsClean-prune :
    (parse : Value → Option Integer) (now : ℕ) (fs : Fields) (acc : List Delivery)
    → All IsClean acc
    → All IsClean (prune_entries parse now fs acc)
unfolding prune_entries
IsClean-prune parse now end acc h = h
IsClean-prune parse now (field k v more) acc h =
    IsClean-prune parse now more _ (put_clean (read_delivery_entry parse now k v) refl)
  where
    put_clean :
        (o : Option Delivery)
        → read_delivery_entry parse now k v ≡ o
        → All IsClean (put_entry o acc)
    put_clean none e = h
    put_clean (some d) e = All-put_delivery d acc (entry-IsClean parse now k v d e) h

-- ===== src/Json/Laws.antt =====
-- Laws of the `dict` operations.
use hermes_n8n_control_plane.Prelude.{
  ◌≡◌, refl, ap, String, List, [], ◌∷◌, ◌==◌, text_comparable, if◌then◌else◌, eq_iff, arith,
}
use hermes_n8n_control_plane.Json.{Value, Fields, end, field, get, get_or, put, items, pack}

-- A lookup with a default after an assignment.
pub get_or-put :
    (k j : String) (v d : Value) (fs : Fields)
    → get_or j (put k v fs) d ≡ (if k == j then v else get_or j fs d)
unfolding get_or put
get_or-put k j v d end = refl
get_or-put k j v d (field i w fs) =
    ground (arith, eq_iff k j, eq_iff i k, eq_iff i j, get_or-put k j v d fs)

-- A lookup after an assignment.
pub get-put :
    (k j : String) (v : Value) (fs : Fields) → get j (put k v fs) ≡ (if k == j then v else get j fs)
unfolding get
get-put k j v fs = get_or-put k j v Value.null fs

pub items-pack : (vs : List Value) → items (pack vs) ≡ vs
unfolding items pack
items-pack [] = refl
items-pack (v ∷ vs) = ap (λ l. v ∷ l) (items-pack vs)

-- A key that holds a text holds it whatever the default.
pub get_or-of-get :
    (k : String) (d : Value) (s : String) (fs : Fields)
    → get k fs ≡ Value.str s
    → get_or k fs d ≡ Value.str s
unfolding get get_or
get_or-of-get k d s end h = cc
get_or-of-get k d s (field j v fs) h = ground (arith, get_or-of-get k d s fs)

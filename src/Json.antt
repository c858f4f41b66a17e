-- ===== src/Json.antt =====
-- JSON values as `json.loads` returns them, and the `dict` operations that the services use.
pub mod Laws
use hermes_n8n_control_plane.Prelude.{
  ℕ, String, Bool, true, false, not, List, [], ◌∷◌, ◌==◌, number_comparable, text_comparable,
  if◌then◌else◌,
}

mutual
  -- `int n` is n, `negative n` is -(n + 1); a float is kept as its literal.
  pub data Value : Type 0 where
    null : Value
    bool : Bool → Value
    int : ℕ → Value
    negative : ℕ → Value
    float : String → Value
    str : String → Value
    obj : Fields → Value
    arr : Items → Value

  pub data Fields : Type 0 where
    end : Fields
    field : String → Value → Fields → Fields

  pub data Items : Type 0 where
    nil : Items
    cons : Value → Items → Items

-- `d.get(k, default)`
unfoldable pub get_or : String → Fields → Value → Value
get_or k end d = d
get_or k (field j v fs) d = if j == k then v else get_or k fs d

-- `d.get(k)`: a missing key and a null are both `None`.
unfoldable pub get : String → Fields → Value
unfolding get_or
get k fs = get_or k fs null

-- `k in d`
unfoldable pub has_key : String → Fields → Bool
has_key k end = false
has_key k (field j v fs) = if j == k then true else has_key k fs

-- `d[k] = v`
unfoldable pub put : String → Value → Fields → Fields
put k v end = field k v end
put k v (field j w fs) = if j == k then field j v fs else field j w (put k v fs)

-- The elements of an array.
unfoldable pub items : Items → List Value
items nil = []
items (cons v vs) = v ∷ items vs

unfoldable pub pack : List Value → Items
pack [] = nil
pack (v ∷ vs) = cons v (pack vs)

-- `bool(v)`; a float literal is truthy unless it is a zero.
unfoldable pub truthy : Value → Bool
truthy null = false
truthy (bool b) = b
truthy (int n) = not (n == 0)
truthy (negative n) = true
truthy (float s) = not (s == "0.0")
truthy (str s) = not (s == "")
truthy (arr nil) = false
truthy (arr (cons v vs)) = true
truthy (obj end) = false
truthy (obj (field k v fs)) = true

-- `str(v)`; how a number or a container prints is given.
unfoldable pub str_of : (Value → String) → Value → String
str_of render null = "None"
str_of render (bool true) = "True"
str_of render (bool false) = "False"
str_of render (str s) = s
str_of render v = render v

-- ===== src/Resource/Config.antt =====
-- The worker resources of the configuration: `WorkerResource`, `_resource_policies`,
-- `resource_for_assignee` and `_assignee_matches`.
pub mod Reading
pub mod Sole
use hermes_n8n_control_plane.Prelude.{
  ℕ, suc, ◌*◌, String, Bool, true, false, not, ◌&&◌, ◌||◌, Option, none, some, List, [], ◌∷◌, map,
  ◌==◌, text_comparable, if◌then◌else◌, any, keep, ltb, strip, codes, codes_le,
}
use hermes_n8n_control_plane.Json.{
  Value, Fields, null, bool, int, negative, float, str, obj, arr, end, field, nil, cons, get,
  get_or, items, truthy, str_of,
}
use hermes_n8n_control_plane.Router.Deliveries.Capping.{Integer, pos, negsuc}
use hermes_n8n_control_plane.Router.Scope.Sorting.{sort_by}
use hermes_n8n_control_plane.Resource.{
  Attempt, done, raised, refuse_if, admission, other, ◌>>=◌, ◌>>◌,
}
use hermes_n8n_control_plane.Resource.Glob.{fnmatchcase}
use Prim.Native.String.{◌++◌ as joins}

-- The answer of `int` or `float`: a number, a TypeError or ValueError, or an OverflowError.
pub data Number {ℓ} (A : Type ℓ) : Type ℓ where
  number : A → Number A
  invalid : Number A
  overflow : Number A

-- A `float` of seconds; `nanos n` is n billionths of a second.
pub data Duration : Type 0 where
  nan : Duration
  below_zero : Duration
  nanos : ℕ → Duration

-- What Python prints and reads: `str` of numbers and containers, `repr` of a text, `int` and `float`
-- of texts and numbers.
pub record Reader : Type 0 where
  pub render : Value → String
  pub quote : String → String
  pub whole : Value → Number Integer
  pub seconds : Value → Number Duration

abbrev pub one_second : ℕ
one_second = 1_000_000_000

-- DEFAULT_STALE_WORKER_GRACE_SECONDS
abbrev pub default_grace : Value
default_grace = float "5.0"

pub record WorkerResource : Type 0 where
  pub name : String
  pub capacity : ℕ
  pub assignees : List String
  pub grace : Duration

unfoldable pub resource_matches : WorkerResource → String → Bool
resource_matches r assignee = any (λ p. fnmatchcase assignee p) r.assignees

-- `int(value)`
unfoldable pub int_of : Reader → Value → Number Integer
int_of rd null = invalid
int_of rd (bool b) = number (pos (if b then 1 else 0))
int_of rd (int n) = number (pos n)
int_of rd (negative n) = number (negsuc n)
int_of rd (float s) = rd.whole (float s)
int_of rd (str s) = rd.whole (str s)
int_of rd (obj fs) = invalid
int_of rd (arr vs) = invalid

-- `float(value)`
unfoldable pub float_of : Reader → Value → Number Duration
float_of rd null = invalid
float_of rd (bool b) = number (nanos (if b then one_second else 0))
float_of rd (int n) = rd.seconds (int n)
float_of rd (negative n) = rd.seconds (negative n)
float_of rd (float s) = rd.seconds (float s)
float_of rd (str s) = rd.seconds (str s)
float_of rd (obj fs) = invalid
float_of rd (arr vs) = invalid

abbrev about : Reader → String → String → String
about rd name rest = joins "worker resource " (joins (rd.quote name) rest)

abbrev pub at_least_one : Reader → String → Integer → Attempt ℕ
at_least_one rd name (pos (suc n)) = done (suc n)
at_least_one rd name _ = raised (admission (about rd name " capacity must be >= 1"))

abbrev pub slots : Reader → String → Number Integer → Attempt ℕ
slots rd name (number n) = at_least_one rd name n
slots rd name invalid = raised (admission (about rd name " capacity must be a positive integer"))
slots rd name overflow = raised (other "OverflowError")

unfoldable pub read_capacity : Reader → String → Fields → Attempt ℕ
unfolding int_of
read_capacity rd name spec = slots rd name (int_of rd (get "capacity" spec))

-- `tuple(str(item).strip() for item in raw_assignees if str(item).strip())`
unfoldable pub stripped_names : Reader → List Value → List String
unfolding str_of
stripped_names rd vs = keep (λ s. not (s == "")) (map (λ v. strip (str_of rd.render v)) vs)

unfoldable pub read_assignees : Reader → String → Value → Attempt (List String)
unfolding stripped_names items
read_assignees rd name (str s) = done (stripped_names rd (str s ∷ []))
read_assignees rd name (arr vs) = done (stripped_names rd (items vs))
read_assignees rd name _ = raised (admission (about rd name " assignees must be a string or list"))

abbrev pub in_a_minute : Reader → String → Duration → Attempt Duration
in_a_minute rd name nan = done nan
in_a_minute rd name below_zero =
    raised (admission (about rd name " stale_worker_grace_seconds must be between 0 and 60"))
in_a_minute rd name (nanos n) =
    if ltb (60 * one_second) n
    then raised (admission (about rd name " stale_worker_grace_seconds must be between 0 and 60"))
    else done (nanos n)

abbrev pub patience : Reader → String → Number Duration → Attempt Duration
patience rd name (number d) = in_a_minute rd name d
patience rd name invalid =
    raised (admission (about rd name " stale_worker_grace_seconds must be numeric"))
patience rd name overflow = raised (other "OverflowError")

unfoldable pub read_grace : Reader → String → Fields → Attempt Duration
unfolding float_of
read_grace rd name spec =
    patience rd name (float_of rd (get_or "stale_worker_grace_seconds" spec default_grace))

abbrev pub is_empty : List String → Bool
is_empty [] = true
is_empty (x ∷ xs) = false

-- The checked fields of one resource.
unfoldable pub read_resource : Reader → String → Fields → Attempt WorkerResource
unfolding read_capacity read_assignees read_grace get_or
read_resource rd name spec = do
  count ← read_capacity rd name spec
  patterns ← read_assignees rd name (get_or "assignees" spec (arr nil))
  refuse_if (is_empty patterns) (about rd name " requires at least one assignee pattern")
  wait ← read_grace rd name spec
  done (record { name = name; capacity = count; assignees = patterns; grace = wait })

-- `raw_spec.get("enabled", True) is False`
abbrev pub is_false : Value → Bool
is_false (bool false) = true
is_false _ = false

-- One entry that has a name: none for a resource that is switched off.
unfoldable pub read_spec : Reader → String → Value → Attempt (Option WorkerResource)
unfolding read_resource
read_spec rd name (obj spec) = elim (is_false (get_or "enabled" spec (bool true))) [
  | true ↦ done none
  | false ↦ do r ← read_resource rd name spec; done (some r)
]
read_spec rd name _ = raised (admission (about rd name " must be a mapping"))

unfoldable pub read_entry : Reader → String → Value → Attempt (Option WorkerResource)
unfolding read_spec
read_entry rd raw_name v = do
  refuse_if (strip raw_name == "") "worker resource name must be non-empty"
  read_spec rd (strip raw_name) v

abbrev pub listed : Option WorkerResource → List WorkerResource → List WorkerResource
listed none rs = rs
listed (some r) rs = r ∷ rs

unfoldable pub read_entries : Reader → Fields → Attempt (List WorkerResource)
unfolding read_entry
read_entries rd end = done []
read_entries rd (field name spec rest) = do
  entry ← read_entry rd name spec
  rs ← read_entries rd rest
  done (listed entry rs)

unfoldable pub read_section : Reader → Value → Attempt (List WorkerResource)
unfolding read_entries
read_section rd null = done []
read_section rd (obj fs) = read_entries rd fs
read_section rd _ = raised (admission "kanban.worker_resources must be a mapping")

unfoldable pub resource_policies : Reader → Fields → Attempt (List WorkerResource)
unfolding read_section
resource_policies rd cfg = read_section rd (get "worker_resources" cfg)

-- `", ".join(names)`
abbrev joined : List String → String
joined [] = ""
joined (x ∷ []) = x
joined (x ∷ y ∷ ys) = joins x (joins ", " (joined (y ∷ ys)))

-- The choice among the policies that match: one, none, or an error for several.
unfoldable pub sole {ℓ} :
    {A : Type ℓ} → (A → String) → Reader → String → List A → Attempt (Option A)
unfolding sort_by
sole name_of rd name [] = done none
sole name_of rd name (r ∷ []) = done (some r)
sole name_of rd name (r ∷ q ∷ rs) = raised (
    admission (
      joins "assignee " (
        joins (rd.quote name) (
          joins " matches multiple worker resources: "
            (joined (sort_by codes (map name_of (r ∷ q ∷ rs))))))))

abbrev pub resource_name : WorkerResource → String
resource_name r = r.name

-- `resource_for_assignee`; the assignee is a text or null.
unfoldable pub resource_for_assignee : Reader → Fields → String → Attempt (Option WorkerResource)
unfolding resource_policies sole resource_matches
resource_for_assignee rd cfg assignee = elim (strip assignee == "") [
  | true ↦ done none
  | false ↦ do
    policies ← resource_policies rd cfg
    sole resource_name rd (strip assignee)
        (keep (λ r. resource_matches r (strip assignee)) policies)
]

-- What the scan and the gates use of a resource, whichever class it has.
pub record Pool : Type 0 where
  pub name : String
  pub capacity : ℕ
  pub grace : Duration
  pub matches : String → Bool

abbrev pub pool_of : WorkerResource → Pool
pool_of r = record {
  name = r.name;
  capacity = r.capacity;
  grace = r.grace;
  matches = λ assignee. resource_matches r assignee;
}

-- `_assignee_matches`; none is a null column.
unfoldable pub assignee_matches : Pool → Option String → Bool
assignee_matches r none = false
assignee_matches r (some s) = not (strip s == "") && r.matches (strip s)

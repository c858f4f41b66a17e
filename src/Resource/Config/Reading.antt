-- ===== src/Resource/Config/Reading.antt =====
-- What the checks of the configuration guarantee of every worker resource that is read.
use hermes_n8n_control_plane.Prelude.{
  ℕ, suc, ◌*◌, ◌≤◌, ◌<◌, String, ◌≡◌, ◌≢◌, refl, Bool, true, false, not, Option, none, some, List,
  [], ◌∷◌, map, ◌==◌, text_comparable, if◌then◌else◌, keep, ltb, strip, arith, All, Bool-cases, inl,
  inr, differ,
}
use hermes_n8n_control_plane.Json.{
  Value, Fields, null, bool, int, negative, float, str, obj, arr, end, field, nil, get, get_or,
  items, str_of,
}
use hermes_n8n_control_plane.Router.Deliveries.Capping.{Integer, pos, negsuc}
use hermes_n8n_control_plane.Resource.{
  done, Ensures, bind-Ensures, then-Ensures, done-Ensures, raised-Ensures,
}
use hermes_n8n_control_plane.Resource.Config.{
  Number, number, invalid, overflow, Duration, nan, below_zero, nanos, Reader, one_second,
  WorkerResource, at_least_one, slots, patience, read_capacity, read_assignees, in_a_minute,
  read_grace, stripped_names, is_empty, read_resource, read_spec, read_section, read_entry,
  read_entries, resource_policies, listed, float_of, int_of, is_false, default_grace,
}

-- A grace from none to a minute, or one that is no number: `nan` is neither below 0 nor above 60, so
-- that both tests let it pass. The wait takes it for no time at all.
unfoldable pub IsShort : Duration → Type 0
IsShort nan = Unit
IsShort below_zero = ⊥
IsShort (nanos n) = n ≤ 60 * one_second

pub record IsUsable (r : WorkerResource) : Type 0 where
  pub named : r.name ≢ ""
  pub has_slots : 0 < r.capacity
  pub has_patterns : is_empty r.assignees ≡ false
  pub patterns_filled : All (λ s. s ≢ "") r.assignees
  pub waits : IsShort r.grace

at_least_one-pos :
    (rd : Reader) (name : String) (n : Integer) → Ensures (λ k. 0 < k) (at_least_one rd name n)
at_least_one-pos rd name (pos (suc n)) = done-Ensures _ (omega arith)
at_least_one-pos rd name (pos ℕ.zero) = raised-Ensures _
at_least_one-pos rd name (negsuc n) = raised-Ensures _

read_capacity-pos :
    (rd : Reader) (name : String) (spec : Fields)
    → Ensures (λ k. 0 < k) (read_capacity rd name spec)
unfolding read_capacity
read_capacity-pos rd name spec = of_number (int_of rd (get "capacity" spec))
  where
    of_number : (n : Number Integer) → Ensures (λ k. 0 < k) (slots rd name n)
    of_number (number n) = at_least_one-pos rd name n
    of_number invalid = raised-Ensures _
    of_number overflow = raised-Ensures _

in_a_minute-IsShort :
    (rd : Reader) (name : String) (d : Duration) → Ensures IsShort (in_a_minute rd name d)
unfolding IsShort
in_a_minute-IsShort rd name nan = done-Ensures IsShort tt
in_a_minute-IsShort rd name below_zero = raised-Ensures IsShort
in_a_minute-IsShort rd name (nanos n) = elim (Bool-cases (ltb (60 * one_second) n)) [
  | inl long ↦ rw long (raised-Ensures IsShort)
  | inr short ↦ rw short (done-Ensures IsShort (ground arith))
]

read_grace-IsShort :
    (rd : Reader) (name : String) (spec : Fields) → Ensures IsShort (read_grace rd name spec)
unfolding read_grace
read_grace-IsShort rd name spec =
    of_number (float_of rd (get_or "stale_worker_grace_seconds" spec default_grace))
  where
    of_number : (n : Number Duration) → Ensures IsShort (patience rd name n)
    of_number (number d) = in_a_minute-IsShort rd name d
    of_number invalid = raised-Ensures IsShort
    of_number overflow = raised-Ensures IsShort

-- Only names that are not blank are kept.
stripped_names-filled : (rd : Reader) (vs : List Value) → All (λ s. s ≢ "") (stripped_names rd vs)
unfolding stripped_names
stripped_names-filled rd vs = filled (map (λ v. strip (str_of rd.render v)) vs)
  where
    step :
        (b : Bool) (s : String) (rest : List String)
        → (s == "") ≡ b
        → All (λ s. s ≢ "") rest
        → All (λ s. s ≢ "") (if not b then s ∷ rest else rest)
    step true s rest e h = h
    step false s rest e h = (differ s "" e, h)

    filled : (ss : List String) → All (λ s. s ≢ "") (keep (λ s. not (s == "")) ss)
    filled [] = tt
    filled (s ∷ ss) = step (s == "") s (keep (λ s. not (s == "")) ss) refl (filled ss)

AllFilled : List String → Type 0
AllFilled ss = All (λ s. s ≢ "") ss

read_assignees-filled :
    (rd : Reader) (name : String) (v : Value) → Ensures AllFilled (read_assignees rd name v)
unfolding read_assignees AllFilled
read_assignees-filled rd name (str s) =
    done-Ensures AllFilled (stripped_names-filled rd (str s ∷ []))
read_assignees-filled rd name (arr vs) =
    done-Ensures AllFilled (stripped_names-filled rd (items vs))
read_assignees-filled rd name null = raised-Ensures AllFilled
read_assignees-filled rd name (bool b) = raised-Ensures AllFilled
read_assignees-filled rd name (int n) = raised-Ensures AllFilled
read_assignees-filled rd name (negative n) = raised-Ensures AllFilled
read_assignees-filled rd name (float s) = raised-Ensures AllFilled
read_assignees-filled rd name (obj fs) = raised-Ensures AllFilled

read_resource-IsUsable :
    (rd : Reader) (name : String) (spec : Fields)
    → name ≢ ""
    → Ensures IsUsable (read_resource rd name spec)
unfolding read_resource AllFilled
read_resource-IsUsable rd name spec n =
    bind-Ensures (λ k. 0 < k) IsUsable (read_capacity-pos rd name spec)
      (λ count c.
        bind-Ensures AllFilled IsUsable
          (read_assignees-filled rd name (get_or "assignees" spec (arr nil)))
          (λ patterns p. then-Ensures IsUsable _ _ (λ some_left.
            bind-Ensures IsShort IsUsable (read_grace-IsShort rd name spec) (λ wait w.
              done-Ensures IsUsable (record {
                named = n;
                has_slots = c;
                has_patterns = some_left;
                patterns_filled = p;
                waits = w;
              })))))

IfAny : Option WorkerResource → Type 0
IfAny none = Unit
IfAny (some r) = IsUsable r

read_spec-IsUsable :
    (rd : Reader) (name : String) (v : Value) → name ≢ "" → Ensures IfAny (read_spec rd name v)
unfolding read_spec IfAny
read_spec-IsUsable rd name (obj spec) n =
    elim (Bool-cases (is_false (get_or "enabled" spec (bool true)))) [
      | inl off ↦ rw (off, read_spec) (done-Ensures IfAny tt)
      | inr on ↦
          rw (on, read_spec)
            (bind-Ensures IsUsable IfAny (read_resource-IsUsable rd name spec n)
              (λ r u. done-Ensures IfAny u))
    ]
read_spec-IsUsable rd name null n = raised-Ensures IfAny
read_spec-IsUsable rd name (bool b) n = raised-Ensures IfAny
read_spec-IsUsable rd name (int k) n = raised-Ensures IfAny
read_spec-IsUsable rd name (negative k) n = raised-Ensures IfAny
read_spec-IsUsable rd name (float s) n = raised-Ensures IfAny
read_spec-IsUsable rd name (str s) n = raised-Ensures IfAny
read_spec-IsUsable rd name (arr vs) n = raised-Ensures IfAny

listed-IsUsable :
    (o : Option WorkerResource) (rs : List WorkerResource)
    → IfAny o
    → All IsUsable rs
    → All IsUsable (listed o rs)
unfolding IfAny
listed-IsUsable none rs u us = us
listed-IsUsable (some r) rs u us = (u, us)

AllUsable : List WorkerResource → Type 0
AllUsable rs = All IsUsable rs

read_entries-IsUsable : (rd : Reader) (fs : Fields) → Ensures AllUsable (read_entries rd fs)
unfolding read_entries read_entry AllUsable
read_entries-IsUsable rd end = done-Ensures AllUsable tt
read_entries-IsUsable rd (field name spec rest) =
    bind-Ensures IfAny AllUsable
      (then-Ensures IfAny _ _
        (λ named. read_spec-IsUsable rd (strip name) spec (differ (strip name) "" named)))
      (λ entry u.
        bind-Ensures AllUsable AllUsable (read_entries-IsUsable rd rest)
          (λ rs us. done-Ensures AllUsable (listed-IsUsable entry rs u us)))

read_section-IsUsable : (rd : Reader) (v : Value) → Ensures AllUsable (read_section rd v)
unfolding read_section AllUsable
read_section-IsUsable rd null = done-Ensures AllUsable tt
read_section-IsUsable rd (obj fs) = read_entries-IsUsable rd fs
read_section-IsUsable rd (bool b) = raised-Ensures AllUsable
read_section-IsUsable rd (int n) = raised-Ensures AllUsable
read_section-IsUsable rd (negative n) = raised-Ensures AllUsable
read_section-IsUsable rd (float s) = raised-Ensures AllUsable
read_section-IsUsable rd (str s) = raised-Ensures AllUsable
read_section-IsUsable rd (arr vs) = raised-Ensures AllUsable

-- Every worker resource that the configuration yields has a name, at least one slot, at least one
-- assignee pattern, no blank pattern, and a grace period from 0 to 60 seconds or one that is nan,
-- which the tests of the code do not refuse.
pub resource_policies-IsUsable :
    (rd : Reader) (cfg : Fields) (rs : List WorkerResource)
    → resource_policies rd cfg ≡ done rs
    → All IsUsable rs
unfolding resource_policies AllUsable
resource_policies-IsUsable rd cfg rs h =
    (read_section-IsUsable rd (get "worker_resources" cfg)).of_value rs h

-- ===== src/Dynamic/Policies.antt =====
-- Resources that a profile belongs to only while its backend fits: `_backend_matches` and the policies
-- of `install_dynamic_resource_policy`.
pub mod Static
use hermes_n8n_control_plane.Prelude.{
  ℕ, String, Bool, true, false, not, ◌&&◌, ◌||◌, Option, none, some, List, [], ◌∷◌, map, ◌==◌,
  text_comparable, codes_comparable, if◌then◌else◌, keep, strip, codes,
}
use hermes_n8n_control_plane.Json.{Value, Fields, obj, end, get, get_or, truthy, str_of}
use hermes_n8n_control_plane.Router.Events.{text_or_empty}
use hermes_n8n_control_plane.Resource.{Attempt, done, raised, admission, ◌>>=◌}
use hermes_n8n_control_plane.Resource.Config.{
  Reader, WorkerResource, Pool, resource_matches, resource_policies, sole,
}
use hermes_n8n_control_plane.Dynamic.Backends.{
  Net, Kind, local, cloud, unknown, ProfileBackend, lower, resolve_profile_backend,
}
use Prim.Native.String.{◌++◌ as joins}

-- The checked selector of a policy.
pub data Selector : Type 0 where
  any_backend : Selector
  local_only : Selector
  cloud_only : Selector

-- `DynamicWorkerResource`
pub record DynamicResource : Type 0 where
  pub policy : WorkerResource
  pub backend : Selector

abbrev pub kind_fits : Selector → Kind → Bool
kind_fits any_backend kind = true
kind_fits local_only local = true
kind_fits local_only cloud = false
kind_fits local_only unknown = true
kind_fits cloud_only local = false
kind_fits cloud_only cloud = true
kind_fits cloud_only unknown = false

-- `_backend_matches`
unfoldable pub backend_matches : Net → Selector → String → Bool
unfolding resolve_profile_backend
backend_matches net selector assignee =
    kind_fits selector (resolve_profile_backend net assignee).kind

-- `DynamicWorkerResource.matches`
unfoldable pub dynamic_matches : Net → DynamicResource → String → Bool
unfolding backend_matches resource_matches strip
dynamic_matches net r assignee =
    not (strip assignee == "")
    && resource_matches r.policy (strip assignee)
    && backend_matches net r.backend (strip assignee)

-- `str(raw_spec.get("backend") or "any").strip().lower() or "any"`
unfoldable pub selector_text : Net → Fields → List ℕ
unfolding lower strip truthy str_of get
selector_text net spec =
    let text =
      if truthy (get "backend" spec)
      then lower net.lower_table (codes (strip (str_of net.render (get "backend" spec))))
      else codes "any" in
    if text == [] then codes "any" else text

unfoldable pub read_selector : Net → Reader → String → Fields → Attempt Selector
unfolding selector_text
read_selector net rd name spec =
    if selector_text net spec == codes "any" || selector_text net spec == codes "*"
    then done any_backend
    else if selector_text net spec == codes "local"
    then done local_only
    else if selector_text net spec == codes "cloud"
    then done cloud_only
    else raised (
        admission (
          joins "worker resource "
            (joins (rd.quote name) " backend must be 'any', 'local', or 'cloud'")))

abbrev pub as_mapping : Value → Fields
as_mapping (obj fs) = fs
as_mapping _ = end

-- The policies that were parsed, each with the selector of its entry; an entry that is not found
-- under the stripped name has none.
unfoldable pub with_selectors :
    Net → Reader → Fields → List WorkerResource → Attempt (List DynamicResource)
unfolding read_selector get_or
with_selectors net rd raw [] = done []
with_selectors net rd raw (p ∷ ps) = do
  selector ← read_selector net rd p.name (as_mapping (get_or p.name raw (obj end)))
  rest ← with_selectors net rd raw ps
  done (record { policy = p; backend = selector } ∷ rest)

-- `dynamic_policies`
unfoldable pub dynamic_policies : Net → Reader → Fields → Attempt (List DynamicResource)
unfolding resource_policies with_selectors get
dynamic_policies net rd cfg = do
  parsed ← resource_policies rd cfg
  with_selectors net rd (as_mapping (get "worker_resources" cfg)) parsed

abbrev pub dynamic_name : DynamicResource → String
dynamic_name r = r.policy.name

-- `resource_for_assignee` with the policies above.
unfoldable pub dynamic_for_assignee :
    Net → Reader → Fields → String → Attempt (Option DynamicResource)
unfolding dynamic_policies sole dynamic_matches strip
dynamic_for_assignee net rd cfg assignee = elim (strip assignee == "") [
  | true ↦ done none
  | false ↦ do
    policies ← dynamic_policies net rd cfg
    sole dynamic_name rd (strip assignee)
        (keep (λ r. dynamic_matches net r (strip assignee)) policies)
]

abbrev pub dynamic_pool : Net → DynamicResource → Pool
dynamic_pool net r = record {
  name = r.policy.name;
  capacity = r.policy.capacity;
  grace = r.policy.grace;
  matches = λ assignee. dynamic_matches net r assignee;
}

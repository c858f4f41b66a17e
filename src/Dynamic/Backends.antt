-- ===== src/Dynamic/Backends.antt =====
-- Where the model of a profile runs: `_provider_is_local`, `_host_is_local`,
-- `_model_config_for_profile` and `resolve_profile_backend`.
use hermes_n8n_control_plane.Prelude.{
  ℕ, ◌+◌, String, Bool, true, false, not, ◌&&◌, ◌||◌, Option, none, some, List, [], ◌∷◌, ◌++◌, any,
  contains, ◌==◌, number_comparable, text_comparable, codes_comparable, if◌then◌else◌, is_upper,
  ltb, strip, codes, trim_left, trim_right,
}
use hermes_n8n_control_plane.Json.{Value, Fields, str, obj, end, field, get, put, truthy, str_of}
use hermes_n8n_control_plane.Lease.Actuator.{rstrip_slash}
use hermes_n8n_control_plane.Router.Events.{text_or_empty}
use hermes_n8n_control_plane.Router.Server.Control.{occurs}
use hermes_n8n_control_plane.Resource.Workers.{codes_within}
use Prim.Native.String.{◌++◌ as joins}

-- `ipaddress.ip_address(host)` by its four tests.
pub record Address : Type 0 where
  pub is_loopback : Bool
  pub is_private : Bool
  pub is_link_local : Bool
  pub is_unspecified : Bool

-- `str.lower` beyond ASCII, `urlparse(url).hostname`, the address of a host if it is one, and the
-- configuration file of a profile, none where it cannot be found or read.
pub record Net : Type 0 where
  pub render : Value → String
  pub lower_table : ℕ → List ℕ
  pub hostname : String → Option String
  pub ip_address : List ℕ → Option Address
  pub profile_config : String → Option Value

unfoldable pub lower : (ℕ → List ℕ) → List ℕ → List ℕ
lower table [] = []
lower table (c ∷ cs) =
    (if is_upper c then (c + 32) ∷ [] else if ltb c 128 then c ∷ [] else table c) ++ lower table cs

-- `_normalized_provider`
unfoldable pub normalized_provider : Net → Value → List ℕ
unfolding lower strip truthy str_of
normalized_provider net v = lower net.lower_table (codes (strip (text_or_empty net.render v)))

-- `_LOCAL_PROVIDER_HINTS`
abbrev pub local_provider_hints : List (List ℕ)
local_provider_hints =
    codes "llamacpp"
    ∷ codes "llama-cpp"
    ∷ codes "llama.cpp"
    ∷ codes "ollama"
    ∷ codes "lmstudio"
    ∷ codes "vllm"
    ∷ codes "sglang"
    ∷ codes "local"
    ∷ codes "ornith"
    ∷ []

-- `tokens`
abbrev pub local_tokens : List (List ℕ)
local_tokens =
    codes "local"
    ∷ codes "llamacpp"
    ∷ codes "llama-cpp"
    ∷ codes "llama.cpp"
    ∷ codes "ornith"
    ∷ codes "ollama"
    ∷ codes "vllm"
    ∷ codes "sglang"
    ∷ codes "lmstudio"
    ∷ []

-- `_provider_is_local`, on a provider that is normalized.
unfoldable pub provider_is_local : List ℕ → Bool
unfolding codes_within
provider_is_local norm =
    not (norm == [])
    && (contains norm local_provider_hints || any (λ token. codes_within token norm) local_tokens)

-- `_normalized_url`
unfoldable pub normalized_url : Net → Value → String
unfolding strip rstrip_slash truthy str_of
normalized_url net v = rstrip_slash (strip (text_or_empty net.render v))

-- `s.rstrip(".")`
unfoldable pub rstrip_dot : List ℕ → List ℕ
rstrip_dot [] = []
rstrip_dot (c ∷ cs) = let rest = rstrip_dot cs in if c == b'.' && rest == [] then [] else c ∷ rest

abbrev pub hostname_or_empty : Option String → String
hostname_or_empty none = ""
hostname_or_empty (some h) = h

-- `_host_from_url`
unfoldable pub host_from_url : Net → String → List ℕ
unfolding occurs lower rstrip_dot strip
host_from_url net url =
    if url == ""
    then []
    else rstrip_dot (
        lower net.lower_table (
          codes (
            strip (
              hostname_or_empty
                (net.hostname (if occurs "://" url then url else joins "http://" url))))))

-- `text.endswith(suffix)`
abbrev pub ends_with : List ℕ → List ℕ → Bool
ends_with suffix [] = suffix == []
ends_with suffix (c ∷ cs) = suffix == c ∷ cs || ends_with suffix cs

abbrev pub local_host_aliases : List (List ℕ)
local_host_aliases =
    codes "localhost" ∷ codes "0.0.0.0" ∷ codes "::1" ∷ codes "host.docker.internal" ∷ []

abbrev pub address_is_local : List ℕ → Option Address → Bool
address_is_local host none = ends_with (codes ".local") host
address_is_local host (some a) =
    a.is_loopback || a.is_private || a.is_link_local || a.is_unspecified

abbrev pub bare_host_is_local : Net → List ℕ → Bool
bare_host_is_local net host =
    if host == []
    then false
    else if contains host local_host_aliases || ends_with (codes ".localhost") host
    then true
    else address_is_local host (net.ip_address host)

-- `_host_is_local`
unfoldable pub host_is_local : Net → List ℕ → Bool
unfolding trim_left trim_right
host_is_local net host =
    bare_host_is_local net (rstrip_dot (lower net.lower_table (trim_right (trim_left host))))

pub data Kind : Type 0 where
  local : Kind
  cloud : Kind
  unknown : Kind

pub record ProfileBackend : Type 0 where
  pub profile : String
  pub provider : List ℕ
  pub model : String
  pub base_url : String
  pub kind : Kind

-- The nested form of `model.default`: its provider and model fill what the mapping lacks.
abbrev pub filled : String → Fields → Fields → Fields
filled key nested value =
    if not (truthy (get key value)) && truthy (get key nested)
    then put key (get key nested) value
    else value

abbrev pub first_truthy : Value → Value → Value
first_truthy a b = if truthy a then a else b

unfoldable pub with_nested_default : Fields → Value → Fields
unfolding get put truthy
with_nested_default value (obj nested) =
    put "default" (first_truthy (first_truthy (get "model" nested) (get "default" nested)) (str ""))
      (filled "model" nested (filled "provider" nested value))
with_nested_default value _ = value

-- The `model` section of a configuration: a text is the default model.
unfoldable pub model_section : Value → Fields
unfolding with_nested_default
model_section (str s) = field "default" (str s) end
model_section (obj value) = with_nested_default value (get "default" value)
model_section _ = end

-- `_model_config_for_profile`; none where it raises.
unfoldable pub model_config_for_profile : Net → String → Option Fields
unfolding model_section truthy
model_config_for_profile net profile = elim (net.profile_config profile) [
  | none ↦ none
  | some cfg ↦ elim cfg [
    | obj fs ↦ some (model_section (if truthy (get "model" fs) then get "model" fs else obj end))
    | _ ↦ none
  ]
]

-- The kind of a backend by its URL, or else by its provider.
unfoldable pub backend_kind : Net → List ℕ → String → Kind
unfolding host_is_local host_from_url provider_is_local
backend_kind net provider base_url =
    if not (base_url == "")
    then (if host_is_local net (host_from_url net base_url) then local else cloud)
    else if provider_is_local provider
    then local
    else if not (provider == [])
    then cloud
    else unknown

abbrev pub unresolved : String → ProfileBackend
unresolved profile = record {
  profile = profile;
  provider = [];
  model = "";
  base_url = "";
  kind = unknown;
}

abbrev pub backend_of : Net → String → Option Fields → ProfileBackend
backend_of net profile none = unresolved profile
backend_of net profile (some cfg) = record {
  profile = profile;
  provider = normalized_provider net (get "provider" cfg);
  model = strip (text_or_empty net.render (first_truthy (get "default" cfg) (get "model" cfg)));
  base_url = normalized_url net (get "base_url" cfg);
  kind =
      backend_kind net (normalized_provider net (get "provider" cfg))
        (normalized_url net (get "base_url" cfg));
}

-- `resolve_profile_backend`
unfoldable pub resolve_profile_backend : Net → String → ProfileBackend
unfolding model_config_for_profile backend_kind normalized_provider normalized_url
resolve_profile_backend net profile_name =
    if strip profile_name == ""
    then unresolved ""
    else backend_of net (strip profile_name) (model_config_for_profile net (strip profile_name))

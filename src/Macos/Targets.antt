-- ===== src/Macos/Targets.antt =====
-- macos/service/src/mnemosyne_macos/models.py: targets, resident models and engine snapshots, and what
-- the coordinator decides from them; fleet_protocol.py: `derive_macos_capacity`.
-- Engines and endpoints are their texts.
use mnemosyne_inference.Prelude.{
  ℕ, String, Bool, true, false, ◌&&◌, ◌||◌, Option, none, some, List, [], ◌∷◌, ◌++◌, min, str_eq,
  is_nil, any_of, all_of, if◌then◌else◌,
}
use mnemosyne_inference.Prelude.Dict.{has}

pub record TargetKey : Type 0 where
  pub engine : String
  pub canonical_model_id : String
  pub load_config_digest : String

-- `parallel` is the load option of that name, where it is a positive integer.
pub record ResolvedTarget : Type 0 where
  pub alias : String
  pub key : TargetKey
  pub wire_model : String
  pub capabilities : List String
  pub parallel : Option ℕ

pub data ProcessMode : Type 0 where
  generation rerank embeddings : ProcessMode
  unsupported : (capabilities : List String) → ProcessMode

abbrev pub generation_endpoints : List String
generation_endpoints = "chat/completions" ∷ "completions" ∷ "responses" ∷ "messages" ∷ []

unfoldable pub llama_cpp_process_mode : List String → ProcessMode
llama_cpp_process_mode capabilities =
    if any_of (λ c. has c generation_endpoints) capabilities
    then generation
    else if has "rerank" capabilities
    then rerank
    else if has "embeddings" capabilities
    then embeddings
    else unsupported capabilities

-- Sorted texts of two sets are equal where the sets are.
unfoldable pub mode_eq : ProcessMode → ProcessMode → Bool
mode_eq generation generation = true
mode_eq rerank rerank = true
mode_eq embeddings embeddings = true
mode_eq (unsupported a) (unsupported b) = all_of (λ c. has c b) a && all_of (λ c. has c a) b
mode_eq a b = false

unfoldable pub key_eq : TargetKey → TargetKey → Bool
key_eq a b =
    str_eq a.engine b.engine
    && str_eq a.canonical_model_id b.canonical_model_id
    && str_eq a.load_config_digest b.load_config_digest

-- effective_load_identity(a) == effective_load_identity(b)
unfoldable pub same_load : ResolvedTarget → ResolvedTarget → Bool
same_load a b =
    key_eq a.key b.key
    && str_eq a.wire_model b.wire_model
    && (if str_eq a.key.engine "llama.cpp"
        then mode_eq (llama_cpp_process_mode a.capabilities) (llama_cpp_process_mode b.capabilities)
        else true)

unfoldable pub or_one : Option ℕ → ℕ
or_one none = 1
or_one (some n) = n

-- `derived` of `derive_macos_capacity`, by the limit that the adapter observed. An adapter's limit
-- is positive, which `CapacityHint` checks.
unfoldable pub derived_limit : (hint : Option ℕ) → ResolvedTarget → ℕ
derived_limit (some limit) t = limit
derived_limit none t =
    if str_eq t.key.engine "llama.cpp" || str_eq t.key.engine "ds4" then or_one t.parallel else 1

unfoldable pub effective_limit : (configured : Option ℕ) → (derived : ℕ) → ℕ
effective_limit none derived = derived
effective_limit (some configured) derived = min derived configured

pub record ResidentInstance : Type 0 where
  pub engine : String
  pub canonical_model_id : String
  pub is_ready : Bool
  pub managed : Bool

pub record EngineSnapshot : Type 0 where
  pub engine : String
  pub residents : List ResidentInstance
  pub authoritative : Bool

-- What the adapters answer in turn, each with its engine; `none` is an exception.
abbrev pub Inspection : Type 0
Inspection = List (String × Option EngineSnapshot)

unfoldable pub validate_snapshot : String → EngineSnapshot → Bool
validate_snapshot engine s =
    str_eq s.engine engine && all_of (λ r. str_eq r.engine engine) s.residents

unfoldable pub add_residents :
    String → Option EngineSnapshot → Option (List ResidentInstance) → Option (List ResidentInstance)
add_residents engine none later = none
add_residents engine (some s) none = none
add_residents engine (some s) (some rs) =
    if validate_snapshot engine s && s.authoritative then some (s.residents ++ rs) else none

-- `_inspect_all`, and the residents of its snapshots; `none` is the exception.
unfoldable pub inspect_all : Inspection → Option (List ResidentInstance)
inspect_all [] = some []
inspect_all ((engine, s) ∷ rest) = add_residents engine s (inspect_all rest)

unfoldable pub is_instance_of : ResolvedTarget → ResidentInstance → Bool
is_instance_of t r =
    str_eq r.engine t.key.engine
    && str_eq r.canonical_model_id t.key.canonical_model_id
    && r.is_ready
    && r.managed

-- Exactly one resident, which is the target's: the verification behind a load.
unfoldable pub only_resident : ResolvedTarget → List ResidentInstance → Bool
only_resident t [] = false
only_resident t (r ∷ []) = is_instance_of t r
only_resident t (r ∷ q ∷ rs) = false

unfoldable pub is_empty_inspection : Option (List ResidentInstance) → Bool
is_empty_inspection none = false
is_empty_inspection (some rs) = is_nil rs

unfoldable pub verifies : ResolvedTarget → Option (List ResidentInstance) → Bool
verifies t none = false
verifies t (some rs) = only_resident t rs

-- `matches` of `reconcile` and of `audit`.
unfoldable pub matches : Option ResolvedTarget → List ResidentInstance → Bool
matches none rs = is_nil rs
matches (some t) rs = only_resident t rs

-- ===== src/Fleet/Protocol/Fields.antt =====
-- fleet/src/mnemosyne_fleet/protocol.py: the constraints of each model's fields and the validators of
-- the models below the snapshot. Each returns whether the model is accepted: every refusal is a
-- `ValueError`, and no caller tells them apart.
use mnemosyne_inference.Prelude.{
  ℕ, ◌+◌, ◌-◌, ◌*◌, String, Bool, true, false, ◌&&◌, ◌||◌, not, Option, none, some, List, [], ◌∷◌,
  leb, ◌==◌, str_eq, is_none, length, any_of, all_of, min,
}
use mnemosyne_inference.Prelude.Dict.{Dict, has}
use mnemosyne_inference.Prelude.Text.{
  codes, text_length, starts_with, drop, is_lower_text, parses_hex, sorted_unique, split_on,
}
use mnemosyne_inference.Fleet.Protocol.Types.{
  NodeDescriptor, Health, Residency, Capacity, Admission, Artifact, DeploymentIdentity,
  IdentityConfidence, unverified, authoritative, Deployment, UsageDelivery,
}

-- Field(ge=…, le=…)
abbrev pub within : ℕ → ℕ → ℕ → Bool
within lo hi n = leb lo n && leb n hi

-- Field(min_length=…, max_length=…)
abbrev pub sized : ℕ → ℕ → String → Bool
sized lo hi s = within lo hi (text_length s)

-- A field that may be `None`.
abbrev pub when_given {ℓ} : {A : Type ℓ} → (A → Bool) → Option A → Bool
when_given test none = true
when_given test (some a) = test a

abbrev capability_names : List String
capability_names =
    "chat/completions" ∷ "completions" ∷ "responses" ∷ "messages" ∷ "embeddings" ∷ "rerank"
    ∷ "images/generations" ∷ []

-- `_validate_sha256`, and `Residency.validate_optional_digest` on a given value.
unfoldable pub is_sha256 : String → Bool
unfolding starts_with is_lower_text parses_hex drop
is_sha256 value =
    starts_with (codes "sha256:") (codes value)
    && text_length value == 71
    && is_lower_text (codes value)
    && parses_hex (drop 7 (codes value))

-- The pattern `^[a-z0-9_]{1,64}$`.
unfoldable pub is_code_char : ℕ → Bool
is_code_char c = leb b'a' c && leb c b'z' || (leb b'0' c && leb c b'9' || c == b'_')

unfoldable pub is_diagnostic_code : String → Bool
unfolding is_code_char all_of
is_diagnostic_code s = sized 1 64 s && all_of is_code_char (codes s)

unfoldable pub accepts_node : NodeDescriptor → Bool
accepts_node n = sized 1 128 n.node_id && sized 1 128 n.instance_id && sized 1 64 n.version

unfoldable pub accepts_health : Health → Bool
unfolding is_diagnostic_code
accepts_health h = when_given is_diagnostic_code h.diagnostic_code

unfoldable pub accepts_residency : Residency → Bool
accepts_residency r =
    when_given (sized 1 128) r.alias
    && when_given is_sha256 r.deployment_id
    && when_given (sized 1 64) r.engine
    && when_given is_sha256 r.transition_target

-- abs(saturation - active / effective_limit) <= 1e-6
unfoldable pub is_close : ℕ → ℕ → ℕ → Bool
is_close saturation active limit =
    leb (saturation * limit) (active * 1_000_000_000 + 1_000 * limit)
    && leb (active * 1_000_000_000) (saturation * limit + 1_000 * limit)

unfoldable pub capacity_is_consistent : Capacity → Bool
unfolding is_close
capacity_is_consistent c =
    c.effective_limit == elim c.configured_max_concurrency [
      | none ↦ c.derived_limit
      | some ceiling ↦ min c.derived_limit ceiling
    ]
    && (c.available == 0 || c.available == c.effective_limit - c.active)
    && is_close c.saturation c.active c.effective_limit

unfoldable pub accepts_capacity : Capacity → Bool
accepts_capacity c =
    within 1 100_000 c.derived_limit
    && when_given (within 1 100_000) c.configured_max_concurrency
    && within 1 100_000 c.effective_limit
    && leb c.active 1_000_000
    && leb c.queued 1_000_000
    && leb c.available 100_000
    && sized 1 96 c.source
    && capacity_is_consistent c

unfoldable pub total : Dict ℕ → ℕ
total [] = 0
total ((d, n) ∷ m) = n + total m

unfoldable pub accepts_queue_entry : String × ℕ → Bool
accepts_queue_entry (d, n) = is_sha256 d && within 1 1_000_000 n

unfoldable pub admission_is_consistent : Admission → Bool
admission_is_consistent a =
    a.queue_depth == total a.queued_by_deployment && leb a.queue_depth a.queue_limit

unfoldable pub accepts_admission : Admission → Bool
unfolding accepts_queue_entry all_of
accepts_admission a =
    leb a.queue_depth 1_000_000
    && within 1 1_000_000 a.queue_limit
    && leb (length a.queued_by_deployment) 10_000
    && all_of accepts_queue_entry a.queued_by_deployment
    && admission_is_consistent a

unfoldable pub is_bad_segment : List ℕ → Bool
is_bad_segment [] = true
is_bad_segment (a ∷ []) = a == b'.'
is_bad_segment (a ∷ b ∷ []) = a == b'.' && b == b'.'
is_bad_segment _ = false

unfoldable pub is_safe_path : String → Bool
unfolding is_bad_segment split_on any_of
is_safe_path item =
    within 1 512 (text_length item)
    && not (starts_with (b'/' ∷ []) (codes item))
    && not (any_of (λ c. c == b'\\') (codes item))
    && not (any_of is_bad_segment (split_on b'/' [] (codes item)))

unfoldable pub accepts_artifact : Artifact → Bool
unfolding sorted_unique is_safe_path
accepts_artifact a =
    sized 1 64 a.format
    && leb (length a.selected_files) 128
    && sorted_unique a.selected_files
    && all_of is_safe_path a.selected_files
    && when_given (sized 0 128) a.quantization
    && when_given is_sha256 a.content_digest

-- `/…`, or a drive letter with `:\`.
unfoldable pub is_absolute : List ℕ → Bool
is_absolute (a ∷ b ∷ c ∷ s) =
    a == b'/' || ((leb b'a' a && leb a b'z' || leb b'A' a && leb a b'Z') && b == b':' && c == b'\\')
is_absolute (a ∷ s) = a == b'/'
is_absolute [] = false

unfoldable pub accepts_identity : DeploymentIdentity → Bool
unfolding is_absolute
accepts_identity i =
    i.protocol == 1
    && sized 1 64 i.engine
    && sized 1 512 i.upstream_model
    && not (is_absolute (codes i.upstream_model))
    && when_given (sized 0 256) i.resolved_revision
    && accepts_artifact i.artifact
    && sized 1 64 i.kind
    && leb 1 (length i.capabilities)
    && sorted_unique i.capabilities
    && all_of (λ c. has c capability_names) i.capabilities
    && is_sha256 i.load_config_digest

unfoldable pub is_revision : String → Bool
is_revision s =
    within 40 64 (text_length s)
    && all_of (λ c. leb b'0' c && leb c b'9' || leb b'a' c && leb c b'f') (codes s)

abbrev pub is_authoritative : IdentityConfidence → Bool
is_authoritative authoritative = true
is_authoritative unverified = false

-- What `Deployment.validate_identity` asks of the flags. An empty revision fits no pattern.
unfoldable pub identity_is_consistent : Deployment → Bool
identity_is_consistent d =
    (not d.fleet_eligible || is_authoritative d.identity_confidence)
    && (not d.fleet_eligible
        || (when_given is_revision d.identity.resolved_revision
              && not (is_none d.identity.resolved_revision)
            || not (is_none d.identity.artifact.content_digest)))

-- `canonical_digest` stands for the hash of the identity's canonical JSON (`json`, `hashlib`).
module _ (canonical_digest : DeploymentIdentity → String) where
  unfoldable pub accepts_deployment : Deployment → Bool
  accepts_deployment d =
      sized 1 128 d.alias
      && is_sha256 d.deployment_id
      && accepts_identity d.identity
      && accepts_capacity d.capacity
      && str_eq d.deployment_id (canonical_digest d.identity)
      && identity_is_consistent d

unfoldable pub accepts_usage_delivery : UsageDelivery → Bool
accepts_usage_delivery u =
    leb u.outbox_pending 100_000_000 && when_given is_diagnostic_code u.last_error_code

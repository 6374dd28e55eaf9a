-- ===== src/Usage/Types.antt =====
-- usage_normalization.py: decoded JSON, the protocols and a normalized usage.
use mnemosyne_inference.Prelude.{ℕ, String, Bool}

-- An integer, or a float of an integral value: a natural number n, or -(n + 1).
pub data Whole : Type 0 where
  pos negsuc : ℕ → Whole

mutual
  pub data Json : Type 0 where
    null fraction : Json
    boolean : Bool → Json
    whole : Whole → Json
    text : String → Json
    array : Items → Json
    object : Fields → Json

  pub data Items : Type 0 where
    no_items : Items
    item : Json → Items → Items

  -- A mapping, its keys in order.
  pub data Fields : Type 0 where
    no_fields : Fields
    field : String → Json → Fields → Fields

pub data UsageProtocol : Type 0 where
  openai openai_responses anthropic_messages : UsageProtocol

pub record NormalizedUsage : Type 0 where
  pub prompt_tokens : ℕ
  pub completion_tokens : ℕ
  pub total_tokens : ℕ
  pub raw : Fields

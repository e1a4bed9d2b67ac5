-- ===== src/Json.antt =====
-- JSON values as Python holds them: the payloads, the language model's output and the JSON columns.
-- A dict (JSON object) is a `Members` in insertion order; the code only builds dicts with distinct
-- keys. A number is a sign, a coefficient and an exponent of ten, which is also a `Decimal`.
pub mod Access
use glacis_webhook_service.Base.{ℕ, String, Bool}

pub data ℤ : Type 0 where
  pos : ℕ → ℤ
  negsuc : ℕ → ℤ

pub record Decimal : Type 0 where
  pub negative : Bool
  pub coefficient : ℕ
  pub exponent : ℤ

mutual
  pub data Json : Type 0 where
    null : Json
    bool : Bool → Json
    num : Decimal → Json
    str : String → Json
    arr : Items → Json
    obj : Members → Json

  pub data Items : Type 0 where
    nil : Items
    cons : Json → Items → Items

  pub data Members : Type 0 where
    end : Members
    member : String → Json → Members → Members

-- ===== src/Domain/Pydantic.antt =====
-- What the code uses of Pydantic: the parsing of JSON into the declared field types, the dump back,
-- and the text of a `ValidationError`. The validators that Pydantic then calls are the source's own.
use glacis_webhook_service.Base.{String, ◌≡◌, Option, none, some, Result, ok, err}
use glacis_webhook_service.Exceptions.{Exn, validation_error}
use glacis_webhook_service.Json.{Json, Members, obj}
use glacis_webhook_service.Domain.{ClassificationResult, VerificationResult}
use glacis_webhook_service.Domain.Validators.{validate_classification, check_grounded_consistency}

pub record Pydantic : Type 0 where
  pub parse_classification : Json → Option ClassificationResult
  pub classification_error : Json → String
  pub dump_classification : ClassificationResult → Members
  pub parse_verification : Json → Option VerificationResult
  pub verification_error : Json → String
  pub dump_verification : VerificationResult → Members

-- What the code relies on: a dump is parsed to the value that was dumped.
pub record RoundTrips (p : Pydantic) : Type 0 where
  pub parse-dump :
      (r : ClassificationResult) → p.parse_classification (obj (p.dump_classification r)) ≡ some r
  pub parse-dump_verification :
      (v : VerificationResult) → p.parse_verification (obj (p.dump_verification v)) ≡ some v

module _ {A : Type 0} where
  -- `Model.model_validate(v)`, whose validators' errors come out as one `ValidationError`.
  unfoldable pub validated : (A → Result Exn A) → String → Option A → Result Exn A
  validated check message none = err (validation_error message)
  validated check message (some raw) = elim (check raw) [
    | ok a ↦ ok a
    | err e ↦ err (validation_error message)
  ]

module _ (p : Pydantic) where
  unfoldable pub validate_classification_result : Json → Result Exn ClassificationResult
  unfolding validated
  validate_classification_result v =
      validated validate_classification (p.classification_error v) (p.parse_classification v)

  unfoldable pub validate_verification_result : Json → Result Exn VerificationResult
  unfolding validated
  validate_verification_result v =
      validated check_grounded_consistency (p.verification_error v) (p.parse_verification v)

-- ===== src/Domain/Revalidation.antt =====
-- The classification crosses two activities as JSON: what the first dumped, the second validates.
use glacis_webhook_service.Base.{
  ◌≡◌, ok, Result-cases, inl, inr, ◌∙◌, Result, String, Option, some, err, refl, none,
}
use glacis_webhook_service.Exceptions.{Exn, validation_error}
use glacis_webhook_service.Json.{Json, obj}
use glacis_webhook_service.Domain.{ClassificationResult}
use glacis_webhook_service.Domain.Validators.{validate_classification}
use glacis_webhook_service.Domain.Contract.{IsValid, validate-IsValid, validate_of_IsValid}
use glacis_webhook_service.Domain.Pydantic.{
  Pydantic, RoundTrips, validated, validate_classification_result,
}

module _ {A : Type 0} (check : A → Result Exn A) (message : String) where
  validated_ok :
      (o : Option A) (a : A) → validated check message o ≡ ok a → (raw : A) × (check raw ≡ ok a)
  unfolding validated
  validated_ok none a h = cc
  validated_ok (some raw) a h = elim (Result-cases (check raw)) [
    | inl (b, q) ↦ (raw, q ∙ rw (q, validated) at h)
    | inr (e, q) ↦ absurd (not_ok e (rw (q, validated) at h))
  ]
    where
      not_ok : (e : Exn) → ◌≡◌ {A = Result Exn A} (err (validation_error message)) (ok a) → ⊥
      not_ok e h = cc

  ok_validated : (a : A) → check a ≡ ok a → validated check message (some a) ≡ ok a
  unfolding validated
  ok_validated a h = rw (h, validated) refl

module _ (p : Pydantic) where
  -- What `ClassificationResult.model_validate` accepts meets the contract of the validators.
  pub validated-IsValid :
      (v : Json) (r : ClassificationResult) → validate_classification_result p v ≡ ok r → IsValid r
  unfolding validate_classification_result
  validated-IsValid v r h =
      let (raw, q) =
        validated_ok validate_classification (p.classification_error v) (p.parse_classification v) r
          h in
      validate-IsValid raw q

  -- A validated classification that is dumped to JSON is validated again, as the same value: the
  -- trimmed names, the amount and the currency pass unchanged. This relies on Pydantic's parsing of
  -- its own dump.
  pub revalidated :
      (laws : RoundTrips p) (v : Json) (r : ClassificationResult)
      → validate_classification_result p v ≡ ok r
      → validate_classification_result p (obj (p.dump_classification r)) ≡ ok r
  unfolding validate_classification_result
  revalidated laws v r h =
      rw (laws.parse-dump r)
        (ok_validated validate_classification _ r (validate_of_IsValid r (validated-IsValid v r h)))

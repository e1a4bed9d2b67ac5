-- ===== src/Activities/Review.antt =====
-- Which classifications are flagged for review, and what is stored for them.
use glacis_webhook_service.Base.{
  ◌⊎◌, inl, inr, Bool-cases, arith, ◌≡◌, ◌↔◌, sym, >>=-eq-ok, ok_inj, ap, ◌∙◌, refl,
}
use glacis_webhook_service.Json.{Members}
use glacis_webhook_service.Codec.{Codec}
use glacis_webhook_service.Domain.{ClassificationResult, VerificationResult}
use glacis_webhook_service.Domain.Pydantic.{Pydantic, validate_classification_result}
use glacis_webhook_service.Models.{FkRecord}
use glacis_webhook_service.Llm.{Llm}
use glacis_webhook_service.Activities.{
  guarded_reason, review_reason, is_unclassified, Prepared, prepare, validate_verification,
  build_record, get_or, Option, String, Json, none, ok, is_some, true, some, obj, false,
}

-- A classification is left unflagged exactly if it is UNCLASSIFIED, or a verification is given and
-- says that all fields are grounded.
pub unflagged_iff :
    (result : ClassificationResult) (o : Option VerificationResult)
    → (guarded_reason result o ≡ none) ↔ (
        (is_unclassified result.event_type ≡ true)
        ⊎ ((v : VerificationResult) × (o ≡ some v) × (v.grounded ≡ true)))
unfolding guarded_reason review_reason
unflagged_iff result none = ground arith
unflagged_iff result (some v) = elim (Bool-cases v.grounded) [
  | inl t ↦ (λ h. inr (v, refl, t), λ h. ground arith)
  | inr n ↦ (
    λ h. inl (ground arith),
    λ h. elim h [ inl u ↦ ground arith | inr (x, e, g) ↦ absurd (clash x e g n) ],
  )
]
  where
    clash :
        (x : VerificationResult)
        → ◌≡◌ {A = Option VerificationResult} (some v) (some x)
        → x.grounded ≡ true
        → v.grounded ≡ false
        → ⊥
    clash x e g n = cc

module _ (c : Codec) (p : Pydantic) (llm : Llm) where
  build_flagged :
      (event_id : String) (reason : Option String) (result : ClassificationResult) (inner : Json)
      (fk : Option FkRecord)
      → build_record llm c p event_id reason result inner ≡ ok fk
      → is_some reason ≡ true
      → fk ≡ none
  unfolding build_record
  build_flagged event_id none result inner fk h t = cc
  build_flagged event_id (some r) result inner fk h t = sym (ok_inj h)

  -- What is stored for a review carries no record.
  pub flagged_has_no_record :
      (event_id : String) (d : Members) (v : Option Members) (x : Prepared llm c p)
      → prepare llm c p event_id d v ≡ ok x
      → x.requires_review ≡ true
      → x.fk_record ≡ none
  unfolding prepare
  flagged_has_no_record event_id d v x h t =
      let inner = get_or "result" (obj d) d in
      let (result, valid, h1) = >>=-eq-ok (validate_classification_result p inner) _ h in
      let (verdict?, q, h2) = >>=-eq-ok (validate_verification llm c p v) _ h1 in
      let (fk, r, h3) =
        >>=-eq-ok (build_record llm c p event_id (guarded_reason result verdict?) result inner) _
          h2 in
      let made = ok_inj h3 in
      sym (ap (λ y. y.fk_record) made)
      ∙ build_flagged event_id (guarded_reason result verdict?) result inner fk r
          (ap (λ y. y.requires_review) made ∙ t)

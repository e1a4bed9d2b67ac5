-- ===== src/Admin/Shown.antt =====
-- What workflows/activities.py stores for a review, as webhooks/admin.py shows it.
use glacis_webhook_service.Base.{
  inl, inr, ℕ, String, Bool, true, false, Option, none, some, ok, ◌≡◌, ◌⊎◌, refl, ◌∙◌, ap, subst,
  ok_inj, >>=-eq-ok, arith, is_some,
}
use glacis_webhook_service.Json.{str, obj, Members}
use glacis_webhook_service.Json.Access.{get, get-set, truthy_get}
use glacis_webhook_service.Codec.{Codec}
use glacis_webhook_service.Domain.{ClassificationResult, VerificationResult}
use glacis_webhook_service.Domain.Pydantic.{
  Pydantic, validate_classification_result, validate_verification_result,
}
use glacis_webhook_service.Models.{WebhookEvent}
use glacis_webhook_service.Storage.{complete}
use glacis_webhook_service.Llm.{Llm}
use glacis_webhook_service.Activities.{
  guarded_reason, Prepared, prepare, validate_verification, build_record, get_or, with_verification,
  with_reason,
}
use glacis_webhook_service.Activities as Activities
use glacis_webhook_service.Activities.Grounding.{verification_lem, not_validated}
use glacis_webhook_service.Activities.Review.{flagged_has_no_record}
use glacis_webhook_service.Admin.{review_reason, value}

-- Why the activity flags: the verifier was skipped, or did not find the fields grounded.
guarded_reason-cases :
    (result : ClassificationResult) (o : Option VerificationResult) (r : String)
    → guarded_reason result o ≡ some r
    → ((o ≡ none) × (r ≡ "verifier_skipped"))
      ⊎ ((verdict : VerificationResult) × (o ≡ some verdict)
          × (verdict.grounded ≡ false)
          × (r ≡ "ungrounded"))
unfolding guarded_reason Activities.review_reason
guarded_reason-cases result none r h = inl (refl, ground arith)
guarded_reason-cases result (some v) r h = inr (v, refl, ground arith, ground arith)

module _ (c : Codec) (p : Pydantic) (llm : Llm) where
  get-with_verification :
      (o : Option VerificationResult) (m : Members)
      → get "schema_rejected" (with_verification llm c p o m) ≡ get "schema_rejected" m
  unfolding with_verification
  get-with_verification none m = refl
  get-with_verification (some v) m =
      get-set "verification" "schema_rejected" (obj (p.dump_verification v)) m

  shown :
      (event_type reason : String) (m : Members) (now : ℕ) (e : WebhookEvent)
      → truthy_get (get "schema_rejected" m) ≡ false
      → review_reason (complete now event_type (with_reason llm c p (some reason) m) true e)
        ≡ reason
  unfolding review_reason with_reason
  shown event_type reason m now e h =
      rw
        (
          get-set "review_reason" "schema_rejected" (str reason) m,
          h,
          get-set "review_reason" "review_reason" (str reason) m,
        )
        refl

  -- The text that the list shows is the reason for the flag: no verification was given, or the one
  -- that was given is valid and says that the fields are not grounded.
  pub Explains : Option Members → String → Type 0
  Explains v text =
      ((v ≡ none) × (text ≡ "verifier_skipped"))
      ⊎ ((m : Members) × (verdict : VerificationResult) × (v ≡ some m)
          × (validate_verification_result p (obj m) ≡ ok verdict)
          × (verdict.grounded ≡ false)
          × (text ≡ "ungrounded"))

  reason-Explains :
      (v : Option Members) (o : Option VerificationResult) (result : ClassificationResult)
      (r text : String)
      → validate_verification llm c p v ≡ ok o
      → guarded_reason result o ≡ some r
      → text ≡ r
      → Explains v text
  unfolding Explains
  reason-Explains v o result r text q h same = elim (guarded_reason-cases result o r h) [
    | inl (skipped, e) ↦ inl (not_validated c p llm v (q ∙ ap ok skipped), same ∙ e)
    | inr (verdict, given, ungrounded, e) ↦
        (let (m, there, valid) = verification_lem c p llm v verdict (q ∙ ap ok given) in
          inr (m, verdict, there, valid, ungrounded, same ∙ e))
  ]

  flagged-Explains :
      (v : Option Members) (o : Option VerificationResult) (result : ClassificationResult)
      (reason : Option String) (event_type : String) (m : Members) (now : ℕ) (e : WebhookEvent)
      → validate_verification llm c p v ≡ ok o
      → guarded_reason result o ≡ reason
      → truthy_get (get "schema_rejected" m) ≡ false
      → is_some reason ≡ true
      → Explains v (
          review_reason (complete now event_type (with_reason llm c p reason m) (is_some reason) e))
  flagged-Explains v o result none event_type m now e q h clean t = absurd (false_is_true t)
    where
      false_is_true : ◌≡◌ {A = Bool} false true → ⊥
      false_is_true x = cc
  flagged-Explains v o result (some r) event_type m now e q h clean t =
      reason-Explains v o result r _ q h (shown event_type r m now e clean)

  -- A classification that validates and is stored for a review carries no record, and once its
  -- transaction has completed the row, the list of the admin site shows why: `verifier_skipped` if no
  -- verification was given, and `ungrounded` if the one that was given is valid and says that the
  -- fields are not grounded. This takes that Pydantic dumps no key `schema_rejected` of a
  -- classification.
  pub flagged-IsShown :
      (event_id : String) (d : Members) (v : Option Members) (x : Prepared llm c p) (now : ℕ)
      (e : WebhookEvent)
      → ((r : ClassificationResult)
          → truthy_get (get "schema_rejected" (p.dump_classification r)) ≡ false)
      → prepare llm c p event_id d v ≡ ok x
      → x.requires_review ≡ true
      → (x.fk_record ≡ none)
        × Explains v
            (review_reason (complete now x.event_type x.normalized_data x.requires_review e))
  unfolding prepare
  flagged-IsShown event_id d v x now e dumped h t =
      let inner = get_or "result" (obj d) d in
      let (result, valid, h1) = >>=-eq-ok (validate_classification_result p inner) _ h in
      let (verdict?, q, h2) = >>=-eq-ok (validate_verification llm c p v) _ h1 in
      let (fk, r, h3) =
        >>=-eq-ok (build_record llm c p event_id (guarded_reason result verdict?) result inner) _
          h2 in
      let made = ok_inj h3 in
      let data_of = with_verification llm c p verdict? (p.dump_classification result) in
      let clean : truthy_get (get "schema_rejected" data_of) ≡ false =
        ap truthy_get (get-with_verification verdict? (p.dump_classification result))
        ∙ dumped result in
      (
        flagged_has_no_record c p llm event_id d v x h t,
        subst
            (λ (y : Prepared llm c p).
              Explains v
                (review_reason (complete now y.event_type y.normalized_data y.requires_review e)))
            made
            (flagged-Explains v verdict? result (guarded_reason result verdict?)
              (value result.event_type) data_of now e q refl clean
              (ap (λ (y : Prepared llm c p). y.requires_review) made ∙ t)),
      )

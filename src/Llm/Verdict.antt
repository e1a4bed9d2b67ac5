-- ===== src/Llm/Verdict.antt =====
-- When a verdict says that an extraction is grounded.
use glacis_webhook_service.Base.{◌≡◌, ok, err, true, >>=-eq-ok, Result, ap, ok_inj}
use glacis_webhook_service.Exceptions.{Exn, validation_error}
use glacis_webhook_service.Json.{Json, Members}
use glacis_webhook_service.Codec.{Codec}
use glacis_webhook_service.Domain.{VerificationResult}
use glacis_webhook_service.Domain.Pydantic.{Pydantic, validate_verification_result}
use glacis_webhook_service.Prompts.{SystemPrompt, build_verifier_prompt}
use glacis_webhook_service.Llm.{Llm, distrust, post_to_openrouter, verify}

module _ (c : Codec) (p : Pydantic) (llm : Llm) where
  distrust_lem :
      (r : Result Exn VerificationResult) (v : VerificationResult)
      → distrust c r ≡ ok v
      → v.grounded ≡ true
      → r ≡ ok v
  unfolding distrust
  distrust_lem (ok w) v h g = h
  distrust_lem (err (validation_error m)) v h g = absurd (cc (g, ap (λ x. x.grounded) (ok_inj h)))
  distrust_lem (err _) v h g = absurd (cc h)

  -- A verdict that says grounded is the verifier's own: the API was asked about this payload and
  -- this extraction and its answer passed validation as that verdict. An answer that fails
  -- validation never counts as grounded.
  pub verify_grounded :
      (payload : Members) (extraction : Json) (s s' : llm.State) (v : VerificationResult)
      → verify c p llm payload extraction s ≡ (ok v, s')
      → v.grounded ≡ true
      → (parsed : Json) × ((post_to_openrouter c p llm SystemPrompt.verifier
            (build_verifier_prompt c payload extraction)
            "Verifier"
            s).0
          ≡ ok parsed)
        × (validate_verification_result p parsed ≡ ok v)
  unfolding verify
  verify_grounded payload extraction s s' v h g =
      let (parsed, q, e) =
        >>=-eq-ok
          (post_to_openrouter c p llm SystemPrompt.verifier
            (build_verifier_prompt c payload extraction) "Verifier" s).0
          _ (ap (λ x. x.0) h) in
      (parsed, q, distrust_lem (validate_verification_result p parsed) v e g)

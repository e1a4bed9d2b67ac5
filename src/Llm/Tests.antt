-- ===== src/Llm/Tests.antt =====
-- One verification, and a client that a close forgets while it is open.
use glacis_webhook_service.Base.{◌≡◌, ok, refl, none, false}
use glacis_webhook_service.Json.{Json, obj}
use glacis_webhook_service.Json.Access.{get, subscript}
use glacis_webhook_service.Domain.Pydantic.{validate_verification_result}
use glacis_webhook_service.Domain.Validators.{check_grounded_consistency}
use glacis_webhook_service.Prompts.{SystemPrompt, build_verifier_prompt}
use glacis_webhook_service.Llm.{post_to_openrouter, verify}
use native.Mathlib.Decide.{ℕ_discrete}
use glacis_webhook_service.Llm.Client.{
  Clients, new_client, get_http_client, mark_closed, forget_client, started,
}
use glacis_webhook_service.Llm.Verdict.{verify_grounded}
use glacis_webhook_service.Examples.Form.{pydantic, dump_result}
use glacis_webhook_service.Examples.{codec, llm, payload, result, verdict}

abbrev extraction : Json
extraction = obj (dump_result result)

verifies : verify codec pydantic llm payload extraction 0 ≡ (ok verdict, 1)
unfolding verify subscript get validate_verification_result check_grounded_consistency
verifies = refl

verify_grounded_example :
    (parsed : Json) × ((post_to_openrouter codec pydantic llm SystemPrompt.verifier
        (build_verifier_prompt codec payload extraction)
        "Verifier"
        0).0
      ≡ ok parsed)
    × (validate_verification_result pydantic parsed ≡ ok verdict)
verify_grounded_example =
    verify_grounded codec pydantic llm payload extraction 0 1 verdict verifies refl

-- A task gets the client 0, another closes it and awaits; the first gets the client 1; the close ends.
abbrev lost_client : Clients
unfolding get_http_client new_client mark_closed forget_client
lost_client = forget_client (get_http_client (mark_closed 0 (get_http_client started.clients).1)).1

lost_client_is_open : (lost_client.http_client ≡ none) × (lost_client.is_closed 1 ≡ false)
unfolding get_http_client new_client mark_closed forget_client ℕ_discrete
lost_client_is_open = (refl, refl)

-- ===== src/Llm.antt =====
-- workflows/llm_client.py: one call of the OpenRouter API, its errors, and the two uses of it.
mod Tests
pub mod Client
pub mod Verdict
use glacis_webhook_service.Base.{
  [], ◌∷◌, ◌>>=◌, List, ℕ, Result, Option, ◌∷◌, Bool, err, some, ok, any, if◌then◌else◌, false, eqb,
  leb,
}
use Prim.Native.String.{◌++◌, String, []}
use glacis_webhook_service.Base.Texts.{prefix, show}
use glacis_webhook_service.Exceptions.{
  Exn, json_decode_error, llm_error, llm_permanent_error, llm_schema_rejected, validation_error,
  type_error, index_error,
}
use glacis_webhook_service.Json.{Json, str, arr, obj, nil, cons, Members, end, member}
use glacis_webhook_service.Json.Access.{get, subscript}
use glacis_webhook_service.Codec.{Codec}
use glacis_webhook_service.Prompts.{SystemPrompt, build_user_prompt, build_verifier_prompt}
use glacis_webhook_service.Domain.{ClassificationResult, VerificationResult}
use glacis_webhook_service.Domain.Pydantic.{
  Pydantic, validate_classification_result, validate_verification_result,
}

-- What `client.post` gives: an `httpx.HTTPError`, or a response with its text and `response.json()`.
pub data HttpOutcome : Type 0 where
  http_error : String → HttpOutcome
  response : ℕ → String → Result Exn Json → HttpOutcome

-- The API behind the HTTP client: a parameter with a state of its own, so that calls may differ.
pub record Llm : Type 1 where
  pub State : Type 0
  pub post : SystemPrompt → String → State → HttpOutcome × State

abbrev pub non_retryable_statuses : List ℕ
non_retryable_statuses = 400 ∷ 401 ∷ 403 ∷ 404 ∷ 422 ∷ []

abbrev pub is_non_retryable : ℕ → Bool
is_non_retryable status = any (λ n. eqb n status) non_retryable_statuses

-- `v[0]` on a value that should be a list.
unfoldable pub first : Json → Result Exn Json
first (arr nil) = err index_error
first (arr (cons x xs)) = ok x
first _ = err type_error

unfoldable pub content_of : Json → Result Exn Json
unfolding subscript first
content_of answer = do
  choices ← subscript "choices" answer
  choice ← first choices
  message ← subscript "message" choice
  subscript "content" message

unclassified_object : Json
unclassified_object = obj (member "event_type" (str "unclassified") end)

unwrap_results : Members → Option Json → Json
unwrap_results m (some (arr (cons x xs))) = x
unwrap_results m _ = obj m

unfoldable pub unwrap_response : Json → Json
unfolding unwrap_results unclassified_object get
unwrap_response (obj m) = unwrap_results m (get "results" m)
unwrap_response (arr (cons x xs)) = x
unwrap_response (arr nil) = unclassified_object
unwrap_response v = v

module _ (c : Codec) where
  -- `json.loads(raw_content)`; a content that is no text is a `TypeError`.
  parse_content : String → Json → Result Exn Json
  parse_content label (str raw_content) = elim (c.loads raw_content) [
    | ok parsed ↦ ok (unwrap_response parsed)
    | err (json_decode_error e) ↦ err (llm_error (label ++ (" returned invalid JSON: " ++ e)))
    | err e ↦ err e
  ]
  parse_content label _ = err type_error

  unfoldable pub read_outcome : String → HttpOutcome → Result Exn Json
  unfolding parse_content unwrap_response content_of show
  read_outcome label (http_error e) = err (llm_error (label ++ (" API call failed: " ++ e)))
  read_outcome label (response status text answer) =
      if is_non_retryable status
      then (err (
          llm_permanent_error (
            label
            ++ (" API rejected request with " ++ (show status ++ (": " ++ prefix 500 text))))))
      else if leb 400 status
      then (err
          (llm_error (label ++ (" API returned " ++ (show status ++ (": " ++ prefix 500 text))))))
      else do v ← answer; content ← content_of v; parse_content label content

  -- `parsed if isinstance(parsed, (dict, list)) else {"raw": str(parsed)}`
  abbrev pub raw_output : Json → Json
  raw_output (obj m) = obj m
  raw_output (arr xs) = arr xs
  raw_output v = obj (member "raw" (str (c.text_of v)) end)

  unfoldable pub reject : Json → Result Exn ClassificationResult → Result Exn ClassificationResult
  reject parsed (ok r) = ok r
  reject parsed (err (validation_error message)) =
      err (llm_schema_rejected (raw_output parsed) message)
  reject parsed (err e) = err e

  unfoldable pub distrust : Result Exn VerificationResult → Result Exn VerificationResult
  distrust (ok v) = ok v
  distrust (err (validation_error message)) = ok (record {
    grounded = false;
    unsupported_fields = [];
    missing_fields = [];
    notes = "verifier output failed schema validation: " ++ prefix 300 message;
  })
  distrust (err e) = err e

  module _ (p : Pydantic) (llm : Llm) where
    unfoldable pub post_to_openrouter :
        SystemPrompt → String → String → llm.State → Result Exn Json × llm.State
    unfolding read_outcome
    post_to_openrouter system_prompt user_prompt label s =
        let (outcome, s') = llm.post system_prompt user_prompt s in (read_outcome label outcome, s')

    unfoldable pub classify : Members → llm.State → Result Exn ClassificationResult × llm.State
    unfolding post_to_openrouter reject
    classify payload s =
        let (r, s') =
          post_to_openrouter SystemPrompt.classifier (build_user_prompt c payload) "LLM" s in
        (do parsed ← r; reject parsed (validate_classification_result p parsed), s')

    unfoldable pub verify : Members → Json → llm.State → Result Exn VerificationResult × llm.State
    unfolding post_to_openrouter distrust
    verify payload extraction s =
        let (r, s') =
          post_to_openrouter SystemPrompt.verifier (build_verifier_prompt c payload extraction)
            "Verifier" s in
        (do parsed ← r; distrust (validate_verification_result p parsed), s')

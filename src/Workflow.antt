-- ===== src/Workflow.antt =====
-- workflows/definitions.py: the classification workflow over Temporal's `execute_activity`.
mod Tests
pub mod Temporal
pub mod Trust
pub mod Sweep
pub mod Settling
pub mod Keeps
use glacis_webhook_service.Base.{
  ◌>>=◌, not, ℕ, String, List, Option, Result, Bool, ok, err, none, some, true, false,
  if◌then◌else◌, ◌∷◌, [],
}
use glacis_webhook_service.Exceptions.{Exn, attribute_error}
use glacis_webhook_service.Json.{Json, obj, Members, end}
use glacis_webhook_service.Json.Access.{get, get_attribute, is_str}
use glacis_webhook_service.Codec.{Codec}
use glacis_webhook_service.Domain.Pydantic.{Pydantic}
use glacis_webhook_service.Llm.{Llm}
use glacis_webhook_service.Activities.{
  Worker, Attempt, get_or, mark_processing, classify_payload, verify_extraction,
  persist_classification, mark_failed,
}
use glacis_webhook_service.Workflow.Temporal.{
  RetryPolicy, ActivityError, Interrupt, activity_error, run_timeout, Engine,
}

-- `run_timeout` of the starts of the view and of the reissue, in seconds: the engine ends a run at any
-- of its activities with it.
abbrev pub workflow_run_timeout : ℕ
workflow_run_timeout = 600

abbrev pub non_retryable_llm_errors : List String
non_retryable_llm_errors = "LLMPermanentError" ∷ "workflows.llm_client.LLMPermanentError" ∷ []

abbrev pub quick_retry : RetryPolicy
quick_retry = record {
  initial_interval = 1;
  maximum_interval = 100;
  backoff_coefficient = 2;
  maximum_attempts = 3;
  non_retryable_error_types = [];
}

-- With the setting MAX_RETRIES.
abbrev pub llm_retry : ℕ → RetryPolicy
llm_retry max_retries = record {
  initial_interval = 2;
  maximum_interval = 30;
  backoff_coefficient = 2;
  maximum_attempts = max_retries;
  non_retryable_error_types = non_retryable_llm_errors;
}

-- A result that is no dict has no `get`.
unfoldable pub should_verify : Members → Result Exn Bool
unfolding get get_attribute
should_verify classification =
    if is_str "ok" (get "kind" classification)
    then (do
      t ← get_attribute "event_type" (get_or "result" (obj end) classification)
      ok (not (is_str "unclassified" t)))
    else ok false

-- How a run ends: it returns; it fails with the activity's error once the row is marked; marking
-- fails too; its timeout comes; or the workflow code itself raises.
pub data RunResult : Type 0 where
  returned : RunResult
  failed : ActivityError → RunResult
  unmarked : ActivityError → RunResult
  timed_out : RunResult
  crashed : Exn → RunResult

-- `str(cause) if isinstance(cause, ApplicationError) else str(e)`
abbrev pub error_message : ActivityError → String
error_message e = elim e.application_cause [ some cause ↦ cause | none ↦ e.text ]

module _ (c : Codec) (p : Pydantic) (llm : Llm) (engine : Engine (Worker llm))
    (max_retries : ℕ) where
  open engine use {execute_activity}

  module _ (key event_id : String) (payload : Members) where
    pub mark_run_failed :
        ActivityError → Result Interrupt (Unit {0}) × Worker llm → RunResult × Worker llm
    mark_run_failed e (ok _, w) = (failed e, w)
    mark_run_failed e (err (activity_error e'), w) = (unmarked e', w)
    mark_run_failed e (err run_timeout, w) = (timed_out, w)

    -- The `except ActivityError` branch, which a run timeout does not come to.
    pub fail_run : Interrupt → Worker llm → RunResult × Worker llm
    unfolding mark_run_failed
    fail_run run_timeout w = (timed_out, w)
    fail_run (activity_error e) w =
        mark_run_failed e
          (execute_activity (Unit {0}) quick_retry 10 (mark_failed llm key (error_message e)) w)

    pub after_persist : Result Interrupt (Unit {0}) × Worker llm → RunResult × Worker llm
    unfolding fail_run
    after_persist (ok _, w) = (returned, w)
    after_persist (err e, w) = fail_run e w

    pub persist_run : Members → Option Members → Worker llm → RunResult × Worker llm
    unfolding after_persist
    persist_run classification verification w = after_persist (
        execute_activity (Unit {0}) quick_retry 30
          (persist_classification llm c p key event_id classification verification) w)

    pub after_verify : Members → Result Interrupt Members × Worker llm → RunResult × Worker llm
    unfolding fail_run persist_run
    after_verify classification (ok verification, w) =
        persist_run classification (some verification) w
    after_verify classification (err e, w) = fail_run e w

    pub decide_verify : Members → Result Exn Bool → Worker llm → RunResult × Worker llm
    unfolding after_verify persist_run
    decide_verify classification (err e) w = (crashed e, w)
    decide_verify classification (ok false) w = persist_run classification none w
    decide_verify classification (ok true) w = after_verify classification (
        execute_activity Members (llm_retry max_retries) 60
          (verify_extraction llm c p payload classification) w)

    pub after_classify : Result Interrupt Members × Worker llm → RunResult × Worker llm
    unfolding fail_run decide_verify
    after_classify (ok classification, w) =
        decide_verify classification (should_verify classification) w
    after_classify (err e, w) = fail_run e w

    pub after_mark : Result Interrupt (Unit {0}) × Worker llm → RunResult × Worker llm
    unfolding fail_run after_classify
    after_mark (ok _, w) =
        after_classify
          (execute_activity Members (llm_retry max_retries) 60 (classify_payload llm c p payload) w)
    after_mark (err e, w) = fail_run e w

    unfoldable pub run : Worker llm → RunResult × Worker llm
    unfolding after_mark
    run w = after_mark (execute_activity (Unit {0}) quick_retry 10 (mark_processing llm key) w)

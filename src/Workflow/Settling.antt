-- ===== src/Workflow/Settling.antt =====
-- A run that returns, or fails with its row marked, leaves its row settled.
mod Attempts
pub mod Peers
pub mod Ends
use glacis_webhook_service.Base.{
  ◌⊎◌, inl, inr, Bool-cases, Result-cases, subst, sym, String, ◌≡◌, refl, some, Option, ok, Bool,
  none, Result, true, err, ℕ, false,
}
use glacis_webhook_service.Json.{Members, obj, str}
use glacis_webhook_service.Json.Access.{get, is_str}
use glacis_webhook_service.Codec.{Codec}
use glacis_webhook_service.Domain.Pydantic.{Pydantic}
use glacis_webhook_service.Models.{WebhookStatus, FkRecord}
use glacis_webhook_service.Storage.{
  mark_processing_status, mark_terminal_status, start_processing, finish,
}
use glacis_webhook_service.Storage.Records.Built.{event_of}
use glacis_webhook_service.Storage.Settled.{IsSettled}
use glacis_webhook_service.Llm.{Llm}
use glacis_webhook_service.Activities.{
  Worker, Attempt, store, get_or, mark_processing, classify_payload, verify_extraction, message_of,
  prepare, Prepared, persist_classification, persist_schema_rejected, persist_prepared, mark_failed,
  bounded_error_message,
}
use glacis_webhook_service.Activities.Settles.{
  IsReady, stored_settles, stored-IsReady, update_known, update_settles, IsSettled-stays,
}
use glacis_webhook_service.Activities.Grounding.{Trusted, prepare-Trusted}
use glacis_webhook_service.Workflow.{
  RunResult, returned, failed, unmarked, timed_out, crashed, should_verify, quick_retry, llm_retry,
  error_message, mark_run_failed, fail_run, after_persist, persist_run, after_verify, decide_verify,
  after_classify, after_mark, run, Exn,
}
use glacis_webhook_service.Workflow.Temporal.{
  RetryPolicy, ActivityError, Interrupt, activity_error, run_timeout, Engine, EngineLaws,
  Executes-last, Executes-keeps,
}
use glacis_webhook_service.Workflow.Settling.Peers.{Writes}
use glacis_webhook_service.Workflow.Settling.Peers.Ready.{Writes-IsReady}
use glacis_webhook_service.Workflow.Settling.Attempts.{
  Settles, mark_processing-Ready, mark_failed-Settles, persist-Settles,
}

-- The run returned, or failed with the row marked.
abbrev pub IsEnded : RunResult → Type 0
IsEnded returned = Unit
IsEnded (failed e) = Unit
IsEnded (unmarked e) = ⊥
IsEnded timed_out = ⊥
IsEnded (crashed x) = ⊥

module _ (c : Codec) (p : Pydantic) (llm : Llm) (key event_id : String) where
  abbrev Ready : Worker llm → Type 0
  Ready w = IsReady key event_id w.db

  -- The other processes write the tables, and the clock moves.
  abbrev pub Others : Worker llm → Worker llm → Type 0
  Others v w = Writes key event_id v.db w.db

  abbrev Settled : Worker llm → Type 0
  Settled w = IsSettled key w.db.events

  module _ (payload : Members) (engine : Engine (Worker llm))
      (laws : EngineLaws (Worker llm) Others engine) (max_retries : ℕ) where
    open engine use {execute_activity}

    executed-Ready :
        {A : Type 0} (policy : RetryPolicy) (timeout : ℕ) (m : Attempt llm A) (w : Worker llm)
        → ((u : Worker llm) → Ready u → Ready (m u).1)
        → Ready w
        → Ready (execute_activity A policy timeout m w).1
    executed-Ready {A} policy timeout m w keeps =
        Executes-keeps (Worker llm) Others m Ready keeps
          (λ u v n h. Writes-IsReady key event_id n h) (laws.executes A policy timeout m w)

    executed-Settled :
        (policy : RetryPolicy) (timeout : ℕ) (m : Attempt llm (Unit {0})) (w : Worker llm)
        → Settles c p llm key event_id m
        → Ready w
        → (u : Unit {0}) → (execute_activity (Unit {0}) policy timeout m w).0 ≡ ok u
        → Settled (execute_activity (Unit {0}) policy timeout m w).1
    executed-Settled policy timeout m w s r u h =
        let (v, rv, q, e) =
          Executes-last (Worker llm) Others m Ready s.keeps
            (λ u v n h. Writes-IsReady key event_id n h) u
            (laws.executes (Unit {0}) policy timeout m w) r h in
        subst Settled (sym e) (s.settles v u rv q)

    marked :
        (e : ActivityError) (x : Result Interrupt (Unit {0}) × Worker llm)
        → IsEnded (mark_run_failed c p llm engine max_retries key event_id payload e x).0
        → ((u : Unit {0}) → x.0 ≡ ok u → Settled x.1)
        → Settled (mark_run_failed c p llm engine max_retries key event_id payload e x).1
    unfolding mark_run_failed
    marked e (ok u, w) h s = s u refl
    marked e (err (activity_error x), w) h s = absurd h
    marked e (err run_timeout, w) h s = absurd h

    fail_run-Settled :
        (e : Interrupt) (w : Worker llm)
        → Ready w
        → IsEnded (fail_run c p llm engine max_retries key event_id payload e w).0
        → Settled (fail_run c p llm engine max_retries key event_id payload e w).1
    unfolding fail_run
    fail_run-Settled run_timeout w r h = absurd h
    fail_run-Settled (activity_error e) w r h = marked e _ h (
        executed-Settled quick_retry 10 (mark_failed llm key (error_message e)) w
          (mark_failed-Settles c p llm key event_id (error_message e)) r)

    after_persist-Settled :
        (x : Result Interrupt (Unit {0}) × Worker llm)
        → Ready x.1
        → ((u : Unit {0}) → x.0 ≡ ok u → Settled x.1)
        → IsEnded (after_persist c p llm engine max_retries key event_id payload x).0
        → Settled (after_persist c p llm engine max_retries key event_id payload x).1
    unfolding after_persist
    after_persist-Settled (ok u, w) r s h = s u refl
    after_persist-Settled (err e, w) r s h = fail_run-Settled e w r h

    persist_run-Settled :
        (d : Members) (v : Option Members) (w : Worker llm)
        → Ready w
        → IsEnded (persist_run c p llm engine max_retries key event_id payload d v w).0
        → Settled (persist_run c p llm engine max_retries key event_id payload d v w).1
    unfolding persist_run
    persist_run-Settled d v w r =
        let m = persist_classification llm c p key event_id d v in
        let s = persist-Settles c p llm key event_id d v in
        after_persist-Settled (execute_activity (Unit {0}) quick_retry 30 m w)
          (executed-Ready quick_retry 30 m w s.keeps r) (executed-Settled quick_retry 30 m w s r)

    after_verify-Settled :
        (d : Members) (x : Result Interrupt Members × Worker llm)
        → Ready x.1
        → IsEnded (after_verify c p llm engine max_retries key event_id payload d x).0
        → Settled (after_verify c p llm engine max_retries key event_id payload d x).1
    unfolding after_verify
    after_verify-Settled d (ok v, w) r h = persist_run-Settled d (some v) w r h
    after_verify-Settled d (err e, w) r h = fail_run-Settled e w r h

    verify-Ready :
        (d : Members) (w : Worker llm) → Ready w → Ready (verify_extraction llm c p payload d w).1
    unfolding verify_extraction
    verify-Ready d w r = r

    classify-Ready : (w : Worker llm) → Ready w → Ready (classify_payload llm c p payload w).1
    unfolding classify_payload
    classify-Ready w r = r

    decide_verify-Settled :
        (d : Members) (b : Result Exn Bool) (w : Worker llm)
        → Ready w
        → IsEnded (decide_verify c p llm engine max_retries key event_id payload d b w).0
        → Settled (decide_verify c p llm engine max_retries key event_id payload d b w).1
    unfolding decide_verify
    decide_verify-Settled d (err x) w r h = absurd h
    decide_verify-Settled d (ok false) w r h = persist_run-Settled d none w r h
    decide_verify-Settled d (ok true) w r h =
        let m = verify_extraction llm c p payload d in
        after_verify-Settled d (execute_activity Members (llm_retry max_retries) 60 m w)
          (executed-Ready (llm_retry max_retries) 60 m w (verify-Ready d) r) h

    after_classify-Settled :
        (x : Result Interrupt Members × Worker llm)
        → Ready x.1
        → IsEnded (after_classify c p llm engine max_retries key event_id payload x).0
        → Settled (after_classify c p llm engine max_retries key event_id payload x).1
    unfolding after_classify
    after_classify-Settled (ok d, w) r h = decide_verify-Settled d (should_verify d) w r h
    after_classify-Settled (err e, w) r h = fail_run-Settled e w r h

    after_mark-Settled :
        (x : Result Interrupt (Unit {0}) × Worker llm)
        → Ready x.1
        → IsEnded (after_mark c p llm engine max_retries key event_id payload x).0
        → Settled (after_mark c p llm engine max_retries key event_id payload x).1
    unfolding after_mark
    after_mark-Settled (ok u, w) r h =
        let m = classify_payload llm c p payload in
        after_classify-Settled (execute_activity Members (llm_retry max_retries) 60 m w)
          (executed-Ready (llm_retry max_retries) 60 m w classify-Ready r) h
    after_mark-Settled (err e, w) r h = fail_run-Settled e w r h

    -- A run whose event and a row of whose key are in the table, and whose event has a record only
    -- if the key is settled, leaves no live row of its key if it returns, and also if it fails with
    -- its row marked. This holds for any retries, for a run whose `IntegrityError` was dropped, and
    -- whatever the others write in between.
    pub run-IsSettled :
        (w : Worker llm)
        → IsReady key event_id w.db
        → IsEnded (run c p llm engine max_retries key event_id payload w).0
        → IsSettled key (run c p llm engine max_retries key event_id payload w).1.db.events
    unfolding run
    run-IsSettled w r h =
        after_mark-Settled (execute_activity (Unit {0}) quick_retry 10 (mark_processing llm key) w)
          (executed-Ready quick_retry 10 (mark_processing llm key) w
            (mark_processing-Ready c p llm key event_id) r)
          h

-- ===== src/Workflow/Keeps.antt =====
-- What a run of the workflow writes, and the invariants of the tables that every run keeps, whether
-- it returns, fails, times out or crashes.
pub mod InStep
use glacis_webhook_service.Base.{
  ℕ, String, Bool, inl, inr, Bool-cases, Result-cases, ◌≡◌, refl, some, Option, ok, none, Result,
  true, false, err,
}
use glacis_webhook_service.Exceptions.{Exn}
use glacis_webhook_service.Json.{Members, str}
use glacis_webhook_service.Json.Access.{get, is_str}
use glacis_webhook_service.Codec.{Codec}
use glacis_webhook_service.Domain.Pydantic.{Pydantic}
use glacis_webhook_service.Models.{WebhookStatus, FkRecord, Db}
use glacis_webhook_service.Storage.{
  mark_processing_status, mark_terminal_status, store_and_complete,
}
use glacis_webhook_service.Storage.History.{
  Reach, here, next, mark_processing, mark_terminal, store,
}
use glacis_webhook_service.Storage.Records.Built.{event_of}
use glacis_webhook_service.Llm.{Llm}
use glacis_webhook_service.Activities
use glacis_webhook_service.Activities.{
  Worker, Attempt, get_or, classify_payload, verify_extraction, message_of, prepare,
  persist_classification, persist_schema_rejected, persist_prepared, mark_failed,
}
use glacis_webhook_service.Activities.Grounding.{prepare-Trusted}
use glacis_webhook_service.Activities.Reached.{on_database-keeps}
use glacis_webhook_service.Workflow.{
  RunResult, should_verify, quick_retry, llm_retry, error_message, mark_run_failed, fail_run,
  after_persist, persist_run, after_verify, decide_verify, after_classify, after_mark, run,
}
use glacis_webhook_service.Workflow.Temporal.{
  RetryPolicy, ActivityError, Interrupt, activity_error, run_timeout, Engine, EngineLaws,
  Executes-keeps,
}

module _ (key event_id : String) where
  -- One write by an activity of a run: it is of the run's own key and event.
  pub data Own (db : Db) : Db → Type 0 where
    nothing : Own db db
    begins : Own db (mark_processing_status key db)
    fails :
        (now : ℕ) (error : Option String)
        → Own db (mark_terminal_status now key WebhookStatus.failed error db).1
    stores :
        (now : ℕ) (event_type : String) (normalized_data : Members) (o : Option FkRecord)
        (review : Bool)
        → ((r : FkRecord) → o ≡ some r → event_of r ≡ event_id)
        → Own db (store_and_complete now key event_id event_type normalized_data o review db).1

  pub Own-Reach : {a b db : Db} → Own a b → Reach db a → Reach db b
  Own-Reach nothing r = r
  Own-Reach begins r = next r (mark_processing key)
  Own-Reach (fails now error) r = next r (mark_terminal now key WebhookStatus.failed error)
  Own-Reach (stores now event_type normalized_data o review of) r =
      next r (store now key event_id event_type normalized_data o review)

  module _ (c : Codec) (p : Pydantic) (llm : Llm) where
    abbrev Writes : {A : Type 0} → Attempt llm A → Type 0
    Writes m = (w : Worker llm) → Own w.db (m w).1.db

    mark_processing-Own : Writes (Activities.mark_processing llm key)
    unfolding Activities.mark_processing
    mark_processing-Own w = on_database-keeps (λ v. Own w.db v.db) w.database w _ nothing begins

    mark_failed-Own : (message : String) → Writes (mark_failed llm key message)
    unfolding mark_failed
    mark_failed-Own message w =
        on_database-keeps (λ v. Own w.db v.db) w.database w _ nothing (fails w.now _)

    classify_payload-Own : (payload : Members) → Writes (classify_payload llm c p payload)
    unfolding classify_payload
    classify_payload-Own payload w = nothing

    verify_extraction-Own : (payload d : Members) → Writes (verify_extraction llm c p payload d)
    unfolding verify_extraction
    verify_extraction-Own payload d w = nothing

    no_record : (r : FkRecord) → ◌≡◌ {A = Option FkRecord} none (some r) → event_of r ≡ event_id
    no_record r q = cc

    rejected-Own : (d : Members) → Writes (persist_schema_rejected llm c p key event_id d)
    unfolding persist_schema_rejected Activities.store
    rejected-Own d w =
        elim (Result-cases (message_of llm c p (get_or "validation_message" (str "") d))) [
          | inl (m, q) ↦
              rw (q, persist_schema_rejected)
                (on_database-keeps (λ v. Own w.db v.db) w.database w _ nothing
                  (stores w.now _ _ none true no_record))
          | inr (x, q) ↦ rw (q, persist_schema_rejected) nothing
        ]

    prepared-Own :
        (d : Members) (v : Option Members) → Writes (persist_prepared llm c p key event_id d v)
    unfolding persist_prepared Activities.store
    prepared-Own d v w = elim (Result-cases (prepare llm c p event_id d v)) [
      | inl (x, q) ↦
          rw (q, persist_prepared)
            (on_database-keeps (λ v. Own w.db v.db) w.database w _ nothing
              (stores w.now x.event_type x.normalized_data x.fk_record x.requires_review
                (λ r e. (prepare-Trusted c p llm event_id d v x r q e).event)))
      | inr (x, q) ↦ rw (q, persist_prepared) nothing
    ]

    persist_classification-Own :
        (d : Members) (v : Option Members)
        → Writes (persist_classification llm c p key event_id d v)
    unfolding persist_classification
    persist_classification-Own d v w = elim (Bool-cases (is_str "schema_rejected" (get "kind" d))) [
      | inl t ↦ rw (t, persist_classification) (rejected-Own d w)
      | inr n ↦ rw (n, persist_classification) (prepared-Own d v w)
    ]

    -- An invariant of the tables that the run's own writes keep, and the steps of the others.
    module _ (P : Db → Type 0) (Env : Worker llm → Worker llm → Type 0)
        (own : (a b : Db) → Own a b → P a → P b)
        (others : (u v : Worker llm) → Env u v → P u.db → P v.db) (payload : Members)
        (engine : Engine (Worker llm)) (laws : EngineLaws (Worker llm) Env engine)
        (max_retries : ℕ) where
      open engine use {execute_activity}

      executed :
          {A : Type 0} (policy : RetryPolicy) (timeout : ℕ) (m : Attempt llm A) (w : Worker llm)
          → Writes m
          → P w.db
          → P (execute_activity A policy timeout m w).1.db
      executed {A} policy timeout m w writes =
          Executes-keeps (Worker llm) Env m (λ u. P u.db) (λ u h. own _ _ (writes u) h) others
            (laws.executes A policy timeout m w)

      marked_keeps :
          (e : ActivityError) (x : Result Interrupt (Unit {0}) × Worker llm)
          → P x.1.db
          → P (mark_run_failed c p llm engine max_retries key event_id payload e x).1.db
      unfolding mark_run_failed
      marked_keeps e (ok u, w) h = h
      marked_keeps e (err (activity_error x), w) h = h
      marked_keeps e (err run_timeout, w) h = h

      fail_run_keeps :
          (e : Interrupt) (w : Worker llm)
          → P w.db
          → P (fail_run c p llm engine max_retries key event_id payload e w).1.db
      unfolding fail_run
      fail_run_keeps run_timeout w h = h
      fail_run_keeps (activity_error e) w h =
          marked_keeps e _ (executed quick_retry 10 _ w (mark_failed-Own (error_message e)) h)

      after_persist_keeps :
          (x : Result Interrupt (Unit {0}) × Worker llm)
          → P x.1.db
          → P (after_persist c p llm engine max_retries key event_id payload x).1.db
      unfolding after_persist
      after_persist_keeps (ok u, w) h = h
      after_persist_keeps (err e, w) h = fail_run_keeps e w h

      persist_run_keeps :
          (d : Members) (v : Option Members) (w : Worker llm)
          → P w.db
          → P (persist_run c p llm engine max_retries key event_id payload d v w).1.db
      unfolding persist_run
      persist_run_keeps d v w h =
          after_persist_keeps _ (executed quick_retry 30 _ w (persist_classification-Own d v) h)

      after_verify_keeps :
          (d : Members) (x : Result Interrupt Members × Worker llm)
          → P x.1.db
          → P (after_verify c p llm engine max_retries key event_id payload d x).1.db
      unfolding after_verify
      after_verify_keeps d (ok v, w) h = persist_run_keeps d (some v) w h
      after_verify_keeps d (err e, w) h = fail_run_keeps e w h

      decide_verify_keeps :
          (d : Members) (b : Result Exn Bool) (w : Worker llm)
          → P w.db
          → P (decide_verify c p llm engine max_retries key event_id payload d b w).1.db
      unfolding decide_verify
      decide_verify_keeps d (err x) w h = h
      decide_verify_keeps d (ok false) w h = persist_run_keeps d none w h
      decide_verify_keeps d (ok true) w h =
          after_verify_keeps d _
            (executed (llm_retry max_retries) 60 _ w (verify_extraction-Own payload d) h)

      after_classify_keeps :
          (x : Result Interrupt Members × Worker llm)
          → P x.1.db
          → P (after_classify c p llm engine max_retries key event_id payload x).1.db
      unfolding after_classify
      after_classify_keeps (ok d, w) h = decide_verify_keeps d (should_verify d) w h
      after_classify_keeps (err e, w) h = fail_run_keeps e w h

      after_mark_keeps :
          (x : Result Interrupt (Unit {0}) × Worker llm)
          → P x.1.db
          → P (after_mark c p llm engine max_retries key event_id payload x).1.db
      unfolding after_mark
      after_mark_keeps (ok u, w) h =
          after_classify_keeps _
            (executed (llm_retry max_retries) 60 _ w (classify_payload-Own payload) h)
      after_mark_keeps (err e, w) h = fail_run_keeps e w h

      -- However a run ends, it keeps what its own writes and the others keep.
      pub run_keeps :
          (w : Worker llm) → P w.db → P (run c p llm engine max_retries key event_id payload w).1.db
      unfolding run
      run_keeps w h = after_mark_keeps _ (executed quick_retry 10 _ w mark_processing-Own h)

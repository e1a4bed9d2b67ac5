-- ===== src/Workflow/Sweep.antt =====
-- workflows/definitions.py, `SweepStuckEventsWorkflow.run`: the recovery of stuck events, over the
-- tables and Temporal's frontend.
pub mod Handled
pub mod Recovery
use glacis_webhook_service.Base.{ℕ, String, List, [], ◌∷◌, ◌++◌, Result, ok, err, length}
use glacis_webhook_service.Exceptions.{Exn}
use glacis_webhook_service.Json.{Members}
use glacis_webhook_service.Llm.{Llm}
use glacis_webhook_service.Storage.Queries.{StuckRow}
use glacis_webhook_service.Services.{Services}
use glacis_webhook_service.Activities.{
  Worker, Attempt, list_stuck_received_activity, list_stuck_processing_activity,
  reissue_classify_workflow,
}
use glacis_webhook_service.Workflow.{quick_retry}
use glacis_webhook_service.Workflow.Temporal.{Interrupt, Engine}

module _ (llm : Llm) (s : Services) where
  open s use {Temporal, start_workflow}

  pub record Sweeper : Type 0 where
    pub worker : Worker llm
    pub temporal : Temporal

  -- An activity of the worker.
  unfoldable pub on_worker : {A : Type 0} → Attempt llm A → Sweeper → Result Exn A × Sweeper
  on_worker m w = let (r, v) = m w.worker in (r, record w { worker = v })

  -- The reissue reads the tables and calls Temporal.
  unfoldable pub reissue : StuckRow → Sweeper → Result Exn (Unit {0}) × Sweeper
  reissue row w =
      let (r, t) =
        reissue_classify_workflow start_workflow row.idempotency_key row.id row.raw_payload
          w.worker.database w.worker.db w.temporal in
      (r, record w { temporal = t })

  module _ (engine : Engine Sweeper) where
    open engine use {execute_activity}

    pub after_reissue :
        (Sweeper → Result Interrupt (Unit {0}) × Sweeper)
        → Result Interrupt (Unit {0}) × Sweeper
        → Result Interrupt (Unit {0}) × Sweeper
    after_reissue rest (ok u, w) = rest w
    after_reissue rest (err e, w) = (err e, w)

    -- The loop over the rows; the first `ActivityError`, or the run timeout, ends the run.
    pub reissue_all : List StuckRow → Sweeper → Result Interrupt (Unit {0}) × Sweeper
    unfolding after_reissue
    reissue_all [] w = (ok tt, w)
    reissue_all (row ∷ rows) w =
        after_reissue (reissue_all rows)
          (execute_activity (Unit {0}) quick_retry 10 (reissue row) w)

    pub counted : ℕ → Result Interrupt (Unit {0}) × Sweeper → Result Interrupt ℕ × Sweeper
    counted n (ok u, w) = (ok n, w)
    counted n (err e, w) = (err e, w)

    pub after_processing :
        List StuckRow → Result Interrupt (List StuckRow) × Sweeper → Result Interrupt ℕ × Sweeper
    unfolding counted reissue_all
    after_processing received (ok rows, w) =
        let stuck = received ++ rows in counted (length stuck) (reissue_all stuck w)
    after_processing received (err e, w) = (err e, w)

    pub after_received :
        ℕ → ℕ → Result Interrupt (List StuckRow) × Sweeper → Result Interrupt ℕ × Sweeper
    unfolding after_processing
    after_received processing_grace_seconds limit (ok rows, w) = after_processing rows (
        execute_activity (List StuckRow) quick_retry 30
          (on_worker (list_stuck_processing_activity llm processing_grace_seconds limit)) w)
    after_received processing_grace_seconds limit (err e, w) = (err e, w)

    unfoldable pub sweep : ℕ → ℕ → ℕ → Sweeper → Result Interrupt ℕ × Sweeper
    unfolding after_received
    sweep received_grace_seconds processing_grace_seconds limit w =
        after_received processing_grace_seconds limit (
          execute_activity (List StuckRow) quick_retry 30
            (on_worker (list_stuck_received_activity llm received_grace_seconds limit)) w)

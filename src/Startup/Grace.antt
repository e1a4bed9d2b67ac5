-- ===== src/Startup/Grace.antt =====
-- The grace that workflows/worker.py checks, against what webhooks/storage.py lists by it: a row's
-- age counts from its receipt, and a run's timeout from the start of the run. Instants are in
-- microseconds.
use glacis_webhook_service.Base.{ℕ, ◌+◌, ◌*◌, ◌≤◌, ◌<◌, ◌≡◌, ok, true, arith, In}
use glacis_webhook_service.Models.{WebhookStatus, WebhookEvent, Db}
use glacis_webhook_service.Storage.Queries.{is_stuck, stuck_events}
use glacis_webhook_service.Storage.Listing.{stuck_events_oldest}
use glacis_webhook_service.Workflow.{workflow_run_timeout}
use glacis_webhook_service.Startup.{validate_processing_grace}

-- A run that began at an instant has timed out at another.
abbrev pub IsOver : ℕ → ℕ → Type 0
IsOver began now = began + workflow_run_timeout * 1000000 < now

validated_grace : (g : ℕ) → validate_processing_grace g ≡ ok tt → 900 ≤ g
unfolding validate_processing_grace
validated_grace g h = ground arith

stuck_age :
    (status : WebhookStatus) (g now : ℕ) (e : WebhookEvent)
    → is_stuck status g now e ≡ true
    → e.created_at + g * 1000000 < now
stuck_age status g now e h = ground arith

-- Under a grace that the start-up check lets through, a row is listed for the recovery of stuck
-- `PROCESSING` events only after every run of its workflow that began within five minutes of the
-- row's receipt has timed out.
pub stuck_processing-IsOver :
    (g limit now began : ℕ) (db : Db) (e : WebhookEvent)
    → validate_processing_grace g ≡ ok tt
    → In e (stuck_events WebhookStatus.processing g limit now db)
    → began ≤ e.created_at + 300 * 1000000
    → IsOver began now
stuck_processing-IsOver g limit now began db e valid listed soon =
    let old =
      stuck_age WebhookStatus.processing g now e
        ((stuck_events_oldest WebhookStatus.processing g limit now db).0 e listed).1 in
    omega (arith, validated_grace g valid, old)

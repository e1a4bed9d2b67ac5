-- ===== src/Workflow/Tests.antt =====
-- A run of the workflow, with one attempt of each activity.
use glacis_webhook_service.Base.{refl, [], ◌∷◌, ◌⊎◌, inl, inr, ◌≡◌, true}
use glacis_webhook_service.Llm.{classify, verify}
use glacis_webhook_service.Domain.Pydantic.{
  validate_classification_result, validate_verification_result,
}
use glacis_webhook_service.Domain.Validators.{
  validate_classification, validate_optional, validate_shipment, check_data_matches_type,
  check_grounded_consistency,
}
use glacis_webhook_service.Base.Texts.{strip}
use glacis_webhook_service.Storage.Records.{record_builder, build_shipment_record}
use glacis_webhook_service.Json.Access.{get, subscript}
use glacis_webhook_service.Storage.{
  mark_processing_status, store_and_complete, save, save_optional, update_live,
}
use glacis_webhook_service.Models.{WebhookStatus, FkRecord}
use glacis_webhook_service.Json.{str}
use glacis_webhook_service.Activities.{
  store, Worker, mark_processing, classify_payload, verify_extraction, persist_classification,
  guarded_reason,
}
use glacis_webhook_service.Activities.Grounding.{HasRecord}
use glacis_webhook_service.Workflow.{run, should_verify}
use glacis_webhook_service.Workflow.Trust.{Comes, run-Comes}
use glacis_webhook_service.Activities.Settles.{IsReady}
use glacis_webhook_service.Workflow.Settling.Ends.{EndsAs, run-Ends}
use glacis_webhook_service.Workflow.Sweep.{Sweeper}
use glacis_webhook_service.Base.{false}
use glacis_webhook_service.Activities.Settles.{IsRecorded}
use glacis_webhook_service.Workflow.Keeps.InStep.{IsTracked, run-IsTracked}
use glacis_webhook_service.Examples.Form.{pydantic}
use glacis_webhook_service.Examples.{
  event, codec, llm, worker, payload, services, db_of, engine, engine_laws,
}

abbrev begun : Worker llm
begun = worker (event "e1" "acme:m1" WebhookStatus.received 0 ∷ [])

abbrev stored : FkRecord
stored = FkRecord.shipment (record {
  webhook_event = "e1";
  vendor_id = str "acme";
  tracking_number = str "T1";
  status = str "TRANSIT";
  timestamp = str "2025-01-01T00:00:00Z";
})

runs : HasRecord stored (run codec pydantic llm engine 3 "acme:m1" "e1" payload begun).1.db
unfolding run store mark_processing_status mark_processing classify_payload verify_extraction
    persist_classification guarded_reason classify verify validate_classification_result
    validate_verification_result validate_classification validate_optional validate_shipment
    check_data_matches_type check_grounded_consistency strip should_verify record_builder
    build_shipment_record get subscript store_and_complete save save_optional update_live
runs = inl refl

run-Comes_example : HasRecord stored begun.db ⊎ Comes codec pydantic llm payload "e1" stored
run-Comes_example =
    run-Comes codec pydantic llm payload engine stored engine_laws 3 "acme:m1" "e1" begun runs

begun-IsReady : IsReady "acme:m1" "e1" begun.db
begun-IsReady = record {
  known = refl;
  keyed = refl;
  recorded = elim [ inl h ↦ absurd (cc) | inr h ↦ absurd (cc) ];
}

run-Ends_example :
    IsReady "acme:m1" "e1" (run codec pydantic llm engine 3 "acme:m1" "e1" payload begun).1.db
    × EndsAs "acme:m1"
        (run codec pydantic llm engine 3 "acme:m1" "e1" payload begun).0
        (run codec pydantic llm engine 3 "acme:m1" "e1" payload begun).1.db
run-Ends_example =
    run-Ends codec pydantic llm "acme:m1" "e1" payload engine 3 engine_laws begun begun-IsReady

-- One event waits since the instant 0, another one has just begun.
abbrev sweeper : Sweeper llm services
sweeper = record {
  worker = record {
    db = db_of (
        event "e1" "acme:m1" WebhookStatus.received 0
        ∷ event "e2" "acme:m2" WebhookStatus.processing 900000000
        ∷ []);
    database = true;
    now = 901000000;
    llm_state = 0;
  };
  temporal = [];
}

no_record : IsRecorded "e1" begun.db → false ≡ true
no_record (inl h) = h
no_record (inr h) = h

begun-IsTracked : IsTracked "acme:m1" "e1" begun.db
begun-IsTracked = record {
  consistent = record {
    keys = (refl, tt);
    ids = (refl, tt);
    shipment_events = tt;
    invoice_events = tt;
    shipments_known = tt;
    invoices_known = tt;
  };
  in_step = (no_record, tt);
  row_of = record {
    row = event "e1" "acme:m1" WebhookStatus.received 0;
    there = inl refl;
    id = refl;
    idempotency_key = refl;
  };
}

run-IsTracked_example :
    IsTracked "acme:m1" "e1" (run codec pydantic llm engine 3 "acme:m1" "e1" payload begun).1.db
run-IsTracked_example =
    run-IsTracked "acme:m1" "e1" codec pydantic llm payload engine engine_laws 3 begun
      begun-IsTracked

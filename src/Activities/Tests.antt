-- ===== src/Activities/Tests.antt =====
-- Runs of the activities.
use glacis_webhook_service.Base.{◌≡◌, ok, none, some, [], ◌∷◌, ◌⊎◌, ◌↔◌, refl, inl}
use glacis_webhook_service.Json.Access.{get, set, subscript, truthy_get}
use glacis_webhook_service.Base.Texts.{strip}
use glacis_webhook_service.Domain.Validators.{
  validate_classification, validate_optional, validate_shipment, check_data_matches_type,
  check_grounded_consistency,
}
use glacis_webhook_service.Storage.{store_and_complete, save_optional, save, complete}
use glacis_webhook_service.Storage.Records.{record_builder, build_shipment_record}
use glacis_webhook_service.Json.{Members, Json, member, str, obj, end}
use glacis_webhook_service.Models.{WebhookStatus, FkRecord}
use glacis_webhook_service.Domain.Pydantic.{
  validate_classification_result, validate_verification_result,
}
use glacis_webhook_service.Activities.{
  store, persist_prepared, Worker, persist_classification, prepare, Prepared, guarded_reason,
  is_unclassified, persist_prepared, set, Option, true, VerificationResult, ClassificationResult,
  false,
}
use glacis_webhook_service.Activities.Grounding.{HasRecord}
use glacis_webhook_service.Activities.Review.{unflagged_iff}
use glacis_webhook_service.Admin.{review_reason}
use glacis_webhook_service.Admin.Shown.{Explains, flagged-IsShown}
use glacis_webhook_service.Examples.Form.{pydantic, dump_result, dump_verdict}
use glacis_webhook_service.Examples.{event, codec, llm, worker, result, verdict}

abbrev begun : Worker llm
begun = worker (event "e1" "acme:m1" WebhookStatus.processing 0 ∷ [])

abbrev classification : Members
classification = member "kind" (str "ok") (member "result" (obj (dump_result result)) end)

abbrev grounded : Members
grounded = dump_verdict verdict

abbrev stored : FkRecord
stored = FkRecord.shipment (record {
  webhook_event = "e1";
  vendor_id = str "acme";
  tracking_number = str "T1";
  status = str "TRANSIT";
  timestamp = str "2025-01-01T00:00:00Z";
})

persisted :
    HasRecord stored
      (persist_classification llm codec pydantic "acme:m1" "e1" classification
        (some grounded)
        begun).1.db
unfolding persist_classification persist_prepared prepare store store_and_complete save_optional
    save record_builder build_shipment_record subscript validate_classification_result
    validate_verification_result get set validate_classification validate_optional validate_shipment
    strip check_data_matches_type check_grounded_consistency guarded_reason
persisted = inl refl

unflagged_iff_example : (guarded_reason result (some verdict) ≡ none) ↔ (
    (is_unclassified result.event_type ≡ true)
    ⊎ ((v : VerificationResult) × (◌≡◌ {A = Option VerificationResult} (some verdict) (some v))
        × (v.grounded ≡ true)))
unflagged_iff_example = unflagged_iff result (some verdict)

-- The classification of `result` without a verification.
abbrev flagged : Prepared llm codec pydantic
flagged = record {
  event_type = "shipment";
  normalized_data = set "review_reason" (str "verifier_skipped") (dump_result result);
  fk_record = none;
  requires_review = true;
}

prepares : prepare llm codec pydantic "e1" classification none ≡ ok flagged
unfolding prepare validate_classification_result validate_verification_result get set
    validate_classification validate_optional validate_shipment strip check_data_matches_type
    check_grounded_consistency guarded_reason
prepares = refl

dumped :
    (r : ClassificationResult)
    → truthy_get (get "schema_rejected" (pydantic.dump_classification r)) ≡ false
unfolding get
dumped r = refl

flagged-IsShown_example :
    (flagged.fk_record ≡ none)
    × Explains codec pydantic llm none (
        review_reason (
          complete 9 flagged.event_type flagged.normalized_data flagged.requires_review
            (event "e1" "acme:m1" WebhookStatus.processing 0)))
flagged-IsShown_example =
    flagged-IsShown codec pydantic llm "e1" classification none flagged 9
      (event "e1" "acme:m1" WebhookStatus.processing 0) dumped prepares refl

abbrev odd : Json
odd = obj (member "event_type" (str "parcel") end)

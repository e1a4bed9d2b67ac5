-- ===== src/Domain/Tests.antt =====
-- Validation of one classification.
use glacis_webhook_service.Base.{◌≡◌, ok, some, refl, none}
use glacis_webhook_service.Json.{obj}
use glacis_webhook_service.Domain.{EventType, ShipmentStatus, ClassificationResult}
use glacis_webhook_service.Domain.Pydantic.{validate_classification_result}
use glacis_webhook_service.Base.Texts.{strip}
use glacis_webhook_service.Domain.Validators.{
  validate_classification, validate_optional, validate_shipment, check_data_matches_type,
}
use glacis_webhook_service.Domain.Contract.{IsValid}
use glacis_webhook_service.Domain.Revalidation.{validated-IsValid, revalidated}
use glacis_webhook_service.Examples.Form.{pydantic, round_trips, dump_result}
use glacis_webhook_service.Examples.{result}

abbrev untrimmed : ClassificationResult
untrimmed = record {
  event_type = EventType.shipment;
  shipment = some (record {
    vendor_id = " acme ";
    tracking_number = "T1\n";
    status = ShipmentStatus.transit;
    timestamp = "2025-01-01T00:00:00Z";
  });
  invoice = none;
}

accepts : validate_classification_result pydantic (obj (dump_result untrimmed)) ≡ ok result
unfolding validate_classification_result validate_classification validate_optional validate_shipment
    strip check_data_matches_type
accepts = refl

validated-IsValid_example : IsValid result
validated-IsValid_example = validated-IsValid pydantic (obj (dump_result untrimmed)) result accepts

revalidated_example :
    validate_classification_result pydantic (obj (pydantic.dump_classification result)) ≡ ok result
revalidated_example = revalidated pydantic round_trips (obj (dump_result untrimmed)) result accepts

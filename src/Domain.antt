-- ===== src/Domain.antt =====
-- webhooks/domain.py: the extraction contract, as data and as the validators of its models.
-- A `datetime` is carried as its ISO 8601 text, which no validator reads.
mod Tests
pub mod Currencies
pub mod Validators
pub mod Contract
pub mod Pydantic
pub mod Revalidation
use glacis_webhook_service.Base.{String, Bool, Option, List}
use glacis_webhook_service.Json.{Decimal}

pub data EventType : Type 0 where
  shipment invoice unclassified : EventType

-- `EventType.value`
abbrev pub value : EventType → String
value EventType.shipment = "shipment"
value EventType.invoice = "invoice"
value EventType.unclassified = "unclassified"

pub data ShipmentStatus : Type 0 where
  transit delivered exception : ShipmentStatus

pub record Shipment : Type 0 where
  pub vendor_id : String
  pub tracking_number : String
  pub status : ShipmentStatus
  pub timestamp : String

pub record Invoice : Type 0 where
  pub vendor_id : String
  pub invoice_id : String
  pub amount : Decimal
  pub currency : String

pub record ClassificationResult : Type 0 where
  pub event_type : EventType
  pub shipment : Option Shipment
  pub invoice : Option Invoice

pub record VerificationResult : Type 0 where
  pub grounded : Bool
  pub unsupported_fields : List String
  pub missing_fields : List String
  pub notes : String

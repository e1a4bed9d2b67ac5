-- ===== src/Models.antt =====
-- webhooks/models.py: the rows of the tables and the database that holds them. An instant is a
-- number of microseconds. A foreign-key record keeps the JSON values that it was built from.
use glacis_webhook_service.Base.{ℕ, String, Bool, Option, List, []}
use glacis_webhook_service.Json.{Json, Members}

pub data WebhookStatus : Type 0 where
  received processing completed failed : WebhookStatus

abbrev pub status_value : WebhookStatus → String
status_value WebhookStatus.received = "RECEIVED"
status_value WebhookStatus.processing = "PROCESSING"
status_value WebhookStatus.completed = "COMPLETED"
status_value WebhookStatus.failed = "FAILED"

pub record VendorCredential : Type 0 where
  pub vendor_id : String
  pub hmac_secret : String
  pub active : Bool

pub record WebhookEvent : Type 0 where
  pub id : String
  pub idempotency_key : String
  pub source_vendor : Option String
  pub raw_payload : Members
  pub status : WebhookStatus
  pub event_type : Option String
  pub normalized_data : Option Members
  pub created_at : ℕ
  pub processed_at : Option ℕ
  pub error_message : Option String
  pub requires_review : Bool

pub record ShipmentRecord : Type 0 where
  pub webhook_event : String
  pub vendor_id : Json
  pub tracking_number : Json
  pub status : Json
  pub timestamp : Json

pub record InvoiceRecord : Type 0 where
  pub webhook_event : String
  pub vendor_id : Json
  pub invoice_id : Json
  pub amount : Json
  pub currency : Json

pub data FkRecord : Type 0 where
  shipment : ShipmentRecord → FkRecord
  invoice : InvoiceRecord → FkRecord

pub record Db : Type 0 where
  pub events : List WebhookEvent
  pub shipments : List ShipmentRecord
  pub invoices : List InvoiceRecord

abbrev pub empty : Db
empty = record { events = []; shipments = []; invoices = [] }

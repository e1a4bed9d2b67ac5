-- ===== src/Storage/Records.antt =====
-- The builders of foreign-key records in webhooks/storage.py.
pub mod Built
use glacis_webhook_service.Base.{
  String, Option, none, some, ◌==◌, if◌then◌else◌, Result, ok, err, ◌>>=◌,
}
use glacis_webhook_service.Exceptions.{Exn}
use glacis_webhook_service.Json.{Json, null, Members}
use glacis_webhook_service.Json.Access.{get, subscript}
use glacis_webhook_service.Models.{ShipmentRecord, InvoiceRecord, FkRecord}

unfoldable pub shipment_from : String → Json → Result Exn FkRecord
unfolding subscript
shipment_from event_id s = do
  vendor_id ← subscript "vendor_id" s
  tracking_number ← subscript "tracking_number" s
  status ← subscript "status" s
  timestamp ← subscript "timestamp" s
  ok (
      FkRecord.shipment (record {
        webhook_event = event_id;
        vendor_id = vendor_id;
        tracking_number = tracking_number;
        status = status;
        timestamp = timestamp;
      }))

unfoldable pub invoice_from : String → Json → Result Exn FkRecord
unfolding subscript
invoice_from event_id i = do
  vendor_id ← subscript "vendor_id" i
  invoice_id ← subscript "invoice_id" i
  amount ← subscript "amount" i
  currency ← subscript "currency" i
  ok (
      FkRecord.invoice (record {
        webhook_event = event_id;
        vendor_id = vendor_id;
        invoice_id = invoice_id;
        amount = amount;
        currency = currency;
      }))

-- `None` where the value is missing or null.
unless_none : (Json → Result Exn FkRecord) → Option Json → Result Exn (Option FkRecord)
unless_none f none = ok none
unless_none f (some null) = ok none
unless_none f (some v) = do r ← f v; ok (some r)

unfoldable pub build_shipment_record : String → Members → Result Exn (Option FkRecord)
unfolding shipment_from unless_none get
build_shipment_record event_id classification =
    unless_none (shipment_from event_id) (get "shipment" classification)

unfoldable pub build_invoice_record : String → Members → Result Exn (Option FkRecord)
unfolding invoice_from unless_none get
build_invoice_record event_id classification =
    unless_none (invoice_from event_id) (get "invoice" classification)

-- `RECORD_BUILDERS.get(event_type)`
unfoldable pub record_builder : String → Option (String → Members → Result Exn (Option FkRecord))
record_builder event_type =
    if event_type == "shipment"
    then some build_shipment_record
    else if event_type == "invoice"
    then some build_invoice_record
    else none

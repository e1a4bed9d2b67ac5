-- ===== src/Examples/Form.antt =====
-- A JSON form of the two results, with a parser of it, in place of Pydantic's.
use glacis_webhook_service.Base.{
  String, Option, none, some, List, [], ◌∷◌, ◌≡◌, refl, if◌then◌else◌, ap, ◌==◌,
}
use glacis_webhook_service.Json.{
  Json, null, bool, num, str, arr, obj, Items, nil, cons, Members, end, member,
}
use glacis_webhook_service.Domain.{
  EventType, value, ShipmentStatus, Shipment, Invoice, ClassificationResult, VerificationResult,
}
use glacis_webhook_service.Domain.Pydantic.{Pydantic, RoundTrips}

abbrev pub status_text : ShipmentStatus → String
status_text ShipmentStatus.transit = "TRANSIT"
status_text ShipmentStatus.delivered = "DELIVERED"
status_text ShipmentStatus.exception = "EXCEPTION"

abbrev pub read_status : String → ShipmentStatus
read_status s =
    if s == "TRANSIT"
    then ShipmentStatus.transit
    else if s == "DELIVERED"
    then ShipmentStatus.delivered
    else ShipmentStatus.exception

abbrev pub read_type : String → EventType
read_type s =
    if s == "shipment"
    then EventType.shipment
    else if s == "invoice"
    then EventType.invoice
    else EventType.unclassified

abbrev pub dump_shipment : Option Shipment → Json
dump_shipment none = null
dump_shipment (some s) = obj (
    member "vendor_id" (str s.vendor_id) (
      member "tracking_number" (str s.tracking_number)
        (member "status" (str (status_text s.status)) (member "timestamp" (str s.timestamp) end))))

abbrev pub read_shipment : Json → Option Shipment
read_shipment
      (obj (member _ (str v) (member _ (str n) (member _ (str s) (member _ (str t) end))))) =
    some (record { vendor_id = v; tracking_number = n; status = read_status s; timestamp = t })
read_shipment _ = none

abbrev pub dump_invoice : Option Invoice → Json
dump_invoice none = null
dump_invoice (some i) = obj (
    member "vendor_id" (str i.vendor_id) (
      member "invoice_id" (str i.invoice_id)
        (member "amount" (num i.amount) (member "currency" (str i.currency) end))))

abbrev pub read_invoice : Json → Option Invoice
read_invoice (obj (member _ (str v) (member _ (str n) (member _ (num a) (member _ (str c) end))))) =
    some (record { vendor_id = v; invoice_id = n; amount = a; currency = c })
read_invoice _ = none

abbrev pub dump_result : ClassificationResult → Members
dump_result r =
    member "event_type" (str (value r.event_type))
      (member "shipment" (dump_shipment r.shipment) (member "invoice" (dump_invoice r.invoice) end))

abbrev pub read_result : Json → Option ClassificationResult
read_result (obj (member _ (str t) (member _ s (member _ i end)))) =
    some (record { event_type = read_type t; shipment = read_shipment s; invoice = read_invoice i })
read_result _ = none

abbrev pub dump_texts : List String → Items
dump_texts [] = nil
dump_texts (x ∷ xs) = cons (str x) (dump_texts xs)

abbrev pub read_texts : Items → List String
read_texts nil = []
read_texts (cons (str x) xs) = x ∷ read_texts xs
read_texts (cons _ xs) = read_texts xs

abbrev pub dump_verdict : VerificationResult → Members
dump_verdict v = member "grounded" (bool v.grounded) (
    member "unsupported_fields" (arr (dump_texts v.unsupported_fields)) (
      member "missing_fields" (arr (dump_texts v.missing_fields))
        (member "notes" (str v.notes) end)))

abbrev pub read_verdict : Json → Option VerificationResult
read_verdict
      (obj (member _ (bool g) (member _ (arr u) (member _ (arr m) (member _ (str n) end))))) =
    some (record {
      grounded = g;
      unsupported_fields = read_texts u;
      missing_fields = read_texts m;
      notes = n;
    })
read_verdict _ = none

abbrev pub pydantic : Pydantic
pydantic = record {
  parse_classification = read_result;
  classification_error = λ v. "invalid";
  dump_classification = dump_result;
  parse_verification = read_verdict;
  verification_error = λ v. "invalid";
  dump_verification = dump_verdict;
}

status_lem : (s : ShipmentStatus) → read_status (status_text s) ≡ s
status_lem ShipmentStatus.transit = refl
status_lem ShipmentStatus.delivered = refl
status_lem ShipmentStatus.exception = refl

type_lem : (t : EventType) → read_type (value t) ≡ t
type_lem EventType.shipment = refl
type_lem EventType.invoice = refl
type_lem EventType.unclassified = refl

shipment_lem : (o : Option Shipment) → read_shipment (dump_shipment o) ≡ o
shipment_lem none = refl
shipment_lem (some s) = rw (status_lem s.status) refl

invoice_lem : (o : Option Invoice) → read_invoice (dump_invoice o) ≡ o
invoice_lem none = refl
invoice_lem (some i) = refl

texts_lem : (xs : List String) → read_texts (dump_texts xs) ≡ xs
texts_lem [] = refl
texts_lem (x ∷ xs) = ap (◌∷◌ x) (texts_lem xs)

result_lem : (r : ClassificationResult) → read_result (obj (dump_result r)) ≡ some r
result_lem r = rw (type_lem r.event_type, shipment_lem r.shipment, invoice_lem r.invoice) refl

verdict_lem : (v : VerificationResult) → read_verdict (obj (dump_verdict v)) ≡ some v
verdict_lem v = rw (texts_lem v.unsupported_fields, texts_lem v.missing_fields) refl

pub round_trips : RoundTrips pydantic
round_trips = record { parse-dump = result_lem; parse-dump_verification = verdict_lem }

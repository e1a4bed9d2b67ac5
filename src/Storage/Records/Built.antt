-- ===== src/Storage/Records/Built.antt =====
-- What the builders make: a record of their kind, for the event that they are given.
use glacis_webhook_service.Base.{◌≡◌, ok, some, >>=-eq-ok, subst, ok_inj, none, sym, refl, some_inj}
use glacis_webhook_service.Exceptions.{Exn}
use glacis_webhook_service.Json.{Json, null, Members}
use glacis_webhook_service.Json.Access.{get, subscript}
use glacis_webhook_service.Domain.{EventType, value}
use glacis_webhook_service.Models.{FkRecord}
use glacis_webhook_service.Storage.Records.{
  shipment_from, invoice_from, unless_none, build_shipment_record, build_invoice_record,
  record_builder, String, Result, Option,
}

abbrev pub type_of : FkRecord → EventType
type_of (FkRecord.shipment r) = EventType.shipment
type_of (FkRecord.invoice r) = EventType.invoice

abbrev pub event_of : FkRecord → String
event_of (FkRecord.shipment r) = r.webhook_event
event_of (FkRecord.invoice r) = r.webhook_event

-- The columns of the record are the fields of that name in the extraction.
abbrev pub Fields : FkRecord → Json → Type 0
Fields (FkRecord.shipment r) v =
    (subscript "vendor_id" v ≡ ok r.vendor_id)
    × (subscript "tracking_number" v ≡ ok r.tracking_number)
    × (subscript "status" v ≡ ok r.status)
    × (subscript "timestamp" v ≡ ok r.timestamp)
Fields (FkRecord.invoice r) v =
    (subscript "vendor_id" v ≡ ok r.vendor_id)
    × (subscript "invoice_id" v ≡ ok r.invoice_id)
    × (subscript "amount" v ≡ ok r.amount)
    × (subscript "currency" v ≡ ok r.currency)

-- Under which key of the classification the extraction stands.
abbrev pub part_of : FkRecord → String
part_of (FkRecord.shipment r) = "shipment"
part_of (FkRecord.invoice r) = "invoice"

-- The record copies the part of the classification that is of its kind.
pub record Copies (k : FkRecord) (m : Members) : Type 0 where
  pub part : Json
  pub found : get (part_of k) m ≡ some part
  pub fields : Fields k part

pub shipment_from_lem :
    (event_id : String) (v : Json) (k : FkRecord)
    → shipment_from event_id v ≡ ok k
    → (type_of k ≡ EventType.shipment) × (event_of k ≡ event_id) × Fields k v
unfolding shipment_from
shipment_from_lem event_id v k h =
    let (a, p, h1) = >>=-eq-ok (subscript "vendor_id" v) _ h in
    let (b, q, h2) = >>=-eq-ok (subscript "tracking_number" v) _ h1 in
    let (c, r, h3) = >>=-eq-ok (subscript "status" v) _ h2 in
    let (d, s, h4) = >>=-eq-ok (subscript "timestamp" v) _ h3 in
    subst (λ x. (type_of x ≡ EventType.shipment) × (event_of x ≡ event_id) × Fields x v) (ok_inj h4)
      (refl, refl, (p, q, r, s))

pub invoice_from_lem :
    (event_id : String) (v : Json) (k : FkRecord)
    → invoice_from event_id v ≡ ok k
    → (type_of k ≡ EventType.invoice) × (event_of k ≡ event_id) × Fields k v
unfolding invoice_from
invoice_from_lem event_id v k h =
    let (a, p, h1) = >>=-eq-ok (subscript "vendor_id" v) _ h in
    let (b, q, h2) = >>=-eq-ok (subscript "invoice_id" v) _ h1 in
    let (c, r, h3) = >>=-eq-ok (subscript "amount" v) _ h2 in
    let (d, s, h4) = >>=-eq-ok (subscript "currency" v) _ h3 in
    subst (λ x. (type_of x ≡ EventType.invoice) × (event_of x ≡ event_id) × Fields x v) (ok_inj h4)
      (refl, refl, (p, q, r, s))

unless_none_lem :
    (f : Json → Result Exn FkRecord) (o : Option Json) (k : FkRecord)
    → unless_none f o ≡ ok (some k)
    → (v : Json) × (o ≡ some v) × (f v ≡ ok k)
unfolding unless_none
unless_none_lem f none k h = cc
unless_none_lem f (some null) k h = cc
unless_none_lem f (some v) k h = let (r, p, q) = >>=-eq-ok (f v) _ h in (v, refl, cc (p, q))

copies :
    (m : Members) (t : EventType) (v : Json) (k : FkRecord)
    → type_of k ≡ t
    → get (value t) m ≡ some v
    → Fields k v
    → Copies k m
copies m t v (FkRecord.shipment r) typed found fields = record {
  part = v;
  found = subst (λ x. get (value x) m ≡ some v) (sym typed) found;
  fields = fields;
}
copies m t v (FkRecord.invoice r) typed found fields = record {
  part = v;
  found = subst (λ x. get (value x) m ≡ some v) (sym typed) found;
  fields = fields;
}

-- The builder of an event type makes records of that type, for the event that it is given, and
-- copies the fields.
pub record_builder_lem :
    (t : EventType) (builder : String → Members → Result Exn (Option FkRecord)) (event_id : String)
    (m : Members) (k : FkRecord)
    → record_builder (value t) ≡ some builder
    → builder event_id m ≡ ok (some k)
    → (type_of k ≡ t) × (event_of k ≡ event_id) × Copies k m
unfolding record_builder build_shipment_record build_invoice_record
record_builder_lem EventType.shipment builder event_id m k e h =
    let (v, found, p) = unless_none_lem (shipment_from event_id) (get "shipment" m) k (
      subst (λ (b : String → Members → Result Exn (Option FkRecord)). b event_id m ≡ ok (some k))
        (sym (some_inj e)) h) in
    let (typed, event, fields) = shipment_from_lem event_id v k p in
    (typed, event, copies m EventType.shipment v k typed found fields)
record_builder_lem EventType.invoice builder event_id m k e h =
    let (v, found, p) = unless_none_lem (invoice_from event_id) (get "invoice" m) k (
      subst (λ (b : String → Members → Result Exn (Option FkRecord)). b event_id m ≡ ok (some k))
        (sym (some_inj e)) h) in
    let (typed, event, fields) = invoice_from_lem event_id v k p in
    (typed, event, copies m EventType.invoice v k typed found fields)
record_builder_lem EventType.unclassified builder event_id m k e h = cc

-- ===== src/Domain/Validators.antt =====
-- The field and model validators of webhooks/domain.py. A validator returns the value that replaces
-- its input or raises `ValueError`; a model is built when all of its validators return.
use glacis_webhook_service.Base.{
  String, Bool, ◌&&◌, ◌||◌, not, Option, none, some, [], ◌∷◌, ◌==◌, if◌then◌else◌, Result, ok, err,
  ◌>>=◌, any, eqb, is_some,
}
use glacis_webhook_service.Base.Texts.{strip, is_empty}
use glacis_webhook_service.Exceptions.{Exn, value_error}
use glacis_webhook_service.Json.{Decimal}
use glacis_webhook_service.Domain.{
  EventType, Shipment, Invoice, ClassificationResult, VerificationResult,
}
use glacis_webhook_service.Domain.Currencies.{iso_4217_currencies}

unfoldable pub vendor_id_not_empty : String → Result Exn String
vendor_id_not_empty v =
    let v' = strip v in
    if is_empty v' then err (value_error "vendor_id must not be empty") else ok v'

unfoldable pub tracking_number_not_empty : String → Result Exn String
tracking_number_not_empty v =
    let v' = strip v in
    if is_empty v' then err (value_error "tracking_number must not be empty") else ok v'

-- `v < 0`: a negative zero is not below zero.
abbrev pub is_below_zero : Decimal → Bool
is_below_zero v = v.negative && not (eqb v.coefficient 0)

unfoldable pub amount_must_be_positive : Decimal → Result Exn Decimal
amount_must_be_positive v =
    if is_below_zero v then err (value_error "amount must be non-negative") else ok v

unfoldable pub is_iso : String → Bool
is_iso v = any (λ c. c == v) iso_4217_currencies

unfoldable pub currency_must_be_iso : String → Result Exn String
currency_must_be_iso v =
    if is_iso v then ok v else err (value_error "currency must be a valid ISO 4217 code")

unfoldable pub validate_shipment : Shipment → Result Exn Shipment
unfolding vendor_id_not_empty tracking_number_not_empty
validate_shipment s = do
  vendor_id ← vendor_id_not_empty s.vendor_id
  tracking_number ← tracking_number_not_empty s.tracking_number
  ok (record s { vendor_id = vendor_id; tracking_number = tracking_number })

unfoldable pub validate_invoice : Invoice → Result Exn Invoice
unfolding vendor_id_not_empty amount_must_be_positive currency_must_be_iso
validate_invoice i = do
  vendor_id ← vendor_id_not_empty i.vendor_id
  amount ← amount_must_be_positive i.amount
  currency ← currency_must_be_iso i.currency
  ok (record i { vendor_id = vendor_id; amount = amount; currency = currency })

-- A field that may be `None` is validated when it is not.
unfoldable pub validate_optional {ℓ} :
    {A : Type ℓ} → (A → Result Exn A) → Option A → Result Exn (Option A)
validate_optional f none = ok none
validate_optional f (some a) = do b ← f a; ok (some b)

matches_type : EventType → ClassificationResult → Result Exn ClassificationResult
matches_type EventType.shipment r =
    if not (is_some r.shipment)
    then err (value_error "shipment data required when event_type is 'shipment'")
    else if is_some r.invoice
    then err (value_error "invoice must be null when event_type is 'shipment'")
    else ok r
matches_type EventType.invoice r =
    if not (is_some r.invoice)
    then err (value_error "invoice data required when event_type is 'invoice'")
    else if is_some r.shipment
    then err (value_error "shipment must be null when event_type is 'invoice'")
    else ok r
matches_type EventType.unclassified r =
    if is_some r.shipment || is_some r.invoice
    then err
        (value_error "shipment and invoice must both be null when event_type is 'unclassified'")
    else ok r

unfoldable pub check_data_matches_type : ClassificationResult → Result Exn ClassificationResult
unfolding matches_type
check_data_matches_type r = matches_type r.event_type r

-- The model validator runs when all fields are valid.
unfoldable pub validate_classification : ClassificationResult → Result Exn ClassificationResult
validate_classification r = do
  shipment ← validate_optional validate_shipment r.shipment
  invoice ← validate_optional validate_invoice r.invoice
  check_data_matches_type (record r { shipment = shipment; invoice = invoice })

unfoldable pub check_grounded_consistency : VerificationResult → Result Exn VerificationResult
check_grounded_consistency v = elim v.unsupported_fields [
  | [] ↦ ok v
  | f ∷ fs ↦
      if v.grounded
      then err (value_error "grounded=True is incompatible with unsupported_fields")
      else ok v
]

-- ===== src/Domain/Contract.antt =====
-- The contract that a validated extraction meets, beside the validators of webhooks/domain.py.
use glacis_webhook_service.Base.{
  String, ◌≡◌, refl, true, false, Option, none, some, Result, ok, arith, >>=-eq-ok, ok_inj, is_some,
  sym, subst,
}
use glacis_webhook_service.Base.Texts.{strip, is_empty}
use glacis_webhook_service.Base.Texts.Strip.{strip_idempotent}
use glacis_webhook_service.Exceptions.{Exn}
use glacis_webhook_service.Domain.{EventType, Shipment, Invoice, ClassificationResult}
use glacis_webhook_service.Domain.Validators.{
  is_below_zero, is_iso, validate_shipment, validate_invoice, validate_optional,
  check_data_matches_type, validate_classification,
}

-- A text that `strip` leaves alone and that is not empty.
pub record IsName (v : String) : Type 0 where
  pub trimmed : strip v ≡ v
  pub filled : is_empty v ≡ false

pub record IsValidShipment (s : Shipment) : Type 0 where
  pub vendor : IsName s.vendor_id
  pub tracking : IsName s.tracking_number

pub record IsValidInvoice (i : Invoice) : Type 0 where
  pub vendor : IsName i.vendor_id
  pub amount : is_below_zero i.amount ≡ false
  pub currency : is_iso i.currency ≡ true

abbrev pub Fits {ℓ κ} : {A : Type ℓ} → (A → Type κ) → Option A → Type κ
Fits P none = Unit
Fits P (some a) = P a

-- Exactly the part that the event type names is present.
abbrev pub MatchesType : EventType → ClassificationResult → Type 0
MatchesType EventType.shipment r = (is_some r.shipment ≡ true) × (is_some r.invoice ≡ false)
MatchesType EventType.invoice r = (is_some r.shipment ≡ false) × (is_some r.invoice ≡ true)
MatchesType EventType.unclassified r = (is_some r.shipment ≡ false) × (is_some r.invoice ≡ false)

pub record IsValid (r : ClassificationResult) : Type 0 where
  pub matches : MatchesType r.event_type r
  pub shipment : Fits IsValidShipment r.shipment
  pub invoice : Fits IsValidInvoice r.invoice

shipment_sound : (s t : Shipment) → validate_shipment s ≡ ok t → IsValidShipment t
unfolding validate_shipment
shipment_sound s t h =
    ground (arith, strip_idempotent s.vendor_id, strip_idempotent s.tracking_number)

pub shipment_complete : (s : Shipment) → IsValidShipment s → validate_shipment s ≡ ok s
unfolding validate_shipment
shipment_complete s h = ground arith

invoice_sound : (i j : Invoice) → validate_invoice i ≡ ok j → IsValidInvoice j
unfolding validate_invoice
invoice_sound i j h = ground (arith, strip_idempotent i.vendor_id)

pub invoice_complete : (i : Invoice) → IsValidInvoice i → validate_invoice i ≡ ok i
unfolding validate_invoice
invoice_complete i h = ground arith

check_sound :
    (r : ClassificationResult) {s : ClassificationResult}
    → check_data_matches_type r ≡ ok s
    → (s ≡ r) × MatchesType r.event_type r
unfolding check_data_matches_type
check_sound r h = ground arith

check_complete :
    (r : ClassificationResult) → MatchesType r.event_type r → check_data_matches_type r ≡ ok r
unfolding check_data_matches_type
check_complete r h = ground arith

module _ {A : Type 0} (f : A → Result Exn A) (P : A → Type 0) where
  optional_sound :
      ((a b : A) → f a ≡ ok b → P b)
      → (o : Option A) {p : Option A} → validate_optional f o ≡ ok p
      → Fits P p
  unfolding validate_optional
  optional_sound sound none h = ground arith
  optional_sound sound (some a) h =
      let (b, e, h') = >>=-eq-ok (f a) _ h in subst (Fits P) (ok_inj h') (sound a b e)

  optional_complete :
      ((a : A) → P a → f a ≡ ok a) → (o : Option A) → Fits P o → validate_optional f o ≡ ok o
  unfolding validate_optional
  optional_complete complete none h = refl
  optional_complete complete (some a) h = rw (complete a h)

-- What validation accepts meets the contract.
pub validate-IsValid :
    (r : ClassificationResult) {s : ClassificationResult}
    → validate_classification r ≡ ok s
    → IsValid s
unfolding validate_classification
validate-IsValid r h =
    let (sh, e1, h1) = >>=-eq-ok (validate_optional validate_shipment r.shipment) _ h in
    let (inv, e2, h2) = >>=-eq-ok (validate_optional validate_invoice r.invoice) _ h1 in
    let (e, m) = check_sound _ h2 in
    subst IsValid (sym e) (record {
      matches = m;
      shipment = optional_sound validate_shipment IsValidShipment shipment_sound r.shipment e1;
      invoice = optional_sound validate_invoice IsValidInvoice invoice_sound r.invoice e2;
    })

-- A value that meets the contract passes validation unchanged.
pub validate_of_IsValid : (r : ClassificationResult) → IsValid r → validate_classification r ≡ ok r
unfolding validate_classification
validate_of_IsValid r h =
    rw
      (
        optional_complete validate_shipment IsValidShipment shipment_complete r.shipment h.shipment,
        optional_complete validate_invoice IsValidInvoice invoice_complete r.invoice h.invoice,
      )
      (check_complete r h.matches)

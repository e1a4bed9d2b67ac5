-- ===== src/Admin.antt =====
-- webhooks/admin.py: the actions on the review queue. A queryset is a test on events, and the
-- messages to the operator are left as the numbers that they report.
mod Tests
pub mod Promotion
pub mod Shown
use glacis_webhook_service.Base.{
  ℕ, ◌+◌, ◌-◌, String, Bool, true, false, Option, none, some, List, [], ◌∷◌, ◌==◌, ◌&&◌, not,
  Result, ok, err, ◌>>=◌, any, filter, map, length, if◌then◌else◌, ◌++◌,
}
use glacis_webhook_service.Exceptions.{Exn}
use glacis_webhook_service.Json.{Json, bool, str, Members, end}
use glacis_webhook_service.Json.Access.{get, truthy_get}
use glacis_webhook_service.Domain.{EventType, value}
use glacis_webhook_service.Models.{WebhookEvent, FkRecord, Db}
use glacis_webhook_service.Storage.{has_id}
use glacis_webhook_service.Storage.Records.{shipment_from, invoice_from}

-- `event.normalized_data or {}`
abbrev pub normalized : WebhookEvent → Members
normalized e = elim e.normalized_data [ none ↦ end | some d ↦ d ]

abbrev pub has_type : EventType → WebhookEvent → Bool
has_type t e = elim e.event_type [ none ↦ false | some s ↦ s == value t ]

-- `objects.get_or_create(webhook_event=event, defaults=…)`
unfoldable pub get_or_create : FkRecord → Db → Db
get_or_create (FkRecord.shipment r) db =
    if any (λ s. s.webhook_event == r.webhook_event) db.shipments
    then db
    else record db { shipments = db.shipments ++ r ∷ [] }
get_or_create (FkRecord.invoice r) db =
    if any (λ s. s.webhook_event == r.webhook_event) db.invoices
    then db
    else record db { invoices = db.invoices ++ r ∷ [] }

-- The record of a part that is there and not empty.
promote_part :
    (String → Json → Result Exn FkRecord) → String → Option Json → Option (Result Exn FkRecord)
promote_part from id none = none
promote_part from id (some v) = if truthy_get (some v) then some (from id v) else none

-- What `_create_record_from_extraction` would create, if anything.
unfoldable pub promotable : WebhookEvent → Option (Result Exn FkRecord)
unfolding promote_part get
promotable e =
    if has_type EventType.shipment e
    then promote_part shipment_from e.id (get "shipment" (normalized e))
    else if has_type EventType.invoice e
    then promote_part invoice_from e.id (get "invoice" (normalized e))
    else none

pub record Counts : Type 0 where
  pub promoted : ℕ
  pub skipped_already_done : ℕ
  pub skipped_schema_rejected : ℕ
  pub skipped_unclassified : ℕ

abbrev pub is_rejected : WebhookEvent → Bool
is_rejected e = truthy_get (get "schema_rejected" (normalized e))

-- A text that was stamped on the extraction; any other value shows nothing.
abbrev pub stamped : Option Json → String
stamped (some (str reason)) = reason
stamped _ = ""

-- The column `reason` of the list.
unfoldable pub review_reason : WebhookEvent → String
unfolding get
review_reason e =
    if not e.requires_review
    then ""
    else if is_rejected e
    then "schema_rejected"
    else stamped (get "review_reason" (normalized e))

-- The list shows the review queue until its filter is set.
abbrev pub get_queryset : Bool → List WebhookEvent → List WebhookEvent
get_queryset filtered rows = if filtered then rows else filter (λ e. e.requires_review) rows

abbrev pub clear_review : WebhookEvent → WebhookEvent
clear_review e = record e { requires_review = false }

-- `event.requires_review = False; event.save(update_fields=…)`
unfoldable pub clear_id : String → Db → Db
clear_id id db = record db {
  events = map (λ e. if has_id id e then clear_review e else e) db.events;
}

pub promote_with :
    WebhookEvent → Option (Result Exn FkRecord) → Counts × Db → Result Exn (Counts × Db)
unfolding clear_id get_or_create
promote_with e none (c, db) =
    ok (record c { skipped_unclassified = c.skipped_unclassified + 1 }, db)
promote_with e (some (err x)) (c, db) = err x
promote_with e (some (ok r)) (c, db) =
    ok (record c { promoted = c.promoted + 1 }, clear_id e.id (get_or_create r db))

-- One turn of the loop.
unfoldable pub approve_one : WebhookEvent → Counts × Db → Result Exn (Counts × Db)
unfolding promotable promote_with get
approve_one e (c, db) =
    if not e.requires_review
    then ok (record c { skipped_already_done = c.skipped_already_done + 1 }, db)
    else if is_rejected e
    then ok (record c { skipped_schema_rejected = c.skipped_schema_rejected + 1 }, db)
    else promote_with e (promotable e) (c, db)

pub approve_all : List WebhookEvent → Counts × Db → Result Exn (Counts × Db)
unfolding approve_one
approve_all [] s = ok s
approve_all (e ∷ es) s = do s' ← approve_one e s; approve_all es s'

abbrev pub no_counts : Counts
no_counts = record {
  promoted = 0;
  skipped_already_done = 0;
  skipped_schema_rejected = 0;
  skipped_unclassified = 0;
}

-- One transaction over the selected events.
unfoldable pub approve_and_promote : (WebhookEvent → Bool) → Db → Result Exn Counts × Db
unfolding approve_all
approve_and_promote selected db = elim (approve_all (filter selected db.events) (no_counts, db)) [
  | err x ↦ (err x, db)
  | ok s ↦ (ok s.0, s.1)
]

abbrev pub is_true : Option Json → Bool
is_true (some (bool true)) = true
is_true _ = false

-- `requires_review=True, normalized_data__schema_rejected=True`
abbrev pub is_resolvable : WebhookEvent → Bool
is_resolvable e = e.requires_review && is_true (get "schema_rejected" (normalized e))

pub record Resolved : Type 0 where
  pub cleared : ℕ
  pub already_done : ℕ
  pub not_eligible : ℕ

unfoldable pub mark_resolved : (WebhookEvent → Bool) → Db → Resolved × Db
unfolding get
mark_resolved selected db =
    let rows = filter selected db.events in
    let already_done = length (filter (λ e. not e.requires_review) rows) in
    let cleared = length (filter is_resolvable rows) in
    (
      record {
        cleared = cleared;
        already_done = already_done;
        not_eligible = length rows - already_done - cleared;
      },
      record db {
        events = map (λ e. if selected e && is_resolvable e then clear_review e else e) db.events;
      },
    )

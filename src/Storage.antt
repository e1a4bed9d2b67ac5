-- ===== src/Storage.antt =====
-- webhooks/storage.py: the ORM helpers. A query is a function of the database, and a write returns
-- the new one. `now` is the clock at the call and `id` the UUID that the call draws. A unique or
-- foreign-key constraint that fails raises `IntegrityError` and leaves the database as it was.
mod Tests
pub mod Settled
pub mod InStep
pub mod Queries
pub mod Records
pub mod Rows
pub mod History
pub mod Consistency
pub mod Listing
pub mod Lifecycle
use glacis_webhook_service.Base.Texts.{len, join}
use glacis_webhook_service.Base.{
  ltb, ℕ, String, Bool, true, false, not, ◌&&◌, ◌||◌, Option, none, some, List, [], ◌∷◌, ◌++◌, map,
  ◌==◌, if◌then◌else◌, Result, ok, err, ◌>>=◌, any, find?, is_some,
}
use glacis_webhook_service.Exceptions.{Exn, integrity_error, value_error, other}
use glacis_webhook_service.Json.{Members}
use glacis_webhook_service.Models.{
  WebhookStatus, WebhookEvent, ShipmentRecord, InvoiceRecord, FkRecord, Db, status_value,
}

-- `status in TERMINAL_STATUSES`
abbrev pub is_terminal : WebhookStatus → Bool
is_terminal WebhookStatus.completed = true
is_terminal WebhookStatus.failed = true
is_terminal WebhookStatus.received = false
is_terminal WebhookStatus.processing = false

abbrev pub has_key : String → WebhookEvent → Bool
has_key key e = e.idempotency_key == key

abbrev pub has_id : String → WebhookEvent → Bool
has_id id e = e.id == id

-- A fresh row has the column defaults of the model.
abbrev pub fresh_event : String → String → Members → String → ℕ → WebhookEvent
fresh_event id idempotency_key raw_payload source_vendor now = record {
  id = id;
  idempotency_key = idempotency_key;
  source_vendor = some source_vendor;
  raw_payload = raw_payload;
  status = WebhookStatus.received;
  event_type = none;
  normalized_data = none;
  created_at = now;
  processed_at = none;
  error_message = none;
  requires_review = false;
}

-- `CharField(max_length=…)` of the key and of the vendor: a longer text raises `DataError`.
abbrev pub max_key_length : ℕ
max_key_length = 512

abbrev pub max_vendor_length : ℕ
max_vendor_length = 256

abbrev pub is_too_long : String → String → Bool
is_too_long idempotency_key source_vendor =
    ltb max_key_length (len idempotency_key) || ltb max_vendor_length (len source_vendor)

abbrev pub data_error : Exn
data_error = other "DataError"

-- The unique constraints are those on the key and on the primary key.
unfoldable pub insert_webhook_event :
    String → ℕ → String → Members → String → Db → Result Exn String × Db
insert_webhook_event id now idempotency_key raw_payload source_vendor db =
    if is_too_long idempotency_key source_vendor
    then (err data_error, db)
    else if any (has_key idempotency_key) db.events || any (has_id id) db.events
    then (err integrity_error, db)
    else (
      ok id,
      record db {
        events = db.events ++ fresh_event id idempotency_key raw_payload source_vendor now ∷ [];
      },
    )

-- The dict that `_serialize_event` returns; its instants are not printed.
pub record EventDict : Type 0 where
  pub id : String
  pub idempotency_key : String
  pub source_vendor : Option String
  pub status : WebhookStatus
  pub event_type : Option String
  pub normalized_data : Option Members
  pub created_at : ℕ
  pub processed_at : Option ℕ
  pub error_message : Option String
  pub requires_review : Bool

abbrev pub serialize_event : WebhookEvent → EventDict
serialize_event e = record {
  id = e.id;
  idempotency_key = e.idempotency_key;
  source_vendor = e.source_vendor;
  status = e.status;
  event_type = e.event_type;
  normalized_data = e.normalized_data;
  created_at = e.created_at;
  processed_at = e.processed_at;
  error_message = e.error_message;
  requires_review = e.requires_review;
}

unfoldable pub get_event_by_key : String → Db → Option EventDict
get_event_by_key idempotency_key db = elim (find? (has_key idempotency_key) db.events) [
  | none ↦ none
  | some e ↦ some (serialize_event e)
]

-- `filter(idempotency_key=…).exclude(status__in=TERMINAL_STATUSES).update(…)` on one row.
unfoldable pub update_live : String → (WebhookEvent → WebhookEvent) → WebhookEvent → WebhookEvent
update_live key f e = if has_key key e && not (is_terminal e.status) then f e else e

abbrev pub start_processing : WebhookEvent → WebhookEvent
start_processing e = record e { status = WebhookStatus.processing }

unfoldable pub mark_processing_status : String → Db → Db
mark_processing_status idempotency_key db = record db {
  events = map (update_live idempotency_key start_processing) db.events;
}

abbrev pub finish : WebhookStatus → ℕ → Option String → WebhookEvent → WebhookEvent
finish status now none e = record e { status = status; processed_at = some now }
finish status now (some error) e = record e {
  status = status;
  processed_at = some now;
  error_message = some error;
}

unfoldable pub mark_terminal_status :
    ℕ → String → WebhookStatus → Option String → Db → Result Exn (Unit {0}) × Db
mark_terminal_status now idempotency_key status error db =
    if not (is_terminal status)
    then (
      err (value_error (join "mark_terminal_status received non-terminal " (status_value status))),
      db,
    )
    else (
      ok tt,
      record db { events = map (update_live idempotency_key (finish status now error)) db.events },
    )

-- `record.save()`: the event must exist and have no record of this kind yet.
unfoldable pub save : FkRecord → Db → Result Exn Db
save (FkRecord.shipment r) db =
    if not (any (has_id r.webhook_event) db.events)
      || any (λ s. s.webhook_event == r.webhook_event) db.shipments
    then err integrity_error
    else ok (record db { shipments = db.shipments ++ r ∷ [] })
save (FkRecord.invoice r) db =
    if not (any (has_id r.webhook_event) db.events)
      || any (λ s. s.webhook_event == r.webhook_event) db.invoices
    then err integrity_error
    else ok (record db { invoices = db.invoices ++ r ∷ [] })

unfoldable pub save_optional : Option FkRecord → Db → Result Exn Db
save_optional none db = ok db
save_optional (some r) db = save r db

abbrev pub complete : ℕ → String → Members → Bool → WebhookEvent → WebhookEvent
complete now event_type normalized_data requires_review e = record e {
  status = WebhookStatus.completed;
  event_type = some event_type;
  normalized_data = some normalized_data;
  processed_at = some now;
  requires_review = requires_review;
}

-- One transaction: where the save raises, nothing is written.
unfoldable pub store_and_complete :
    ℕ
    → String
    → String
    → String
    → Members
    → Option FkRecord
    → Bool
    → Db
    → Result Exn (Unit {0}) × Db
unfolding save_optional
store_and_complete now idempotency_key event_id event_type normalized_data fk_record requires_review
      db =
    elim (save_optional fk_record db) [
      | err e ↦ (err e, db)
      | ok db' ↦ (
        ok tt,
        record db' {
          events =
              map
                (update_live idempotency_key
                  (complete now event_type normalized_data requires_review))
                db'.events;
        },
      )
    ]

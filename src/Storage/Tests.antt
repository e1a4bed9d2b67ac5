-- ===== src/Storage/Tests.antt =====
-- Runs of the helpers on small tables.
use glacis_webhook_service.Base.{
  some, [], ◌∷◌, In, List, false, refl, length, inl, ◌≡◌, true, ok, ◌≤◌, ◌⊎◌, All,
}
use glacis_webhook_service.Json.{end, str}
use glacis_webhook_service.Models.{WebhookStatus, WebhookEvent, FkRecord, ShipmentRecord, Db}
use glacis_webhook_service.Storage.{
  insert_webhook_event, mark_processing_status, store_and_complete, save_optional, save,
  update_live,
}
use glacis_webhook_service.Storage.Queries.{stuck_events, is_stuck}
use glacis_webhook_service.Storage.History.{
  Reach, here, next, insert, mark_processing, store, row_evolves,
}
use glacis_webhook_service.Storage.Rows.{Evolved}
use glacis_webhook_service.Storage.Consistency.{IsConsistent, Reach-IsConsistent}
use glacis_webhook_service.Storage.Listing.{stuck_events_oldest, IsSorted}
use glacis_webhook_service.Storage.Settled.{settled_event_gets_record}
use glacis_webhook_service.Storage.Lifecycle.{stage, Runs}
use glacis_webhook_service.Storage.Lifecycle.Refines.{Reach-Runs}
use glacis_webhook_service.Examples.{event, payload, db_of}

abbrev settled : WebhookEvent
settled = event "e0" "acme:a" WebhookStatus.completed 1

abbrev shipped : FkRecord
shipped = FkRecord.shipment (record {
  webhook_event = "e1";
  vendor_id = str "acme";
  tracking_number = str "T1";
  status = str "TRANSIT";
  timestamp = str "2025-01-01T00:00:00Z";
})

abbrev before : Db
before = db_of (settled ∷ [])

abbrev inserted : Db
inserted = (insert_webhook_event "e1" 2 "acme:b" payload "acme" before).1

abbrev processing : Db
processing = mark_processing_status "acme:b" inserted

abbrev completed : Db
completed = (store_and_complete 3 "acme:b" "e1" "shipment" end (some shipped) false processing).1

-- An insert, the start of the processing and its end.
run : Reach before completed
run =
    next (next (next here (insert "e1" 2 "acme:b" payload "acme")) (mark_processing "acme:b"))
      (store 3 "acme:b" "e1" "shipment" end (some shipped) false)

before-IsConsistent : IsConsistent before
before-IsConsistent = record {
  keys = (refl, tt);
  ids = (refl, tt);
  shipment_events = tt;
  invoice_events = tt;
  shipments_known = tt;
  invoices_known = tt;
}

run_saves : length completed.shipments ≡ 1
unfolding insert_webhook_event mark_processing_status store_and_complete save_optional save
    update_live
run_saves = refl

row_evolves_example : (f : WebhookEvent) × In f completed.events × Evolved settled f
row_evolves_example = row_evolves run settled (inl refl)

Reach-IsConsistent_example : IsConsistent completed
Reach-IsConsistent_example = Reach-IsConsistent run before-IsConsistent

abbrev late : Db
late = db_of (
    event "e2" "acme:c" WebhookStatus.received 9000000
    ∷ event "e3" "acme:d" WebhookStatus.received 4000000
    ∷ settled
    ∷ [])

abbrev stuck : List WebhookEvent
stuck = stuck_events WebhookStatus.received 5 1 20000000 late

stuck_events_oldest_example :
    ((e : WebhookEvent)
      → In e stuck
      → In e late.events × (is_stuck WebhookStatus.received 5 20000000 e ≡ true))
    × (length stuck ≤ 1)
    × IsSorted stuck
    × ((e : WebhookEvent)
        → In e late.events
        → is_stuck WebhookStatus.received 5 20000000 e ≡ true
        → In e stuck ⊎ ((length stuck ≡ 1) × All (λ x. x.created_at ≤ e.created_at) stuck))
stuck_events_oldest_example = stuck_events_oldest WebhookStatus.received 5 1 20000000 late

-- A record for the event that is settled already.
abbrev again : ShipmentRecord
again = record {
  webhook_event = "e0";
  vendor_id = str "acme";
  tracking_number = str "T1";
  status = str "TRANSIT";
  timestamp = str "2025-01-01T00:00:00Z";
}

abbrev saved : Db
saved = record before { shipments = again ∷ [] }

settled_event_gets_record_example :
    store_and_complete 3 "acme:a" "e0" "shipment" end (some (FkRecord.shipment again)) false before
    ≡ (ok tt, saved)
unfolding save_optional save
settled_event_gets_record_example =
    settled_event_gets_record 3 "acme:a" "e0" "shipment" end (some (FkRecord.shipment again)) false
      before saved (refl, tt) refl

Reach-Runs_example : Runs (stage before) (stage completed)
Reach-Runs_example = Reach-Runs run

-- ===== src/Admin/Tests.antt =====
-- Actions on a review queue of two rows.
use glacis_webhook_service.Base.{◌≡◌, ok, some, [], ◌∷◌, true, false, ◌⊎◌, refl}
use glacis_webhook_service.Json.{Members, member, bool, end, str}
use glacis_webhook_service.Json.Access.{get, subscript}
use glacis_webhook_service.Models.{WebhookStatus, WebhookEvent, Db}
use glacis_webhook_service.Storage.Records.{shipment_from}
use glacis_webhook_service.Admin.{
  is_rejected, approve_one, promote_with, promotable, promote_part, get_or_create, clear_id,
  no_counts, String, FkRecord,
}
use glacis_webhook_service.Admin.Promotion.{IsPromoted, approve_one_lem}
use glacis_webhook_service.Examples.Form.{dump_result}
use glacis_webhook_service.Examples.{event, db_of, result}

abbrev flag : String → Members → WebhookEvent → WebhookEvent
flag event_type extraction e = record e {
  event_type = some event_type;
  normalized_data = some extraction;
  requires_review = true;
}

abbrev ungrounded : WebhookEvent
ungrounded = flag "shipment" (dump_result result) (event "e1" "acme:m1" WebhookStatus.completed 1)

abbrev rejected : WebhookEvent
rejected =
    flag "unclassified" (member "schema_rejected" (bool true) end)
      (event "e2" "acme:m2" WebhookStatus.completed 2)

abbrev queue : Db
queue = db_of (ungrounded ∷ rejected ∷ [])

abbrev stored : FkRecord
stored = FkRecord.shipment (record {
  webhook_event = "e1";
  vendor_id = str "acme";
  tracking_number = str "T1";
  status = str "TRANSIT";
  timestamp = str "2025-01-01T00:00:00Z";
})

abbrev approved : Db
approved = clear_id "e1" (get_or_create stored queue)

approves :
    approve_one ungrounded (no_counts, queue) ≡ ok (record no_counts { promoted = 1 }, approved)
unfolding approve_one promotable promote_part promote_with shipment_from get subscript
approves = refl

approve_one_lem_example :
    (queue ≡ approved)
    ⊎ ((ungrounded.requires_review ≡ true)
        × (is_rejected ungrounded ≡ false)
        × IsPromoted ungrounded approved)
approve_one_lem_example =
    approve_one_lem ungrounded no_counts (record no_counts { promoted = 1 }) queue approved approves

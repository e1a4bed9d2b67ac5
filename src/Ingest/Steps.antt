-- ===== src/Ingest/Steps.antt =====
-- webhooks/views.py, `IngestWebhookView.post` as the steps of one thread: each calls a service once,
-- so that the threads of other requests can come between any two of them.
pub mod Alone
mod Tests
pub mod Knows
pub mod Sounds
pub mod Together
use glacis_webhook_service.Base.{
  ℕ, String, Bool, true, false, Option, none, some, Result, ok, err, if◌then◌else◌,
}
use glacis_webhook_service.Exceptions.{
  Exn, RpcStatus, json_decode_error, integrity_error, operational_error, bridge_overloaded,
  rpc_error, key_error,
}
use glacis_webhook_service.Json.{Json, obj, Members}
use glacis_webhook_service.Models.{WebhookStatus}
use glacis_webhook_service.Storage.{EventDict, insert_webhook_event, get_event_by_key}
use glacis_webhook_service.Storage.Queries.{same_status}
use glacis_webhook_service.Responses.{Response, get_header, accepted, already_received}
use glacis_webhook_service.Services.{Services}
use glacis_webhook_service.Dedup.{check_duplicate, mark_as_seen}
use glacis_webhook_service.Bridge.{submit}
use glacis_webhook_service.Ingest.{
  Request, World, is_valid_id, invalid_body, service_unavailable, bridge_overloaded_response,
  internal_error,
}

-- A delivery that has been read: its webhook id and payload.
pub record Read : Type 0 where
  pub webhook_id : String
  pub payload : Members

-- Where the thread of a request stands.
pub data Stage : Type 0 where
  arrived : Stage  -- before the body is read
  checking : Read → Stage  -- before the Redis lookup
  inserting : Read → (key : String) → Stage
  looking_up : Read → (key : String) → Stage  -- after `IntegrityError`
  starting : Read → (key event_id : String) → Stage
  marking : Read → (key : String) → Stage
  finished : Result Exn Response → Stage

module _ (req : Request) where
  abbrev pub read_id : Option String → Members → Stage
  read_id none payload = finished (err (key_error "webhook-id"))
  read_id (some webhook_id) payload =
      if is_valid_id webhook_id
      then checking (record { webhook_id = webhook_id; payload = payload })
      else finished (
          ok (
            invalid_body "Invalid webhook-id"
              "webhook-id must be 1-256 chars, alphanumerics plus '. _ - :' only." req.path))

  abbrev pub read_body : Result Exn Json → Stage
  read_body (ok (obj payload)) = read_id (get_header "webhook-id" req.headers) payload
  read_body (ok _) =
      finished (ok (invalid_body "Invalid JSON" "Request body must be a JSON object." req.path))
  read_body (err (json_decode_error _)) =
      finished (ok (invalid_body "Invalid JSON" "Request body is not valid JSON." req.path))
  read_body (err e) = finished (err e)

  abbrev pub was_checked : Read → Result Exn (Bool × String) → Stage
  was_checked d (ok (is_duplicate, key)) =
      if is_duplicate then finished (ok (already_received key)) else inserting d key
  was_checked d (err e) =
      finished (ok (service_unavailable "Dedup cache is unreachable. Please retry." req.path))

  abbrev pub was_inserted : Read → String → Result Exn String → Stage
  was_inserted d key (ok event_id) = starting d key event_id
  was_inserted d key (err integrity_error) = looking_up d key
  was_inserted d key (err operational_error) =
      finished (ok (service_unavailable "Database is unreachable. Please retry." req.path))
  was_inserted d key (err e) = finished (err e)

  abbrev pub was_found : Read → String → Option EventDict → Stage
  was_found d key none = finished (ok (internal_error req.path))
  was_found d key (some e) =
      if same_status e.status WebhookStatus.received
      then starting d key e.id
      else finished (ok (already_received key))

  abbrev pub was_started : Read → String → Result Exn (Unit {0}) → Stage
  was_started d key (ok _) = marking d key
  was_started d key (err bridge_overloaded) = finished (ok (bridge_overloaded_response req.path))
  was_started d key (err (rpc_error RpcStatus.already_exists)) =
      finished (ok (already_received key))
  was_started d key (err (rpc_error RpcStatus.other_status)) =
      finished (
        ok (service_unavailable "Failed to queue event for classification. Please retry." req.path))
  was_started d key (err e) = finished (err e)

module _ (s : Services) (loads : String → Result Exn Json) (cap : ℕ) (req : Request) where
  open s use {start_workflow}

  -- One step of the thread.
  unfoldable pub step : Stage → World s → Stage × World s
  step arrived w = (read_body req (loads req.raw), w)
  step (checking d) w =
      (was_checked req d (check_duplicate s d.webhook_id req.vendor_id w.now w.redis), w)
  step (inserting d key) w =
      if w.database
      then (let (r, db) = insert_webhook_event w.id w.now key d.payload req.vendor_id w.db in
          (was_inserted req d key r, record w { db = db }))
      else (was_inserted req d key (err operational_error), w)
  step (looking_up d key) w =
      if w.lookup_database
      then (was_found req d key (get_event_by_key key w.db), w)
      else (finished (err operational_error), w)
  step (starting d key event_id) w =
      let (r, (inflight, temporal)) =
        submit cap (start_workflow key event_id d.payload) (w.inflight, w.temporal) in
      (was_started req d key r, record w { inflight = inflight; temporal = temporal })
  step (marking d key) w =
      let (_, redis) = mark_as_seen s key d.webhook_id req.vendor_id w.now w.redis in
      (finished (ok (accepted key)), record w { redis = redis })
  step (finished r) w = (finished r, w)

-- ===== src/Ingest/Tests.antt =====
-- Requests to the view.
use glacis_webhook_service.Base.{
  ◌≡◌, ok, none, some, [], ◌∷◌, List, true, refl, In, String, err, inl, inr, false, ◌↔◌, arith,
}
use Prim.Native.String.{◌++◌}
use glacis_webhook_service.Models.{WebhookStatus, WebhookEvent}
use glacis_webhook_service.Storage.{insert_webhook_event, get_event_by_key, is_too_long, data_error}
use glacis_webhook_service.Storage.Consistency.{IsConsistent}
use glacis_webhook_service.Responses.{accepted, get_header}
use glacis_webhook_service.Dedup.{check_duplicate, mark_as_seen, compute_idempotency_key, redis_key}
use glacis_webhook_service.Bridge.{submit}
use glacis_webhook_service.Ingest.{
  Request, World, Outcome, mark_seen, after_start, start, resume, after_insert, persist,
  after_dedup, checked, with_payload, parsed, post, is_valid_id, len,
}
use glacis_webhook_service.Ingest.Answers.{Escapes, IsFine, post-IsFine}
use glacis_webhook_service.Ingest.Replays.{IsDelivery}
use glacis_webhook_service.Ingest.Identifier.{key_too_long_iff, longest_delivery_raises}
use glacis_webhook_service.Ingest.Delivery.{delivery_settles, LeftBy}
use glacis_webhook_service.Activities.{Worker}
use glacis_webhook_service.Activities.Settles.{IsRecorded}
use glacis_webhook_service.Workflow.{run}
use glacis_webhook_service.Workflow.Settling.Peers.{here}
use glacis_webhook_service.Examples.Form.{pydantic}
use glacis_webhook_service.Examples.{
  services, loads, payload, event, db_of, codec, llm, engine, engine_laws,
}

abbrev pub request : Request
request = record {
  path = "/webhook";
  raw = "{}";
  headers = ("webhook-id", "m1") ∷ [];
  vendor_id = "acme";
}

abbrev pub world : List WebhookEvent → World services
world es = record {
  db = db_of es;
  redis = λ k. none;
  temporal = [];
  now = 1;
  id = "e1";
  inflight = 0;
  database = true;
  lookup_database = true;
}

abbrev pub old : WebhookEvent
old = event "e0" "acme:m0" WebhookStatus.completed 0

-- The delivery of the request, stored before its workflow could be started.
abbrev stranded : WebhookEvent
stranded = event "e7" "acme:m1" WebhookStatus.received 0

abbrev outcome : List WebhookEvent → Outcome services
outcome es = post services loads 8 request (world es)

answers : outcome (old ∷ []) ≡ (ok (accepted "acme:m1"), (outcome (old ∷ [])).1)
unfolding post parsed with_payload checked after_dedup persist after_insert start after_start
    mark_seen check_duplicate mark_as_seen compute_idempotency_key redis_key insert_webhook_event
    submit is_valid_id get_header accepted
answers = refl

post-IsFine_example :
    IsFine (Escapes services loads request (world (old ∷ []))) (outcome (old ∷ [])).0
post-IsFine_example = post-IsFine services loads 8 request (world (old ∷ []))

delivery : (w : World services) → IsDelivery services loads 8 request w "m1" payload
unfolding get_header is_valid_id
delivery w = record { read = refl; named = refl; valid = refl }

abbrev cached : World services
cached = record (world []) { redis = λ k. some "acme:m1" }

abbrev a16 : String
a16 = "aaaaaaaaaaaaaaaa"

abbrev a64 : String
a64 = a16 ++ (a16 ++ (a16 ++ a16))

-- The longest id that is admitted.
abbrev longest : String
longest = a64 ++ (a64 ++ (a64 ++ a64))

key_too_long_iff_example :
    (is_too_long (compute_idempotency_key longest longest) longest ≡ true)
    ↔ ((len longest ≡ 256) × (len longest ≡ 256))
unfolding is_valid_id
key_too_long_iff_example = key_too_long_iff longest longest refl (omega arith)

abbrev long_request : Request
long_request = record {
  path = "/webhook";
  raw = "{}";
  headers = ("webhook-id", longest) ∷ [];
  vendor_id = longest;
}

longest_delivery_raises_example :
    post services loads 8 long_request (world []) ≡ (err data_error, world [])
unfolding is_valid_id get_header
longest_delivery_raises_example =
    longest_delivery_raises services loads 8 long_request (world []) longest payload refl refl refl
      refl refl refl refl

-- The redelivery of a row that waits in RECEIVED.
resumes : outcome (stranded ∷ []) ≡ (ok (accepted "acme:m1"), (outcome (stranded ∷ [])).1)
unfolding post parsed with_payload checked after_dedup persist after_insert resume start after_start
    mark_seen check_duplicate mark_as_seen compute_idempotency_key redis_key insert_webhook_event
    get_event_by_key submit is_valid_id get_header accepted
resumes = refl

resumed_row : In stranded (outcome (stranded ∷ [])).1.db.events
unfolding post parsed with_payload checked after_dedup persist after_insert resume start after_start
    mark_seen check_duplicate mark_as_seen compute_idempotency_key redis_key insert_webhook_event
    get_event_by_key submit is_valid_id get_header accepted
resumed_row = inl refl

abbrev worker : Worker llm
worker = record { db = (outcome (stranded ∷ [])).1.db; database = true; now = 2; llm_state = 0 }

stranded-IsConsistent : IsConsistent (world (stranded ∷ [])).db
stranded-IsConsistent = record {
  keys = (refl, tt);
  ids = (refl, tt);
  shipment_events = tt;
  invoice_events = tt;
  shipments_known = tt;
  invoices_known = tt;
}

no_record : IsRecorded "e7" (world (stranded ∷ [])).db → false ≡ true
no_record (inl h) = h
no_record (inr h) = h

delivery_settles_example :
    ((before : services.Temporal) × ((services.start_workflow "acme:m1" "e7" payload before).0
        ≡ ok tt))
    × LeftBy "acme:m1" stranded
        (run codec pydantic llm engine 3 "acme:m1" "e7" payload worker).0
        (run codec pydantic llm engine 3 "acme:m1" "e7" payload worker).1.db
unfolding compute_idempotency_key accepted get_header
delivery_settles_example =
    delivery_settles services codec pydantic llm loads 8 request (world (stranded ∷ []))
      (outcome (stranded ∷ [])).1 (accepted "acme:m1") "m1" payload resumes (refl, refl)
      stranded-IsConsistent (no_record, tt) refl refl stranded resumed_row refl worker here engine 3
      engine_laws

-- ===== src/Ingest/Replays.antt =====
-- Deliveries that were received before.
use glacis_webhook_service.Base.{
  ◌≡◌, ok, some, true, any, none, List, false, find?, if◌then◌else◌, ◌∷◌, arith, Option-cases, inl,
  inr, [],
}
use glacis_webhook_service.Exceptions.{Exn}
use glacis_webhook_service.Json.{Json, obj, Members}
use glacis_webhook_service.Models.{WebhookStatus, WebhookEvent, Db}
use glacis_webhook_service.Storage.{
  EventDict, has_key, is_too_long, insert_webhook_event, get_event_by_key,
}
use glacis_webhook_service.Storage.Queries.{same_status}
use glacis_webhook_service.Responses.{get_header, already_received}
use glacis_webhook_service.Services.{Services}
use glacis_webhook_service.Dedup.{compute_idempotency_key, redis_key, check_duplicate}
use glacis_webhook_service.Ingest.{
  Request, World, post, is_valid_id, start, String, Result, ℕ, persist,
}

has_key_of_found :
    (key : String) (db : Db) (e : EventDict)
    → get_event_by_key key db ≡ some e
    → any (has_key key) db.events ≡ true
unfolding get_event_by_key
has_key_of_found key db e h = elim (Option-cases (find? (has_key key) db.events)) [
  | inl missing ↦ ground arith
  | inr (x, found) ↦ go x db.events found
]
  where
    go :
        (x : WebhookEvent) (es : List WebhookEvent)
        → find? (has_key key) es ≡ some x
        → any (has_key key) es ≡ true
    go x [] h = cc
    go x (y ∷ es) h = ground (arith, go x es)

persist_known :
    (s : Services) (cap : ℕ) (req : Request) (webhook_id key : String) (payload : Members)
    (w : World s) (e : EventDict)
    → w.database ≡ true
    → w.lookup_database ≡ true
    → is_too_long key req.vendor_id ≡ false
    → get_event_by_key key w.db ≡ some e
    → persist s cap req webhook_id payload key w ≡ (
        if same_status e.status WebhookStatus.received
        then start s cap req webhook_id payload key e.id w
        else (ok (already_received key), w))
unfolding persist insert_webhook_event
persist_known s cap req webhook_id key payload w e up lookup fits found =
    ground (arith, has_key_of_found key w.db e found)

module _ (s : Services) (loads : String → Result Exn Json) (cap : ℕ) (req : Request)
    (w : World s) where
  -- The request has a valid id and a JSON object as its body.
  pub record IsDelivery (webhook_id : String) (payload : Members) : Type 0 where
    pub read : loads req.raw ≡ ok (obj payload)
    pub named : get_header "webhook-id" req.headers ≡ some webhook_id
    pub valid : is_valid_id webhook_id ≡ true

  module _ (webhook_id : String) (payload : Members) (d : IsDelivery webhook_id payload) where
    -- A delivery in the cache is answered from it, and nothing is written or started.
    pub post_cached :
        (key : String)
        → s.redis_get w.now (redis_key req.vendor_id webhook_id) w.redis ≡ ok (some key)
        → post s loads cap req w ≡ (ok (already_received key), w)
    unfolding post check_duplicate
    post_cached key hit = rw (d.read, d.named, d.valid, hit)

    -- A delivery whose row is in the table, found outside the cache: while the row is RECEIVED its
    -- workflow is started again with the id of that row and no row is written; in every other
    -- status it is answered as a replay, and nothing is written or started.
    pub post_known :
        (e : EventDict)
        → let key = compute_idempotency_key webhook_id req.vendor_id in
          s.redis_get w.now (redis_key req.vendor_id webhook_id) w.redis ≡ ok none
          → w.database ≡ true
          → w.lookup_database ≡ true
          → is_too_long key req.vendor_id ≡ false
          → get_event_by_key key w.db ≡ some e
          → post s loads cap req w ≡ (
              if same_status e.status WebhookStatus.received
              then start s cap req webhook_id payload key e.id w
              else (ok (already_received key), w))
    unfolding post check_duplicate
    post_known e miss up lookup fits found =
        rw (d.read, d.named, d.valid, miss)
          (persist_known s cap req webhook_id _ payload w e up lookup fits found)

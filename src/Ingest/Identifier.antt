-- ===== src/Ingest/Identifier.antt =====
-- The ids that the view admits, against the columns that store them.
use glacis_webhook_service.Base.{◌≡◌, ◌+◌, true, ℕ, ◌∙◌, ◌≤◌, ok, ap, ◌↔◌, some, none, err, arith}
use glacis_webhook_service.Base.Texts.{len, len-append}
use glacis_webhook_service.Exceptions.{Exn}
use glacis_webhook_service.Json.{Json, obj, Members}
use glacis_webhook_service.Storage.{is_too_long, data_error, insert_webhook_event}
use glacis_webhook_service.Responses.{get_header}
use glacis_webhook_service.Services.{Services}
use glacis_webhook_service.Dedup.{compute_idempotency_key, redis_key, check_duplicate}
use glacis_webhook_service.Ingest.{Request, World, post, persist, is_valid_id, String, Result}

pub len-compute_idempotency_key :
    (w v : String) → len (compute_idempotency_key w v) ≡ len v + (1 + len w)
unfolding compute_idempotency_key
len-compute_idempotency_key w v = len-append v _ ∙ ap (λ n. len v + n) (len-append ":" w)

-- For an id that the view admits and a vendor id that its column can hold, the key does not fit its
-- column exactly when both have the greatest length that they may have, 256.
pub key_too_long_iff :
    (w v : String)
    → is_valid_id w ≡ true
    → len v ≤ 256
    → (is_too_long (compute_idempotency_key w v) v ≡ true) ↔ ((len v ≡ 256) × (len w ≡ 256))
unfolding is_valid_id
key_too_long_iff w v h k = let e = len-compute_idempotency_key w v in ground arith

persist_too_long :
    (s : Services) (cap : ℕ) (req : Request) (webhook_id key : String) (payload : Members)
    (w : World s)
    → is_too_long key req.vendor_id ≡ true
    → w.database ≡ true
    → persist s cap req webhook_id payload key w ≡ (err data_error, w)
unfolding persist insert_webhook_event
persist_too_long s cap req webhook_id key payload w long up = ground arith

-- So the view raises `DataError`, and writes nothing, for every such delivery that is not in the
-- cache, though its id is one that the view admits.
pub longest_delivery_raises :
    (s : Services) (loads : String → Result Exn Json) (cap : ℕ) (req : Request) (w : World s)
    (webhook_id : String) (payload : Members)
    → loads req.raw ≡ ok (obj payload)
    → get_header "webhook-id" req.headers ≡ some webhook_id
    → is_valid_id webhook_id ≡ true
    → len webhook_id ≡ 256
    → len req.vendor_id ≡ 256
    → s.redis_get w.now (redis_key req.vendor_id webhook_id) w.redis ≡ ok none
    → w.database ≡ true
    → post s loads cap req w ≡ (err data_error, w)
unfolding post check_duplicate insert_webhook_event
longest_delivery_raises s loads cap req w webhook_id payload read named valid n m miss up =
    let long = (key_too_long_iff webhook_id req.vendor_id valid (omega arith)).1 (m, n) in
    rw (read, named, valid, miss) (persist_too_long s cap req webhook_id _ payload w long up)

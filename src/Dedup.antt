-- ===== src/Dedup.antt =====
-- webhooks/dedup.py: the vendor-namespaced fast path in Redis.
mod Tests
pub mod Keys
pub mod Cache
pub mod Close
use glacis_webhook_service.Base.{some, none, [], ◌∷◌, ◌>>=◌, ℕ, Result, Bool, some, ok, true, false}
use Prim.Native.String.{◌++◌, String}
use glacis_webhook_service.Exceptions.{Exn}
use glacis_webhook_service.Services.{Services}

abbrev pub dedup_ttl_seconds : ℕ
dedup_ttl_seconds = 604800

unfoldable pub compute_idempotency_key : String → String → String
compute_idempotency_key webhook_id vendor_id = vendor_id ++ (":" ++ webhook_id)

unfoldable pub redis_key : String → String → String
redis_key vendor_id webhook_id = "webhook:external_id:" ++ (vendor_id ++ (":" ++ webhook_id))

module _ (s : Services) where
  open s use {Redis, redis_get, redis_set}

  -- Whether the delivery was seen, with its idempotency key; raises when Redis does.
  unfoldable pub check_duplicate : String → String → ℕ → Redis → Result Exn (Bool × String)
  check_duplicate webhook_id vendor_id now r = do
    cached ← redis_get now (redis_key vendor_id webhook_id) r
    elim cached [
      | some c ↦ ok (true, c)
      | none ↦ ok (false, compute_idempotency_key webhook_id vendor_id)
    ]

  unfoldable pub mark_as_seen : String → String → String → ℕ → Redis → Result Exn (Unit {0}) × Redis
  mark_as_seen idempotency_key webhook_id vendor_id now r =
      redis_set now (redis_key vendor_id webhook_id) idempotency_key dedup_ttl_seconds r

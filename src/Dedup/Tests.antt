-- ===== src/Dedup/Tests.antt =====
-- Runs of the cache, of the keys and of the close.
use glacis_webhook_service.Base.{◌≡◌, none, some, ok, suc, true, Bool, arith, ◌≢◌, refl}
use Prim.Native.String.{◌++◌, String}
use glacis_webhook_service.Dedup.{check_duplicate, mark_as_seen, compute_idempotency_key, redis_key}
use glacis_webhook_service.Dedup.Keys.{NoColon, idempotency_key_injective, idempotency_key_collides}
use glacis_webhook_service.Dedup.Cache.{IsFaithful, check_duplicate-mark_as_seen}
use glacis_webhook_service.Dedup.Close.{close_redis, close_redis-again}
use glacis_webhook_service.Bridge.Singleton.{Globals}
use glacis_webhook_service.Examples.{services, redis_laws, Cache}

abbrev empty_cache : Cache
empty_cache = λ k. none

empty_cache-IsFaithful : IsFaithful services empty_cache
empty_cache-IsFaithful = record { cached = λ t v w c h. absurd (cc h) }

check_duplicate-mark_as_seen_example :
    ◌≡◌ {A = Bool × String} (true, "acme:m1") (true, compute_idempotency_key "m1" "acme")
unfolding mark_as_seen check_duplicate compute_idempotency_key redis_key
check_duplicate-mark_as_seen_example =
    check_duplicate-mark_as_seen services redis_laws "m1" "acme" 7 8 empty_cache
      {result = (true, "acme:m1")} refl (omega arith) refl

acme-NoColon : NoColon "acme"
acme-NoColon = (
  λ p. omega (arith, p),
  (λ p. omega (arith, p), (λ p. omega (arith, p), (λ p. omega (arith, p), tt))),
)

idempotency_key_injective_example :
    (◌≡◌ {A = String} "acme" "acme") × (◌≡◌ {A = String} "a:1" "a:1")
idempotency_key_injective_example =
    idempotency_key_injective "acme" "acme" "a:1" "a:1" acme-NoColon acme-NoColon refl

idempotency_key_collides_example :
    ("a" ++ (":" ++ "b") ≢ "a")
    × (compute_idempotency_key "1" ("a" ++ (":" ++ "b"))
        ≡ compute_idempotency_key ("b" ++ (":" ++ "1")) "a")
    × (redis_key ("a" ++ (":" ++ "b")) "1" ≡ redis_key "a" ("b" ++ (":" ++ "1")))
idempotency_key_collides_example = idempotency_key_collides "a" "b" "1"

abbrev connected_client : Globals
connected_client = record { client = some 0; lock = none; constructed = 1 }

closes_once :
    close_redis (λ c r. (ok tt, suc r)) connected_client 0
    ≡ (ok tt, record connected_client { client = none }, 1)
unfolding close_redis
closes_once = refl

closed_twice :
    close_redis (λ c r. (ok tt, suc r)) (record connected_client { client = none }) 1
    ≡ (ok tt, record connected_client { client = none }, 1)
closed_twice =
    (close_redis-again (λ c r. (ok tt, suc r)) connected_client
      (record connected_client { client = none }) 0 1 closes_once).0

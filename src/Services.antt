-- ===== src/Services.antt =====
-- The services that the API talks to: Redis as the dedup cache and the Temporal frontend. They are
-- parameters, with the documented behaviour that the code relies on as laws.
use glacis_webhook_service.Base.{ℕ, String, Result, ◌≡◌, Option, ok, some, ◌⊎◌, ◌<◌, ◌+◌, ◌*◌}
use glacis_webhook_service.Exceptions.{Exn}
use glacis_webhook_service.Json.{Members}

pub record Services : Type 1 where
  pub Redis : Type 0
  -- `GET key` at an instant; it raises when the server cannot be reached.
  pub redis_get : ℕ → String → Redis → Result Exn (Option String)
  -- `SET key value EX seconds` at an instant.
  pub redis_set : ℕ → String → String → ℕ → Redis → Result Exn (Unit {0}) × Redis
  pub Temporal : Type 0
  -- `client.start_workflow(…)` for a workflow id with its event id and payload.
  pub start_workflow : String → String → Members → Temporal → Result Exn (Unit {0}) × Temporal

module _ (s : Services) where
  open s use {Redis, redis_get, redis_set}

  -- A key holds what was last set to it. A `SET` that raises may or may not have taken place.
  pub record RedisLaws : Type 0 where
    pub get-set :
        (t now : ℕ) (k v j c : String) (ex : ℕ) (r : Redis)
        → redis_get t j (redis_set now k v ex r).1 ≡ ok (some c)
        → ((j ≡ k) × (c ≡ v)) ⊎ (redis_get t j r ≡ ok (some c))
    -- until the expiry a set key is there, if the server answers
    pub get-set_self :
        (t now : ℕ) (k v : String) (ex : ℕ) (r : Redis) {o : Option String}
        → (redis_set now k v ex r).0 ≡ ok tt
        → t < now + ex * 1000000
        → redis_get t k (redis_set now k v ex r).1 ≡ ok o
        → o ≡ some v

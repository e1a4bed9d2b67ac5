-- ===== src/Ingest/Steps/Tests.antt =====
-- The steps of one request alone, and of two deliveries of one webhook at once.
use glacis_webhook_service.Base.{◌≡◌, List, ok, [], ◌∷◌, refl, ℕ}
use native.Mathlib.Decide.{ℕ_discrete}
use glacis_webhook_service.Storage.{insert_webhook_event, get_event_by_key}
use glacis_webhook_service.Responses.{accepted, already_received, get_header}
use glacis_webhook_service.Dedup.{check_duplicate, mark_as_seen, compute_idempotency_key, redis_key}
use glacis_webhook_service.Bridge.{submit}
use glacis_webhook_service.Bridge.Threads.{move}
use glacis_webhook_service.Ingest.{World, is_valid_id}
use glacis_webhook_service.Ingest.Durability.{Took}
use glacis_webhook_service.Ingest.Steps.{arrived, finished, step}
use glacis_webhook_service.Ingest.Steps.Together.{
  System, Moves, begin, later, thread, answered_accepted,
}
use glacis_webhook_service.Ingest.Tests.{request, world, old}
use glacis_webhook_service.Examples.{services, loads}

abbrev before : World services
before = world (old ∷ [])

-- The system after steps of the threads, the last one first.
stepped : List ℕ → System services loads 8
stepped [] = record { world = before; at = λ i. arrived }
stepped (i ∷ is) =
    let sys = stepped is in
    record {
      world = (step services loads 8 request (sys.at i) sys.world).1;
      at = move sys.at i (step services loads 8 request (sys.at i) sys.world).0;
    }

stepped-Moves : (is : List ℕ) → Moves services loads 8 (λ i. request) before (stepped is)
unfolding stepped
stepped-Moves [] = begin
stepped-Moves (i ∷ is) = later (stepped-Moves is) (thread i)

-- Both deliveries pass the cache; the first one inserts and the second one finds the row, starts the
-- workflow and is answered, and then the first one hears that the workflow is there.
abbrev turns : List ℕ
turns = 0 ∷ 1 ∷ 1 ∷ 1 ∷ 1 ∷ 0 ∷ 1 ∷ 0 ∷ 1 ∷ 0 ∷ []

answers :
    ((stepped turns).at 1 ≡ finished (ok (accepted "acme:m1")))
    × ((stepped turns).at 0 ≡ finished (ok (already_received "acme:m1")))
unfolding stepped step check_duplicate mark_as_seen compute_idempotency_key redis_key
    insert_webhook_event get_event_by_key submit is_valid_id get_header accepted already_received
    ℕ_discrete
answers = (refl, refl)

answered_accepted_example : Took services loads request (stepped turns).world
unfolding accepted get_header
answered_accepted_example =
    answered_accepted services loads 8 (λ i. request) before (stepped turns) 1 (accepted "acme:m1")
      (stepped-Moves turns) answers.0 (refl, refl)

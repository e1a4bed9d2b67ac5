-- ===== src/Bridge/Tests.antt =====
-- Two threads at the bridge.
use native.Mathlib.Decide.{ℕ_discrete}
use glacis_webhook_service.Base.{ℕ, ◌≤◌, ◌≡◌, none, some, refl, arith, ok}
use glacis_webhook_service.Bridge.Threads.{count, move}
use glacis_webhook_service.Bridge.Callers as Callers
use glacis_webhook_service.Bridge.Callers.{Reach-IsCapped, is_waiting}
use glacis_webhook_service.Bridge.Loop as Loop
use glacis_webhook_service.Bridge.Loop.{get_temporal_client, reset_for_fork, fork, ensure_loop}
use glacis_webhook_service.Bridge.Loop.Fork.{Runs, Reach-IsServed}
use glacis_webhook_service.Bridge.Singleton as Singleton
use glacis_webhook_service.Bridge.Singleton.{outside, returned, seen_none}

-- The second caller finds the cap of one reached.
one_waits : Callers.Reach 2 1 (record {
  inflight_count = 1;
  at = move (move (λ i. Callers.outside) 0 Callers.waiting) 1 Callers.overloaded;
})
unfolding ℕ_discrete
one_waits =
    Callers.later (Callers.later Callers.begin (Callers.enter 0 (omega arith) refl (omega arith)))
      (Callers.shed 1 (omega arith) refl (omega arith))

Reach-IsCapped_example :
    ◌≡◌ {A = ℕ} 1 (
      count is_waiting 2
        (move (move (λ i. Callers.outside) 0 Callers.waiting) 1 Callers.overloaded))
    × (count is_waiting 2
          (move (move (λ i. Callers.outside) 0 Callers.waiting) 1 Callers.overloaded)
        ≤ 1)
Reach-IsCapped_example = Reach-IsCapped one_waits

abbrev none_yet : ℕ → Singleton.Caller
none_yet i = outside

-- Both threads see no client, the first one constructs it.
abbrev first_at : ℕ → Singleton.Caller
first_at =
    move
      (move
        (move
          (move (move (move (move none_yet 0 seen_none) 1 seen_none) 0 Singleton.locked) 0
            Singleton.connecting)
          0 (Singleton.connected 0))
        0 Singleton.done)
      0 (returned (some 0))

abbrev after : Singleton.System
after = record { globals = record { client = some 0; lock = none; constructed = 1 }; at = first_at }

-- A master has connected before it forks a worker.
abbrev forked : Loop.Globals
forked = reset_for_fork (fork (get_temporal_client (ok tt) Loop.started).1)

forked-Reach : Loop.Reach forked
forked-Reach = Loop.later (Loop.later Loop.begin (Loop.get (ok tt))) Loop.forks

worker_connects : (get_temporal_client (ok tt) forked).0 ≡ ok 1
unfolding get_temporal_client reset_for_fork ensure_loop
worker_connects = refl

Reach-IsServed_example :
    Runs 1 (get_temporal_client (ok tt) forked).1
    × Runs (ensure_loop forked).0 (ensure_loop forked).1
Reach-IsServed_example = Reach-IsServed (ok tt) 1 forked-Reach worker_connects

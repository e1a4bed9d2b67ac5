-- ===== src/Bridge.antt =====
-- project/temporal_bridge.py: the cap on the callers that wait for the bridge. `inflight` is the
-- count under its lock; `call` is the coroutine that runs on the loop.
pub mod Threads
pub mod Callers
pub mod Singleton
pub mod Loop
mod Tests
use glacis_webhook_service.Base.{ℕ, Result, if◌then◌else◌, leb, err, ◌+◌, ◌-◌}
use glacis_webhook_service.Exceptions.{Exn, bridge_overloaded}

-- The count is raised for the call and lowered in `finally`, whether the call returns or raises.
unfoldable pub submit {ℓ} :
    {A S : Type ℓ} → ℕ → (S → Result Exn A × S) → ℕ × S → Result Exn A × (ℕ × S)
submit cap call (inflight, s) =
    if leb cap inflight
    then (err bridge_overloaded, (inflight, s))
    else let (r, s') = call s in (r, (inflight + 1 - 1, s'))

-- ===== src/Bridge/Singleton.antt =====
-- `get_temporal_client` of project/temporal_bridge.py, `get_redis` of webhooks/dedup.py and
-- `_get_reissue_client` of workflows/activities.py, called by many threads (or tasks) at once while
-- nothing resets the client: the double-checked lock, one access to the shared variables a step.
-- The lock of the bridge is reentrant, but no thread takes it twice in these steps.
pub mod Once
use glacis_webhook_service.Base.{ℕ, ◌+◌, ◌<◌, ◌≡◌, Option, none, some, Bool, true, false}
use glacis_webhook_service.Bridge.Threads.{move}

-- The global client, the thread that holds the lock, and how many clients have been constructed: a
-- client is named by the number constructed before it.
pub record Globals : Type 0 where
  pub client : Option ℕ
  pub lock : Option ℕ
  pub constructed : ℕ

-- Where a thread stands.
pub data Caller : Type 0 where
  outside : Caller  -- before the first test
  seen_none : Caller  -- before `with lock`
  locked : Caller  -- before the second test
  connecting : Caller  -- before the client is constructed
  connected : (c : ℕ) → Caller  -- before the assignment
  failed : Caller  -- the construction raised, the lock is held
  done : Caller  -- a client is there, the lock is held
  reading : Caller  -- before `return` reads the global, without the lock
  returned : (c : Option ℕ) → Caller

-- One step of the thread `i`. The global is read for `return` under the lock by the first two
-- functions, and after it by the third.
pub data Move (i : ℕ) (g : Globals) : Caller → Globals → Caller → Type 0 where
  first_some : {c : ℕ} → g.client ≡ some c → Move i g outside g reading
  first_none : g.client ≡ none → Move i g outside g seen_none
  acquire : g.lock ≡ none → Move i g seen_none (record g { lock = some i }) locked
  second_some : {c : ℕ} → g.client ≡ some c → Move i g locked g done
  second_none : g.client ≡ none → Move i g locked g connecting
  construct :
      Move i g connecting (record g { constructed = g.constructed + 1 }) (connected g.constructed)
  refuse : Move i g connecting g failed
  assign : {c : ℕ} → Move i g (connected c) (record g { client = some c }) done
  return_locked : Move i g done (record g { lock = none }) (returned g.client)
  release : Move i g done (record g { lock = none }) reading
  raise : Move i g failed (record g { lock = none }) outside
  return_global : Move i g reading g (returned g.client)
  again : {c : Option ℕ} → Move i g (returned c) g outside

pub record System : Type 0 where
  pub globals : Globals
  pub at : ℕ → Caller

pub data Step (s : System) : System → Type 0 where
  pick :
      (i : ℕ) {g : Globals} {p : Caller}
      → Move i s.globals (s.at i) g p
      → Step s (record { globals = g; at = move s.at i p })

abbrev pub started : System
started = record {
  globals = record { client = none; lock = none; constructed = 0 };
  at = λ i. outside;
}

pub data Reach : System → Type 0 where
  begin : Reach started
  later : {s t : System} → Reach s → Step s t → Reach t

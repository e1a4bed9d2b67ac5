-- ===== src/Llm/Client.antt =====
-- `get_http_client` and `close_http_client` of workflows/llm_client.py: the HTTP client of the
-- process, shared by tasks that only give way at the `await` of `aclose`.
pub mod Calm
use native.Mathlib.Decide.{ℕ_discrete}
use mathlib.Core.Logic.{ite}
use glacis_webhook_service.Base.{ℕ, ◌+◌, ◌≡◌, Option, none, some, Bool, true, false, if◌then◌else◌}
use glacis_webhook_service.Bridge.Threads.{move}

-- The global, which clients are closed, and how many have been constructed: a client is named by the
-- number constructed before it.
pub record Clients : Type 0 where
  pub http_client : Option ℕ
  pub is_closed : ℕ → Bool
  pub constructed : ℕ

-- `httpx.AsyncClient(...)` is a new, open client, assigned to the global.
unfoldable pub new_client : Clients → ℕ × Clients
new_client g = (
  g.constructed,
  record {
    http_client = some g.constructed;
    is_closed = λ c. ite (ℕ_discrete g.constructed c) false (g.is_closed c);
    constructed = g.constructed + 1;
  },
)

-- The client that the caller gets; there is no `await` inside.
unfoldable pub get_http_client : Clients → ℕ × Clients
unfolding new_client
get_http_client g = elim g.http_client [
  | none ↦ new_client g
  | some c ↦ if g.is_closed c then new_client g else (c, g)
]

-- The client that `close_http_client` closes, if its test holds.
unfoldable pub to_close : Clients → Option ℕ
to_close g = elim g.http_client [ none ↦ none | some c ↦ if g.is_closed c then none else some c ]

-- What `aclose` does to the client, at some point of its run.
unfoldable pub mark_closed : ℕ → Clients → Clients
mark_closed c g = record g { is_closed = λ d. ite (ℕ_discrete c d) true (g.is_closed d) }

-- After `aclose` has returned.
unfoldable pub forget_client : Clients → Clients
forget_client g = record g { http_client = none }

-- Where a task stands: it uses the client that it got, or awaits `aclose`.
pub data Task : Type 0 where
  idle : Task
  using : (c : ℕ) → Task
  closing : (c : ℕ) → Task

-- What a task does between two points at which it gives way. `aclose` has closed the client when it
-- returns, and may have when it raises.
pub data Move (g : Clients) : Task → Clients → Task → Type 0 where
  get : {c : ℕ} {h : Clients} → get_http_client g ≡ (c, h) → Move g idle h (using c)
  finish : {c : ℕ} → Move g (using c) g idle
  skip_close : to_close g ≡ none → Move g idle g idle
  start_close : {c : ℕ} → to_close g ≡ some c → Move g idle g (closing c)
  close : {c : ℕ} → Move g (closing c) (mark_closed c g) (closing c)
  end_close : {c : ℕ} → g.is_closed c ≡ true → Move g (closing c) (forget_client g) idle
  raise : {c : ℕ} → Move g (closing c) g idle

pub record System : Type 0 where
  pub clients : Clients
  pub at : ℕ → Task

pub data Step (s : System) : System → Type 0 where
  pick :
      (i : ℕ) {g : Clients} {t : Task}
      → Move s.clients (s.at i) g t
      → Step s (record { clients = g; at = move s.at i t })

abbrev pub started : System
started = record {
  clients = record { http_client = none; is_closed = λ c. false; constructed = 0 };
  at = λ i. idle;
}

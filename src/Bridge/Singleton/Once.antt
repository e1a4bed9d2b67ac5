-- ===== src/Bridge/Singleton/Once.antt =====
-- The double-checked lock constructs one client, and every call returns it.
use glacis_webhook_service.Base.{ℕ, ◌≤◌, ◌≡◌, none, some}
use glacis_webhook_service.Bridge.Singleton.{
  Globals, Caller, outside, seen_none, locked, connecting, connected, failed, done, reading,
  returned, System,
}

-- What the thread `i` relies on where it stands.
abbrev Fits : ℕ → Globals → Caller → Type 0
Fits i g outside = Unit
Fits i g seen_none = Unit
Fits i g locked = (g.lock ≡ some i) × (g.client ≡ none → g.constructed ≡ 0)
Fits i g connecting = (g.lock ≡ some i) × (g.client ≡ none) × (g.constructed ≡ 0)
Fits i g (connected c) = (g.lock ≡ some i) × (g.client ≡ none) × (g.constructed ≡ 1) × (c ≡ 0)
Fits i g failed = (g.lock ≡ some i) × (g.client ≡ none) × (g.constructed ≡ 0)
Fits i g done = (g.lock ≡ some i) × (g.client ≡ some 0)
Fits i g reading = g.client ≡ some 0
Fits i g (returned c) = (g.client ≡ some 0) × (c ≡ some 0)

-- What holds of the globals alone.
record Sound (g : Globals) : Type 0 where
  first : (c : ℕ) → g.client ≡ some c → (c ≡ 0) × (g.constructed ≡ 1)
  unlocked : g.lock ≡ none → g.client ≡ none → g.constructed ≡ 0
  few : g.constructed ≤ 1

record Inv (s : System) : Type 0 where
  sound : Sound s.globals
  fits : (i : ℕ) → Fits i s.globals (s.at i)

-- ===== src/Dedup/Close.antt =====
-- `close_redis` of webhooks/dedup.py: the end of the client that `get_redis` makes by the steps of
-- Bridge/Singleton. It takes no lock.
use glacis_webhook_service.Base.{ℕ, ◌≡◌, Option, none, some, Result, ok, err, refl, ap, sym, ◌∙◌}
use glacis_webhook_service.Exceptions.{Exn}
use glacis_webhook_service.Bridge.Singleton.{Globals, outside, seen_none, Move, first_none}

-- `Redis.close`, a parameter: what it answers for a client, and what becomes of the connections.
module _ {Connections : Type 0}
    (close : ℕ → Connections → Result Exn (Unit {0}) × Connections) where
  -- The global is reset once the client has closed; an exception of `close` leaves it.
  after_close :
      Globals → Result Exn (Unit {0}) × Connections → Result Exn (Unit {0}) × Globals × Connections
  after_close g (ok u, r) = (ok u, record g { client = none }, r)
  after_close g (err e, r) = (err e, g, r)

  close_client : Option ℕ → Globals → Connections → Result Exn (Unit {0}) × Globals × Connections
  close_client none g r = (ok tt, g, r)
  close_client (some c) g r = after_close g (close c r)

  unfoldable pub close_redis : Globals → Connections → Result Exn (Unit {0}) × Globals × Connections
  unfolding close_client after_close
  close_redis g r = close_client g.client g r

  -- A close that returns leaves no client, whatever the connections were.
  pub close_redis-none :
      (g g' : Globals) (r r' : Connections) → close_redis g r ≡ (ok tt, g', r') → g'.client ≡ none
  unfolding close_redis close_client after_close
  close_redis-none g g' r r' h = found g.client refl h
    where
      closed :
          (x : Result Exn (Unit {0}) × Connections)
          → after_close g x ≡ (ok tt, g', r')
          → g'.client ≡ none
      closed (ok u, s) q = ap (λ y. y.1.client) (sym q)
      closed (err e, s) q = absurd (no_error (ap (λ y. y.0) q))
        where
          no_error : ◌≡◌ {A = Result Exn (Unit {0})} (err e) (ok tt) → ⊥
          no_error p = cc

      found :
          (o : Option ℕ) → g.client ≡ o → close_client o g r ≡ (ok tt, g', r') → g'.client ≡ none
      found none e q = ap (λ y. y.1.client) (sym q) ∙ e
      found (some c) e q = closed (close c r) q

  -- So a second close does nothing, and the next call of `get_redis` goes on to construct one.
  pub close_redis-again :
      (g g' : Globals) (r r' : Connections)
      → close_redis g r ≡ (ok tt, g', r')
      → (close_redis g' r' ≡ (ok tt, g', r')) × ((i : ℕ) → Move i g' outside g' seen_none)
  unfolding close_redis close_client
  close_redis-again g g' r r' h =
      let n = close_redis-none g g' r r' h in (rw n refl, λ i. first_none n)

-- ===== src/Bridge/Callers.antt =====
-- project/temporal_bridge.py, `submit` of many threads at once: each block under `_inflight_lock` is
-- one step, and between its two steps a caller waits for the future for as long as it takes.
use glacis_webhook_service.Base.{ℕ, ◌+◌, ◌-◌, ◌≤◌, ◌<◌, ◌≡◌, refl, arith, Bool, true, false}
use glacis_webhook_service.Bridge.Threads.{move, count, count-move, count-none}

-- Where a thread stands: outside of `submit`, or at `fut.result`, or with the exception raised.
pub data Caller : Type 0 where
  outside waiting overloaded : Caller

abbrev pub is_waiting : Caller → Bool
is_waiting waiting = true
is_waiting _ = false

pub record System : Type 0 where
  pub inflight_count : ℕ
  pub at : ℕ → Caller

pub data Step (n cap : ℕ) (s : System) : System → Type 0 where
  enter :
      (i : ℕ)
      → i < n
      → s.at i ≡ outside
      → s.inflight_count < cap
      → Step n cap s (record { inflight_count = s.inflight_count + 1; at = move s.at i waiting })
  shed :
      (i : ℕ)
      → i < n
      → s.at i ≡ outside
      → cap ≤ s.inflight_count
      → Step n cap s (record { inflight_count = s.inflight_count; at = move s.at i overloaded })
  leave :
      (i : ℕ)
      → i < n
      → s.at i ≡ waiting
      → Step n cap s (record { inflight_count = s.inflight_count - 1; at = move s.at i outside })
  catch :
      (i : ℕ)
      → i < n
      → s.at i ≡ overloaded
      → Step n cap s (record { inflight_count = s.inflight_count; at = move s.at i outside })

abbrev pub started : System
started = record { inflight_count = 0; at = λ i. outside }

pub data Reach (n cap : ℕ) : System → Type 0 where
  begin : Reach n cap started
  later : {s t : System} → Reach n cap s → Step n cap s t → Reach n cap t

record Inv (n cap : ℕ) (s : System) : Type 0 where
  counted : s.inflight_count ≡ count is_waiting n s.at
  capped : s.inflight_count ≤ cap

Step-Inv : {n cap : ℕ} {s t : System} → Step n cap s t → Inv n cap s → Inv n cap t
Step-Inv {n} {cap} {s} (enter i lt here free) inv = record {
  counted = ground (arith, count-move is_waiting n s.at i waiting lt);
  capped = omega arith;
}
Step-Inv {n} {cap} {s} (shed i lt here full) inv = record {
  counted = ground (arith, count-move is_waiting n s.at i overloaded lt);
  capped = inv.capped;
}
Step-Inv {n} {cap} {s} (leave i lt here) inv = record {
  counted = ground (arith, count-move is_waiting n s.at i outside lt);
  capped = omega (arith, inv.capped);
}
Step-Inv {n} {cap} {s} (catch i lt here) inv = record {
  counted = ground (arith, count-move is_waiting n s.at i outside lt);
  capped = inv.capped;
}

Reach-Inv : {n cap : ℕ} {s : System} → Reach n cap s → Inv n cap s
Reach-Inv {n} {cap} begin = record {
  counted = omega (arith, count-none is_waiting n outside refl);
  capped = omega arith;
}
Reach-Inv (later r st) = Step-Inv st (Reach-Inv r)

-- However the calls of `submit` interleave, the count is the number of threads that wait for the
-- bridge, and at most the cap of them do.
pub Reach-IsCapped :
    {n cap : ℕ} {s : System}
    → Reach n cap s
    → (s.inflight_count ≡ count is_waiting n s.at) × (count is_waiting n s.at ≤ cap)
Reach-IsCapped r = let inv = Reach-Inv r in (inv.counted, omega (arith, inv.counted, inv.capped))

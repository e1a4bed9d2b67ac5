-- ===== src/Bridge/Loop/Fork.antt =====
-- The fork-safety contract of project/temporal_bridge.py.
use glacis_webhook_service.Base.{
  ℕ, ◌≡◌, Option, none, some, Bool, true, false, Result, ok, err, refl, ok_inj, some_inj, subst,
  sym, ◌∙◌, ap,
}
use glacis_webhook_service.Exceptions.{Exn}
use glacis_webhook_service.Bridge.Loop.{
  Globals, Thread, new_loop, keep_loop, has_loop, ensure_loop, connect_on, has_client,
  get_temporal_client, dropped, reset_for_fork, shutdown, Step, get, submit, forks, exits, Reach,
  begin, later,
}

-- The loop is the current one, and its thread is alive in this process.
pub record Runs (l : ℕ) (g : Globals) : Type 0 where
  pub current : g.loop ≡ some l
  pub thread : g.loop_thread ≡ some (record { target = l; is_alive = true })

-- The thread runs the current loop, and a client is connected on a loop that runs.
record Inv (g : Globals) : Type 0 where
  paired : (t : Thread) → g.loop_thread ≡ some t → g.loop ≡ some t.target
  bound : (c : ℕ) → g.client ≡ some c → Runs c g

dropped-Inv : (g : Globals) → Inv (dropped g)
dropped-Inv g = record { paired = λ t q. absurd (cc); bound = λ c q. absurd (cc) }

-- A loop that runs, in globals as they should be.
abbrev IsRunning : ℕ × Globals → Type 0
IsRunning (l, g) = Runs l g × Inv g

new_loop-IsRunning : (g : Globals) → ((c : ℕ) → g.client ≡ some c → ⊥) → IsRunning (new_loop g)
new_loop-IsRunning g no_client = (
  record { current = refl; thread = refl },
  record {
    paired = λ t q. ap (λ (k : Thread). some k.target) (some_inj q);
    bound = λ c q. absurd (no_client c q);
  },
)

keep_loop-IsRunning :
    (b : Bool) (l : ℕ) (t : Thread) (g : Globals)
    → g.loop ≡ some l
    → g.loop_thread ≡ some t
    → t.is_alive ≡ b
    → Inv g
    → IsRunning (keep_loop b l g)
keep_loop-IsRunning true l t g h k e inv =
    let own : t.target ≡ l = some_inj (sym (inv.paired t k) ∙ h) in
    (
      record { current = h; thread = k ∙ (λ i. some (record { target = own i; is_alive = e i })) },
      inv,
    )
keep_loop-IsRunning false l t g h k e inv = new_loop-IsRunning g (λ c q.
    let same = some_inj (sym k ∙ (inv.bound c q).thread) in
    dead_or_alive (sym e ∙ ap (λ (u : Thread). u.is_alive) same))
  where
    dead_or_alive : ◌≡◌ {A = Bool} false true → ⊥
    dead_or_alive q = cc

has_loop-IsRunning :
    (o : Option ℕ) (t : Option Thread) (g : Globals)
    → g.loop ≡ o
    → g.loop_thread ≡ t
    → Inv g
    → IsRunning (has_loop o t g)
has_loop-IsRunning (some l) (some t) g h k inv = keep_loop-IsRunning t.is_alive l t g h k refl inv
has_loop-IsRunning (some l) none g h k inv =
    new_loop-IsRunning g (λ c q. let r = (inv.bound c q).thread in no_thread (sym k ∙ r))
  where
    no_thread : {t : Thread} → ◌≡◌ {A = Option Thread} none (some t) → ⊥
    no_thread q = cc
has_loop-IsRunning none t g h k inv =
    new_loop-IsRunning g (λ c q. let r = (inv.bound c q).current in no_loop (sym h ∙ r))
  where
    no_loop : {l : ℕ} → ◌≡◌ {A = Option ℕ} none (some l) → ⊥
    no_loop q = cc

ensure_loop-IsRunning : (g : Globals) → Inv g → IsRunning (ensure_loop g)
unfolding ensure_loop
ensure_loop-IsRunning g inv = has_loop-IsRunning g.loop g.loop_thread g refl refl inv

-- What `get_temporal_client` gives back runs here.
abbrev Serves : Result Exn ℕ × Globals → Type 0
Serves (r, g) = Inv g × ((c : ℕ) → r ≡ ok c → Runs c g)

connect_on-Serves :
    (connect : Result Exn (Unit {0})) (x : ℕ × Globals)
    → IsRunning x
    → Serves (connect_on connect x)
connect_on-Serves (err e) (l, g) (r, inv) = (inv, λ c q. absurd (raised q))
  where
    raised : {c : ℕ} → ◌≡◌ {A = Result Exn ℕ} (err e) (ok c) → ⊥
    raised q = cc
connect_on-Serves (ok u) (l, g) (r, inv) =
    (record { paired = inv.paired; bound = λ c q. on (some_inj q) }, λ c q. on (ok_inj q))
  where
    on : {c : ℕ} → l ≡ c → Runs c (record g { client = some l })
    on q =
        subst (λ d. Runs d (record g { client = some l })) q
          (record { current = r.current; thread = r.thread })

has_client-Serves :
    (o : Option ℕ) (connect : Result Exn (Unit {0})) (g : Globals)
    → g.client ≡ o
    → Inv g
    → Serves (has_client o connect g)
has_client-Serves none connect g h inv =
    connect_on-Serves connect (ensure_loop g) (ensure_loop-IsRunning g inv)
has_client-Serves (some c) connect g h inv = (inv, λ d q. inv.bound d (h ∙ ap some (ok_inj q)))

get_temporal_client-Serves :
    (connect : Result Exn (Unit {0})) (g : Globals) → Inv g → Serves (get_temporal_client connect g)
unfolding get_temporal_client
get_temporal_client-Serves connect g inv = has_client-Serves g.client connect g refl inv

Step-Inv : {g h : Globals} → Step g h → Inv g → Inv h
unfolding reset_for_fork shutdown
Step-Inv {g} (get connect) inv = (get_temporal_client-Serves connect g inv).0
Step-Inv {g} submit inv = (ensure_loop-IsRunning g inv).1
Step-Inv {g} forks inv = dropped-Inv g
Step-Inv {g} exits inv = dropped-Inv g

Reach-Inv : {g : Globals} → Reach g → Inv g
Reach-Inv begin = record { paired = λ t q. absurd (cc); bound = λ c q. absurd (cc) }
Reach-Inv (later r st) = Step-Inv st (Reach-Inv r)

-- After any calls, forks with their hook and shutdowns, a client that `get_temporal_client` returns
-- is connected on the bridge's current loop, and the thread of that loop is alive in this process;
-- and so is the loop that a call is submitted to.
pub Reach-IsServed :
    {g : Globals} (connect : Result Exn (Unit {0})) (c : ℕ)
    → Reach g
    → (get_temporal_client connect g).0 ≡ ok c
    → Runs c (get_temporal_client connect g).1 × Runs (ensure_loop g).0 (ensure_loop g).1
Reach-IsServed {g} connect c r q =
    let inv = Reach-Inv r in
    ((get_temporal_client-Serves connect g inv).1 c q, (ensure_loop-IsRunning g inv).0)

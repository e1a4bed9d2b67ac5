-- ===== src/Bridge/Loop.antt =====
-- project/temporal_bridge.py in one thread: the loop with its thread, the client that is connected
-- on it, and what a fork and the hooks of gunicorn do to them. `connect` is what `Client.connect`
-- answers.
pub mod Fork
use glacis_webhook_service.Base.{
  ℕ, ◌+◌, ◌≡◌, Option, none, some, Bool, true, false, Result, ok, err,
}
use glacis_webhook_service.Exceptions.{Exn}

-- A thread runs its loop until it dies. A loop is named by the number made before it, and a client
-- is known by the loop that it was connected on.
pub record Thread : Type 0 where
  pub target : ℕ
  pub is_alive : Bool

pub record Globals : Type 0 where
  pub loop : Option ℕ
  pub loop_thread : Option Thread
  pub client : Option ℕ
  -- the loops made so far
  pub made : ℕ

abbrev pub new_loop : Globals → ℕ × Globals
new_loop g = (
  g.made,
  record {
    loop = some g.made;
    loop_thread = some (record { target = g.made; is_alive = true });
    client = g.client;
    made = g.made + 1;
  },
)

abbrev pub keep_loop : Bool → ℕ → Globals → ℕ × Globals
keep_loop true l g = (l, g)
keep_loop false l g = new_loop g

abbrev pub has_loop : Option ℕ → Option Thread → Globals → ℕ × Globals
has_loop (some l) (some t) g = keep_loop t.is_alive l g
has_loop (some l) none g = new_loop g
has_loop none thread g = new_loop g

unfoldable pub ensure_loop : Globals → ℕ × Globals
ensure_loop g = has_loop g.loop g.loop_thread g

-- Under the lock, after the second test.
abbrev pub connect_on : Result Exn (Unit {0}) → ℕ × Globals → Result Exn ℕ × Globals
connect_on (err e) (l, g) = (err e, g)
connect_on (ok u) (l, g) = (ok l, record g { client = some l })

abbrev pub has_client : Option ℕ → Result Exn (Unit {0}) → Globals → Result Exn ℕ × Globals
has_client (some c) connect g = (ok c, g)
has_client none connect g = connect_on connect (ensure_loop g)

unfoldable pub get_temporal_client : Result Exn (Unit {0}) → Globals → Result Exn ℕ × Globals
unfolding ensure_loop
get_temporal_client connect g = has_client g.client connect g

abbrev pub dropped : Globals → Globals
dropped g = record { loop = none; loop_thread = none; client = none; made = g.made }

unfoldable pub reset_for_fork : Globals → Globals
reset_for_fork g = dropped g

-- The stop of the loop and the wait for its thread change nothing that is kept.
unfoldable pub shutdown : Globals → Globals
shutdown g = dropped g

-- In the child of a fork only the calling thread goes on.
abbrev pub dead : Option Thread → Option Thread
dead none = none
dead (some t) = some (record t { is_alive = false })

abbrev pub fork : Globals → Globals
fork g = record g { loop_thread = dead g.loop_thread }

-- What happens in a process: its calls, and the fork of a worker, whose hook resets the bridge
-- before anything else.
pub data Step (g : Globals) : Globals → Type 0 where
  get : (connect : Result Exn (Unit {0})) → Step g (get_temporal_client connect g).1
  submit : Step g (ensure_loop g).1
  forks : Step g (reset_for_fork (fork g))
  exits : Step g (shutdown g)

abbrev pub started : Globals
started = record { loop = none; loop_thread = none; client = none; made = 0 }

pub data Reach : Globals → Type 0 where
  begin : Reach started
  later : {g h : Globals} → Reach g → Step g h → Reach h

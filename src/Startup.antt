-- ===== src/Startup.antt =====
-- workflows/schedules.py, workflows/worker.py and the management commands over them: the check of
-- the sweeper's grace, the Temporal schedule of the sweep, and the life of the worker process.
-- Temporal's schedules are a parameter, with what the code relies on as laws. Times are in seconds;
-- a negative setting is not represented.
pub mod Registered
pub mod Telemetry
pub mod Grace
mod Tests
use glacis_webhook_service.Base.{
  ℕ, ◌+◌, ◌*◌, String, Option, none, some, List, [], ◌∷◌, ◌++◌, Result, ok, err, ◌≡◌, ltb,
  if◌then◌else◌,
}
use glacis_webhook_service.Workflow.{workflow_run_timeout}
use glacis_webhook_service.Exceptions.{Exn, value_error, rpc_error, already_exists}

-- The settings that the worker reads.
pub record Settings : Type 0 where
  pub temporal_task_queue : String
  pub sweeper_interval_seconds : ℕ
  pub sweeper_grace_seconds : ℕ
  pub sweeper_processing_grace_seconds : ℕ
  pub sweeper_batch_limit : ℕ

-- What they are where the environment says nothing.
abbrev pub defaults : Settings
defaults = record {
  temporal_task_queue = "webhook-classification";
  sweeper_interval_seconds = 60;
  sweeper_grace_seconds = 300;
  sweeper_processing_grace_seconds = 900;
  sweeper_batch_limit = 100;
}

abbrev pub processing_grace_safety_buffer : ℕ
processing_grace_safety_buffer = 5 * 60

unfoldable pub validate_processing_grace : ℕ → Result Exn (Unit {0})
validate_processing_grace processing_grace_seconds =
    if ltb processing_grace_seconds (workflow_run_timeout + processing_grace_safety_buffer)
    then err (value_error "SWEEPER_PROCESSING_GRACE_SECONDS is less than WORKFLOW_RUN_TIMEOUT")
    else ok tt

pub record ScheduleAction : Type 0 where
  pub workflow : String
  pub received_grace_seconds : ℕ
  pub processing_grace_seconds : ℕ
  pub limit : ℕ
  pub id : String
  pub task_queue : String

pub data ScheduleOverlapPolicy : Type 0 where
  skip buffer_one buffer_all cancel_other terminate_other allow_all : ScheduleOverlapPolicy

pub record SchedulePolicy : Type 0 where
  pub overlap : ScheduleOverlapPolicy
  pub catchup_window : ℕ

-- `every` is the one interval of the spec; the state says whether the schedule is paused.
pub record Schedule (State : Type 0) : Type 0 where
  pub action : ScheduleAction
  pub every : ℕ
  pub policy : SchedulePolicy
  pub state : State

abbrev pub sweep_schedule_id : String
sweep_schedule_id = "sweep-stuck-events"

module _ {State : Type 0} (fresh : State) where
  unfoldable pub build_schedule : Settings → Schedule State
  build_schedule s = record {
    action = record {
      workflow = "SweepStuckEventsWorkflow";
      received_grace_seconds = s.sweeper_grace_seconds;
      processing_grace_seconds = s.sweeper_processing_grace_seconds;
      limit = s.sweeper_batch_limit;
      id = "sweep-stuck-events-run";
      task_queue = s.temporal_task_queue;
    };
    every = s.sweeper_interval_seconds;
    policy = record { overlap = skip; catchup_window = 5 * 60 };
    state = fresh;
  }

-- `dataclasses.replace(schedule, spec=…, policy=…, action=…)`
abbrev pub updated : {State : Type 0} → Schedule State → Schedule State → Schedule State
updated desired old = record old {
  action = desired.action;
  every = desired.every;
  policy = desired.policy;
}

-- Temporal's frontend: `create_schedule` and the update through a handle.
pub record Scheduler : Type 1 where
  pub Frontend : Type 0
  pub State : Type 0
  -- the state of a schedule that is built in the code
  pub fresh : State
  pub create_schedule : String → Schedule State → Frontend → Result Exn (Unit {0}) × Frontend
  pub update :
      String → (Schedule State → Schedule State) → Frontend → Result Exn (Unit {0}) × Frontend

-- What happens to the worker once it polls: it ends by itself, or a signal comes, and `shutdown`
-- and then the worker's task end.
pub data Served : Type 0 where
  ended : Result Exn (Unit {0}) → Served
  signalled : (shutdown task : Result Exn (Unit {0})) → Served

-- What the process has done.
pub data Event : Type 0 where
  polling draining closed : Event

-- The wait for the first of the two tasks; a task that has ended is not awaited again.
abbrev pub serve : Served → Result Exn (Unit {0}) × List Event
serve (ended task) = (ok tt, polling ∷ [])
serve (signalled (err e) task) = (err e, polling ∷ draining ∷ [])
serve (signalled (ok u) task) = (task, polling ∷ draining ∷ [])

-- `finally`: an exception of `close_http_client` is logged.
abbrev pub finally_close :
    Result Exn (Unit {0}) → Result Exn (Unit {0}) × List Event → Result Exn (Unit {0}) × List Event
finally_close close (r, events) = (r, events ++ closed ∷ [])

module _ (c : Scheduler) where
  open c use {Frontend, State, fresh, create_schedule, update}

  abbrev pub created :
      Schedule State → Result Exn (Unit {0}) × Frontend → Result Exn (Unit {0}) × Frontend
  created desired (ok u, t) = (ok tt, t)
  created desired (err (rpc_error already_exists), t) = update sweep_schedule_id (updated desired) t
  created desired (err e, t) = (err e, t)

  unfoldable pub ensure_sweep_schedule : Settings → Frontend → Result Exn (Unit {0}) × Frontend
  unfolding build_schedule
  ensure_sweep_schedule s t =
      let desired = build_schedule fresh s in
      created desired (create_schedule sweep_schedule_id desired t)

  -- The rest of a function, where its call before returned.
  abbrev pub after_call :
      Result Exn (Unit {0})
      → Frontend
      → Result Exn (Unit {0}) × Frontend
      → Result Exn (Unit {0}) × Frontend
  after_call (err e) t rest = (err e, t)
  after_call (ok u) t rest = rest

  -- `connect` is what `Client.connect` answers.
  unfoldable pub ensure_schedules :
      Result Exn (Unit {0}) → Settings → Frontend → Result Exn (Unit {0}) × Frontend
  unfolding validate_processing_grace ensure_sweep_schedule
  ensure_schedules connect s t =
      after_call (validate_processing_grace s.sweeper_processing_grace_seconds) t
        (after_call connect t (ensure_sweep_schedule s t))

  abbrev pub poll :
      Served
      → Result Exn (Unit {0})
      → Result Exn (Unit {0}) × Frontend
      → Result Exn (Unit {0}) × Frontend × List Event
  poll served close (err e, t) = (err e, t, [])
  poll served close (ok u, t) =
      let (r, events) = finally_close close (serve served) in (r, t, events)

  -- `close` is what `close_http_client` answers.
  unfoldable pub run_worker :
      Result Exn (Unit {0})
      → Served
      → Result Exn (Unit {0})
      → Settings
      → Frontend
      → Result Exn (Unit {0}) × Frontend × List Event
  unfolding validate_processing_grace ensure_sweep_schedule
  run_worker connect served close s t = poll served close (
      after_call (validate_processing_grace s.sweeper_processing_grace_seconds) t
        (after_call connect t (ensure_sweep_schedule s t)))

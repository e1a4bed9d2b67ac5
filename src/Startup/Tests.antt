-- ===== src/Startup/Tests.antt =====
-- A frontend with a table of schedules, and its first worker.
use glacis_webhook_service.Base.{
  ◌+◌, ◌≤◌, ◌<◌, List, String, Option, none, some, Bool, true, false, [], ◌∷◌, ◌++◌, Result, ok,
  err, ◌≡◌, ◌⊎◌, inl, refl, arith, ◌==◌, if◌then◌else◌, eq_refl, In, ℕ, suc, eqb,
}
use glacis_webhook_service.Exceptions.{Exn, value_error, rpc_error, already_exists, other}
use glacis_webhook_service.Models.{WebhookStatus, WebhookEvent}
use glacis_webhook_service.Examples.{event, db_of}
use glacis_webhook_service.Startup.{
  Schedule, Scheduler, defaults, build_schedule, sweep_schedule_id, ensure_sweep_schedule,
  run_worker, ended, serve, closed, Event, validate_processing_grace,
}
use glacis_webhook_service.Startup.Telemetry.{Otel, init_otel}
use glacis_webhook_service.Startup.Registered.{
  SchedulerLaws, IsRegistered, IsRefused, ensure_sweep_schedule-IsRegistered,
  run_worker-IsRegistered,
}
use glacis_webhook_service.Storage.Queries.{stuck_events}
use glacis_webhook_service.Startup.Grace.{stuck_processing-IsOver, IsOver}

abbrev Table : Type 0
Table = String → Option (Schedule Bool)

abbrev put : String → Schedule Bool → Table → Table
put id d t j = if j == id then some d else t j

abbrev made :
    String → Schedule Bool → Table → Option (Schedule Bool) → Result Exn (Unit {0}) × Table
made id d t none = (ok tt, put id d t)
made id d t (some s) = (err (rpc_error already_exists), t)

abbrev changed :
    String
    → (Schedule Bool → Schedule Bool)
    → Table
    → Option (Schedule Bool)
    → Result Exn (Unit {0}) × Table
changed id f t none = (err (other "RPCError"), t)
changed id f t (some s) = (ok tt, put id (f s) t)

-- The state is whether the schedule is paused.
abbrev scheduler : Scheduler
scheduler = record {
  Frontend = Table;
  State = Bool;
  fresh = false;
  create_schedule = λ id d t. made id d t (t id);
  update = λ id f t. changed id f t (t id);
}

abbrev lookup : String → Table → Option (Schedule Bool)
lookup id t = t id

abbrev Up : Table → Type 0
Up t = Unit

laws : SchedulerLaws scheduler lookup Up
laws = record {
  create_new = λ id d t u n. (put id d t, rw n refl, tt, rw (eq_refl id) refl);
  create_taken = λ id d s t u q. (rpc_error already_exists, rw q refl);
  update_there = λ id f s t u q. (put id (f s) t, rw q refl, tt, rw (eq_refl id) refl);
}

-- The schedule of an older release, paused.
abbrev paused : Table
paused id =
    if id == sweep_schedule_id
    then some
        (record (build_schedule true (record defaults { sweeper_batch_limit = 10 })) { every = 30 })
    else none

ensure_sweep_schedule-IsRegistered_example :
    ((t' : Table) × (ensure_sweep_schedule scheduler defaults paused ≡ (ok tt, t'))
      × Up t'
      × IsRegistered scheduler lookup Up laws defaults paused t')
    ⊎ ((e : Exn) × (ensure_sweep_schedule scheduler defaults paused ≡ (err e, paused))
        × IsRefused scheduler lookup Up laws paused e)
ensure_sweep_schedule-IsRegistered_example =
    ensure_sweep_schedule-IsRegistered scheduler lookup Up laws defaults paused tt

-- The worker dies by itself, and the process ends as if nothing had been.
abbrev dead : Result Exn (Unit {0}) × Table × List Event
dead = run_worker scheduler (ok tt) (ended (err (other "RuntimeError"))) (ok tt) defaults paused

run_worker-IsRegistered_example :
    ((900 < 600 + 300) × (e : String) × (dead ≡ (err (value_error e), paused, [])))
    ⊎ ((600 + 300 ≤ 900)
        × (((t' : Table) × (dead ≡ (
          (serve (ended (err (other "RuntimeError")))).0,
          t',
          (serve (ended (err (other "RuntimeError")))).1 ++ closed ∷ [],
        ))
              × IsRegistered scheduler lookup Up laws defaults paused t')
            ⊎ ((e : Exn) × (dead ≡ (err e, paused, []))
                × IsRefused scheduler lookup Up laws paused e)))
run_worker-IsRegistered_example =
    run_worker-IsRegistered scheduler lookup Up laws defaults paused
      (ended (err (other "RuntimeError"))) (ok tt) tt

abbrev row : WebhookEvent
row = event "e1" "acme:a" WebhookStatus.processing 0

default_valid : validate_processing_grace 900 ≡ ok tt
unfolding validate_processing_grace
default_valid = refl

row_listed : In row (stuck_events WebhookStatus.processing 900 100 900000001 (db_of (row ∷ [])))
unfolding stuck_events
row_listed = inl refl

stuck_processing-IsOver_example : IsOver 2000000 900000001
stuck_processing-IsOver_example =
    stuck_processing-IsOver 900 100 900000001 2000000 (db_of (row ∷ [])) row default_valid
      row_listed (omega arith)

-- An SDK that counts its calls, the fifth of which is refused.
abbrev counted : {A : Type 0} → A → ℕ → Result Exn A × ℕ
counted x n = (if eqb n 4 then err (other "ValueError") else ok x, suc n)

abbrev otel : Otel
otel = record {
  Sdk = ℕ;
  Provider = String;
  tracer_provider = λ name endpoint n. counted name n;
  set_tracer_provider = λ p n. counted tt n;
  instrument = λ l n. counted tt n;
}

no_telemetry : init_otel otel "" "web" false 0 ≡ (ok tt, true, 0)
unfolding init_otel
no_telemetry = refl

refused_telemetry :
    init_otel otel "http://otel:4317" "web" false 0 ≡ (err (other "ValueError"), true, 5)
unfolding init_otel
refused_telemetry = refl

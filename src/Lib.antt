-- ===== src/Lib.antt =====
-- glacis-webhook-service
--
-- The webhook service receives vendor webhooks over HTTP, stores each delivery once, and has a
-- Temporal workflow classify it with a language model into shipment and invoice records.
--
-- Parts and their files:
-- * Domain (webhooks/domain.py): the extraction contract. Each validator is the function of its
--   name; Domain/Contract states in independent terms what validation guarantees,
--   Domain/Revalidation what survives the JSON between two activities. Pydantic's own parsing and
--   dumping is the record Pydantic, with its round trip as a hypothesis.
-- * Models (webhooks/models.py) and Storage (webhooks/storage.py): the tables are lists in the
--   record Db, and each helper is a function on it; a transaction that raises returns the Db it
--   was given. Storage/History has a call of a writing helper as a step (Write) and sequences of
--   calls (Reach); Storage/Consistency has the constraints of the tables; Storage/Lifecycle the
--   life of the events as a client sees it, key by key, which the writes refine; Storage/Queries
--   the listings for the review queue and the sweep, and Storage/Records the builders of records.
-- * Responses (webhooks/responses.py), Dedup (webhooks/dedup.py), Bridge
--   (project/temporal_bridge.py, submit): what the view uses. Bridge/Callers has submit called by
--   many threads, a block under the lock as one step; Bridge/Singleton the double-checked lock of
--   get_temporal_client, of get_redis (webhooks/dedup.py) and of _get_reissue_client
--   (workflows/activities.py), one access to the shared variables a step; Bridge/Loop the loop
--   with its thread and client, forks, and the hooks reset_for_fork and shutdown. Dedup/Close is
--   close_redis. Redis and Temporal are the record Services, Redis with laws for GET and SET.
-- * Ingest (webhooks/views.py, IngestWebhookView.post): the hot path, one function for each
--   stretch between two calls of a service. World is what it reads and writes: the tables, the
--   cache, Temporal, the clock, the UUID that an insert draws, the count of callers in the bridge,
--   and whether the database can be reached. Ingest/Steps has the same handler as the steps of a
--   thread, one service call a step, and Ingest/Steps/Together the threads of many requests at
--   once, with the workers between them. Ingest/Delivery goes on from the answer to the end of the
--   run that it has started.
-- * Auth (webhooks/auth.py): the authentication, with the signature check of standardwebhooks as a
--   parameter. Views (webhooks/views.py, HealthView.get and custom_exception_handler): the
--   readiness probe and the rendering of exceptions, with what DRF's own handler returns as an
--   input.
-- * Admin (webhooks/admin.py): the two actions on the review queue, with the numbers that they
--   report, and the reason that its list shows.
-- * RateLimit (webhooks/middleware.py, webhooks/permissions.py, webhooks/apps.py): the two rate
--   limits with the check of their settings at start-up; is_ratelimited of django-ratelimit is a
--   parameter with a state. Base/Numbers has Python's int on a text, Base/Texts/Split its split at
--   a slash.
-- * Startup (workflows/worker.py, workflows/schedules.py,
--   workflows/management/commands/ensure_schedules.py): the worker process and the Temporal
--   schedule of the sweep. Temporal's schedules are the record Scheduler, with SchedulerLaws of a
--   frontend that answers. Startup/Telemetry has init_otel (project/otel.py) with the start of the
--   web process (webhooks/apps.py) and the connection of the worker; the SDK is the record Otel.
-- * Prompts (webhooks/prompts.py), Codec (the json module), Llm (workflows/llm_client.py): the
--   user prompts with the scrub of delimiters, the reading of an HTTP answer and the error
--   taxonomy. The HTTP client is the record Llm, whose calls may differ over time; Llm/Client has
--   get_http_client and close_http_client called by many tasks. Prompts/Scrub and Prompts/Hidden
--   say what the scrub takes out and what it leaves in.
-- * Activities (workflows/activities.py): each activity is one attempt on a Worker (the tables,
--   whether the database is reached, the clock, the state of the API).
-- * Workflow (workflows/definitions.py, ClassifyWebhookWorkflow.run): the run over an Engine,
--   which is Temporal's execute_activity. EngineLaws says of it that an activity is attempted any
--   number of times, each from the state that the attempts before left, with steps of other
--   processes between them, and that a result is one of the last attempt. In place of a result
--   there is the error of the activity, or the run timeout (Interrupt), after which the code does
--   not go on. Workflow/Trust takes a run among any steps of others that do not add the record in
--   question (Quiet), Workflow/Settling one among the writes of other processes that
--   Workflow/Settling/Peers lists. Workflow/Sweep (SweepStuckEventsWorkflow.run): the recovery
--   sweep over the tables and Temporal, where other processes write the tables and start workflows
--   between its steps (Others), with what Temporal keeps of its runs as the record History.
--   Workflow/Keeps has what a run writes (Own) and what every run keeps, and Storage/InStep the
--   steps that store a record with the row of its own event (Step).
-- * Sender (scripts/send_sample.py): the sample sender, with the files, the clock, the signature
--   of standardwebhooks and the post of requests as the record Outside; a printed line is a value.
-- * Base, Json, Exceptions: helpers on lists, results and texts, JSON values, and the exceptions.
--   Examples has concrete services for the tests.
--
-- The ingest view calls Dedup, Storage, Bridge and Responses; the workflow calls the activities,
-- which call Llm and Storage. The tables are the only state that both sides share.
--
-- Numbers are natural numbers; no routine of the service does machine arithmetic. Loops run by
-- recursion on the list or text, so there is no fuel; printing a number recurs on the number
-- itself. An instant is a number of microseconds. The bounds are those of the source: ids of 256
-- characters, keys of 512, error messages of 2048, raw outputs of 8192, a cache entry of seven
-- days, a workflow of ten minutes.
--
-- Not modelled: the texts and declarations of the admin site, most settings, logging, the packages
-- of OpenTelemetry, the signal handlers of the worker, and migrations. Widths of the columns of
-- shipments and invoices are left to the database. A datetime is its ISO text. Concurrent
-- processes are sequences of calls of the helpers, since each helper is one statement or one
-- transaction; concurrent requests are the steps of their threads.
pub mod Base
pub mod Exceptions
pub mod Json
pub mod Domain
pub mod Models
pub mod Storage
pub mod Responses
pub mod Services
pub mod Dedup
pub mod Auth
pub mod Bridge
pub mod Views
pub mod RateLimit
pub mod Ingest
pub mod Codec
pub mod Prompts
pub mod Llm
pub mod Activities
pub mod Workflow
pub mod Startup
pub mod Sender
pub mod Admin
pub mod Examples

-- ===== src/Startup/Telemetry.antt =====
-- `init_otel` of project/otel.py with its callers, `_connect_client` of workflows/worker.py and
-- `WebhooksConfig.ready` of webhooks/apps.py. The SDK of
-- OpenTelemetry and `Client.connect` are parameters; what they answer may be an exception.
use glacis_webhook_service.Base.{
  ℕ, Option, ◌≡◌, ◌==◌, Bool, true, false, List, [], ◌∷◌, Result, ok, err, if◌then◌else◌, refl,
  Bool-cases, inl, inr,
}
use Prim.Native.Char.{Char}
use Prim.Native.String.{String}
use glacis_webhook_service.Exceptions.{Exn}
use glacis_webhook_service.RateLimit.{validate_rate_limit_settings}

pub data Library : Type 0 where
  django psycopg redis httpx : Library

-- In the order in which `init_otel` instruments them.
abbrev pub libraries : List Library
libraries = django ∷ psycopg ∷ redis ∷ httpx ∷ []

pub record Otel : Type 1 where
  pub Sdk : Type 0
  pub Provider : Type 0
  -- a provider for a service name, with a processor that exports to an endpoint
  pub tracer_provider : String → String → Sdk → Result Exn Provider × Sdk
  pub set_tracer_provider : Provider → Sdk → Result Exn (Unit {0}) × Sdk
  pub instrument : Library → Sdk → Result Exn (Unit {0}) × Sdk

module _ (o : Otel) where
  open o use {Sdk, Provider, tracer_provider, set_tracer_provider, instrument}

  abbrev pub instrument_all :
      List Library → Result Exn (Unit {0}) × Sdk → Result Exn (Unit {0}) × Sdk
  instrument_all _ (err e, t) = (err e, t)
  instrument_all [] (ok u, t) = (ok u, t)
  instrument_all (l ∷ ls) (ok u, t) = instrument_all ls (instrument l t)

  abbrev pub with_provider : Result Exn Provider × Sdk → Result Exn (Unit {0}) × Sdk
  with_provider (err e, t) = (err e, t)
  with_provider (ok p, t) = instrument_all libraries (set_tracer_provider p t)

  -- The flag is set before the rest, which is not undone when it raises.
  unfoldable pub init_otel :
      (endpoint service_name : String) → Bool → Sdk → Result Exn (Unit {0}) × Bool × Sdk
  init_otel endpoint service_name is_initialized t =
      if is_initialized
      then (ok tt, true, t)
      else if endpoint == ""
      then (ok tt, true, t)
      else let (r, t') = with_provider (tracer_provider service_name endpoint t) in (r, true, t')

  -- The first call is the only one that may touch the SDK, whether it returned or raised.
  pub init_otel-again :
      (endpoint service_name : String) (b : Bool) (t : Sdk)
      → let x = init_otel endpoint service_name b t in
        init_otel endpoint service_name x.1 x.2 ≡ (ok tt, true, x.2)
  unfolding init_otel
  init_otel-again endpoint service_name true t = refl
  init_otel-again endpoint service_name false t = elim (Bool-cases (endpoint == "")) [
    | inl h ↦ rw h refl
    | inr n ↦ rw n refl
  ]

  abbrev pub after_otel :
      Result Exn (Unit {0})
      → Result Exn (Unit {0}) × Bool × Sdk
      → Result Exn (Unit {0}) × Bool × Sdk
  after_otel settings (err e, b, t) = (err e, b, t)
  after_otel settings (ok u, b, t) = (settings, b, t)

  -- The start of the web process; `decimal` is Python's table of decimal digits.
  unfoldable pub ready :
      (Char → Option ℕ)
      → (endpoint service_name pre_auth_ip_rate_limit default_rate_limit : String) → Bool
      → Sdk
      → Result Exn (Unit {0}) × Bool × Sdk
  unfolding init_otel
  ready decimal endpoint service_name pre_auth_ip_rate_limit default_rate_limit b t =
      after_otel (validate_rate_limit_settings decimal pre_auth_ip_rate_limit default_rate_limit)
        (init_otel endpoint service_name b t)

  -- `connect traced` is what `Client.connect` answers, with the tracing interceptor or without.
  abbrev pub connected :
      (Bool → Result Exn (Unit {0}))
      → Result Exn (Unit {0}) × Bool × Sdk
      → Result Exn (Unit {0}) × Bool × Sdk
  connected connect (err e, b, t) = (err e, b, t)
  connected connect (ok u, b, t) = (connect true, b, t)

  unfoldable pub connect_client :
      (Bool → Result Exn (Unit {0}))
      → (endpoint service_name : String) → Bool
      → Sdk
      → Result Exn (Unit {0}) × Bool × Sdk
  unfolding init_otel
  connect_client connect endpoint service_name b t =
      if endpoint == ""
      then (connect false, b, t)
      else connected connect (init_otel endpoint service_name b t)

  -- A worker that could not set up its telemetry does not connect, but another try in the same
  -- process connects with the interceptor and leaves the SDK as it was.
  pub connect_client-again :
      (connect : Bool → Result Exn (Unit {0})) (endpoint service_name : String) (b : Bool) (t : Sdk)
      → (endpoint == "") ≡ false
      → let x = init_otel endpoint service_name b t in
        connect_client connect endpoint service_name x.1 x.2 ≡ (connect true, true, x.2)
  unfolding connect_client
  connect_client-again connect endpoint service_name true t n = rw n refl
  connect_client-again connect endpoint service_name false t n = rw n refl

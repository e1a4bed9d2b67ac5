-- ===== src/Examples.antt =====
-- Concrete services for the tests: a cache that never expires, a Temporal frontend that knows the
-- workflows it started, an API that classifies and verifies one shipment, and an engine that runs
-- an activity once. The models of Pydantic are in Form.
pub mod Form
use glacis_webhook_service.Base.{
  ℕ, String, Bool, Option, none, some, List, [], ◌∷◌, Result, ok, err, ◌≡◌, any, ◌==◌,
  if◌then◌else◌, arith, false, eq_iff, true, suc, Result-cases, inl, inr, refl,
}
use glacis_webhook_service.Exceptions.{Exn, RpcStatus, rpc_error, json_decode_error}
use glacis_webhook_service.Json.{Json, str, arr, obj, cons, nil, bool, Members, member, end}
use glacis_webhook_service.Domain.{
  EventType, ShipmentStatus, Shipment, ClassificationResult, VerificationResult,
}
use glacis_webhook_service.Examples.Form.{dump_result, dump_verdict}
use glacis_webhook_service.Codec.{Codec}
use glacis_webhook_service.Models.{WebhookStatus, WebhookEvent, Db}
use glacis_webhook_service.Services.{Services, RedisLaws}
use glacis_webhook_service.Prompts.{SystemPrompt}
use glacis_webhook_service.Llm.{Llm, HttpOutcome, response}
use glacis_webhook_service.Activities.{Worker, Attempt}
use glacis_webhook_service.Workflow.Temporal.{
  ActivityError, Interrupt, activity_error, Engine, EngineLaws, Executes, gives_up, returns,
  retries,
}

abbrev pub Cache : Type 0
Cache = String → Option String

abbrev pub start_once : String → List String → Result Exn (Unit {0}) × List String
start_once key started =
    if any (λ k. k == key) started
    then (err (rpc_error RpcStatus.already_exists), started)
    else (ok tt, key ∷ started)

abbrev pub services : Services
services = record {
  Redis = Cache;
  redis_get = λ t k r. ok (r k);
  redis_set = λ now k v ex r. (ok tt, λ j. if j == k then some v else r j);
  Temporal = List String;
  start_workflow = λ key event_id payload t. start_once key t;
}

pub redis_laws : RedisLaws services
redis_laws = record {
  get-set = λ t now k v j c ex r h. ground (arith, eq_iff j k);
  get-set_self = λ t now k v ex r h lt g. ground (arith, eq_iff k k);
}

abbrev pub payload : Members
payload = member "tracking" (str "T1") end

-- Every text reads as the payload.
abbrev pub loads : String → Result Exn Json
loads raw = ok (obj payload)

abbrev pub event : String → String → WebhookStatus → ℕ → WebhookEvent
event id key status created_at = record {
  id = id;
  idempotency_key = key;
  source_vendor = some "acme";
  raw_payload = payload;
  status = status;
  event_type = none;
  normalized_data = none;
  created_at = created_at;
  processed_at = none;
  error_message = none;
  requires_review = false;
}

abbrev pub db_of : List WebhookEvent → Db
db_of es = record { events = es; shipments = []; invoices = [] }

abbrev pub shipment : Shipment
shipment = record {
  vendor_id = "acme";
  tracking_number = "T1";
  status = ShipmentStatus.transit;
  timestamp = "2025-01-01T00:00:00Z";
}

abbrev pub result : ClassificationResult
result = record { event_type = EventType.shipment; shipment = some shipment; invoice = none }

abbrev pub verdict : VerificationResult
verdict = record { grounded = true; unsupported_fields = []; missing_fields = []; notes = "" }

-- The contents of the two answers stand for the JSON of `result` and of `verdict`.
abbrev pub codec : Codec
codec = record {
  loads = λ s.
      if s == "classification"
      then ok (obj (dump_result result))
      else if s == "verdict"
      then ok (obj (dump_verdict verdict))
      else err (json_decode_error "Expecting value");
  dumps = λ v. "{}";
  dumps_compact = λ v. "{}";
  text_of = λ v. "";
}

abbrev answer : String → HttpOutcome
answer content = response 200 content (
    ok (
      obj (
        member "choices"
          (arr (cons (obj (member "message" (obj (member "content" (str content) end)) end)) nil))
          end)))

abbrev pub content_for : SystemPrompt → String
content_for SystemPrompt.classifier = "classification"
content_for SystemPrompt.verifier = "verdict"

abbrev pub llm : Llm
llm = record { State = ℕ; post = λ prompt user s. (answer (content_for prompt), suc s) }

abbrev pub worker : List WebhookEvent → Worker llm
worker es = record { db = db_of es; database = true; now = 5; llm_state = 0 }

-- One attempt, whose exception ends the activity.
abbrev pub run_once : {S A : Type 0} → (S → Result Exn A × S) → S → Result Interrupt A × S
run_once m w = elim (m w).0 [
  | ok a ↦ (ok a, (m w).1)
  | err e ↦ (
    err (activity_error (record { text = "Activity task failed"; application_cause = none })),
    (m w).1,
  )
]

abbrev pub engine : {S : Type 0} → Engine S
engine = record { execute_activity = λ A policy timeout m w. run_once m w }

run_once-Executes :
    {S A : Type 0} (Env : S → S → Type 0) (m : S → Result Exn A × S) (w : S)
    → Executes S Env m w (run_once m w).0 (run_once m w).1
run_once-Executes Env m w = elim (Result-cases (m w).0) [
  | inl (a, q) ↦ rw (run_once, q) (returns a q)
  | inr (e, q) ↦ rw (run_once, q) (retries (gives_up _))
]

pub engine_laws : {S : Type 0} {Env : S → S → Type 0} → EngineLaws S Env engine
engine_laws {S} {Env} = record { executes = λ A policy timeout m w. run_once-Executes Env m w }

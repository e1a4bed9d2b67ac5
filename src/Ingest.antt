-- ===== src/Ingest.antt =====
-- webhooks/views.py, `IngestWebhookView.post`: the hot path of POST /webhook, one function for each
-- stretch between two calls of a service. An exception that the view does not catch is `err`.
pub mod Identifier
pub mod Durability
pub mod Answers
pub mod Replays
pub mod Delivery
pub mod Steps
mod Tests
use glacis_webhook_service.Base.{
  ℕ, Result, Bool, List, some, ok, Option, if◌then◌else◌, leb, true, err, none, ◌&&◌, ◌||◌, eqb,
}
use glacis_webhook_service.Base.Texts.{len}
use Prim.Native.Char.{Char, code}
use Prim.Native.String.{[], ◌∷◌, String}
use glacis_webhook_service.Exceptions.{
  Exn, RpcStatus, json_decode_error, integrity_error, operational_error, bridge_overloaded,
  rpc_error, key_error,
}
use glacis_webhook_service.Json.{Json, obj, Members, end, member, bool}
use glacis_webhook_service.Models.{WebhookStatus, Db}
use glacis_webhook_service.Storage.{EventDict, insert_webhook_event, get_event_by_key}
use glacis_webhook_service.Storage.Queries.{same_status}
use glacis_webhook_service.Responses.{
  Response, get_header, with_header, problem, accepted, already_received, int,
}
use glacis_webhook_service.Services.{Services}
use glacis_webhook_service.Dedup.{check_duplicate, mark_as_seen}
use glacis_webhook_service.Bridge.{submit}

-- `[A-Za-z0-9._:\-]`
abbrev pub is_id_char : Char → Bool
is_id_char ch =
    let c = code ch in
    leb b'A' c && leb c b'Z'
    || leb b'a' c && leb c b'z'
    || leb b'0' c && leb c b'9'
    || eqb c b'.'
    || eqb c b'_'
    || eqb c b':'
    || eqb c b'-'

abbrev pub all_id_chars : String → Bool
all_id_chars [] = true
all_id_chars (c ∷ s) = is_id_char c && all_id_chars s

-- `_ID_PATTERN.match(webhook_id)`
unfoldable pub is_valid_id : String → Bool
is_valid_id id = leb 1 (len id) && leb (len id) 256 && all_id_chars id

-- A request that has passed authentication. Header names are in lower case.
pub record Request : Type 0 where
  pub path : String
  pub raw : String
  pub headers : List (String × String)
  pub vendor_id : String

abbrev pub service_unavailable : String → String → Response
service_unavailable detail path =
    problem 503 "Service temporarily unavailable" detail "service-unavailable" (some path) end

abbrev pub bridge_overloaded_response : String → Response
bridge_overloaded_response path = with_header "Retry-After" "1" (
    problem 503 "Service temporarily unavailable" "Workflow bridge overloaded. Please retry."
      "service-unavailable" (some path) (member "retry_after_seconds" (int 1) end))

abbrev pub invalid_body : String → String → String → Response
invalid_body title detail path = problem 422 title detail "invalid-body" (some path) end

abbrev pub internal_error : String → Response
internal_error path =
    problem 500 "Internal error" "Failed to resolve event after duplicate-key collision."
      "internal-error" (some path) end

module _ (s : Services) where
  open s use {Redis, Temporal, start_workflow}

  -- What the view reads and writes. `database` and `lookup_database` say whether the database can
  -- be reached at the insert and at the lookup after a collision; `inflight` counts the callers
  -- that wait for the bridge already; `id` is the UUID that an insert draws.
  pub record World : Type 0 where
    pub db : Db
    pub redis : Redis
    pub temporal : Temporal
    pub now : ℕ
    pub id : String
    pub inflight : ℕ
    pub database : Bool
    pub lookup_database : Bool

  abbrev pub Outcome : Type 0
  Outcome = Result Exn Response × World

  -- The last step: a mark that fails is logged only.
  pub mark_seen : Request → String → String → World → Outcome
  mark_seen req webhook_id key w =
      let (_, redis) = mark_as_seen s key webhook_id req.vendor_id w.now w.redis in
      (ok (accepted key), record w { redis = redis })

  pub after_start : Request → String → String → Result Exn (Unit {0}) → World → Outcome
  after_start req webhook_id key (ok _) w = mark_seen req webhook_id key w
  after_start req webhook_id key (err bridge_overloaded) w =
      (ok (bridge_overloaded_response req.path), w)
  after_start req webhook_id key (err (rpc_error RpcStatus.already_exists)) w =
      (ok (already_received key), w)
  after_start req webhook_id key (err (rpc_error RpcStatus.other_status)) w = (
    ok (service_unavailable "Failed to queue event for classification. Please retry." req.path),
    w,
  )
  after_start req webhook_id key (err e) w = (err e, w)

  -- `submit(client.start_workflow(…))` with the event that was inserted or found.
  pub start : ℕ → Request → String → Members → String → String → World → Outcome
  unfolding after_start mark_seen submit
  start cap req webhook_id payload key event_id w =
      let (r, (inflight, temporal)) =
        submit cap (start_workflow key event_id payload) (w.inflight, w.temporal) in
      after_start req webhook_id key r (record w { inflight = inflight; temporal = temporal })

  -- After `IntegrityError`: the row is there already, and is resumed while it is RECEIVED.
  pub resume : ℕ → Request → String → Members → String → Option EventDict → World → Outcome
  resume cap req webhook_id payload key none w = (ok (internal_error req.path), w)
  resume cap req webhook_id payload key (some e) w =
      if same_status e.status WebhookStatus.received
      then start cap req webhook_id payload key e.id w
      else (ok (already_received key), w)

  pub after_insert : ℕ → Request → String → Members → String → Result Exn String → World → Outcome
  after_insert cap req webhook_id payload key (ok event_id) w =
      start cap req webhook_id payload key event_id w
  after_insert cap req webhook_id payload key (err integrity_error) w =
      if w.lookup_database
      then resume cap req webhook_id payload key (get_event_by_key key w.db) w
      else (err operational_error, w)
  after_insert cap req webhook_id payload key (err operational_error) w =
      (ok (service_unavailable "Database is unreachable. Please retry." req.path), w)
  after_insert cap req webhook_id payload key (err e) w = (err e, w)

  pub persist : ℕ → Request → String → Members → String → World → Outcome
  unfolding after_insert resume start
  persist cap req webhook_id payload key w =
      if w.database
      then (let (r, db) = insert_webhook_event w.id w.now key payload req.vendor_id w.db in
          after_insert cap req webhook_id payload key r (record w { db = db }))
      else after_insert cap req webhook_id payload key (err operational_error) w

  pub after_dedup : ℕ → Request → String → Members → Result Exn (Bool × String) → World → Outcome
  after_dedup cap req webhook_id payload (ok (is_duplicate, key)) w =
      if is_duplicate
      then (ok (already_received key), w)
      else persist cap req webhook_id payload key w
  after_dedup cap req webhook_id payload (err e) w =
      (ok (service_unavailable "Dedup cache is unreachable. Please retry." req.path), w)

  pub checked : ℕ → Request → Members → String → World → Outcome
  unfolding after_dedup persist
  checked cap req payload webhook_id w =
      if is_valid_id webhook_id
      then after_dedup cap req webhook_id payload
          (check_duplicate s webhook_id req.vendor_id w.now w.redis) w
      else (
        ok (
            invalid_body "Invalid webhook-id"
              "webhook-id must be 1-256 chars, alphanumerics plus '. _ - :' only." req.path),
        w,
      )

  -- The authentication has seen the header, so that `KeyError` is for a caller that has not.
  pub with_payload : ℕ → Request → Members → Option String → World → Outcome
  with_payload cap req payload none w = (err (key_error "webhook-id"), w)
  with_payload cap req payload (some webhook_id) w = checked cap req payload webhook_id w

  pub parsed : ℕ → Request → Result Exn Json → World → Outcome
  parsed cap req (ok (obj payload)) w =
      with_payload cap req payload (get_header "webhook-id" req.headers) w
  parsed cap req (ok _) w =
      (ok (invalid_body "Invalid JSON" "Request body must be a JSON object." req.path), w)
  parsed cap req (err (json_decode_error _)) w =
      (ok (invalid_body "Invalid JSON" "Request body is not valid JSON." req.path), w)
  parsed cap req (err e) w = (err e, w)

  -- `loads` is `json.loads`, and `cap` the setting TEMPORAL_BRIDGE_MAX_INFLIGHT.
  unfoldable pub post : (String → Result Exn Json) → ℕ → Request → World → Outcome
  unfolding parsed with_payload checked
  post loads cap req w = parsed cap req (loads req.raw) w

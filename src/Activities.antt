-- ===== src/Activities.antt =====
-- workflows/activities.py: the side-effecting steps. Each is one attempt over the worker's state;
-- Temporal's retries are in Workflow.
mod Tests
pub mod Review
pub mod Reached
pub mod Settles
pub mod Grounding
pub mod Limits
use glacis_webhook_service.Base.{
  ◌>>=◌, ℕ, Bool, Option, if◌then◌else◌, Result, true, ◌==◌, false, some, leb, ltb, err, ok, List,
  ◌||◌, not, ◌-◌, none, ◌&&◌, is_some,
}
use Prim.Native.String.{◌++◌, String}
use glacis_webhook_service.Base.Texts.{len, prefix}
use glacis_webhook_service.Exceptions.{
  Exn, RpcStatus, integrity_error, operational_error, attribute_error, llm_schema_rejected,
  rpc_error, type_error,
}
use glacis_webhook_service.Json.{Json, null, bool, num, str, arr, obj, Members, end, member}
use glacis_webhook_service.Json.Access.{get, set, is_str}
use glacis_webhook_service.Codec.{Codec}
use glacis_webhook_service.Domain.{EventType, value, ClassificationResult, VerificationResult}
use glacis_webhook_service.Domain.Pydantic.{
  Pydantic, validate_classification_result, validate_verification_result,
}
use glacis_webhook_service.Models.{WebhookStatus, FkRecord, Db}
use glacis_webhook_service.Storage.{
  is_terminal, EventDict, get_event_by_key, mark_processing_status, mark_terminal_status,
  store_and_complete,
}
use glacis_webhook_service.Storage.Queries.{StuckRow, list_stuck_received, list_stuck_processing}
use glacis_webhook_service.Storage.Records.{record_builder}
use glacis_webhook_service.Llm.{Llm, classify, verify}

abbrev pub max_raw_output_len : ℕ
max_raw_output_len = 8192

abbrev pub max_error_message_len : ℕ
max_error_message_len = 2048

abbrev pub truncation_suffix : String
truncation_suffix = "...[truncated]"

-- `claimed in _CLAIMABLE_EVENT_TYPES`
abbrev pub is_claimable : String → Bool
is_claimable t = t == value EventType.shipment || t == value EventType.invoice

abbrev pub is_unclassified : EventType → Bool
is_unclassified EventType.unclassified = true
is_unclassified EventType.shipment = false
is_unclassified EventType.invoice = false

unfoldable pub review_reason : ClassificationResult → Option VerificationResult → Option String
review_reason result none = none
review_reason result (some v) =
    if not v.grounded && not (is_unclassified result.event_type) then some "ungrounded" else none

-- The reason after the guard against a verification that was left out.
unfoldable pub guarded_reason : ClassificationResult → Option VerificationResult → Option String
unfolding review_reason
guarded_reason result verification = elim (review_reason result verification) [
  | some reason ↦ some reason
  | none ↦
      if not (is_some verification) && not (is_unclassified result.event_type)
      then some "verifier_skipped"
      else none
]

-- `{"truncated": …, "content": …}`
unfoldable pub bounded_raw_output : Codec → Json → Members
bounded_raw_output c raw =
    let serialized = c.dumps raw in
    if leb (len serialized) max_raw_output_len
    then member "truncated" (bool false) (member "content" raw end)
    else member "truncated" (bool true)
        (member "content" (str (prefix max_raw_output_len serialized ++ "...[truncated]")) end)

claimed_type : Option Json → String
claimed_type (some (str claimed)) =
    if is_claimable claimed then claimed else value EventType.unclassified
claimed_type _ = value EventType.unclassified

unfoldable pub llm_claimed_event_type : Json → String
unfolding claimed_type get
llm_claimed_event_type (obj m) = claimed_type (get "event_type" m)
llm_claimed_event_type _ = value EventType.unclassified

-- The message that fits the column's bound.
unfoldable pub bounded_error_message : String → String
bounded_error_message error_message =
    if ltb max_error_message_len (len error_message)
    then prefix (max_error_message_len - len truncation_suffix) error_message ++ truncation_suffix
    else error_message

-- `d.get(k, default)`
abbrev pub get_or : String → Json → Members → Json
get_or k default d = elim (get k d) [ none ↦ default | some v ↦ v ]

-- `IntegrityError` is logged and dropped.
abbrev pub swallow : Result Exn (Unit {0}) → Result Exn (Unit {0})
swallow (err integrity_error) = ok tt
swallow r = r

module _ (llm : Llm) where
  -- The state that an attempt reads and writes: the tables, the clock, and the API's own.
  pub record Worker : Type 0 where
    pub db : Db
    pub database : Bool  -- whether the database can be reached
    pub now : ℕ
    pub llm_state : llm.State

  abbrev pub Attempt : Type 0 → Type 0
  Attempt A = Worker → Result Exn A × Worker

  -- An attempt that reads or writes the tables; its `OperationalError` is not caught.
  abbrev pub on_database :
      {A : Type 0} → Bool → Worker → Result Exn A × Worker → Result Exn A × Worker
  on_database true w x = x
  on_database false w x = (err operational_error, w)

  unfoldable pub mark_processing : String → Attempt (Unit {0})
  mark_processing idempotency_key w =
      on_database w.database w
        (ok tt, record w { db = mark_processing_status idempotency_key w.db })

  -- `store_and_complete` with the worker's clock.
  unfoldable pub store :
      String → String → String → Members → Option FkRecord → Bool → Attempt (Unit {0})
  store idempotency_key event_id event_type normalized_data fk_record requires_review w =
      let (r, db) =
        store_and_complete w.now idempotency_key event_id event_type normalized_data fk_record
          requires_review w.db in
      on_database w.database w (swallow r, record w { db = db })

  unfoldable pub mark_failed : String → String → Attempt (Unit {0})
  unfolding bounded_error_message
  mark_failed idempotency_key error_message w =
      let (r, db) =
        mark_terminal_status w.now idempotency_key WebhookStatus.failed
          (some (bounded_error_message error_message)) w.db in
      on_database w.database w (r, record w { db = db })

  unfoldable pub list_stuck_received_activity : ℕ → ℕ → Attempt (List StuckRow)
  list_stuck_received_activity older_than_seconds limit w =
      on_database w.database w (ok (list_stuck_received older_than_seconds limit w.now w.db), w)

  unfoldable pub list_stuck_processing_activity : ℕ → ℕ → Attempt (List StuckRow)
  list_stuck_processing_activity older_than_seconds limit w =
      on_database w.database w (ok (list_stuck_processing older_than_seconds limit w.now w.db), w)

  module _ (c : Codec) (p : Pydantic) where
    unfoldable pub ok_dict : ClassificationResult → Members
    ok_dict result =
        member "kind" (str "ok") (member "result" (obj (p.dump_classification result)) end)

    unfoldable pub rejected_dict : Json → String → Members
    rejected_dict raw_output validation_message = member "kind" (str "schema_rejected") (
        member "raw_llm_output" raw_output
          (member "validation_message" (str validation_message) end))

    unfoldable pub classified : Result Exn ClassificationResult → Result Exn Members
    unfolding ok_dict rejected_dict
    classified (ok result) = ok (ok_dict result)
    classified (err (llm_schema_rejected raw_output validation_message)) =
        ok (rejected_dict raw_output validation_message)
    classified (err e) = err e

    unfoldable pub classify_payload : Members → Attempt Members
    unfolding classified
    classify_payload payload w =
        let (r, s) = classify c p llm payload w.llm_state in
        (classified r, record w { llm_state = s })

    unfoldable pub verify_extraction : Members → Members → Attempt Members
    verify_extraction payload classification_dict w =
        let inner = get_or "result" (obj classification_dict) classification_dict in
        let (r, s) = verify c p llm payload inner w.llm_state in
        (do v ← r; ok (p.dump_verification v), record w { llm_state = s })

    -- `validation_message[:_MAX_RAW_OUTPUT_LEN]` of a value that should be a text.
    pub message_of : Json → Result Exn Json
    message_of (str message) = ok (str (prefix max_raw_output_len message))
    message_of _ = err type_error

    rejected_data : Json → Json → Members
    rejected_data raw_output message = member "schema_rejected" (bool true) (
        member "raw_llm_output" (obj (bounded_raw_output c raw_output))
          (member "validation_message" message end))

    unfoldable pub persist_schema_rejected : String → String → Members → Attempt (Unit {0})
    unfolding message_of rejected_data
    persist_schema_rejected idempotency_key event_id classification_dict w =
        let raw_output = get_or "raw_llm_output" (obj end) classification_dict in
        elim (message_of (get_or "validation_message" (str "") classification_dict)) [
          | err e ↦ (err e, w)
          | ok message ↦
              store idempotency_key event_id (llm_claimed_event_type raw_output)
                (rejected_data raw_output message) none true w
        ]

    -- `VerificationResult.model_validate(…) if verification_dict is not None else None`
    pub validate_verification : Option Members → Result Exn (Option VerificationResult)
    validate_verification none = ok none
    validate_verification (some d) = do v ← validate_verification_result p (obj d); ok (some v)

    unfoldable pub with_verification : Option VerificationResult → Members → Members
    with_verification none d = d
    with_verification (some v) d = set "verification" (obj (p.dump_verification v)) d

    unfoldable pub with_reason : Option String → Members → Members
    with_reason none d = d
    with_reason (some reason) d = set "review_reason" (str reason) d

    -- `builder(event_id, inner)`; the builders call `inner.get`.
    pub apply_builder :
        (String → Members → Result Exn (Option FkRecord))
        → String
        → Json
        → Result Exn (Option FkRecord)
    apply_builder builder event_id (obj m) = builder event_id m
    apply_builder builder event_id _ = err attribute_error

    -- No record for a flagged row; else what the event type's builder makes of the extraction.
    pub build_record :
        String → Option String → ClassificationResult → Json → Result Exn (Option FkRecord)
    unfolding apply_builder
    build_record event_id (some reason) result inner = ok none
    build_record event_id none result inner = elim (record_builder (value result.event_type)) [
      | none ↦ ok none
      | some builder ↦ apply_builder builder event_id inner
    ]

    -- What `persist_classification` is about to store, before the transaction.
    pub record Prepared : Type 0 where
      pub event_type : String
      pub normalized_data : Members
      pub fk_record : Option FkRecord
      pub requires_review : Bool

    unfoldable pub prepare : String → Members → Option Members → Result Exn Prepared
    unfolding validate_verification with_verification with_reason build_record
    prepare event_id classification_dict verification_dict = do
      let inner = get_or "result" (obj classification_dict) classification_dict
      result ← validate_classification_result p inner
      verification ← validate_verification verification_dict
      let reason = guarded_reason result verification
      fk_record ← build_record event_id reason result inner
      ok (record {
        event_type = value result.event_type;
        normalized_data =
            with_reason reason (with_verification verification (p.dump_classification result));
        fk_record = fk_record;
        requires_review = is_some reason;
      })

    unfoldable pub persist_prepared :
        String → String → Members → Option Members → Attempt (Unit {0})
    unfolding prepare
    persist_prepared idempotency_key event_id classification_dict verification_dict w =
        elim (prepare event_id classification_dict verification_dict) [
          | err e ↦ (err e, w)
          | ok d ↦
              store idempotency_key event_id d.event_type d.normalized_data d.fk_record
                d.requires_review w
        ]

    unfoldable pub persist_classification :
        String → String → Members → Option Members → Attempt (Unit {0})
    unfolding persist_prepared persist_schema_rejected
    persist_classification idempotency_key event_id classification_dict verification_dict w =
        if is_str "schema_rejected" (get "kind" classification_dict)
        then persist_schema_rejected idempotency_key event_id classification_dict w
        else persist_prepared idempotency_key event_id classification_dict verification_dict w

-- The start of a workflow by the sweeper, with Temporal as a state and a call.
module _ {T : Type 0}
    (start_workflow : String → String → Members → T → Result Exn (Unit {0}) × T) where
  -- A gRPC error ALREADY_EXISTS is a success; what else the start raises, the activity raises.
  unfoldable pub benign : Result Exn (Unit {0}) → Result Exn (Unit {0})
  benign (err (rpc_error RpcStatus.already_exists)) = ok tt
  benign r = r

  unfoldable pub reissue_classify_workflow :
      String → String → Members → Bool → Db → T → Result Exn (Unit {0}) × T
  unfolding benign
  reissue_classify_workflow idempotency_key event_id payload false db t = (err operational_error, t)
  reissue_classify_workflow idempotency_key event_id payload true db t =
      elim (get_event_by_key idempotency_key db) [
        | none ↦ (ok tt, t)
        | some event ↦
            if is_terminal event.status
            then (ok tt, t)
            else let (r, t') = start_workflow idempotency_key event_id payload t in (benign r, t')
      ]

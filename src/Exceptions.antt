-- ===== src/Exceptions.antt =====
-- The exceptions that the code raises, catches or lets through, with the values that it reads.
-- `other` stands for every other class, such as a timeout of the bridge or of a library.
use glacis_webhook_service.Base.{String}
use glacis_webhook_service.Json.{Json}

-- The status of an RPC to Temporal: the code asks only for ALREADY_EXISTS.
pub data RpcStatus : Type 0 where
  already_exists other_status : RpcStatus

pub data Exn : Type 0 where
  value_error : String → Exn
  key_error : String → Exn
  type_error attribute_error index_error : Exn
  json_decode_error : String → Exn
  integrity_error operational_error : Exn
  redis_error : Exn
  bridge_overloaded : Exn
  rpc_error : RpcStatus → Exn
  llm_error : String → Exn
  llm_permanent_error : String → Exn
  llm_schema_rejected : Json → String → Exn
  validation_error : String → Exn
  authentication_failed : String → Exn
  throttled : String → Exn
  webhook_verification_error : Exn
  other : String → Exn

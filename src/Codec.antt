-- ===== src/Codec.antt =====
-- Python's `json` module and `str` on JSON values, as the code calls them.
use glacis_webhook_service.Base.{String, Result}
use glacis_webhook_service.Exceptions.{Exn}
use glacis_webhook_service.Json.{Json}

pub record Codec : Type 0 where
  -- `json.loads`, which raises `JSONDecodeError` on a text that is not JSON
  pub loads : String → Result Exn Json
  -- `json.dumps(v)` and `json.dumps(v, separators=(",", ":"))`
  pub dumps : Json → String
  pub dumps_compact : Json → String
  -- `str(v)`
  pub text_of : Json → String

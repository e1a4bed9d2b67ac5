-- ===== src/Views.antt =====
-- webhooks/views.py beside the ingest: the readiness probe and the rendering of exceptions.
mod Tests
pub mod Rendering
use glacis_webhook_service.Base.{
  ℕ, String, Bool, true, false, Option, none, some, ◌&&◌, not, if◌then◌else◌,
}
use glacis_webhook_service.Base.Texts.{is_empty, show}
use glacis_webhook_service.Json.{Json, str, obj, Members, end, member}
use glacis_webhook_service.Responses.{Response, plain, problem, with_header, int}

-- `"ok" if … else "error"`, of a check that raised or did not.
abbrev check : Bool → Json
check up = str (if up then "ok" else "error")

abbrev pub report : String → Bool → Bool → Bool → Members
report status postgres redis temporal = member "status" (str status) (
    member "checks"
      (obj (
        member "postgres" (check postgres)
          (member "redis" (check redis) (member "temporal" (check temporal) end))))
      end)

-- `HealthView.get`, with the three checks' outcomes.
unfoldable pub health : Bool → Bool → Bool → Response
health postgres redis temporal =
    if not postgres
    then record (plain (report "unhealthy" postgres redis temporal)) { status = 503 }
    else if not (postgres && redis && temporal)
    then plain (report "degraded" postgres redis temporal)
    else plain (report "healthy" postgres redis temporal)

-- The classes that the handler tells apart; `wait` is in whole seconds.
pub data Raised : Type 0 where
  request_data_too_big : Raised
  throttled : Option ℕ → Raised
  unauthenticated : Raised
  any_other : Raised

-- The response of DRF's own handler: its status, and the `detail` of a body that is a dict.
pub record DrfResponse : Type 0 where
  pub status_code : ℕ
  pub detail : Option String

abbrev pub detail_text : Option String → String
detail_text none = "Request failed."
detail_text (some d) = if is_empty d then "Request failed." else d

-- The answer to a throttled request, with the seconds to wait if there are any.
unfoldable pub too_many_requests : Option ℕ → DrfResponse → Option String → Response
unfolding show
too_many_requests none drf path =
    problem drf.status_code "Too many requests" (detail_text drf.detail) "rate-limited" path end
too_many_requests (some retry_after) drf path = with_header "Retry-After" (show retry_after) (
    problem drf.status_code "Too many requests" (detail_text drf.detail) "rate-limited" path
      (member "retry_after_seconds" (int retry_after) end))

unfoldable pub render : Raised → DrfResponse → Option String → Response
unfolding too_many_requests
render (throttled wait) drf path = too_many_requests wait drf path
render unauthenticated drf path =
    problem drf.status_code "Unauthenticated" (detail_text drf.detail) "unauthenticated" path end
render _ drf path =
    problem drf.status_code (detail_text drf.detail) (detail_text drf.detail) "internal-error" path
      end

-- An exception that DRF does not handle is not rendered.
unfoldable pub custom_exception_handler :
    Raised → Option DrfResponse → Option String → Option Response
unfolding render
custom_exception_handler request_data_too_big drf path = some (
    problem 413 "Payload too large" "Request body exceeds the configured maximum."
      "payload-too-large" path end)
custom_exception_handler raised none path = none
custom_exception_handler raised (some drf) path = some (render raised drf path)

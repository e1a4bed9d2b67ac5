-- ===== src/Views/Rendering.antt =====
-- What holds of every answer that the probe and the exception handler give.
use glacis_webhook_service.Base.{◌≡◌, refl, none, some, ℕ, Option, String, subst, some_inj}
use glacis_webhook_service.Json.Access.{get, set}
use glacis_webhook_service.Responses.{Response, problem, get_header, set_header, update, int}
use glacis_webhook_service.Responses.Laws.{IsUncached}
use glacis_webhook_service.Views.{
  Raised, DrfResponse, custom_exception_handler, render, too_many_requests, request_data_too_big,
  throttled, unauthenticated, any_other, end, detail_text,
}

-- A problem response: uncached, with its media type, and with its HTTP status in its body.
pub record IsProblem (status : ℕ) (r : Response) : Type 0 where
  pub uncached : IsUncached r
  pub media_type : r.content_type ≡ "application/problem+json"
  pub code : r.status ≡ status
  pub body_code : get "status" r.body ≡ some (int status)

problem-IsProblem :
    (n : ℕ) (title detail slug : String) (path : Option String)
    → IsProblem n (problem n title detail slug path end)
unfolding problem get_header get update set
problem-IsProblem n title detail slug none = record {
  uncached = refl;
  media_type = refl;
  code = refl;
  body_code = refl;
}
problem-IsProblem n title detail slug (some p) = record {
  uncached = refl;
  media_type = refl;
  code = refl;
  body_code = refl;
}

too_many_requests-IsProblem :
    (wait : Option ℕ) (drf : DrfResponse) (path : Option String)
    → IsProblem drf.status_code (too_many_requests wait drf path)
unfolding too_many_requests problem get_header set_header get update set
too_many_requests-IsProblem none drf path =
    problem-IsProblem drf.status_code "Too many requests" (detail_text drf.detail) "rate-limited"
      path
too_many_requests-IsProblem (some n) drf none = record {
  uncached = refl;
  media_type = refl;
  code = refl;
  body_code = refl;
}
too_many_requests-IsProblem (some n) drf (some p) = record {
  uncached = refl;
  media_type = refl;
  code = refl;
  body_code = refl;
}

-- The status that an exception is rendered with.
abbrev pub status_of : Raised → DrfResponse → ℕ
status_of request_data_too_big drf = 413
status_of _ drf = drf.status_code

-- Whatever DRF makes of an exception that it handles, it is rendered as a problem response with
-- DRF's status, or with 413 for a body that is too large.
pub custom_exception_handler-IsProblem :
    (raised : Raised) (drf : DrfResponse) (path : Option String) (r : Response)
    → custom_exception_handler raised (some drf) path ≡ some r
    → IsProblem (status_of raised drf) r
unfolding custom_exception_handler render
custom_exception_handler-IsProblem request_data_too_big drf path r h =
    subst (IsProblem 413) (some_inj h) (
      problem-IsProblem 413 "Payload too large" "Request body exceeds the configured maximum."
        "payload-too-large" path)
custom_exception_handler-IsProblem (throttled wait) drf path r h =
    subst (IsProblem drf.status_code) (some_inj h) (too_many_requests-IsProblem wait drf path)
custom_exception_handler-IsProblem unauthenticated drf path r h =
    subst (IsProblem drf.status_code) (some_inj h) (
      problem-IsProblem drf.status_code "Unauthenticated" (detail_text drf.detail) "unauthenticated"
        path)
custom_exception_handler-IsProblem any_other drf path r h =
    subst (IsProblem drf.status_code) (some_inj h) (
      problem-IsProblem drf.status_code (detail_text drf.detail) (detail_text drf.detail)
        "internal-error" path)

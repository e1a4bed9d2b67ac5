-- ===== src/Views/Tests.antt =====
-- One probe and one throttled request.
use glacis_webhook_service.Base.{some, refl}
use glacis_webhook_service.Views.{
  DrfResponse, custom_exception_handler, render, too_many_requests, throttled,
}
use glacis_webhook_service.Views.Rendering.{IsProblem, custom_exception_handler-IsProblem}

abbrev drf : DrfResponse
drf = record { status_code = 429; detail = some "vendor exceeded 100 requests per m" }

custom_exception_handler-IsProblem_example :
    IsProblem 429 (too_many_requests (some 7) drf (some "/webhook"))
unfolding custom_exception_handler render
custom_exception_handler-IsProblem_example =
    custom_exception_handler-IsProblem (throttled (some 7)) drf (some "/webhook")
      (too_many_requests (some 7) drf (some "/webhook")) refl

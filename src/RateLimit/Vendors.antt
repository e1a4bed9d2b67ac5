-- ===== src/RateLimit/Vendors.antt =====
-- webhooks/permissions.py and webhooks/views.py: how a refusal of the vendors' limit is rendered.
use Prim.Native.Char.{Char}
use glacis_webhook_service.Base.{String, Option, none, some, true, false, ok, err, ◌≡◌, refl, ℕ}
use glacis_webhook_service.Base.Texts.{is_empty}
use glacis_webhook_service.Exceptions.{Exn}
use glacis_webhook_service.Json.Access.{get, set}
use glacis_webhook_service.Responses.{Response, get_header, problem, set_header, update}
use glacis_webhook_service.RateLimit.{Limiter, validate_setting, has_permission, vendor}
use glacis_webhook_service.RateLimit.Rendering.{has_permission_lem}
use glacis_webhook_service.Views.{
  Raised, DrfResponse, custom_exception_handler, render, too_many_requests, any_other,
  unauthenticated,
}

-- The class that the handler finds: `Throttled(detail=...)` has no wait.
unfoldable pub raised : Exn → Raised
raised (Exn.throttled detail) = Raised.throttled none
raised (Exn.authentication_failed detail) = unauthenticated
raised _ = any_other

no_wait :
    (drf : DrfResponse) (path : Option String)
    → (get_header "Retry-After" (too_many_requests none drf path).headers ≡ none)
      × (get "retry_after_seconds" (too_many_requests none drf path).body ≡ none)
unfolding too_many_requests problem get_header set_header get update set
no_wait drf none = (refl, refl)
no_wait drf (some p) = (refl, refl)

-- Under a rate that the start-up check let through, a request that the vendors' limit refuses is
-- rendered with neither a `Retry-After` header nor `retry_after_seconds`.
pub has_permission-no_wait :
    (decimal : Char → Option ℕ) {C : Type 0} (is_ratelimited : Limiter C) (vendor_id rate : String)
    (c c' : C) (drf : DrfResponse) (path : Option String)
    → is_empty rate ≡ false
    → validate_setting decimal rate ≡ ok tt
    → is_empty vendor_id ≡ false
    → is_ratelimited "webhook-ingest" (vendor vendor_id) rate c ≡ (ok true, c')
    → (e : Exn) × (has_permission decimal is_ratelimited (some vendor_id) rate c ≡ (err e, c'))
      × (r : Response) × (custom_exception_handler (raised e) (some drf) path ≡ some r)
      × (get_header "Retry-After" r.headers ≡ none)
      × (get "retry_after_seconds" r.body ≡ none)
unfolding raised custom_exception_handler render
has_permission-no_wait decimal is_ratelimited vendor_id rate c c' drf path some_text valid named e =
    let (count, parts, q) =
      has_permission_lem decimal is_ratelimited vendor_id rate c c' true some_text valid named e in
    let (a, b) = no_wait drf path in (_, q, too_many_requests none drf path, refl, a, b)

-- ===== src/RateLimit/Tests.antt =====
-- The default rates, a limiter that counts to a bound, and one request over it.
use Prim.Native.Char.{Char}
use glacis_webhook_service.Base.{ℕ, Option, none, some, Result, ok, err, ◌≡◌, refl, suc, leb, ◌<◌}
use glacis_webhook_service.Base.Texts.{show}
use glacis_webhook_service.Base.Texts.Split.{after_slash, has_slash, split_last}
use glacis_webhook_service.Json.{end}
use glacis_webhook_service.Base.Numbers.{int}
use glacis_webhook_service.Exceptions.{Exn, value_error}
use glacis_webhook_service.Json.Access.{get}
use glacis_webhook_service.Responses.{Response, plain, get_header}
use glacis_webhook_service.RateLimit.{
  Limiter, period_to_seconds, middleware, has_permission, validate_setting,
}
use glacis_webhook_service.RateLimit.Rendering.{IsTooMany, middleware-IsTooMany}
use glacis_webhook_service.Views.{DrfResponse, custom_exception_handler}
use glacis_webhook_service.RateLimit.Vendors.{has_permission-no_wait, raised}

abbrev no_digits : Char → Option ℕ
no_digits c = none

-- Three requests pass.
abbrev counter : Limiter ℕ
counter group key rate n = (ok (leb 3 n), suc n)

abbrev drf : DrfResponse
drf = record { status_code = 429; detail = some "vendor exceeded 200 requests per 10s" }

abbrev next : ℕ → Result Exn Response × ℕ
next n = (ok (plain end), n)

ten_seconds : period_to_seconds no_digits "10s" ≡ ok "10"
unfolding period_to_seconds split_last int show
ten_seconds = refl

spaced_and_signed : period_to_seconds no_digits " +1_0M" ≡ ok "600"
unfolding period_to_seconds split_last int show
spaced_and_signed = refl

no_unit :
    validate_setting no_digits "200/10" ≡ err (value_error "rate-limit period has unknown unit")
unfolding validate_setting has_slash split_last after_slash
no_unit = refl

default_valid : validate_setting no_digits "200/10s" ≡ ok tt
unfolding validate_setting has_slash split_last after_slash int
default_valid = refl

middleware-IsTooMany_example :
    (n : ℕ) × (period_to_seconds no_digits (after_slash "200/10s") ≡ ok (show n))
    × (0 < n)
    × (r : Response) × (middleware no_digits counter next "200/10s" "/webhook/" 3 ≡ (ok r, 4))
    × IsTooMany n r
middleware-IsTooMany_example =
    middleware-IsTooMany no_digits counter next "200/10s" "/webhook/" 3 4 refl default_valid refl
      refl

has_permission-no_wait_example :
    (e : Exn) × (has_permission no_digits counter (some "acme") "200/10s" 3 ≡ (err e, 4))
    × (r : Response) × (custom_exception_handler (raised e) (some drf) (some "/webhook") ≡ some r)
    × (get_header "Retry-After" r.headers ≡ none)
    × (get "retry_after_seconds" r.body ≡ none)
has_permission-no_wait_example =
    has_permission-no_wait no_digits counter "acme" "200/10s" 3 4 drf (some "/webhook") refl
      default_valid refl refl

-- ===== src/RateLimit/Rendering.antt =====
-- webhooks/middleware.py, webhooks/permissions.py and webhooks/views.py with the settings that
-- webhooks/apps.py lets through: how a limited request is answered.
use Prim.Native.Char.{Char}
use Prim.Native.String.{◌++◌}
use glacis_webhook_service.Base.{
  ℕ, ◌<◌, String, Option, some, Bool, true, false, [], ◌∷◌, if◌then◌else◌, Result, ok, err, ◌≡◌,
  refl,
}
use glacis_webhook_service.Base.Texts.{is_empty, show}
use glacis_webhook_service.Base.Texts.Split.{split_slash, after_slash}
use glacis_webhook_service.Base.Numbers.RoundTrip.{int-show}
use glacis_webhook_service.Exceptions.{Exn, throttled}
use glacis_webhook_service.Json.Access.{get}
use glacis_webhook_service.Responses.{Response, get_header, set_header, int as json_int}
use glacis_webhook_service.Responses.Laws.{IsUncached}
use glacis_webhook_service.RateLimit.{
  too_many, Limiter, is_ingest_path, period_to_seconds, build_rate_limit_response, validate_setting,
  middleware, has_permission, permit, ip, vendor,
}
use glacis_webhook_service.RateLimit.Periods.{Rate, validate_setting-Rate}

-- A 429 that is not cached and tells the seconds in its header and in its body.
pub record IsTooMany (seconds : ℕ) (r : Response) : Type 0 where
  pub status : r.status ≡ 429
  pub uncached : IsUncached r
  pub retry_after : get_header "Retry-After" r.headers ≡ some (show seconds)
  pub retry_after_seconds : get "retry_after_seconds" r.body ≡ some (json_int seconds)

too_many-IsTooMany :
    (path count period : String) (n : ℕ)
    → IsTooMany n (too_many path count period (record { minus = false; magnitude = n }))
unfolding too_many get_header set_header get
too_many-IsTooMany path count period n = record {
  status = refl;
  uncached = refl;
  retry_after = refl;
  retry_after_seconds = refl;
}

build_rate_limit_response-Rate :
    (decimal : Char → Option ℕ) (path rate : String) (v : Rate decimal rate)
    → build_rate_limit_response decimal path rate
      ≡ ok (
          too_many path v.count
            (after_slash rate)
            (record { minus = false; magnitude = v.seconds }))
unfolding build_rate_limit_response
build_rate_limit_response-Rate decimal path rate v =
    rw (v.split_is, v.seconds_is, int-show decimal v.seconds) refl

module _ (decimal : Char → Option ℕ) {C : Type 0} (is_ratelimited : Limiter C) where
  -- Once the start-up check has let the rate of the pre-auth limit through, a limited request to
  -- the ingest path is answered: with a 429 that is not cached and whose `Retry-After` and
  -- `retry_after_seconds` are the seconds of the rate's period, a number above zero. No other part
  -- of the stack sees the request.
  pub middleware-IsTooMany :
      (get_response : C → Result Exn Response × C) (rate path : String) (c c' : C)
      → is_empty rate ≡ false
      → validate_setting decimal rate ≡ ok tt
      → is_ingest_path path ≡ true
      → is_ratelimited "webhook-ingest-preauth-ip" ip rate c ≡ (ok true, c')
      → (n : ℕ) × (period_to_seconds decimal (after_slash rate) ≡ ok (show n))
        × (0 < n)
        × (r : Response) × (middleware decimal is_ratelimited get_response rate path c ≡ (ok r, c'))
        × IsTooMany n r
  unfolding middleware
  middleware-IsTooMany get_response rate path c c' some_text valid ingest limited =
      let v = validate_setting-Rate decimal rate some_text valid in
      (
        v.seconds,
        v.seconds_is,
        v.seconds_above_zero,
        too_many path v.count (after_slash rate) (record { minus = false; magnitude = v.seconds }),
        rw (ingest, limited, build_rate_limit_response-Rate decimal path rate v) refl,
        too_many-IsTooMany path v.count (after_slash rate) v.seconds,
      )

  -- Once the start-up check has let the rate of the vendors' limit through, a request of a vendor
  -- is let through exactly where the limiter, asked under the vendor's name, lets it through, and is
  -- refused with `Throttled` and the rate's two parts otherwise; a `ValueError` is never raised.
  pub has_permission_lem :
      (vendor_id rate : String) (c c' : C) (limited : Bool)
      → is_empty rate ≡ false
      → validate_setting decimal rate ≡ ok tt
      → is_empty vendor_id ≡ false
      → is_ratelimited "webhook-ingest" (vendor vendor_id) rate c ≡ (ok limited, c')
      → (count : String) × (split_slash rate ≡ count ∷ after_slash rate ∷ [])
        × (has_permission decimal is_ratelimited (some vendor_id) rate c ≡ (
          if limited
              then err
                  (throttled ("vendor exceeded " ++ count ++ " requests per " ++ after_slash rate))
              else ok true,
          c',
        ))
  unfolding has_permission
  has_permission_lem vendor_id rate c c' limited some_text valid named e =
      let v = validate_setting-Rate decimal rate some_text valid in
      (v.count, v.split_is, rw (named, e) (by_answer v limited))
    where
      by_answer :
          (v : Rate decimal rate) (b : Bool)
          → permit decimal is_ratelimited rate (ok b, c') ≡ (
            if b
                then err (
                    throttled
                      ("vendor exceeded " ++ v.count ++ " requests per " ++ after_slash rate))
                else ok true,
            c',
          )
      by_answer v true = rw v.split_is refl
      by_answer v false = refl

-- ===== src/RateLimit.antt =====
-- webhooks/middleware.py, webhooks/permissions.py and webhooks/apps.py: the two rate limits, and the
-- check of their settings at start-up. `is_ratelimited` of django-ratelimit is a parameter with a
-- state; a message leaves out the value that the code quotes. `decimal` is that of Base/Numbers.
pub mod Periods
pub mod Rendering
pub mod Vendors
mod Tests
use Prim.Native.Char.{Char, code}
use Prim.Native.String.{◌++◌}
use glacis_webhook_service.Base.{
  ℕ, zero, suc, ◌*◌, String, Option, none, some, Bool, true, false, List, [], ◌∷◌, ◌||◌, ◌==◌,
  if◌then◌else◌, eqb, ltb, ◌&&◌, Result, ok, err, ◌>>=◌,
}
use glacis_webhook_service.Base.Texts.{is_empty, show, join}
use glacis_webhook_service.Base.Texts.Split.{has_slash, split_slash, split_last, after_slash}
use glacis_webhook_service.Base.Numbers.{Signed, int}
use glacis_webhook_service.Exceptions.{Exn, value_error, throttled}
use glacis_webhook_service.Json.{Json, num, str, end, member, Decimal, ℤ}
use glacis_webhook_service.Responses.{Response, with_header}

abbrev pub ingest_path : String
ingest_path = "/webhook"

abbrev pub is_ingest_path : String → Bool
is_ingest_path path = path == ingest_path || path == join ingest_path "/"

-- `_PERIOD_MULTIPLIERS.get(suffix.lower())`
unfoldable pub multiplier : Char → Option ℕ
multiplier unit =
    let c = code unit in
    if eqb c b's' || eqb c b'S'
    then some 1
    else if eqb c b'm' || eqb c b'M'
    then some 60
    else if eqb c b'h' || eqb c b'H'
    then some 3600
    else if eqb c b'd' || eqb c b'D'
    then some 86400
    else none

abbrev pub has_unit : Option ℕ → Result Exn ℕ
has_unit none = err (value_error "rate-limit period has unknown unit")
has_unit (some k) = ok k

abbrev pub is_integer : Option Signed → Result Exn Signed
is_integer none = err (value_error "rate-limit period count must be a positive integer")
is_integer (some z) = ok z

-- `if n <= 0: raise`, then `str(n * multiplier)`
abbrev pub positive : ℕ → Signed → Result Exn String
positive k z =
    if z.minus || eqb z.magnitude 0
    then err (value_error "rate-limit period count must be > 0")
    else ok (show (z.magnitude * k))

-- A prefix of no character is the length test, since a period of one character has no front.
abbrev pub long_enough : Option (String × Char) → Result Exn (String × Char)
long_enough none = err (value_error "rate-limit period must be N<unit>, e.g. '10s'")
long_enough (some (front, unit)) =
    if is_empty front
    then err (value_error "rate-limit period must be N<unit>, e.g. '10s'")
    else ok (front, unit)

-- `count, period = rate.split("/")`
abbrev pub two_parts : List String → Result Exn (String × String)
two_parts (count ∷ period ∷ []) = ok (count, period)
two_parts _ = err (value_error "wrong number of values to unpack")

-- `str` of an integer, and its JSON.
abbrev pub text_of : Signed → String
text_of z = if z.minus && ltb 0 z.magnitude then "-" ++ show z.magnitude else show z.magnitude

abbrev pub json_of : Signed → Json
json_of z = num (record {
  negative = z.minus && ltb 0 z.magnitude;
  coefficient = z.magnitude;
  exponent = ℤ.pos 0;
})

abbrev pub is_int : Option Signed → Result Exn Signed
is_int none = err (value_error "invalid literal for int()")
is_int (some z) = ok z

-- The 429 of the middleware, with its two headers.
unfoldable pub too_many : String → String → String → Signed → Response
too_many path count period seconds = with_header "Cache-Control" "no-store" (
    with_header "Retry-After" (text_of seconds) (record {
      status = 429;
      body = member "type" (str "/errors/rate-limited") (
          member "title" (str "Too many requests") (
            member "status"
              (num (record { negative = false; coefficient = 429; exponent = ℤ.pos 0 }))
              (member "detail"
                (str (
                  "More than " ++ count ++ " unauthenticated requests per " ++ period
                  ++ "; retry later."))
                (member "instance" (str path)
                  (member "retry_after_seconds" (json_of seconds) end)))));
      content_type = "application/problem+json";
      headers = [];
    }))

-- What the limiter counts by.
pub data Key : Type 0 where
  ip : Key
  vendor : String → Key

-- `is_ratelimited(request, group, key, rate, method, increment=True)` for one request: what it
-- answers or raises, and the counters after it.
abbrev pub Limiter : Type 0 → Type 0
Limiter C = String → Key → String → C → Result Exn Bool × C

-- A call whose value is not used.
abbrev pub discard : Result Exn String → Result Exn (Unit {0})
discard (ok text) = ok tt
discard (err e) = err e

module _ (decimal : Char → Option ℕ) where
  unfoldable pub period_to_seconds : String → Result Exn String
  unfolding multiplier
  period_to_seconds period = do
    (front, unit) ← long_enough (split_last period)
    k ← has_unit (multiplier unit)
    n ← is_integer (int decimal front)
    positive k n

  unfoldable pub build_rate_limit_response : String → String → Result Exn Response
  unfolding period_to_seconds too_many
  build_rate_limit_response path rate = do
    (count, period) ← two_parts (split_slash rate)
    text ← period_to_seconds period
    seconds ← is_int (int decimal text)
    ok (too_many path count period seconds)

  unfoldable pub validate_setting : String → Result Exn (Unit {0})
  unfolding period_to_seconds
  validate_setting value =
      if is_empty value
      then ok tt
      else if has_slash value
      then discard (period_to_seconds (after_slash value))
      else err (value_error "must be of the form 'COUNT/PERIOD' (e.g. '100/10s')")

  -- The two settings, the first one first.
  unfoldable pub validate_rate_limit_settings : String → String → Result Exn (Unit {0})
  unfolding validate_setting
  validate_rate_limit_settings pre_auth_ip_rate_limit default_rate_limit =
      validate_setting pre_auth_ip_rate_limit >>= λ done. validate_setting default_rate_limit

  module _ {C : Type 0} (is_ratelimited : Limiter C) where
    -- What the middleware does with the limiter's answer; `get_response` is the rest of the stack.
    abbrev pub limit :
        (C → Result Exn Response × C)
        → String
        → String
        → Result Exn Bool × C
        → Result Exn Response × C
    limit get_response path rate (err e, c) = (err e, c)
    limit get_response path rate (ok false, c) = get_response c
    limit get_response path rate (ok true, c) = (build_rate_limit_response path rate, c)

    unfoldable pub middleware :
        (C → Result Exn Response × C) → String → String → C → Result Exn Response × C
    unfolding build_rate_limit_response
    middleware get_response rate path c =
        if is_ingest_path path
        then limit get_response path rate (is_ratelimited "webhook-ingest-preauth-ip" ip rate c)
        else get_response c

    -- `raise Throttled(detail=...)`
    abbrev pub exceeded : Result Exn (String × String) → Result Exn Bool
    exceeded (err e) = err e
    exceeded (ok (count, period)) =
        err (throttled ("vendor exceeded " ++ count ++ " requests per " ++ period))

    abbrev pub permit : String → Result Exn Bool × C → Result Exn Bool × C
    permit rate (err e, c) = (err e, c)
    permit rate (ok false, c) = (ok true, c)
    permit rate (ok true, c) = (exceeded (two_parts (split_slash rate)), c)

    unfoldable pub has_permission : Option String → String → C → Result Exn Bool × C
    has_permission none rate c = (ok true, c)
    has_permission (some vendor_id) rate c =
        if is_empty vendor_id
        then (ok true, c)
        else permit rate (is_ratelimited "webhook-ingest" (vendor vendor_id) rate c)

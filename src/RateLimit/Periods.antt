-- ===== src/RateLimit/Periods.antt =====
-- webhooks/middleware.py and webhooks/apps.py: the period of a rate, and what the start-up check lets
-- through.
use Prim.Native.Char.{Char, code}
use Prim.Native.String.{◌++◌}
use glacis_webhook_service.Base.{
  ℕ, ◌*◌, ◌<◌, String, Option, none, some, Bool, true, false, [], ◌∷◌, ◌||◌, eqb, Result, ok, err,
  ◌≡◌, inl, inr, refl, arith, Bool-cases, >>=-eq-ok, ◌∙◌, ap,
}
use glacis_webhook_service.Base.Texts.{is_empty, show}
use glacis_webhook_service.Base.Texts.Split.{
  has_slash, split_slash, split_last, after_slash, split_slash_one, has_slash-split_last,
  split_last-append,
}
use glacis_webhook_service.Base.Numbers.{Signed, int}
use glacis_webhook_service.Base.Numbers.RoundTrip.{int_has_none, int-show, is_empty-show}
use glacis_webhook_service.Exceptions.{Exn}
use glacis_webhook_service.RateLimit.{
  multiplier, has_unit, is_integer, positive, long_enough, period_to_seconds, validate_setting,
  discard,
}

-- What `period_to_seconds` computed, where it returned.
record Period (decimal : Char → Option ℕ) (period text : String) : Type 0 where
  front : String
  unit : Char
  factor : ℕ
  count : Signed
  split_is : split_last period ≡ some (front, unit)
  unit_is : multiplier unit ≡ some factor
  count_is : int decimal front ≡ some count
  above_zero : 0 < count.magnitude
  text_is : text ≡ show (count.magnitude * factor)

long_enough-eq-ok :
    (o : Option (String × Char)) (a : String × Char) → long_enough o ≡ ok a → o ≡ some a
long_enough-eq-ok none a h = cc
long_enough-eq-ok (some (front, unit)) a h = ground arith

has_unit-eq-ok : (o : Option ℕ) (k : ℕ) → has_unit o ≡ ok k → o ≡ some k
has_unit-eq-ok none k h = cc
has_unit-eq-ok (some n) k h = cc

is_integer-eq-ok : (o : Option Signed) (z : Signed) → is_integer o ≡ ok z → o ≡ some z
is_integer-eq-ok none z h = cc
is_integer-eq-ok (some n) z h = cc

positive-eq-ok :
    (k : ℕ) (z : Signed) (text : String)
    → positive k z ≡ ok text
    → (0 < z.magnitude) × (text ≡ show (z.magnitude * k))
positive-eq-ok k z text h = ground arith

multiplier_above_zero : (c : Char) (k : ℕ) → multiplier c ≡ some k → 0 < k
unfolding multiplier
multiplier_above_zero c k h = ground arith

multiplier_no_slash : (c : Char) (k : ℕ) → multiplier c ≡ some k → eqb (code c) b'/' ≡ false
unfolding multiplier
multiplier_no_slash c k h = ground arith

period_to_seconds-Period :
    (decimal : Char → Option ℕ) (period text : String)
    → period_to_seconds decimal period ≡ ok text
    → Period decimal period text
unfolding period_to_seconds
period_to_seconds-Period decimal period text h =
    let (p, e, h1) = >>=-eq-ok (long_enough (split_last period)) _ h in
    let (k, e2, h2) = >>=-eq-ok (has_unit (multiplier p.1)) _ h1 in
    let (n, e3, h3) = >>=-eq-ok (is_integer (int decimal p.0)) _ h2 in
    let (pos, q) = positive-eq-ok k n text h3 in
    record {
      front = p.0;
      unit = p.1;
      factor = k;
      count = n;
      split_is = long_enough-eq-ok _ p e;
      unit_is = has_unit-eq-ok _ k e2;
      count_is = is_integer-eq-ok _ n e3;
      above_zero = pos;
      text_is = q;
    }

split_last-no_slash :
    (decimal : Char → Option ℕ) (period text : String)
    → period_to_seconds decimal period ≡ ok text
    → has_slash period ≡ false
split_last-no_slash decimal period text h =
    let p = period_to_seconds-Period decimal period text h in
    has_slash-split_last period p.front p.unit p.split_is
    ∙ both (int_has_none decimal p.front p.count p.count_is)
        (multiplier_no_slash p.unit p.factor p.unit_is)
  where
    both : {a b : Bool} → a ≡ false → b ≡ false → (a || b) ≡ false
    both x y = ground arith

-- The period of a rate that the start-up check lets through.
validate_setting-Period :
    (decimal : Char → Option ℕ) (rate : String)
    → is_empty rate ≡ false
    → validate_setting decimal rate ≡ ok tt
    → (has_slash rate ≡ true)
      × (text : String) × (period_to_seconds decimal (after_slash rate) ≡ ok text)
unfolding validate_setting
validate_setting-Period decimal rate some_text h = elim (Bool-cases (has_slash rate)) [
  | inl t ↦
      (let (text, q) =
          returned (period_to_seconds decimal (after_slash rate)) (rw (some_text, t) at h) in
        (t, text, q))
  | inr f ↦ absurd (ground arith)
]
  where
    returned : (r : Result Exn String) → discard r ≡ ok tt → (text : String) × (r ≡ ok text)
    returned (ok text) q = (text, refl)
    returned (err e) q = cc

-- Such a rate has its two parts, and a number of seconds.
pub record Rate (decimal : Char → Option ℕ) (rate : String) : Type 0 where
  pub count : String
  pub seconds : ℕ
  pub split_is : split_slash rate ≡ count ∷ after_slash rate ∷ []
  pub seconds_is : period_to_seconds decimal (after_slash rate) ≡ ok (show seconds)
  pub seconds_above_zero : 0 < seconds

pub validate_setting-Rate :
    (decimal : Char → Option ℕ) (rate : String)
    → is_empty rate ≡ false
    → validate_setting decimal rate ≡ ok tt
    → Rate decimal rate
validate_setting-Rate decimal rate some_text h =
    let (slash, text, e) = validate_setting-Period decimal rate some_text h in
    let p = period_to_seconds-Period decimal (after_slash rate) text e in
    let (count, q) =
      split_slash_one rate slash (split_last-no_slash decimal (after_slash rate) text e) in
    record {
      count = count;
      seconds = p.count.magnitude * p.factor;
      split_is = q;
      seconds_is = e ∙ ap ok p.text_is;
      seconds_above_zero =
          above p.count.magnitude p.factor p.above_zero
            (multiplier_above_zero p.unit p.factor p.unit_is);
    }
  where
    above : (a b : ℕ) → 0 < a → 0 < b → 0 < a * b
    above a b x y = grind arith

-- A period is read as what it is written from: a number above zero and the unit.
pub period_to_seconds-show :
    (decimal : Char → Option ℕ) (n k : ℕ) (unit : Char)
    → 0 < n
    → multiplier unit ≡ some k
    → period_to_seconds decimal (show n ++ String.◌∷◌ unit String.[]) ≡ ok (show (n * k))
unfolding period_to_seconds
period_to_seconds-show decimal n k unit above e =
    rw (split_last-append (show n) unit, is_empty-show decimal n, e, int-show decimal n)
      (by_count above)
  where
    by_count : 0 < n → positive k (record { minus = false; magnitude = n }) ≡ ok (show (n * k))
    by_count h = ground arith

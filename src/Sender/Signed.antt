-- ===== src/Sender/Signed.antt =====
-- The requests of scripts/send_sample.py against webhooks/auth.py and webhooks/views.py: they pass the
-- authentication, and their ids are admitted.
use glacis_webhook_service.Base.{
  ℕ, zero, suc, ◌+◌, ◌%◌, ◌/◌, ◌≤◌, ◌<◌, String, true, false, ◌≡◌, refl, none, some, List, find?,
  Result, ok, ltb, arith, Bool-cases, inl, inr,
}
use Prim.Native.String.{◌++◌, [], ◌∷◌}
use text.Mathlib.TextLemmas.{nil-append, cons-append}
use glacis_webhook_service.Base.Texts.{len, is_empty, prefix, suffix, digits_from, show, len-append}
use glacis_webhook_service.Base.Numbers.RoundTrip.{is_empty-show, last_digit}
use glacis_webhook_service.Exceptions.{Exn}
use glacis_webhook_service.Models.{VendorCredential}
use glacis_webhook_service.Responses.{get_header}
use glacis_webhook_service.Auth.{AuthRequest, SignedHeaders, is_active_vendor, authenticate}
use glacis_webhook_service.Auth.Complete.{IsSigned, authenticate_signed}
use glacis_webhook_service.Ingest.{all_id_chars, is_valid_id}
use glacis_webhook_service.Sender.{Outside, Posted, request, msg_id, vendor_id, secret}

all_id_chars-append :
    (s t : String) → all_id_chars s ≡ true → all_id_chars t ≡ true → all_id_chars (s ++ t) ≡ true
all_id_chars-append [] t h k = rw nil-append k
all_id_chars-append (c ∷ s) t h k = rw cons-append (ground (arith, all_id_chars-append s t))

digit_is_id_char : (d : ℕ) → d < 10 → all_id_chars (prefix 1 (suffix d "0123456789")) ≡ true
digit_is_id_char d h = let (c, p, e) = last_digit (λ c. none) d h in rw p (ground arith)

digits_are_id_chars : (f n : ℕ) → n ≤ f → all_id_chars (digits_from f n) ≡ true
unfolding digits_from
digits_are_id_chars zero n h = digit_is_id_char n (omega arith)
digits_are_id_chars (suc f) n h = elim (Bool-cases (ltb n 10)) [
  | inl small ↦
      (let same : n % 10 ≡ n = ground arith in rw (small, same) (digit_is_id_char n (ground arith)))
  | inr big ↦ rw big (
      all_id_chars-append (digits_from f (n / 10)) (prefix 1 (suffix (n % 10) "0123456789"))
        (digits_are_id_chars f (n / 10) (ground arith)) (digit_is_id_char (n % 10) (omega arith)))
]

-- A request that carries the headers and the body of a post.
pub record Carries (p : Posted) (req : AuthRequest) : Type 0 where
  pub headers : (name : String) → get_header name req.headers ≡ get_header name p.headers
  pub body : req.body ≡ p.body

module _ (o : Outside) (verify_signature : String → String → SignedHeaders → Result Exn (Unit {0}))
    (name text : String) (s : o.State) (req : AuthRequest)
    (carries : Carries (request o name text s) req) where
  open o use {time_ms, timestamp, sign}

  -- The headers of the post as the library reads them.
  abbrev pub sent : SignedHeaders
  sent = record {
    webhook_id = msg_id o name s;
    webhook_timestamp = show (timestamp s);
    webhook_signature = sign secret (msg_id o name s) (timestamp s) text;
  }

  msg_id_valid :
      all_id_chars name ≡ true
      → len name + len (show (time_ms s)) ≤ 250
      → is_valid_id (msg_id o name s) ≡ true
  unfolding is_valid_id msg_id show
  msg_id_valid h k =
      let ms = show (time_ms s) in
      let digits : all_id_chars ms ≡ true =
        digits_are_id_chars (time_ms s) (time_ms s) (omega arith) in
      let chars : all_id_chars ("demo-" ++ (name ++ ("-" ++ ms))) ≡ true =
        all_id_chars-append "demo-" (name ++ ("-" ++ ms)) refl
          (all_id_chars-append name ("-" ++ ms) h (all_id_chars-append "-" ms refl digits)) in
      let size : len ("demo-" ++ (name ++ ("-" ++ ms))) ≡ 6 + (len name + len ms) = omega (
        arith,
        len-append "demo-" (name ++ ("-" ++ ms)),
        len-append name ("-" ++ ms),
        len-append "-" ms,
      ) in
      ground (arith, chars, size)

  msg_id_given : is_empty (msg_id o name s) ≡ false
  unfolding msg_id
  msg_id_given = rw (cons-append) refl

  sent-IsSigned :
      is_empty (sign secret (msg_id o name s) (timestamp s) text) ≡ false
      → IsSigned req sent vendor_id
  unfolding request get_header
  sent-IsSigned given = record {
    id = carries.headers "webhook-id";
    id_given = msg_id_given;
    timestamp = carries.headers "webhook-timestamp";
    timestamp_given = is_empty-show (λ c. none) (timestamp s);
    signature = carries.headers "webhook-signature";
    signature_given = given;
    vendor = carries.headers "x-vendor-id";
    vendor_given = refl;
  }

  -- Where the demo vendor is active with the secret of the script, and the library verifies what it
  -- has signed, the API lets the request of the script in as that vendor. And where the name of the
  -- sample consists of admitted characters and leaves room for the clock's digits, the API admits
  -- the id.
  pub request_authenticated :
      (credentials : List VendorCredential) (cred : VendorCredential)
      → find? (is_active_vendor vendor_id) credentials ≡ some cred
      → cred.hmac_secret ≡ secret
      → verify_signature secret text sent ≡ ok tt
      → is_empty (sign secret (msg_id o name s) (timestamp s) text) ≡ false
      → all_id_chars name ≡ true
      → len name + len (show (time_ms s)) ≤ 250
      → (authenticate verify_signature credentials req ≡ ok (some cred))
        × (get_header "webhook-id" req.headers ≡ some (msg_id o name s))
        × (is_valid_id (msg_id o name s) ≡ true)
  unfolding request get_header
  request_authenticated credentials cred known same verified given chars size = (
    authenticate_signed verify_signature credentials req sent vendor_id cred (sent-IsSigned given)
        known (rw (same, carries.body) verified),
    carries.headers "webhook-id",
    msg_id_valid chars size,
  )

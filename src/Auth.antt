-- ===== src/Auth.antt =====
-- webhooks/auth.py: the authentication of a vendor by the signature over the raw body.
mod Tests
pub mod Sound
pub mod Complete
use glacis_webhook_service.Base.{
  String, Bool, true, false, Option, none, some, List, ◌==◌, ◌&&◌, not, Result, ok, err, find?,
  if◌then◌else◌,
}
use glacis_webhook_service.Base.Texts.{is_empty}
use glacis_webhook_service.Exceptions.{
  Exn, authentication_failed, webhook_verification_error, json_decode_error,
}
use glacis_webhook_service.Models.{VendorCredential}
use glacis_webhook_service.Responses.{get_header}

-- Header names are in lower case.
pub record AuthRequest : Type 0 where
  pub headers : List (String × String)
  pub body : String

-- The three headers that the library reads.
pub record SignedHeaders : Type 0 where
  pub webhook_id : String
  pub webhook_timestamp : String
  pub webhook_signature : String

-- A header that is missing or empty counts as missing.
pub present : String → AuthRequest → Option String
present name req = elim (get_header name req.headers) [
  | none ↦ none
  | some v ↦ if is_empty v then none else some v
]

-- `VendorCredential.objects.get(vendor_id=vendor_id, active=True)`
abbrev pub is_active_vendor : String → VendorCredential → Bool
is_active_vendor vendor_id c = c.vendor_id == vendor_id && c.active

all_present :
    Option String → Option String → Option String → Option String → Option (SignedHeaders × String)
all_present (some i) (some t) (some s) (some v) =
    some (record { webhook_id = i; webhook_timestamp = t; webhook_signature = s }, v)
all_present _ _ _ _ = none

-- The signed headers and the vendor id, if all four are there.
unfoldable pub signed_headers : AuthRequest → Option (SignedHeaders × String)
unfolding present all_present
signed_headers req =
    all_present (present "webhook-id" req) (present "webhook-timestamp" req)
      (present "webhook-signature" req) (present "x-vendor-id" req)

-- `Webhook(secret).verify(body, headers)` is a parameter.
module _ (verify_signature : String → String → SignedHeaders → Result Exn (Unit {0})) where
  -- A body that is signed but is no JSON is left to the view.
  pub accept : VendorCredential → Result Exn (Unit {0}) → Result Exn (Option VendorCredential)
  accept cred (err webhook_verification_error) = err (authentication_failed "invalid signature")
  accept cred (err (json_decode_error _)) = ok (some cred)
  accept cred (err e) = err e
  accept cred (ok _) = ok (some cred)

  pub check_signature :
      List VendorCredential → String → SignedHeaders × String → Result Exn (Option VendorCredential)
  unfolding accept
  check_signature credentials body (signed, vendor_id) =
      elim (find? (is_active_vendor vendor_id) credentials) [
        | none ↦ err (authentication_failed "invalid signature")
        | some cred ↦ accept cred (verify_signature cred.hmac_secret body signed)
      ]

  unfoldable pub authenticate :
      List VendorCredential → AuthRequest → Result Exn (Option VendorCredential)
  unfolding signed_headers check_signature
  authenticate credentials req = elim (signed_headers req) [
    | none ↦ ok none
    | some h ↦ check_signature credentials req.body h
  ]

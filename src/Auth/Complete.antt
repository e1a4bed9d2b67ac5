-- ===== src/Auth/Complete.antt =====
-- Whom the authentication of webhooks/auth.py lets in: every request that is signed well.
use glacis_webhook_service.Base.{◌≡◌, refl, String, false, some, List, find?, Result, ok}
use glacis_webhook_service.Base.Texts.{is_empty}
use glacis_webhook_service.Exceptions.{Exn}
use glacis_webhook_service.Models.{VendorCredential}
use glacis_webhook_service.Responses.{get_header}
use glacis_webhook_service.Auth.{
  AuthRequest, SignedHeaders, present, all_present, signed_headers, is_active_vendor, accept,
  check_signature, authenticate,
}

-- The four headers are there, and not empty.
pub record IsSigned (req : AuthRequest) (signed : SignedHeaders) (vendor_id : String) : Type 0 where
  pub id : get_header "webhook-id" req.headers ≡ some signed.webhook_id
  pub id_given : is_empty signed.webhook_id ≡ false
  pub timestamp : get_header "webhook-timestamp" req.headers ≡ some signed.webhook_timestamp
  pub timestamp_given : is_empty signed.webhook_timestamp ≡ false
  pub signature : get_header "webhook-signature" req.headers ≡ some signed.webhook_signature
  pub signature_given : is_empty signed.webhook_signature ≡ false
  pub vendor : get_header "x-vendor-id" req.headers ≡ some vendor_id
  pub vendor_given : is_empty vendor_id ≡ false

present_lem :
    (name v : String) (req : AuthRequest)
    → get_header name req.headers ≡ some v
    → is_empty v ≡ false
    → present name req ≡ some v
unfolding present
present_lem name v req h n = rw (h, present, n) refl

pub signed_headers_lem :
    (req : AuthRequest) (signed : SignedHeaders) (vendor_id : String)
    → IsSigned req signed vendor_id
    → signed_headers req ≡ some (signed, vendor_id)
unfolding signed_headers all_present
signed_headers_lem req signed vendor_id h =
    rw
      (
        present_lem _ _ req h.id h.id_given,
        present_lem _ _ req h.timestamp h.timestamp_given,
        present_lem _ _ req h.signature h.signature_given,
        present_lem _ _ req h.vendor h.vendor_given,
      )
      refl

-- A signed request of an active vendor, whose signature the library verifies, gets its credential.
pub authenticate_signed :
    (verify_signature : String → String → SignedHeaders → Result Exn (Unit {0}))
    (credentials : List VendorCredential) (req : AuthRequest) (signed : SignedHeaders)
    (vendor_id : String) (cred : VendorCredential)
    → IsSigned req signed vendor_id
    → find? (is_active_vendor vendor_id) credentials ≡ some cred
    → verify_signature cred.hmac_secret req.body signed ≡ ok tt
    → authenticate verify_signature credentials req ≡ ok (some cred)
unfolding authenticate check_signature accept
authenticate_signed verify_signature credentials req signed vendor_id cred h known verified =
    rw (signed_headers_lem req signed vendor_id h, authenticate, check_signature, known, verified)
      refl

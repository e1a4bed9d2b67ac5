-- ===== src/Auth/Tests.antt =====
-- Requests to authenticate.
use glacis_webhook_service.Base.{◌≡◌, ok, err, some, [], ◌∷◌, ◌==◌, if◌then◌else◌, refl}
use glacis_webhook_service.Exceptions.{Exn, webhook_verification_error}
use glacis_webhook_service.Models.{VendorCredential}
use glacis_webhook_service.Responses.{get_header}
use glacis_webhook_service.Auth.{
  AuthRequest, SignedHeaders, signed_headers, present, all_present, authenticate, check_signature,
  accept, String, true, Result,
}
use glacis_webhook_service.Auth.Sound.{Authenticated, authenticate-Authenticated}

-- A signature is right if it is the secret.
abbrev verify_secret : String → String → SignedHeaders → Result Exn (Unit {0})
verify_secret secret body signed =
    if signed.webhook_signature == secret then ok tt else err webhook_verification_error

abbrev acme : VendorCredential
acme = record { vendor_id = "acme"; hmac_secret = "s1"; active = true }

abbrev rotated : VendorCredential
rotated = record { vendor_id = "acme"; hmac_secret = "s2"; active = true }

abbrev request : AuthRequest
request = record {
  headers =
      ("webhook-id", "m1")
      ∷ ("webhook-timestamp", "1700000000")
      ∷ ("webhook-signature", "s1")
      ∷ ("x-vendor-id", "acme")
      ∷ [];
  body = "{}";
}

abbrev signed : SignedHeaders
signed = record { webhook_id = "m1"; webhook_timestamp = "1700000000"; webhook_signature = "s1" }

lets_in : authenticate verify_secret (acme ∷ []) request ≡ ok (some acme)
unfolding authenticate signed_headers present all_present check_signature accept get_header
lets_in = refl

authenticate-Authenticated_example : Authenticated verify_secret (acme ∷ []) request acme
authenticate-Authenticated_example =
    authenticate-Authenticated verify_secret (acme ∷ []) request acme lets_in

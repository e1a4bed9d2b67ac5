-- ===== src/Auth/Sound.antt =====
-- Whom the authentication lets in, and what a refusal tells.
use glacis_webhook_service.Base.{
  ◌≡◌, In, ◌⊎◌, inl, inr, refl, Option-cases, find?, ◌∷◌, subst, Bool-cases, sym, some_inj, [],
  ok_inj,
}
use glacis_webhook_service.Auth.{
  AuthRequest, SignedHeaders, signed_headers, accept, check_signature, authenticate,
  is_active_vendor, Bool, String, List, Result, some, ok, true, err, Option, none,
}
use glacis_webhook_service.Exceptions.{
  Exn, json_decode_error, authentication_failed, webhook_verification_error,
}
use glacis_webhook_service.Models.{VendorCredential}

find-In :
    (f : VendorCredential → Bool) (cs : List VendorCredential) (c : VendorCredential)
    → find? f cs ≡ some c
    → In c cs × (f c ≡ true)
find-In f [] c h = absurd (none_is_no_credential h)
  where
    none_is_no_credential : ◌≡◌ {A = Option VendorCredential} none (some c) → ⊥
    none_is_no_credential q = cc
find-In f (x ∷ cs) c h = elim (Bool-cases (f x)) [
  | inl t ↦ (inl (sym (some_inj (rw t at h))), subst (λ y. f y ≡ true) (some_inj (rw t at h)) t)
  | inr n ↦ (let (i, q) = find-In f cs c (rw n at h) in (inr i, q))
]

module _ (verify_signature : String → String → SignedHeaders → Result Exn (Unit {0})) where
  -- The credential is an active one of the vendor that the request names, and the library has
  -- verified the signature of the body with its secret.
  pub record Authenticated (credentials : List VendorCredential) (req : AuthRequest)
      (cred : VendorCredential) : Type 0 where
    pub signed : SignedHeaders
    pub vendor_id : String
    pub given : signed_headers req ≡ some (signed, vendor_id)
    pub known : In cred credentials
    pub active : is_active_vendor vendor_id cred ≡ true
    pub verified :
        (verify_signature cred.hmac_secret req.body signed ≡ ok tt)
        ⊎ ((e : String) × (verify_signature cred.hmac_secret req.body signed
              ≡ err (json_decode_error e)))

  accept_lem :
      (c cred : VendorCredential) (r : Result Exn (Unit {0}))
      → accept verify_signature c r ≡ ok (some cred)
      → (c ≡ cred) × ((r ≡ ok tt) ⊎ ((e : String) × (r ≡ err (json_decode_error e))))
  unfolding accept
  accept_lem c cred (ok _) h = (some_inj (ok_inj h), inl refl)
  accept_lem c cred (err (json_decode_error e)) h = (some_inj (ok_inj h), inr (e, refl))
  accept_lem c cred (err webhook_verification_error) h = cc
  accept_lem c cred (err _) h = cc

  -- A credential is only returned for a request that it authenticates.
  pub authenticate-Authenticated :
      (credentials : List VendorCredential) (req : AuthRequest) (cred : VendorCredential)
      → authenticate verify_signature credentials req ≡ ok (some cred)
      → Authenticated credentials req cred
  unfolding authenticate check_signature
  authenticate-Authenticated credentials req cred h = elim (Option-cases (signed_headers req)) [
    | inl e ↦ absurd (nobody (rw (e, authenticate) at h))
    | inr ((signed, vendor_id), e) ↦
        elim (Option-cases (find? (is_active_vendor vendor_id) credentials)) [
          | inl q ↦ absurd (refused (rw (e, q, authenticate, check_signature) at h))
          | inr (c, q) ↦
              let (known, active) = find-In (is_active_vendor vendor_id) credentials c q in
              let (same, verified) =
                accept_lem c cred (verify_signature c.hmac_secret req.body signed)
                  (rw (e, q, authenticate, check_signature) at h) in
              subst (Authenticated credentials req) same (record {
                signed = signed;
                vendor_id = vendor_id;
                given = e;
                known = known;
                active = active;
                verified = verified;
              })
        ]
  ]
    where
      nobody : ◌≡◌ {A = Result Exn (Option VendorCredential)} (ok none) (ok (some cred)) → ⊥
      nobody q = cc

      refused :
          ◌≡◌ {A = Result Exn (Option VendorCredential)}
            (err (authentication_failed "invalid signature"))
            (ok (some cred))
          → ⊥
      refused q = cc

  -- A caller cannot tell a vendor that is unknown or inactive from one whose signature is wrong:
  -- the two refusals are the same.
  pub refusals_agree :
      (cs ds : List VendorCredential) (req : AuthRequest) (signed : SignedHeaders)
      (vendor_id : String) (cred : VendorCredential)
      → signed_headers req ≡ some (signed, vendor_id)
      → find? (is_active_vendor vendor_id) cs ≡ none
      → find? (is_active_vendor vendor_id) ds ≡ some cred
      → verify_signature cred.hmac_secret req.body signed ≡ err webhook_verification_error
      → authenticate verify_signature cs req ≡ authenticate verify_signature ds req
  unfolding authenticate check_signature accept
  refusals_agree cs ds req signed vendor_id cred h q r v =
      rw (authenticate, h, check_signature, q, r, v) refl

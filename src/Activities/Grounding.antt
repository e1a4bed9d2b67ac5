-- ===== src/Activities/Grounding.antt =====
-- A foreign-key record comes only from an extraction that is valid and was verified.
use glacis_webhook_service.Base.{
  In, ◌≡◌, ◌++◌, ◌∷◌, ◌⊎◌, [], arith, inl, inr, sym, ⊎_map, ap, Bool-cases, subst, refl,
  Result-cases, >>=-eq-ok, Option-cases, ok_inj, ◌∙◌,
}
use glacis_webhook_service.Exceptions.{Exn}
use glacis_webhook_service.Json.{Json, str, obj, Members}
use glacis_webhook_service.Json.Access.{get, is_str}
use glacis_webhook_service.Codec.{Codec}
use glacis_webhook_service.Domain.{value, ClassificationResult, VerificationResult}
use glacis_webhook_service.Domain.Pydantic.{
  Pydantic, validate_classification_result, validate_verification_result,
}
use glacis_webhook_service.Models.{ShipmentRecord, InvoiceRecord, FkRecord, Db, WebhookEvent}
use glacis_webhook_service.Storage.{save, store_and_complete}
use glacis_webhook_service.Storage.Records.{record_builder}
use glacis_webhook_service.Storage.Records.Built.{type_of, event_of, Copies, record_builder_lem}
use glacis_webhook_service.Llm.{Llm}
use glacis_webhook_service.Activities.Reached.{on_database-keeps}
use glacis_webhook_service.Activities.{
  Worker, store, guarded_reason, get_or, apply_builder, persist_prepared, message_of, build_record,
  validate_verification, prepare, Prepared, persist_schema_rejected, persist_classification,
  is_unclassified, String, List, Option, ok, none, some, true, ℕ, Bool, Result,
}

-- The record is in its table.
abbrev pub HasRecord : FkRecord → Db → Type 0
HasRecord (FkRecord.shipment r) db = In r db.shipments
HasRecord (FkRecord.invoice r) db = In r db.invoices

In-last : {A : Type 0} (a x : A) (xs : List A) → In a (xs ++ x ∷ []) → In a xs ⊎ (x ≡ a)
In-last a x [] (inl p) = inr (sym p)
In-last a x [] (inr h) = absurd h
In-last a x (y ∷ xs) (inl p) = inl (inl p)
In-last a x (y ∷ xs) (inr h) = ⊎_map inr (λ p. p) (In-last a x xs h)

-- A save adds the record that it is given, and no other.
save_shipment :
    (j : ShipmentRecord) (db db' : Db)
    → save (FkRecord.shipment j) db ≡ ok db'
    → record db { shipments = db.shipments ++ j ∷ [] } ≡ db'
unfolding save
save_shipment j db db' h = ground arith

save_invoice :
    (j : InvoiceRecord) (db db' : Db)
    → save (FkRecord.invoice j) db ≡ ok db'
    → record db { invoices = db.invoices ++ j ∷ [] } ≡ db'
unfolding save
save_invoice j db db' h = ground arith

saved_only :
    (k j : FkRecord) (db db' : Db) → save j db ≡ ok db' → HasRecord k db' → HasRecord k db ⊎ (j ≡ k)
saved_only (FkRecord.shipment k) (FkRecord.shipment j) db db' e h =
    ⊎_map (λ x. x) (ap FkRecord.shipment)
      (In-last k j db.shipments (subst (λ d. In k d.shipments) (sym (save_shipment j db db' e)) h))
saved_only (FkRecord.shipment k) (FkRecord.invoice j) db db' e h =
    inl (subst (λ d. In k d.shipments) (sym (save_invoice j db db' e)) h)
saved_only (FkRecord.invoice k) (FkRecord.shipment j) db db' e h =
    inl (subst (λ d. In k d.invoices) (sym (save_shipment j db db' e)) h)
saved_only (FkRecord.invoice k) (FkRecord.invoice j) db db' e h =
    ⊎_map (λ x. x) (ap FkRecord.invoice)
      (In-last k j db.invoices (subst (λ d. In k d.invoices) (sym (save_invoice j db db' e)) h))

-- The update of the events leaves the records alone.
pub HasRecord-events :
    (k : FkRecord) (db : Db) (es : List WebhookEvent)
    → HasRecord k (record db { events = es })
    → HasRecord k db
HasRecord-events (FkRecord.shipment k) db es h = h
HasRecord-events (FkRecord.invoice k) db es h = h

-- The transaction adds at most the record that it is given.
stored_only :
    (now : ℕ) (key event_id event_type : String) (normalized_data : Members) (o : Option FkRecord)
    (review : Bool) (db : Db) (k : FkRecord)
    → HasRecord k (store_and_complete now key event_id event_type normalized_data o review db).1
    → HasRecord k db ⊎ (o ≡ some k)
unfolding store_and_complete
stored_only now key event_id event_type normalized_data none review db k h =
    inl (HasRecord-events k db _ h)
stored_only now key event_id event_type normalized_data (some j) review db k h =
    elim (Result-cases (save j db)) [
      | inl (db', p) ↦
          ⊎_map (λ x. x) (ap some)
            (saved_only k j db db' p (HasRecord-events k db' _ (rw (p, store_and_complete) at h)))
      | inr (e, p) ↦ inl (rw (p, store_and_complete) at h)
    ]

none_reason :
    (result : ClassificationResult) (o : Option VerificationResult)
    → guarded_reason result o ≡ none
    → (is_unclassified result.event_type ≡ true)
      ⊎ ((v : VerificationResult) × (o ≡ some v) × (v.grounded ≡ true))
unfolding guarded_reason
none_reason result none h = ground arith
none_reason result (some v) h = elim (Bool-cases v.grounded) [
  | inl t ↦ inr (v, refl, t)
  | inr n ↦ inl (ground arith)
]

type_of_lem : (k : FkRecord) → is_unclassified (type_of k) ≡ true → ⊥
type_of_lem (FkRecord.shipment r) h = cc
type_of_lem (FkRecord.invoice r) h = cc

module _ (c : Codec) (p : Pydantic) (llm : Llm) where
  -- What stands behind a record: the classification is valid, has the record's type and holds the
  -- record's fields, and the verifier found all of its fields in the payload.
  pub record Trusted (event_id : String) (d : Members) (v : Option Members) (k : FkRecord)
      : Type 0 where
    pub result : ClassificationResult
    pub valid : validate_classification_result p (get_or "result" (obj d) d) ≡ ok result
    pub typed : type_of k ≡ result.event_type
    pub inner : Members
    pub extracted : get_or "result" (obj d) d ≡ obj inner
    pub copied : Copies k inner
    pub event : event_of k ≡ event_id
    pub verification : Members
    pub given : v ≡ some verification
    pub verdict : VerificationResult
    pub verified : validate_verification_result p (obj verification) ≡ ok verdict
    pub grounded : verdict.grounded ≡ true

  apply_builder_lem :
      (builder : String → Members → Result Exn (Option FkRecord)) (event_id : String) (inner : Json)
      (k : FkRecord)
      → apply_builder llm c p builder event_id inner ≡ ok (some k)
      → (m : Members) × (inner ≡ obj m) × (builder event_id m ≡ ok (some k))
  unfolding apply_builder
  apply_builder_lem builder event_id (obj m) k h = (m, refl, h)
  apply_builder_lem builder event_id _ k h = cc

  build_record_lem :
      (event_id : String) (reason : Option String) (result : ClassificationResult) (inner : Json)
      (k : FkRecord)
      → build_record llm c p event_id reason result inner ≡ ok (some k)
      → (reason ≡ none)
        × (type_of k ≡ result.event_type)
        × (event_of k ≡ event_id)
        × (m : Members) × (inner ≡ obj m)
        × Copies k m
  unfolding build_record
  build_record_lem event_id (some r) result inner k h = absurd (cc h)
  build_record_lem event_id none result inner k h =
      elim (Option-cases (record_builder (value result.event_type))) [
        | inl e ↦ absurd (not_built (rw (e, build_record) at h))
        | inr (builder, e) ↦
            let (m, same, q) =
              apply_builder_lem builder event_id inner k (rw (e, build_record) at h) in
            let (t, i, copied) = record_builder_lem result.event_type builder event_id m k e q in
            (refl, t, i, m, same, copied)
      ]
    where
      not_built : ◌≡◌ {A = Result Exn (Option FkRecord)} (ok none) (ok (some k)) → ⊥
      not_built q = cc

  pub verification_lem :
      (v : Option Members) (verdict : VerificationResult)
      → validate_verification llm c p v ≡ ok (some verdict)
      → (m : Members) × (v ≡ some m) × (validate_verification_result p (obj m) ≡ ok verdict)
  unfolding validate_verification
  verification_lem none verdict h = cc
  verification_lem (some m) verdict h =
      let (x, q, e) = >>=-eq-ok (validate_verification_result p (obj m)) _ h in (m, refl, cc (q, e))

  pub not_validated : (v : Option Members) → validate_verification llm c p v ≡ ok none → v ≡ none
  unfolding validate_verification
  not_validated none h = refl
  not_validated (some m) h =
      let (x, q, e) = >>=-eq-ok (validate_verification_result p (obj m)) _ h in absurd (clash e)
    where
      clash :
          {x : VerificationResult}
          → ◌≡◌ {A = Result Exn (Option VerificationResult)} (ok (some x)) (ok none)
          → ⊥
      clash q = cc

  pub prepare-Trusted :
      (event_id : String) (d : Members) (v : Option Members) (x : Prepared llm c p) (k : FkRecord)
      → prepare llm c p event_id d v ≡ ok x
      → x.fk_record ≡ some k
      → Trusted event_id d v k
  unfolding prepare
  prepare-Trusted event_id d v x k h e =
      let inner = get_or "result" (obj d) d in
      let (result, valid, h1) = >>=-eq-ok (validate_classification_result p inner) _ h in
      let (verdict?, q, h2) = >>=-eq-ok (validate_verification llm c p v) _ h1 in
      let (fk, r, h3) =
        >>=-eq-ok (build_record llm c p event_id (guarded_reason result verdict?) result inner) _
          h2 in
      let made : fk ≡ some k = ap (λ y. y.fk_record) (ok_inj h3) ∙ e in
      let (no_reason, typed, event, m, extracted, copied) =
        build_record_lem event_id (guarded_reason result verdict?) result inner k
          (r ∙ ap ok made) in
      elim (none_reason result verdict? no_reason) [
        | inl u ↦ absurd (type_of_lem k (rw typed u))
        | inr (verdict, given, grounded) ↦
            let (n, same, verified) = verification_lem v verdict (q ∙ ap ok given) in
            record {
              result = result;
              valid = valid;
              typed = typed;
              inner = m;
              extracted = extracted;
              copied = copied;
              event = event;
              verification = n;
              given = same;
              verdict = verdict;
              verified = verified;
              grounded = grounded;
            }
      ]

  rejected_adds_none :
      (key event_id : String) (d : Members) (w : Worker llm) (k : FkRecord)
      → HasRecord k (persist_schema_rejected llm c p key event_id d w).1.db
      → HasRecord k w.db
  unfolding persist_schema_rejected store
  rejected_adds_none key event_id d w k h =
      elim (Result-cases (message_of llm c p (get_or "validation_message" (str "") d))) [
        | inl (m, q) ↦
            on_database-keeps (λ v. HasRecord k v.db → HasRecord k w.db) w.database w _ (λ x. x)
              (λ x. elim (stored_only w.now key event_id _ _ none true w.db k x) [
                | inl before ↦ before
                | inr added ↦ absurd (none_is_no_record added)
              ])
              (rw (q, persist_schema_rejected) at h)
        | inr (e, q) ↦ rw (q, persist_schema_rejected) at h
      ]
    where
      none_is_no_record : ◌≡◌ {A = Option FkRecord} none (some k) → ⊥
      none_is_no_record q = cc

  -- A record appears in the tables only from an activity whose classification is valid and has the
  -- record's type, and whose verification is given and says that all fields are grounded.
  pub persist_classification-Trusted :
      (key event_id : String) (d : Members) (v : Option Members) (w : Worker llm) (k : FkRecord)
      → HasRecord k (persist_classification llm c p key event_id d v w).1.db
      → HasRecord k w.db ⊎ Trusted event_id d v k
  unfolding persist_classification store
  persist_classification-Trusted key event_id d v w k h =
      elim (Bool-cases (is_str "schema_rejected" (get "kind" d))) [
        | inl t ↦ inl (rejected_adds_none key event_id d w k (rw t at h))
        | inr n ↦ prepared_adds (rw n at h)
      ]
    where
      prepared_adds :
          HasRecord k (persist_prepared llm c p key event_id d v w).1.db
          → HasRecord k w.db ⊎ Trusted event_id d v k
      prepared_adds h = elim (Result-cases (prepare llm c p event_id d v)) [
        | inl (x, q) ↦
            ⊎_map (λ y. y) (prepare-Trusted event_id d v x k q)
              (on_database-keeps (λ v. HasRecord k v.db → HasRecord k w.db ⊎ (x.fk_record ≡ some k))
                w.database w _ inl
                (stored_only w.now key event_id x.event_type x.normalized_data x.fk_record
                  x.requires_review w.db k)
                (rw (q, persist_prepared) at h))
        | inr (e, q) ↦ inl (rw (q, persist_prepared) at h)
      ]

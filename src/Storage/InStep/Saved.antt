-- ===== src/Storage/InStep/Saved.antt =====
-- Which events have a record: only known ones, and a save adds that of its event alone.
use glacis_webhook_service.Base.{
  String, Bool, true, not, ◌||◌, ◌≡◌, refl, Option, none, some, List, [], ◌∷◌, ◌++◌, map, any,
  arith, inl, inr, ◌⊎◌, Bool-cases, subst, ok, ◌==◌, eq_iff, ok_inj, Result, sym, err, ⊎_map, ◌∙◌,
}
use glacis_webhook_service.Models.{WebhookEvent, FkRecord, Db}
use glacis_webhook_service.Storage.{save, save_optional, has_id}
use glacis_webhook_service.Storage.Consistency.{IsConsistent, Known}
use glacis_webhook_service.Exceptions.{Exn}
use glacis_webhook_service.Storage.Records.Built.{event_of}
use glacis_webhook_service.Activities.Settles.{IsRecorded}

-- A record's event is in the table.
recorded-Known :
    {A : Type 0} (f : A → String) (es : List WebhookEvent) (rs : List A) (i : String)
    → Known es (map f rs)
    → any (λ r. f r == i) rs ≡ true
    → any (has_id i) es ≡ true
recorded-Known f es [] i k h = absurd (cc h)
recorded-Known f es (r ∷ rs) i (p, k) h = elim (Bool-cases (f r == i)) [
  | inl t ↦ subst (λ j. any (has_id j) es ≡ true) ((eq_iff (f r) i).0 t) p
  | inr n ↦ recorded-Known f es rs i k (ground arith)
]

pub IsRecorded-known :
    (i : String) (db : Db) → IsConsistent db → IsRecorded i db → any (has_id i) db.events ≡ true
IsRecorded-known i db c (inl h) =
    recorded-Known (λ r. r.webhook_event) db.events db.shipments i c.shipments_known h
IsRecorded-known i db c (inr h) =
    recorded-Known (λ r. r.webhook_event) db.events db.invoices i c.invoices_known h

any-last_inv {ℓ} :
    {A : Type ℓ} (q : A → Bool) (xs : List A) (a : A)
    → any q (xs ++ a ∷ []) ≡ true
    → (any q xs ≡ true) ⊎ (q a ≡ true)
any-last_inv q [] a h = ground arith
any-last_inv q (x ∷ xs) a h = ground (arith, any-last_inv q xs a)

record_refused : {x : Exn} {db : Db} → ◌≡◌ {A = Result Exn Db} (err x) (ok db) → ⊥
record_refused q = cc

-- A save adds a record of its event alone.
save-IsRecorded :
    (r : FkRecord) (db db' : Db) (i : String)
    → save r db ≡ ok db'
    → IsRecorded i db'
    → IsRecorded i db ⊎ (i ≡ event_of r)
unfolding save
save-IsRecorded (FkRecord.shipment r) db db' i h g =
    elim (Bool-cases (
      not (any (has_id r.webhook_event) db.events)
      || any (λ s. s.webhook_event == r.webhook_event) db.shipments)) [
        | inl t ↦ absurd (record_refused (rw t at h))
        | inr n ↦ elim (subst (IsRecorded i) (sym (ok_inj (rw n at h))) g) [
          | inl p ↦ elim (any-last_inv (λ s. s.webhook_event == i) db.shipments r p) [
            | inl old ↦ inl (inl old)
            | inr new ↦ inr (sym ((eq_iff r.webhook_event i).0 new))
          ]
          | inr p ↦ inl (inr p)
        ]
      ]
save-IsRecorded (FkRecord.invoice r) db db' i h g =
    elim (Bool-cases (
      not (any (has_id r.webhook_event) db.events)
      || any (λ s. s.webhook_event == r.webhook_event) db.invoices)) [
        | inl t ↦ absurd (record_refused (rw t at h))
        | inr n ↦ elim (subst (IsRecorded i) (sym (ok_inj (rw n at h))) g) [
          | inl p ↦ inl (inl p)
          | inr p ↦ elim (any-last_inv (λ s. s.webhook_event == i) db.invoices r p) [
            | inl old ↦ inl (inr old)
            | inr new ↦ inr (sym ((eq_iff r.webhook_event i).0 new))
          ]
        ]
      ]

pub saved-IsRecorded :
    (o : Option FkRecord) (event_id : String) (db db' : Db) (i : String)
    → ((r : FkRecord) → o ≡ some r → event_of r ≡ event_id)
    → save_optional o db ≡ ok db'
    → IsRecorded i db'
    → IsRecorded i db ⊎ (i ≡ event_id)
unfolding save_optional
saved-IsRecorded none event_id db db' i of h g = inl (subst (IsRecorded i) (sym (ok_inj h)) g)
saved-IsRecorded (some r) event_id db db' i of h g =
    ⊎_map (λ k. k) (λ q. q ∙ of r refl) (save-IsRecorded r db db' i h g)

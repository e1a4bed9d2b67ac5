-- ===== src/Admin/Promotion.antt =====
-- What the two actions on the review queue do to the rows.
use glacis_webhook_service.Base.{
  ◌≡◌, ◌+◌, length, filter, arith, ◌==◌, ◌≤◌, ◌⊎◌, [], ◌++◌, Bool-cases, inr, inl, some_inj, ap,
  none, ok_inj, ⊎_map, subst, eq_refl, refl,
}
use glacis_webhook_service.Storage.Records.Built.{event_of, shipment_from_lem, invoice_from_lem}
use glacis_webhook_service.Json.Access.{get}
use glacis_webhook_service.Models.{WebhookEvent, Db, FkRecord}
use glacis_webhook_service.Admin.{
  normalized, Counts, is_rejected, is_resolvable, approve_one, promote_with, promotable,
  promote_part, get_or_create, clear_id, mark_resolved, List, Bool, any, not, true, ◌∷◌, String,
  some, Option, ok, Json, Result, false, Exn, truthy_get, has_type, err, EventType, shipment_from,
  invoice_from,
}

counts_lem :
    (rows : List WebhookEvent)
    → length (filter (λ e. not e.requires_review) rows) + length (filter is_resolvable rows)
      ≤ length rows
counts_lem [] = omega arith
counts_lem (e ∷ rows) = let h = counts_lem rows in ground arith

-- The three numbers that `mark_resolved` reports are a partition of the selected rows: the
-- differences that it takes never stop at zero.
pub mark_resolved_counts :
    (selected : WebhookEvent → Bool) (db : Db)
    → let r = (mark_resolved selected db).0 in
      (r.already_done + r.cleared) + r.not_eligible ≡ length (filter selected db.events)
unfolding mark_resolved
mark_resolved_counts selected db = let h = counts_lem (filter selected db.events) in omega arith

-- A record of the event is in its table.
abbrev pub IsPromoted : WebhookEvent → Db → Type 0
IsPromoted e db =
    (any (λ s. s.webhook_event == e.id) db.shipments ≡ true)
    ⊎ (any (λ s. s.webhook_event == e.id) db.invoices ≡ true)

any-append :
    {A : Type 0} (f : A → Bool) (xs : List A) (x : A) → f x ≡ true → any f (xs ++ x ∷ []) ≡ true
any-append f [] x h = ground arith
any-append f (y ∷ xs) x h = ground (arith, any-append f xs x h)

created :
    (e : WebhookEvent) (r : FkRecord) (db : Db)
    → event_of r ≡ e.id
    → IsPromoted e (get_or_create r db)
unfolding get_or_create
created e (FkRecord.shipment r) db h =
    elim (Bool-cases (any (λ s. s.webhook_event == r.webhook_event) db.shipments)) [
      | inl t ↦ inl (
          subst
            (λ i.
              any (λ s. s.webhook_event == i) (get_or_create (FkRecord.shipment r) db).shipments
              ≡ true)
            h (rw (get_or_create, t) t))
      | inr n ↦ inl (
          subst
            (λ i.
              any (λ s. s.webhook_event == i) (get_or_create (FkRecord.shipment r) db).shipments
              ≡ true)
            h
            (rw (get_or_create, n)
              (any-append (λ s. s.webhook_event == r.webhook_event) db.shipments r
                (eq_refl r.webhook_event))))
    ]
created e (FkRecord.invoice r) db h =
    elim (Bool-cases (any (λ s. s.webhook_event == r.webhook_event) db.invoices)) [
      | inl t ↦ inr (
          subst
            (λ i.
              any (λ s. s.webhook_event == i) (get_or_create (FkRecord.invoice r) db).invoices
              ≡ true)
            h (rw (get_or_create, t) t))
      | inr n ↦ inr (
          subst
            (λ i.
              any (λ s. s.webhook_event == i) (get_or_create (FkRecord.invoice r) db).invoices
              ≡ true)
            h
            (rw (get_or_create, n)
              (any-append (λ s. s.webhook_event == r.webhook_event) db.invoices r
                (eq_refl r.webhook_event))))
    ]

part_lem :
    (from : String → Json → Result Exn FkRecord) (id : String) (o : Option Json) (r : FkRecord)
    → promote_part from id o ≡ some (ok r)
    → (v : Json) × (from id v ≡ ok r)
unfolding promote_part
part_lem from id none r h = cc
part_lem from id (some v) r h = elim (Bool-cases (truthy_get (some v))) [
  | inl t ↦ (v, some_inj (rw (t, promote_part) at h))
  | inr n ↦ absurd (cc (rw (n, promote_part) at h))
]

promotable_event :
    (e : WebhookEvent) (r : FkRecord) → promotable e ≡ some (ok r) → event_of r ≡ e.id
unfolding promotable
promotable_event e r h = elim (Bool-cases (has_type EventType.shipment e)) [
  | inl t ↦
      (let (v, q) =
          part_lem shipment_from e.id (get "shipment" (normalized e)) r (rw (t, promotable) at h) in
        (shipment_from_lem e.id v r q).1)
  | inr n ↦ elim (Bool-cases (has_type EventType.invoice e)) [
    | inl t ↦
        (let (v, q) =
            part_lem invoice_from e.id (get "invoice" (normalized e)) r
              (rw (n, t, promotable) at h) in
          (invoice_from_lem e.id v r q).1)
    | inr m ↦ absurd (cc (rw (n, m, promotable) at h))
  ]
]

promote_with_lem :
    (e : WebhookEvent) (o : Option (Result Exn FkRecord)) (c c' : Counts) (db db' : Db)
    → ((r : FkRecord) → o ≡ some (ok r) → event_of r ≡ e.id)
    → promote_with e o (c, db) ≡ ok (c', db')
    → (db ≡ db') ⊎ IsPromoted e db'
unfolding promote_with clear_id
promote_with_lem e none c c' db db' f h = inl (ap (λ x. x.1) (ok_inj h))
promote_with_lem e (some (err x)) c c' db db' f h = cc
promote_with_lem e (some (ok r)) c c' db db' f h =
    inr (subst (IsPromoted e) (ap (λ x. x.1) (ok_inj h)) (kept (created e r db (f r refl))))
  where
    kept : IsPromoted e (get_or_create r db) → IsPromoted e (clear_id e.id (get_or_create r db))
    kept h = h

-- One turn of "approve" either leaves the tables alone, or it was on a row under review that is not
-- schema-rejected, and then the row's record is in its table.
pub approve_one_lem :
    (e : WebhookEvent) (c c' : Counts) (db db' : Db)
    → approve_one e (c, db) ≡ ok (c', db')
    → (db ≡ db') ⊎ ((e.requires_review ≡ true) × (is_rejected e ≡ false) × IsPromoted e db')
unfolding approve_one
approve_one_lem e c c' db db' h = elim (Bool-cases e.requires_review) [
  | inr n ↦ inl (ap (λ x. x.1) (ok_inj (rw (n, approve_one) at h)))
  | inl t ↦ elim (Bool-cases (is_rejected e)) [
    | inl j ↦ inl (ap (λ x. x.1) (ok_inj (rw (t, j, approve_one) at h)))
    | inr m ↦
        ⊎_map (λ x. x) (λ x. (t, m, x))
          (promote_with_lem e (promotable e) c c' db db' (promotable_event e)
            (rw (t, m, approve_one) at h))
  ]
]

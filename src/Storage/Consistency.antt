-- ===== src/Storage/Consistency.antt =====
-- The constraints of the tables: unique keys and ids, one record of a kind for an event, and no
-- record without its event. Every helper of webhooks/storage.py that writes keeps them.
use glacis_webhook_service.Base.{
  some, none, ◌∙◌, ◌==◌, All, ◌++◌, ◌≡◌, false, true, ◌||◌, arith, [], eq_iff, refl, Option, ℕ,
  Bool-cases, ok, inl, subst, inr, ok_inj, ap, Result-cases, some, not,
}
use glacis_webhook_service.Models.{WebhookEvent, FkRecord, Db}
use glacis_webhook_service.Storage.{
  has_key, has_id, update_live, start_processing, finish, complete, is_terminal, save,
  save_optional, insert_webhook_event, mark_processing_status, mark_terminal_status,
  store_and_complete, fresh_event, String, List, map, ◌∷◌, Bool, any, Members, is_too_long,
}
use glacis_webhook_service.Storage.Rows.{
  IsWrite, update_live-id, update_live-key, any-id-update, any-key-update,
}
use glacis_webhook_service.Storage.History.{
  Write, Reach, insert, mark_processing, mark_terminal, store, here, next, start_processing-IsWrite,
  finish-IsWrite, complete-IsWrite,
}

-- No two members have the same text.
abbrev pub Distinct {ℓ} : {A : Type ℓ} → (A → String) → List A → Type 0
Distinct f [] = Unit
Distinct f (x ∷ xs) = (any (λ y. f y == f x) xs ≡ false) × Distinct f xs

abbrev pub Known : List WebhookEvent → (List String) → Type 0
Known es ids = All (λ i. any (has_id i) es ≡ true) ids

pub record IsConsistent (db : Db) : Type 0 where
  pub keys : Distinct (λ e. e.idempotency_key) db.events
  pub ids : Distinct (λ e. e.id) db.events
  pub shipment_events : Distinct (λ r. r.webhook_event) db.shipments
  pub invoice_events : Distinct (λ r. r.webhook_event) db.invoices
  pub shipments_known : Known db.events (map (λ r. r.webhook_event) db.shipments)
  pub invoices_known : Known db.events (map (λ r. r.webhook_event) db.invoices)

module _ {ℓ} {A : Type ℓ} (f : A → String) where
  any-append : (p : A → Bool) (xs ys : List A) → any p (xs ++ ys) ≡ (any p xs || any p ys)
  any-append p [] ys = refl
  any-append p (x ∷ xs) ys = ground (arith, any-append p xs ys)

  -- A member may be added at the end when no member has its text.
  Distinct-append :
      (xs : List A) (x : A)
      → Distinct f xs
      → any (λ y. f y == f x) xs ≡ false
      → Distinct f (xs ++ x ∷ [])
  Distinct-append [] x d h = (refl, tt)
  Distinct-append (y ∷ xs) x (n, d) h = (
    ground
        (arith, any-append (λ z. f z == f y) xs (x ∷ []), eq_iff (f x) (f y), eq_iff (f y) (f x)),
    Distinct-append xs x d (ground arith),
  )

Known-mono :
    (es fs : List WebhookEvent) (ids : List String)
    → ((i : String) → any (has_id i) es ≡ true → any (has_id i) fs ≡ true)
    → Known es ids
    → Known fs ids
Known-mono es fs [] m h = tt
Known-mono es fs (i ∷ ids) m (p, h) = (m i p, Known-mono es fs ids m h)

Known-append :
    (es : List WebhookEvent) (ids : List String) (i : String)
    → Known es ids
    → any (has_id i) es ≡ true
    → Known es (ids ++ i ∷ [])
Known-append es [] i h p = (p, tt)
Known-append es (j ∷ ids) i (q, h) p = (q, Known-append es ids i h p)

module _ (key : String) (f : WebhookEvent → WebhookEvent) (w : IsWrite f) where
  Distinct-keys-update :
      (es : List WebhookEvent)
      → Distinct (λ e. e.idempotency_key) es
      → Distinct (λ e. e.idempotency_key) (map (update_live key f) es)
  Distinct-keys-update [] d = tt
  Distinct-keys-update (e ∷ es) (n, d) = (
    rw (update_live-key key f w e) (any-key-update key f w e.idempotency_key es ∙ n),
    Distinct-keys-update es d,
  )

  Distinct-ids-update :
      (es : List WebhookEvent)
      → Distinct (λ e. e.id) es
      → Distinct (λ e. e.id) (map (update_live key f) es)
  Distinct-ids-update [] d = tt
  Distinct-ids-update (e ∷ es) (n, d) =
      (rw (update_live-id key f w e) (any-id-update key f w e.id es ∙ n), Distinct-ids-update es d)

  -- The guarded update of all rows keeps every constraint.
  update-IsConsistent :
      (db : Db)
      → IsConsistent db
      → IsConsistent (record db { events = map (update_live key f) db.events })
  update-IsConsistent db c = record {
    keys = Distinct-keys-update db.events c.keys;
    ids = Distinct-ids-update db.events c.ids;
    shipment_events = c.shipment_events;
    invoice_events = c.invoice_events;
    shipments_known =
        Known-mono db.events _ _ (λ i h. any-id-update key f w i db.events ∙ h) c.shipments_known;
    invoices_known =
        Known-mono db.events _ _ (λ i h. any-id-update key f w i db.events ∙ h) c.invoices_known;
  }

map-append_one {ℓ} :
    {A : Type ℓ} (f : A → String) (xs : List A) (x : A)
    → map f (xs ++ x ∷ []) ≡ map f xs ++ f x ∷ []
map-append_one f [] x = refl
map-append_one f (y ∷ xs) x = rw (map-append_one f xs x)

save-IsConsistent :
    (fk_record : Option FkRecord) (db : Db) {db' : Db}
    → save_optional fk_record db ≡ ok db'
    → IsConsistent db
    → IsConsistent db'
unfolding save_optional save
save-IsConsistent none db h c = subst IsConsistent (ok_inj h) c
save-IsConsistent (some (FkRecord.shipment r)) db h c =
    elim (Bool-cases (
      not (any (has_id r.webhook_event) db.events)
      || any (λ s. s.webhook_event == r.webhook_event) db.shipments)) [
        | inl t ↦ cc
        | inr n ↦ subst IsConsistent (ok_inj (rw n at h)) (record {
          keys = c.keys;
          ids = c.ids;
          shipment_events =
              Distinct-append (λ s. s.webhook_event) db.shipments r c.shipment_events
                (ground arith);
          invoice_events = c.invoice_events;
          shipments_known =
              rw map-append_one
                (Known-append db.events _ r.webhook_event c.shipments_known (ground arith));
          invoices_known = c.invoices_known;
        })
      ]
save-IsConsistent (some (FkRecord.invoice r)) db h c =
    elim (Bool-cases (
      not (any (has_id r.webhook_event) db.events)
      || any (λ s. s.webhook_event == r.webhook_event) db.invoices)) [
        | inl t ↦ cc
        | inr n ↦ subst IsConsistent (ok_inj (rw n at h)) (record {
          keys = c.keys;
          ids = c.ids;
          shipment_events = c.shipment_events;
          invoice_events =
              Distinct-append (λ s. s.webhook_event) db.invoices r c.invoice_events (ground arith);
          shipments_known = c.shipments_known;
          invoices_known =
              rw map-append_one
                (Known-append db.events _ r.webhook_event c.invoices_known (ground arith));
        })
      ]

insert-IsConsistent :
    (id : String) (now : ℕ) (key : String) (payload : Members) (vendor : String) (db : Db)
    → IsConsistent db
    → IsConsistent (insert_webhook_event id now key payload vendor db).1
unfolding insert_webhook_event
insert-IsConsistent id now key payload vendor db c = elim (Bool-cases (is_too_long key vendor)) [
  | inl long ↦ rw long c
  | inr fits ↦ elim (Bool-cases (any (has_key key) db.events || any (has_id id) db.events)) [
    | inl t ↦ rw (fits, t) c
    | inr n ↦
        let e = fresh_event id key payload vendor now in
        let longer = λ (i : String) (h : any (has_id i) db.events ≡ true).
          any-append (λ x. x.id) (has_id i) db.events (e ∷ [])
          ∙ ap (λ b. b || any (has_id i) (e ∷ [])) h in
        rw (fits, n)
          (record {
            keys = Distinct-append (λ x. x.idempotency_key) db.events e c.keys (ground arith);
            ids = Distinct-append (λ x. x.id) db.events e c.ids (ground arith);
            shipment_events = c.shipment_events;
            invoice_events = c.invoice_events;
            shipments_known = Known-mono db.events _ _ longer c.shipments_known;
            invoices_known = Known-mono db.events _ _ longer c.invoices_known;
          })
  ]
]

Write-IsConsistent : {db db' : Db} → Write db db' → IsConsistent db → IsConsistent db'
unfolding mark_processing_status mark_terminal_status store_and_complete
Write-IsConsistent {db} (insert id now key payload vendor) c =
    insert-IsConsistent id now key payload vendor db c
Write-IsConsistent {db} (mark_processing key) c =
    update-IsConsistent key start_processing start_processing-IsWrite db c
Write-IsConsistent {db} (mark_terminal now key status error) c =
    elim (Bool-cases (is_terminal status)) [
      | inl t ↦ rw t (
          update-IsConsistent key (finish status now error) (finish-IsWrite status now error t) db
            c)
      | inr n ↦ rw n c
    ]
Write-IsConsistent {db} (store now key event_id event_type normalized_data fk_record review) c =
    elim (Result-cases (save_optional fk_record db)) [
      | inl (saved, p) ↦
          rw (p, store_and_complete)
            (update-IsConsistent key (complete now event_type normalized_data review)
              (complete-IsWrite now event_type normalized_data review) saved
              (save-IsConsistent fk_record db p c))
      | inr (e, p) ↦ rw (p, store_and_complete) c
    ]

-- From a database that satisfies the constraints, every sequence of calls of the helpers that write
-- leads to one that does: keys and ids are unique, an event has at most one record of a kind, and
-- every record's event exists.
pub Reach-IsConsistent : {db db' : Db} → Reach db db' → IsConsistent db → IsConsistent db'
Reach-IsConsistent here c = c
Reach-IsConsistent (next r s) c = Write-IsConsistent s (Reach-IsConsistent r c)

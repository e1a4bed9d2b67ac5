-- ===== src/Activities/Settles.antt =====
-- Which activities leave the events of a key settled, and which keep them so.
use glacis_webhook_service.Base.{
  ◌⊎◌, inl, inr, Bool-cases, arith, any, map, ◌==◌, ◌≡◌, ◌∷◌, [], Result-cases, none, subst, refl,
  sym,
}
use glacis_webhook_service.Json.{Members}
use glacis_webhook_service.Models.{WebhookEvent, FkRecord, Db}
use glacis_webhook_service.Storage.{
  has_key, has_id, is_terminal, update_live, save, save_optional, store_and_complete, complete,
}
use glacis_webhook_service.Storage.History.{events-save}
use glacis_webhook_service.Storage.Settled.{IsSettled}
use glacis_webhook_service.Storage.Records.Built.{event_of}
use glacis_webhook_service.Activities.{
  swallow, String, List, true, Exn, ℕ, err, Option, integrity_error, Bool, Result, ok, some,
}

-- A record of the event is in its table.
abbrev pub IsRecorded : String → Db → Type 0
IsRecorded event_id db =
    (any (λ s. s.webhook_event == event_id) db.shipments ≡ true)
    ⊎ (any (λ i. i.webhook_event == event_id) db.invoices ≡ true)

-- The event and a row of the key are in the table; and if the event has a record, then no row of the
-- key is live.
pub record IsReady (key event_id : String) (db : Db) : Type 0 where
  pub known : any (has_id event_id) db.events ≡ true
  pub keyed : any (has_key key) db.events ≡ true
  pub recorded : IsRecorded event_id db → IsSettled key db.events

module _ (key : String) (f : WebhookEvent → WebhookEvent) where
  -- An update that keeps the ids keeps the event in the table.
  pub update_known :
      ((e : WebhookEvent) → (f e).id ≡ e.id)
      → (event_id : String) (es : List WebhookEvent) → any (has_id event_id) es ≡ true
      → any (has_id event_id) (map (update_live key f) es) ≡ true
  unfolding update_live
  update_known same event_id [] h = h
  update_known same event_id (e ∷ es) h = ground (arith, same e, update_known same event_id es)

  -- An update that keeps the keys keeps a row of the key.
  pub update_keyed :
      ((e : WebhookEvent) → (f e).idempotency_key ≡ e.idempotency_key)
      → (k : String) (es : List WebhookEvent) → any (has_key k) es ≡ true
      → any (has_key k) (map (update_live key f) es) ≡ true
  unfolding update_live
  update_keyed same k [] h = h
  update_keyed same k (e ∷ es) h = ground (arith, same e, update_keyed same k es)

  -- An update to a terminal status settles the key.
  pub update_settles :
      ((e : WebhookEvent) → is_terminal (f e).status ≡ true)
      → (es : List WebhookEvent) → IsSettled key (map (update_live key f) es)
  unfolding update_live
  update_settles ends [] = tt
  update_settles ends (e ∷ es) = (ground (arith, ends e), update_settles ends es)

  -- No update changes a key that is settled.
  pub IsSettled-stays :
      (es : List WebhookEvent) → IsSettled key es → IsSettled key (map (update_live key f) es)
  unfolding update_live
  IsSettled-stays [] h = tt
  IsSettled-stays (e ∷ es) h = (ground arith, IsSettled-stays es h.1)

-- A record is refused only because its event is missing, or has a record of the kind already.
save_refused :
    (r : FkRecord) (db : Db) (x : Exn)
    → save r db ≡ err x
    → any (has_id (event_of r)) db.events ≡ true
    → (x ≡ integrity_error) × IsRecorded (event_of r) db
unfolding save
save_refused (FkRecord.shipment r) db x h k =
    elim (Bool-cases (any (λ s. s.webhook_event == r.webhook_event) db.shipments)) [
      | inl t ↦ (ground arith, inl t)
      | inr n ↦ absurd (ground arith)
    ]
save_refused (FkRecord.invoice r) db x h k =
    elim (Bool-cases (any (λ s. s.webhook_event == r.webhook_event) db.invoices)) [
      | inl t ↦ (ground arith, inr t)
      | inr n ↦ absurd (ground arith)
    ]

-- A refused record of this event had its record already, so that its key is settled.
refused-IsSettled :
    (key event_id : String) (o : Option FkRecord) (db : Db) (x : Exn)
    → ((r : FkRecord) → o ≡ some r → event_of r ≡ event_id)
    → IsReady key event_id db
    → save_optional o db ≡ err x
    → (x ≡ integrity_error) × IsSettled key db.events
unfolding save_optional
refused-IsSettled key event_id none db x of ready h = absurd (never h)
  where
    never : ◌≡◌ {A = Result Exn Db} (ok db) (err x) → ⊥
    never q = cc
refused-IsSettled key event_id (some r) db x of ready h =
    let same = of r refl in
    let (e, rec) = save_refused r db x h (rw same ready.known) in
    (e, ready.recorded (subst (λ i. IsRecorded i db) same rec))

module _ (now : ℕ) (key event_id event_type : String) (normalized_data : Members)
    (o : Option FkRecord) (review : Bool) (db : Db) where
  abbrev pub stored : Result Exn (Unit {0}) × Db
  stored = store_and_complete now key event_id event_type normalized_data o review db

  -- The transaction settles the key or changes nothing.
  stored_cases :
      ((stored.0 ≡ ok tt)
        × IsSettled key stored.1.events
        × ((i : String) → any (has_id i) db.events ≡ true → any (has_id i) stored.1.events ≡ true)
        × ((k : String)
            → any (has_key k) db.events ≡ true
            → any (has_key k) stored.1.events ≡ true))
      ⊎ ((x : Exn) × (save_optional o db ≡ err x) × (stored ≡ (err x, db)))
  unfolding store_and_complete
  stored_cases = elim (Result-cases (save_optional o db)) [
    | inl (db', p) ↦
        rw (p, store_and_complete)
          (inl (
            refl,
            update_settles key (complete now event_type normalized_data review) (λ e. refl)
                db'.events,
            λ i h.
                update_known key (complete now event_type normalized_data review) (λ e. refl) i
                  db'.events (rw (events-save o db p) h),
            λ k h.
                update_keyed key (complete now event_type normalized_data review) (λ e. refl) k
                  db'.events (rw (events-save o db p) h),
          ))
    | inr (x, p) ↦ inr (x, p, rw (p, store_and_complete) refl)
  ]

  -- A transaction that returns, or whose `IntegrityError` is dropped, leaves the key settled.
  pub stored_settles :
      ((r : FkRecord) → o ≡ some r → event_of r ≡ event_id)
      → IsReady key event_id db
      → (u : Unit {0}) → swallow stored.0 ≡ ok u
      → IsSettled key stored.1.events
  stored_settles of ready u h = elim (stored_cases) [
    | inl (_, settled, _, _) ↦ settled
    | inr (x, refused, same) ↦
        let (_, settled) = refused-IsSettled key event_id o db x of ready refused in
        subst (λ (s : Result Exn (Unit {0}) × Db). IsSettled key s.1.events) (sym same) settled
  ]

  -- Whether it returns or raises, the transaction keeps the row ready.
  pub stored-IsReady : IsReady key event_id db → IsReady key event_id stored.1
  stored-IsReady ready = elim (stored_cases) [
    | inl (_, settled, known, keyed) ↦ record {
      known = known event_id ready.known;
      keyed = keyed key ready.keyed;
      recorded = λ _. settled;
    }
    | inr (x, refused, same) ↦
        subst (λ (s : Result Exn (Unit {0}) × Db). IsReady key event_id s.1) (sym same) ready
  ]

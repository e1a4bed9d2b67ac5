-- ===== src/Workflow/Settling/Peers/Ready.antt =====
-- No write of the other processes takes a ready row from a run.
use glacis_webhook_service.Exceptions.{Exn}
use glacis_webhook_service.Base.{
  ℕ, String, Bool, true, false, not, ◌||◌, ◌≡◌, ◌≢◌, refl, Option, none, some, List, [], ◌∷◌, ◌++◌,
  map, any, arith, inl, inr, Bool-cases, Result-cases, sym, ◌∙◌, subst, ap, ok, ◌==◌, eq_iff,
  ok_inj, Result, err, ⊎_map,
}
use glacis_webhook_service.Json.{Members}
use glacis_webhook_service.Models.{WebhookEvent, FkRecord, Db}
use glacis_webhook_service.Storage.{
  insert_webhook_event, mark_processing_status, mark_terminal_status, store_and_complete, save,
  save_optional, update_live, start_processing, finish, complete, is_terminal, has_key, has_id,
  is_too_long, fresh_event,
}
use glacis_webhook_service.Storage.Rows.{IsWrite}
use glacis_webhook_service.Storage.History.{
  start_processing-IsWrite, finish-IsWrite, complete-IsWrite, events-save,
}
use glacis_webhook_service.Storage.Records.Built.{event_of}
use glacis_webhook_service.Storage.Settled.{IsSettled}
use glacis_webhook_service.Activities.Settles.{
  IsReady, IsRecorded, update_known, update_keyed, stored-IsReady,
}
use glacis_webhook_service.Workflow.Settling.Peers.{
  Peer, Writes, inserts, begins, ends, stores, stores_other, here, next,
}

module _ (key event_id : String) where
  module _ (k : String) (f : WebhookEvent → WebhookEvent) (w : IsWrite f) where
    IsSettled-update :
        (es : List WebhookEvent) → IsSettled key es → IsSettled key (map (update_live k f) es)
    unfolding update_live
    IsSettled-update [] h = tt
    IsSettled-update (e ∷ es) h =
        (ground (arith, (w.same e).idempotency_key), IsSettled-update es h.1)

    update-IsReady :
        (db : Db) (fs : List WebhookEvent)
        → fs ≡ map (update_live k f) db.events
        → IsReady key event_id db
        → IsReady key event_id (record db { events = fs })
    update-IsReady db fs p ready = record {
      known = rw p (update_known k f (λ e. (w.same e).id) event_id db.events ready.known);
      keyed = rw p (update_keyed k f (λ e. (w.same e).idempotency_key) key db.events ready.keyed);
      recorded = λ h. rw p (IsSettled-update db.events (ready.recorded h));
    }

  any-more :
      (q : WebhookEvent → Bool) (xs : List WebhookEvent) (e : WebhookEvent)
      → any q xs ≡ true
      → any q (xs ++ e ∷ []) ≡ true
  any-more q [] e h = absurd (cc h)
  any-more q (x ∷ xs) e h = ground (arith, any-more q xs e)

  IsSettled-append :
      (es : List WebhookEvent) (e : WebhookEvent)
      → IsSettled key es
      → has_key key e ≡ false
      → IsSettled key (es ++ e ∷ [])
  IsSettled-append [] e h n = (ground arith, tt)
  IsSettled-append (x ∷ es) e h n = (h.0, IsSettled-append es e h.1 n)

  -- A key that is free is not this one.
  free_key :
      (k : String) (es : List WebhookEvent)
      → any (has_key k) es ≡ false
      → any (has_key key) es ≡ true
      → (k == key) ≡ false
  free_key k es n h = elim (Bool-cases (k == key)) [
    | inl t ↦ absurd (clash (subst (λ j. any (has_key j) es ≡ false) ((eq_iff k key).0 t) n))
    | inr f ↦ f
  ]
    where
      clash : any (has_key key) es ≡ false → ⊥
      clash m = cc

  insert-IsReady :
      (id : String) (now : ℕ) (k : String) (payload : Members) (vendor : String) (db : Db)
      → IsReady key event_id db
      → IsReady key event_id (insert_webhook_event id now k payload vendor db).1
  unfolding insert_webhook_event
  insert-IsReady id now k payload vendor db ready = elim (Bool-cases (is_too_long k vendor)) [
    | inl long ↦ rw long ready
    | inr fits ↦ elim (Bool-cases (any (has_key k) db.events || any (has_id id) db.events)) [
      | inl t ↦ rw (fits, t) ready
      | inr n ↦
          (let row = fresh_event id k payload vendor now in
            let free : any (has_key k) db.events ≡ false = ground arith in
            rw (fits, n)
              (record {
                known = any-more (has_id event_id) db.events row ready.known;
                keyed = any-more (has_key key) db.events row ready.keyed;
                recorded = λ h.
                    IsSettled-append db.events row (ready.recorded h)
                      (free_key k db.events free ready.keyed);
              }))
    ]
  ]

  any-last :
      {A : Type 0} (q : A → Bool) (xs : List A) (a : A)
      → q a ≡ false
      → any q (xs ++ a ∷ []) ≡ true
      → any q xs ≡ true
  any-last q [] a n h = ground arith
  any-last q (x ∷ xs) a n h = ground (arith, any-last q xs a n)

  differs : (i : String) → i ≢ event_id → (i == event_id) ≡ false
  differs i d = elim (Bool-cases (i == event_id)) [
    | inl t ↦ absurd (d ((eq_iff i event_id).0 t))
    | inr f ↦ f
  ]

  -- A record of another event is none of this one.
  save_back :
      (r : FkRecord) (db db' : Db)
      → event_of r ≢ event_id
      → save r db ≡ ok db'
      → IsRecorded event_id db'
      → IsRecorded event_id db
  unfolding save
  save_back (FkRecord.shipment r) db db' other h g =
      elim (Bool-cases (
        not (any (has_id r.webhook_event) db.events)
        || any (λ s. s.webhook_event == r.webhook_event) db.shipments)) [
          | inl t ↦ absurd (refused (rw t at h))
          | inr n ↦
              ⊎_map
                (any-last (λ s. s.webhook_event == event_id) db.shipments r
                  (differs r.webhook_event other))
                (λ i. i) (subst (IsRecorded event_id) (sym (ok_inj (rw n at h))) g)
        ]
    where
      refused : {x : Exn} → ◌≡◌ {A = Result Exn Db} (err x) (ok db') → ⊥
      refused q = cc
  save_back (FkRecord.invoice r) db db' other h g =
      elim (Bool-cases (
        not (any (has_id r.webhook_event) db.events)
        || any (λ s. s.webhook_event == r.webhook_event) db.invoices)) [
          | inl t ↦ absurd (refused (rw t at h))
          | inr n ↦
              ⊎_map (λ i. i)
                (any-last (λ s. s.webhook_event == event_id) db.invoices r
                  (differs r.webhook_event other))
                (subst (IsRecorded event_id) (sym (ok_inj (rw n at h))) g)
        ]
    where
      refused : {x : Exn} → ◌≡◌ {A = Result Exn Db} (err x) (ok db') → ⊥
      refused q = cc

  save-IsReady :
      (o : Option FkRecord) (db db' : Db)
      → ((r : FkRecord) → o ≡ some r → event_of r ≢ event_id)
      → save_optional o db ≡ ok db'
      → IsReady key event_id db
      → IsReady key event_id db'
  unfolding save_optional
  save-IsReady none db db' other h ready = subst (IsReady key event_id) (ok_inj h) ready
  save-IsReady (some r) db db' other h ready =
      let same = events-save (some r) db h in
      record {
        known = ap (any (has_id event_id)) same ∙ ready.known;
        keyed = ap (any (has_key key)) same ∙ ready.keyed;
        recorded = λ g.
            subst (IsSettled key) (sym same)
              (ready.recorded (save_back r db db' (other r refl) h g));
      }

  pub Peer-IsReady :
      {db db' : Db} → Peer key event_id db db' → IsReady key event_id db → IsReady key event_id db'
  unfolding mark_processing_status mark_terminal_status store_and_complete
  Peer-IsReady {db} (inserts id now k payload vendor) ready =
      insert-IsReady id now k payload vendor db ready
  Peer-IsReady {db} (begins k) ready =
      update-IsReady k start_processing start_processing-IsWrite db _ refl ready
  Peer-IsReady {db} (ends now k status error) ready = elim (Bool-cases (is_terminal status)) [
    | inl t ↦ rw t (
        update-IsReady k (finish status now error) (finish-IsWrite status now error t) db _ refl
          ready)
    | inr n ↦ rw n ready
  ]
  Peer-IsReady {db} (stores now event_type normalized_data o review) ready =
      stored-IsReady now key event_id event_type normalized_data o review db ready
  Peer-IsReady {db} (stores_other now k i event_type normalized_data o review other) ready =
      elim (Result-cases (save_optional o db)) [
        | inl (saved, p) ↦
            rw (p, store_and_complete)
              (update-IsReady k (complete now event_type normalized_data review)
                (complete-IsWrite now event_type normalized_data review) saved _ refl
                (save-IsReady o db saved other p ready))
        | inr (e, p) ↦ rw (p, store_and_complete) ready
      ]

  pub Writes-IsReady :
      {db db' : Db}
      → Writes key event_id db db'
      → IsReady key event_id db
      → IsReady key event_id db'
  Writes-IsReady here ready = ready
  Writes-IsReady (next r st) ready = Peer-IsReady st (Writes-IsReady r ready)

-- ===== src/Storage/InStep.antt =====
-- The records of webhooks/storage.py in step with the events: an event that has a record is settled,
-- as long as a record is only stored with the completion of its own row.
mod Saved
use glacis_webhook_service.Base.{
  ℕ, String, Bool, true, false, not, ◌&&◌, ◌||◌, ◌≡◌, refl, Option, none, some, List, [], ◌∷◌, ◌++◌,
  map, any, All, arith, inl, inr, ◌⊎◌, Bool-cases, Result-cases, subst, ok, ◌==◌, eq_iff, ok_inj,
  ap, Result, sym, err, ⊎_map, ◌∙◌,
}
use glacis_webhook_service.Json.{Members}
use glacis_webhook_service.Models.{WebhookStatus, WebhookEvent, FkRecord, Db}
use glacis_webhook_service.Storage.{
  insert_webhook_event, mark_processing_status, mark_terminal_status, store_and_complete, save,
  save_optional, update_live, start_processing, finish, complete, is_terminal, has_key, has_id,
  is_too_long, fresh_event,
}
use glacis_webhook_service.Storage.Rows.{IsWrite, update_live-id}
use glacis_webhook_service.Storage.History.{
  start_processing-IsWrite, finish-IsWrite, complete-IsWrite, events-save, Adds, same, adds,
}
use glacis_webhook_service.Storage.History
use glacis_webhook_service.Storage.History.{Write, insert, mark_processing, mark_terminal, store}
use glacis_webhook_service.Storage.Consistency.{IsConsistent, Known, Reach-IsConsistent}
use glacis_webhook_service.Exceptions.{Exn}
use glacis_webhook_service.Storage.Records.Built.{event_of}
use glacis_webhook_service.Storage.InStep.Saved.{IsRecorded-known, saved-IsRecorded}
use glacis_webhook_service.Activities.Settles.{IsRecorded}

-- Every row whose event has a record is settled.
abbrev IsInStepWith : (String → Type 0) → List WebhookEvent → Type 0
IsInStepWith R es = All (λ e. R e.id → is_terminal e.status ≡ true) es

abbrev pub IsInStep : Db → Type 0
IsInStep db = All (λ e. IsRecorded e.id db → is_terminal e.status ≡ true) db.events

module _ (R : String → Type 0) (k : String) (f : WebhookEvent → WebhookEvent) (w : IsWrite f) where
  update-IsInStep :
      (es : List WebhookEvent) → IsInStepWith R es → IsInStepWith R (map (update_live k f) es)
  unfolding update_live
  update-IsInStep [] h = tt
  update-IsInStep (e ∷ es) (p, h) =
      (λ r. row_settled (p (subst R (update_live-id k f w e) r)), update-IsInStep es h)
    where
      row_settled : is_terminal e.status ≡ true → is_terminal (update_live k f e).status ≡ true
      row_settled t = ground arith

IsInStep-append :
    (R : String → Type 0) (es : List WebhookEvent) (e : WebhookEvent)
    → IsInStepWith R es
    → (R e.id → ⊥)
    → IsInStepWith R (es ++ e ∷ [])
IsInStep-append R [] e h n = (λ r. absurd (n r), tt)
IsInStep-append R (x ∷ es) e (p, h) n = (p, IsInStep-append R es e h n)

pub insert-IsInStep :
    (id : String) (now : ℕ) (key : String) (payload : Members) (vendor : String) (db : Db)
    → IsConsistent db
    → IsInStep db
    → IsInStep (insert_webhook_event id now key payload vendor db).1
unfolding insert_webhook_event
insert-IsInStep id now key payload vendor db c h = elim (Bool-cases (is_too_long key vendor)) [
  | inl long ↦ rw long h
  | inr fits ↦ elim (Bool-cases (any (has_key key) db.events || any (has_id id) db.events)) [
    | inl t ↦ rw (fits, t) h
    | inr n ↦
        rw (fits, n)
          (IsInStep-append (λ i. IsRecorded i db) db.events (fresh_event id key payload vendor now)
            h (λ r. unknown n (IsRecorded-known id db c r)))
  ]
]
  where
    unknown :
        (any (has_key key) db.events || any (has_id id) db.events) ≡ false
        → any (has_id id) db.events ≡ true
        → ⊥
    unknown n t = absurd (ground arith)

-- The rows of the event are rows of the key.
abbrev pub Owns : String → String → List WebhookEvent → Type 0
Owns key event_id es = All (λ e. has_id event_id e ≡ true → has_key key e ≡ true) es

-- A completion settles the rows of its key, so that more events may be recorded if they are its own.
complete-IsInStep :
    (R Q : String → Type 0) (key event_id : String) (f : WebhookEvent → WebhookEvent)
    → IsWrite f
    → ((e : WebhookEvent) → is_terminal (f e).status ≡ true)
    → ((i : String) → Q i → R i ⊎ (i ≡ event_id))
    → (es : List WebhookEvent) → Owns key event_id es
    → IsInStepWith R es
    → IsInStepWith Q (map (update_live key f) es)
unfolding update_live
complete-IsInStep R Q key event_id f w ends more [] o h = tt
complete-IsInStep R Q key event_id f w ends more (e ∷ es) (own, o) (p, h) = (
  λ q. elim (more e.id (subst Q (update_live-id key f w e) q)) [
    | inl r ↦ was_settled (p r)
    | inr i ↦ now_settled (own ((eq_iff e.id event_id).1 i))
  ],
  complete-IsInStep R Q key event_id f w ends more es o h,
)
  where
    was_settled : is_terminal e.status ≡ true → is_terminal (update_live key f e).status ≡ true
    was_settled t = ground arith

    now_settled : has_key key e ≡ true → is_terminal (update_live key f e).status ≡ true
    now_settled t = ground (arith, ends e)

-- One call of a helper that writes, where a record is stored with the row of its own event.
pub data Step (db : Db) : Db → Type 0 where
  inserts :
      (id : String) (now : ℕ) (key : String) (payload : Members) (vendor : String)
      → Step db (insert_webhook_event id now key payload vendor db).1
  begins : (key : String) → Step db (mark_processing_status key db)
  ends :
      (now : ℕ) (key : String) (status : WebhookStatus) (error : Option String)
      → Step db (mark_terminal_status now key status error db).1
  stores :
      (now : ℕ) (key event_id event_type : String) (normalized_data : Members) (o : Option FkRecord)
      (review : Bool)
      → Owns key event_id db.events
      → ((r : FkRecord) → o ≡ some r → event_of r ≡ event_id)
      → Step db (store_and_complete now key event_id event_type normalized_data o review db).1

pub data Steps (db : Db) : Db → Type 0 where
  here : Steps db db
  next : {mid last : Db} → Steps db mid → Step mid last → Steps db last

Step-IsInStep : {db db' : Db} → Step db db' → IsConsistent db → IsInStep db → IsInStep db'
unfolding mark_processing_status mark_terminal_status store_and_complete
Step-IsInStep {db} (inserts id now key payload vendor) c h =
    insert-IsInStep id now key payload vendor db c h
Step-IsInStep {db} (begins key) c h =
    update-IsInStep (λ i. IsRecorded i db) key start_processing start_processing-IsWrite db.events h
Step-IsInStep {db} (ends now key status error) c h = elim (Bool-cases (is_terminal status)) [
  | inl t ↦ rw t (
      update-IsInStep (λ i. IsRecorded i db) key (finish status now error)
        (finish-IsWrite status now error t) db.events h)
  | inr n ↦ rw n h
]
Step-IsInStep {db} (stores now key event_id event_type normalized_data o review own of) c h =
    elim (Result-cases (save_optional o db)) [
      | inl (saved, p) ↦
          (let f = complete now event_type normalized_data review in
            rw (p, store_and_complete, events-save o db p)
              (complete-IsInStep (λ i. IsRecorded i db) (λ i. IsRecorded i saved) key event_id f
                (complete-IsWrite now event_type normalized_data review) (λ e. refl)
                (λ i g. saved-IsRecorded o event_id db saved i of p g) db.events own h))
      | inr (e, p) ↦ rw (p, store_and_complete) h
    ]

pub Step-Write : {db db' : Db} → Step db db' → Write db db'
Step-Write (inserts id now key payload vendor) = insert id now key payload vendor
Step-Write (begins key) = mark_processing key
Step-Write (ends now key status error) = mark_terminal now key status error
Step-Write (stores now key event_id event_type normalized_data o review own of) =
    store now key event_id event_type normalized_data o review

-- From tables that satisfy the constraints and in which every event with a record is settled, any
-- sequence of calls of the helpers that write, each record stored with the completion of the row of
-- its event, leads to such tables: no event is live while a record of it can be seen.
pub Steps-IsInStep :
    {db db' : Db} → Steps db db' → IsConsistent db → IsInStep db → IsConsistent db' × IsInStep db'
Steps-IsInStep here c h = (c, h)
Steps-IsInStep (next r st) c h =
    let (k, g) = Steps-IsInStep r c h in
    (Reach-IsConsistent (History.next History.here (Step-Write st)) k, Step-IsInStep st k g)

-- Inserts alone are such steps.
pub Adds-Steps : {db db' : Db} → Adds db db' → Steps db db'
Adds-Steps same = here
Adds-Steps (adds id now key payload vendor a) =
    next (Adds-Steps a) (inserts id now key payload vendor)

-- ===== src/Storage/History.antt =====
-- Every sequence of calls of the helpers that write, and what becomes of a row along it.
use glacis_webhook_service.Base.{
  ℕ, String, Bool, ◌≡◌, refl, Option, none, some, List, [], ◌∷◌, ◌++◌, In, ok, arith, inl, inr, map,
  Bool-cases, Result-cases, any, true, subst, ap, ◌||◌, sym,
}
use glacis_webhook_service.Json.{Members}
use glacis_webhook_service.Models.{WebhookStatus, WebhookEvent, FkRecord, Db}
use glacis_webhook_service.Storage.{
  is_too_long, insert_webhook_event, mark_processing_status, mark_terminal_status,
  store_and_complete, save, save_optional, update_live, start_processing, finish, complete,
  is_terminal, has_key, has_id,
}
use glacis_webhook_service.Storage.Rows.{
  SameRow, Evolved, Evolved-trans, IsWrite, update_live-Evolved, In-update,
}

-- One call of a helper that writes, whether it returns or raises.
pub data Write (db : Db) : Db → Type 0 where
  insert :
      (id : String) (now : ℕ) (key : String) (payload : Members) (vendor : String)
      → Write db (insert_webhook_event id now key payload vendor db).1
  mark_processing : (key : String) → Write db (mark_processing_status key db)
  mark_terminal :
      (now : ℕ) (key : String) (status : WebhookStatus) (error : Option String)
      → Write db (mark_terminal_status now key status error db).1
  store :
      (now : ℕ) (key event_id event_type : String) (normalized_data : Members)
      (fk_record : Option FkRecord) (review : Bool)
      → Write db
          (store_and_complete now key event_id event_type normalized_data fk_record review db).1

pub data Reach (db : Db) : Db → Type 0 where
  here : Reach db db
  next : {mid last : Db} → Reach db mid → Write mid last → Reach db last

-- The tables after inserts alone.
pub data Adds (db : Db) : Db → Type 0 where
  same : Adds db db
  adds :
      {mid : Db} (id : String) (now : ℕ) (key : String) (payload : Members) (vendor : String)
      → Adds db mid
      → Adds db (insert_webhook_event id now key payload vendor mid).1

pub Adds-Reach : {db db' : Db} → Adds db db' → Reach db db'
Adds-Reach same = here
Adds-Reach (adds id now key payload vendor a) =
    next (Adds-Reach a) (insert id now key payload vendor)

pub start_processing-IsWrite : IsWrite start_processing
start_processing-IsWrite = record {
  same = λ e. record {
    id = refl;
    idempotency_key = refl;
    source_vendor = refl;
    raw_payload = refl;
    created_at = refl;
  };
  left = λ e. refl;
}

finish_same :
    (status : WebhookStatus) (now : ℕ) (error : Option String) (e : WebhookEvent)
    → SameRow e (finish status now error e)
finish_same status now none e = record {
  id = refl;
  idempotency_key = refl;
  source_vendor = refl;
  raw_payload = refl;
  created_at = refl;
}
finish_same status now (some m) e = record {
  id = refl;
  idempotency_key = refl;
  source_vendor = refl;
  raw_payload = refl;
  created_at = refl;
}

pub finish-IsWrite :
    (status : WebhookStatus) (now : ℕ) (error : Option String)
    → is_terminal status ≡ true
    → IsWrite (finish status now error)
finish-IsWrite status now error h = record {
  same = finish_same status now error;
  left = λ e. ground arith;
}

pub complete-IsWrite :
    (now : ℕ) (event_type : String) (normalized_data : Members) (review : Bool)
    → IsWrite (complete now event_type normalized_data review)
complete-IsWrite now event_type normalized_data review = record {
  same = λ e. record {
    id = refl;
    idempotency_key = refl;
    source_vendor = refl;
    raw_payload = refl;
    created_at = refl;
  };
  left = λ e. refl;
}

-- A save writes no event.
pub events-save :
    (fk_record : Option FkRecord) (db : Db) {db' : Db}
    → save_optional fk_record db ≡ ok db'
    → db'.events ≡ db.events
unfolding save_optional save
events-save none db h = ground arith
events-save (some (FkRecord.shipment r)) db h = ground arith
events-save (some (FkRecord.invoice r)) db h = ground arith

abbrev Continues : List WebhookEvent → List WebhookEvent → Type 0
Continues es fs = (e : WebhookEvent) → In e es → (f : WebhookEvent) × In f fs × Evolved e f

stays : (es : List WebhookEvent) → Continues es es
stays es e h = (e, h, inl refl)

In-append : (e : WebhookEvent) (xs ys : List WebhookEvent) → In e xs → In e (xs ++ ys)
In-append e (x ∷ xs) ys (inl p) = inl p
In-append e (x ∷ xs) ys (inr h) = inr (In-append e xs ys h)
In-append e [] ys h = absurd h

insert-Continues :
    (id : String) (now : ℕ) (key : String) (payload : Members) (vendor : String) (db : Db)
    → Continues db.events (insert_webhook_event id now key payload vendor db).1.events
unfolding insert_webhook_event
insert-Continues id now key payload vendor db e h = elim (Bool-cases (is_too_long key vendor)) [
  | inl long ↦ rw long (e, h, inl refl)
  | inr fits ↦ elim (Bool-cases (any (has_key key) db.events || any (has_id id) db.events)) [
    | inl t ↦ rw (fits, t) (e, h, inl refl)
    | inr n ↦ rw (fits, n) (e, In-append e db.events _ h, inl refl)
  ]
]

module _ (key : String) (f : WebhookEvent → WebhookEvent) (w : IsWrite f)
    (es : List WebhookEvent) where
  update-Continues : (fs : List WebhookEvent) → fs ≡ map (update_live key f) es → Continues es fs
  update-Continues fs p e h = (
    update_live key f e,
    subst (In _) (sym p) (In-update key f w e es h),
    update_live-Evolved key f w e,
  )

Write-Continues : {db db' : Db} → Write db db' → Continues db.events db'.events
unfolding mark_processing_status mark_terminal_status store_and_complete
Write-Continues {db} (insert id now key payload vendor) =
    insert-Continues id now key payload vendor db
Write-Continues {db} (mark_processing key) =
    update-Continues key start_processing start_processing-IsWrite db.events _ refl
Write-Continues {db} (mark_terminal now key status error) = elim (Bool-cases (is_terminal status)) [
  | inl t ↦ rw t (
      update-Continues key (finish status now error) (finish-IsWrite status now error t) db.events _
        refl)
  | inr n ↦ rw n (stays db.events)
]
Write-Continues {db} (store now key event_id event_type normalized_data fk_record review) =
    elim (Result-cases (save_optional fk_record db)) [
      | inl (saved, p) ↦
          rw (p, store_and_complete)
            (update-Continues key (complete now event_type normalized_data review)
              (complete-IsWrite now event_type normalized_data review) db.events _
              (ap (map _) (events-save fk_record db p)))
      | inr (e, p) ↦ rw (p, store_and_complete) (stays db.events)
    ]

-- Whatever the helpers are called with and in whatever order, a row that is in the table stays in
-- it with its id, key, vendor, payload and creation time; it is untouched, or it was not terminal
-- and has left RECEIVED. So a terminal row is never changed and a status never goes back.
pub row_evolves :
    {db db' : Db}
    → Reach db db'
    → (e : WebhookEvent) → In e db.events
    → (f : WebhookEvent) × In f db'.events × Evolved e f
row_evolves here e h = (e, h, inl refl)
row_evolves (next r s) e h =
    let (f, hf, p) = row_evolves r e h in
    let (g, hg, q) = Write-Continues s f hf in (g, hg, Evolved-trans e f g p q)

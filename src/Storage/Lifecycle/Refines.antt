-- ===== src/Storage/Lifecycle/Refines.antt =====
-- The writes of webhooks/storage.py refine the life of the events.
use glacis_webhook_service.Base.{
  ℕ, String, Bool, true, false, not, ◌&&◌, ◌||◌, ◌≡◌, ◌≢◌, refl, Option, none, some, List, [], ◌∷◌,
  ◌++◌, ◌==◌, map, arith, inl, inr, Bool-cases, Option-cases, Result-cases, find?, ap, any, ◌∙◌,
  subst, eq_iff, eq_refl, some_inj, if◌then◌else◌,
}
use glacis_webhook_service.Models.{WebhookStatus, WebhookEvent, Db}
use glacis_webhook_service.Storage.{
  is_terminal, has_key, has_id, update_live, start_processing, finish, complete, fresh_event,
  insert_webhook_event, mark_processing_status, mark_terminal_status, store_and_complete,
  save_optional, is_too_long, Members,
}
use glacis_webhook_service.Storage.Rows.{IsWrite, update_live-key}
use glacis_webhook_service.Storage.History.{
  Write, Reach, insert, mark_processing, mark_terminal, store, here, next, start_processing-IsWrite,
  finish-IsWrite, complete-IsWrite, events-save,
}
use glacis_webhook_service.Storage.Lifecycle.{
  stage_of, stage, Life, stays, receives, begins, ends, Advances, Runs, start, step,
}

-- A change of a live row is a step of a life.
abbrev IsLife : (WebhookEvent → WebhookEvent) → Type 0
IsLife f =
    (e : WebhookEvent) → is_terminal e.status ≡ false → Life (some e.status) (some (f e).status)

abbrev update_found : (WebhookEvent → WebhookEvent) → Option WebhookEvent → Option WebhookEvent
update_found f none = none
update_found f (some e) = some (f e)

-- The row that is found has the key.
find-key :
    (key : String) (es : List WebhookEvent) (e : WebhookEvent)
    → find? (has_key key) es ≡ some e
    → has_key key e ≡ true
find-key key [] e h = cc
find-key key (x ∷ es) e h = elim (Bool-cases (has_key key x)) [
  | inl t ↦ subst (λ y. has_key key y ≡ true) (some_inj (rw t at h)) t
  | inr n ↦ find-key key es e (rw n at h)
]

module _ (key : String) (f : WebhookEvent → WebhookEvent) (w : IsWrite f) where
  find-update :
      (j : String) (es : List WebhookEvent)
      → find? (has_key j) (map (update_live key f) es)
        ≡ update_found (update_live key f) (find? (has_key j) es)
  find-update j [] = refl
  find-update j (e ∷ es) = elim (Bool-cases (has_key j e)) [
    | inl t ↦
        (let u : has_key j (update_live key f e) ≡ true =
            ap (λ k. k == j) (update_live-key key f w e) ∙ t in
          rw (u, t) refl)
    | inr n ↦
        (let u : has_key j (update_live key f e) ≡ false =
            ap (λ k. k == j) (update_live-key key f w e) ∙ n in
          rw (u, n) (find-update j es))
  ]

  own-Life :
      (l : IsLife f) (o : Option WebhookEvent)
      → Life (stage_of o) (stage_of (update_found (update_live key f) o))
  unfolding update_live
  own-Life l none = stays
  own-Life l (some e) = elim (Bool-cases (has_key key e && not (is_terminal e.status))) [
    | inl t ↦ (let live : is_terminal e.status ≡ false = ground arith in rw t (l e live))
    | inr n ↦ rw n stays
  ]

  -- A row of another key is not touched.
  other_stays :
      (j : String) (e : WebhookEvent) → has_key j e ≡ true → key ≢ j → update_live key f e ≡ e
  unfolding update_live
  other_stays j e h d = ground (arith, eq_iff e.idempotency_key j, eq_iff e.idempotency_key key)

  others_stay :
      (j : String) (es : List WebhookEvent)
      → key ≢ j
      → stage_of (update_found (update_live key f) (find? (has_key j) es))
        ≡ stage_of (find? (has_key j) es)
  others_stay j es d = elim (Option-cases (find? (has_key j) es)) [
    | inl n ↦ rw n refl
    | inr (e, q) ↦ rw q (ap (λ r. stage_of (some r)) (other_stays j e (find-key j es e q) d))
  ]

  update-Advances :
      (es fs : List WebhookEvent) (l : IsLife f)
      → fs ≡ map (update_live key f) es
      → Advances (λ j. stage_of (find? (has_key j) es)) (λ j. stage_of (find? (has_key j) fs))
  update-Advances es fs l p = record {
    key = key;
    life = rw (p, find-update key es) (own-Life l (find? (has_key key) es));
    others = λ j d. rw (p, find-update j es) (others_stay j es d);
  }

-- Nothing moves.
rests : (key : String) (a : String → Option WebhookStatus) → Advances a a
rests key a = record { key = key; life = stays; others = λ j d. refl }

start_processing-IsLife : IsLife start_processing
start_processing-IsLife e live = begins live

finish-IsLife :
    (status : WebhookStatus) (now : ℕ) (error : Option String)
    → is_terminal status ≡ true
    → IsLife (finish status now error)
finish-IsLife status now none t e live = ends live t
finish-IsLife status now (some m) t e live = ends live t

complete-IsLife :
    (now : ℕ) (event_type : String) (normalized_data : Members) (review : Bool)
    → IsLife (complete now event_type normalized_data review)
complete-IsLife now event_type normalized_data review e live = ends live refl

find-append :
    (key : String) (e : WebhookEvent) (es : List WebhookEvent)
    → find? (has_key key) es ≡ none
    → find? (has_key key) (es ++ e ∷ []) ≡ (if has_key key e then some e else none)
find-append key e [] h = refl
find-append key e (x ∷ es) h = elim (Bool-cases (has_key key x)) [
  | inl t ↦ absurd (both (rw t at h))
  | inr n ↦ rw n (find-append key e es (rw n at h))
]
  where
    both : ◌≡◌ {A = Option WebhookEvent} (some x) none → ⊥
    both q = cc

find-append_other :
    (key : String) (e : WebhookEvent) (es : List WebhookEvent)
    → has_key key e ≡ false
    → find? (has_key key) (es ++ e ∷ []) ≡ find? (has_key key) es
find-append_other key e [] h = rw h refl
find-append_other key e (x ∷ es) h = elim (Bool-cases (has_key key x)) [
  | inl t ↦ rw t refl
  | inr n ↦ rw n (find-append_other key e es h)
]

none_found :
    (key : String) (es : List WebhookEvent)
    → any (has_key key) es ≡ false
    → find? (has_key key) es ≡ none
none_found key [] h = refl
none_found key (x ∷ es) h = ground (arith, none_found key es)

insert-Advances :
    (id : String) (now : ℕ) (key : String) (payload : Members) (vendor : String) (db : Db)
    → Advances (stage db) (stage (insert_webhook_event id now key payload vendor db).1)
unfolding insert_webhook_event
insert-Advances id now key payload vendor db = elim (Bool-cases (is_too_long key vendor)) [
  | inl long ↦ rw long (rests key (stage db))
  | inr fits ↦ elim (Bool-cases (any (has_key key) db.events || any (has_id id) db.events)) [
    | inl t ↦ rw (fits, t) (rests key (stage db))
    | inr n ↦
        (let row = fresh_event id key payload vendor now in
          let absent : any (has_key key) db.events ≡ false = ground arith in
          let here_none = none_found key db.events absent in
          rw (fits, n)
            (record {
              key = key;
              life = rw (here_none, find-append key row db.events here_none, eq_refl key) receives;
              others = λ j d.
                  (let away : has_key j row ≡ false = ground (arith, eq_iff key j) in
                    ap stage_of (find-append_other j row db.events away));
            }))
  ]
]

-- Every call of a helper that writes, whether it returns or raises, is a step of the clients' view:
-- at most one event moves, from nothing to RECEIVED, from RECEIVED or PROCESSING to PROCESSING, or
-- from one of these to a terminal status, and no other event changes.
pub Write-Advances : {db db' : Db} → Write db db' → Advances (stage db) (stage db')
unfolding mark_processing_status mark_terminal_status store_and_complete
Write-Advances {db} (insert id now key payload vendor) =
    insert-Advances id now key payload vendor db
Write-Advances {db} (mark_processing key) =
    update-Advances key start_processing start_processing-IsWrite db.events _
      start_processing-IsLife refl
Write-Advances {db} (mark_terminal now key status error) = elim (Bool-cases (is_terminal status)) [
  | inl t ↦ rw t (
      update-Advances key (finish status now error) (finish-IsWrite status now error t) db.events _
        (finish-IsLife status now error t) refl)
  | inr n ↦ rw n (rests key (stage db))
]
Write-Advances {db} (store now key event_id event_type normalized_data fk_record review) =
    elim (Result-cases (save_optional fk_record db)) [
      | inl (saved, p) ↦
          rw (p, store_and_complete)
            (update-Advances key (complete now event_type normalized_data review)
              (complete-IsWrite now event_type normalized_data review) db.events _
              (complete-IsLife now event_type normalized_data review)
              (ap (map _) (events-save fk_record db p)))
      | inr (e, p) ↦ rw (p, store_and_complete) (rests key (stage db))
    ]

-- Every sequence of calls of the helpers that write refines the clients' view of the events: the
-- stages of the keys along it are a run of that specification.
pub Reach-Runs : {db db' : Db} → Reach db db' → Runs (stage db) (stage db')
Reach-Runs here = start
Reach-Runs (next r w) = step (Reach-Runs r) (Write-Advances w)

-- ===== src/Ingest/Answers.antt =====
-- What holds of every outcome of POST /webhook: the form of the answer, and the rows.
use glacis_webhook_service.Base.{
  sym, subst, leb, Bool-cases, ◌≡◌, ◌⊎◌, inr, inl, true, some, refl, false, none, In,
}
use glacis_webhook_service.Exceptions.{
  Exn, RpcStatus, json_decode_error, integrity_error, operational_error, bridge_overloaded,
  rpc_error, key_error,
}
use glacis_webhook_service.Json.{Json, obj, Members}
use glacis_webhook_service.Models.{Db, WebhookEvent}
use glacis_webhook_service.Storage.{EventDict, insert_webhook_event}
use glacis_webhook_service.Bridge.{submit}
use glacis_webhook_service.Storage.History.{Reach, Adds, same, adds, Adds-Reach, row_evolves}
use glacis_webhook_service.Storage.Rows.{Evolved}
use glacis_webhook_service.Storage.Consistency.{IsConsistent, Reach-IsConsistent}
use glacis_webhook_service.Responses.{Response, get_header, problem, accepted, already_received}
use glacis_webhook_service.Responses.Laws.{IsUncached}
use glacis_webhook_service.Services.{Services}
use glacis_webhook_service.Dedup.{check_duplicate}
use glacis_webhook_service.Ingest.{
  Request, World, Outcome, is_valid_id, mark_seen, after_start, start, resume, after_insert,
  persist, after_dedup, checked, with_payload, parsed, post, bridge_overloaded_response, ℕ, Result,
  String, Bool, ok, Option, if◌then◌else◌, err,
}

-- The statuses that the view answers with.
abbrev pub IsStatus : ℕ → Type 0
IsStatus n = (n ≡ 200) ⊎ ((n ≡ 422) ⊎ ((n ≡ 500) ⊎ (n ≡ 503)))

-- What the view handles of the exceptions of a start, and of an insert.
abbrev pub IsUnhandledStart : Exn → Type 0
IsUnhandledStart bridge_overloaded = ⊥
IsUnhandledStart (rpc_error _) = ⊥
IsUnhandledStart _ = Unit

abbrev pub IsUnhandledInsert : Exn → Type 0
IsUnhandledInsert integrity_error = ⊥
IsUnhandledInsert operational_error = ⊥
IsUnhandledInsert _ = Unit

abbrev pub IsUnhandledBody : Exn → Type 0
IsUnhandledBody (json_decode_error _) = ⊥
IsUnhandledBody _ = Unit

-- How an exception can leave the view.
pub data Escapes (s : Services) (loads : String → Result Exn Json) (req : Request) (w : World s)
    (e : Exn) : Type 0 where
  unread : loads req.raw ≡ err e → IsUnhandledBody e → Escapes s loads req w e
  no_header :
      get_header "webhook-id" req.headers ≡ none
      → e ≡ key_error "webhook-id"
      → Escapes s loads req w e
  not_inserted :
      (key : String) (payload : Members)
      → (insert_webhook_event w.id w.now key payload req.vendor_id w.db).0 ≡ err e
      → IsUnhandledInsert e
      → Escapes s loads req w e
  no_lookup : w.lookup_database ≡ false → e ≡ operational_error → Escapes s loads req w e
  not_started :
      (key event_id : String) (payload : Members) (t : s.Temporal)
      → (s.start_workflow key event_id payload t).0 ≡ err e
      → IsUnhandledStart e
      → Escapes s loads req w e

abbrev IsAnswer : Response → Type 0
IsAnswer r = IsUncached r × IsStatus r.status

abbrev pub IsFine : (Exn → Type 0) → Result Exn Response → Type 0
IsFine E (ok r) = IsUncached r × IsStatus r.status
IsFine E (err e) = E e

problem-IsAnswer :
    (n : ℕ) (title detail slug : String) (path : Option String) (extra : Members)
    → IsStatus n
    → IsAnswer (problem n title detail slug path extra)
unfolding problem get_header
problem-IsAnswer n title detail slug path extra h = (refl, h)

overloaded-IsAnswer : (path : String) → IsAnswer (bridge_overloaded_response path)
unfolding problem get_header
overloaded-IsAnswer path = (refl, inr (inr (inr refl)))

accepted-IsAnswer : (key : String) → IsAnswer (accepted key)
unfolding accepted get_header
accepted-IsAnswer key = (refl, inl refl)

replayed-IsAnswer : (key : String) → IsAnswer (already_received key)
unfolding already_received get_header
replayed-IsAnswer key = (refl, inl refl)

module _ (s : Services) (db : Db) (E : Exn → Type 0) where
  -- The answer is well formed, or the exception one of `E`; and the rows come from `db` by inserts.
  abbrev Good : Outcome s → Type 0
  Good o = IsFine E o.0 × Adds db o.1.db

  Good-if :
      (b : Bool) (x y : Outcome s)
      → (b ≡ true → Good x)
      → (b ≡ false → Good y)
      → Good (if b then x else y)
  Good-if true x y g h = g refl
  Good-if false x y g h = h refl

  module _ (cap : ℕ) (req : Request) (webhook_id key : String) (payload : Members)
      (by_start : (event_id : String) (t : s.Temporal) (e : Exn)
        → (s.start_workflow key event_id payload t).0 ≡ err e
        → IsUnhandledStart e
        → E e) where
    after_start-Good :
        (r : Result Exn (Unit {0})) (w : World s)
        → ((e : Exn) → r ≡ err e → IsUnhandledStart e → E e)
        → Adds db w.db
        → Good (after_start s req webhook_id key r w)
    unfolding after_start mark_seen
    after_start-Good (ok _) w f h = (accepted-IsAnswer key, h)
    after_start-Good (err bridge_overloaded) w f h = (overloaded-IsAnswer req.path, h)
    after_start-Good (err (rpc_error RpcStatus.already_exists)) w f h = (replayed-IsAnswer key, h)
    after_start-Good (err (rpc_error RpcStatus.other_status)) w f h =
        (problem-IsAnswer 503 _ _ _ _ _ (inr (inr (inr refl))), h)
    after_start-Good (err e) w f h = (f e refl tt, h)

    submitted_by :
        (event_id : String) (w : World s) (e : Exn)
        → (submit cap (s.start_workflow key event_id payload) (w.inflight, w.temporal)).0 ≡ err e
        → IsUnhandledStart e
        → E e
    unfolding submit
    submitted_by event_id w e h u = elim (Bool-cases (leb cap w.inflight)) [
      | inl t ↦ absurd (subst IsUnhandledStart (sym (refused (rw t at h))) u)
      | inr n ↦ by_start event_id w.temporal e (rw n at h) u
    ]
      where
        refused :
            ◌≡◌ {A = Result Exn (Unit {0})} (err bridge_overloaded) (err e) → bridge_overloaded ≡ e
        refused q = cc

    start-Good :
        (event_id : String) (w : World s)
        → Adds db w.db
        → Good (start s cap req webhook_id payload key event_id w)
    unfolding start
    start-Good event_id w h = after_start-Good _ _ (submitted_by event_id w) h

    resume-Good :
        (o : Option EventDict) (w : World s)
        → Adds db w.db
        → Good (resume s cap req webhook_id payload key o w)
    unfolding resume
    resume-Good none w h = (problem-IsAnswer 500 _ _ _ _ _ (inr (inr (inl refl))), h)
    resume-Good (some e) w h =
        Good-if _ _ _ (λ _. start-Good e.id w h) (λ _. (replayed-IsAnswer key, h))

    after_insert-Good :
        (r : Result Exn String) (w : World s)
        → ((e : Exn) → r ≡ err e → IsUnhandledInsert e → E e)
        → (w.lookup_database ≡ false → E operational_error)
        → Adds db w.db
        → Good (after_insert s cap req webhook_id payload key r w)
    unfolding after_insert
    after_insert-Good (ok event_id) w f g h = start-Good event_id w h
    after_insert-Good (err integrity_error) w f g h =
        Good-if _ _ _ (λ _. resume-Good _ w h) (λ n. (g n, h))
    after_insert-Good (err operational_error) w f g h =
        (problem-IsAnswer 503 _ _ _ _ _ (inr (inr (inr refl))), h)
    after_insert-Good (err e) w f g h = (f e refl tt, h)

    persist-Good :
        (w : World s)
        → ((e : Exn)
            → (insert_webhook_event w.id w.now key payload req.vendor_id w.db).0 ≡ err e
            → IsUnhandledInsert e
            → E e)
        → (w.lookup_database ≡ false → E operational_error)
        → Adds db w.db
        → Good (persist s cap req webhook_id payload key w)
    unfolding persist
    persist-Good w f g h =
        let x = insert_webhook_event w.id w.now key payload req.vendor_id w.db in
        let v = record w { db = x.1 } in
        Good-if w.database (after_insert s cap req webhook_id payload key x.0 v)
          (after_insert s cap req webhook_id payload key (err operational_error) w)
          (λ _. after_insert-Good x.0 v f g (adds w.id w.now key payload req.vendor_id h))
          (λ _. after_insert-Good (err operational_error) w unhandled g h)
      where
        unhandled :
            (e : Exn)
            → ◌≡◌ {A = Result Exn String} (err operational_error) (err e)
            → IsUnhandledInsert e
            → E e
        unhandled e q u = absurd (subst IsUnhandledInsert (sym (same q)) u)
          where
            same :
                ◌≡◌ {A = Result Exn String} (err operational_error) (err e) → operational_error ≡ e
            same p = cc

module _ (s : Services) (loads : String → Result Exn Json) (cap : ℕ) (req : Request)
    (w : World s) where
  abbrev Fine : Outcome s → Type 0
  Fine = Good s w.db (Escapes s loads req w)

  after_dedup-Good :
      (webhook_id : String) (payload : Members) (r : Result Exn (Bool × String))
      → Fine (after_dedup s cap req webhook_id payload r w)
  unfolding after_dedup
  after_dedup-Good webhook_id payload (ok (is_duplicate, key)) =
      Good-if s w.db (Escapes s loads req w) _ _ _ (λ _. (replayed-IsAnswer key, same))
        (λ _.
          persist-Good s w.db (Escapes s loads req w) cap req webhook_id key payload
            (λ event_id t e. not_started key event_id payload t) w (λ e. not_inserted key payload)
            (λ n. no_lookup n refl) same)
  after_dedup-Good webhook_id payload (err e) =
      (problem-IsAnswer 503 _ _ _ _ _ (inr (inr (inr refl))), same)

  with_payload-Good :
      (payload : Members) (o : Option String)
      → get_header "webhook-id" req.headers ≡ o
      → Fine (with_payload s cap req payload o w)
  unfolding with_payload checked
  with_payload-Good payload none q = (no_header q refl, same)
  with_payload-Good payload (some webhook_id) q = elim (Bool-cases (is_valid_id webhook_id)) [
    | inl t ↦ rw t (
        after_dedup-Good webhook_id payload
          (check_duplicate s webhook_id req.vendor_id w.now w.redis))
    | inr n ↦ rw n (problem-IsAnswer 422 _ _ _ _ _ (inr (inl refl)), same)
  ]

  parsed-Good : (r : Result Exn Json) → loads req.raw ≡ r → Fine (parsed s cap req r w)
  unfolding parsed
  parsed-Good (ok (obj payload)) q = with_payload-Good payload _ refl
  parsed-Good (ok _) q = (problem-IsAnswer 422 _ _ _ _ _ (inr (inl refl)), same)
  parsed-Good (err (json_decode_error _)) q =
      (problem-IsAnswer 422 _ _ _ _ _ (inr (inl refl)), same)
  parsed-Good (err e) q = (unread q tt, same)

  -- Whatever the services answer, an answer of the view forbids caching and has one of the statuses
  -- 200, 422, 500 and 503. An exception leaves the view only if the body does not parse for another
  -- reason than its JSON, the header webhook-id is missing, the insert raises something else than
  -- IntegrityError and OperationalError, the database is lost at the lookup after a collision, or a
  -- start raises something else than a gRPC error.
  pub post-IsFine : IsFine (Escapes s loads req w) (post s loads cap req w).0
  unfolding post
  post-IsFine = (parsed-Good (loads req.raw) refl).0

  -- Whatever the outcome, also an exception, the view only inserts.
  pub post-Adds : Adds w.db (post s loads cap req w).1.db
  unfolding post
  post-Adds = (parsed-Good (loads req.raw) refl).1

  -- So the rows come from those before by the helpers of storage.py.
  pub post-Reach : Reach w.db (post s loads cap req w).1.db
  post-Reach = Adds-Reach post-Adds

  -- The constraints of the tables hold after a request if they held before it: no answer and no
  -- exception leaves two rows with one key or id, or a record without its event.
  pub post-IsConsistent : IsConsistent w.db → IsConsistent (post s loads cap req w).1.db
  post-IsConsistent = Reach-IsConsistent post-Reach

  -- A row that is in the table before a request is in it afterwards, whatever the outcome: it is
  -- untouched, or it was live and has left RECEIVED with its id, key, vendor, payload and creation
  -- time kept.
  pub post-Evolved :
      (e : WebhookEvent)
      → In e w.db.events
      → (f : WebhookEvent) × In f (post s loads cap req w).1.db.events × Evolved e f
  post-Evolved = row_evolves post-Reach

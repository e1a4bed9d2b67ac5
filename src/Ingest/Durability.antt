-- ===== src/Ingest/Durability.antt =====
-- What an answer of POST /webhook promises about the database and the workflow engine.
use glacis_webhook_service.Base.{
  ◌≡◌, ◌≢◌, none, any, err, Result, true, sym, Bool, ℕ, ◌&&◌, Option, arith, Bool-cases, List,
  Option-cases, leb, find?, ◌++◌, inr, inl, some, ◌∷◌, [], ◌||◌, false, refl, eq_iff, if◌then◌else◌,
  eq_refl, subst,
}
use glacis_webhook_service.Exceptions.{
  Exn, RpcStatus, json_decode_error, bridge_overloaded, rpc_error,
}
use glacis_webhook_service.Json.{Json, obj, Members}
use glacis_webhook_service.Models.{WebhookStatus, WebhookEvent}
use glacis_webhook_service.Storage.{
  EventDict, has_key, has_id, is_too_long, insert_webhook_event, get_event_by_key, fresh_event,
}
use glacis_webhook_service.Storage.Queries.{same_status}
use glacis_webhook_service.Responses.{Response, get_header, problem, already_received}
use glacis_webhook_service.Services.{Services}
use glacis_webhook_service.Dedup.Cache.{check_duplicate_miss}
use glacis_webhook_service.Dedup.{check_duplicate, compute_idempotency_key}
use glacis_webhook_service.Bridge.{submit}
use glacis_webhook_service.Ingest.{
  Request, World, Outcome, mark_seen, after_start, start, resume, after_insert, persist,
  after_dedup, checked, with_payload, parsed, post, is_valid_id, String, ok,
}

-- An answer that takes the delivery in, and not as a replay.
abbrev pub IsAccepted : Response → Type 0
IsAccepted r = (r.status ≡ 200) × (get_header "Idempotent-Replayed" r.headers ≡ none)

module _ (s : Services) where
  open s use {start_workflow}

  abbrev pub is_row : String → String → WebhookEvent → Bool
  is_row key event_id e = has_key key e && has_id event_id e

  -- A row of the key is in the table, and Temporal has confirmed a start for its id and payload.
  pub record IsTaken (key : String) (payload : Members) (w : World s) : Type 0 where
    pub event_id : String
    pub stored : any (is_row key event_id) w.db.events ≡ true
    pub before : s.Temporal
    pub started : (start_workflow key event_id payload before).0 ≡ ok tt

  abbrev pub Promises : (World s → Type 0) → Outcome s → Type 0
  Promises P (ok r, w) = IsAccepted r → P w
  Promises P (err e, w) = Unit

  Promises-if :
      (P : World s → Type 0) (b : Bool) (x y : Outcome s)
      → (b ≡ true → Promises P x)
      → (b ≡ false → Promises P y)
      → Promises P (if b then x else y)
  Promises-if P true x y f g = f refl
  Promises-if P false x y f g = g refl

  pub problem-Promises :
      (P : World s → Type 0) (n : ℕ) (title detail slug : String) (path : Option String)
      (extra : Members) (w : World s)
      → n ≢ 200
      → Promises P (ok (problem n title detail slug path extra), w)
  unfolding problem
  problem-Promises P n title detail slug path extra w h a = absurd (h a.0)

  pub replay-Promises :
      (P : World s → Type 0) (key : String) (w : World s)
      → Promises P (ok (already_received key), w)
  unfolding already_received get_header
  replay-Promises P key w a = cc (a.1)

  module _ (cap : ℕ) (req : Request) (webhook_id key : String) (payload : Members) where
    pub overloaded-Promises :
        (w : World s)
        → Promises
            (IsTaken key payload)
            (after_start s req webhook_id key (err bridge_overloaded) w)
    unfolding after_start problem
    overloaded-Promises w a = absurd (omega (arith, a.0))

    after_start-Promises :
        (event_id : String) (t : s.Temporal) (r : Result Exn (Unit {0})) (w : World s)
        → r ≡ (start_workflow key event_id payload t).0
        → any (is_row key event_id) w.db.events ≡ true
        → Promises (IsTaken key payload) (after_start s req webhook_id key r w)
    unfolding after_start mark_seen
    after_start-Promises event_id t (ok _) w e h =
        λ _. record { event_id = event_id; stored = h; before = t; started = sym e }
    after_start-Promises event_id t (err bridge_overloaded) w e h = overloaded-Promises w
    after_start-Promises event_id t (err (rpc_error RpcStatus.already_exists)) w e h =
        replay-Promises (IsTaken key payload) key w
    after_start-Promises event_id t (err (rpc_error RpcStatus.other_status)) w e h =
        problem-Promises (IsTaken key payload) 503 _ _ _ _ _ w (omega arith)
    after_start-Promises event_id t (err _) w e h = tt

    start-Promises :
        (event_id : String) (w : World s)
        → any (is_row key event_id) w.db.events ≡ true
        → Promises (IsTaken key payload) (start s cap req webhook_id payload key event_id w)
    unfolding start
    start-Promises event_id w h = elim (Bool-cases (leb cap w.inflight)) [
      | inl t ↦ rw (t, submit) (overloaded-Promises w)
      | inr n ↦ rw (n, submit) (after_start-Promises event_id w.temporal _ _ refl h)
    ]

    -- The row that a lookup by the key finds is a row of the key with the id that it returns.
    find-is_row :
        (e : WebhookEvent) (es : List WebhookEvent)
        → find? (has_key key) es ≡ some e
        → any (is_row key e.id) es ≡ true
    find-is_row e [] h = absurd (none_is_no_event h)
      where
        none_is_no_event : ◌≡◌ {A = Option WebhookEvent} none (some e) → ⊥
        none_is_no_event h = cc
    find-is_row e (x ∷ es) h = ground (arith, find-is_row e es, eq_iff x.id e.id)

    found-Promises :
        (o : Option EventDict) (w : World s)
        → ((e : EventDict) → o ≡ some e → any (is_row key e.id) w.db.events ≡ true)
        → Promises (IsTaken key payload) (resume s cap req webhook_id payload key o w)
    unfolding resume
    found-Promises none w h = problem-Promises (IsTaken key payload) 500 _ _ _ _ _ w (omega arith)
    found-Promises (some e) w h =
        Promises-if (IsTaken key payload) (same_status e.status WebhookStatus.received) _ _
          (λ _. start-Promises e.id w (h e refl)) (λ _. replay-Promises (IsTaken key payload) key w)

    pub lookup-is_row :
        (w : World s) (e : EventDict)
        → get_event_by_key key w.db ≡ some e
        → any (is_row key e.id) w.db.events ≡ true
    unfolding get_event_by_key
    lookup-is_row w e h = elim (Option-cases (find? (has_key key) w.db.events)) [
      | inl missing ↦ ground arith
      | inr (x, found) ↦ ground (arith, find-is_row x w.db.events)
    ]

    pub any-last :
        (es : List WebhookEvent) (e : WebhookEvent)
        → is_row key e.id e ≡ true
        → any (is_row key e.id) (es ++ e ∷ []) ≡ true
    any-last [] e h = ground arith
    any-last (x ∷ es) e h = ground (arith, any-last es e h)

    inserted-Promises :
        (id : String) (now : ℕ) (w : World s)
        → Promises (IsTaken key payload) (
            let (r, db) = insert_webhook_event id now key payload req.vendor_id w.db in
            after_insert s cap req webhook_id payload key r (record w { db = db }))
    unfolding insert_webhook_event after_insert
    inserted-Promises id now w = elim (Bool-cases (is_too_long key req.vendor_id)) [
      | inl long ↦ rw long tt
      | inr fits ↦
          elim (Bool-cases (any (has_key key) w.db.events || any (has_id id) w.db.events)) [
            | inr fresh ↦
                rw (fits, fresh)
                  (start-Promises id _ (
                    any-last w.db.events (fresh_event id key payload req.vendor_id now)
                      (rw (eq_refl, eq_refl))))
            | inl taken ↦
                rw (fits, taken)
                  (Promises-if (IsTaken key payload) w.lookup_database _ _
                    (λ _. found-Promises _ w (lookup-is_row w)) (λ _. tt))
          ]
    ]

    persist-Promises :
        (w : World s) → Promises (IsTaken key payload) (persist s cap req webhook_id payload key w)
    unfolding persist
    persist-Promises w =
        Promises-if (IsTaken key payload) w.database _ _ (λ _. inserted-Promises w.id w.now w)
          (λ _. problem-Promises (IsTaken key payload) 503 _ _ _ _ _ w (omega arith))

  -- The request's own delivery is taken.
  pub record Took (loads : String → Result Exn Json) (req : Request) (w : World s) : Type 0 where
    pub webhook_id : String
    pub named : get_header "webhook-id" req.headers ≡ some webhook_id
    pub payload : Members
    pub read : loads req.raw ≡ ok (obj payload)
    pub taken : IsTaken (compute_idempotency_key webhook_id req.vendor_id) payload w

  Promises-mono :
      (P Q : World s → Type 0)
      → ((w : World s) → P w → Q w)
      → (o : Outcome s) → Promises P o
      → Promises Q o
  Promises-mono P Q m (ok r, w) h = λ a. m w (h a)
  Promises-mono P Q m (err e, w) h = tt

  module _ (loads : String → Result Exn Json) (cap : ℕ) (req : Request) (w : World s) where
    deduped-Promises :
        (webhook_id : String) (payload : Members) (r : Result Exn (Bool × String))
        → check_duplicate s webhook_id req.vendor_id w.now w.redis ≡ r
        → Promises
            (IsTaken (compute_idempotency_key webhook_id req.vendor_id) payload)
            (after_dedup s cap req webhook_id payload r w)
    unfolding after_dedup check_duplicate
    deduped-Promises webhook_id payload (ok (true, key)) e =
        replay-Promises (IsTaken (compute_idempotency_key webhook_id req.vendor_id) payload) key w
    deduped-Promises webhook_id payload (ok (false, key)) e =
        rw (check_duplicate_miss s webhook_id req.vendor_id key w.now w.redis e)
          (persist-Promises cap req webhook_id _ payload w)
    deduped-Promises webhook_id payload (err x) e =
        problem-Promises (IsTaken (compute_idempotency_key webhook_id req.vendor_id) payload) 503 _
          _ _ _ _ w (omega arith)

    named-Promises :
        (payload : Members) (o : Option String)
        → loads req.raw ≡ ok (obj payload)
        → get_header "webhook-id" req.headers ≡ o
        → Promises (Took loads req) (with_payload s cap req payload o w)
    unfolding with_payload checked
    named-Promises payload none read named = tt
    named-Promises payload (some webhook_id) read named =
        Promises-if (Took loads req) (is_valid_id webhook_id) _ _
          (λ _.
            Promises-mono (IsTaken (compute_idempotency_key webhook_id req.vendor_id) payload)
              (Took loads req)
              (λ w' t. record {
                webhook_id = webhook_id;
                named = named;
                payload = payload;
                read = read;
                taken = t;
              })
              _ (deduped-Promises webhook_id payload _ refl))
          (λ _. problem-Promises (Took loads req) 422 _ _ _ _ _ w (omega arith))

    parsed-Promises :
        (r : Result Exn Json) → loads req.raw ≡ r → Promises (Took loads req) (parsed s cap req r w)
    unfolding parsed
    parsed-Promises (ok (obj payload)) e = named-Promises payload _ e refl
    parsed-Promises (ok _) e = problem-Promises (Took loads req) 422 _ _ _ _ _ w (omega arith)
    parsed-Promises (err (json_decode_error _)) e =
        problem-Promises (Took loads req) 422 _ _ _ _ _ w (omega arith)
    parsed-Promises (err _) e = tt

  -- An answer 200 that is no replay means that the payload of the request is durably stored under
  -- the key of its vendor and webhook id, and that Temporal has confirmed the start of the workflow
  -- for the stored row's id and that payload. This holds for a first delivery and for a redelivery
  -- of a row that is still RECEIVED.
  pub post_accepted :
      (loads : String → Result Exn Json) (cap : ℕ) (req : Request) (w w' : World s) (r : Response)
      → post s loads cap req w ≡ (ok r, w')
      → IsAccepted r
      → Took loads req w'
  unfolding post
  post_accepted loads cap req w w' r h a =
      (subst (Promises (Took loads req)) h (parsed-Promises loads cap req w (loads req.raw) refl)) a

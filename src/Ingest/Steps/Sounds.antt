-- ===== src/Ingest/Steps/Sounds.antt =====
-- A step of a thread keeps what the thread knows, and writes the tables by an insert at most.
use glacis_webhook_service.Base.{
  ℕ, String, Bool, true, false, ◌||◌, ◌≡◌, ◌≢◌, refl, sym, subst, Option, none, some, any, Result,
  ok, err, ok_inj, if◌then◌else◌, arith, Bool-cases, inl, inr, leb, eq_refl, ◌⊎◌,
}
use glacis_webhook_service.Exceptions.{
  Exn, RpcStatus, json_decode_error, integrity_error, operational_error, bridge_overloaded,
  rpc_error,
}
use glacis_webhook_service.Json.{Json, null, bool, num, str, arr, obj, Members}
use glacis_webhook_service.Models.{WebhookStatus, Db}
use glacis_webhook_service.Storage.{
  EventDict, insert_webhook_event, get_event_by_key, has_key, has_id, is_too_long, fresh_event,
}
use glacis_webhook_service.Storage.Queries.{same_status}
use glacis_webhook_service.Storage.History.{Reach, here, next, insert}
use glacis_webhook_service.Responses.{get_header, problem}
use glacis_webhook_service.Services.{Services}
use glacis_webhook_service.Dedup.{check_duplicate, compute_idempotency_key}
use glacis_webhook_service.Dedup.Cache.{check_duplicate_miss}
use glacis_webhook_service.Bridge.{submit}
use glacis_webhook_service.Ingest.{Request, World, is_valid_id, bridge_overloaded_response}
use glacis_webhook_service.Ingest.Durability.{
  IsTaken, Took, is_row, problem-Promises, replay-Promises, lookup-is_row, any-last,
}
use glacis_webhook_service.Ingest.Steps.{
  Read, Stage, arrived, checking, inserting, looking_up, starting, marking, finished, read_id,
  read_body, was_checked, was_inserted, was_found, was_started, step,
}
use glacis_webhook_service.Ingest.Steps.Knows.{IsRead, Sound}

module _ (s : Services) (loads : String → Result Exn Json) (cap : ℕ) (req : Request) where
  open s use {start_workflow}

  refused :
      (n : ℕ) (title detail slug : String) (path : Option String) (extra : Members) (w : World s)
      → n ≢ 200
      → Sound s loads cap req (finished (ok (problem n title detail slug path extra))) w
  refused = problem-Promises s (Took s loads req)

  read_id-Sound :
      (o : Option String) (payload : Members) (w : World s)
      → loads req.raw ≡ ok (obj payload)
      → get_header "webhook-id" req.headers ≡ o
      → Sound s loads cap req (read_id req o payload) w
  read_id-Sound none payload w read named = tt
  read_id-Sound (some webhook_id) payload w read named =
      elim (Bool-cases (is_valid_id webhook_id)) [
        | inl t ↦ rw t (record { named = named; read = read; own_key = refl })
        | inr n ↦ rw n (refused 422 _ _ _ _ _ w (omega arith))
      ]

  read_body-Sound :
      (r : Result Exn Json) (w : World s)
      → loads req.raw ≡ r
      → Sound s loads cap req (read_body req r) w
  read_body-Sound (ok (obj payload)) w e = read_id-Sound _ payload w e refl
  read_body-Sound (ok null) w e = refused 422 _ _ _ _ _ w (omega arith)
  read_body-Sound (ok (bool b)) w e = refused 422 _ _ _ _ _ w (omega arith)
  read_body-Sound (ok (num n)) w e = refused 422 _ _ _ _ _ w (omega arith)
  read_body-Sound (ok (str t)) w e = refused 422 _ _ _ _ _ w (omega arith)
  read_body-Sound (ok (arr xs)) w e = refused 422 _ _ _ _ _ w (omega arith)
  read_body-Sound (err (json_decode_error m)) w e = refused 422 _ _ _ _ _ w (omega arith)
  read_body-Sound (err _) w e = tt

  checked-Sound :
      (d : Read) (r : Result Exn (Bool × String)) (w : World s)
      → IsRead s loads cap req d (compute_idempotency_key d.webhook_id req.vendor_id)
      → check_duplicate s d.webhook_id req.vendor_id w.now w.redis ≡ r
      → Sound s loads cap req (was_checked req d r) w
  checked-Sound d (ok (true, key)) w h e = replay-Promises s (Took s loads req) key w
  checked-Sound d (ok (false, key)) w h e = record {
    named = h.named;
    read = h.read;
    own_key = check_duplicate_miss s d.webhook_id req.vendor_id key w.now w.redis e;
  }
  checked-Sound d (err x) w h e = refused 503 _ _ _ _ _ w (omega arith)

  inserted_row :
      (id : String) (now : ℕ) (key : String) (payload : Members) (db : Db) (event_id : String)
      → (insert_webhook_event id now key payload req.vendor_id db).0 ≡ ok event_id
      → any
          (is_row s key event_id)
          (insert_webhook_event id now key payload req.vendor_id db).1.events
        ≡ true
  unfolding insert_webhook_event
  inserted_row id now key payload db event_id h =
      elim (Bool-cases (is_too_long key req.vendor_id)) [
        | inl long ↦ absurd (not_inserted (rw (long, insert_webhook_event) at h))
        | inr fits ↦ elim (Bool-cases (any (has_key key) db.events || any (has_id id) db.events)) [
          | inl t ↦ absurd (not_inserted (rw (fits, t, insert_webhook_event) at h))
          | inr n ↦
              (let same : id ≡ event_id = ok_inj (rw (fits, n, insert_webhook_event) at h) in
                rw (fits, n, sym same)
                  (any-last s cap req "" key payload db.events
                    (fresh_event id key payload req.vendor_id now) (rw (eq_refl, eq_refl) refl)))
        ]
      ]
    where
      not_inserted : {x : Exn} → ◌≡◌ {A = Result Exn String} (err x) (ok event_id) → ⊥
      not_inserted q = cc

  inserted-Sound :
      (d : Read) (key : String) (r : Result Exn String) (w v : World s)
      → IsRead s loads cap req d key
      → ((event_id : String) → r ≡ ok event_id → any (is_row s key event_id) v.db.events ≡ true)
      → Sound s loads cap req (was_inserted req d key r) v
  inserted-Sound d key (ok event_id) w v h f = (h, f event_id refl)
  inserted-Sound d key (err integrity_error) w v h f = h
  inserted-Sound d key (err operational_error) w v h f = refused 503 _ _ _ _ _ v (omega arith)
  inserted-Sound d key (err _) w v h f = tt

  found-Sound :
      (d : Read) (key : String) (o : Option EventDict) (w : World s)
      → IsRead s loads cap req d key
      → get_event_by_key key w.db ≡ o
      → Sound s loads cap req (was_found req d key o) w
  found-Sound d key none w h e = refused 500 _ _ _ _ _ w (omega arith)
  found-Sound d key (some x) w h e =
      elim (Bool-cases (same_status x.status WebhookStatus.received)) [
        | inl t ↦ rw t (h, lookup-is_row s cap req d.webhook_id key d.payload w x e)
        | inr n ↦ rw n (replay-Promises s (Took s loads req) key w)
      ]

  overloaded-Sound :
      (w : World s) → Sound s loads cap req (finished (ok (bridge_overloaded_response req.path))) w
  unfolding problem
  overloaded-Sound w a = absurd (omega (arith, a.0))

  started-Sound :
      (d : Read) (key event_id : String) (r : Result Exn (Unit {0})) (t : s.Temporal) (w : World s)
      → IsRead s loads cap req d key
      → any (is_row s key event_id) w.db.events ≡ true
      → (r ≡ (start_workflow key event_id d.payload t).0) ⊎ (r ≡ err bridge_overloaded)
      → Sound s loads cap req (was_started req d key r) w
  started-Sound d key event_id (ok u) t w h k (inl e) =
      (h, record { event_id = event_id; stored = k; before = t; started = sym e })
  started-Sound d key event_id (ok u) t w h k (inr e) = absurd (no_error e)
    where
      no_error : ◌≡◌ {A = Result Exn (Unit {0})} (ok u) (err bridge_overloaded) → ⊥
      no_error q = cc
  started-Sound d key event_id (err bridge_overloaded) t w h k e = overloaded-Sound w
  started-Sound d key event_id (err (rpc_error RpcStatus.already_exists)) t w h k e =
      replay-Promises s (Took s loads req) key w
  started-Sound d key event_id (err (rpc_error RpcStatus.other_status)) t w h k e =
      refused 503 _ _ _ _ _ w (omega arith)
  started-Sound d key event_id (err _) t w h k e = tt

  submitted :
      (key event_id : String) (payload : Members) (w : World s)
      → let r = (submit cap (start_workflow key event_id payload) (w.inflight, w.temporal)).0 in
        (r ≡ (start_workflow key event_id payload w.temporal).0) ⊎ (r ≡ err bridge_overloaded)
  unfolding submit
  submitted key event_id payload w = elim (Bool-cases (leb cap w.inflight)) [
    | inl t ↦ rw t (inr refl)
    | inr n ↦ rw n (inl refl)
  ]

  Sound-if :
      (b : Bool) (x y : Stage × World s)
      → Sound s loads cap req x.0 x.1
      → Sound s loads cap req y.0 y.1
      → Sound s loads cap req (if b then x else y).0 (if b then x else y).1
  Sound-if true x y h k = h
  Sound-if false x y h k = k

  -- A step of the thread keeps what it knows.
  pub step-Sound :
      (st : Stage) (w : World s)
      → Sound s loads cap req st w
      → Sound s loads cap req (step s loads cap req st w).0 (step s loads cap req st w).1
  unfolding step
  step-Sound arrived w h = read_body-Sound (loads req.raw) w refl
  step-Sound (checking d) w h = checked-Sound d _ w h refl
  step-Sound (inserting d key) w h =
      Sound-if w.database
        (
          was_inserted req d key
              (insert_webhook_event w.id w.now key d.payload req.vendor_id w.db).0,
          record w { db = (insert_webhook_event w.id w.now key d.payload req.vendor_id w.db).1 },
        )
        (was_inserted req d key (err operational_error), w)
        (inserted-Sound d key _ w _ h (inserted_row w.id w.now key d.payload w.db))
        (refused 503 _ _ _ _ _ w (omega arith))
  step-Sound (looking_up d key) w h =
      Sound-if w.lookup_database (was_found req d key (get_event_by_key key w.db), w)
        (finished (err operational_error), w) (found-Sound d key _ w h refl) tt
  step-Sound (starting d key event_id) w (h, k) =
      started-Sound d key event_id _ w.temporal _ h k (submitted key event_id d.payload w)
  step-Sound (marking d key) w (h, t) = λ a. record {
    webhook_id = d.webhook_id;
    named = h.named;
    payload = d.payload;
    read = h.read;
    taken =
        subst (λ k. IsTaken s k d.payload (step s loads cap req (marking d key) w).1) h.own_key
          (record {
            event_id = t.event_id;
            stored = t.stored;
            before = t.before;
            started = t.started;
          });
  }
  step-Sound (finished r) w h = h

  Reach-if :
      (b : Bool) (db : Db) (x y : Stage × World s)
      → Reach db x.1.db
      → Reach db y.1.db
      → Reach db (if b then x else y).1.db
  Reach-if true db x y h k = h
  Reach-if false db x y h k = k

  -- And it writes the tables by an insert at most.
  pub step-Reach : (st : Stage) (w : World s) → Reach w.db (step s loads cap req st w).1.db
  unfolding step
  step-Reach arrived w = here
  step-Reach (checking d) w = here
  step-Reach (inserting d key) w =
      Reach-if w.database w.db _ _ (next here (insert w.id w.now key d.payload req.vendor_id)) here
  step-Reach (looking_up d key) w = Reach-if w.lookup_database w.db _ _ here here
  step-Reach (starting d key event_id) w = here
  step-Reach (marking d key) w = here
  step-Reach (finished r) w = here

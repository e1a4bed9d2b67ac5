-- ===== src/Ingest/Steps/Alone.antt =====
-- The steps of one request that nothing comes between are the handler.
use glacis_webhook_service.Base.{
  ℕ, zero, suc, ◌-◌, ◌≤◌, String, Bool, true, false, ◌≡◌, refl, ◌∙◌, ap, Option, none, some, Result,
  ok, err, if◌then◌else◌, arith, Bool-cases, inl, inr,
}
use glacis_webhook_service.Exceptions.{
  Exn, RpcStatus, json_decode_error, integrity_error, operational_error, bridge_overloaded,
  rpc_error,
}
use glacis_webhook_service.Json.{Json, null, bool, num, str, arr, obj, Members}
use glacis_webhook_service.Models.{WebhookStatus}
use glacis_webhook_service.Storage.{EventDict, insert_webhook_event, get_event_by_key}
use glacis_webhook_service.Storage.Queries.{same_status}
use glacis_webhook_service.Responses.{get_header}
use glacis_webhook_service.Services.{Services}
use glacis_webhook_service.Dedup.{check_duplicate}
use glacis_webhook_service.Ingest.{
  Request, World, Outcome, mark_seen, after_start, start, resume, after_insert, persist,
  after_dedup, checked, with_payload, parsed, post, is_valid_id,
}
use glacis_webhook_service.Ingest.Steps.{
  Read, Stage, arrived, checking, inserting, looking_up, starting, marking, finished, read_id,
  read_body, was_checked, was_inserted, was_found, was_started, step,
}

module _ (s : Services) (loads : String → Result Exn Json) (cap : ℕ) (req : Request) where
  pub steps : ℕ → Stage → World s → Stage × World s
  steps zero st w = (st, w)
  steps (suc n) st w = steps n (step s loads cap req st w).0 (step s loads cap req st w).1

  -- What is left of the handler at a stage.
  rest : Stage → World s → Outcome s
  rest arrived w = post s loads cap req w
  rest (checking d) w =
      after_dedup s cap req d.webhook_id d.payload
        (check_duplicate s d.webhook_id req.vendor_id w.now w.redis) w
  rest (inserting d key) w = persist s cap req d.webhook_id d.payload key w
  rest (looking_up d key) w =
      if w.lookup_database
      then resume s cap req d.webhook_id d.payload key (get_event_by_key key w.db) w
      else (err operational_error, w)
  rest (starting d key event_id) w = start s cap req d.webhook_id d.payload key event_id w
  rest (marking d key) w = mark_seen s req d.webhook_id key w
  rest (finished r) w = (r, w)

  read_id_lem :
      (o : Option String) (payload : Members) (w : World s)
      → rest (read_id req o payload) w ≡ with_payload s cap req payload o w
  unfolding rest with_payload checked
  read_id_lem none payload w = refl
  read_id_lem (some webhook_id) payload w = elim (Bool-cases (is_valid_id webhook_id)) [
    | inl t ↦ rw t refl
    | inr n ↦ rw n refl
  ]

  read_body_lem :
      (r : Result Exn Json) (w : World s) → rest (read_body req r) w ≡ parsed s cap req r w
  unfolding rest parsed
  read_body_lem (ok (obj payload)) w = read_id_lem (get_header "webhook-id" req.headers) payload w
  read_body_lem (ok null) w = refl
  read_body_lem (ok (bool b)) w = refl
  read_body_lem (ok (num n)) w = refl
  read_body_lem (ok (str t)) w = refl
  read_body_lem (ok (arr xs)) w = refl
  read_body_lem (err (json_decode_error m)) w = refl
  read_body_lem (err _) w = refl

  was_checked_lem :
      (d : Read) (r : Result Exn (Bool × String)) (w : World s)
      → rest (was_checked req d r) w ≡ after_dedup s cap req d.webhook_id d.payload r w
  unfolding rest after_dedup
  was_checked_lem d (ok (true, key)) w = refl
  was_checked_lem d (ok (false, key)) w = refl
  was_checked_lem d (err e) w = refl

  was_inserted_lem :
      (d : Read) (key : String) (r : Result Exn String) (w : World s)
      → rest (was_inserted req d key r) w ≡ after_insert s cap req d.webhook_id d.payload key r w
  unfolding rest after_insert
  was_inserted_lem d key (ok event_id) w = refl
  was_inserted_lem d key (err integrity_error) w = refl
  was_inserted_lem d key (err operational_error) w = refl
  was_inserted_lem d key (err _) w = refl

  was_found_lem :
      (d : Read) (key : String) (o : Option EventDict) (w : World s)
      → rest (was_found req d key o) w ≡ resume s cap req d.webhook_id d.payload key o w
  unfolding rest resume
  was_found_lem d key none w = refl
  was_found_lem d key (some e) w = elim (Bool-cases (same_status e.status WebhookStatus.received)) [
    | inl t ↦ rw t refl
    | inr n ↦ rw n refl
  ]

  was_started_lem :
      (d : Read) (key : String) (r : Result Exn (Unit {0})) (w : World s)
      → rest (was_started req d key r) w ≡ after_start s req d.webhook_id key r w
  unfolding rest after_start
  was_started_lem d key (ok _) w = refl
  was_started_lem d key (err bridge_overloaded) w = refl
  was_started_lem d key (err (rpc_error RpcStatus.already_exists)) w = refl
  was_started_lem d key (err (rpc_error RpcStatus.other_status)) w = refl
  was_started_lem d key (err _) w = refl

  rest-if :
      (b : Bool) (x y : Stage × World s) (o q : Outcome s)
      → rest x.0 x.1 ≡ o
      → rest y.0 y.1 ≡ q
      → rest (if b then x else y).0 (if b then x else y).1 ≡ (if b then o else q)
  rest-if true x y o q h k = h
  rest-if false x y o q h k = k

  -- A step leaves what is left.
  rest-step :
      (st : Stage) (w : World s)
      → rest (step s loads cap req st w).0 (step s loads cap req st w).1 ≡ rest st w
  unfolding step rest post persist start mark_seen
  rest-step arrived w = read_body_lem (loads req.raw) w
  rest-step (checking d) w = was_checked_lem d _ w
  rest-step (inserting d key) w =
      rest-if w.database _ _ _ _
        (was_inserted_lem d key (insert_webhook_event w.id w.now key d.payload req.vendor_id w.db).0
          (record w { db = (insert_webhook_event w.id w.now key d.payload req.vendor_id w.db).1 }))
        (was_inserted_lem d key (err operational_error) w)
  rest-step (looking_up d key) w = rest-if w.lookup_database _ _ _ _ (was_found_lem d key _ w) refl
  rest-step (starting d key event_id) w = was_started_lem d key _ _
  rest-step (marking d key) w = refl
  rest-step (finished r) w = refl

  -- The steps that a stage has left at most.
  left : Stage → ℕ
  left arrived = 6
  left (checking d) = 5
  left (inserting d key) = 4
  left (looking_up d key) = 3
  left (starting d key event_id) = 2
  left (marking d key) = 1
  left (finished r) = 0

  read_left : (r : Result Exn Json) → left (read_body req r) ≤ 5
  unfolding left
  read_left (ok (obj payload)) = ground arith
  read_left (ok null) = omega arith
  read_left (ok (bool b)) = omega arith
  read_left (ok (num n)) = omega arith
  read_left (ok (str t)) = omega arith
  read_left (ok (arr xs)) = omega arith
  read_left (err (json_decode_error m)) = omega arith
  read_left (err _) = omega arith

  inserted_left :
      (d : Read) (key : String) (r : Result Exn String) → left (was_inserted req d key r) ≤ 3
  unfolding left
  inserted_left d key (ok event_id) = omega arith
  inserted_left d key (err integrity_error) = omega arith
  inserted_left d key (err operational_error) = omega arith
  inserted_left d key (err _) = omega arith

  checked_left : (d : Read) (r : Result Exn (Bool × String)) → left (was_checked req d r) ≤ 4
  unfolding left
  checked_left d (ok (true, key)) = omega arith
  checked_left d (ok (false, key)) = omega arith
  checked_left d (err e) = omega arith

  found_left : (d : Read) (key : String) (o : Option EventDict) → left (was_found req d key o) ≤ 2
  unfolding left
  found_left d key none = omega arith
  found_left d key (some e) = ground arith

  started_left :
      (d : Read) (key : String) (r : Result Exn (Unit {0})) → left (was_started req d key r) ≤ 1
  unfolding left
  started_left d key (ok _) = omega arith
  started_left d key (err bridge_overloaded) = omega arith
  started_left d key (err (rpc_error RpcStatus.already_exists)) = omega arith
  started_left d key (err (rpc_error RpcStatus.other_status)) = omega arith
  started_left d key (err _) = omega arith

  left-if :
      (n : ℕ) (b : Bool) (x y : Stage × World s)
      → left x.0 ≤ n
      → left y.0 ≤ n
      → left (if b then x else y).0 ≤ n
  left-if n true x y h k = h
  left-if n false x y h k = k

  step_left : (st : Stage) (w : World s) → left (step s loads cap req st w).0 ≤ left st - 1
  unfolding step left
  step_left arrived w = read_left (loads req.raw)
  step_left (checking d) w = checked_left d _
  step_left (inserting d key) w = left-if 3 w.database _ _ (inserted_left d key _) (omega arith)
  step_left (looking_up d key) w =
      left-if 2 w.lookup_database _ _ (found_left d key _) (omega arith)
  step_left (starting d key event_id) w = started_left d key _
  step_left (marking d key) w = omega arith
  step_left (finished r) w = omega arith

  ends :
      (n : ℕ) (st : Stage) (w : World s)
      → left st ≤ n
      → steps n st w ≡ (finished (rest st w).0, (rest st w).1)
  unfolding steps rest left step
  ends zero (finished r) w h = refl
  ends zero arrived w h = absurd (omega (arith, h))
  ends zero (checking d) w h = absurd (omega (arith, h))
  ends zero (inserting d key) w h = absurd (omega (arith, h))
  ends zero (looking_up d key) w h = absurd (omega (arith, h))
  ends zero (starting d key event_id) w h = absurd (omega (arith, h))
  ends zero (marking d key) w h = absurd (omega (arith, h))
  ends (suc n) st w h =
      ends n (step s loads cap req st w).0 (step s loads cap req st w).1
        (omega (arith, step_left st w, h))
      ∙ ap (λ (o : Outcome s). (finished o.0, o.1)) (rest-step st w)

  -- The steps of a request that nothing comes between are the handler: after six of them it has
  -- finished, with the answer or exception of `post` and with its effects.
  pub steps-post :
      (w : World s)
      → steps 6 arrived w ≡ (finished (post s loads cap req w).0, (post s loads cap req w).1)
  steps-post w = unfold rest left in ends 6 arrived w (omega arith)

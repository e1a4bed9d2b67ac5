-- ===== src/Ingest/Delivery.antt =====
-- From the answer of webhooks/views.py to the end of the run of workflows/definitions.py that it
-- has started: the view, the tables and the workflow together.
use glacis_webhook_service.Base.{
  ℕ, String, true, false, not, ◌&&◌, inl, inr, Bool-cases, ◌≡◌, refl, List, [], ◌∷◌, any, In,
  In-any, any-In, All-In, In-All, arith, ◌==◌, eq_iff, subst, sym, ◌∙◌, ap, some, ok, Result,
  some_inj,
}
use glacis_webhook_service.Exceptions.{Exn}
use glacis_webhook_service.Json.{Json, obj, Members}
use glacis_webhook_service.Codec.{Codec}
use glacis_webhook_service.Domain.Pydantic.{Pydantic}
use glacis_webhook_service.Models.{WebhookEvent, Db}
use glacis_webhook_service.Responses.{Response, get_header}
use glacis_webhook_service.Services.{Services}
use glacis_webhook_service.Dedup.{compute_idempotency_key}
use glacis_webhook_service.Storage.{has_key, has_id, is_terminal}
use glacis_webhook_service.Storage.Rows.{SameRow, Evolved}
use glacis_webhook_service.Storage.History.{
  Reach, Write, here, next, insert, mark_processing, mark_terminal, store, row_evolves, Adds,
}
use glacis_webhook_service.Storage.Settled.{IsSettled}
use glacis_webhook_service.Storage.Consistency.{IsConsistent, Distinct}
use glacis_webhook_service.Storage.InStep.{IsInStep, Steps-IsInStep, Adds-Steps}
use glacis_webhook_service.Llm.{Llm}
use glacis_webhook_service.Activities.{Worker}
use glacis_webhook_service.Activities.Settles.{IsReady, IsRecorded}
use glacis_webhook_service.Workflow.{run, RunResult, returned, failed, unmarked, timed_out, crashed}
use glacis_webhook_service.Workflow.Temporal.{Engine, EngineLaws}
use glacis_webhook_service.Workflow.Keeps.{run_keeps, Own-Reach}
use glacis_webhook_service.Workflow.Settling.{Others}
use glacis_webhook_service.Workflow.Settling.Ends.{EndsAs, run-Ends}
use glacis_webhook_service.Workflow.Settling.Peers
use glacis_webhook_service.Workflow.Settling.Peers.{Peer, Writes}
use glacis_webhook_service.Workflow.Settling.Peers.Ready.{Writes-IsReady}
use glacis_webhook_service.Ingest.{Request, World, post}
use glacis_webhook_service.Ingest.Answers.{post-Adds}
use glacis_webhook_service.Ingest.Durability.{IsAccepted, IsTaken, post_accepted, is_row}

Distinct-unique :
    {A : Type 0} (f : A → String) (a b : A) (xs : List A)
    → Distinct f xs
    → In a xs
    → In b xs
    → f a ≡ f b
    → a ≡ b
Distinct-unique f a b [] d h k q = absurd h
Distinct-unique f a b (x ∷ xs) (n, d) (inl p) (inl r) q = p ∙ sym r
Distinct-unique f a b (x ∷ xs) (n, d) (inl p) (inr k) q =
    absurd (twice n (In-any (λ y. f y == f x) b xs k ((eq_iff (f b) (f x)).1 (sym q ∙ ap f p))))
  where
    twice : any (λ y. f y == f x) xs ≡ false → any (λ y. f y == f x) xs ≡ true → ⊥
    twice m t = cc
Distinct-unique f a b (x ∷ xs) (n, d) (inr h) (inl r) q =
    absurd (twice n (In-any (λ y. f y == f x) a xs h ((eq_iff (f a) (f x)).1 (q ∙ ap f r))))
  where
    twice : any (λ y. f y == f x) xs ≡ false → any (λ y. f y == f x) xs ≡ true → ⊥
    twice m t = cc
Distinct-unique f a b (x ∷ xs) (n, d) (inr h) (inr k) q = Distinct-unique f a b xs d h k q

-- Over tables whose records are in step, a stored row is ready for its run.
stored_row-IsReady :
    (key : String) (e : WebhookEvent) (db : Db)
    → IsConsistent db
    → IsInStep db
    → In e db.events
    → e.idempotency_key ≡ key
    → IsReady key e.id db
stored_row-IsReady key e db c step h k = record {
  known = In-any (has_id e.id) e db.events h ((eq_iff e.id e.id).1 refl);
  keyed = In-any (has_key key) e db.events h ((eq_iff e.idempotency_key key).1 k);
  recorded = λ r. In-All _ db.events (λ x i. settled_row x i r);
}
  where
    settled_row :
        (x : WebhookEvent)
        → In x db.events
        → IsRecorded e.id db
        → has_key key x && not (is_terminal x.status) ≡ false
    settled_row x i r = elim (Bool-cases (has_key key x)) [
      | inr n ↦ ground arith
      | inl t ↦
          (let same : e ≡ x =
              Distinct-unique (λ y. y.idempotency_key) e x db.events c.keys h i
                (k ∙ sym ((eq_iff x.idempotency_key key).0 t)) in
            let ended : is_terminal x.status ≡ true =
              subst (λ y. is_terminal y.status ≡ true) same
                (All-In (λ y. IsRecorded y.id db → is_terminal y.status ≡ true) e db.events step h
                  r) in
            ground arith)
    ]

module _ (key event_id : String) where
  Peer-Write : {db db' : Db} → Peer key event_id db db' → Write db db'
  Peer-Write (Peers.inserts id now k payload vendor) = insert id now k payload vendor
  Peer-Write (Peers.begins k) = mark_processing k
  Peer-Write (Peers.ends now k status error) = mark_terminal now k status error
  Peer-Write (Peers.stores now event_type normalized_data o review) =
      store now key event_id event_type normalized_data o review
  Peer-Write (Peers.stores_other now k i event_type normalized_data o review other) =
      store now k i event_type normalized_data o review

  Writes-Reach : {a b db : Db} → Writes key event_id a b → Reach db a → Reach db b
  Writes-Reach Peers.here r = r
  Writes-Reach (Peers.next n st) r = next (Writes-Reach n r) (Peer-Write st)

obj_inj : {m n : Members} → ◌≡◌ {A = Result Exn Json} (ok (obj m)) (ok (obj n)) → m ≡ n
obj_inj h = cc

-- The row has ended: a later state of it is in the table, with its identity and payload, and its
-- status is terminal.
pub record HasEnded (e : WebhookEvent) (db : Db) : Type 0 where
  pub row : WebhookEvent
  pub there : In row db.events
  pub same : SameRow e row
  pub ended : is_terminal row.status ≡ true

Evolved-same : (e f : WebhookEvent) → Evolved e f → SameRow e f
Evolved-same e f (inl q) = record {
  id = ap (λ x. x.id) q;
  idempotency_key = ap (λ x. x.idempotency_key) q;
  source_vendor = ap (λ x. x.source_vendor) q;
  raw_payload = ap (λ x. x.raw_payload) q;
  created_at = ap (λ x. x.created_at) q;
}
Evolved-same e f (inr m) = m.same

-- Where the key is settled, what the row has become is terminal.
settled-HasEnded :
    (key : String) (e : WebhookEvent) (a b : Db)
    → Reach a b
    → In e a.events
    → e.idempotency_key ≡ key
    → IsSettled key b.events
    → HasEnded e b
settled-HasEnded key e a b r h k s =
    let (f, there, moved) = row_evolves r e h in
    let same = Evolved-same e f moved in
    let mine : has_key key f ≡ true = (eq_iff f.idempotency_key key).1 (same.idempotency_key ∙ k) in
    let quiet : has_key key f && not (is_terminal f.status) ≡ false =
      All-In (λ x. has_key key x && not (is_terminal x.status) ≡ false) f b.events s there in
    record { row = f; there = there; same = same; ended = ground arith }

-- The row is there, in whichever status, and another run may begin.
pub record HasStayed (key : String) (e : WebhookEvent) (db : Db) : Type 0 where
  pub row : WebhookEvent
  pub there : In row db.events
  pub same : SameRow e row
  pub ready : IsReady key e.id db

-- What a run leaves of the row, by the way in which it ends.
abbrev pub LeftBy : String → WebhookEvent → RunResult → Db → Type 0
LeftBy key e returned db = HasEnded e db
LeftBy key e (failed x) db = HasEnded e db
LeftBy key e (unmarked x) db = HasStayed key e db
LeftBy key e timed_out db = HasStayed key e db
LeftBy key e (crashed x) db = ⊥

run-LeftBy :
    (key : String) (e : WebhookEvent) (a : Db) (r : RunResult) (b : Db)
    → Reach a b
    → In e a.events
    → e.idempotency_key ≡ key
    → IsReady key e.id b
    → EndsAs key r b
    → LeftBy key e r b
run-LeftBy key e a r b reach h k ready = left r
  where
    settled : IsSettled key b.events → HasEnded e b
    settled s = settled-HasEnded key e a b reach h k s

    stayed : HasStayed key e b
    stayed =
        let (f, there, moved) = row_evolves reach e h in
        record { row = f; there = there; same = Evolved-same e f moved; ready = ready }

    left : (r : RunResult) → EndsAs key r b → LeftBy key e r b
    left returned s = settled s
    left (failed x) s = settled s
    left (unmarked x) s = stayed
    left timed_out s = stayed
    left (crashed x) s = s

module _ (s : Services) (c : Codec) (p : Pydantic) (llm : Llm) (loads : String → Result Exn Json)
    (cap : ℕ) (req : Request) (w w' : World s) (r : Response) (webhook_id : String)
    (payload : Members) where
  abbrev key : String
  key = compute_idempotency_key webhook_id req.vendor_id

  -- The start that the answer promises is that of the stored row.
  taken_row :
      (e : WebhookEvent)
      → IsConsistent w'.db
      → In e w'.db.events
      → e.idempotency_key ≡ key
      → IsTaken s key payload w'
      → (before : s.Temporal) × ((s.start_workflow key e.id payload before).0 ≡ ok tt)
  taken_row e cons h k t =
      let (g, there, q) = any-In (is_row s key t.event_id) w'.db.events t.stored in
      let g_key : g.idempotency_key ≡ key = (eq_iff g.idempotency_key key).0 (ground arith) in
      let g_id : g.id ≡ t.event_id = (eq_iff g.id t.event_id).0 (ground arith) in
      let same : g ≡ e =
        Distinct-unique (λ y. y.idempotency_key) g e w'.db.events cons.keys there h
          (g_key ∙ sym k) in
      (
        t.before,
        subst (λ i. (s.start_workflow key i payload t.before).0 ≡ ok tt)
            (sym g_id ∙ ap (λ x. x.id) same) t.started,
      )

  -- Over tables that satisfy the constraints and in which every event with a record is settled: if a
  -- delivery is answered with a 200 that is no replay, then Temporal has confirmed the start of the
  -- workflow for the row of its key, with that row's id and the payload of the request. However the
  -- run of it ends and however often its activities are retried, the row is still there then, with
  -- its identity and payload; its status is terminal if the run returned or failed with the row
  -- marked; and if marking failed too or the run timeout came, the row is ready for another run. The
  -- workflow code does not raise. Other processes may write the tables before the run and between
  -- its steps, as long as no transaction of another key or event saves a record of this event.
  pub delivery_settles :
      (answered : post s loads cap req w ≡ (ok r, w')) (accepted : IsAccepted r)
      (consistent : IsConsistent w.db) (in_step : IsInStep w.db)
      (named : get_header "webhook-id" req.headers ≡ some webhook_id)
      (read : loads req.raw ≡ ok (obj payload)) (e : WebhookEvent) (stored : In e w'.db.events)
      (keyed : e.idempotency_key ≡ key) (v : Worker llm) (peers : Writes key e.id w'.db v.db)
      (engine : Engine (Worker llm)) (max_retries : ℕ)
      (laws : EngineLaws (Worker llm) (Others c p llm key e.id) engine)
      → ((before : s.Temporal) × ((s.start_workflow key e.id payload before).0 ≡ ok tt))
        × LeftBy key e
            (run c p llm engine max_retries key e.id payload v).0
            (run c p llm engine max_retries key e.id payload v).1.db
  delivery_settles answered accepted consistent in_step named read e stored keyed v peers engine
        max_retries laws =
      let t = post_accepted s loads cap req w w' r answered accepted in
      let same_id : t.webhook_id ≡ webhook_id = some_inj (sym t.named ∙ named) in
      let same_payload : t.payload ≡ payload = obj_inj (sym t.read ∙ read) in
      let taken : IsTaken s key payload w' =
        subst (λ m. IsTaken s key m w') same_payload
          (subst (λ i. IsTaken s (compute_idempotency_key i req.vendor_id) t.payload w') same_id
            t.taken) in
      let adds = subst (λ o. Adds w.db o.1.db) answered (post-Adds s loads cap req w) in
      let (cons, step) = Steps-IsInStep (Adds-Steps adds) consistent in_step in
      let ready =
        Writes-IsReady key e.id peers (stored_row-IsReady key e w'.db cons step stored keyed) in
      let (again, ends) = run-Ends c p llm key e.id payload engine max_retries laws v ready in
      let reach =
        run_keeps key e.id c p llm (Reach w'.db) (Others c p llm key e.id)
          (λ a b o q. Own-Reach key e.id o q) (λ u x n q. Writes-Reach key e.id n q) payload engine
          laws max_retries v (Writes-Reach key e.id peers here) in
      (
        taken_row e cons stored keyed taken,
        run-LeftBy key e w'.db _ _ reach stored keyed again ends,
      )

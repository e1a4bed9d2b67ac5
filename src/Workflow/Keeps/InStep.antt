-- ===== src/Workflow/Keeps/InStep.antt =====
-- A run of the workflow for a row of the table stores its record with the row of its own event, so
-- that it keeps the records in step with the events.
use glacis_webhook_service.Base.{
  In-any, ℕ, String, true, false, inl, inr, ◌≡◌, List, [], ◌∷◌, any, In, arith, eq_iff, subst, sym,
  ◌∙◌, ap,
}
use glacis_webhook_service.Json.{Members}
use glacis_webhook_service.Codec.{Codec}
use glacis_webhook_service.Domain.Pydantic.{Pydantic}
use glacis_webhook_service.Models.{WebhookEvent, WebhookStatus, Db}
use glacis_webhook_service.Storage.{has_key, has_id}
use glacis_webhook_service.Storage.History
use glacis_webhook_service.Storage.History.{Reach, row_evolves}
use glacis_webhook_service.Storage.Consistency.{IsConsistent, Distinct}
use glacis_webhook_service.Storage.InStep.{
  IsInStep, Owns, Step, Steps, begins, ends, stores, here, next, Steps-IsInStep, Step-Write,
}
use glacis_webhook_service.Llm.{Llm}
use glacis_webhook_service.Activities.{Worker}
use glacis_webhook_service.Workflow.{run}
use glacis_webhook_service.Workflow.Temporal.{Engine, EngineLaws}
use glacis_webhook_service.Workflow.Keeps
use glacis_webhook_service.Workflow.Keeps.{Own, run_keeps}

-- The row of the event and of the key.
pub record IsRowOf (key event_id : String) (db : Db) : Type 0 where
  pub row : WebhookEvent
  pub there : In row db.events
  pub id : row.id ≡ event_id
  pub idempotency_key : row.idempotency_key ≡ key

module _ (key event_id : String) where
  absent-Owns : (es : List WebhookEvent) → any (has_id event_id) es ≡ false → Owns key event_id es
  absent-Owns [] h = tt
  absent-Owns (e ∷ es) h = (λ t. ground arith, absent-Owns es (ground arith))

  -- Where no two rows have one id, the row of the event is the only one.
  row-Owns :
      (f : WebhookEvent) (es : List WebhookEvent)
      → Distinct (λ e. e.id) es
      → In f es
      → f.id ≡ event_id
      → f.idempotency_key ≡ key
      → Owns key event_id es
  row-Owns f [] d h i k = tt
  row-Owns f (x ∷ es) (n, d) (inl p) i k =
      let same : x.id ≡ event_id = ap (λ e. e.id) (sym p) ∙ i in
      (
        λ t. (eq_iff x.idempotency_key key).1 (ap (λ e. e.idempotency_key) (sym p) ∙ k),
        absent-Owns es (subst (λ j. any (has_id j) es ≡ false) same n),
      )
  row-Owns f (x ∷ es) (n, d) (inr h) i k = (
    λ t.
        clash (
          In-any (has_id x.id) f es h
            ((eq_iff f.id x.id).1 (i ∙ sym ((eq_iff x.id event_id).0 t)))),
    row-Owns f es d h i k,
  )
    where
      clash : any (has_id x.id) es ≡ true → has_key key x ≡ true
      clash m = absurd (both m n)
        where
          both : any (has_id x.id) es ≡ true → any (has_id x.id) es ≡ false → ⊥
          both a b = cc

  IsRowOf-Step : {db db' : Db} → Step db db' → IsRowOf key event_id db → IsRowOf key event_id db'
  IsRowOf-Step st r =
      let (f, h, e) = row_evolves (History.next History.here (Step-Write st)) r.row r.there in
      elim e [
        | inl q ↦ record {
          row = f;
          there = h;
          id = ap (λ x. x.id) q ∙ r.id;
          idempotency_key = ap (λ x. x.idempotency_key) q ∙ r.idempotency_key;
        }
        | inr m ↦ record {
          row = f;
          there = h;
          id = m.same.id ∙ r.id;
          idempotency_key = m.same.idempotency_key ∙ r.idempotency_key;
        }
      ]

  pub record IsTracked (db : Db) : Type 0 where
    pub consistent : IsConsistent db
    pub in_step : IsInStep db
    pub row_of : IsRowOf key event_id db

  Step-IsTracked : {db db' : Db} → Step db db' → IsTracked db → IsTracked db'
  Step-IsTracked st t =
      let (c, h) = Steps-IsInStep (next here st) t.consistent t.in_step in
      record { consistent = c; in_step = h; row_of = IsRowOf-Step st t.row_of }

  Steps-IsTracked : {db db' : Db} → Steps db db' → IsTracked db → IsTracked db'
  Steps-IsTracked here t = t
  Steps-IsTracked (next r st) t = Step-IsTracked st (Steps-IsTracked r t)

  Own-IsTracked : (a b : Db) → Own key event_id a b → IsTracked a → IsTracked b
  Own-IsTracked a b Keeps.nothing t = t
  Own-IsTracked a b Keeps.begins t = Step-IsTracked (begins key) t
  Own-IsTracked a b (Keeps.fails now error) t =
      Step-IsTracked (ends now key WebhookStatus.failed error) t
  Own-IsTracked a b (Keeps.stores now event_type normalized_data o review of) t =
      let r = t.row_of in
      Step-IsTracked
        (stores now key event_id event_type normalized_data o review
          (row-Owns r.row a.events t.consistent.ids r.there r.id r.idempotency_key) of)
        t

  -- Over tables that satisfy the constraints and in which every event with a record is settled, a
  -- run for the id and the key of a stored row leaves such tables, with that row still there,
  -- whether it returns, fails or crashes, however often its activities are retried, and while
  -- others store their records with the rows of their own events.
  pub run-IsTracked :
      (c : Codec) (p : Pydantic) (llm : Llm) (payload : Members) (engine : Engine (Worker llm))
      (laws : EngineLaws (Worker llm) (λ u v. Steps u.db v.db) engine) (max_retries : ℕ)
      (w : Worker llm)
      → IsTracked w.db
      → IsTracked (run c p llm engine max_retries key event_id payload w).1.db
  run-IsTracked c p llm payload engine laws max_retries w t =
      run_keeps key event_id c p llm IsTracked (λ u v. Steps u.db v.db) Own-IsTracked
        (λ u v n h. Steps-IsTracked n h) payload engine laws max_retries w t

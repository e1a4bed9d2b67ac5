-- ===== src/Workflow/Sweep/Handled.antt =====
-- What becomes of the rows that the sweep reissues, while other processes write the tables.
use glacis_webhook_service.Base.{
  ◌≡◌, ◌⊎◌, inl, inr, List, All, refl, Option-cases, Bool-cases, ok, none, Result, err, some, true,
  ◌∷◌, subst, sym, [], String, ⊎_map,
}
use glacis_webhook_service.Exceptions.{Exn, RpcStatus, rpc_error, operational_error}
use glacis_webhook_service.Json.{Members}
use glacis_webhook_service.Llm.{Llm}
use glacis_webhook_service.Models.{Db}
use glacis_webhook_service.Services.{Services}
use glacis_webhook_service.Storage.{EventDict, get_event_by_key, is_terminal}
use glacis_webhook_service.Storage.History.{Reach, here, next}
use glacis_webhook_service.Storage.Queries.{StuckRow}
use glacis_webhook_service.Activities.{benign, reissue_classify_workflow}
use glacis_webhook_service.Workflow.{quick_retry}
use glacis_webhook_service.Workflow.Temporal.{
  Interrupt, Engine, EngineLaws, Executes-last, Executes-keeps,
}
use glacis_webhook_service.Workflow.Sweep.{Sweeper, reissue, reissue_all, after_reissue}

pub Reach-trans : {a b c : Db} → Reach a b → Reach b c → Reach a c
Reach-trans r here = r
Reach-trans r (next q st) = next (Reach-trans r q) st

module _ (s : Services) where
  open s use {Temporal, start_workflow}

  -- What Temporal has started, by workflow ids: a confirmed start is there from then on, and a gRPC
  -- error ALREADY_EXISTS says that it is there.
  pub record History : Type 1 where
    pub HasRun : String → Temporal → Type 0
    pub confirmed :
        (key event_id : String) (payload : Members) (t : Temporal)
        → (start_workflow key event_id payload t).0 ≡ ok tt
        → HasRun key (start_workflow key event_id payload t).1
    pub known :
        (key event_id : String) (payload : Members) (t : Temporal)
        → (start_workflow key event_id payload t).0 ≡ err (rpc_error RpcStatus.already_exists)
        → HasRun key (start_workflow key event_id payload t).1
    pub stays :
        (k key event_id : String) (payload : Members) (t : Temporal)
        → HasRun k t
        → HasRun k (start_workflow key event_id payload t).1

module _ (llm : Llm) (s : Services) (history : History s) where
  open s use {Temporal, start_workflow}
  open history use {HasRun, confirmed, known, stays}

  -- The other processes write by the helpers of storage.py, and Temporal forgets no run.
  abbrev pub Others : Sweeper llm s → Sweeper llm s → Type 0
  Others v w =
      Reach v.worker.db w.worker.db × ((k : String) → HasRun k v.temporal → HasRun k w.temporal)

  -- No event has the key of the row, or its event is settled.
  abbrev pub IsOver : StuckRow → Db → Type 0
  IsOver row db =
      (get_event_by_key row.idempotency_key db ≡ none)
      ⊎ ((e : EventDict) × (get_event_by_key row.idempotency_key db ≡ some e)
          × (is_terminal e.status ≡ true))

  benign_lem :
      (r : Result Exn (Unit {0})) (x : Unit {0})
      → benign start_workflow r ≡ ok x
      → (r ≡ ok tt) ⊎ (r ≡ err (rpc_error RpcStatus.already_exists))
  unfolding benign
  benign_lem (ok _) x h = inl refl
  benign_lem (err (rpc_error RpcStatus.already_exists)) x h = inr refl
  benign_lem (err (rpc_error RpcStatus.other_status)) x h = cc
  benign_lem (err _) x h = cc

  -- A reissue that returns finds the row over, or leaves it with a run.
  reissued :
      (row : StuckRow) (u : Sweeper llm s) (x : Unit {0})
      → (reissue llm s row u).0 ≡ ok x
      → IsOver row u.worker.db ⊎ HasRun row.idempotency_key (reissue llm s row u).1.temporal
  unfolding reissue reissue_classify_workflow
  reissued row u x h = elim (Bool-cases u.worker.database) [
    | inl t ↦ rw t (reached (rw (t, reissue, reissue_classify_workflow) at h))
    | inr n ↦ absurd (refused (rw (n, reissue, reissue_classify_workflow) at h))
  ]
    where
      refused : ◌≡◌ {A = Result Exn (Unit {0})} (err operational_error) (ok x) → ⊥
      refused q = cc

      begun :
          (e : EventDict)
          → benign start_workflow
              (start_workflow row.idempotency_key row.id row.raw_payload u.temporal).0
            ≡ ok x
          → HasRun row.idempotency_key
              (start_workflow row.idempotency_key row.id row.raw_payload u.temporal).1
      begun e g = elim (benign_lem _ x g) [
        | inl fine ↦ confirmed row.idempotency_key row.id row.raw_payload u.temporal fine
        | inr taken ↦ known row.idempotency_key row.id row.raw_payload u.temporal taken
      ]

      reached :
          (reissue_classify_workflow start_workflow row.idempotency_key row.id row.raw_payload true
              u.worker.db u.temporal).0
            ≡ ok x
          → IsOver row u.worker.db
            ⊎ HasRun row.idempotency_key
                (reissue_classify_workflow start_workflow row.idempotency_key row.id row.raw_payload
                  true u.worker.db u.temporal).1
      reached g = elim (Option-cases (get_event_by_key row.idempotency_key u.worker.db)) [
        | inl e ↦ inl (inl e)
        | inr (e, q) ↦ elim (Bool-cases (is_terminal e.status)) [
          | inl t ↦ inl (inr (e, q, t))
          | inr n ↦ inr (
              rw (q, n, reissue_classify_workflow)
                (begun e (rw (q, n, reissue_classify_workflow) at g)))
        ]
      ]

  -- It writes no table, and Temporal forgets no run.
  reissue_keeps : (row : StuckRow) (u : Sweeper llm s) → Others u (reissue llm s row u).1
  unfolding reissue reissue_classify_workflow
  reissue_keeps row u = (
    here,
    λ k h. elim (Bool-cases u.worker.database) [
      | inr n ↦ rw n h
      | inl t ↦ elim (Option-cases (get_event_by_key row.idempotency_key u.worker.db)) [
        | inl e ↦ rw (t, e, reissue_classify_workflow) h
        | inr (e, q) ↦ elim (Bool-cases (is_terminal e.status)) [
          | inl m ↦ rw (t, q, m, reissue_classify_workflow) h
          | inr n ↦
              rw (t, q, n, reissue_classify_workflow)
                (stays k row.idempotency_key row.id row.raw_payload u.temporal h)
        ]
      ]
    ],
  )

  module _ (engine : Engine (Sweeper llm s)) (laws : EngineLaws (Sweeper llm s) Others engine)
      (first : Db) where
    open engine use {execute_activity}

    abbrev After : Sweeper llm s → Type 0
    After u = Reach first u.worker.db

    After-Others : (u v : Sweeper llm s) → Others u v → After u → After v
    After-Others u v n h = Reach-trans h n.0

    -- At the end, Temporal has a run under the key of the row; or the row was over at an instant of
    -- the sweep.
    pub Handled : Sweeper llm s → StuckRow → Type 0
    Handled last row =
        HasRun row.idempotency_key last.temporal ⊎ ((db : Db) × Reach first db × IsOver row db)

    runs_stay :
        (k : String) (row : StuckRow) (w : Sweeper llm s)
        → HasRun k w.temporal
        → HasRun k (execute_activity (Unit {0}) quick_retry 10 (reissue llm s row) w).1.temporal
    runs_stay k row w =
        Executes-keeps (Sweeper llm s) Others (reissue llm s row) (λ u. HasRun k u.temporal)
          (λ u. (reissue_keeps row u).1 k) (λ u v n. n.1 k)
          (laws.executes (Unit {0}) quick_retry 10 (reissue llm s row) w)

    after_reissue_stay :
        (k : String) (rest : Sweeper llm s → Result Interrupt (Unit {0}) × Sweeper llm s)
        (r : Result Interrupt (Unit {0}) × Sweeper llm s)
        → ((v : Sweeper llm s) → HasRun k v.temporal → HasRun k (rest v).1.temporal)
        → HasRun k r.1.temporal
        → HasRun k (after_reissue llm s engine rest r).1.temporal
    unfolding after_reissue
    after_reissue_stay k rest (ok u, v) f h = f v h
    after_reissue_stay k rest (err e, v) f h = h

    reissue_all_stay :
        (k : String) (rows : List StuckRow) (w : Sweeper llm s)
        → HasRun k w.temporal
        → HasRun k (reissue_all llm s engine rows w).1.temporal
    unfolding reissue_all
    reissue_all_stay k [] w h = h
    reissue_all_stay k (row ∷ rows) w h =
        after_reissue_stay k (reissue_all llm s engine rows)
          (execute_activity (Unit {0}) quick_retry 10 (reissue llm s row) w)
          (reissue_all_stay k rows) (runs_stay k row w h)

    after_reissue-Handled :
        (row : StuckRow) (rows : List StuckRow) (r : Result Interrupt (Unit {0}) × Sweeper llm s)
        (x : Unit {0})
        → ((u : Unit {0}) → r.0 ≡ ok u → Handled r.1 row × After r.1)
        → ((v : Sweeper llm s)
            → After v
            → (reissue_all llm s engine rows v).0 ≡ ok x
            → All (Handled (reissue_all llm s engine rows v).1) rows)
        → (after_reissue llm s engine (reissue_all llm s engine rows) r).0 ≡ ok x
        → All
            (Handled (after_reissue llm s engine (reissue_all llm s engine rows) r).1)
            (row ∷ rows)
    unfolding after_reissue Handled
    after_reissue-Handled row rows (ok u, v) x f g h =
        let (done, a) = f u refl in
        (⊎_map (reissue_all_stay row.idempotency_key rows v) (λ o. o) done, g v a h)
    after_reissue-Handled row rows (err e, v) x f g h = cc

    pub reissue_all-Handled :
        (rows : List StuckRow) (w : Sweeper llm s) (x : Unit {0})
        → After w
        → (reissue_all llm s engine rows w).0 ≡ ok x
        → All (Handled (reissue_all llm s engine rows w).1) rows
    unfolding reissue_all Handled
    reissue_all-Handled [] w x a h = tt
    reissue_all-Handled (row ∷ rows) w x a h =
        after_reissue-Handled row rows
          (execute_activity (Unit {0}) quick_retry 10 (reissue llm s row) w) x
          (λ u q.
            let ran = laws.executes (Unit {0}) quick_retry 10 (reissue llm s row) w in
            let keeps : (v : Sweeper llm s) → After v → After (reissue llm s row v).1 =
              λ v b. After-Others v (reissue llm s row v).1 (reissue_keeps row v) b in
            let (v, b, done, last) =
              Executes-last (Sweeper llm s) Others (reissue llm s row) After keeps After-Others u
                ran a q in
            (
              elim (reissued row v u done) [
                | inl over ↦ inr (v.worker.db, b, over)
                | inr runs ↦
                    inl (subst (λ z. HasRun row.idempotency_key z.temporal) (sym last) runs)
              ],
              subst After (sym last) (keeps v b),
            ))
          (λ v b q. reissue_all-Handled rows v x b q) h

-- ===== src/Workflow/Settling/Ends.antt =====
-- What a run leaves, whichever way it ends.
use glacis_webhook_service.Base.{
  ℕ, String, Bool, true, false, Result, ok, err, ◌≡◌, refl, Option, ok_inj, subst, not, none, some,
}
use glacis_webhook_service.Json.{Members}
use glacis_webhook_service.Json.Access.{get, get_attribute, is_str}
use glacis_webhook_service.Codec.{Codec}
use glacis_webhook_service.Domain.{ClassificationResult}
use glacis_webhook_service.Domain.Pydantic.{Pydantic}
use glacis_webhook_service.Exceptions.{Exn, llm_schema_rejected}
use glacis_webhook_service.Llm.{Llm, classify}
use glacis_webhook_service.Storage.Settled.{IsSettled}
use glacis_webhook_service.Activities.{Worker, mark_processing, classify_payload, classified}
use glacis_webhook_service.Activities.Settles.{IsReady}
use glacis_webhook_service.Models.{Db, WebhookStatus}
use glacis_webhook_service.Workflow.Keeps
use glacis_webhook_service.Workflow.Keeps.{Own, run_keeps}
use glacis_webhook_service.Workflow.Settling.Peers
use glacis_webhook_service.Workflow.Settling.Peers.Ready.{Writes-IsReady}
use glacis_webhook_service.Workflow.{
  RunResult, returned, failed, unmarked, timed_out, crashed, should_verify, quick_retry, llm_retry,
  mark_run_failed, fail_run, after_persist, persist_run, after_verify, decide_verify,
  after_classify, after_mark, run,
}
use glacis_webhook_service.Workflow.Temporal.{
  ActivityError, Interrupt, activity_error, run_timeout, Engine, EngineLaws, Executes-last,
}
use glacis_webhook_service.Workflow.Settling.{IsEnded, Others, run-IsSettled}

-- What a run leaves, by the way in which it ends. It has settled its key if it returned, or failed
-- with the row marked; where marking failed too, or the run timeout came, the row may be live. The
-- workflow code does not raise by itself.
abbrev pub EndsAs : String → RunResult → Db → Type 0
EndsAs key returned db = IsSettled key db.events
EndsAs key (failed e) db = IsSettled key db.events
EndsAs key (unmarked e) db = Unit
EndsAs key timed_out db = Unit
EndsAs key (crashed x) db = ⊥

-- The workflow code did not raise.
abbrev Whole : RunResult → Type 0
Whole returned = Unit
Whole (failed e) = Unit
Whole (unmarked e) = Unit
Whole timed_out = Unit
Whole (crashed x) = ⊥

ends_as :
    (key : String) (r : RunResult) (db : Db)
    → Whole r
    → (IsEnded r → IsSettled key db.events)
    → EndsAs key r db
ends_as key returned db h s = s tt
ends_as key (failed e) db h s = s tt
ends_as key (unmarked e) db h s = tt
ends_as key timed_out db h s = tt
ends_as key (crashed x) db h s = h

-- A write of a run is one that another run of the same key and event may make.
Own-IsReady :
    (key event_id : String) (a b : Db)
    → Own key event_id a b
    → IsReady key event_id a
    → IsReady key event_id b
Own-IsReady key event_id a b Keeps.nothing r = r
Own-IsReady key event_id a b Keeps.begins r =
    Writes-IsReady key event_id (Peers.next Peers.here (Peers.begins key)) r
Own-IsReady key event_id a b (Keeps.fails now error) r =
    Writes-IsReady key event_id
      (Peers.next Peers.here (Peers.ends now key WebhookStatus.failed error)) r
Own-IsReady key event_id a b (Keeps.stores now event_type normalized_data o review of) r =
    Writes-IsReady key event_id
      (Peers.next Peers.here (Peers.stores now event_type normalized_data o review)) r

module _ (c : Codec) (p : Pydantic) (llm : Llm) where
  -- What the first activity returns, the workflow can read.
  classified_decides :
      (r : Result Exn ClassificationResult) (d : Members)
      → classified llm c p r ≡ ok d
      → (b : Bool) × (should_verify d ≡ ok b)
  unfolding classified should_verify get get_attribute
  classified_decides (ok result) d h =
      subst (λ d. (b : Bool) × (should_verify d ≡ ok b)) (ok_inj h)
        (not (is_str "unclassified" (get "event_type" (p.dump_classification result))), refl)
  classified_decides (err (llm_schema_rejected o m)) d h =
      subst (λ d. (b : Bool) × (should_verify d ≡ ok b)) (ok_inj h) (false, refl)
  classified_decides (err e) d h = absurd (no_members h)
    where
      no_members : {x : Exn} → ◌≡◌ {A = Result Exn Members} (err x) (ok d) → ⊥
      no_members q = cc

  classify_decides :
      (payload d : Members) (w : Worker llm)
      → (classify_payload llm c p payload w).0 ≡ ok d
      → (b : Bool) × (should_verify d ≡ ok b)
  unfolding classify_payload
  classify_decides payload d w h = classified_decides (classify c p llm payload w.llm_state).0 d h

  module _ (key event_id : String) (payload : Members) (engine : Engine (Worker llm))
      (max_retries : ℕ) where
    open engine use {execute_activity}

    marked-Whole :
        (e : ActivityError) (x : Result Interrupt (Unit {0}) × Worker llm)
        → Whole (mark_run_failed c p llm engine max_retries key event_id payload e x).0
    unfolding mark_run_failed
    marked-Whole e (ok u, w) = tt
    marked-Whole e (err (activity_error x), w) = tt
    marked-Whole e (err run_timeout, w) = tt

    fail_run-Whole :
        (e : Interrupt) (w : Worker llm)
        → Whole (fail_run c p llm engine max_retries key event_id payload e w).0
    unfolding fail_run
    fail_run-Whole run_timeout w = tt
    fail_run-Whole (activity_error e) w = marked-Whole e _

    after_persist-Whole :
        (x : Result Interrupt (Unit {0}) × Worker llm)
        → Whole (after_persist c p llm engine max_retries key event_id payload x).0
    unfolding after_persist
    after_persist-Whole (ok u, w) = tt
    after_persist-Whole (err e, w) = fail_run-Whole e w

    persist_run-Whole :
        (d : Members) (v : Option Members) (w : Worker llm)
        → Whole (persist_run c p llm engine max_retries key event_id payload d v w).0
    unfolding persist_run
    persist_run-Whole d v w = after_persist-Whole _

    after_verify-Whole :
        (d : Members) (x : Result Interrupt Members × Worker llm)
        → Whole (after_verify c p llm engine max_retries key event_id payload d x).0
    unfolding after_verify
    after_verify-Whole d (ok v, w) = persist_run-Whole d (some v) w
    after_verify-Whole d (err e, w) = fail_run-Whole e w

    decide_verify-Whole :
        (d : Members) (r : Result Exn Bool) (w : Worker llm) (b : Bool)
        → r ≡ ok b
        → Whole (decide_verify c p llm engine max_retries key event_id payload d r w).0
    unfolding decide_verify
    decide_verify-Whole d (ok true) w b h = after_verify-Whole d _
    decide_verify-Whole d (ok false) w b h = persist_run-Whole d none w
    decide_verify-Whole d (err e) w b h = cc

    after_classify-Whole :
        (x : Result Interrupt Members × Worker llm)
        → ((d : Members) → x.0 ≡ ok d → (b : Bool) × (should_verify d ≡ ok b))
        → Whole (after_classify c p llm engine max_retries key event_id payload x).0
    unfolding after_classify
    after_classify-Whole (ok d, w) f =
        let (b, q) = f d refl in decide_verify-Whole d (should_verify d) w b q
    after_classify-Whole (err e, w) f = fail_run-Whole e w

    module _ (laws : EngineLaws (Worker llm) (Others c p llm key event_id) engine) where
      after_mark-Whole :
          (x : Result Interrupt (Unit {0}) × Worker llm)
          → Whole (after_mark c p llm engine max_retries key event_id payload x).0
      unfolding after_mark
      after_mark-Whole (ok u, w) =
          let m = classify_payload llm c p payload in
          after_classify-Whole (execute_activity Members (llm_retry max_retries) 60 m w) (λ d q.
            let (v, _, done, last) =
              Executes-last (Worker llm) (Others c p llm key event_id) m (λ _. Unit {0}) (λ u h. h)
                (λ u v n h. h) d (laws.executes Members (llm_retry max_retries) 60 m w) tt q in
            classify_decides payload d v done)
      after_mark-Whole (err e, w) = fail_run-Whole e w

      -- However often its activities are retried, whatever the API answers, and whether the database
      -- is reached: if its event and a row of its key were in the table, and the key was settled
      -- where the event had a record, then this holds at the end of a run too; the workflow code has
      -- not raised; and a run that returned, or failed with the row marked, has left no live row of
      -- its key. A run whose marking failed too, or that its timeout ended, may leave the row live.
      -- All this while other processes call the helpers that write between the run's steps, as long
      -- as no transaction of another key or event saves a record of this event.
      pub run-Ends :
          (w : Worker llm)
          → IsReady key event_id w.db
          → IsReady key event_id (run c p llm engine max_retries key event_id payload w).1.db
            × EndsAs key
                (run c p llm engine max_retries key event_id payload w).0
                (run c p llm engine max_retries key event_id payload w).1.db
      unfolding run
      run-Ends w ready = (
        run_keeps key event_id c p llm (IsReady key event_id) (Others c p llm key event_id)
            (Own-IsReady key event_id) (λ u v n r. Writes-IsReady key event_id n r) payload engine
            laws max_retries w ready,
        ends_as key _ _
            (after_mark-Whole
              (execute_activity (Unit {0}) quick_retry 10 (mark_processing llm key) w))
            (run-IsSettled c p llm key event_id payload engine laws max_retries w ready),
      )

-- ===== src/Workflow/Trust.antt =====
-- What a run of the classification workflow can leave in the record tables, under any number of
-- retries of its activities.
use glacis_webhook_service.Base.{
  ℕ, ◌⊎◌, inl, inr, Result, ◌≡◌, ok, String, some, err, subst, Option, refl, none, Bool, false,
  true,
}
use glacis_webhook_service.Json.{Members}
use glacis_webhook_service.Codec.{Codec}
use glacis_webhook_service.Domain.Pydantic.{Pydantic}
use glacis_webhook_service.Models.{FkRecord}
use glacis_webhook_service.Llm.{Llm}
use glacis_webhook_service.Storage.{mark_processing_status, mark_terminal_status, update_live}
use glacis_webhook_service.Activities.{
  Worker, Attempt, mark_processing, classify_payload, verify_extraction, persist_classification,
  mark_failed,
}
use glacis_webhook_service.Activities.Grounding.{
  HasRecord, HasRecord-events, Trusted, persist_classification-Trusted,
}
use glacis_webhook_service.Activities.Reached.{on_database-keeps}
use glacis_webhook_service.Workflow.{
  should_verify, quick_retry, llm_retry, error_message, mark_run_failed, fail_run, after_persist,
  persist_run, after_verify, decide_verify, after_classify, after_mark, run, Exn,
}
use glacis_webhook_service.Workflow.Temporal.{
  RetryPolicy, ActivityError, Interrupt, activity_error, run_timeout, Engine, Executes, EngineLaws,
  Executes-last, gives_up, retries, returns, waits,
}

-- Steps of the other processes that do not add the record.
abbrev pub Quiet : (llm : Llm) → FkRecord → Worker llm → Worker llm → Type 0
Quiet llm k u v = HasRecord k v.db → HasRecord k u.db

module _ {llm : Llm} {A : Type 0} (m : Attempt llm A) where
  -- What no attempt adds, its retries do not add.
  Executes-adds :
      {T : Type 0} (k : FkRecord) {w : Worker llm} {r : Result Interrupt A} {w' : Worker llm}
      → ((u : Worker llm) → HasRecord k (m u).1.db → HasRecord k u.db ⊎ T)
      → Executes (Worker llm) (Quiet llm k) m w r w'
      → HasRecord k w'.db
      → HasRecord k w.db ⊎ T
  Executes-adds k adds (gives_up e) h = inl h
  Executes-adds k {w = w} adds (retries x) h = elim (Executes-adds k adds x h) [
    | inl before ↦ adds w before
    | inr t ↦ inr t
  ]
  Executes-adds k adds (waits n x) h = elim (Executes-adds k adds x h) [
    | inl before ↦ inl (n before)
    | inr t ↦ inr t
  ]
  Executes-adds k {w = w} adds (returns a p) h = adds w h

module _ (c : Codec) (p : Pydantic) (llm : Llm) (payload : Members) where
  -- Where a record comes from: the classification is the result of an attempt to classify this
  -- payload, the verification that of an attempt to verify that classification against it, and the
  -- two make the record trusted, with its columns from the fields of the classification.
  pub record Comes (event_id : String) (k : FkRecord) : Type 0 where
    pub classification : Members
    pub verification : Members
    pub trusted : Trusted c p llm event_id classification (some verification) k
    pub classifying : Worker llm
    pub classified : (classify_payload llm c p payload classifying).0 ≡ ok classification
    pub verifying : Worker llm
    pub was_verified :
        (verify_extraction llm c p payload classification verifying).0 ≡ ok verification

  module _ (engine : Engine (Worker llm)) (k : FkRecord)
      (laws : EngineLaws (Worker llm) (Quiet llm k) engine) (max_retries : ℕ) where
    open engine use {execute_activity}

    executed :
        {A T : Type 0} (policy : RetryPolicy) (timeout : ℕ) (m : Attempt llm A) (w : Worker llm)
        → ((u : Worker llm) → HasRecord k (m u).1.db → HasRecord k u.db ⊎ T)
        → HasRecord k (execute_activity A policy timeout m w).1.db
        → HasRecord k w.db ⊎ T
    executed {A} policy timeout m w adds =
        Executes-adds m k adds (laws.executes A policy timeout m w)

    result_of :
        {A : Type 0} (policy : RetryPolicy) (timeout : ℕ) (m : Attempt llm A) (w : Worker llm)
        (a : A)
        → (execute_activity A policy timeout m w).0 ≡ ok a
        → (u : Worker llm) × ((m u).0 ≡ ok a)
    result_of {A} policy timeout m w a e =
        let (u, _, h, _) =
          Executes-last (Worker llm) (Quiet llm k) m (λ _. Unit) (λ u h. h) (λ u v n h. h) a
            (laws.executes A policy timeout m w) tt e in
        (u, h)

    module _ (key event_id : String) where
      marking_adds :
          {T : Type 0} (u : Worker llm)
          → HasRecord k (mark_processing llm key u).1.db
          → HasRecord k u.db ⊎ T
      unfolding mark_processing mark_processing_status update_live
      marking_adds u h = inl (
          on_database-keeps (λ v. HasRecord k v.db → HasRecord k u.db) u.database u _ (λ x. x)
            (HasRecord-events k u.db _) h)

      failing_adds :
          {T : Type 0} (message : String) (u : Worker llm)
          → HasRecord k (mark_failed llm key message u).1.db
          → HasRecord k u.db ⊎ T
      unfolding mark_failed mark_terminal_status update_live
      failing_adds message u h = inl (
          on_database-keeps (λ v. HasRecord k v.db → HasRecord k u.db) u.database u _ (λ x. x)
            (HasRecord-events k u.db _) h)

      asking_adds :
          {T : Type 0} (u : Worker llm)
          → HasRecord k (classify_payload llm c p payload u).1.db
          → HasRecord k u.db ⊎ T
      unfolding classify_payload
      asking_adds u h = inl h

      verifying_adds :
          {T : Type 0} (d : Members) (u : Worker llm)
          → HasRecord k (verify_extraction llm c p payload d u).1.db
          → HasRecord k u.db ⊎ T
      unfolding verify_extraction
      verifying_adds d u h = inl h

      run_failed_lem :
          (e : ActivityError) (x : Result Interrupt (Unit {0}) × Worker llm)
          → (mark_run_failed c p llm engine max_retries key event_id payload e x).1 ≡ x.1
      unfolding mark_run_failed
      run_failed_lem e (ok _, w) = refl
      run_failed_lem e (err (activity_error _), w) = refl
      run_failed_lem e (err run_timeout, w) = refl

      fail_run_adds :
          {T : Type 0} (e : Interrupt) (w : Worker llm)
          → HasRecord k (fail_run c p llm engine max_retries key event_id payload e w).1.db
          → HasRecord k w.db ⊎ T
      unfolding fail_run
      fail_run_adds run_timeout w h = inl h
      fail_run_adds (activity_error e) w h =
          executed quick_retry 10 (mark_failed llm key (error_message e)) w
            (failing_adds (error_message e)) (subst (λ v. HasRecord k v.db) (run_failed_lem e _) h)

      after_persist_adds :
          {T : Type 0} (x : Result Interrupt (Unit {0}) × Worker llm)
          → HasRecord k (after_persist c p llm engine max_retries key event_id payload x).1.db
          → HasRecord k x.1.db ⊎ T
      unfolding after_persist
      after_persist_adds (ok _, w) h = inl h
      after_persist_adds (err e, w) h = fail_run_adds e w h

      -- Persisting adds a record that the two results make trusted.
      persist_run_adds :
          (d : Members) (v : Option Members) (w : Worker llm)
          → HasRecord k (persist_run c p llm engine max_retries key event_id payload d v w).1.db
          → HasRecord k w.db ⊎ Trusted c p llm event_id d v k
      unfolding persist_run
      persist_run_adds d v w h = elim (after_persist_adds _ h) [
        | inl before ↦
            executed quick_retry 30 (persist_classification llm c p key event_id d v) w
              (λ u. persist_classification-Trusted c p llm key event_id d v u k) before
        | inr t ↦ inr t
      ]

      untrusted : (d : Members) → Trusted c p llm event_id d none k → ⊥
      untrusted d t = none_is_not_some t.given
        where
          none_is_not_some : {m : Members} → ◌≡◌ {A = Option Members} none (some m) → ⊥
          none_is_not_some q = cc

      after_verify_adds :
          (d : Members) (classifying : Worker llm)
          → (classify_payload llm c p payload classifying).0 ≡ ok d
          → (x : Result Interrupt Members × Worker llm)
          → ((v : Members)
              → x.0 ≡ ok v
              → (u : Worker llm) × ((verify_extraction llm c p payload d u).0 ≡ ok v))
          → HasRecord k (after_verify c p llm engine max_retries key event_id payload d x).1.db
          → HasRecord k x.1.db ⊎ Comes event_id k
      unfolding after_verify
      after_verify_adds d classifying by (err e, w) from h = fail_run_adds e w h
      after_verify_adds d classifying by (ok v, w) from h = elim (persist_run_adds d (some v) w h) [
        | inl before ↦ inl before
        | inr t ↦
            let (verifying, was) = from v refl in
            inr (record {
              classification = d;
              verification = v;
              trusted = t;
              classifying = classifying;
              classified = by;
              verifying = verifying;
              was_verified = was;
            })
      ]

      decide_verify_adds :
          (d : Members) (classifying : Worker llm)
          → (classify_payload llm c p payload classifying).0 ≡ ok d
          → (r : Result Exn Bool) (w : Worker llm)
          → HasRecord k (decide_verify c p llm engine max_retries key event_id payload d r w).1.db
          → HasRecord k w.db ⊎ Comes event_id k
      unfolding decide_verify
      decide_verify_adds d classifying by (err e) w h = inl h
      decide_verify_adds d classifying by (ok false) w h = elim (persist_run_adds d none w h) [
        | inl before ↦ inl before
        | inr t ↦ absurd (untrusted d t)
      ]
      decide_verify_adds d classifying by (ok true) w h =
          elim (after_verify_adds d classifying by
            (execute_activity Members (llm_retry max_retries) 60
              (verify_extraction llm c p payload d) w)
            (result_of (llm_retry max_retries) 60 (verify_extraction llm c p payload d) w) h) [
              | inl before ↦
                  executed (llm_retry max_retries) 60 (verify_extraction llm c p payload d) w
                    (verifying_adds d) before
              | inr t ↦ inr t
            ]

      after_classify_adds :
          (x : Result Interrupt Members × Worker llm)
          → ((d : Members)
              → x.0 ≡ ok d
              → (u : Worker llm) × ((classify_payload llm c p payload u).0 ≡ ok d))
          → HasRecord k (after_classify c p llm engine max_retries key event_id payload x).1.db
          → HasRecord k x.1.db ⊎ Comes event_id k
      unfolding after_classify
      after_classify_adds (err e, w) from h = fail_run_adds e w h
      after_classify_adds (ok d, w) from h =
          let (classifying, by) = from d refl in
          decide_verify_adds d classifying by (should_verify d) w h

      after_mark_adds :
          (x : Result Interrupt (Unit {0}) × Worker llm)
          → HasRecord k (after_mark c p llm engine max_retries key event_id payload x).1.db
          → HasRecord k x.1.db ⊎ Comes event_id k
      unfolding after_mark
      after_mark_adds (err e, w) h = fail_run_adds e w h
      after_mark_adds (ok _, w) h =
          elim (after_classify_adds _
            (result_of (llm_retry max_retries) 60 (classify_payload llm c p payload) w) h) [
              | inl before ↦
                  executed (llm_retry max_retries) 60 (classify_payload llm c p payload) w
                    asking_adds before
              | inr t ↦ inr t
            ]

      -- However often its activities are retried, whatever the API answers, and while other processes
      -- take steps between its own that do not add the record: a record that is in its table after
      -- a run was there before, or comes from the run, that is, it belongs to the event of the run and
      -- has its columns from the fields of a valid classification of the payload, of its type, that a
      -- verification of the same payload found grounded.
      pub run-Comes :
          (w : Worker llm)
          → HasRecord k (run c p llm engine max_retries key event_id payload w).1.db
          → HasRecord k w.db ⊎ Comes event_id k
      unfolding run
      run-Comes w h = elim (after_mark_adds _ h) [
        | inl before ↦ executed quick_retry 10 (mark_processing llm key) w marking_adds before
        | inr t ↦ inr t
      ]

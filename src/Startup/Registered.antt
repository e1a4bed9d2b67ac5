-- ===== src/Startup/Registered.antt =====
-- What `ensure_sweep_schedule` and the two commands leave at Temporal.
use glacis_webhook_service.Base.{
  ℕ, ◌+◌, ◌≤◌, String, Option, none, some, [], ◌∷◌, ◌++◌, Result, ok, err, ◌≡◌, ◌≢◌, ◌<◌, ◌⊎◌, inl,
  inr, refl, arith, ltb, Option-cases, Bool-cases,
}
use glacis_webhook_service.Exceptions.{Exn, value_error, rpc_error, already_exists}
use glacis_webhook_service.Startup.{
  Settings, Schedule, Scheduler, build_schedule, updated, sweep_schedule_id, ensure_sweep_schedule,
  created, validate_processing_grace, run_worker, Served, serve, closed,
}

module _ (c : Scheduler) where
  open c use {Frontend, State, fresh, create_schedule, update}

  -- A frontend that answers, with the schedule that it has under a name: a schedule is created
  -- once, with an exception for the next call that changes nothing, and an update replaces it.
  pub record SchedulerLaws (lookup : String → Frontend → Option (Schedule State))
      (Up : Frontend → Type 0) : Type 0 where
    pub create_new :
        (id : String) (d : Schedule State) (t : Frontend)
        → Up t
        → lookup id t ≡ none
        → (t' : Frontend) × (create_schedule id d t ≡ (ok tt, t')) × Up t' × (lookup id t' ≡ some d)
    pub create_taken :
        (id : String) (d s : Schedule State) (t : Frontend)
        → Up t
        → lookup id t ≡ some s
        → (e : Exn) × (create_schedule id d t ≡ (err e, t))
    pub update_there :
        (id : String) (f : Schedule State → Schedule State) (s : Schedule State) (t : Frontend)
        → Up t
        → lookup id t ≡ some s
        → (t' : Frontend) × (update id f t ≡ (ok tt, t')) × Up t' × (lookup id t' ≡ some (f s))

  -- The pause state of a schedule that may be there.
  abbrev pub state_of : Option (Schedule State) → State
  state_of none = fresh
  state_of (some s) = s.state

  module _ (lookup : String → Frontend → Option (Schedule State)) (Up : Frontend → Type 0)
      (laws : SchedulerLaws lookup Up) where
    open laws use {create_new, create_taken, update_there}

    -- The schedule of the sweep as the settings ask for it, with the state it had.
    abbrev pub IsRegistered : Settings → Frontend → Frontend → Type 0
    IsRegistered s t t' =
        lookup sweep_schedule_id t'
        ≡ some (record (build_schedule fresh s) { state = state_of (lookup sweep_schedule_id t) })

    -- The schedule was there, and Temporal has it as it was; the exception by which the creation says
    -- so is raised, since it is no gRPC error ALREADY_EXISTS.
    pub record IsRefused (t : Frontend) (e : Exn) : Type 0 where
      pub old : Schedule State
      pub there : lookup sweep_schedule_id t ≡ some old
      pub uncaught : e ≢ rpc_error already_exists

    created-cases :
        (d : Schedule State) (e : Exn) (t : Frontend)
        → (e ≡ rpc_error already_exists)
          ⊎ ((e ≢ rpc_error already_exists) × (created c d (err e, t) ≡ (err e, t)))
    created-cases d (rpc_error already_exists) t = inl refl
    created-cases d e t = inr (λ q. cc, refl)

    -- Where Temporal answers, `ensure_sweep_schedule` returns and leaves the schedule that the
    -- settings ask for, and a schedule that was there stays paused or running as it was; or the
    -- schedule was there, it is left alone, and the exception that says so is raised, which is then
    -- no gRPC error ALREADY_EXISTS.
    pub ensure_sweep_schedule-IsRegistered :
        (s : Settings) (t : Frontend)
        → Up t
        → ((t' : Frontend) × (ensure_sweep_schedule c s t ≡ (ok tt, t'))
            × Up t'
            × IsRegistered s t t')
          ⊎ ((e : Exn) × (ensure_sweep_schedule c s t ≡ (err e, t)) × IsRefused t e)
    unfolding ensure_sweep_schedule build_schedule
    ensure_sweep_schedule-IsRegistered s t up = elim (Option-cases (lookup sweep_schedule_id t)) [
      | inl n ↦
          (let (t', e, up', l) = create_new sweep_schedule_id (build_schedule fresh s) t up n in
            inl (t', rw e refl, up', rw (l, n) refl))
      | inr (old, o) ↦
          (let (x, taken) = create_taken sweep_schedule_id (build_schedule fresh s) old t up o in
            elim (created-cases (build_schedule fresh s) x t) [
              | inl same ↦
                  (let (t', e, up', l) =
                      update_there sweep_schedule_id (updated (build_schedule fresh s)) old t up
                        o in
                    inl (t', rw (taken, same, e) refl, up', rw (l, o) refl))
              | inr (unlike, raised) ↦
                  inr (x, rw taken raised, record { old = old; there = o; uncaught = unlike })
            ])
    ]

    validate_processing_grace-cases :
        (g : ℕ)
        → (900 ≤ g × (validate_processing_grace g ≡ ok tt))
          ⊎ (g < 900 × (e : String) × (validate_processing_grace g ≡ err (value_error e)))
    unfolding validate_processing_grace
    validate_processing_grace-cases g = elim (Bool-cases (ltb g 900)) [
      | inl low ↦ inr (
        ground arith,
        "SWEEPER_PROCESSING_GRACE_SECONDS is less than WORKFLOW_RUN_TIMEOUT",
        rw low refl,
      )
      | inr fine ↦ inl (ground arith, rw fine refl)
    ]

    -- The worker refuses to start, with a `ValueError` and before it asks Temporal for anything,
    -- exactly if the processing grace is below the run timeout of a workflow and five minutes. Else
    -- it registers the sweep and polls, and the HTTP client is closed last, however the polling ends
    -- and whatever the closing raises; or it ends with the exception that says that the schedule is
    -- there, if that is no gRPC error ALREADY_EXISTS, and does not poll.
    pub run_worker-IsRegistered :
        (s : Settings) (t : Frontend) (served : Served) (close : Result Exn (Unit {0}))
        → Up t
        → ((s.sweeper_processing_grace_seconds < 600 + 300)
            × (e : String) × (run_worker c (ok tt) served close s t ≡ (err (value_error e), t, [])))
          ⊎ ((600 + 300 ≤ s.sweeper_processing_grace_seconds)
              × (((t' : Frontend) × (run_worker c (ok tt) served close s t
                      ≡ ((serve served).0, t', (serve served).1 ++ closed ∷ []))
                    × IsRegistered s t t')
                  ⊎ ((e : Exn) × (run_worker c (ok tt) served close s t ≡ (err e, t, []))
                      × IsRefused t e)))
    unfolding run_worker
    run_worker-IsRegistered s t served close up =
        elim (validate_processing_grace-cases s.sweeper_processing_grace_seconds) [
          | inr (low, e, q) ↦ inl (low, e, rw q refl)
          | inl (enough, q) ↦ elim (ensure_sweep_schedule-IsRegistered s t up) [
            | inl (t', e, up', l) ↦ inr (enough, inl (t', rw (q, e) refl, l))
            | inr (x, e, refused) ↦ inr (enough, inr (x, rw (q, e) refl, refused))
          ]
        ]

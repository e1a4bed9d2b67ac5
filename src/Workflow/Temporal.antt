-- ===== src/Workflow/Temporal.antt =====
-- What the workflows use of Temporal: the execution of an activity with retries, as a parameter, and
-- what Temporal documents of it: an activity is run any number of times, each from the state that
-- the attempts before it left, with steps of others between them; its result is that of the last
-- attempt, or an `ActivityError`, unless the run reaches its timeout first.
use glacis_webhook_service.Base.{
  ℕ, String, Result, List, Option, err, ◌≡◌, ok, ◌∙◌, ap, ok_inj, refl,
}
use glacis_webhook_service.Exceptions.{Exn}

-- Intervals are in seconds.
pub record RetryPolicy : Type 0 where
  pub initial_interval : ℕ
  pub maximum_interval : ℕ
  pub backoff_coefficient : ℕ
  pub maximum_attempts : ℕ
  pub non_retryable_error_types : List String

-- The error that ends an activity: its text, and the text of its cause if that is an
-- `ApplicationError`.
pub record ActivityError : Type 0 where
  pub text : String
  pub application_cause : Option String

-- What keeps the workflow code from an activity's result: the activity's error; or the run timeout,
-- with which Temporal ends the run, so that the code does not go on.
pub data Interrupt : Type 0 where
  activity_error : ActivityError → Interrupt
  run_timeout : Interrupt

-- Over the state that the activities read and write.
module _ (S : Type 0) where
  pub record Engine : Type 1 where
    -- The policy and the start-to-close timeout in seconds.
    pub execute_activity :
        (A : Type 0) → RetryPolicy → ℕ → (S → Result Exn A × S) → S → Result Interrupt A × S

  -- `Env` is a step of the other processes.
  module _ (Env : S → S → Type 0) where
    module _ {A : Type 0} (m : S → Result Exn A × S) where
      pub data Executes : S → Result Interrupt A → S → Type 0 where
        -- no attempt, or no more, takes effect, or the run timeout comes
        gives_up : {w : S} (e : Interrupt) → Executes w (err e) w
        -- an attempt whose result is dropped: it raised, or its report was lost
        retries :
            {w : S} {r : Result Interrupt A} {w' : S} → Executes (m w).1 r w' → Executes w r w'
        returns : {w : S} (a : A) → (m w).0 ≡ ok a → Executes w (ok a) (m w).1
        waits :
            {w v : S} {r : Result Interrupt A} {w' : S}
            → Env w v
            → Executes v r w'
            → Executes w r w'

      module _ (P : S → Type 0) (keeps : (u : S) → P u → P (m u).1)
          (stays : (u v : S) → Env u v → P u → P v) where
        -- A result is that of the last attempt, from a state with what every attempt and every step
        -- of the others keeps.
        pub Executes-last :
            {w : S} {r : Result Interrupt A} {w' : S} (a : A)
            → Executes w r w'
            → P w
            → r ≡ ok a
            → (u : S) × P u × ((m u).0 ≡ ok a) × (w' ≡ (m u).1)
        Executes-last a (gives_up e) h q = cc
        Executes-last {w = w} a (retries x) h q = Executes-last a x (keeps w h) q
        Executes-last {w = w} a (waits {v = v} n x) h q = Executes-last a x (stays w v n h) q
        Executes-last {w = w} a (returns b p) h q = (w, h, p ∙ ap ok (ok_inj q), refl)

        -- What all of them keep, an execution keeps.
        pub Executes-keeps :
            {w : S} {r : Result Interrupt A} {w' : S} → Executes w r w' → P w → P w'
        Executes-keeps (gives_up e) h = h
        Executes-keeps {w = w} (retries x) h = Executes-keeps x (keeps w h)
        Executes-keeps {w = w} (waits {v = v} n x) h = Executes-keeps x (stays w v n h)
        Executes-keeps {w = w} (returns a p) h = keeps w h

    pub record EngineLaws (engine : Engine) : Type 1 where
      pub executes :
          (A : Type 0) (policy : RetryPolicy) (timeout : ℕ) (m : S → Result Exn A × S) (w : S)
          → Executes m w
              (engine.execute_activity A policy timeout m w).0
              (engine.execute_activity A policy timeout m w).1

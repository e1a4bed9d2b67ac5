-- ===== src/Activities/Reached.antt =====
-- What an attempt that needs the database does, whether it is reached or not.
use glacis_webhook_service.Base.{◌≡◌, Bool, true, false, Result, ok, err, refl}
use glacis_webhook_service.Exceptions.{Exn, operational_error}
use glacis_webhook_service.Llm.{Llm}
use glacis_webhook_service.Activities.{Worker, on_database}

module _ {llm : Llm} {A : Type 0} where
  -- What holds before and after it.
  pub on_database-keeps :
      (P : Worker llm → Type 0) (b : Bool) (w : Worker llm) (x : Result Exn A × Worker llm)
      → P w
      → P x.1
      → P (on_database llm b w x).1
  on_database-keeps P true w x h k = k
  on_database-keeps P false w x h k = h

  -- A result is that of an attempt that reached it.
  pub on_database-ok :
      (b : Bool) (w : Worker llm) (x : Result Exn A × Worker llm) (a : A)
      → (on_database llm b w x).0 ≡ ok a
      → (on_database llm b w x ≡ x) × (x.0 ≡ ok a)
  on_database-ok true w x a h = (refl, h)
  on_database-ok false w x a h = absurd (no_error h)
    where
      no_error : ◌≡◌ {A = Result Exn A} (err operational_error) (ok a) → ⊥
      no_error q = cc

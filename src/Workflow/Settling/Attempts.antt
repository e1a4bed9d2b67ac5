-- ===== src/Workflow/Settling/Attempts.antt =====
-- Which attempts of the activities keep the row ready, and settle its key when they return.
use glacis_webhook_service.Base.{
  inl, inr, Bool-cases, Result-cases, String, ◌≡◌, refl, some, Option, ok, Bool, none, Result, true,
  err, subst, sym,
}
use glacis_webhook_service.Json.{Members, str}
use glacis_webhook_service.Json.Access.{get, is_str}
use glacis_webhook_service.Codec.{Codec}
use glacis_webhook_service.Domain.Pydantic.{Pydantic}
use glacis_webhook_service.Models.{WebhookStatus, FkRecord}
use glacis_webhook_service.Storage.{
  mark_processing_status, mark_terminal_status, start_processing, finish,
}
use glacis_webhook_service.Storage.Records.Built.{event_of}
use glacis_webhook_service.Storage.Settled.{IsSettled}
use glacis_webhook_service.Llm.{Llm}
use glacis_webhook_service.Activities.{
  Worker, Attempt, store, get_or, mark_processing, message_of, prepare, persist_classification,
  persist_schema_rejected, persist_prepared, mark_failed, bounded_error_message,
}
use glacis_webhook_service.Activities.Reached.{on_database-keeps, on_database-ok}
use glacis_webhook_service.Activities.Settles.{
  IsReady, stored_settles, stored-IsReady, update_known, update_keyed, update_settles,
  IsSettled-stays,
}
use glacis_webhook_service.Activities.Grounding.{prepare-Trusted}
use glacis_webhook_service.Workflow.{Exn}

module _ (c : Codec) (p : Pydantic) (llm : Llm) (key event_id : String) where
  abbrev pub Ready : Worker llm → Type 0
  Ready w = IsReady key event_id w.db

  abbrev pub Settled : Worker llm → Type 0
  Settled w = IsSettled key w.db.events

  -- An attempt keeps a ready row ready, and settles its key if it returns.
  pub record Settles (m : Attempt llm (Unit {0})) : Type 0 where
    pub keeps : (w : Worker llm) → Ready w → Ready (m w).1
    pub settles : (w : Worker llm) (u : Unit {0}) → Ready w → (m w).0 ≡ ok u → Settled (m w).1

  pub mark_processing-Ready : (w : Worker llm) → Ready w → Ready (mark_processing llm key w).1
  unfolding mark_processing mark_processing_status
  mark_processing-Ready w r = on_database-keeps Ready w.database w _ r (record {
    known = update_known key start_processing (λ e. refl) event_id w.db.events r.known;
    keyed = update_keyed key start_processing (λ e. refl) key w.db.events r.keyed;
    recorded = λ h. IsSettled-stays key start_processing w.db.events (r.recorded h);
  })

  pub mark_failed-Settles : (message : String) → Settles (mark_failed llm key message)
  unfolding mark_failed mark_terminal_status
  mark_failed-Settles message =
      let ends = λ (w : Worker llm).
        finish WebhookStatus.failed w.now (some (bounded_error_message message)) in
      record {
        keeps = λ w r. on_database-keeps Ready w.database w _ r (record {
          known = update_known key (ends w) (λ e. refl) event_id w.db.events r.known;
          keyed = update_keyed key (ends w) (λ e. refl) key w.db.events r.keyed;
          recorded = λ _. update_settles key (ends w) (λ e. refl) w.db.events;
        });
        settles = λ w u r h.
            subst (λ (x : Result Exn (Unit {0}) × Worker llm). Settled x.1)
              (sym (on_database-ok w.database w _ u h).0)
              (update_settles key (ends w) (λ e. refl) w.db.events);
      }

  store-Settles :
      (event_type : String) (normalized_data : Members) (o : Option FkRecord) (review : Bool)
      → ((r : FkRecord) → o ≡ some r → event_of r ≡ event_id)
      → Settles (store llm key event_id event_type normalized_data o review)
  unfolding store
  store-Settles event_type normalized_data o review of = record {
    keeps = λ w r.
        on_database-keeps Ready w.database w _ r
          (stored-IsReady w.now key event_id event_type normalized_data o review w.db r);
    settles = λ w u r h.
        let (same, returned) = on_database-ok w.database w _ u h in
        subst (λ (x : Result Exn (Unit {0}) × Worker llm). Settled x.1) (sym same)
          (stored_settles w.now key event_id event_type normalized_data o review w.db of r u
            returned);
  }

  -- Nothing is stored, as when the arguments do not validate.
  raised : {u : Unit {0}} (x : Exn) → ◌≡◌ {A = Result Exn (Unit {0})} (err x) (ok u) → ⊥
  raised x q = cc

  no_record : (r : FkRecord) → ◌≡◌ {A = Option FkRecord} none (some r) → event_of r ≡ event_id
  no_record r q = cc

  rejected-Settles : (d : Members) → Settles (persist_schema_rejected llm c p key event_id d)
  unfolding persist_schema_rejected
  rejected-Settles d =
      elim (Result-cases (message_of llm c p (get_or "validation_message" (str "") d))) [
        | inl (m, q) ↦
            (let s = store-Settles _ _ none true no_record in
              record {
                keeps = λ w r. rw (q, persist_schema_rejected) (s.keeps w r);
                settles = λ w u r h.
                    rw (q, persist_schema_rejected)
                      (s.settles w u r (rw (q, persist_schema_rejected) at h));
              })
        | inr (x, q) ↦ record {
          keeps = λ w r. rw (q, persist_schema_rejected) r;
          settles = λ w u r h. absurd (raised x (rw (q, persist_schema_rejected) at h));
        }
      ]

  prepared-Settles :
      (d : Members) (v : Option Members) → Settles (persist_prepared llm c p key event_id d v)
  unfolding persist_prepared
  prepared-Settles d v = elim (Result-cases (prepare llm c p event_id d v)) [
    | inl (x, q) ↦
        (let s =
            store-Settles x.event_type x.normalized_data x.fk_record x.requires_review
              (λ r e. (prepare-Trusted c p llm event_id d v x r q e).event) in
          record {
            keeps = λ w r. rw (q, persist_prepared) (s.keeps w r);
            settles = λ w u r h.
                rw (q, persist_prepared) (s.settles w u r (rw (q, persist_prepared) at h));
          })
    | inr (x, q) ↦ record {
      keeps = λ w r. rw (q, persist_prepared) r;
      settles = λ w u r h. absurd (raised x (rw (q, persist_prepared) at h));
    }
  ]

  pub persist-Settles :
      (d : Members) (v : Option Members) → Settles (persist_classification llm c p key event_id d v)
  unfolding persist_classification
  persist-Settles d v = elim (Bool-cases (is_str "schema_rejected" (get "kind" d))) [
    | inl t ↦
        (let s = rejected-Settles d in
          record {
            keeps = λ w r. rw (t, persist_classification) (s.keeps w r);
            settles = λ w u r h.
                rw (t, persist_classification)
                  (s.settles w u r (rw (t, persist_classification) at h));
          })
    | inr n ↦
        (let s = prepared-Settles d v in
          record {
            keeps = λ w r. rw (n, persist_classification) (s.keeps w r);
            settles = λ w u r h.
                rw (n, persist_classification)
                  (s.settles w u r (rw (n, persist_classification) at h));
          })
  ]

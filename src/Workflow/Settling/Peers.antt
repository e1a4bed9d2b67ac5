-- ===== src/Workflow/Settling/Peers.antt =====
-- What the other processes write while a run of the workflow is under way: the ingest of other
-- deliveries, the runs of other workflows, and a second run of this one.
pub mod Ready
use glacis_webhook_service.Base.{
  ℕ, String, Bool, true, false, not, ◌&&◌, ◌||◌, ◌≡◌, ◌≢◌, refl, Option, none, some, List, [], ◌∷◌,
  ◌++◌, map, any, arith, inl, inr, Bool-cases, Result-cases, sym, ◌∙◌, subst, ap, ok, ◌==◌, eq_iff,
  ok_inj,
}
use glacis_webhook_service.Json.{Members}
use glacis_webhook_service.Models.{WebhookStatus, WebhookEvent, FkRecord, Db}
use glacis_webhook_service.Storage.{
  insert_webhook_event, mark_processing_status, mark_terminal_status, store_and_complete, save,
  save_optional, update_live, start_processing, finish, complete, is_terminal, has_key, has_id,
  is_too_long, fresh_event,
}
use glacis_webhook_service.Storage.Rows.{IsWrite}
use glacis_webhook_service.Storage.History.{
  start_processing-IsWrite, finish-IsWrite, complete-IsWrite, events-save,
}
use glacis_webhook_service.Storage.Records.Built.{event_of}
use glacis_webhook_service.Storage.Settled.{IsSettled}
use glacis_webhook_service.Activities.Settles.{
  IsReady, IsRecorded, update_known, update_keyed, stored-IsReady,
}

module _ (key event_id : String) where
  -- A write by a helper, of any key. A transaction either is one of this key and event, or saves no
  -- record of this event.
  pub data Peer (db : Db) : Db → Type 0 where
    inserts :
        (id : String) (now : ℕ) (k : String) (payload : Members) (vendor : String)
        → Peer db (insert_webhook_event id now k payload vendor db).1
    begins : (k : String) → Peer db (mark_processing_status k db)
    ends :
        (now : ℕ) (k : String) (status : WebhookStatus) (error : Option String)
        → Peer db (mark_terminal_status now k status error db).1
    stores :
        (now : ℕ) (event_type : String) (normalized_data : Members) (o : Option FkRecord)
        (review : Bool)
        → Peer db (store_and_complete now key event_id event_type normalized_data o review db).1
    stores_other :
        (now : ℕ) (k i event_type : String) (normalized_data : Members) (o : Option FkRecord)
        (review : Bool)
        → ((r : FkRecord) → o ≡ some r → event_of r ≢ event_id)
        → Peer db (store_and_complete now k i event_type normalized_data o review db).1

  pub data Writes (db : Db) : Db → Type 0 where
    here : Writes db db
    next : {mid last : Db} → Writes db mid → Peer mid last → Writes db last

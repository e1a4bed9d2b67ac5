-- ===== src/Storage/Lifecycle.antt =====
-- The life of an event as a client sees it, key by key, without the rows: what the helpers of
-- webhooks/storage.py that write implement.
pub mod Refines
use mathlib.Core.Logic.{ite}
use glacis_webhook_service.Base.{
  ℕ, String, Bool, true, false, not, ◌&&◌, ◌||◌, ◌≡◌, ◌≢◌, refl, Option, none, some, List, [], ◌∷◌,
  ◌++◌, ◌==◌, map, arith, inl, inr, Bool-cases, Option-cases, Result-cases, find?, sym, ap, ok, any,
  ◌∙◌, subst, eq_iff, eq_refl, some_inj, if◌then◌else◌,
}
use glacis_webhook_service.Models.{WebhookStatus, WebhookEvent, Db}
use glacis_webhook_service.Storage.{
  is_terminal, has_key, has_id, update_live, start_processing, finish, complete, fresh_event,
  insert_webhook_event, mark_processing_status, mark_terminal_status, store_and_complete,
  save_optional, is_too_long, Members,
}
use glacis_webhook_service.Storage.Rows.{IsWrite, update_live-key}
use glacis_webhook_service.Storage.History.{
  Write, Reach, insert, mark_processing, mark_terminal, store, here, next, start_processing-IsWrite,
  finish-IsWrite, complete-IsWrite, events-save,
}

-- The status of the key's event, if there is one.
abbrev pub stage_of : Option WebhookEvent → Option WebhookStatus
stage_of none = none
stage_of (some e) = some e.status

abbrev pub stage : Db → String → Option WebhookStatus
stage db key = stage_of (find? (has_key key) db.events)

-- One step of one event's life.
pub data Life : Option WebhookStatus → Option WebhookStatus → Type 0 where
  stays : {a : Option WebhookStatus} → Life a a
  receives : Life none (some WebhookStatus.received)
  begins :
      {s : WebhookStatus} → is_terminal s ≡ false → Life (some s) (some WebhookStatus.processing)
  ends :
      {s t : WebhookStatus} → is_terminal s ≡ false → is_terminal t ≡ true → Life (some s) (some t)

-- One event moves, and no other event changes.
pub record Advances (a b : String → Option WebhookStatus) : Type 0 where
  pub key : String
  pub life : Life (a key) (b key)
  pub others : (j : String) → key ≢ j → b j ≡ a j

pub data Runs (a : String → Option WebhookStatus) : (String → Option WebhookStatus) → Type 0 where
  start : Runs a a
  step : {b c : String → Option WebhookStatus} → Runs a b → Advances b c → Runs a c

-- ===== src/Storage/Settled.antt =====
-- What the transaction does to events that are settled already.
use glacis_webhook_service.Base.{
  ◌≡◌, ok, All, String, ℕ, List, Option, ◌&&◌, map, Bool, not, ◌∷◌, false, [], subst, refl, sym,
}
use glacis_webhook_service.Storage.History.{events-save}
use glacis_webhook_service.Models.{WebhookEvent, Db, FkRecord}
use glacis_webhook_service.Storage.{
  is_terminal, has_key, update_live, store_and_complete, save_optional, Members, complete,
}

-- No row of the key is live.
abbrev pub IsSettled : String → List WebhookEvent → Type 0
IsSettled key es = All (λ e. has_key key e && not (is_terminal e.status) ≡ false) es

update_settled :
    (key : String) (f : WebhookEvent → WebhookEvent) (es : List WebhookEvent)
    → IsSettled key es
    → map (update_live key f) es ≡ es
unfolding update_live
update_settled key f [] h = refl
update_settled key f (e ∷ es) h = rw (h.0, update_settled key f es h.1)

-- If no row of the key is live, the transaction leaves every event as it is; but it still saves the
-- record that it is given.
pub settled_event_gets_record :
    (now : ℕ) (key event_id event_type : String) (normalized_data : Members) (o : Option FkRecord)
    (review : Bool) (db db' : Db)
    → IsSettled key db.events
    → save_optional o db ≡ ok db'
    → store_and_complete now key event_id event_type normalized_data o review db ≡ (ok tt, db')
unfolding store_and_complete
settled_event_gets_record now key event_id event_type normalized_data o review db db' h q =
    let e =
      update_settled key (complete now event_type normalized_data review) db'.events
        (subst (IsSettled key) (sym (events-save o db q)) h) in
    rw (store_and_complete, q, e) refl

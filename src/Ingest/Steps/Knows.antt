-- ===== src/Ingest/Steps/Knows.antt =====
-- What the thread of a request knows at each stage, which the writes of others keep.
use glacis_webhook_service.Base.{
  ℕ, String, true, ◌≡◌, sym, subst, some, any, In-any, any-In, Result, ok, err, arith, inl, inr,
}
use glacis_webhook_service.Exceptions.{Exn}
use glacis_webhook_service.Json.{Json, obj, Members}
use glacis_webhook_service.Models.{WebhookEvent, Db}
use glacis_webhook_service.Storage.Rows.{Evolved}
use glacis_webhook_service.Storage.History.{Reach, row_evolves}
use glacis_webhook_service.Responses.{get_header}
use glacis_webhook_service.Services.{Services}
use glacis_webhook_service.Dedup.{compute_idempotency_key}
use glacis_webhook_service.Ingest.{Request, World}
use glacis_webhook_service.Ingest.Durability.{IsTaken, Took, is_row, Promises}
use glacis_webhook_service.Ingest.Steps.{
  Read, Stage, arrived, checking, inserting, looking_up, starting, marking, finished,
}

module _ (s : Services) (loads : String → Result Exn Json) (cap : ℕ) where
  open s use {start_workflow}

  -- A row with a key and an id stays in the tables.
  row_stays :
      (key event_id : String) (a b : Db)
      → Reach a b
      → any (is_row s key event_id) a.events ≡ true
      → any (is_row s key event_id) b.events ≡ true
  row_stays key event_id a b r h =
      let (e, there, q) = any-In (is_row s key event_id) a.events h in
      let (f, still, moved) = row_evolves r e there in
      In-any (is_row s key event_id) f b.events still (same_row e f moved q)
    where
      same_row :
          (e f : WebhookEvent)
          → Evolved e f
          → is_row s key event_id e ≡ true
          → is_row s key event_id f ≡ true
      same_row e f (inl p) q = subst (λ x. is_row s key event_id x ≡ true) (sym p) q
      same_row e f (inr m) q = ground (arith, m.same.id, m.same.idempotency_key)

  module _ (req : Request) where
    pub record IsRead (d : Read) (key : String) : Type 0 where
      pub named : get_header "webhook-id" req.headers ≡ some d.webhook_id
      pub read : loads req.raw ≡ ok (obj d.payload)
      pub own_key : key ≡ compute_idempotency_key d.webhook_id req.vendor_id

    -- What a thread knows at each stage.
    abbrev pub Sound : Stage → World s → Type 0
    Sound arrived w = Unit
    Sound (checking d) w = IsRead d (compute_idempotency_key d.webhook_id req.vendor_id)
    Sound (inserting d key) w = IsRead d key
    Sound (looking_up d key) w = IsRead d key
    Sound (starting d key event_id) w =
        IsRead d key × (any (is_row s key event_id) w.db.events ≡ true)
    Sound (marking d key) w = IsRead d key × IsTaken s key d.payload w
    Sound (finished r) w = Promises s (Took s loads req) (r, w)

    IsTaken-stays :
        (key : String) (payload : Members) (w v : World s)
        → Reach w.db v.db
        → IsTaken s key payload w
        → IsTaken s key payload v
    IsTaken-stays key payload w v r t = record {
      event_id = t.event_id;
      stored = row_stays key t.event_id w.db v.db r t.stored;
      before = t.before;
      started = t.started;
    }

    pub Sound-stays : (st : Stage) (w v : World s) → Reach w.db v.db → Sound st w → Sound st v
    Sound-stays arrived w v r h = tt
    Sound-stays (checking d) w v r h = h
    Sound-stays (inserting d key) w v r h = h
    Sound-stays (looking_up d key) w v r h = h
    Sound-stays (starting d key event_id) w v r (h, k) = (h, row_stays key event_id w.db v.db r k)
    Sound-stays (marking d key) w v r (h, t) = (h, IsTaken-stays key d.payload w v r t)
    Sound-stays (finished (ok x)) w v r h = λ a.
        let t = h a in
        record {
          webhook_id = t.webhook_id;
          named = t.named;
          payload = t.payload;
          read = t.read;
          taken =
              IsTaken-stays (compute_idempotency_key t.webhook_id req.vendor_id) t.payload w v r
                t.taken;
        }
    Sound-stays (finished (err e)) w v r h = tt

-- ===== src/Storage/Rows.antt =====
-- What the guarded update of webhooks/storage.py keeps of a row and of a table.
use glacis_webhook_service.Base.{
  String, ◌≡◌, refl, false, inl, inr, ◌⊎◌, List, [], ◌∷◌, map, arith, any, In, Bool-cases, subst,
  ◌&&◌, ap, sym, not, ◌∙◌,
}
use glacis_webhook_service.Models.{WebhookStatus, WebhookEvent}
use glacis_webhook_service.Storage.{is_terminal, has_key, has_id, update_live}
use glacis_webhook_service.Storage.Queries.{same_status}

-- The columns that no write of the pipeline changes.
pub record SameRow (e f : WebhookEvent) : Type 0 where
  pub id : f.id ≡ e.id
  pub idempotency_key : f.idempotency_key ≡ e.idempotency_key
  pub source_vendor : f.source_vendor ≡ e.source_vendor
  pub raw_payload : f.raw_payload ≡ e.raw_payload
  pub created_at : f.created_at ≡ e.created_at

-- A row moved forward: it is untouched, or it was live and has left RECEIVED.
pub record Moved (e f : WebhookEvent) : Type 0 where
  pub live : is_terminal e.status ≡ false
  pub left : same_status f.status WebhookStatus.received ≡ false
  pub same : SameRow e f

abbrev pub Evolved : WebhookEvent → WebhookEvent → Type 0
Evolved e f = (f ≡ e) ⊎ Moved e f

pub Evolved-trans : (e f g : WebhookEvent) → Evolved e f → Evolved f g → Evolved e g
Evolved-trans e f g (inl p) q = subst (λ x. Evolved x g) p q
Evolved-trans e f g (inr m) (inl q) = inr (subst (Moved e) (sym q) m)
Evolved-trans e f g (inr m) (inr n) = inr (record {
  live = m.live;
  left = n.left;
  same = record {
    id = n.same.id ∙ m.same.id;
    idempotency_key = n.same.idempotency_key ∙ m.same.idempotency_key;
    source_vendor = n.same.source_vendor ∙ m.same.source_vendor;
    raw_payload = n.same.raw_payload ∙ m.same.raw_payload;
    created_at = n.same.created_at ∙ m.same.created_at;
  };
})

-- A change of a row that the pipeline makes: it keeps the row's identity and leaves RECEIVED.
pub record IsWrite (f : WebhookEvent → WebhookEvent) : Type 0 where
  pub same : (e : WebhookEvent) → SameRow e (f e)
  pub left : (e : WebhookEvent) → same_status (f e).status WebhookStatus.received ≡ false

module _ (key : String) (f : WebhookEvent → WebhookEvent) (w : IsWrite f) where
  pub update_live-Evolved : (e : WebhookEvent) → Evolved e (update_live key f e)
  unfolding update_live
  update_live-Evolved e = elim (Bool-cases (has_key key e && not (is_terminal e.status))) [
    | inl t ↦ rw t (inr (record { live = ground arith; left = w.left e; same = w.same e }))
    | inr n ↦ rw n (inl refl)
  ]

  pub update_live-id : (e : WebhookEvent) → (update_live key f e).id ≡ e.id
  unfolding update_live
  update_live-id e = ground (arith, (w.same e).id)

  pub update_live-key :
      (e : WebhookEvent) → (update_live key f e).idempotency_key ≡ e.idempotency_key
  unfolding update_live
  update_live-key e = ground (arith, (w.same e).idempotency_key)

  pub any-id-update :
      (i : String) (es : List WebhookEvent)
      → any (has_id i) (map (update_live key f) es) ≡ any (has_id i) es
  any-id-update i [] = refl
  any-id-update i (e ∷ es) = rw (update_live-id e, any-id-update i es)

  pub any-key-update :
      (k : String) (es : List WebhookEvent)
      → any (has_key k) (map (update_live key f) es) ≡ any (has_key k) es
  any-key-update k [] = refl
  any-key-update k (e ∷ es) = rw (update_live-key e, any-key-update k es)

  pub In-update :
      (e : WebhookEvent) (es : List WebhookEvent)
      → In e es
      → In (update_live key f e) (map (update_live key f) es)
  In-update e [] h = h
  In-update e (d ∷ es) (inl p) = inl (ap (update_live key f) p)
  In-update e (d ∷ es) (inr h) = inr (In-update e es h)

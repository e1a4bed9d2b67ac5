-- ===== src/Storage/Queries.antt =====
-- The sorted listings of webhooks/storage.py. Rows of one instant stay in the order of the table.
use glacis_webhook_service.Base.{
  ℕ, ◌+◌, ◌*◌, String, Bool, ◌&&◌, Option, List, [], ◌∷◌, map, ltb, if◌then◌else◌, filter, take,
  true, false,
}
use glacis_webhook_service.Json.{Members}
use glacis_webhook_service.Models.{WebhookStatus, WebhookEvent, Db}

-- The row goes past those that come strictly before it.
unfoldable pub insert_by {ℓ} : {A : Type ℓ} → (A → A → Bool) → A → List A → List A
insert_by before x [] = x ∷ []
insert_by before x (y ∷ ys) = if before y x then y ∷ insert_by before x ys else x ∷ y ∷ ys

unfoldable pub sort_by {ℓ} : {A : Type ℓ} → (A → A → Bool) → List A → List A
unfolding insert_by
sort_by before [] = []
sort_by before (x ∷ xs) = insert_by before x (sort_by before xs)

abbrev pub is_older : WebhookEvent → WebhookEvent → Bool
is_older a b = ltb a.created_at b.created_at

abbrev pub is_newer : WebhookEvent → WebhookEvent → Bool
is_newer a b = ltb b.created_at a.created_at

pub record ReviewRow : Type 0 where
  pub idempotency_key : String
  pub event_type : Option String
  pub normalized_data : Option Members
  pub created_at : ℕ

abbrev pub review_row : WebhookEvent → ReviewRow
review_row e = record {
  idempotency_key = e.idempotency_key;
  event_type = e.event_type;
  normalized_data = e.normalized_data;
  created_at = e.created_at;
}

unfoldable pub list_review_queue : ℕ → Db → List ReviewRow
unfolding sort_by
list_review_queue limit db =
    map review_row (take limit (sort_by is_newer (filter (λ e. e.requires_review) db.events)))

pub record StuckRow : Type 0 where
  pub id : String
  pub idempotency_key : String
  pub raw_payload : Members

abbrev pub stuck_row : WebhookEvent → StuckRow
stuck_row e = record { id = e.id; idempotency_key = e.idempotency_key; raw_payload = e.raw_payload }

abbrev pub same_status : WebhookStatus → WebhookStatus → Bool
same_status WebhookStatus.received WebhookStatus.received = true
same_status WebhookStatus.processing WebhookStatus.processing = true
same_status WebhookStatus.completed WebhookStatus.completed = true
same_status WebhookStatus.failed WebhookStatus.failed = true
same_status _ _ = false

-- `status=…, created_at__lt=now - timedelta(seconds=…)`
abbrev pub is_stuck : WebhookStatus → ℕ → ℕ → WebhookEvent → Bool
is_stuck status older_than_seconds now e =
    same_status e.status status && ltb (e.created_at + older_than_seconds * 1000000) now

-- The rows that a listing returns, before they become dicts.
unfoldable pub stuck_events : WebhookStatus → ℕ → ℕ → ℕ → Db → List WebhookEvent
unfolding sort_by
stuck_events status older_than_seconds limit now db =
    take limit (sort_by is_older (filter (is_stuck status older_than_seconds now) db.events))

unfoldable pub list_stuck_by_status : WebhookStatus → ℕ → ℕ → ℕ → Db → List StuckRow
unfolding stuck_events
list_stuck_by_status status older_than_seconds limit now db =
    map stuck_row (stuck_events status older_than_seconds limit now db)

unfoldable pub list_stuck_received : ℕ → ℕ → ℕ → Db → List StuckRow
unfolding list_stuck_by_status
list_stuck_received = list_stuck_by_status WebhookStatus.received

unfoldable pub list_stuck_processing : ℕ → ℕ → ℕ → Db → List StuckRow
unfolding list_stuck_by_status
list_stuck_processing = list_stuck_by_status WebhookStatus.processing

-- ===== src/Dedup/Cache.antt =====
-- The cache answers with the key that the delivery has anyway.
use glacis_webhook_service.Base.{
  ◌≡◌, ok, inl, some, ◌∙◌, ◌<◌, sym, ◌+◌, inr, ◌*◌, true, >>=-eq-ok, arith, false,
}
use Prim.Native.String.{String}
use text.Mathlib.TextLemmas.{append_cancel_left}
use glacis_webhook_service.Dedup.Keys.{redis_key-eq}
use glacis_webhook_service.Services.{Services, RedisLaws}
use glacis_webhook_service.Dedup.{
  compute_idempotency_key, redis_key, check_duplicate, mark_as_seen, dedup_ttl_seconds, ℕ, Bool,
}

module _ (s : Services) where
  open s use {Redis, redis_get, redis_set}

  -- What the cache holds for a delivery is the delivery's idempotency key.
  pub record IsFaithful (r : Redis) : Type 0 where
    pub cached :
        (t : ℕ) (v w c : String)
        → redis_get t (redis_key v w) r ≡ ok (some c)
        → c ≡ compute_idempotency_key w v

  -- A delivery that is not in the cache gets its own key.
  pub check_duplicate_miss :
      (w v key : String) (now : ℕ) (r : Redis)
      → check_duplicate s w v now r ≡ ok (false, key)
      → key ≡ compute_idempotency_key w v
  unfolding check_duplicate
  check_duplicate_miss w v key now r h =
      let (o, p, q) = >>=-eq-ok (redis_get now (redis_key v w) r) _ h in ground arith

  module _ (laws : RedisLaws s) where
    -- Marking a delivery with its own key keeps the cache faithful, also if the call raises.
    pub mark_as_seen-IsFaithful :
        (w v : String) (now : ℕ) (r : Redis)
        → IsFaithful r
        → IsFaithful (mark_as_seen s (compute_idempotency_key w v) w v now r).1
    unfolding mark_as_seen
    mark_as_seen-IsFaithful w v now r f = record {
      cached = λ t v' w' c h. elim (laws.get-set t now _ _ _ c _ r h) [
        | inl (same, e) ↦ e ∙ sym (same_key v' w' same)
        | inr before ↦ f.cached t v' w' c before
      ];
    }
      where
        same_key :
            (v' w' : String)
            → redis_key v' w' ≡ redis_key v w
            → compute_idempotency_key w' v' ≡ compute_idempotency_key w v
        same_key v' w' e =
            append_cancel_left "webhook:external_id:" _ _
              (sym (redis_key-eq v' w') ∙ e ∙ redis_key-eq v w)

    -- A delivery that was marked is found again for seven days, under the key that a fresh
    -- delivery of it would get.
    pub check_duplicate-mark_as_seen :
        (w v : String) (now t : ℕ) (r : Redis) {result : Bool × String}
        → (mark_as_seen s (compute_idempotency_key w v) w v now r).0 ≡ ok tt
        → t < now + dedup_ttl_seconds * 1000000
        → check_duplicate s w v t (mark_as_seen s (compute_idempotency_key w v) w v now r).1
          ≡ ok result
        → result ≡ (true, compute_idempotency_key w v)
    unfolding mark_as_seen check_duplicate
    check_duplicate-mark_as_seen w v now t r e lt h =
        let (o, p, q) = >>=-eq-ok (redis_get t (redis_key v w) _) _ h in
        let there = laws.get-set_self t now _ _ dedup_ttl_seconds r e lt p in ground arith

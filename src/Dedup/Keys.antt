-- ===== src/Dedup/Keys.antt =====
-- When two deliveries have the same idempotency key, which the cache, the unique column and the
-- workflow id all share.
use glacis_webhook_service.Base.{◌≢◌, ◌≡◌, ap, sym, refl, ◌∙◌}
use Prim.Native.Char.{code}
use Prim.Native.String.{[], ◌∷◌, ◌++◌, String}
use text.Mathlib.TextLemmas.{
  nil-append, cons-append, append-nil, append_assoc, append_cancel_left, head-eq_of_cons-eq,
  tail-eq_of_cons-eq, cons≢nil,
}
use glacis_webhook_service.Dedup.{compute_idempotency_key, redis_key}

-- The text has no colon.
abbrev pub NoColon : String → Type 0
NoColon [] = Unit
NoColon (c ∷ s) = (code c ≢ b':') × NoColon s

colon-append : (r : String) → ":" ++ r ≡ ":" ∷ r
colon-append r = rw cons-append (rw nil-append)

-- A text is cut at its first colon in one way only.
colon_split :
    (v v' r r' : String)
    → NoColon v
    → NoColon v'
    → v ++ (":" ∷ r) ≡ v' ++ (":" ∷ r')
    → (v ≡ v') × (r ≡ r')
colon_split [] [] r r' n n' h = (refl, tail-eq_of_cons-eq (rw (nil-append, nil-append) at h))
colon_split [] (d ∷ v') r r' n (q, n') h =
    absurd (q (ap code (sym (head-eq_of_cons-eq (rw (nil-append, cons-append) at h)))))
colon_split (c ∷ v) [] r r' (p, n) n' h =
    absurd (p (ap code (head-eq_of_cons-eq (rw (cons-append, nil-append) at h))))
colon_split (c ∷ v) (d ∷ v') r r' (p, n) (q, n') h =
    let h' : c ∷ (v ++ (":" ∷ r)) ≡ d ∷ (v' ++ (":" ∷ r')) = rw (cons-append, cons-append) at h in
    let (e, f) = colon_split v v' r r' n n' (tail-eq_of_cons-eq h') in
    (cc (head-eq_of_cons-eq h', e), f)

-- Two vendors whose ids hold no colon share no idempotency key: equal keys come from the same
-- vendor and the same webhook id, whatever characters the webhook ids hold.
pub idempotency_key_injective :
    (v v' w w' : String)
    → NoColon v
    → NoColon v'
    → compute_idempotency_key w v ≡ compute_idempotency_key w' v'
    → (v ≡ v') × (w ≡ w')
unfolding compute_idempotency_key
idempotency_key_injective v v' w w' n n' h =
    colon_split v v' w w' n n' (rw (colon-append, colon-append) at h)

-- An id with a colon breaks this: for every vendor `v` and every `w` and `x`, the vendor `v:w` is
-- another vendor than `v`, and its delivery `x` has the idempotency key and the cache key of the
-- delivery `w:x` of `v`.
pub idempotency_key_collides :
    (v w x : String)
    → (v ++ (":" ++ w) ≢ v)
      × (compute_idempotency_key x (v ++ (":" ++ w)) ≡ compute_idempotency_key (w ++ (":" ++ x)) v)
      × (redis_key (v ++ (":" ++ w)) x ≡ redis_key v (w ++ (":" ++ x)))
unfolding compute_idempotency_key redis_key
idempotency_key_collides v w x = (
  λ e. cons≢nil (sym (colon-append w) ∙ append_cancel_left v _ [] (e ∙ sym (append-nil v))),
  append_assoc v _ _ ∙ ap (◌++◌ v) (append_assoc ":" w _),
  ap (◌++◌ "webhook:external_id:") (append_assoc v _ _ ∙ ap (◌++◌ v) (append_assoc ":" w _)),
)

-- The cache key is the idempotency key under a fixed prefix.
pub redis_key-eq :
    (v w : String) → redis_key v w ≡ "webhook:external_id:" ++ compute_idempotency_key w v
unfolding compute_idempotency_key redis_key
redis_key-eq v w = refl

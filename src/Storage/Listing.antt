-- ===== src/Storage/Listing.antt =====
-- What the sorted, limited listings of webhooks/storage.py return.
use glacis_webhook_service.Base.{
  All-In, List, Bool, ℕ, ◌∷◌, All, take, In, ◌≤◌, Bool-cases, [], suc, ◌↔◌, inl, All-take, ◌≡◌,
  ⊎_map, inr, arith, zero, ◌⊎◌, subst, filter, length, true, sym, ap, length-take, refl, false,
}
use glacis_webhook_service.Models.{WebhookStatus, WebhookEvent, Db}
use glacis_webhook_service.Storage.Queries.{insert_by, sort_by, is_older, is_stuck, stuck_events}

-- Oldest first.
abbrev pub IsSorted : List WebhookEvent → Type 0
IsSorted [] = Unit
IsSorted (x ∷ xs) = All (λ y. x.created_at ≤ y.created_at) xs × IsSorted xs

module _ (P : WebhookEvent → Type 0) (before : WebhookEvent → WebhookEvent → Bool) where
  All-insert :
      (x : WebhookEvent) (xs : List WebhookEvent) → P x → All P xs → All P (insert_by before x xs)
  unfolding insert_by
  All-insert x [] p h = (p, tt)
  All-insert x (y ∷ ys) p (q, h) = elim (Bool-cases (before y x)) [
    | inl t ↦ rw t (q, All-insert x ys p h)
    | inr n ↦ rw n (p, (q, h))
  ]

All-mono {ℓ} :
    {A : Type 0} (P Q : A → Type ℓ) (xs : List A) → ((x : A) → P x → Q x) → All P xs → All Q xs
All-mono P Q [] m h = tt
All-mono P Q (x ∷ xs) m (p, h) = (m x p, All-mono P Q xs m h)

insert-IsSorted :
    (x : WebhookEvent) (xs : List WebhookEvent) → IsSorted xs → IsSorted (insert_by is_older x xs)
unfolding insert_by
insert-IsSorted x [] s = (tt, tt)
insert-IsSorted x (y ∷ ys) (h, s) = elim (Bool-cases (is_older y x)) [
  | inl t ↦ rw t (
    All-insert (λ z. y.created_at ≤ z.created_at) is_older x ys (ground arith) h,
    insert-IsSorted x ys s,
  )
  | inr n ↦ rw n (
    (ground arith, All-mono (λ z. y.created_at ≤ z.created_at) _ ys (λ z k. ground arith) h),
    (h, s),
  )
]

pub sort-IsSorted : (xs : List WebhookEvent) → IsSorted (sort_by is_older xs)
unfolding sort_by
sort-IsSorted [] = tt
sort-IsSorted (x ∷ xs) = insert-IsSorted x (sort_by is_older xs) (sort-IsSorted xs)

take-IsSorted : (n : ℕ) (xs : List WebhookEvent) → IsSorted xs → IsSorted (take n xs)
take-IsSorted zero xs s = tt
take-IsSorted (suc n) [] s = tt
take-IsSorted (suc n) (x ∷ xs) (h, s) = (All-take _ n xs h, take-IsSorted n xs s)

module _ (before : WebhookEvent → WebhookEvent → Bool) (e : WebhookEvent) where
  In-insert_iff :
      (x : WebhookEvent) (xs : List WebhookEvent) → In e (insert_by before x xs) ↔ In e (x ∷ xs)
  unfolding insert_by
  In-insert_iff x [] = (λ h. h, λ h. h)
  In-insert_iff x (y ∷ ys) = elim (Bool-cases (before y x)) [
    | inl t ↦ rw t (swap_in (In-insert_iff x ys))
    | inr n ↦ rw n (λ h. h, λ h. h)
  ]
    where
      swap_in :
          In e (insert_by before x ys) ↔ In e (x ∷ ys)
          → ((e ≡ y) ⊎ In e (insert_by before x ys)) ↔ ((e ≡ x) ⊎ ((e ≡ y) ⊎ In e ys))
      swap_in i = ground arith

  In-sort_iff : (xs : List WebhookEvent) → In e (sort_by before xs) ↔ In e xs
  unfolding sort_by
  In-sort_iff [] = (λ h. h, λ h. h)
  In-sort_iff (x ∷ xs) =
      let (to, from) = In-insert_iff x (sort_by before xs) in
      let (down, up) = In-sort_iff xs in
      (λ h. ⊎_map (λ p. p) down (to h), λ h. from (⊎_map (λ p. p) up h))

  In-filter_iff :
      (p : WebhookEvent → Bool) (xs : List WebhookEvent)
      → In e (filter p xs) ↔ (In e xs × (p e ≡ true))
  In-filter_iff p [] = (λ h. absurd h, λ h. h.0)
  In-filter_iff p (x ∷ xs) =
      let (down, up) = In-filter_iff p xs in
      elim (Bool-cases (p x)) [
        | inl t ↦ rw t (
          elim [
            | inl q ↦ (inl q, subst (λ y. p y ≡ true) (sym q) t)
            | inr h ↦ (inr (down h).0, (down h).1)
          ],
          λ h. elim h.0 [ inl q ↦ inl q | inr k ↦ inr (up (k, h.1)) ],
        )
        | inr n ↦ rw n (
          λ h. (inr (down h).0, (down h).1),
          λ h. elim h.0 [ inl q ↦ absurd (clash q h.1 n) | inr k ↦ up (k, h.1) ],
        )
      ]
    where
      clash : e ≡ x → p e ≡ true → p x ≡ false → ⊥
      clash q t n = cc

  In-of_take : (n : ℕ) (xs : List WebhookEvent) → In e (take n xs) → In e xs
  In-of_take zero xs h = absurd h
  In-of_take (suc n) [] h = h
  In-of_take (suc n) (x ∷ xs) h = ⊎_map (λ p. p) (In-of_take n xs) h

  -- What a limit cuts off a sorted list is not older than anything that it leaves.
  take_complete :
      (n : ℕ) (xs : List WebhookEvent)
      → IsSorted xs
      → In e xs
      → In e (take n xs)
        ⊎ ((length (take n xs) ≡ n) × All (λ x. x.created_at ≤ e.created_at) (take n xs))
  take_complete zero xs s h = inr (refl, tt)
  take_complete (suc n) (x ∷ xs) s (inl p) = inl (inl p)
  take_complete (suc n) (x ∷ xs) (h, s) (inr k) = elim (take_complete n xs s k) [
    | inl found ↦ inl (inr found)
    | inr (full, older) ↦
        inr (ap suc full, (All-In (λ y. x.created_at ≤ y.created_at) e xs h k, older))
  ]
  take_complete (suc n) [] s h = absurd h

-- A listing of stuck rows holds only rows of the table that have the status and were created more
-- than the grace ago, at most `limit` of them, the oldest first; and it leaves such a row out only
-- when it is full with rows that are not newer.
pub stuck_events_oldest :
    (status : WebhookStatus) (older_than_seconds limit now : ℕ) (db : Db)
    → let rows = stuck_events status older_than_seconds limit now db in
      ((e : WebhookEvent)
        → In e rows
        → In e db.events × (is_stuck status older_than_seconds now e ≡ true))
      × (length rows ≤ limit)
      × IsSorted rows
      × ((e : WebhookEvent)
          → In e db.events
          → is_stuck status older_than_seconds now e ≡ true
          → In e rows ⊎ ((length rows ≡ limit) × All (λ x. x.created_at ≤ e.created_at) rows))
unfolding stuck_events
stuck_events_oldest status older limit now db =
    let found = filter (is_stuck status older now) db.events in
    let sorted = sort_by is_older found in
    (
      (λ e h.
          (In-filter_iff is_older e (is_stuck status older now) db.events).0
            ((In-sort_iff is_older e found).0 (In-of_take is_older e limit sorted h))),
      length-take limit sorted,
      take-IsSorted limit sorted (sort-IsSorted found),
      (λ e h p. take_complete is_older e limit sorted (sort-IsSorted found) (
          (In-sort_iff is_older e found).1
            ((In-filter_iff is_older e (is_stuck status older now) db.events).1 (h, p)))),
    )

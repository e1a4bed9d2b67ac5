-- ===== src/Llm/Client/Calm.antt =====
-- The HTTP client while no client is constructed during a close, as at the worker's shutdown; and
-- what happens to one that is.
use native.Mathlib.Decide.{ℕ_discrete}
use glacis_webhook_service.Base.{
  ℕ, ◌+◌, ◌<◌, ◌≡◌, ◌≢◌, ◌⊎◌, inl, inr, Option, none, some, true, false, refl, sym, ◌∙◌, ap, subst,
  some_inj, arith, Bool-cases,
}
use glacis_webhook_service.Bridge.Threads.{moved_at}
use glacis_webhook_service.Llm.Client.{
  Clients, new_client, get_http_client, to_close, mark_closed, forget_client, Task, idle, using,
  closing, Move, get, finish, skip_close, start_close, close, end_close, raise, System, Step, pick,
  started, ite,
}

pub data Reach : System → Type 0 where
  begin : Reach started
  later :
      {s t : System}
      → Reach s
      → Step s t
      → (t.clients.constructed ≡ s.clients.constructed) ⊎ ((i c : ℕ) → s.at i ≢ closing c)
      → Reach t

-- A client that has been constructed is the global one or closed.
pub Kept : Clients → Type 0
Kept g = (c : ℕ) → c < g.constructed → (g.http_client ≡ some c) ⊎ (g.is_closed c ≡ true)

-- A task closes the client that is the global one, unless another has forgotten it.
abbrev Fits : Clients → Task → Type 0
Fits g idle = Unit
Fits g (using c) = Unit
Fits g (closing c) = (g.http_client ≡ none) ⊎ (g.http_client ≡ some c)

-- The global client, if there is one, is closed.
IsDone : Clients → Type 0
IsDone g = (c : ℕ) → g.http_client ≡ some c → g.is_closed c ≡ true

-- A call of `get_http_client` gives the global client, or constructs one in the place of a closed one.
get-cases :
    (g : Clients)
    → ((get_http_client g).1 ≡ g) ⊎ (((get_http_client g).1 ≡ (new_client g).1) × IsDone g)
unfolding get_http_client IsDone
get-cases g = found g.http_client refl
  where
    found :
        (o : Option ℕ)
        → g.http_client ≡ o
        → ((get_http_client g).1 ≡ g) ⊎ (((get_http_client g).1 ≡ (new_client g).1) × IsDone g)
    found none e = rw e (inr (refl, λ c q. absurd (cc)))
    found (some c) e = elim (Bool-cases (g.is_closed c)) [
      | inl t ↦ rw (e, t) (inr (refl, λ d q. subst (λ x. g.is_closed x ≡ true) (some_inj q) t))
      | inr n ↦ rw (e, n) (inl refl)
    ]

to_close-client : (g : Clients) (c : ℕ) → to_close g ≡ some c → g.http_client ≡ some c
unfolding to_close
to_close-client g c h = found g.http_client refl
  where
    not_found : ◌≡◌ {A = Option ℕ} none (some c) → ⊥
    not_found q = cc

    found : (o : Option ℕ) → g.http_client ≡ o → o ≡ some c
    found none e = absurd (not_found (rw e at h))
    found (some d) e = elim (Bool-cases (g.is_closed d)) [
      | inl t ↦ absurd (not_found (rw (e, t) at h))
      | inr n ↦ rw (e, n) at h
    ]

new_client-Kept : (g : Clients) → Kept g → IsDone g → Kept (new_client g).1
unfolding Kept IsDone new_client
new_client-Kept g k d c h =
    elim (ℕ_discrete g.constructed c)
      as (λ x. ((new_client g).1.http_client ≡ some c) ⊎ (ite x false (g.is_closed c) ≡ true)) [
        | yes e ↦ inl (ap some e)
        | no n ↦ inr (old (k c (omega (arith, h, n))))
      ]
  where
    old : (g.http_client ≡ some c) ⊎ (g.is_closed c ≡ true) → g.is_closed c ≡ true
    old (inl q) = d c q
    old (inr q) = q

mark_closed-Kept : (c : ℕ) (g : Clients) → Kept g → Kept (mark_closed c g)
unfolding Kept mark_closed
mark_closed-Kept c g k d h =
    elim (ℕ_discrete c d) as (λ x. (g.http_client ≡ some d) ⊎ (ite x true (g.is_closed d) ≡ true)) [
      | yes e ↦ inr refl
      | no n ↦ k d h
    ]

forget_client-Kept :
    (c : ℕ) (g : Clients)
    → Kept g
    → Fits g (closing c)
    → g.is_closed c ≡ true
    → Kept (forget_client g)
unfolding Kept forget_client
forget_client-Kept c g k f t d h = inr (old (k d h) f)
  where
    same : g.http_client ≡ some d → g.http_client ≡ some c → g.is_closed d ≡ true
    same p q = subst (λ x. g.is_closed x ≡ true) (some_inj (sym q ∙ p)) t

    gone : g.http_client ≡ some d → g.http_client ≡ none → ⊥
    gone p q = cc

    old :
        (g.http_client ≡ some d) ⊎ (g.is_closed d ≡ true)
        → Fits g (closing c)
        → g.is_closed d ≡ true
    old (inl p) (inl q) = absurd (gone p q)
    old (inl p) (inr q) = same p q
    old (inr p) q = p

-- Every step keeps it, also one that constructs a client during a close.
Move-Kept : {g h : Clients} {t u : Task} → Move g t h u → Kept g → Fits g t → Kept h
Move-Kept {g} (get {c} {h} e) k f = elim (get-cases g) [
  | inl same ↦ subst Kept (sym same ∙ ap (λ x. x.1) e) k
  | inr (made, d) ↦ subst Kept (sym made ∙ ap (λ x. x.1) e) (new_client-Kept g k d)
]
Move-Kept finish k f = k
Move-Kept (skip_close e) k f = k
Move-Kept (start_close e) k f = k
Move-Kept {g} (close {c}) k f = mark_closed-Kept c g k
Move-Kept {g} (end_close {c} e) k f = forget_client-Kept c g k f e
Move-Kept raise k f = k

Move-Fits : {g h : Clients} {t u : Task} → Move g t h u → Fits g t → Fits h u
unfolding mark_closed
Move-Fits (get e) f = tt
Move-Fits finish f = tt
Move-Fits (skip_close e) f = tt
Move-Fits {g} (start_close {c} e) f = inr (to_close-client g c e)
Move-Fits close f = f
Move-Fits (end_close e) f = tt
Move-Fits raise f = tt

-- A step constructs a client, or leaves the global client as it is or forgets it.
Move-client :
    {g h : Clients} {t u : Task}
    → Move g t h u
    → (h.constructed ≡ g.constructed + 1) ⊎ (h.http_client ≡ g.http_client) ⊎ (h.http_client ≡ none)
unfolding mark_closed forget_client new_client
Move-client {g} (get {c} {h} e) = elim (get-cases g) [
  | inl same ↦ inr (inl (ap (λ x. x.http_client) (sym (ap (λ x. x.1) e) ∙ same)))
  | inr (made, d) ↦ inl (ap (λ x. x.constructed) (sym (ap (λ x. x.1) e) ∙ made))
]
Move-client finish = inr (inl refl)
Move-client (skip_close e) = inr (inl refl)
Move-client (start_close e) = inr (inl refl)
Move-client close = inr (inl refl)
Move-client (end_close e) = inr (inr refl)
Move-client raise = inr (inl refl)

-- Unless a step constructs a client during it, a close goes on closing the global client.
Fits-stays :
    {g h : Clients} {t u : Task} (v : Task)
    → Move g t h u
    → (h.constructed ≡ g.constructed) ⊎ ((c : ℕ) → v ≢ closing c)
    → Fits g v
    → Fits h v
Fits-stays idle m calm f = tt
Fits-stays (using c) m calm f = tt
Fits-stays {g} {h} (closing c) m (inr n) f = absurd (n c refl)
Fits-stays {g} {h} (closing c) m (inl same) f = elim (Move-client m) [
  | inl grown ↦ absurd (omega (arith, grown, same))
  | inr (inl q) ↦ subst (λ o. (o ≡ none) ⊎ (o ≡ some c)) (sym q) f
  | inr (inr q) ↦ inl q
]

Reach-Fits : {s : System} → Reach s → Kept s.clients × ((i : ℕ) → Fits s.clients (s.at i))
unfolding Kept
Reach-Fits begin = (λ c h. absurd (omega (arith, h)), λ i. tt)
Reach-Fits (later {s} r (pick i {g} {t} m) calm) =
    let (k, f) = Reach-Fits r in
    (
      Move-Kept m k (f i),
      λ j.
          moved_at (λ x. Fits g) s.at i t j (Move-Fits m (f i))
            (Fits-stays (s.at j) m (elim calm [ inl same ↦ inl same | inr n ↦ inr (n j) ]) (f j)),
    )

-- However the tasks interleave, while no client is constructed during a close, every client that has
-- been constructed is the global one or closed.
pub Reach-Kept : {s : System} → Reach s → Kept s.clients
Reach-Kept r = (Reach-Fits r).0

-- A client that a task constructs while another closes the one before is open, and the end of the
-- close forgets it.
pub overtaken :
    (g : Clients) (c : ℕ)
    → g.http_client ≡ some c
    → g.is_closed c ≡ true
    → ((get_http_client g).1.is_closed (get_http_client g).0 ≡ false)
      × ((forget_client (get_http_client g).1).http_client ≡ none)
unfolding get_http_client new_client forget_client
overtaken g c e t = rw (e, t) (is_open (ℕ_discrete g.constructed g.constructed), refl)
  where
    is_open :
        (x : Dec (g.constructed ≡ g.constructed)) → ite x false (g.is_closed g.constructed) ≡ false
    is_open (yes p) = refl
    is_open (no n) = absurd (n refl)

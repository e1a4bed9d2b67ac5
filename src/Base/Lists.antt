-- ===== src/Base/Lists.antt =====
-- Lists: length over the native numbers, search by a Boolean test, and predicates on all members.
use Prim.Native.Nat.{ℕ, zero, suc, ◌≤◌}
use mathlib.Core.Path.{◌≡◌, refl, ap, subst, sym}
use mathlib.Core.Logic.{◌⊎◌, inl, inr}
use mathlib.Core.Bool.{Bool, true, false, ◌&&◌, ◌||◌}
use mathlib.Core.Option.{Option, none, some}
use mathlib.Core.List.{List, [], ◌∷◌, map}
use native.Mathlib.Omega.{arith}
use glacis_webhook_service.Base.Tests.{if◌then◌else◌, Bool-cases}

module _ {ℓ} {A : Type ℓ} where
  abbrev pub length : List A → ℕ
  length [] = 0
  length (x ∷ xs) = suc (length xs)

  abbrev pub any : (A → Bool) → List A → Bool
  any p [] = false
  any p (x ∷ xs) = p x || any p xs

  abbrev pub all : (A → Bool) → List A → Bool
  all p [] = true
  all p (x ∷ xs) = p x && all p xs

  -- The first member that passes the test.
  abbrev pub find? : (A → Bool) → List A → Option A
  find? p [] = none
  find? p (x ∷ xs) = if p x then some x else find? p xs

  abbrev pub filter : (A → Bool) → List A → List A
  filter p [] = []
  filter p (x ∷ xs) = if p x then x ∷ filter p xs else filter p xs

  abbrev pub take : ℕ → List A → List A
  take zero xs = []
  take (suc n) [] = []
  take (suc n) (x ∷ xs) = x ∷ take n xs

  abbrev pub All {κ} : (A → Type κ) → List A → Type κ
  All P [] = Unit
  All P (x ∷ xs) = P x × All P xs

  pub length-take : (n : ℕ) (xs : List A) → length (take n xs) ≤ n
  length-take zero xs = omega arith
  length-take (suc n) [] = omega arith
  length-take (suc n) (x ∷ xs) = omega (arith, length-take n xs)

  pub All-take {κ} : (P : A → Type κ) (n : ℕ) (xs : List A) → All P xs → All P (take n xs)
  All-take P zero xs h = tt
  All-take P (suc n) [] h = tt
  All-take P (suc n) (x ∷ xs) (p, h) = (p, All-take P n xs h)

module _ {ℓ κ} {A : Type ℓ} {B : Type κ} where
  pub length-map : (f : A → B) (xs : List A) → length (map f xs) ≡ length xs
  length-map f [] = refl
  length-map f (x ∷ xs) = ap suc (length-map f xs)

module _ {A : Type 0} where
  -- Membership by recursion, which computes to a sum.
  abbrev pub In : A → List A → Type 0
  In a [] = ⊥
  In a (x ∷ xs) = (a ≡ x) ⊎ In a xs

  pub In-any : (q : A → Bool) (a : A) (xs : List A) → In a xs → q a ≡ true → any q xs ≡ true
  In-any q a [] h t = absurd h
  In-any q a (x ∷ xs) (inl p) t = let s : q x ≡ true = subst (λ y. q y ≡ true) p t in ground arith
  In-any q a (x ∷ xs) (inr h) t = ground (arith, In-any q a xs h t)

  pub any-In : (q : A → Bool) (xs : List A) → any q xs ≡ true → (a : A) × In a xs × (q a ≡ true)
  any-In q [] h = absurd (cc h)
  any-In q (x ∷ xs) h = elim (Bool-cases (q x)) [
    | inl t ↦ (x, inl refl, t)
    | inr n ↦ let (a, k, t) = any-In q xs (ground arith) in (a, inr k, t)
  ]

  pub All-In {κ} : (P : A → Type κ) (a : A) (xs : List A) → All P xs → In a xs → P a
  All-In P a [] h k = absurd k
  All-In P a (x ∷ xs) (p, h) (inl q) = subst P (sym q) p
  All-In P a (x ∷ xs) (p, h) (inr k) = All-In P a xs h k

  pub In-All {κ} : (P : A → Type κ) (xs : List A) → ((a : A) → In a xs → P a) → All P xs
  In-All P [] f = tt
  In-All P (x ∷ xs) f = (f x (inl refl), In-All P xs (λ a h. f a (inr h)))

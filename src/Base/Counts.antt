-- ===== src/Base/Counts.antt =====
-- How many members of a list pass a test.
use Prim.Native.Nat.{ℕ, zero, suc, ◌+◌, ◌≤◌}
use mathlib.Core.Path.{◌≡◌, refl}
use mathlib.Core.Bool.{Bool, true, not, ◌&&◌}
use mathlib.Core.List.{List, [], ◌∷◌, ◌++◌, map}
use native.Mathlib.Omega.{arith}
use glacis_webhook_service.Base.Tests.{if◌then◌else◌}
use glacis_webhook_service.Base.Lists.{All, filter, take}

module _ {ℓ} {A : Type ℓ} where
  abbrev pub count : (A → Bool) → List A → ℕ
  count p [] = 0
  count p (x ∷ xs) = (if p x then 1 else 0) + count p xs

  pub count-append : (p : A → Bool) (xs ys : List A) → count p (xs ++ ys) ≡ count p xs + count p ys
  count-append p [] ys = omega arith
  count-append p (x ∷ xs) ys = omega (arith, count-append p xs ys)

  -- A map under which no member comes to pass the test.
  pub count-map_le :
      (p : A → Bool) (f : A → A) (xs : List A)
      → ((x : A) → p (f x) ≡ true → p x ≡ true)
      → count p (map f xs) ≤ count p xs
  count-map_le p f [] h = omega arith
  count-map_le p f (x ∷ xs) h = ground (arith, count-map_le p f xs h, h x)

  -- Members that pass one test pass another one.
  pub count_mono :
      (p q : A → Bool) (xs : List A)
      → All (λ x. p x ≡ true → q x ≡ true) xs
      → count p xs ≤ count q xs
  count_mono p q [] h = omega arith
  count_mono p q (x ∷ xs) (a, h) = ground (arith, count_mono p q xs h)

  pub count_split :
      (p q : A → Bool) (xs : List A)
      → count p xs ≡ count (λ x. p x && q x) xs + count (λ x. p x && not (q x)) xs
  count_split p q [] = refl
  count_split p q (x ∷ xs) = ground (arith, count_split p q xs)

  pub count-filter :
      (p q : A → Bool) (xs : List A) → count p (filter q xs) ≡ count (λ x. p x && q x) xs
  count-filter p q [] = refl
  count-filter p q (x ∷ xs) = ground (arith, count-filter p q xs)

  pub count-take_le : (p : A → Bool) (n : ℕ) (xs : List A) → count p (take n xs) ≤ count p xs
  count-take_le p zero xs = omega arith
  count-take_le p (suc n) [] = omega arith
  count-take_le p (suc n) (x ∷ xs) = omega (arith, count-take_le p n xs)

-- ===== src/Base/Texts/Split.antt =====
-- `s.split("/")`, `s[-1]` with `s[:-1]`, and what a text without a slash makes of them.
use Prim.Native.Char.{Char, code}
use Prim.Native.String.{◌++◌}
use text.Mathlib.TextLemmas.{nil-append, cons-append}
use glacis_webhook_service.Base.{
  String, Option, none, some, Bool, true, false, List, [], ◌∷◌, ◌||◌, if◌then◌else◌, eqb, ◌≡◌,
  arith, refl, Bool-cases, Option-cases, ap, sym, subst, ◌∙◌, inl, inr,
}

unfoldable pub has_slash : String → Bool
has_slash String.[] = false
has_slash (String.◌∷◌ c s) = eqb (code c) b'/' || has_slash s

-- A character before the first part.
abbrev pub put_first : Char → List String → List String
put_first c [] = []
put_first c (x ∷ xs) = String.◌∷◌ c x ∷ xs

unfoldable pub split_slash : String → List String
split_slash String.[] = String.[] ∷ []
split_slash (String.◌∷◌ c s) =
    let rest = split_slash s in if eqb (code c) b'/' then String.[] ∷ rest else put_first c rest

-- What stands behind the first slash.
unfoldable pub after_slash : String → String
after_slash String.[] = String.[]
after_slash (String.◌∷◌ c s) = let rest = after_slash s in if eqb (code c) b'/' then s else rest

-- The text without its last character, and that character.
unfoldable pub split_last : String → Option (String × Char)
split_last String.[] = none
split_last (String.◌∷◌ c String.[]) = some (String.[], c)
split_last (String.◌∷◌ c (String.◌∷◌ d s)) = elim (split_last (String.◌∷◌ d s)) [
  | none ↦ none
  | some (front, last) ↦ some (String.◌∷◌ c front, last)
]

split_slash_none : (s : String) → has_slash s ≡ false → split_slash s ≡ s ∷ []
unfolding has_slash split_slash
split_slash_none String.[] h = refl
split_slash_none (String.◌∷◌ c s) h = ground (arith, split_slash_none s)

split_slash_here :
    (c : Char) (s : String)
    → eqb (code c) b'/' ≡ true
    → split_slash (String.◌∷◌ c s) ≡ String.[] ∷ split_slash s
unfolding split_slash
split_slash_here c s t = rw t refl

split_slash_later :
    (c : Char) (s : String)
    → eqb (code c) b'/' ≡ false
    → split_slash (String.◌∷◌ c s) ≡ put_first c (split_slash s)
unfolding split_slash
split_slash_later c s t = rw t refl

after_slash_here :
    (c : Char) (s : String) → eqb (code c) b'/' ≡ true → after_slash (String.◌∷◌ c s) ≡ s
unfolding after_slash
after_slash_here c s t = rw t refl

after_slash_later :
    (c : Char) (s : String)
    → eqb (code c) b'/' ≡ false
    → after_slash (String.◌∷◌ c s) ≡ after_slash s
unfolding after_slash
after_slash_later c s t = rw t refl

-- With one slash there are two parts, and the second stands behind it.
pub split_slash_one :
    (s : String)
    → has_slash s ≡ true
    → has_slash (after_slash s) ≡ false
    → (a : String) × (split_slash s ≡ a ∷ after_slash s ∷ [])
unfolding has_slash
split_slash_one String.[] h k = absurd (cc h)
split_slash_one (String.◌∷◌ c s) h k = elim (Bool-cases (eqb (code c) b'/')) [
  | inl t ↦
      (let none_left : has_slash s ≡ false = rw (after_slash_here c s t) at k in
        (
          String.[],
          split_slash_here c s t
              ∙ ap (λ (r : List String). String.[] ∷ r)
                  (split_slash_none s none_left ∙ ap (λ r. r ∷ []) (sym (after_slash_here c s t))),
        ))
  | inr f ↦
      (let left : has_slash (after_slash s) ≡ false = rw (after_slash_later c s f) at k in
        let more : has_slash s ≡ true = ground arith in
        let (a, q) = split_slash_one s more left in
        (
          String.◌∷◌ c a,
          split_slash_later c s f
              ∙ ap (put_first c) q
              ∙ ap (λ r. String.◌∷◌ c a ∷ r ∷ []) (sym (after_slash_later c s f)),
        ))
]

split_last_more :
    (c d : Char) (s front : String) (last : Char)
    → split_last (String.◌∷◌ d s) ≡ some (front, last)
    → split_last (String.◌∷◌ c (String.◌∷◌ d s)) ≡ some (String.◌∷◌ c front, last)
unfolding split_last
split_last_more c d s front last e = rw e refl

split_last-none :
    (c d : Char) (s : String)
    → split_last (String.◌∷◌ d s) ≡ none
    → split_last (String.◌∷◌ c (String.◌∷◌ d s)) ≡ none
unfolding split_last
split_last-none c d s e = rw e refl

or_false : (b : Bool) → (b || false) ≡ (false || b)
or_false b = ground arith

pub has_slash-split_last :
    (s front : String) (last : Char)
    → split_last s ≡ some (front, last)
    → has_slash s ≡ (has_slash front || eqb (code last) b'/')
unfolding has_slash split_last
has_slash-split_last String.[] front last h = cc
has_slash-split_last (String.◌∷◌ c String.[]) front last h =
    let front_is : String.[] ≡ front = cc in
    let last_is : c ≡ last = cc in
    subst (λ f. has_slash (String.◌∷◌ c String.[]) ≡ (has_slash f || eqb (code last) b'/')) front_is
      (subst (λ l. has_slash (String.◌∷◌ c String.[]) ≡ (false || eqb (code l) b'/')) last_is
        (or_false (eqb (code c) b'/')))
has_slash-split_last (String.◌∷◌ c (String.◌∷◌ d s)) front last h =
    elim (Option-cases (split_last (String.◌∷◌ d s))) [
      | inl e ↦ absurd (impossible (sym (split_last-none c d s e) ∙ h))
      | inr ((inner, l), e) ↦
          (let ih = has_slash-split_last (String.◌∷◌ d s) inner l e in
            let q = sym (split_last_more c d s inner l e) ∙ h in
            carried (String.◌∷◌ d s) inner l ih q)
    ]
  where
    impossible : ◌≡◌ {A = Option (String × Char)} none (some (front, last)) → ⊥
    impossible q = cc

    carried :
        (t inner : String) (l : Char)
        → has_slash t ≡ (has_slash inner || eqb (code l) b'/')
        → ◌≡◌ {A = Option (String × Char)} (some (String.◌∷◌ c inner, l)) (some (front, last))
        → has_slash (String.◌∷◌ c t) ≡ (has_slash front || eqb (code last) b'/')
    carried t inner l ih q =
        let front_is : String.◌∷◌ c inner ≡ front = cc in
        let last_is : l ≡ last = cc in
        subst (λ f. has_slash (String.◌∷◌ c t) ≡ (has_slash f || eqb (code last) b'/')) front_is
          (subst
            (λ k.
              has_slash (String.◌∷◌ c t)
              ≡ ((eqb (code c) b'/' || has_slash inner) || eqb (code k) b'/'))
            last_is (ground (arith, ih)))

pub split_last-append :
    (s : String) (c : Char) → split_last (s ++ String.◌∷◌ c String.[]) ≡ some (s, c)
unfolding split_last
split_last-append String.[] c = rw nil-append refl
split_last-append (String.◌∷◌ d String.[]) c =
    rw (cons-append, nil-append) (split_last_more d c String.[] String.[] c refl)
split_last-append (String.◌∷◌ d (String.◌∷◌ e s)) c =
    let ih : split_last (String.◌∷◌ e (s ++ String.◌∷◌ c String.[])) ≡ some (String.◌∷◌ e s, c) =
      subst (λ t. split_last t ≡ some (String.◌∷◌ e s, c)) (cons-append e s _)
        (split_last-append (String.◌∷◌ e s) c) in
    rw (cons-append, cons-append)
      (split_last_more d e (s ++ String.◌∷◌ c String.[]) (String.◌∷◌ e s) c ih)

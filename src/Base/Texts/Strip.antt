-- ===== src/Base/Texts/Strip.antt =====
-- `str.strip` removes all white space at the ends: a second call changes nothing.
use Prim.Native.Char.{Char}
use Prim.Native.String.{[], ◌∷◌}
use glacis_webhook_service.Base.{String, ◌≡◌, refl, false, inl, inr, Bool-cases}
use glacis_webhook_service.Base.Texts.{is_space, lstrip, keep, rstrip, strip}

-- The text is empty or begins with a character that is no white space.
abbrev IsLeftTrimmed : String → Type 0
IsLeftTrimmed [] = Unit
IsLeftTrimmed (c ∷ s) = is_space c ≡ false

lstrip-IsLeftTrimmed : (s : String) → IsLeftTrimmed (lstrip s)
unfolding lstrip
lstrip-IsLeftTrimmed [] = tt
lstrip-IsLeftTrimmed (c ∷ s) = elim (Bool-cases (is_space c)) [
  | inl e ↦ rw e (lstrip-IsLeftTrimmed s)
  | inr e ↦ rw e e
]

keep-IsLeftTrimmed : (c : Char) (s : String) → is_space c ≡ false → IsLeftTrimmed (keep c s)
keep-IsLeftTrimmed c [] h = rw h h
keep-IsLeftTrimmed c (d ∷ s) h = h

rstrip-IsLeftTrimmed : (s : String) → IsLeftTrimmed s → IsLeftTrimmed (rstrip s)
unfolding rstrip
rstrip-IsLeftTrimmed [] h = tt
rstrip-IsLeftTrimmed (c ∷ s) h = keep-IsLeftTrimmed c (rstrip s) h

lstrip_of_IsLeftTrimmed : (s : String) → IsLeftTrimmed s → lstrip s ≡ s
unfolding lstrip
lstrip_of_IsLeftTrimmed [] h = refl
lstrip_of_IsLeftTrimmed (c ∷ s) h = rw h

rstrip-keep : (c : Char) (s : String) → rstrip s ≡ s → rstrip (keep c s) ≡ keep c s
unfolding rstrip
rstrip-keep c [] h = elim (Bool-cases (is_space c)) [ inl e ↦ rw e | inr e ↦ rw e (rw e) ]
rstrip-keep c (d ∷ s) h = rw h

rstrip_idempotent : (s : String) → rstrip (rstrip s) ≡ rstrip s
unfolding rstrip
rstrip_idempotent [] = refl
rstrip_idempotent (c ∷ s) = rstrip-keep c (rstrip s) (rstrip_idempotent s)

pub strip_idempotent : (s : String) → strip (strip s) ≡ strip s
unfolding strip
strip_idempotent s =
    rw (lstrip_of_IsLeftTrimmed _ (rstrip-IsLeftTrimmed (lstrip s) (lstrip-IsLeftTrimmed s)))
      (rstrip_idempotent (lstrip s))

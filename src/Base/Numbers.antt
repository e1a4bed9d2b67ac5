-- ===== src/Base/Numbers.antt =====
-- Python's `int(s)` on a text: spaces around it, a sign, and decimal digits with single underscores
-- between them. `decimal` is the decimal value that Unicode gives a character beyond ASCII. The
-- four separators U+001C to U+001F count as no space here, as in a text that is all ASCII, and the
-- limit of 4300 digits is left out.
pub mod RoundTrip
use Prim.Native.Char.{Char, code}
use Prim.Native.String.{[], ◌∷◌}
use glacis_webhook_service.Base.{
  ℕ, zero, suc, ◌+◌, ◌*◌, ◌-◌, String, Option, none, some, Bool, true, false, ◌&&◌, ◌||◌,
  if◌then◌else◌, leb, ltb, eqb, not,
}
use glacis_webhook_service.Base.Texts.{is_space}

-- The number, and whether it stands behind a minus.
pub record Signed : Type 0 where
  pub minus : Bool
  pub magnitude : ℕ

unfoldable pub is_int_space : Char → Bool
is_int_space ch = let c = code ch in leb 9 c && leb c 13 || eqb c 32 || leb 128 c && is_space ch

unfoldable pub all_spaces : String → Bool
unfolding is_int_space
all_spaces [] = true
all_spaces (c ∷ s) = is_int_space c && all_spaces s

module _ (decimal : Char → Option ℕ) where
  unfoldable pub digit_value : Char → Option ℕ
  digit_value ch =
      let c = code ch in
      if leb b'0' c && leb c b'9' then some (c - b'0') else if ltb c 128 then none else decimal ch

  -- The digits from here, after `value`; `seen` says that a digit is just before.
  unfoldable pub digits : Bool → ℕ → String → Option ℕ
  unfolding digit_value is_int_space all_spaces
  digits seen value [] = if seen then some value else none
  digits seen value (c ∷ s) = elim (digit_value c) [
    | some d ↦ digits true (value * 10 + d) s
    | none ↦
        let rest = digits false value s in
        if not seen
        then none
        else if eqb (code c) b'_'
        then rest
        else if is_int_space c && all_spaces s
        then some value
        else none
  ]

  signed : Bool → Option ℕ → Option Signed
  signed minus none = none
  signed minus (some n) = some (record { minus = minus; magnitude = n })

  unfoldable pub int : String → Option Signed
  unfolding digits signed
  int [] = none
  int (c ∷ s) =
      let rest = int s in
      if is_int_space c
      then rest
      else if eqb (code c) b'-'
      then signed true (digits false 0 s)
      else if eqb (code c) b'+'
      then signed false (digits false 0 s)
      else signed false (digits false 0 (c ∷ s))

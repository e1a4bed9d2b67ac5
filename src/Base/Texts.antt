-- ===== src/Base/Texts.antt =====
-- Python's `str` as the native text: its characters, their number, slices and `strip`.
pub mod Strip
pub mod Split
use Prim.Native.Char.{Char, code}
use Prim.Native.String.{[], ◌∷◌, ◌++◌}
use text.Mathlib.TextLemmas.{nil-append, cons-append}
use glacis_webhook_service.Base.{
  ℕ, zero, suc, ◌+◌, ◌≤◌, String, ◌≡◌, Bool, true, false, ◌||◌, ◌&&◌, arith, leb, eqb,
  if◌then◌else◌, ◌/◌, ◌%◌, ltb,
}

-- `len(s)` counts code points.
abbrev pub len : String → ℕ
len [] = 0
len (c ∷ s) = suc (len s)

-- `s[:n]`
abbrev pub prefix : ℕ → String → String
prefix zero s = []
prefix (suc n) [] = []
prefix (suc n) (c ∷ s) = c ∷ prefix n s

-- The white space that `str.strip()` removes.
abbrev pub is_space : Char → Bool
is_space ch =
    let c = code ch in
    leb 9 c && leb c 13
    || leb 28 c && leb c 32
    || eqb c 0x85
    || eqb c 0xa0
    || eqb c 0x1680
    || leb 0x2000 c && leb c 0x200a
    || eqb c 0x2028
    || eqb c 0x2029
    || eqb c 0x202f
    || eqb c 0x205f
    || eqb c 0x3000

pub lstrip : String → String
lstrip [] = []
lstrip (c ∷ s) = if is_space c then lstrip s else c ∷ s

-- A character before a text whose end is stripped already.
abbrev pub keep : Char → String → String
keep c [] = if is_space c then [] else c ∷ []
keep c (d ∷ s) = c ∷ d ∷ s

pub rstrip : String → String
rstrip [] = []
rstrip (c ∷ s) = keep c (rstrip s)

unfoldable pub strip : String → String
unfolding lstrip rstrip
strip s = rstrip (lstrip s)

abbrev pub is_empty : String → Bool
is_empty [] = true
is_empty (c ∷ s) = false

pub len-prefix : (n : ℕ) (s : String) → len (prefix n s) ≤ n
len-prefix zero s = omega arith
len-prefix (suc n) [] = omega arith
len-prefix (suc n) (c ∷ s) = omega (arith, len-prefix n s)

pub len-append : (s t : String) → len (s ++ t) ≡ len s + len t
len-append [] t = rw nil-append (omega arith)
len-append (c ∷ s) t = rw cons-append (omega (arith, len-append s t))

-- `s[n:]`
abbrev pub suffix : ℕ → String → String
suffix zero s = s
suffix (suc n) [] = []
suffix (suc n) (c ∷ s) = suffix n s

-- The decimal digits of a number; the number itself is fuel enough.
unfoldable pub digits_from : ℕ → ℕ → String
digits_from zero n = prefix 1 (suffix n "0123456789")
digits_from (suc fuel) n =
    let front = digits_from fuel (n / 10) in
    let last = prefix 1 (suffix (n % 10) "0123456789") in if ltb n 10 then last else front ++ last

-- `str(n)`
unfoldable pub show : ℕ → String
unfolding digits_from
show n = digits_from n n

-- `a + b`, where lists are appended too.
abbrev pub join : String → String → String
join a b = a ++ b

-- `s < t`, by code points.
unfoldable pub comes_before : String → String → Bool
comes_before s [] = false
comes_before [] (d ∷ t) = true
comes_before (c ∷ s) (d ∷ t) = ltb (code c) (code d) || eqb (code c) (code d) && comes_before s t

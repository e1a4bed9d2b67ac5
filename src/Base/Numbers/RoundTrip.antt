-- ===== src/Base/Numbers/RoundTrip.antt =====
-- `int(str(n))`, and what no number is read from.
use Prim.Native.Char.{Char, code}
use Prim.Native.String.{[], ◌∷◌, ◌++◌, String}
use text.Mathlib.TextLemmas.{nil-append, cons-append, append_assoc, append-nil}
use glacis_webhook_service.Base.{
  ℕ, ◌≡◌, Option, Bool, true, eqb, false, none, some, arith, Option-cases, refl, inr, inl, ◌*◌,
  if◌then◌else◌, ◌+◌, not, ◌&&◌, sym, ◌∙◌, Bool-cases, ◌<◌, ◌≤◌, suc, ltb, zero, ap, ◌%◌, ◌/◌,
}
use glacis_webhook_service.Base.Texts.{is_empty, prefix, suffix, show, digits_from}
use glacis_webhook_service.Base.Texts.Split.{has_slash}
use glacis_webhook_service.Base.Numbers.{
  Signed, is_int_space, all_spaces, digit_value, digits, signed, int,
}

spaces_have_none : (s : String) → all_spaces s ≡ true → has_slash s ≡ false
unfolding has_slash all_spaces is_int_space
spaces_have_none [] h = refl
spaces_have_none (c ∷ s) h = ground (arith, spaces_have_none s)

module _ (decimal : Char → Option ℕ) where
  slash_is_no_digit : (c : Char) → eqb (code c) b'/' ≡ true → digit_value decimal c ≡ none
  unfolding digit_value
  slash_is_no_digit c h = ground arith

  digits_step :
      (seen : Bool) (value : ℕ) (c : Char) (s : String) (d : ℕ)
      → digit_value decimal c ≡ some d
      → digits decimal seen value (c ∷ s) ≡ digits decimal true (value * 10 + d) s
  unfolding digits
  digits_step seen value c s d e = rw (e, digits) refl

  digits_stop :
      (seen : Bool) (value : ℕ) (c : Char) (s : String)
      → digit_value decimal c ≡ none
      → digits decimal seen value (c ∷ s) ≡ (
          if not seen
          then none
          else if eqb (code c) b'_'
          then digits decimal false value s
          else if is_int_space c && all_spaces s
          then some value
          else none)
  unfolding digits
  digits_stop seen value c s e = rw (e, digits) refl

  stopped :
      (c : Char) (s : String) (n : ℕ) (seen : Bool) (value : ℕ)
      → (if not seen
          then none
          else if eqb (code c) b'_'
          then digits decimal false value s
          else if is_int_space c && all_spaces s
          then some value
          else none)
        ≡ some n
      → (digits decimal false value s ≡ some n → has_slash s ≡ false)
      → has_slash (c ∷ s) ≡ false
  unfolding has_slash is_int_space
  stopped c s n seen value k ih = ground (arith, spaces_have_none s, ih)

  digits_have_none :
      (seen : Bool) (value : ℕ) (s : String) (n : ℕ)
      → digits decimal seen value s ≡ some n
      → has_slash s ≡ false
  unfolding has_slash
  digits_have_none seen value [] n h = refl
  digits_have_none seen value (c ∷ s) n h = elim (Option-cases (digit_value decimal c)) [
    | inr (d, e) ↦
        let ih =
          digits_have_none true (value * 10 + d) s n (sym (digits_step seen value c s d e) ∙ h) in
        elim (Bool-cases (eqb (code c) b'/')) [
          | inl t ↦ absurd (both d (sym (slash_is_no_digit c t) ∙ e))
          | inr f ↦ rw (f, ih)
        ]
    | inl e ↦
        stopped c s n seen value (sym (digits_stop seen value c s e) ∙ h)
          (digits_have_none false value s n)
  ]
    where
      both : (d : ℕ) → ◌≡◌ {A = Option ℕ} none (some d) → ⊥
      both d q = cc

  signed-eq-some :
      (minus : Bool) (o : Option ℕ) (z : Signed)
      → signed decimal minus o ≡ some z
      → (n : ℕ) × (o ≡ some n)
  unfolding signed
  signed-eq-some minus none z h = cc
  signed-eq-some minus (some n) z h = (n, refl)

  -- No number is read from a text with a slash.
  pub int_has_none : (s : String) (z : Signed) → int decimal s ≡ some z → has_slash s ≡ false
  unfolding int has_slash
  int_has_none [] z h = refl
  int_has_none (c ∷ s) z h = elim (Bool-cases (is_int_space c)) [
    | inl t ↦ spaced t (int_has_none s z (rw (t, int) at h))
    | inr n ↦ elim (Bool-cases (eqb (code c) b'-')) [
      | inl m ↦
          (let (k, q) = signed-eq-some true (digits decimal false 0 s) z (rw (n, m, int) at h) in
            let ih = digits_have_none false 0 s k q in ground arith)
      | inr f ↦ elim (Bool-cases (eqb (code c) b'+')) [
        | inl p ↦
            (let (k, q) =
                signed-eq-some false (digits decimal false 0 s) z (rw (n, f, p, int) at h) in
              let ih = digits_have_none false 0 s k q in ground arith)
        | inr g ↦
            (let (k, q) =
                signed-eq-some false (digits decimal false 0 (c ∷ s)) z (rw (n, f, g, int) at h) in
              digits_have_none false 0 (c ∷ s) k q)
      ]
    ]
  ]
    where
      spaced : is_int_space c ≡ true → has_slash s ≡ false → has_slash (c ∷ s) ≡ false
      spaced t ih = ground arith

  -- The digit of a number below ten.
  pub last_digit :
      (d : ℕ)
      → d < 10
      → (c : Char) × (prefix 1 (suffix d "0123456789") ≡ c ∷ []) × (code c ≡ 48 + d)
  last_digit zero h = ("0", refl, refl)
  last_digit (suc zero) h = ("1", refl, refl)
  last_digit (suc (suc zero)) h = ("2", refl, refl)
  last_digit (suc (suc (suc zero))) h = ("3", refl, refl)
  last_digit (suc (suc (suc (suc zero)))) h = ("4", refl, refl)
  last_digit (suc (suc (suc (suc (suc zero))))) h = ("5", refl, refl)
  last_digit (suc (suc (suc (suc (suc (suc zero)))))) h = ("6", refl, refl)
  last_digit (suc (suc (suc (suc (suc (suc (suc zero))))))) h = ("7", refl, refl)
  last_digit (suc (suc (suc (suc (suc (suc (suc (suc zero)))))))) h = ("8", refl, refl)
  last_digit (suc (suc (suc (suc (suc (suc (suc (suc (suc zero))))))))) h = ("9", refl, refl)
  last_digit (suc (suc (suc (suc (suc (suc (suc (suc (suc (suc d)))))))))) h = absurd (omega arith)

  digit_value_lem : (c : Char) (d : ℕ) → d < 10 → code c ≡ 48 + d → digit_value decimal c ≡ some d
  unfolding digit_value
  digit_value_lem c d h e = ground arith

  digits-last :
      (d value : ℕ) (seen : Bool) (rest : String)
      → d < 10
      → digits decimal seen value (prefix 1 (suffix d "0123456789") ++ rest)
        ≡ digits decimal true (value * 10 + d) rest
  digits-last d value seen rest h =
      let (c, p, e) = last_digit d h in
      rw (p, cons-append, nil-append) (digits_step seen value c rest d (digit_value_lem c d h e))

  digits-small :
      (n : ℕ) (seen : Bool) (rest : String)
      → n < 10
      → digits decimal seen 0 (prefix 1 (suffix n "0123456789") ++ rest)
        ≡ digits decimal true n rest
  digits-small n seen rest h =
      let same : 0 * 10 + n ≡ n = omega arith in
      digits-last n 0 seen rest h ∙ ap (λ k. digits decimal true k rest) same

  -- Reading goes over the digits of `n` and has `n` then.
  digits-digits_from :
      (f n : ℕ) (seen : Bool) (rest : String)
      → n ≤ f
      → digits decimal seen 0 (digits_from f n ++ rest) ≡ digits decimal true n rest
  unfolding digits_from
  digits-digits_from zero n seen rest h = digits-small n seen rest (omega arith)
  digits-digits_from (suc f) n seen rest h = elim (Bool-cases (ltb n 10)) [
    | inl small ↦
        (let same : n % 10 ≡ n = ground arith in
          rw (small, same) (digits-small n seen rest (ground arith)))
    | inr big ↦
        (let last = prefix 1 (suffix (n % 10) "0123456789") in
          let same : n / 10 * 10 + n % 10 ≡ n = omega arith in
          rw (big, append_assoc)
            (digits-digits_from f (n / 10) seen (last ++ rest) (ground arith)
              ∙ digits-last (n % 10) (n / 10) true rest (omega arith)
              ∙ ap (λ k. digits decimal true k rest) same))
  ]

  -- The text begins with a digit.
  abbrev Starts : String → Type 0
  Starts s = (c : Char) × (r : String) × (s ≡ c ∷ r) × (b'0' ≤ code c) × (code c ≤ b'9')

  last-Starts : (d : ℕ) → d < 10 → Starts (prefix 1 (suffix d "0123456789"))
  last-Starts d h = let (c, p, e) = last_digit d h in (c, [], p, omega arith, omega arith)

  digits_from-Starts : (f n : ℕ) → n ≤ f → Starts (digits_from f n)
  unfolding digits_from
  digits_from-Starts zero n h = last-Starts n (omega arith)
  digits_from-Starts (suc f) n h = elim (Bool-cases (ltb n 10)) [
    | inl small ↦
        (let same : n % 10 ≡ n = ground arith in rw (small, same) (last-Starts n (ground arith)))
    | inr big ↦
        (let (c, r, e, lo, hi) = digits_from-Starts f (n / 10) (ground arith) in
          rw (big, e) (c, r ++ prefix 1 (suffix (n % 10) "0123456789"), cons-append c r _, lo, hi))
  ]

  int-digits :
      (s : String) → Starts s → int decimal s ≡ signed decimal false (digits decimal false 0 s)
  unfolding int is_int_space
  int-digits s (c, r, e, lo, hi) = rw e (ground arith)

  -- What `str` prints of a number, `int` reads back.
  pub int-show : (n : ℕ) → int decimal (show n) ≡ some (record { minus = false; magnitude = n })
  unfolding show signed digits
  int-show n =
      int-digits (digits_from n n) (digits_from-Starts n n (omega arith))
      ∙ ap (signed decimal false) (
          ap (digits decimal false 0) (sym (append-nil (digits_from n n)))
          ∙ digits-digits_from n n false [] (omega arith))

  pub is_empty-show : (n : ℕ) → is_empty (show n) ≡ false
  unfolding show
  is_empty-show n = let (c, r, e, lo, hi) = digits_from-Starts n n (omega arith) in rw e refl

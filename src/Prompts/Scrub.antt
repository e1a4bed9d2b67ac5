-- ===== src/Prompts/Scrub.antt =====
-- What the scrub of webhooks/prompts.py takes out of a text, and what it leaves in.
use glacis_webhook_service.Base.{
  ◌≡◌, refl, String, Bool, true, false, eqb, arith, ◌∙◌, sym, ap, Bool-cases, inl, inr,
  if◌then◌else◌,
}
use Prim.Native.Char.{code, Char}
use Prim.Native.String.{◌++◌, [], ◌∷◌}
use text.Mathlib.TextLemmas.{nil-append, cons-append}
use glacis_webhook_service.Prompts.{
  scrub_delimiters, remove, remove_from, begins_with, payload_delim_open, payload_delim_close,
  extraction_delim_open, extraction_delim_close,
}

-- `s ++ t`, which computes where `s` is known.
abbrev pub before : String → String → String
before [] t = t
before (c ∷ s) t = c ∷ before s t

pub append_before : (s t : String) → s ++ t ≡ before s t
append_before [] t = nil-append t
append_before (c ∷ s) t = rw (cons-append c s t, append_before s t) refl

pub data Delimiter : Type 0 where
  payload_open payload_close extraction_open extraction_close : Delimiter

abbrev pub literal : Delimiter → String
literal payload_open = payload_delim_open
literal payload_close = payload_delim_close
literal extraction_open = extraction_delim_open
literal extraction_close = extraction_delim_close

abbrev pub same_delimiter : Delimiter → Delimiter → Bool
same_delimiter payload_open payload_open = true
same_delimiter payload_close payload_close = true
same_delimiter extraction_open extraction_open = true
same_delimiter extraction_close extraction_close = true
same_delimiter _ _ = false

same_delimiter_lem : (d e : Delimiter) → same_delimiter d e ≡ true → d ≡ e
same_delimiter_lem payload_open e h = ground arith
same_delimiter_lem payload_close e h = ground arith
same_delimiter_lem extraction_open e h = ground arith
same_delimiter_lem extraction_close e h = ground arith

-- A text without the character `<`.
abbrev pub IsPlain : String → Type 0
IsPlain [] = Unit
IsPlain (c ∷ s) = (eqb b'<' (code c) ≡ false) × IsPlain s

-- A text in parts: texts and delimiters.
pub data Parts : Type 0 where
  empty : Parts
  plain : String → Parts → Parts
  mark : Delimiter → Parts → Parts

-- The texts among the parts have no `<`.
abbrev pub ArePlain : Parts → Type 0
ArePlain empty = Unit
ArePlain (plain t ps) = IsPlain t × ArePlain ps
ArePlain (mark d ps) = ArePlain ps

-- The parts one after the other.
abbrev pub text_of : Parts → String
text_of empty = ""
text_of (plain t ps) = t ++ text_of ps
text_of (mark d ps) = literal d ++ text_of ps

-- The texts alone, one after the other.
abbrev pub plain_text : Parts → String
plain_text empty = ""
plain_text (plain t ps) = t ++ plain_text ps
plain_text (mark d ps) = plain_text ps

abbrev without : Delimiter → Parts → Parts
without d empty = empty
without d (plain t ps) = plain t (without d ps)
without d (mark e ps) = if same_delimiter d e then without d ps else mark e (without d ps)

pub begins_plain :
    (d : Delimiter) (c : Char) (s : String)
    → eqb b'<' (code c) ≡ false
    → begins_with (literal d) (c ∷ s) ≡ false
unfolding begins_with
begins_plain payload_open c s h = rw h refl
begins_plain payload_close c s h = rw h refl
begins_plain extraction_open c s h = rw h refl
begins_plain extraction_close c s h = rw h refl

pub remove_plain :
    (d : Delimiter) (t s : String)
    → IsPlain t
    → remove (literal d) (before t s) ≡ before t (remove (literal d) s)
unfolding remove remove_from
remove_plain d [] s h = refl
remove_plain d (c ∷ t) s (n, h) =
    rw (begins_plain d c (before t s) n, remove_from) (ap (λ x. c ∷ x) (remove_plain d t s h))

remove_same :
    (d : Delimiter) (s : String) → remove (literal d) (before (literal d) s) ≡ remove (literal d) s
unfolding remove remove_from begins_with
remove_same payload_open s = refl
remove_same payload_close s = refl
remove_same extraction_open s = refl
remove_same extraction_close s = refl

remove_other :
    (d e : Delimiter) (s : String)
    → same_delimiter d e ≡ false
    → remove (literal d) (before (literal e) s) ≡ before (literal e) (remove (literal d) s)
unfolding remove remove_from begins_with
remove_other payload_open payload_open s h = cc
remove_other payload_open payload_close s h = refl
remove_other payload_open extraction_open s h = refl
remove_other payload_open extraction_close s h = refl
remove_other payload_close payload_open s h = refl
remove_other payload_close payload_close s h = cc
remove_other payload_close extraction_open s h = refl
remove_other payload_close extraction_close s h = refl
remove_other extraction_open payload_open s h = refl
remove_other extraction_open payload_close s h = refl
remove_other extraction_open extraction_open s h = cc
remove_other extraction_open extraction_close s h = refl
remove_other extraction_close payload_open s h = refl
remove_other extraction_close payload_close s h = refl
remove_other extraction_close extraction_open s h = refl
remove_other extraction_close extraction_close s h = cc

-- A removal takes out one delimiter wherever it stands, and nothing else.
remove-text_of :
    (d : Delimiter) (ps : Parts)
    → ArePlain ps
    → remove (literal d) (text_of ps) ≡ text_of (without d ps)
remove-text_of d empty h = unfold remove remove_from in refl
remove-text_of d (plain t ps) (p, h) =
    rw (append_before t (text_of ps), append_before t (text_of (without d ps)))
      (remove_plain d t (text_of ps) p ∙ ap (before t) (remove-text_of d ps h))
remove-text_of d (mark e ps) h = elim (Bool-cases (same_delimiter d e)) [
  | inl t ↦
      rw (t, append_before (literal e) (text_of ps), sym (same_delimiter_lem d e t))
        (remove_same d (text_of ps) ∙ remove-text_of d ps h)
  | inr n ↦
      rw
        (
          n,
          append_before (literal e) (text_of ps),
          append_before (literal e) (text_of (without d ps)),
        )
        (remove_other d e (text_of ps) n ∙ ap (before (literal e)) (remove-text_of d ps h))
]

without-ArePlain : (d : Delimiter) (ps : Parts) → ArePlain ps → ArePlain (without d ps)
without-ArePlain d empty h = tt
without-ArePlain d (plain t ps) (p, h) = (p, without-ArePlain d ps h)
without-ArePlain d (mark e ps) h = elim (Bool-cases (same_delimiter d e)) [
  | inl t ↦ rw t (without-ArePlain d ps h)
  | inr n ↦ rw n (without-ArePlain d ps h)
]

abbrev unmarked : Parts → Parts
unmarked ps =
    without extraction_close
      (without extraction_open (without payload_close (without payload_open ps)))

unmarked_lem : (ps : Parts) → text_of (unmarked ps) ≡ plain_text ps
unmarked_lem empty = refl
unmarked_lem (plain t ps) = ap (λ s. t ++ s) (unmarked_lem ps)
unmarked_lem (mark payload_open ps) = unmarked_lem ps
unmarked_lem (mark payload_close ps) = unmarked_lem ps
unmarked_lem (mark extraction_open ps) = unmarked_lem ps
unmarked_lem (mark extraction_close ps) = unmarked_lem ps

-- Of a text that is made of delimiters and of parts without the character `<`, in any number and
-- order, the scrub keeps exactly the parts: every delimiter is taken out, and nothing else.
pub scrub_delimiters-text_of :
    (ps : Parts) → ArePlain ps → scrub_delimiters (text_of ps) ≡ plain_text ps
unfolding scrub_delimiters
scrub_delimiters-text_of ps h =
    let a = without payload_open ps in
    let ha = without-ArePlain payload_open ps h in
    let b = without payload_close a in
    let hb = without-ArePlain payload_close a ha in
    let c = without extraction_open b in
    let hc = without-ArePlain extraction_open b hb in
    rw
      (
        remove-text_of payload_open ps h,
        remove-text_of payload_close a ha,
        remove-text_of extraction_open b hb,
        remove-text_of extraction_close c hc,
      )
      (unmarked_lem ps)

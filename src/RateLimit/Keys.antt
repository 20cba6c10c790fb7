-- ===== src/RateLimit/Keys.antt =====
-- backend/src/rate_limit.rs: keys of different attempts do not meet.
use Prim.Native.String as Text
use Prim.Native.Char.{Char, code}
use Prim.Native.String.append
use text.Mathlib.TextLemmas.{append_cancel_left}
use entitle_hub.Base.{
  ℕ, ◌≡◌, refl, sym, Bool, true, false, not, ◌&&◌, String, ◌==◌, Bool-cases, inl, inr, ap, ◌∙◌,
  arith,
}
use entitle_hub.Base.Text.{trim, is_empty}
use entitle_hub.RateLimit.{key_char, key_chars, key_part, login_key, is_key_char, ◌⊕◌}

-- Whether a text holds no colon.
colon_free : String → Bool
colon_free Text.[] = true
colon_free (Text.◌∷◌ c s) = not (code c == 58) && colon_free s

key_char-kept : (c : Char) → (code (key_char c) == 58) ≡ false
key_char-kept c = elim (Bool-cases (is_key_char (code c))) [
  | inl kept ↦ rw kept (ground arith)
  | inr replaced ↦ rw replaced refl
]

key_chars-free : (s : String) → colon_free (key_chars s) ≡ true
unfolding key_chars colon_free
key_chars-free Text.[] = refl
key_chars-free (Text.◌∷◌ c s) = ground (arith, key_char-kept c, key_chars-free s)

key_part-free : (s : String) → colon_free (key_part s) ≡ true
unfolding key_part colon_free
key_part-free s = elim (Bool-cases (is_empty (trim s))) [
  | inl blank ↦ rw blank refl
  | inr filled ↦ rw filled (key_chars-free (trim s))
]

head_code : String → ℕ
head_code Text.[] = 0
head_code (Text.◌∷◌ c s) = code c

-- A text that starts with a colon is none that starts with another character.
not_colon :
    (b x y : String) (d : Char)
    → not (code d == 58) ≡ true
    → ¬ (Text.◌++◌ "" (":" ⊕ x) ≡ Text.◌∷◌ d b ⊕ ":" ⊕ y)
unfolding head_code
not_colon b x y d other same =
    let first : 58 ≡ code d =
      ap head_code
        (sym (append.nil (":" ⊕ x) ∙ append.cons ":" "" x) ∙ same ∙ append.cons d b (":" ⊕ y)) in
    ground arith

-- What stands before the first colon of a text, and after it.
split_at_colon :
    (a b x y : String)
    → colon_free a ≡ true
    → colon_free b ≡ true
    → a ⊕ ":" ⊕ x ≡ b ⊕ ":" ⊕ y
    → (a ≡ b) × (x ≡ y)
unfolding colon_free
split_at_colon Text.[] Text.[] x y fa fb same =
    (refl, append_cancel_left ":" x y (sym (append.nil (":" ⊕ x)) ∙ same ∙ append.nil (":" ⊕ y)))
split_at_colon Text.[] (Text.◌∷◌ d b) x y fa fb same =
    absurd (not_colon b x y d (ground arith) same)
split_at_colon (Text.◌∷◌ c a) Text.[] x y fa fb same =
    absurd (not_colon a y x c (ground arith) (sym same))
split_at_colon (Text.◌∷◌ c a) (Text.◌∷◌ d b) x y fa fb same =
    ground (arith, append.cons c a (":" ⊕ x), append.cons d b (":" ⊕ y), split_at_colon a b x y)

-- Two sign-in attempts that are counted under the same key have the same address and the same
-- client, each as a key spells it: no part of a key can pose as the separator.
pub login_key-parts :
    (lower : String → String) (email₁ ip₁ email₂ ip₂ : String)
    → login_key lower email₁ ip₁ ≡ login_key lower email₂ ip₂
    → (key_part (lower (trim email₁)) ≡ key_part (lower (trim email₂)))
      × (key_part ip₁ ≡ key_part ip₂)
unfolding login_key
login_key-parts lower email₁ ip₁ email₂ ip₂ same =
    split_at_colon (key_part (lower (trim email₁))) (key_part (lower (trim email₂))) (key_part ip₁)
      (key_part ip₂) (key_part-free (lower (trim email₁))) (key_part-free (lower (trim email₂)))
      (append_cancel_left "rate:login:" _ _ same)

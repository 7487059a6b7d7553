-- ===== src/Transcripts/Cues.antt =====
-- `escape_cue_text` of backend/apps/transcripts/rendering.py.
use e_platform.Prelude.{
  ℕ, ◌≡◌, ◌≢◌, ◌↔◌, ◌||◌, subst, refl, sym, ap, ◌∙◌, false, [], ◌∷◌, ◌++◌, ◌==◌, if◌then◌else◌,
  arith,
}
use e_platform.Prelude.Rows.{exists_by}
use e_platform.Prelude.Text.{Text, codes}

-- `text.replace(character, replacement)` of one character.
abbrev pub replace : ℕ → Text → Text → Text
replace c by [] = []
replace c by (x ∷ s) = let rest = replace c by s in if x == c then by ++ rest else x ∷ rest

-- `_ESCAPES`, one after the other: the ampersand first.
unfoldable pub escape_cue_text : Text → Text
escape_cue_text s =
    replace 62 (codes "&gt;") (replace 60 (codes "&lt;") (replace 38 (codes "&amp;") s))

-- What each character is to become.
abbrev pub entity : ℕ → Text
entity x =
    if x == 38
    then codes "&amp;"
    else if x == 60
    then codes "&lt;"
    else if x == 62
    then codes "&gt;"
    else x ∷ []

abbrev pub escaped : Text → Text
escaped [] = []
escaped (x ∷ s) = entity x ++ escaped s

pub escape_cue_text-escaped : (s : Text) → escape_cue_text s ≡ escaped s
unfolding escape_cue_text
escape_cue_text-escaped [] = refl
escape_cue_text-escaped (x ∷ s) = ground (arith, escape_cue_text-escaped s)

safe_entity :
    (x : ℕ) (s : Text)
    → exists_by (λ c. c == 60 || c == 62) s ≡ false
    → exists_by (λ c. c == 60 || c == 62) (entity x ++ s) ≡ false
safe_entity x s h = ground arith

escaped_safe : (s : Text) → exists_by (λ c. c == 60 || c == 62) (escaped s) ≡ false
escaped_safe [] = refl
escaped_safe (x ∷ s) = safe_entity x (escaped s) (escaped_safe s)

-- The first entity of a text tells its character.
entity-injective : (x y : ℕ) (a b : Text) → entity x ++ a ≡ entity y ++ b → (x ≡ y) × (a ≡ b)
entity-injective x y a b h = ground arith

entity_nonempty : (x : ℕ) (a : Text) → entity x ++ a ≢ []
entity_nonempty x a h = ground arith

escaped_injective : (s t : Text) → escaped s ≡ escaped t → s ≡ t
escaped_injective [] [] h = refl
escaped_injective [] (y ∷ t) h = absurd (entity_nonempty y (escaped t) (sym h))
escaped_injective (x ∷ s) [] h = absurd (entity_nonempty x (escaped s) h)
escaped_injective (x ∷ s) (y ∷ t) h =
    let (same, rest) = entity-injective x y (escaped s) (escaped t) h in
    ground (arith, escaped_injective s t rest)

-- A cue's text, escaped, has neither `<` nor `>`, so neither markup nor the cue separator, and two
-- texts that are escaped alike are the same.
pub escape_cue_text_safe :
    (s t : Text)
    → (exists_by (λ c. c == 60 || c == 62) (escape_cue_text s) ≡ false)
      × ((escape_cue_text s ≡ escape_cue_text t) ↔ (s ≡ t))
escape_cue_text_safe s t = (
  subst (λ e. exists_by (λ c. c == 60 || c == 62) e ≡ false) (sym (escape_cue_text-escaped s))
      (escaped_safe s),
  (
    λ h. escaped_injective s t (sym (escape_cue_text-escaped s) ∙ h ∙ escape_cue_text-escaped t),
    λ e. ap escape_cue_text e,
  ),
)

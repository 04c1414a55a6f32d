-- ===== src/Base/Text/Trims.antt =====
-- `String.prototype.trim` leaves nothing to trim.
use Prim.Native.Char.{Char, code}
use Prim.Native.String.{String}
use mc_servant.Base.{◌≡◌, refl, ap, ◌∙◌, false, inl, inr, Bool-cases}
use mc_servant.Base.Text.{is_space, cons_unless_blank, trim_start, trim_end, trim}

-- A text that does not begin with white space.
abbrev Begun : String → Type 0
Begun String.[] = Unit
Begun (String.◌∷◌ c s) = is_space (code c) ≡ false

trim_start-Begun : (s : String) → Begun (trim_start s)
unfolding trim_start
trim_start-Begun String.[] = tt
trim_start-Begun (String.◌∷◌ c s) = elim (Bool-cases (is_space (code c))) [
  | inl h ↦ rw h (trim_start-Begun s)
  | inr h ↦ rw h h
]

Begun-trim_start : (s : String) → Begun s → trim_start s ≡ s
unfolding trim_start
Begun-trim_start String.[] h = refl
Begun-trim_start (String.◌∷◌ c s) h = rw h

cons_unless_blank-Begun :
    (c : Char) (s : String) → is_space (code c) ≡ false → Begun (cons_unless_blank c s)
unfolding cons_unless_blank
cons_unless_blank-Begun c String.[] h = rw h h
cons_unless_blank-Begun c (String.◌∷◌ d s) h = h

-- A character put before a text is put before the text trimmed at its end.
trim_end-cons_unless_blank :
    (c : Char) (s : String)
    → trim_end s ≡ s
    → trim_end (cons_unless_blank c s) ≡ cons_unless_blank c s
unfolding trim_end cons_unless_blank
trim_end-cons_unless_blank c String.[] h = elim (Bool-cases (is_space (code c))) [
  | inl b ↦ rw b
  | inr b ↦ rw (b, b)
]
trim_end-cons_unless_blank c (String.◌∷◌ d s) h = rw h

trim_end-Begun : (s : String) → Begun s → Begun (trim_end s)
unfolding trim_end
trim_end-Begun String.[] h = tt
trim_end-Begun (String.◌∷◌ c s) h = cons_unless_blank-Begun c (trim_end s) h

trim_end_idem : (s : String) → trim_end (trim_end s) ≡ trim_end s
unfolding trim_end
trim_end_idem String.[] = refl
trim_end_idem (String.◌∷◌ c s) = trim_end-cons_unless_blank c (trim_end s) (trim_end_idem s)

pub trim_idem : (s : String) → trim (trim s) ≡ trim s
unfolding trim
trim_idem s =
    ap trim_end (
      Begun-trim_start (trim_end (trim_start s))
        (trim_end-Begun (trim_start s) (trim_start-Begun s)))
    ∙ trim_end_idem (trim_start s)

-- ===== src/Go/Strings/Trim.antt =====
-- Laws of trimming and of lower case.
use Prim.Native.Char.{Char}
use Prim.Native.String.compare
use text.Mathlib.Text.{is_eq}
use open_agentic_threat_defe.Go.Runtime.{Platform}
use open_agentic_threat_defe.Go.Strings.{lower, push_right, trim_left, trim_right, trim_space}
use open_agentic_threat_defe.Prelude.{
  Bool, String, ap, arith, false, not, refl, sym, true, ◌==◌, ◌∙◌, ◌≡◌,
}

pub cons-ne-empty : (c : Char) (s : String) → (String.◌∷◌ c s == "") ≡ false
cons-ne-empty c s = λ i. is_eq (compare.cons-nil c s i)

module _ ⦃p : Platform⦄ where
  -- The text begins with no space.
  abbrev no_lead : String → Bool
  no_lead String.[] = true
  no_lead (String.◌∷◌ c s) = not (p.is_space c)

  no_lead-trim_left : (s : String) → no_lead (trim_left s) ≡ true
  unfolding trim_left
  no_lead-trim_left String.[] = refl
  no_lead-trim_left (String.◌∷◌ c s) = ground (arith, no_lead-trim_left s)

  no_lead-push_right :
      (b : Bool) (c : Char) (s : String)
      → p.is_space c ≡ b
      → b ≡ false
      → no_lead (push_right b c s) ≡ true
  unfolding push_right
  no_lead-push_right true c s e h = cc
  no_lead-push_right false c String.[] e h = rw e
  no_lead-push_right false c (String.◌∷◌ d s) e h = rw e

  no_lead-trim_right : (s : String) → no_lead s ≡ true → no_lead (trim_right s) ≡ true
  unfolding trim_right
  no_lead-trim_right String.[] h = refl
  no_lead-trim_right (String.◌∷◌ c s) h =
      no_lead-push_right (p.is_space c) c (trim_right s) refl (ground arith)

  trim_left_id : (s : String) → no_lead s ≡ true → trim_left s ≡ s
  unfolding trim_left
  trim_left_id String.[] h = refl
  trim_left_id (String.◌∷◌ c s) h = ground arith

  trim_right-push_right :
      (b : Bool) (c : Char) (s : String)
      → p.is_space c ≡ b
      → trim_right s ≡ s
      → trim_right (push_right b c s) ≡ push_right b c s
  unfolding trim_right
  trim_right-push_right true c String.[] e h = refl
  trim_right-push_right false c String.[] e h = rw e
  trim_right-push_right b c (String.◌∷◌ d s) e h = ap (push_right (p.is_space c) c) h

  trim_right-trim_right : (s : String) → trim_right (trim_right s) ≡ trim_right s
  unfolding trim_right
  trim_right-trim_right String.[] = refl
  trim_right-trim_right (String.◌∷◌ c s) =
      trim_right-push_right (p.is_space c) c (trim_right s) refl (trim_right-trim_right s)

  push_right_visible : (c : Char) (s : String) → (push_right false c s == "") ≡ false
  unfolding push_right
  push_right_visible c String.[] = cons-ne-empty c ""
  push_right_visible c (String.◌∷◌ d s) = cons-ne-empty c (String.◌∷◌ d s)

  pub trim_space_visible :
      (c : Char) (s : String) → p.is_space c ≡ false → (trim_space (String.◌∷◌ c s) == "") ≡ false
  unfolding trim_space trim_left trim_right
  trim_space_visible c s h = rw (h, h) (push_right_visible c (trim_right s))

  pub trim-trim : (s : String) → trim_space (trim_space s) ≡ trim_space s
  unfolding trim_space
  trim-trim s =
      ap trim_right (trim_left_id _ (no_lead-trim_right _ (no_lead-trim_left s)))
      ∙ trim_right-trim_right (trim_left s)

  pub lower_empty : (s : String) → (lower s == "") ≡ (s == "")
  unfolding lower
  lower_empty String.[] = refl
  lower_empty (String.◌∷◌ c s) = cons-ne-empty _ (lower s) ∙ sym (cons-ne-empty c s)

-- What the Unicode tables promise: lower case is stable, and turns no character into a space or
-- out of one.
pub record CaseLaws (p : Platform) : Type 0 where
  pub lower_stable : (c : Char) → p.lower_char (p.lower_char c) ≡ p.lower_char c
  pub space_stable : (c : Char) → p.is_space (p.lower_char c) ≡ p.is_space c

module _ ⦃p : Platform⦄ (laws : CaseLaws p) where
  lower-lower : (s : String) → lower (lower s) ≡ lower s
  unfolding lower
  lower-lower String.[] = refl
  lower-lower (String.◌∷◌ c s) = cc (laws.lower_stable c, lower-lower s)

  trim_left-lower : (s : String) → trim_left (lower s) ≡ lower (trim_left s)
  unfolding trim_left lower
  trim_left-lower String.[] = refl
  trim_left-lower (String.◌∷◌ c s) = ground (arith, laws.space_stable c, trim_left-lower s)

  lower-push_right :
      (b : Bool) (c : Char) (s : String)
      → lower (push_right b c s) ≡ push_right b (p.lower_char c) (lower s)
  unfolding lower push_right
  lower-push_right true c String.[] = refl
  lower-push_right false c String.[] = refl
  lower-push_right b c (String.◌∷◌ d s) = refl

  trim_right-lower : (s : String) → trim_right (lower s) ≡ lower (trim_right s)
  unfolding trim_right lower
  trim_right-lower String.[] = refl
  trim_right-lower (String.◌∷◌ c s) =
      rw (laws.space_stable c)
        (ap (push_right (p.is_space c) (p.lower_char c)) (trim_right-lower s))
      ∙ sym (lower-push_right (p.is_space c) c (trim_right s))

  -- Lower case and trimming change nothing the second time.
  pub lower-trim_idem :
      (s : String) → lower (trim_space (lower (trim_space s))) ≡ lower (trim_space s)
  unfolding trim_space
  lower-trim_idem s =
      ap lower (
        ap trim_right (trim_left-lower (trim_space s))
        ∙ trim_right-lower (trim_left (trim_space s)))
      ∙ lower-lower (trim_space (trim_space s))
      ∙ ap lower (trim-trim s)

-- ===== src/Go/Strings/Splits.antt =====
-- Splitting a text at a separator that its first part does not contain.
use Prim.Native.Char.{Char, code}
use Prim.Native.String.{◌++◌ as cat}
use Prim.Native.String.append
use open_agentic_threat_defe.Go.Runtime.{Platform}
use open_agentic_threat_defe.Go.Strings.{
  cut_at, push_first, push_right, split_on, trim_left, trim_right, trim_space,
}
use open_agentic_threat_defe.Go.Strings.Trim.{cons-ne-empty}
use open_agentic_threat_defe.Prelude.{
  Bool, String, [], arith, false, nat_eq, not, refl, some, true, ◌&&◌, ◌==◌, ◌∷◌, ◌≡◌,
}

-- The character does not occur in the text.
unfoldable pub avoids : Char → String → Bool
avoids d String.[] = true
avoids d (String.◌∷◌ c s) = not (nat_eq (code c) (code d)) && avoids d s

pub cat_visible : (s : String) (d : Char) (t : String) → (cat s (String.◌∷◌ d t) == "") ≡ false
cat_visible String.[] d t = rw (append.nil (String.◌∷◌ d t)) (cons-ne-empty d t)
cat_visible (String.◌∷◌ c s) d t =
    rw (append.cons c s (String.◌∷◌ d t)) (cons-ne-empty c (cat s (String.◌∷◌ d t)))

module _ ⦃p : Platform⦄ where
  -- No character of the text is a space.
  unfoldable pub is_solid : String → Bool
  is_solid String.[] = true
  is_solid (String.◌∷◌ c s) = not (p.is_space c) && is_solid s

pub split_on-avoids : (d : Char) (s : String) → avoids d s ≡ true → split_on d s ≡ s ∷ []
unfolding split_on avoids push_first
split_on-avoids d String.[] h = refl
split_on-avoids d (String.◌∷◌ c s) h = ground (arith, split_on-avoids d s)

pub split_on-cat :
    (d : Char) (s t : String)
    → avoids d s ≡ true
    → split_on d (cat s (String.◌∷◌ d t)) ≡ s ∷ split_on d t
unfolding split_on avoids push_first
split_on-cat d String.[] t h = rw (append.nil (String.◌∷◌ d t)) (ground arith)
split_on-cat d (String.◌∷◌ c s) t h =
    rw (append.cons c s (String.◌∷◌ d t)) (ground (arith, split_on-cat d s t))

pub cut_at-cat :
    (d : Char) (s t : String) → avoids d s ≡ true → cut_at d (cat s (String.◌∷◌ d t)) ≡ some (s, t)
unfolding cut_at avoids
cut_at-cat d String.[] t h = rw (append.nil (String.◌∷◌ d t)) (ground arith)
cut_at-cat d (String.◌∷◌ c s) t h =
    rw (append.cons c s (String.◌∷◌ d t)) (ground (arith, cut_at-cat d s t))

module _ ⦃p : Platform⦄ where
  pub is_solid-cat :
      (s t : String) → is_solid s ≡ true → is_solid t ≡ true → is_solid (cat s t) ≡ true
  unfolding is_solid
  is_solid-cat String.[] t h k = rw (append.nil t) k
  is_solid-cat (String.◌∷◌ c s) t h k = rw (append.cons c s t) (ground (arith, is_solid-cat s t))

  trim_left-solid : (s : String) → is_solid s ≡ true → trim_left s ≡ s
  unfolding is_solid trim_left
  trim_left-solid String.[] h = refl
  trim_left-solid (String.◌∷◌ c s) h = ground arith

  push_right-false : (c : Char) (s : String) → push_right false c s ≡ String.◌∷◌ c s
  unfolding push_right
  push_right-false c String.[] = refl
  push_right-false c (String.◌∷◌ d s) = refl

  trim_right-solid : (s : String) → is_solid s ≡ true → trim_right s ≡ s
  unfolding is_solid trim_right
  trim_right-solid String.[] h = refl
  trim_right-solid (String.◌∷◌ c s) h = ground (arith, trim_right-solid s, push_right-false c s)

  -- Trimming leaves a text without spaces as it is.
  pub trim_space-solid : (s : String) → is_solid s ≡ true → trim_space s ≡ s
  unfolding trim_space
  trim_space-solid s h = rw (trim_left-solid s h) (trim_right-solid s h)

  -- What base64.RawURLEncoding promises of a text: decoding gives it back, and the encoded text has
  -- no full stop and no space.
  pub record IsCoded (s : String) : Type 0 where
    pub decodes : p.base64_raw_url (p.to_base64_raw_url s) ≡ some s
    pub no_stop : avoids "." (p.to_base64_raw_url s) ≡ true
    pub no_space : is_solid (p.to_base64_raw_url s) ≡ true

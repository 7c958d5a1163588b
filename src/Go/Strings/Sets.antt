-- ===== src/Go/Strings/Sets.antt =====
-- Lists of texts that stand for sets.
use open_agentic_threat_defe.Go.Strings.{elem}
use open_agentic_threat_defe.Prelude.{
  Bool-cases, List, String, [], any-append, ap, arith, eq_iff, false, inl, inr, refl, true, ◌++◌,
  ◌==◌, ◌||◌, ◌∷◌, ◌≡◌, ◌⊎◌,
}

abbrev pub Distinct : List String → Type 0
Distinct [] = Unit
Distinct (x ∷ xs) = (elem x xs ≡ false) × Distinct xs

pub elem_push : (x y : String) (ys : List String) → elem x (ys ++ y ∷ []) ≡ (elem x ys || (y == x))
elem_push x y ys = ground (arith, any-append (λ z. z == x) ys (y ∷ []))

pub Distinct-push :
    (x : String) (ys : List String) → Distinct ys → elem x ys ≡ false → Distinct (ys ++ x ∷ [])
Distinct-push x [] d h = (refl, tt)
Distinct-push x (y ∷ ys) d h = (
  ground (arith, elem_push y x ys, eq_iff x y, eq_iff y x, d.0),
  Distinct-push x ys d.1 (ground arith),
)

-- Two texts differ, or the first may stand for the second.
pub same_text :
    (r role : String) (done : List String)
    → ((r == role) ≡ false)
      ⊎ (((r == role) ≡ true) × (elem r done ≡ elem role done) × ((r == "") ≡ (role == "")))
same_text r role done = elim (Bool-cases (r == role)) [
  | inl e ↦
      let s : r ≡ role = (eq_iff r role).0 e in
      inr (e, ap (λ x. elem x done) s, ap (λ x. x == "") s)
  | inr e ↦ inl e
]

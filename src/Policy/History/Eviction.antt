-- ===== src/Policy/History/Eviction.antt =====
-- Which entries an eviction drops.
use native.Mathlib.Nat.{le_trans}
use open_agentic_threat_defe.Go.Maps.{Dict, delete, keys}
use open_agentic_threat_defe.Go.Strings.{elem}
use open_agentic_threat_defe.Policy.Engine.{HistoryState}
use open_agentic_threat_defe.Policy.History.{by_last_seen, delete_all, evict_oldest}
use open_agentic_threat_defe.Policy.History.Bounds.{delete_all-All}
use open_agentic_threat_defe.Prelude.{
  All, All-and, All-insert_sorted, Bool-cases, List, String, [], arith, eq_iff, eq_refl, false, inl,
  inr, insert_sorted, ltb→le, ltb→lt, refl, sort, suc, take, true, zero, ℕ, ◌==◌, ◌∷◌, ◌≡◌, ◌≤◌,
  ◌⊎◌,
}

abbrev Entry : Type 0
Entry = String × HistoryState

-- `x` was seen no earlier than each entry of the list.
abbrev pub SeenAfter : List Entry → Entry → Type 0
SeenAfter ys x = All (λ (y : Entry). y.1.last_seen ≤ x.1.last_seen) ys

abbrev SeenBefore : Entry → List Entry → Type 0
SeenBefore y xs = All (λ (x : Entry). y.1.last_seen ≤ x.1.last_seen) xs

abbrev Ordered : List Entry → Type 0
Ordered [] = Unit
Ordered (y ∷ ys) = SeenBefore y ys × Ordered ys

SeenBefore-trans :
    (x y : Entry) (ys : List Entry)
    → x.1.last_seen ≤ y.1.last_seen
    → SeenBefore y ys
    → SeenBefore x ys
SeenBefore-trans x y [] h a = tt
SeenBefore-trans x y (z ∷ ys) h a = (le_trans h a.0, SeenBefore-trans x y ys h a.1)

Ordered-insert_sorted :
    (x : Entry) (ys : List Entry) → Ordered ys → Ordered (insert_sorted by_last_seen x ys)
Ordered-insert_sorted x [] o = (tt, tt)
Ordered-insert_sorted x (y ∷ ys) o = elim (Bool-cases (by_last_seen y x)) [
  | inl h ↦ rw h (
    All-insert_sorted (λ (z : Entry). y.1.last_seen ≤ z.1.last_seen) by_last_seen x ys
        (ground (arith, ltb→lt y.1.last_seen x.1.last_seen h)) o.0,
    Ordered-insert_sorted x ys o.1,
  )
  | inr h ↦
      let le : x.1.last_seen ≤ y.1.last_seen = ltb→le y.1.last_seen x.1.last_seen h in
      rw h ((le, SeenBefore-trans x y ys le o.0), o)
]

Ordered-sort : (xs : List Entry) → Ordered (sort by_last_seen xs)
Ordered-sort [] = tt
Ordered-sort (x ∷ xs) = Ordered-insert_sorted x (sort by_last_seen xs) (Ordered-sort xs)

-- An entry of a sorted list is among the first `n`, or was seen no earlier than all of them.
abbrev Splits : List Entry → Entry → Type 0
Splits ys x = (elem x.0 (keys ys) ≡ true) ⊎ SeenAfter ys x

Splits-cons :
    (y x : Entry) (ys : List Entry)
    → y.1.last_seen ≤ x.1.last_seen
    → Splits ys x
    → Splits (y ∷ ys) x
Splits-cons y x ys h (inl e) = inl (ground arith)
Splits-cons y x ys h (inr a) = inr (h, a)

Splits-rest :
    (y : Entry) (ys xs : List Entry)
    → SeenBefore y xs
    → All (Splits ys) xs
    → All (Splits (y ∷ ys)) xs
Splits-rest y ys [] b a = tt
Splits-rest y ys (x ∷ xs) b a = (Splits-cons y x ys b.0 a.0, Splits-rest y ys xs b.1 a.1)

Splits-take : (n : ℕ) (xs : List Entry) → Ordered xs → All (Splits (take n xs)) xs
Splits-take zero [] o = tt
Splits-take zero (x ∷ xs) o = (inr tt, Splits-take zero xs o.1)
Splits-take (suc n) [] o = tt
Splits-take (suc n) (x ∷ xs) o =
    (inl (rw eq_refl), Splits-rest x (take n xs) xs o.0 (Splits-take n xs o.1))

All-of_insert_sorted {κ} :
    (P : Entry → Type κ) (x : Entry) (ys : List Entry)
    → All P (insert_sorted by_last_seen x ys)
    → P x × All P ys
All-of_insert_sorted P x [] a = (a.0, tt)
All-of_insert_sorted P x (y ∷ ys) a = elim (Bool-cases (by_last_seen y x)) [
  | inl h ↦
      let b : All P (y ∷ insert_sorted by_last_seen x ys) = rw h at a in
      let (c, d) = All-of_insert_sorted P x ys b.1 in (c, (b.0, d))
  | inr h ↦ let b : All P (x ∷ y ∷ ys) = rw h at a in b
]

All-of_sort {κ} : (P : Entry → Type κ) (xs : List Entry) → All P (sort by_last_seen xs) → All P xs
All-of_sort P [] a = tt
All-of_sort P (x ∷ xs) a =
    let (b, c) = All-of_insert_sorted P x (sort by_last_seen xs) a in (b, All-of_sort P xs c)

delete-absent :
    (k : String) (m : Dict HistoryState) → All (λ (x : Entry). (k == x.0) ≡ false) (delete k m)
unfolding delete
delete-absent k [] = tt
delete-absent k ((j, w) ∷ m) = elim (Bool-cases (j == k)) [
  | inl h ↦ rw h (delete-absent k m)
  | inr h ↦ rw h (ground (arith, eq_iff j k, eq_iff k j), delete-absent k m)
]

nothing_elem : (m : List Entry) → All (λ (x : Entry). elem x.0 [] ≡ false) m
nothing_elem [] = tt
nothing_elem (x ∷ m) = (refl, nothing_elem m)

delete_all-absent :
    (ks : List String) (m : Dict HistoryState)
    → All (λ (x : Entry). elem x.0 ks ≡ false) (delete_all ks m)
unfolding delete_all
delete_all-absent [] m = nothing_elem m
delete_all-absent (k ∷ ks) m =
    All-and (λ (x : Entry). (k == x.0) ≡ false) (λ (x : Entry). elem x.0 ks ≡ false)
      (λ (x : Entry). elem x.0 (k ∷ ks) ≡ false) _ (λ x h g. ground arith)
      (delete_all-All (λ (x : Entry). (k == x.0) ≡ false) ks (delete k m) (delete-absent k m))
      (delete_all-absent ks (delete k m))

-- Every entry that an eviction leaves was seen no earlier than every entry that it drops.
pub evict_oldest-keeps_newest :
    (n : ℕ) (m : Dict HistoryState)
    → All (SeenAfter (take n (sort by_last_seen m))) (evict_oldest n m)
unfolding evict_oldest
evict_oldest-keeps_newest n m =
    let dropped = take n (sort by_last_seen m) in
    All-and (λ (x : Entry). elem x.0 (keys dropped) ≡ false) (Splits dropped) (SeenAfter dropped) _
      (λ x h s. elim s [ inl e ↦ absurd (cc) | inr a ↦ a ]) (delete_all-absent (keys dropped) m)
      (delete_all-All (Splits dropped) (keys dropped) m
        (All-of_sort (Splits dropped) m (Splits-take n (sort by_last_seen m) (Ordered-sort m))))

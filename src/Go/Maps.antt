-- ===== src/Go/Maps.antt =====
-- A Go map with text keys, as an association list with no key twice. The order of the entries
-- stands for the order in which `range` visits them, which Go leaves open.
use mathlib.Core.Option.{some-injective}
use open_agentic_threat_defe.Prelude.{
  All, All-map, Bool, Bool-cases, List, Option, String, [], arith, eq_iff, eq_refl, filter,
  if◌then◌else◌, inl, inr, is_some, length, map, none, refl, some, subst, suc, true, ◌==◌, ◌∷◌, ◌≡◌,
  ◌≤◌,
}

abbrev pub Dict {ℓ} : Type ℓ → Type ℓ
Dict V = List (String × V)

module _ {ℓ} {V : Type ℓ} where
  unfoldable pub lookup : String → Dict V → Option V
  lookup k [] = none
  lookup k ((j, v) ∷ m) = if j == k then some v else lookup k m

  -- m[k] = v
  unfoldable pub put : String → V → Dict V → Dict V
  put k v [] = (k, v) ∷ []
  put k v ((j, w) ∷ m) = if j == k then (k, v) ∷ m else (j, w) ∷ put k v m

  -- delete(m, k)
  unfoldable pub delete : String → Dict V → Dict V
  delete k [] = []
  delete k ((j, w) ∷ m) = let rest = delete k m in if j == k then rest else (j, w) ∷ rest

  -- if c { m[k] = v }
  unfoldable pub put_if : Bool → String → V → Dict V → Dict V
  put_if c k v m = if c then put k v m else m

  abbrev pub has_key : String → Dict V → Bool
  has_key k m = is_some (lookup k m)

  abbrev pub keys : Dict V → List String
  keys = map (λ e. e.0)

  pub lookup-put :
      (k j : String) (v : V) (m : Dict V)
      → lookup j (put k v m) ≡ (if k == j then some v else lookup j m)
  unfolding lookup put
  lookup-put k j v [] = refl
  lookup-put k j v ((i, w) ∷ m) =
      ground (arith, eq_iff k j, eq_iff i k, eq_iff i j, lookup-put k j v m)

  pub lookup-put_if :
      (c : Bool) (k j : String) (v : V) (m : Dict V)
      → lookup j (put_if c k v m)
        ≡ (if k == j then (if c then some v else lookup j m) else lookup j m)
  unfolding put_if
  lookup-put_if c k j v m = ground (arith, lookup-put k j v m)

  pub lookup-delete :
      (k j : String) (m : Dict V) → lookup j (delete k m) ≡ (if k == j then none else lookup j m)
  unfolding lookup delete
  lookup-delete k j [] = ground arith
  lookup-delete k j ((i, w) ∷ m) =
      ground (arith, eq_iff k j, eq_iff i k, eq_iff i j, lookup-delete k j m)

  -- An entry that is there is replaced, any other is one more.
  pub length-put :
      (k : String) (v : V) (m : Dict V)
      → length (put k v m) ≡ (if has_key k m then length m else suc (length m))
  unfolding lookup put
  length-put k v [] = refl
  length-put k v ((i, w) ∷ m) = ground (arith, length-put k v m)

  pub length-delete : (k : String) (m : Dict V) → length (delete k m) ≤ length m
  unfolding delete
  length-delete k [] = omega arith
  length-delete k ((i, w) ∷ m) = ground (arith, length-delete k m)

  pub has_key-cons :
      (k j : String) (w : V) (m : Dict V)
      → has_key k ((j, w) ∷ m) ≡ (if j == k then true else has_key k m)
  unfolding lookup
  has_key-cons k j w m = ground arith

  -- Every entry's key is in the map.
  pub keys_present : (m : Dict V) → All (λ (x : String × V). has_key x.0 m ≡ true) m
  unfolding lookup
  keys_present [] = tt
  keys_present ((j, w) ∷ m) = (
    rw eq_refl,
    All-map (λ (x : String × V). has_key x.0 m ≡ true)
        (λ (x : String × V). has_key x.0 ((j, w) ∷ m) ≡ true) m (λ x h. ground arith)
        (keys_present m),
  )

  -- Deleting a key that is there makes the map smaller.
  pub delete-lt :
      (k : String) (m : Dict V) → has_key k m ≡ true → suc (length (delete k m)) ≤ length m
  unfolding lookup delete
  delete-lt k [] h = cc
  delete-lt k ((j, w) ∷ m) h = ground (arith, delete-lt k m, length-delete k m)

  pub All-put {κ} :
      (P : String × V → Type κ) (k : String) (v : V) (m : Dict V)
      → P (k, v)
      → All P m
      → All P (put k v m)
  unfolding put
  All-put P k v [] h a = (h, tt)
  All-put P k v ((j, w) ∷ m) h a = elim (Bool-cases (j == k)) [
    | inl e ↦ rw e (h, a.1)
    | inr e ↦ rw e (a.0, All-put P k v m h a.1)
  ]

  pub All-delete {κ} :
      (P : String × V → Type κ) (k : String) (m : Dict V) → All P m → All P (delete k m)
  unfolding delete
  All-delete P k [] a = tt
  All-delete P k ((j, w) ∷ m) a = elim (Bool-cases (j == k)) [
    | inl e ↦ rw e (All-delete P k m a.1)
    | inr e ↦ rw e (a.0, All-delete P k m a.1)
  ]

  -- What is found satisfies what all entries do.
  pub All-lookup {κ} :
      (P : V → Type κ) (k : String) (m : Dict V) (v : V)
      → All (λ (x : String × V). P x.1) m
      → lookup k m ≡ some v
      → P v
  unfolding lookup
  All-lookup P k [] v a h = absurd (cc)
  All-lookup P k ((j, w) ∷ m) v a h = elim (Bool-cases (j == k)) [
    | inl e ↦ subst P (some-injective w v (ground arith)) a.0
    | inr e ↦ All-lookup P k m v a.1 (ground arith)
  ]

-- A filter that passes the entry leaves it in the map.
pub lookup-filter {ℓ} :
    {V : Type ℓ} (q : String × V → Bool) (k : String) (v : V) (m : Dict V)
    → lookup k m ≡ some v
    → q (k, v) ≡ true
    → lookup k (filter q m) ≡ some v
unfolding lookup
lookup-filter q k v [] h t = absurd (cc)
lookup-filter q k v ((j, w) ∷ m) h t = elim (Bool-cases (j == k)) [
  | inl e ↦
      let h' : some w ≡ some v = rw e at h in
      let value : w ≡ v = cc in
      let key : j ≡ k = (eq_iff j k).0 e in
      let kept : q (j, w) ≡ true = rw (key, value) t in rw kept (rw e h')
  | inr e ↦ elim (Bool-cases (q (j, w))) [
    | inl g ↦ rw g (rw e (lookup-filter q k v m (rw e at h) t))
    | inr g ↦ rw g (lookup-filter q k v m (rw e at h) t)
  ]
]

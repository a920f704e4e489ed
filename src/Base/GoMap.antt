-- ===== src/Base/GoMap.antt =====
-- A Go map as the list of its entries, in the order of insertion. What Go leaves open, the order in
-- which `range` walks a map, is a parameter of the code that ranges over one.
use mathlib.Core.Path.{◌≡◌, refl, ap}
use mathlib.Core.Logic.{◌≢◌, ◌↔◌, ◌⊎◌, inl, inr}
use mathlib.Core.List.Permᴰ
use mathlib.Core.Option.{Option, none, some}
use mathlib.Core.List.{List, [], ◌∷◌, Memᴰ, Permᴰ}
use native.Mathlib.Omega.{arith}
use blockchain_clustering.Base.Tests.{Eq, ◌==◌, ==_iff, ==_refl, if◌then◌else◌, Bool-cases}
use blockchain_clustering.Base.Lists.{Memᴰ-cons, Memᴰ-nil, Memᴰ-perm}

abbrev pub GoMap {ℓ κ} : Type ℓ → Type κ → Type (ℓ ⊔ κ)
GoMap K V = List (K × V)

module _ {ℓ κ} {K : Type ℓ} {V : Type κ} ⦃e : Eq K⦄ where
  -- v, ok := m[k]
  unfoldable pub lookup : K → GoMap K V → Option V
  lookup k [] = none
  lookup k ((j, v) ∷ m) = if j == k then some v else lookup k m

  -- m[k] = v
  unfoldable pub insert : K → V → GoMap K V → GoMap K V
  insert k v [] = (k, v) ∷ []
  insert k v ((j, w) ∷ m) = if j == k then (j, v) ∷ m else (j, w) ∷ insert k v m

  -- m[k], which is the zero value `d` where k is missing
  unfoldable pub get_or : K → V → GoMap K V → V
  unfolding lookup
  get_or k d m = elim (lookup k m) [ none ↦ d | some v ↦ v ]

  pub lookup-insert :
      (k j : K) (new : V) (table : GoMap K V)
      → lookup j (insert k new table) ≡ (if k == j then some new else lookup j table)
  unfolding lookup insert
  lookup-insert k j new [] = refl
  lookup-insert k j new ((i, old) ∷ rest) =
      ground (arith, ==_iff k j, ==_iff i k, ==_iff i j, lookup-insert k j new rest)

  pub lookup-insert_self : (k : K) (v : V) (m : GoMap K V) → lookup k (insert k v m) ≡ some v
  lookup-insert_self k v m = ground (arith, lookup-insert k k v m, ==_refl k)

  pub lookup-insert_ne :
      (k j : K) (v : V) (m : GoMap K V) → k ≢ j → lookup j (insert k v m) ≡ lookup j m
  lookup-insert_ne k j v m h = ground (arith, lookup-insert k j v m, ==_iff k j)

  -- An entry that is looked up stands in the list.
  pub mem-of_lookup : (k : K) (v : V) (m : GoMap K V) → lookup k m ≡ some v → Memᴰ (k, v) m
  unfolding lookup
  mem-of_lookup k v [] h = absurd (cc)
  mem-of_lookup k v ((j, w) ∷ m) h =
      ground (arith, ==_iff j k, Memᴰ-cons (k, v) (j, w) m, mem-of_lookup k v m)

  pub get_or-insert :
      (d : V) (k j : K) (v : V) (m : GoMap K V)
      → get_or j d (insert k v m) ≡ (if k == j then v else get_or j d m)
  unfolding get_or
  get_or-insert d k j v m = elim (Bool-cases (k == j)) [
    | inl same ↦ rw (lookup-insert k j v m, same, get_or) refl
    | inr other ↦ rw (lookup-insert k j v m, other, get_or) refl
  ]

  abbrev pub keys : GoMap K V → List K
  keys [] = []
  keys ((k, v) ∷ m) = k ∷ keys m

  -- No key stands twice, as in every map that `insert` builds.
  abbrev pub Distinct : GoMap K V → Type ℓ
  Distinct [] = Unit
  Distinct ((k, v) ∷ m) = (¬ Memᴰ k (keys m)) × Distinct m

  pub mem-keys-insert :
      (k j : K) (v : V) (m : GoMap K V) → Memᴰ j (keys (insert k v m)) ↔ ((j ≡ k) ⊎ Memᴰ j (keys m))
  unfolding insert
  mem-keys-insert k j v [] = ground (arith, Memᴰ-cons j k [])
  mem-keys-insert k j v ((i, w) ∷ m) = elim (Bool-cases (i == k)) [
    | inl same ↦
        let i_is_k : i ≡ k = (==_iff i k).0 same in rw same (ground (arith, Memᴰ-cons j i (keys m)))
    | inr other ↦ rw other (
        ground (
          arith,
          Memᴰ-cons j i (keys m),
          Memᴰ-cons j i (keys (insert k v m)),
          mem-keys-insert k j v m,
        ))
  ]

  pub mem-keys_iff : (k : K) (m : GoMap K V) → Memᴰ k (keys m) ↔ (lookup k m ≢ none)
  unfolding lookup
  mem-keys_iff k [] = ground (arith, Memᴰ-nil {a = k})
  mem-keys_iff k ((i, w) ∷ m) = ground (arith, ==_iff i k, Memᴰ-cons k i (keys m), mem-keys_iff k m)

  pub Distinct-insert : (k : K) (v : V) (m : GoMap K V) → Distinct m → Distinct (insert k v m)
  unfolding insert
  Distinct-insert k v [] h = (Memᴰ-nil, tt)
  Distinct-insert k v ((i, w) ∷ m) h = elim (Bool-cases (i == k)) [
    | inl same ↦ rw same h
    | inr other ↦ rw other (
      λ at_i. elim ((mem-keys-insert k i v m).0 at_i) [
        | inl e ↦ ground (arith, ==_iff i k)
        | inr old ↦ h.0 old
      ],
      Distinct-insert k v m h.1,
    )
  ]

  pub mem-keys_of_mem : (k : K) (v : V) (m : GoMap K V) → Memᴰ (k, v) m → Memᴰ k (keys m)
  mem-keys_of_mem k v [] x = absurd (Memᴰ-nil x)
  mem-keys_of_mem k v ((i, w) ∷ m) (Memᴰ.head e) = Memᴰ.head (ap (λ (p : K × V). p.0) e)
  mem-keys_of_mem k v ((i, w) ∷ m) (Memᴰ.tail x) = Memᴰ.tail (mem-keys_of_mem k v m x)

  pub lookup-of_mem :
      (k : K) (v : V) (m : GoMap K V) → Distinct m → Memᴰ (k, v) m → lookup k m ≡ some v
  unfolding lookup
  lookup-of_mem k v [] h x = absurd (Memᴰ-nil x)
  lookup-of_mem k v ((i, w) ∷ m) h (Memᴰ.head e) = ground (arith, ==_iff i k)
  lookup-of_mem k v ((i, w) ∷ m) h (Memᴰ.tail x) = elim (Bool-cases (i == k)) [
    | inl same ↦
        let i_is_k : i ≡ k = (==_iff i k).0 same in
        absurd (h.0 (rw i_is_k (mem-keys_of_mem k v m x)))
    | inr other ↦ rw other (lookup-of_mem k v m h.1 x)
  ]

  pub mem-of_keys : (k : K) (m : GoMap K V) → Memᴰ k (keys m) → (v : V) × Memᴰ (k, v) m
  mem-of_keys k [] x = absurd (Memᴰ-nil x)
  mem-of_keys k ((i, w) ∷ m) (Memᴰ.head e) = (w, Memᴰ.head (ap (λ j. (j, w)) e))
  mem-of_keys k ((i, w) ∷ m) (Memᴰ.tail x) = let (v, y) = mem-of_keys k m x in (v, Memᴰ.tail y)

  -- The keys are the same in whatever order a map is walked.
  pub mem-keys-perm : (k : K) (m n : GoMap K V) → Permᴰ m n → Memᴰ k (keys n) ↔ Memᴰ k (keys m)
  mem-keys-perm k m n p = (
    λ x. let (v, y) = mem-of_keys k n x in mem-keys_of_mem k v m (Memᴰ-perm (Permᴰ.symm p) y),
    λ x. let (v, y) = mem-of_keys k m x in mem-keys_of_mem k v n (Memᴰ-perm p y),
  )

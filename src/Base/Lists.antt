-- ===== src/Base/Lists.antt =====
-- Lists measured by native numbers, and membership with its evidence.
use Prim.Native.Nat.{ℕ, zero, suc, ◌+◌}
use mathlib.Core.Path.{◌≡◌, refl, sym, subst, ap, ◌∙◌}
use mathlib.Core.Logic.{◌⊎◌, inl, inr, ◌↔◌, ⊎_elim}
use mathlib.Core.Bool.{Bool, true, false, ◌||◌}
use mathlib.Core.Option.{Option, none, some}
use mathlib.Core.List.{List, [], ◌∷◌, ◌++◌, map, Memᴰ}
use mathlib.Core.List.Memᴰ
use mathlib.Core.List.{Permᴰ}
use native.Mathlib.Omega.{arith}
use blockchain_clustering.Base.Tests.{Eq, ◌==◌, ==_iff, if◌then◌else◌, Bool-cases}

module _ {ℓ} {A : Type ℓ} where
  abbrev pub length : List A → ℕ
  length [] = 0
  length (_ ∷ xs) = suc (length xs)

  abbrev pub take : ℕ → List A → List A
  take zero xs = []
  take (suc n) [] = []
  take (suc n) (x ∷ xs) = x ∷ take n xs

  abbrev pub drop : ℕ → List A → List A
  drop zero xs = xs
  drop (suc n) [] = []
  drop (suc n) (x ∷ xs) = drop n xs

  pub length-append : (xs ys : List A) → length (xs ++ ys) ≡ length xs + length ys
  length-append [] ys = omega arith
  length-append (x ∷ xs) ys = omega (arith, length-append xs ys)

  pub List-cases : (xs : List A) → (xs ≡ []) ⊎ ((x : A) × (rest : List A) × (xs ≡ x ∷ rest))
  List-cases [] = inl refl
  List-cases (x ∷ xs) = inr (x, xs, refl)

  pub Memᴰ-cons : (a x : A) (xs : List A) → Memᴰ a (x ∷ xs) ↔ ((a ≡ x) ⊎ Memᴰ a xs)
  Memᴰ-cons a x xs = (Memᴰ.cases_cons, ⊎_elim Memᴰ.head Memᴰ.tail)

  pub Memᴰ-append : (a : A) (xs ys : List A) → Memᴰ a (xs ++ ys) ↔ (Memᴰ a xs ⊎ Memᴰ a ys)
  Memᴰ-append a xs ys = (Memᴰ.append_cases xs, ⊎_elim (Memᴰ.append_left ys) (Memᴰ.append_right xs))

  pub Memᴰ-concat : (a x : A) (xs : List A) → Memᴰ a (xs ++ x ∷ []) ↔ (Memᴰ a xs ⊎ (a ≡ x))
  Memᴰ-concat a x xs = (
    λ m. ⊎_elim inl (λ last. inr (Memᴰ.eq_of_singleton last)) (Memᴰ.append_cases xs m),
    ⊎_elim (Memᴰ.append_left _) (λ e. Memᴰ.append_right xs (Memᴰ.head e)),
  )

  pub Memᴰ-nil : {a : A} → ¬ Memᴰ a []
  Memᴰ-nil = Memᴰ.not-nil

module _ {ℓ} {A : Type ℓ} where
  -- The rows that meet a test, in their order; the first of them; and whether there is one.
  abbrev pub select : (A → Bool) → List A → List A
  select p [] = []
  select p (x ∷ xs) = if p x then x ∷ select p xs else select p xs

  abbrev pub find_first : (A → Bool) → List A → Option A
  find_first p [] = none
  find_first p (x ∷ xs) = if p x then some x else find_first p xs

  abbrev pub any : (A → Bool) → List A → Bool
  any p [] = false
  any p (x ∷ xs) = p x || any p xs

  -- UPDATE … SET f WHERE p
  abbrev pub update_where : (A → Bool) → (A → A) → List A → List A
  update_where p f [] = []
  update_where p f (x ∷ xs) = (if p x then f x else x) ∷ update_where p f xs

  pub mem-select :
      (p : A → Bool) (a : A) (xs : List A) → Memᴰ a (select p xs) ↔ (Memᴰ a xs × (p a ≡ true))
  mem-select p a [] = (λ m. absurd (Memᴰ.not-nil m), λ m. absurd (Memᴰ.not-nil m.0))
  mem-select p a (x ∷ xs) = elim (Bool-cases (p x)) [
    | inl holds ↦ rw holds (
      λ m. elim (Memᴰ.cases_cons m) [
        | inl e ↦ (Memᴰ.head e, ap p e ∙ holds)
        | inr t ↦ let (n, q) = (mem-select p a xs).0 t in (Memᴰ.tail n, q)
      ],
      λ (m, q). elim (Memᴰ.cases_cons m) [
        | inl e ↦ Memᴰ.head e
        | inr t ↦ Memᴰ.tail ((mem-select p a xs).1 (t, q))
      ],
    )
    | inr fails ↦ rw fails (
      λ t. let (n, q) = (mem-select p a xs).0 t in (Memᴰ.tail n, q),
      λ (m, q). elim (Memᴰ.cases_cons m) [
        | inl e ↦ absurd (cc (ap p e, q, fails))
        | inr t ↦ (mem-select p a xs).1 (t, q)
      ],
    )
  ]

  pub mem-update_where :
      (p : A → Bool) (f : A → A) (a : A) (xs : List A)
      → Memᴰ a (update_where p f xs)
      → (b : A) × Memᴰ b xs × (a ≡ (if p b then f b else b))
  mem-update_where p f a [] m = absurd (Memᴰ.not-nil m)
  mem-update_where p f a (x ∷ xs) (Memᴰ.head e) = (x, Memᴰ.head refl, e)
  mem-update_where p f a (x ∷ xs) (Memᴰ.tail m) =
      let (b, n, e) = mem-update_where p f a xs m in (b, Memᴰ.tail n, e)

  pub update_where-mem :
      (p : A → Bool) (f : A → A) (b : A) (xs : List A)
      → Memᴰ b xs
      → Memᴰ (if p b then f b else b) (update_where p f xs)
  update_where-mem p f b [] m = absurd (Memᴰ.not-nil m)
  update_where-mem p f b (x ∷ xs) (Memᴰ.head e) = Memᴰ.head (ap (λ c. if p c then f c else c) e)
  update_where-mem p f b (x ∷ xs) (Memᴰ.tail m) = Memᴰ.tail (update_where-mem p f b xs m)

module _ {ℓ} {A : Type ℓ} where
  pub any_iff :
      (p : A → Bool) (xs : List A) → (any p xs ≡ true) ↔ ((x : A) × Memᴰ x xs × (p x ≡ true))
  any_iff p [] = (λ h. absurd (cc (h)), λ (x, m, h). absurd (Memᴰ.not-nil m))
  any_iff p (x ∷ xs) = elim (Bool-cases (p x)) [
    | inl holds ↦ rw holds (λ h. (x, Memᴰ.head refl, holds), λ h. refl)
    | inr fails ↦ rw fails (
      λ h. let (y, m, q) = (any_iff p xs).0 h in (y, Memᴰ.tail m, q),
      λ (y, m, q). elim (Memᴰ.cases_cons m) [
        | inl e ↦ absurd (cc (ap p e, q, fails))
        | inr t ↦ (any_iff p xs).1 (y, t, q)
      ],
    )
  ]

  pub update_where_none :
      (p : A → Bool) (f : A → A) (xs : List A) → any p xs ≡ false → update_where p f xs ≡ xs
  update_where_none p f [] h = refl
  update_where_none p f (x ∷ xs) h = elim (Bool-cases (p x)) [
    | inl hit ↦ absurd (ground (arith))
    | inr missed ↦ rw missed (ap (λ rest. x ∷ rest) (update_where_none p f xs (ground (arith))))
  ]

  pub update_where-map :
      (p : A → Bool) (f : A → A) (xs : List A)
      → update_where p f xs ≡ map (λ x. if p x then f x else x) xs
  update_where-map p f [] = refl
  update_where-map p f (x ∷ xs) =
      ap (λ rest. (if p x then f x else x) ∷ rest) (update_where-map p f xs)

  -- A function that is the test and the change on the elements of the list.
  pub map_as_update :
      (p : A → Bool) (f g : A → A) (xs : List A)
      → ((x : A) → Memᴰ x xs → g x ≡ (if p x then f x else x))
      → map g xs ≡ update_where p f xs
  map_as_update p f g [] h = refl
  map_as_update p f g (x ∷ xs) h =
      cc (h x (Memᴰ.head refl), map_as_update p f g xs (λ y m. h y (Memᴰ.tail m)))

-- A predicate on every element computes to a tuple.
abbrev pub All {ℓ κ} : {A : Type ℓ} → (A → Type κ) → List A → Type κ
All P [] = Unit
All P (x ∷ xs) = P x × All P xs

pub All-of-mem {ℓ κ} :
    {A : Type ℓ} (P : A → Type κ) (xs : List A) → All P xs → (a : A) → Memᴰ a xs → P a
All-of-mem P [] h a m = absurd (Memᴰ.not-nil m)
All-of-mem P (x ∷ xs) h a (Memᴰ.head e) = subst P (sym e) h.0
All-of-mem P (x ∷ xs) h a (Memᴰ.tail m) = All-of-mem P xs h.1 a m

-- A permutation keeps the elements.
pub Memᴰ-perm {ℓ} : {A : Type ℓ} {a : A} {xs ys : List A} → Permᴰ xs ys → Memᴰ a xs → Memᴰ a ys
Memᴰ-perm Permᴰ.nil m = m
Memᴰ-perm (Permᴰ.cons e p) (Memᴰ.head h) = Memᴰ.head (h ∙ e)
Memᴰ-perm (Permᴰ.cons e p) (Memᴰ.tail m) = Memᴰ.tail (Memᴰ-perm p m)
Memᴰ-perm (Permᴰ.swap e f) (Memᴰ.head h) = Memᴰ.tail (Memᴰ.head (h ∙ e))
Memᴰ-perm (Permᴰ.swap e f) (Memᴰ.tail (Memᴰ.head h)) = Memᴰ.head (h ∙ f)
Memᴰ-perm (Permᴰ.swap e f) (Memᴰ.tail (Memᴰ.tail m)) = Memᴰ.tail (Memᴰ.tail m)
Memᴰ-perm (Permᴰ.trans p q) m = Memᴰ-perm q (Memᴰ-perm p m)

module _ {ℓ} {A : Type ℓ} ⦃e : Eq A⦄ where
  -- The Boolean test for membership.
  abbrev pub contains : List A → A → Bool
  contains [] a = false
  contains (x ∷ xs) a = x == a || contains xs a

  pub contains_iff : (xs : List A) (a : A) → (contains xs a ≡ true) ↔ Memᴰ a xs
  contains_iff [] a = (λ h. absurd (cc), λ m. absurd (Memᴰ.not-nil m))
  contains_iff (x ∷ xs) a = ground (arith, contains_iff xs a, ==_iff x a, Memᴰ-cons a x xs)

  pub contains-concat :
      (xs : List A) (a b : A) → contains (xs ++ a ∷ []) b ≡ (if a == b then true else contains xs b)
  contains-concat [] a b = ground arith
  contains-concat (x ∷ xs) a b = ground (arith, contains-concat xs a b)

module _ {ℓ} {A : Type ℓ} where
  pub select-select :
      (p q : A → Bool) (xs : List A)
      → ((a : A) → q a ≡ true → p a ≡ true)
      → select q (select p xs) ≡ select q xs
  select-select p q [] h = refl
  select-select p q (x ∷ xs) h = elim (Bool-cases (q x)) [
    | inl taken ↦ rw (h x taken, taken) (ap (λ rest. x ∷ rest) (select-select p q xs h))
    | inr left ↦ elim (Bool-cases (p x)) [
      | inl kept ↦ rw (kept, left) (select-select p q xs h)
      | inr dropped ↦ rw (dropped, left) (select-select p q xs h)
    ]
  ]

  pub select-concat :
      (q : A → Bool) (xs : List A) (a : A) → q a ≡ false → select q (xs ++ a ∷ []) ≡ select q xs
  select-concat q [] a h = rw h refl
  select-concat q (x ∷ xs) a h = elim (Bool-cases (q x)) [
    | inl taken ↦ rw taken (ap (λ rest. x ∷ rest) (select-concat q xs a h))
    | inr left ↦ rw left (select-concat q xs a h)
  ]

  -- What is selected is not updated.
  pub select-update_where :
      (p : A → Bool) (f : A → A) (q : A → Bool) (xs : List A)
      → ((a : A) → p a ≡ true → (q a ≡ false) × (q (f a) ≡ false))
      → select q (update_where p f xs) ≡ select q xs
  select-update_where p f q [] h = refl
  select-update_where p f q (x ∷ xs) h = elim (Bool-cases (p x)) [
    | inl hit ↦
        let (before, after) = h x hit in rw (hit, before, after) (select-update_where p f q xs h)
    | inr missed ↦ elim (Bool-cases (q x)) [
      | inl taken ↦ rw (missed, taken) (ap (λ rest. x ∷ rest) (select-update_where p f q xs h))
      | inr left ↦ rw (missed, left) (select-update_where p f q xs h)
    ]
  ]

  pub find_first-mem :
      (p : A → Bool) (xs : List A) (x : A) → find_first p xs ≡ some x → Memᴰ x xs × (p x ≡ true)
  find_first-mem p [] x e = absurd (cc e)
  find_first-mem p (y ∷ ys) x e = elim (Bool-cases (p y)) [
    | inl here ↦
        let same : y ≡ x =
          cc (subst (λ t. (if t then some y else find_first p ys) ≡ some x) here e) in
        (Memᴰ.head (sym same), subst (λ z. p z ≡ true) same here)
    | inr there ↦
        let (m, holds) =
          find_first-mem p ys x
            (subst (λ t. (if t then some y else find_first p ys) ≡ some x) there e) in
        (Memᴰ.tail m, holds)
  ]

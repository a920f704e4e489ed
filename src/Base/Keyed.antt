-- ===== src/Base/Keyed.antt =====
-- Tests for a row, and an UPDATE, over the rows of a table.
use blockchain_clustering.Base.Tests.{Bool-cases}
use blockchain_clustering.Base.{
  ◌≡◌, refl, inl, inr, Bool, true, List, [], ◌∷◌, ◌++◌, any, any_iff, Memᴰ, Memᴰ-concat,
  update_where, select, ◌&&◌,
}

module _ {ℓ} {A : Type ℓ} where
  pub any-kept :
      (p : A → Bool) (xs : List A) (y : A) → any p xs ≡ true → any p (xs ++ y ∷ []) ≡ true
  any-kept p xs y h =
      let (x, m, q) = (any_iff p xs).0 h in
      (any_iff p (xs ++ y ∷ [])).1 (x, (Memᴰ-concat x y xs).1 (inl m), q)

  pub any-added : (p : A → Bool) (xs : List A) (y : A) → p y ≡ true → any p (xs ++ y ∷ []) ≡ true
  any-added p xs y q = (any_iff p (xs ++ y ∷ [])).1 (y, (Memᴰ-concat y y xs).1 (inr refl), q)

  -- A change that leaves the test as it was.
  pub any-update_where :
      (p q : A → Bool) (f : A → A) (xs : List A)
      → ((x : A) → p (f x) ≡ p x)
      → any p (update_where q f xs) ≡ any p xs
  any-update_where p q f [] h = refl
  any-update_where p q f (x ∷ xs) h = elim (Bool-cases (q x)) [
    | inl hit ↦ rw (hit, h x, any-update_where p q f xs h) refl
    | inr missed ↦ rw (missed, any-update_where p q f xs h) refl
  ]

  pub update_where_fixed :
      (p : A → Bool) (f : A → A) (xs : List A)
      → ((x : A) → Memᴰ x xs → p x ≡ true → f x ≡ x)
      → update_where p f xs ≡ xs
  update_where_fixed p f [] h = refl
  update_where_fixed p f (x ∷ xs) h =
      let rest = update_where_fixed p f xs (λ y m. h y (Memᴰ.tail m)) in
      elim (Bool-cases (p x)) [
        | inl hit ↦ rw (hit, h x (Memᴰ.head refl) hit, rest) refl
        | inr missed ↦ rw (missed, rest) refl
      ]

  pub any-select : (p q : A → Bool) (xs : List A) → any q (select p xs) ≡ any (λ x. p x && q x) xs
  any-select p q [] = refl
  any-select p q (x ∷ xs) = elim (Bool-cases (p x)) [
    | inl hit ↦ rw (hit, any-select p q xs) refl
    | inr missed ↦ rw (missed, any-select p q xs) refl
  ]

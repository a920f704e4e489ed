-- ===== src/Stores/Labels/Categories.antt =====
-- blockchain_cluster/internal/label/maintain.go: the categories of some labels.
use mathlib.Core.List.Memᴰ
use blockchain_clustering.Base.{
  ◌≡◌, ◌≢◌, ◌↔◌, ◌⊎◌, refl, ap, ◌∙◌, sym, inl, inr, String, Bool, true, List, [], ◌∷◌, foldl, Memᴰ,
  Memᴰ-cons, Memᴰ-nil, nat_eq, string_eq, pair_eq, length, ltb, arith,
}
use blockchain_clustering.Base.GoMap
use blockchain_clustering.Base.GoMap.{
  Distinct, Distinct-insert, GoMap, get_or-insert, keys, lookup-insert, lookup-of_mem,
  mem-keys-insert, mem-of_keys, mem-of_lookup,
}
use blockchain_clustering.Domain.{Label}
use blockchain_clustering.Stores.Labels.{categories}

-- A map has two entries exactly when it has two different keys.
many_keys :
    (m : GoMap String Bool)
    → Distinct m
    → (ltb 1 (length m) ≡ true) ↔ ((c d : String) × Memᴰ c (keys m) × Memᴰ d (keys m) × (c ≢ d))
many_keys [] h = (λ e. absurd (cc e), λ (c, d, x, y, differ). absurd (Memᴰ-nil x))
many_keys ((k, v) ∷ []) h = (
  λ e. absurd (cc e),
  λ (c, d, x, y, differ). absurd (differ (Memᴰ.eq_of_singleton x ∙ sym (Memᴰ.eq_of_singleton y))),
)
many_keys ((k, v) ∷ (j, u) ∷ m) h = (
  λ _. (k, j, Memᴰ.head refl, Memᴰ.tail (Memᴰ.head refl), λ same. h.0 (Memᴰ.head same)),
  λ _. ground arith,
)

module _ {F : Type 0} where
  mem-categories :
      (ls : List (Label F)) (m : GoMap String Bool) (c : String)
      → Memᴰ c (keys (foldl (λ n (l : Label F). GoMap.insert l.category true n) m ls))
        ↔ (Memᴰ c (keys m) ⊎ ((l : Label F) × Memᴰ l ls × (l.category ≡ c)))
  mem-categories [] m c = (inl, elim [ inl x ↦ x | inr (l, x, _) ↦ absurd (Memᴰ-nil x) ])
  mem-categories (l ∷ ls) m c =
      let rest = mem-categories ls (GoMap.insert l.category true m) c in
      let one = mem-keys-insert l.category c true m in
      (
        λ x. elim (rest.0 x) [
          | inl old ↦ elim (one.0 old) [
            | inl is ↦ inr (l, Memᴰ.head refl, sym is)
            | inr before ↦ inl before
          ]
          | inr (k, at, is) ↦ inr (k, Memᴰ.tail at, is)
        ],
        elim [
          | inl x ↦ rest.1 (inl (one.1 (inr x)))
          | inr (k, at, is) ↦ elim ((Memᴰ-cons k l ls).0 at) [
            | inl here ↦ rest.1 (inl (one.1 (inl (sym is ∙ ap (λ (y : Label F). y.category) here))))
            | inr there ↦ rest.1 (inr (k, there, is))
          ]
        ],
      )

  Distinct-categories :
      (ls : List (Label F)) (m : GoMap String Bool)
      → Distinct m
      → Distinct (foldl (λ n (l : Label F). GoMap.insert l.category true n) m ls)
  Distinct-categories [] m h = h
  Distinct-categories (l ∷ ls) m h =
      Distinct-categories ls (GoMap.insert l.category true m) (Distinct-insert l.category true m h)

  category_of :
      (ls : List (Label F)) (c : String)
      → Memᴰ c (keys (categories ls))
      → (l : Label F) × Memᴰ l ls × (l.category ≡ c)
  unfolding categories
  category_of ls c x = elim ((mem-categories ls [] c).0 x) [
    | inl none_there ↦ absurd (Memᴰ-nil none_there)
    | inr found ↦ found
  ]

  -- Two labels of a list disagree.
  abbrev pub Disagree : List (Label F) → Type 0
  Disagree ls = (a b : Label F) × Memᴰ a ls × Memᴰ b ls × (a.category ≢ b.category)

  pub Disagree-iff : (ls : List (Label F)) → (ltb 1 (length (categories ls)) ≡ true) ↔ Disagree ls
  unfolding categories
  Disagree-iff ls =
      let many = many_keys (categories ls) (Distinct-categories ls [] tt) in
      (
        λ e.
            let (c, d, x, y, differ) = many.0 e in
            let (a, at_a, a_is) = category_of ls c x in
            let (b, at_b, b_is) = category_of ls d y in
            (a, b, at_a, at_b, λ same. differ (sym a_is ∙ same ∙ b_is)),
        λ (a, b, x, y, differ). many.1 (
          a.category,
          b.category,
          (mem-categories ls [] a.category).1 (inr (a, x, refl)),
          (mem-categories ls [] b.category).1 (inr (b, y, refl)),
          differ,
        ),
      )

-- ===== src/Stores/Labels/Targets.antt =====
-- blockchain_cluster/internal/label/maintain.go: the labels of a target.
use mathlib.Core.List.{append_assoc, append-nil}
use blockchain_clustering.Base.{
  ◌≡◌, ◌↔◌, refl, ap, ◌∙◌, sym, subst, inl, inr, Bool, true, List, [], ◌∷◌, ◌++◌, foldl, Memᴰ,
  Memᴰ-nil, ◌==◌, ==_iff, nat_eq, string_eq, pair_eq, if◌then◌else◌, ◌&&◌, select, mem-select,
  Bool-cases, Option-cases, arith,
}
use blockchain_clustering.Base.GoMap
use blockchain_clustering.Base.GoMap.{
  Distinct, Distinct-insert, GoMap, get_or-insert, keys, lookup-insert, lookup-of_mem,
  mem-keys-insert, mem-of_keys, mem-of_lookup,
}
use blockchain_clustering.Domain.{Label}
use blockchain_clustering.Stores.Labels.{TargetKey, add_to_target, by_target, is_live, key_of}

module _ {F : Type 0} where
  -- The live labels of a target.
  abbrev pub of_target : TargetKey → Label F → Bool
  of_target k l = is_live l && key_of l == k

  get_or-add :
      (k : TargetKey) (m : GoMap TargetKey (List (Label F))) (l : Label F)
      → GoMap.get_or k [] (add_to_target m l)
        ≡ (if of_target k l then GoMap.get_or k [] m ++ l ∷ [] else GoMap.get_or k [] m)
  unfolding add_to_target
  get_or-add k m l = elim (Bool-cases (is_live l)) [
    | inl live ↦ elim (Bool-cases (key_of l == k)) [
      | inl same ↦
          let is : key_of l ≡ k = (==_iff (key_of l) k).0 same in
          rw
            (
              live,
              add_to_target,
              get_or-insert [] (key_of l) k (GoMap.get_or (key_of l) [] m ++ l ∷ []) m,
              same,
            )
            (ap (λ j. GoMap.get_or j [] m ++ l ∷ []) is)
      | inr other ↦
          rw
            (
              live,
              add_to_target,
              get_or-insert [] (key_of l) k (GoMap.get_or (key_of l) [] m ++ l ∷ []) m,
              other,
            )
            refl
    ]
    | inr dead ↦ rw (dead, add_to_target) refl
  ]

  get_or-foldl :
      (k : TargetKey) (ls : List (Label F)) (m : GoMap TargetKey (List (Label F)))
      → GoMap.get_or k [] (foldl add_to_target m ls)
        ≡ GoMap.get_or k [] m ++ select (of_target k) ls
  get_or-foldl k [] m = sym (append-nil _)
  get_or-foldl k (l ∷ ls) m = elim (Bool-cases (of_target k l)) [
    | inl mine ↦ rw mine (
        get_or-foldl k ls (add_to_target m l)
        ∙ ap (λ v. v ++ select (of_target k) ls) (get_or-add k m l ∙ rw mine refl)
        ∙ append_assoc (GoMap.get_or k [] m) (l ∷ []) (select (of_target k) ls))
    | inr other ↦ rw other (
        get_or-foldl k ls (add_to_target m l)
        ∙ ap (λ v. v ++ select (of_target k) ls) (get_or-add k m l ∙ rw other refl))
  ]

  Distinct-foldl :
      (ls : List (Label F)) (m : GoMap TargetKey (List (Label F)))
      → Distinct m
      → Distinct (foldl add_to_target m ls)
  unfolding add_to_target
  Distinct-foldl [] m h = h
  Distinct-foldl (l ∷ ls) m h = elim (Bool-cases (is_live l)) [
    | inl live ↦ Distinct-foldl ls _ (rw (live, add_to_target) (Distinct-insert _ _ m h))
    | inr dead ↦ Distinct-foldl ls _ (rw (dead, add_to_target) h)
  ]

  group_of :
      (labels : List (Label F)) (k : TargetKey)
      → GoMap.get_or k [] (by_target labels) ≡ select (of_target k) labels
  unfolding by_target GoMap.get_or GoMap.lookup
  group_of labels k = get_or-foldl k labels []

  -- Each group holds the live labels of its target.
  pub mem-by_target :
      (labels : List (Label F)) (k : TargetKey) (ls : List (Label F))
      → Memᴰ (k, ls) (by_target labels)
      → ls ≡ select (of_target k) labels
  unfolding by_target GoMap.get_or
  mem-by_target labels k ls m =
      let found = lookup-of_mem k ls (by_target labels) (Distinct-foldl labels [] tt) m in
      let got : GoMap.get_or k [] (by_target labels) ≡ ls = rw (found, GoMap.get_or) refl in
      sym got ∙ group_of labels k

  -- The target of a live label has a group.
  pub by_target-mem :
      (labels : List (Label F)) (l : Label F)
      → Memᴰ l labels
      → is_live l ≡ true
      → (ls : List (Label F)) × Memᴰ (key_of l, ls) (by_target labels)
  unfolding GoMap.get_or
  by_target-mem labels l m live = elim (Option-cases (GoMap.lookup (key_of l) (by_target labels))) [
    | inl missing ↦
        let empty : GoMap.get_or (key_of l) [] (by_target labels) ≡ [] =
          rw (missing, GoMap.get_or) refl in
        absurd (
          Memᴰ-nil (
            subst (λ xs. Memᴰ l xs) (sym (group_of labels (key_of l)) ∙ empty)
              ((mem-select (of_target (key_of l)) l labels).1
                (m, rw live ((==_iff (key_of l) (key_of l)).1 refl)))))
    | inr (ls, found) ↦ (ls, mem-of_lookup (key_of l) ls (by_target labels) found)
  ]

  pub target_parts :
      (k : TargetKey) (l : Label F) → (of_target k l ≡ true) ↔ ((is_live l ≡ true) × (key_of l ≡ k))
  target_parts k l = (
    λ h. (ground arith, (==_iff (key_of l) k).0 (ground arith)),
    λ (live, same). rw live ((==_iff (key_of l) k).1 same),
  )

  pub in_target :
      (labels : List (Label F)) (k : TargetKey) (l : Label F)
      → Memᴰ l (select (of_target k) labels)
      → Memᴰ l labels × (is_live l ≡ true) × (key_of l ≡ k)
  in_target labels k l m =
      let (there, mine) = (mem-select (of_target k) l labels).0 m in
      let (live, same) = (target_parts k l).0 mine in (there, live, same)

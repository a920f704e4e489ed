-- ===== src/Stores/Labels/Conflicts.antt =====
-- blockchain_cluster/internal/label/maintain.go: which labels DetectConflicts flags.
use blockchain_clustering.Base.{
  ◌≡◌, ◌≢◌, ◌↔◌, ◌⊎◌, refl, ap, ◌∙◌, sym, subst, inl, inr, ℕ, Bool, true, false, List, [], ◌∷◌,
  foldl, Memᴰ, Memᴰ-cons, Memᴰ-nil, Memᴰ-perm, Permᴰ, ◌==◌, ==_iff, nat_eq, string_eq, pair_eq,
  select, mem-select, length, ltb, Bool-cases,
}
use blockchain_clustering.Base.GoMap
use blockchain_clustering.Base.GoMap.{
  Distinct, Distinct-insert, GoMap, get_or-insert, keys, lookup-insert, lookup-of_mem,
  mem-keys-insert, mem-of_keys, mem-of_lookup,
}
use mathlib.Core.List.Permᴰ
use blockchain_clustering.Domain.{Label}
use blockchain_clustering.Stores.Labels.{
  TargetKey, by_target, categories, detect_conflicts, flag_target, is_live, key_of,
}
use blockchain_clustering.Stores.Labels.Categories.{Disagree, Disagree-iff}
use blockchain_clustering.Stores.Labels.Targets.{
  by_target-mem, in_target, mem-by_target, of_target, target_parts,
}

module _ {F : Type 0} where
  get_or-flags :
      (ls : List (Label F)) (m : GoMap ℕ Bool) (id : ℕ)
      → (GoMap.get_or id false (foldl (λ n (l : Label F). GoMap.insert l.label_id true n) m ls)
          ≡ true)
        ↔ ((GoMap.get_or id false m ≡ true) ⊎ ((l : Label F) × Memᴰ l ls × (l.label_id ≡ id)))
  get_or-flags [] m id = (inl, elim [ inl x ↦ x | inr (l, x, _) ↦ absurd (Memᴰ-nil x) ])
  get_or-flags (l ∷ ls) m id =
      let rest = get_or-flags ls (GoMap.insert l.label_id true m) id in
      let one = get_or-insert false l.label_id id true m in
      elim (Bool-cases (l.label_id == id)) [
        | inl here ↦ (
          λ _. inr (l, Memᴰ.head refl, (==_iff l.label_id id).0 here),
          λ _. rest.1 (inl (one ∙ rw here refl)),
        )
        | inr other ↦
            let same : GoMap.get_or id false (GoMap.insert l.label_id true m)
                ≡ GoMap.get_or id false m =
              one ∙ rw other refl in
            (
              λ x. elim (rest.0 x) [
                | inl old ↦ inl (sym same ∙ old)
                | inr (k, at, is) ↦ inr (k, Memᴰ.tail at, is)
              ],
              elim [
                | inl old ↦ rest.1 (inl (same ∙ old))
                | inr (k, at, is) ↦ elim ((Memᴰ-cons k l ls).0 at) [
                  | inl first ↦ absurd (
                      cc (
                        other,
                        (==_iff l.label_id id).1
                            (sym (ap (λ (y : Label F). y.label_id) first) ∙ is),
                      ))
                  | inr there ↦ rest.1 (inr (k, there, is))
                ]
              ],
            )
      ]

  -- A label of a group that disagrees.
  abbrev Flagged : ℕ → List (Label F) → Type 0
  Flagged id ls = Disagree ls × ((l : Label F) × Memᴰ l ls × (l.label_id ≡ id))

  get_or-flag_target :
      (ls : List (Label F)) (m : GoMap ℕ Bool) (id : ℕ)
      → (GoMap.get_or id false (flag_target m ls) ≡ true)
        ↔ ((GoMap.get_or id false m ≡ true) ⊎ Flagged id ls)
  unfolding flag_target
  get_or-flag_target ls m id = elim (Bool-cases (ltb 1 (length (categories ls)))) [
    | inl many ↦
        rw (many, flag_target)
          (
            λ x. elim ((get_or-flags ls m id).0 x) [
              | inl old ↦ inl old
              | inr new ↦ inr ((Disagree-iff ls).0 many, new)
            ],
            elim [
              | inl old ↦ (get_or-flags ls m id).1 (inl old)
              | inr (_, new) ↦ (get_or-flags ls m id).1 (inr new)
            ],
          )
    | inr few ↦
        rw (few, flag_target)
          (
            inl,
            elim [
              | inl old ↦ old
              | inr (disagree, _) ↦ absurd (cc (few, (Disagree-iff ls).1 disagree))
            ],
          )
  ]

  get_or-groups :
      (groups : GoMap TargetKey (List (Label F))) (m : GoMap ℕ Bool) (id : ℕ)
      → (GoMap.get_or id false
            (foldl (λ n (g : TargetKey × List (Label F)). flag_target n g.1) m groups)
          ≡ true)
        ↔ ((GoMap.get_or id false m ≡ true)
            ⊎ ((k : TargetKey) × (ls : List (Label F)) × Memᴰ (k, ls) groups × Flagged id ls))
  get_or-groups [] m id = (inl, elim [ inl x ↦ x | inr (k, ls, x, _) ↦ absurd (Memᴰ-nil x) ])
  get_or-groups ((j, js) ∷ groups) m id =
      let rest = get_or-groups groups (flag_target m js) id in
      let one = get_or-flag_target js m id in
      (
        λ x. elim (rest.0 x) [
          | inl old ↦ elim (one.0 old) [
            | inl before ↦ inl before
            | inr here ↦ inr (j, js, Memᴰ.head refl, here)
          ]
          | inr (k, ls, at, there) ↦ inr (k, ls, Memᴰ.tail at, there)
        ],
        elim [
          | inl old ↦ rest.1 (inl (one.1 (inl old)))
          | inr (k, ls, at, flagged) ↦ elim ((Memᴰ-cons (k, ls) (j, js) groups).0 at) [
            | inl is ↦ rest.1 (
                inl (
                  one.1 (
                    inr (
                      subst (Flagged id) (ap (λ (g : TargetKey × List (Label F)). g.1) is)
                        flagged))))
            | inr there ↦ rest.1 (inr (k, ls, there, flagged))
          ]
        ],
      )

  -- A live label whose target another live label puts in another category.
  abbrev pub Contradicted : List (Label F) → Label F → Type 0
  Contradicted labels l =
      Memᴰ l labels
      × (is_live l ≡ true)
      × ((o : Label F) × Memᴰ o labels
          × (is_live o ≡ true)
          × (key_of o ≡ key_of l)
          × (o.category ≢ l.category))

  -- A label of a target, of another category than a label of it.
  abbrev Other : List (Label F) → Label F → Type 0
  Other labels l =
      (o : Label F) × Memᴰ o labels
      × (is_live o ≡ true)
      × (key_of o ≡ key_of l)
      × (o.category ≢ l.category)

  Other-of :
      (labels : List (Label F)) (k : TargetKey) (l o : Label F)
      → key_of l ≡ k
      → Memᴰ o (select (of_target k) labels)
      → o.category ≢ l.category
      → Other labels l
  Other-of labels k l o same at apart =
      let (there, live, is) = in_target labels k o at in (o, there, live, is ∙ sym same, apart)

  Contradicted-of :
      (labels : List (Label F)) (k : TargetKey) (l : Label F)
      → Disagree (select (of_target k) labels)
      → Memᴰ l (select (of_target k) labels)
      → Contradicted labels l
  Contradicted-of labels k l (a, b, at_a, at_b, differ) at =
      let (there, live, same) = in_target labels k l at in
      (
        there,
        live,
        elim (Bool-cases (a.category == l.category)) [
          | inl agrees ↦
              let is : a.category ≡ l.category = (==_iff a.category l.category).0 agrees in
              Other-of labels k l b same at_b (λ e. differ (is ∙ sym e))
          | inr apart ↦
              Other-of labels k l a same at_a
                (λ e. absurd (cc (apart, (==_iff a.category l.category).1 e)))
        ],
      )

  module _ (order : GoMap TargetKey (List (Label F)) → GoMap TargetKey (List (Label F)))
      (order-perm : (m : GoMap TargetKey (List (Label F))) → Permᴰ m (order m)) where
    -- In whatever order Go ranges over the targets, the ids that DetectConflicts flags are those of the
    -- live labels whose target another live label puts in another category.
    pub detect_conflicts_lem :
        (labels : List (Label F)) (id : ℕ)
        → (GoMap.get_or id false (detect_conflicts order labels) ≡ true)
          ↔ ((l : Label F) × Contradicted labels l × (l.label_id ≡ id))
    unfolding detect_conflicts GoMap.get_or GoMap.lookup
    detect_conflicts_lem labels id = (
      λ x. elim ((get_or-groups (order (by_target labels)) [] id).0 x) [
        | inl nothing ↦ absurd (cc nothing)
        | inr (k, ls, at, (disagree, (l, at_l, is))) ↦
            let here = Memᴰ-perm (Permᴰ.symm (order-perm (by_target labels))) at in
            let group = mem-by_target labels k ls here in
            (
              l,
              Contradicted-of labels k l (subst Disagree group disagree)
                  (subst (λ xs. Memᴰ l xs) group at_l),
              is,
            )
      ],
      λ (l, (there, live, (o, o_there, o_live, same, differ)), is).
          let (ls, at) = by_target-mem labels l there live in
          let group = mem-by_target labels (key_of l) ls at in
          let back = λ (y : Label F) (m : Memᴰ y (select (of_target (key_of l)) labels)).
            subst (λ xs. Memᴰ y xs) (sym group) m in
          let at_l = back l (
            (mem-select (of_target (key_of l)) l labels).1
              (there, (target_parts (key_of l) l).1 (live, refl))) in
          let at_o = back o (
            (mem-select (of_target (key_of l)) o labels).1
              (o_there, (target_parts (key_of l) o).1 (o_live, same))) in
          (get_or-groups (order (by_target labels)) [] id).1 (
            inr (
              key_of l,
              ls,
              Memᴰ-perm (order-perm (by_target labels)) at,
              ((o, l, at_o, at_l, differ), (l, at_l, is)),
            )),
    )

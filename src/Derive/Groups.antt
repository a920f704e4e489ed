-- ===== src/Derive/Groups.antt =====
-- `GroupByTx`: one group for each transaction, in the order of first occurrence, holding exactly the
-- deltas of that transaction in their order.
use blockchain_clustering.Base.{
  ℕ, ◌≡◌, refl, sym, ◌∙◌, ap, inl, inr, true, false, List, [], ◌∷◌, ◌++◌, none, some, foldl, subst,
  arith, ==_iff, string_eq, pair_eq, Option-cases, if◌then◌else◌, contains, contains-concat, All,
  length,
}
use mathlib.Core.List.{append_assoc, append-nil}
use blockchain_clustering.Base.GoMap
use blockchain_clustering.Base.GoMap.{GoMap, lookup-insert}
use blockchain_clustering.Domain.{BalanceDelta}
use blockchain_clustering.Derive.{
  TxKey, TxGroup, key_of, Grouping, add_delta, group_by_tx, dedupe_onto, first_occurrences,
}
use blockchain_clustering.Derive.Keys.{
  all_keys, deltas_of, group_keys, Right, Right-append_at, Right-concat, Right-other, Unique,
  Unique-concat, deltas_of-concat, group_keys-append, group_keys-append_at, length-group_keys,
  position, position-concat, position-contains,
}

record Grouped (ds : List BalanceDelta) (s : Grouping) : Type 0 where
  indexed : (k : TxKey) → GoMap.lookup k s.index ≡ position k (group_keys s.groups)
  unique : Unique (group_keys s.groups)
  right : Right ds s.groups
  covers : (k : TxKey) → contains (group_keys s.groups) k ≡ false → deltas_of k ds ≡ []

keys-add_delta :
    (ds : List BalanceDelta) (s : Grouping) (d : BalanceDelta)
    → Grouped ds s
    → group_keys (add_delta s d).groups ≡ (
        if contains (group_keys s.groups) (key_of d)
        then group_keys s.groups
        else group_keys s.groups ++ key_of d ∷ [])
unfolding add_delta
keys-add_delta ds s d h = elim (Option-cases (GoMap.lookup (key_of d) s.index)) [
  | inl new ↦
      let absent =
        (position-contains (key_of d) (group_keys s.groups)).0 (sym (h.indexed (key_of d)) ∙ new) in
      rw (new, add_delta, absent)
        (group_keys-append s.groups (record { key = key_of d; deltas = d ∷ [] } ∷ []))
  | inr (i, old) ↦
      let at : position (key_of d) (group_keys s.groups) ≡ some i =
        sym (h.indexed (key_of d)) ∙ old in
      let present : contains (group_keys s.groups) (key_of d) ≡ true =
        ground (arith, position-contains (key_of d) (group_keys s.groups)) in
      rw (old, add_delta, present) (group_keys-append_at s.groups i d)
]

-- A transaction that is met for the first time opens a group at the end,
Grouped-new :
    (ds : List BalanceDelta) (s : Grouping) (d : BalanceDelta)
    → Grouped ds s
    → GoMap.lookup (key_of d) s.index ≡ none
    → Grouped (ds ++ d ∷ []) (add_delta s d)
unfolding add_delta
Grouped-new ds s d h new =
    let k = key_of d in
    let g : TxGroup = record { key = k; deltas = d ∷ [] } in
    let pos : position k (group_keys s.groups) ≡ none = sym (h.indexed k) ∙ new in
    let absent = (position-contains k (group_keys s.groups)).0 pos in
    let ks = group_keys-append s.groups (g ∷ []) in
    rw (new, add_delta)
      (record {
        indexed = λ j. rw ks (
            ground (
              arith,
              lookup-insert k j (length s.groups) s.index,
              position-concat k j (group_keys s.groups),
              h.indexed j,
              length-group_keys s.groups,
            ));
        unique = rw ks (Unique-concat (group_keys s.groups) k h.unique absent);
        right =
            Right-concat (ds ++ d ∷ []) s.groups g (Right-other ds d s.groups absent h.right)
              (ground (arith, deltas_of-concat k ds d, h.covers k, ==_iff k k));
        covers = λ j out. ground (
          arith,
          rw ks at out,
          contains-concat (group_keys s.groups) k j,
          deltas_of-concat j ds d,
          h.covers j,
        );
      })

-- and a transaction that is known gets one more delta.
Grouped-known :
    (ds : List BalanceDelta) (s : Grouping) (d : BalanceDelta) (i : ℕ)
    → Grouped ds s
    → GoMap.lookup (key_of d) s.index ≡ some i
    → Grouped (ds ++ d ∷ []) (add_delta s d)
unfolding add_delta
Grouped-known ds s d i h old =
    let k = key_of d in
    let at : position k (group_keys s.groups) ≡ some i = sym (h.indexed k) ∙ old in
    let ks = group_keys-append_at s.groups i d in
    rw (old, add_delta)
      (record {
        indexed = λ j. rw ks (h.indexed j);
        unique = rw ks h.unique;
        right = Right-append_at ds d s.groups i at h.unique h.right;
        covers = λ j out. ground (
          arith,
          rw ks at out,
          position-contains j (group_keys s.groups),
          deltas_of-concat j ds d,
          h.covers j,
          ==_iff k j,
          ap (λ t. position t (group_keys s.groups)) {x = k} {y = j},
        );
      })

Grouped-add_delta :
    (ds : List BalanceDelta) (s : Grouping) (d : BalanceDelta)
    → Grouped ds s
    → Grouped (ds ++ d ∷ []) (add_delta s d)
Grouped-add_delta ds s d h = elim (Option-cases (GoMap.lookup (key_of d) s.index)) [
  | inl new ↦ Grouped-new ds s d h new
  | inr (i, old) ↦ Grouped-known ds s d i h old
]

Grouped-foldl :
    (rest ds : List BalanceDelta) (s : Grouping)
    → Grouped ds s
    → Grouped (ds ++ rest) (foldl add_delta s rest)
      × (group_keys (foldl add_delta s rest).groups
          ≡ dedupe_onto (group_keys s.groups) (all_keys rest))
Grouped-foldl [] ds s h = (rw append-nil h, refl)
Grouped-foldl (d ∷ rest) ds s h =
    let (g, ks) = Grouped-foldl rest (ds ++ d ∷ []) (add_delta s d) (Grouped-add_delta ds s d h) in
    (
      subst (λ l. Grouped l (foldl add_delta (add_delta s d) rest)) (append_assoc ds (d ∷ []) rest)
          g,
      ks ∙ ap (λ k. dedupe_onto k (all_keys rest)) (keys-add_delta ds s d h),
    )

Grouped-start : Grouped [] (record { index = []; groups = [] })
unfolding GoMap.lookup
Grouped-start = record { indexed = λ k. refl; unique = tt; right = tt; covers = λ k _. refl }

-- `GroupByTx` makes one group for each transaction, in the order in which the transactions first
-- occur, and every group holds exactly the deltas of its transaction, in their order.
pub group_by_tx_lem :
    (ds : List BalanceDelta)
    → (group_keys (group_by_tx ds) ≡ first_occurrences (all_keys ds))
      × All (λ g. g.deltas ≡ deltas_of g.key ds) (group_by_tx ds)
unfolding group_by_tx
group_by_tx_lem ds =
    let (g, ks) = Grouped-foldl ds [] (record { index = []; groups = [] }) Grouped-start in
    (ks, g.right)

-- ===== src/UnionFind/Hung.antt =====
-- One root is hung under another, as `Union` does by rank.
use blockchain_clustering.Base.{
  suc, ◌<◌, String, ◌≡◌, ◌≢◌, refl, sym, ◌∙◌, ◌⊎◌, inl, inr, true, false, none, some, ◌==◌, ==_iff,
  string_eq, nat_eq, arith, ap, Bool-cases, subst, if◌then◌else◌, ltb,
}
use blockchain_clustering.Base.GoMap
use blockchain_clustering.Base.GoMap.{GoMap, lookup-insert}
use blockchain_clustering.UnionFind.{Dsu, rank_of, set_parent, bump_rank, link}
use blockchain_clustering.UnionFind.Roots.{HasRoot, fresh, stop, climb, Valid}
use blockchain_clustering.UnionFind.Find.{Valid-set_parent}

-- The root `low` has been hung under the root `high`.
pub record Hung (d : Dsu) (low high : String) (d' : Dsu) : Type 0 where
  pub valid : Valid d'
  pub moves :
      (t y : String) → HasRoot d.parent t y → HasRoot d'.parent (if t == low then high else t) y

module _ (m : GoMap String String) (low high : String) (low_top : GoMap.lookup low m ≡ some low)
    (high_top : GoMap.lookup high m ≡ some high) (apart : low ≢ high) where
  moves-insert :
      {t y : String}
      → HasRoot m t y
      → HasRoot (GoMap.insert low high m) (if t == low then high else t) y
  moves-insert {t} (fresh {x = y} e p) = elim (Bool-cases (low == y)) [
    | inl same ↦
        let q : low ≡ y = (==_iff low y).0 same in
        absurd (subst (λ z. GoMap.lookup z m ≡ none → ⊥) q (λ k. cc) e)
    | inr other ↦
        fresh (ground (arith, lookup-insert low y high m))
          (ground (arith, ==_iff t low, ==_iff low y))
  ]
  moves-insert {t} (stop {x = y} e p) = elim (Bool-cases (low == y)) [
    | inl same ↦
        let q : low ≡ y = (==_iff low y).0 same in
        let t_low : (t == low) ≡ true = (==_iff t low).1 (p ∙ sym q) in
        rw t_low (
          climb (ground (arith, lookup-insert low y high m)) (λ k. apart (q ∙ sym k))
            (stop (ground (arith, lookup-insert low high high m, ==_iff low high)) refl))
    | inr other ↦
        stop (ground (arith, lookup-insert low y high m))
          (ground (arith, ==_iff t low, ==_iff low y))
  ]
  moves-insert {t} (climb {x = y} {p = p} e n h) =
      let keep : GoMap.lookup y (GoMap.insert low high m) ≡ some p =
        ground (arith, lookup-insert low y high m, ==_iff low y) in
      climb keep n (moves-insert h)

Hung-set_parent :
    (d : Dsu) (low high : String)
    → Valid d
    → GoMap.lookup low d.parent ≡ some low
    → GoMap.lookup high d.parent ≡ some high
    → low ≢ high
    → rank_of d low < rank_of d high
    → Hung d low high (set_parent low high d)
Hung-set_parent d low high v low_top high_top apart lower = record {
  valid = Valid-set_parent d low v high lower high_top;
  moves = λ t y h. unfold set_parent in moves-insert d.parent low high low_top high_top apart h;
}

rank-bump :
    (d : Dsu) (x y : String)
    → rank_of (bump_rank x d) y ≡ (if x == y then suc (rank_of d x) else rank_of d y)
unfolding bump_rank
rank-bump d x y = elim (Bool-cases (x == y)) [
  | inl same ↦ rw (lookup-insert x y (suc (rank_of d x)) d.rank, same, rank_of) refl
  | inr other ↦ rw (lookup-insert x y (suc (rank_of d x)) d.rank, other, rank_of) refl
]

Valid-bump :
    (d : Dsu) (x : String) → Valid d → GoMap.lookup x d.parent ≡ some x → Valid (bump_rank x d)
Valid-bump d x v at_top = record {
  climbs = λ y p e n.
      let e' : GoMap.lookup y d.parent ≡ some p = unfold bump_rank in e in
      let not_x : (x == y) ≡ false = ground (arith, ==_iff x y, at_top) in
      let less : rank_of d y < rank_of d p = v.climbs y p e' n in
      ground (arith, rank-bump d x y, rank-bump d x p, ==_iff x p, ap (rank_of d) {x = x} {y = p});
  ranked = λ y e.
      let e' : GoMap.lookup y d.parent ≡ none = unfold bump_rank in e in
      let not_x : (x == y) ≡ false = ground (arith, ==_iff x y, at_top) in
      ground (arith, rank-bump d x y, v.ranked y);
}

-- Either root may be hung: by rank, and the first stays when the ranks agree.
pub link-Hung :
    (d : Dsu) (ra rb : String)
    → Valid d
    → GoMap.lookup ra d.parent ≡ some ra
    → GoMap.lookup rb d.parent ≡ some rb
    → ra ≢ rb
    → Hung d rb ra (link d ra rb) ⊎ Hung d ra rb (link d ra rb)
unfolding link
link-Hung d ra rb v at_a at_b ne = elim (Bool-cases (ltb (rank_of d ra) (rank_of d rb))) [
  | inl less ↦ rw less (inr (Hung-set_parent d ra rb v at_a at_b ne (ground arith)))
  | inr not_less ↦ elim (Bool-cases (rank_of d ra == rank_of d rb)) [
    | inl same ↦
        let d' = bump_rank ra d in
        let b_ne : rb ≢ ra = λ q. ne (sym q) in
        let lower : rank_of d' rb < rank_of d' ra =
          ground (arith, rank-bump d ra rb, rank-bump d ra ra, ==_iff ra rb, ==_iff ra ra) in
        rw (not_less, same)
          (inl (
            let hung =
              Hung-set_parent d' rb ra (Valid-bump d ra v at_a) (unfold bump_rank in at_b)
                (unfold bump_rank in at_a) b_ne lower in
            record { valid = hung.valid; moves = λ t y h. hung.moves t y (unfold bump_rank in h) }))
    | inr differ ↦
        rw (not_less, differ)
          (inl (Hung-set_parent d rb ra v at_b at_a (λ q. ne (sym q)) (ground arith)))
  ]
]

-- ===== src/UnionFind/Find.antt =====
-- `Find` returns the root of its argument, and compressing the path changes no root.
use blockchain_clustering.Base.{
  ℕ, zero, suc, ◌+◌, ◌<◌, String, ◌≡◌, ◌≢◌, refl, sym, ◌∙◌, inl, inr, none, some, ◌==◌, ==_iff,
  string_eq, arith, ap, Bool-cases, Option-cases, subst, if◌then◌else◌,
}
use blockchain_clustering.Base.GoMap
use blockchain_clustering.Base.GoMap.{GoMap, lookup-insert, lookup-insert_self, lookup-insert_ne}
use blockchain_clustering.UnionFind.{Dsu, rank_of, top, register, set_parent, find_within, find}
use blockchain_clustering.UnionFind.Roots.{
  HasRoot, fresh, stop, climb, Valid, HasRoot-unique, rank-le-root, rank_of-le-top,
}

-- What `Find(x)` promises when it turns d into d' and returns r.
pub record Found (d : Dsu) (x : String) (d' : Dsu) (r : String) : Type 0 where
  pub valid : Valid d'
  pub root : HasRoot d.parent r x
  pub settled : GoMap.lookup r d'.parent ≡ some r
  pub keeps : (y s : String) → HasRoot d.parent s y → HasRoot d'.parent s y
  pub tops : (y : String) → GoMap.lookup y d.parent ≡ some y → GoMap.lookup y d'.parent ≡ some y
  pub ranks : (y : String) → rank_of d' y ≡ rank_of d y

module _ (m : GoMap String String) (x : String) where
  -- A new address becomes its own root, and no path ran through it.
  keeps-register :
      GoMap.lookup x m ≡ none → {r y : String} → HasRoot m r y → HasRoot (GoMap.insert x x m) r y
  keeps-register new (fresh {x = y} e p) = elim (Bool-cases (x == y)) [
    | inl same ↦ stop (ground (arith, ==_iff x y, lookup-insert x y x m)) p
    | inr other ↦ fresh (ground (arith, lookup-insert x y x m)) p
  ]
  keeps-register new (stop {x = y} e p) = stop (ground (arith, ==_iff x y, lookup-insert x y x m)) p
  keeps-register new (climb {x = y} {p = p} e n h) =
      climb (ground (arith, ==_iff x y, lookup-insert x y x m)) n (keeps-register new h)

  -- Hanging x under its root changes no root.
  keeps-compress :
      (r : String)
      → HasRoot m r x
      → r ≢ x
      → GoMap.lookup r m ≡ some r
      → {s y : String} → HasRoot m s y
      → HasRoot (GoMap.insert x r m) s y
  keeps-compress r top ne at_top (fresh {x = y} e p) = elim (Bool-cases (x == y)) [
    | inl same ↦
        let at_x : GoMap.lookup x m ≡ none = ground (arith, ==_iff x y) in
        absurd (ne (HasRoot-unique top (fresh at_x refl)))
    | inr other ↦ fresh (ground (arith, lookup-insert x y r m)) p
  ]
  keeps-compress r top ne at_top (stop {x = y} e p) = elim (Bool-cases (x == y)) [
    | inl same ↦
        let at_x : GoMap.lookup x m ≡ some x = ground (arith, ==_iff x y) in
        absurd (ne (HasRoot-unique top (stop at_x refl)))
    | inr other ↦ stop (ground (arith, lookup-insert x y r m)) p
  ]
  keeps-compress r top ne at_top {s = s} (climb {x = y} {p = p} e n h) =
      elim (Bool-cases (x == y)) [
        | inl same ↦
            let x_is_y : x ≡ y = (==_iff x y).0 same in
            let s_is_r : s ≡ r = HasRoot-unique (climb e n h) (subst (HasRoot m r) x_is_y top) in
            climb (ground (arith, lookup-insert x y r m)) (λ r_is_y. ne (r_is_y ∙ sym x_is_y))
              (stop (ground (arith, lookup-insert x r r m, ==_iff x r)) s_is_r)
        | inr other ↦
            climb (ground (arith, lookup-insert x y r m)) n (keeps-compress r top ne at_top h)
      ]

rank-register :
    (d : Dsu) (x : String)
    → Valid d
    → GoMap.lookup x d.parent ≡ none
    → (y : String) → rank_of (register x d) y ≡ rank_of d y
unfolding register
rank-register d x v new y = elim (Bool-cases (x == y)) [
  | inl same ↦
      let x_is_y : x ≡ y = (==_iff x y).0 same in
      let old : rank_of d y ≡ 0 =
        v.ranked y (subst (λ z. GoMap.lookup z d.parent ≡ none) x_is_y new) in
      rw (lookup-insert x y 0 d.rank, same, rank_of) (sym old)
  | inr other ↦ rw (lookup-insert x y 0 d.rank, other, rank_of) refl
]

module _ (d : Dsu) (x : String) where
  lookup-register :
      (y : String)
      → GoMap.lookup y (register x d).parent ≡ (if x == y then some x else GoMap.lookup y d.parent)
  unfolding register
  lookup-register y = lookup-insert x y x d.parent

  lookup-set_parent :
      (r y : String)
      → GoMap.lookup y (set_parent x r d).parent
        ≡ (if x == y then some r else GoMap.lookup y d.parent)
  unfolding set_parent
  lookup-set_parent r y = lookup-insert x y r d.parent

  pub rank-set_parent : (r y : String) → rank_of (set_parent x r d) y ≡ rank_of d y
  unfolding set_parent
  rank-set_parent r y = refl

  Valid-register : Valid d → GoMap.lookup x d.parent ≡ none → Valid (register x d)
  Valid-register v new = record {
    climbs = λ y p e n.
        let old : GoMap.lookup y d.parent ≡ some p =
          ground (arith, lookup-register y, ==_iff x y, n) in
        omega (arith, rank-register d x v new y, rank-register d x v new p, v.climbs y p old n);
    ranked = λ y e.
        let old : GoMap.lookup y d.parent ≡ none = ground (arith, lookup-register y) in
        rank-register d x v new y ∙ v.ranked y old;
  }

  Found-register : Valid d → GoMap.lookup x d.parent ≡ none → Found d x (register x d) x
  Found-register v new = record {
    valid = Valid-register v new;
    root = fresh new refl;
    settled = ground (arith, lookup-register x, ==_iff x x);
    keeps = λ y s h. unfold register in keeps-register d.parent x new h;
    tops = λ y e. ground (arith, lookup-register y, ==_iff x y);
    ranks = rank-register d x v new;
  }

  -- x is hung under a root r of higher rank
  module _ (v : Valid d) (r : String) (higher : rank_of d x < rank_of d r)
      (at_top : GoMap.lookup r d.parent ≡ some r) where
    pub Valid-set_parent : Valid (set_parent x r d)
    unfolding set_parent
    Valid-set_parent = record {
      climbs = λ y p e n. elim (Bool-cases (x == y)) [
        | inl same ↦
            let x_is_y : x ≡ y = (==_iff x y).0 same in
            let r_is_p : r ≡ p = ground (arith, lookup-set_parent r y) in
            subst (λ z. rank_of d z < rank_of d p) x_is_y
              (subst (λ z. rank_of d x < rank_of d z) r_is_p higher)
        | inr other ↦ v.climbs y p (ground (arith, lookup-set_parent r y)) n
      ];
      ranked = λ y e. v.ranked y (ground (arith, lookup-set_parent r y));
    }

-- The step of the recursion: the parent p has found r, and x is hung under r.
Found-compress :
    (d : Dsu) (x p : String) (d' : Dsu) (r : String)
    → Valid d
    → GoMap.lookup x d.parent ≡ some p
    → p ≢ x
    → Found d p d' r
    → Found d x (set_parent x r d') r
Found-compress d x p d' r v e n f =
    let to_r : HasRoot d.parent r x = climb e n f.root in
    let kept : HasRoot d'.parent r x = f.keeps x r to_r in
    let higher : rank_of d' x < rank_of d' r =
      omega (arith, f.ranks x, f.ranks r, v.climbs x p e n, rank-le-root d v f.root) in
    let ne : r ≢ x = λ q. absurd (omega (arith, higher, ap (rank_of d') q)) in
    record {
      valid = Valid-set_parent d' x f.valid r higher f.settled;
      root = to_r;
      settled = ground (arith, lookup-set_parent d' x r r, ==_iff x r, f.settled);
      keeps = λ y s h.
          unfold set_parent in keeps-compress d'.parent x r kept ne f.settled (f.keeps y s h);
      tops = λ y at_y. elim (Bool-cases (x == y)) [
        | inl same ↦
            let x_is_y : x ≡ y = (==_iff x y).0 same in
            absurd (
              ne (
                HasRoot-unique kept (
                  stop (subst (λ z. GoMap.lookup z d'.parent ≡ some z) (sym x_is_y) (f.tops y at_y))
                    refl)))
        | inr other ↦ ground (arith, lookup-set_parent d' x r y, f.tops y)
      ];
      ranks = λ y. rank-set_parent d' x r y ∙ f.ranks y;
    }

find_within-Found :
    (n : ℕ) (d : Dsu) (x : String)
    → Valid d
    → top d.rank < n + rank_of d x
    → Found d x (find_within n d x).0 (find_within n d x).1
unfolding find_within
find_within-Found zero d x v h = absurd (omega (arith, rank_of-le-top d x))
find_within-Found (suc n) d x v h = elim (Option-cases (GoMap.lookup x d.parent)) [
  | inl new ↦ rw (new, find_within) (Found-register d x v new)
  | inr (p, e) ↦ elim (Bool-cases (p == x)) [
    | inl at_top ↦
        let p_is_x : p ≡ x = (==_iff p x).0 at_top in
        let e' : GoMap.lookup x d.parent ≡ some x = e ∙ ap some p_is_x in
        rw (e, find_within, at_top)
          (subst (Found d x d) (sym p_is_x) (record {
            valid = v;
            root = stop e' refl;
            settled = e';
            keeps = λ y s k. k;
            tops = λ y k. k;
            ranks = λ y. refl;
          }))
    | inr below ↦
        let n_x : p ≢ x = λ q. ground (arith, ==_iff p x) in
        rw (e, find_within, below)
          (Found-compress d x p _ _ v e n_x
            (find_within-Found n d p v (omega (arith, v.climbs x p e n_x))))
  ]
]

-- `Find` on any valid forest: the bound on the rounds suffices, and the result is the root.
pub find-Found : (d : Dsu) (x : String) → Valid d → Found d x (find d x).0 (find d x).1
unfolding find
find-Found d x v = find_within-Found (suc (top d.rank)) d x v (omega arith)

-- So every address has a root,
pub root_exists : (d : Dsu) (x : String) → Valid d → HasRoot d.parent (find d x).1 x
root_exists d x v = (find-Found d x v).root

-- and the roots after `Find` are the roots before it.
pub Found-reflects :
    {d : Dsu} {x : String} {d' : Dsu} {r : String}
    → Valid d
    → Found d x d' r
    → {y s : String} → HasRoot d'.parent s y
    → HasRoot d.parent s y
Found-reflects {d} v f {y} {s} h =
    let was = root_exists d y v in
    subst (λ z. HasRoot d.parent z y) (HasRoot-unique (f.keeps y _ was) h) was

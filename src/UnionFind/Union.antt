-- ===== src/UnionFind/Union.antt =====
-- `Union` joins the sets of its two arguments and no others, and says whether they were apart.
use blockchain_clustering.Base.{
  String, ◌≡◌, ◌≢◌, refl, sym, ◌∙◌, ◌⊎◌, inl, inr, ◌↔◌, true, false, some, ◌==◌, ==_iff, string_eq,
  nat_eq, arith, Bool-cases, subst, if◌then◌else◌,
}
use blockchain_clustering.Base.GoMap
use blockchain_clustering.Base.GoMap.{GoMap, lookup-insert}
use blockchain_clustering.UnionFind.{Dsu, find, link, union}
use blockchain_clustering.UnionFind.Roots.{HasRoot, Valid, Same, HasRoot-unique}
use blockchain_clustering.UnionFind.Find.{Found, find-Found, root_exists, Found-reflects}
use blockchain_clustering.UnionFind.Hung.{Hung, link-Hung}

-- Joining the sets of a and b in d gives the sets of d'.
pub record Joined (d : Dsu) (a b : String) (d' : Dsu) : Type 0 where
  pub valid : Valid d'
  pub joins : Same d' a b
  pub keeps : (x y : String) → Same d x y → Same d' x y
  pub only :
      (x y : String)
      → Same d' x y
      → Same d x y ⊎ ((Same d x a × Same d b y) ⊎ (Same d x b × Same d a y))

module _ {d d' : Dsu} {low high : String} (v : Valid d) (hung : Hung d low high d')
    (apart : low ≢ high) where
  root_before :
      {s y : String}
      → HasRoot d'.parent s y
      → (t : String) × HasRoot d.parent t y × (s ≡ (if t == low then high else t))
  root_before {s} {y} h =
      let was = root_exists d y v in (_, was, HasRoot-unique h (hung.moves _ y was))

  Joined-Hung : (a b : String) → HasRoot d.parent low a → HasRoot d.parent high b → Joined d a b d'
  Joined-Hung a b at_a at_b = record {
    valid = hung.valid;
    joins =
        let low_is : (low == low) ≡ true = (==_iff low low).1 refl in
        let high_is : (high == low) ≡ false = ground (arith, ==_iff high low, apart) in
        (high, rw low_is at (hung.moves low a at_a), rw high_is at (hung.moves high b at_b));
    keeps = λ x y (r, hx, hy). (_, hung.moves r x hx, hung.moves r y hy);
    only = λ x y (s, hx, hy).
        let (t, ht, e) = root_before hx in
        let (u, hu, f) = root_before hy in
        elim (Bool-cases (t == low)) [
          | inl t_low ↦ elim (Bool-cases (u == low)) [
            | inl u_low ↦
                let q : u ≡ t = ground (arith, ==_iff t low, ==_iff u low) in
                inl (t, ht, subst (λ z. HasRoot d.parent z y) q hu)
            | inr u_not ↦
                let q : t ≡ low = ground (arith, ==_iff t low) in
                let k : u ≡ high = ground arith in
                inr (
                  inl (
                    (low, subst (λ z. HasRoot d.parent z x) q ht, at_a),
                    (high, at_b, subst (λ z. HasRoot d.parent z y) k hu),
                  ))
          ]
          | inr t_not ↦ elim (Bool-cases (u == low)) [
            | inl u_low ↦
                let q : u ≡ low = ground (arith, ==_iff u low) in
                let k : t ≡ high = ground arith in
                inr (
                  inr (
                    (high, subst (λ z. HasRoot d.parent z x) k ht, at_b),
                    (low, at_a, subst (λ z. HasRoot d.parent z y) q hu),
                  ))
            | inr u_not ↦
                let q : u ≡ t = ground arith in inl (t, ht, subst (λ z. HasRoot d.parent z y) q hu)
          ]
        ];
  }

pub Same-sym : (d : Dsu) (x y : String) → Same d x y → Same d y x
Same-sym d x y (r, hx, hy) = (r, hy, hx)

pub Same-trans : (d : Dsu) (x y z : String) → Same d x y → Same d y z → Same d x z
Same-trans d x y z (r, hx, hy) (s, ky, kz) =
    (r, hx, subst (λ t. HasRoot d.parent t z) (HasRoot-unique ky hy) kz)

Joined-sym : {d d' : Dsu} (a b : String) → Joined d b a d' → Joined d a b d'
Joined-sym {d} {d'} a b j = record {
  valid = j.valid;
  joins = Same-sym d' b a j.joins;
  keeps = j.keeps;
  only = λ x y h. elim (j.only x y h) [
    | inl old ↦ inl old
    | inr (inl p) ↦ inr (inr p)
    | inr (inr p) ↦ inr (inl p)
  ];
}

-- The two calls of `Find` at the start of `Union` leave every set as it was.
Joined-after :
    {d d₁ : Dsu} {x r : String} (a b : String) {d' : Dsu}
    → Valid d
    → Found d x d₁ r
    → Joined d₁ a b d'
    → Joined d a b d'
Joined-after {d} {d₁} a b {d'} v f j = record {
  valid = j.valid;
  joins = j.joins;
  keeps = λ x y (r, hx, hy). j.keeps x y (r, f.keeps x r hx, f.keeps y r hy);
  only = λ x y h. elim (j.only x y h) [
    | inl old ↦ inl (back x y old)
    | inr (inl p) ↦ inr (inl (back x a p.0, back b y p.1))
    | inr (inr p) ↦ inr (inr (back x b p.0, back a y p.1))
  ];
}
  where
    back : (x y : String) → Same d₁ x y → Same d x y
    back x y (r, hx, hy) = (r, Found-reflects v f hx, Found-reflects v f hy)

Joined-self : (d : Dsu) (a b : String) → Valid d → Same d a b → Joined d a b d
Joined-self d a b v s = record { valid = v; joins = s; keeps = λ x y h. h; only = λ x y h. inl h }

union_cases :
    (d : Dsu) (a b : String)
    → Valid d
    → Joined d a b (union d a b).0 × (((union d a b).1 ≡ true) ↔ (¬ Same d a b))
unfolding union
union_cases d a b v =
    let (d₁, ra) = find d a in
    let f = find-Found d a v in
    let (d₂, rb) = find d₁ b in
    let g = find-Found d₁ b f.valid in
    let a₂ : HasRoot d₂.parent ra a = g.keeps a ra (f.keeps a ra f.root) in
    let b₂ : HasRoot d₂.parent rb b = g.keeps b rb g.root in
    let b₀ : HasRoot d.parent rb b = Found-reflects v f g.root in
    elim (Bool-cases (ra == rb)) [
      | inl same ↦
          let q : ra ≡ rb = (==_iff ra rb).0 same in
          let s₂ : Same d₂ a b = (rb, subst (λ z. HasRoot d₂.parent z a) q a₂, b₂) in
          let s₀ : Same d a b = (rb, subst (λ z. HasRoot d.parent z a) q f.root, b₀) in
          rw same (
            Joined-after a b v f (Joined-after a b f.valid g (Joined-self d₂ a b g.valid s₂)),
            (λ k. absurd (cc), λ k. absurd (k s₀)),
          )
      | inr differ ↦
          let ne : ra ≢ rb = λ q. ground (arith, ==_iff ra rb) in
          let ne' : rb ≢ ra = λ q. ne (sym q) in
          let at_a : GoMap.lookup ra d₂.parent ≡ some ra = g.tops ra f.settled in
          let joined : Joined d₂ a b (link d₂ ra rb) =
            elim (link-Hung d₂ ra rb g.valid at_a g.settled ne) [
              | inl h ↦ Joined-sym a b (Joined-Hung g.valid h ne' b a b₂ a₂)
              | inr h ↦ Joined-Hung g.valid h ne a b a₂ b₂
            ] in
          rw differ (
            Joined-after a b v f (Joined-after a b f.valid g joined),
            (λ _ (r, ha, hb). ne (HasRoot-unique f.root ha ∙ HasRoot-unique hb b₀), λ _. refl),
          )
    ]

-- `Union` joins exactly the two sets.
pub union-Joined : (d : Dsu) (a b : String) → Valid d → Joined d a b (union d a b).0
union-Joined d a b v = (union_cases d a b v).0

-- `Union` reports a merge exactly when the two addresses were apart.
pub union_reports : (d : Dsu) (a b : String) → Valid d → ((union d a b).1 ≡ true) ↔ (¬ Same d a b)
union_reports d a b v = (union_cases d a b v).1

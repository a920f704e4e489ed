-- ===== src/UnionFind/Connected.antt =====
-- What the forest stands for: the connected components of the edges that were united.
use blockchain_clustering.Base.{
  String, ◌≡◌, refl, sym, ◌∙◌, inl, inr, List, [], ◌∷◌, ◌++◌, Memᴰ, Memᴰ-concat, Memᴰ-nil, subst,
  string_eq,
}
use mathlib.Core.List.Memᴰ
use blockchain_clustering.Base.GoMap
use blockchain_clustering.Base.GoMap.{GoMap}
use blockchain_clustering.UnionFind.{Dsu, new, union}
use blockchain_clustering.UnionFind.Roots.{HasRoot, fresh, stop, climb, Valid, Same, Valid-new}
use blockchain_clustering.UnionFind.Find.{root_exists}
use blockchain_clustering.UnionFind.Union.{Joined, union-Joined, Same-sym, Same-trans}

-- Paths along edges, in either direction.
pub data Connected (E : List (String × String)) (x : String) : String → Type 0 where
  here : Connected E x x
  forth : {y z : String} → Connected E x y → Memᴰ (y, z) E → Connected E x z
  back : {y z : String} → Connected E x y → Memᴰ (z, y) E → Connected E x z

module _ {E : List (String × String)} where
  pub Connected-trans : {x y z : String} → Connected E x y → Connected E y z → Connected E x z
  Connected-trans c here = c
  Connected-trans c (forth k m) = forth (Connected-trans c k) m
  Connected-trans c (back k m) = back (Connected-trans c k) m

  pub Connected-sym : {x y : String} → Connected E x y → Connected E y x
  Connected-sym here = here
  Connected-sym (forth k m) = Connected-trans (back here m) (Connected-sym k)
  Connected-sym (back k m) = Connected-trans (forth here m) (Connected-sym k)

pub Connected-map :
    {E E' : List (String × String)}
    → ((y z : String) → Memᴰ (y, z) E → Connected E' y z)
    → {x y : String} → Connected E x y
    → Connected E' x y
Connected-map f here = here
Connected-map f (forth {y} {z} c m) = Connected-trans (Connected-map f c) (f y z m)
Connected-map f (back {y} {z} c m) = Connected-trans (Connected-map f c) (Connected-sym (f z y m))

-- The forest d stands for the components of E.
pub record Refines (d : Dsu) (E : List (String × String)) : Type 0 where
  pub valid : Valid d
  pub sound : (x y : String) → Same d x y → Connected E x y
  pub complete : (x y : String) → Connected E x y → Same d x y

HasRoot-new : {r x : String} → HasRoot [] r x → r ≡ x
unfolding GoMap.lookup
HasRoot-new (fresh e p) = p
HasRoot-new (stop e p) = p
HasRoot-new (climb e n h) = cc

Same-refl : (d : Dsu) (x : String) → Valid d → Same d x x
Same-refl d x v = let h = root_exists d x v in (_, h, h)

pub Refines-new : Refines new []
Refines-new = record {
  valid = Valid-new;
  sound = λ x y (r, hx, hy). subst (Connected [] x) (sym (HasRoot-new hx) ∙ HasRoot-new hy) here;
  complete = λ x y c. go c;
}
  where
    go : {x y : String} → Connected [] x y → Same new x y
    go here = Same-refl new _ Valid-new
    go (forth c m) = absurd (Memᴰ-nil m)
    go (back c m) = absurd (Memᴰ-nil m)

-- `Union(a, b)` adds the edge (a, b).
pub Refines-union :
    (d : Dsu) (E : List (String × String)) (a b : String)
    → Refines d E
    → Refines (union d a b).0 (E ++ (a, b) ∷ [])
Refines-union d E a b ref = record {
  valid = j.valid;
  sound = λ x y h. elim (j.only x y h) [
    | inl old ↦ wider (ref.sound x y old)
    | inr (inl (xa, by)) ↦
        Connected-trans (forth (wider (ref.sound x a xa)) added) (wider (ref.sound b y by))
    | inr (inr (xb, ay)) ↦
        Connected-trans (back (wider (ref.sound x b xb)) added) (wider (ref.sound a y ay))
  ];
  complete = λ x y c. connects c;
}
  where
    d' : Dsu
    d' = (union d a b).0

    j : Joined d a b d'
    j = union-Joined d a b ref.valid

    added : Memᴰ (a, b) (E ++ (a, b) ∷ [])
    added = Memᴰ.append_right E (Memᴰ.head refl)

    wider : {x y : String} → Connected E x y → Connected (E ++ (a, b) ∷ []) x y
    wider = Connected-map (λ y z m. forth here (Memᴰ.append_left _ m))

    edge : (y z : String) → Memᴰ (y, z) (E ++ (a, b) ∷ []) → Same d' y z
    edge y z m = elim ((Memᴰ-concat (y, z) (a, b) E).0 m) [
      | inl old ↦ j.keeps y z (ref.complete y z (forth here old))
      | inr e ↦ subst (λ (p : String × String). Same d' p.0 p.1) (sym e) j.joins
    ]

    connects : {x y : String} → Connected (E ++ (a, b) ∷ []) x y → Same d' x y
    connects here = Same-refl d' _ j.valid
    connects (forth {y} {z} c m) = Same-trans d' _ y z (connects c) (edge y z m)
    connects (back {y} {z} c m) = Same-trans d' _ y z (connects c) (Same-sym d' z y (edge z y m))

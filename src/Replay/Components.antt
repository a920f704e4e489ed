-- ===== src/Replay/Components.antt =====
-- The third loop of `Replay`, which collects the members of each root, and what `Replay` returns.
use blockchain_clustering.Base.{
  ℕ, String, ◌≡◌, refl, sym, ap, inl, inr, ◌↔◌, List, [], ◌∷◌, ◌++◌, map, foldl, Memᴰ, Memᴰ-concat,
  Memᴰ-nil, subst, arith, ◌==◌, ==_iff, string_eq, Bool-cases, if◌then◌else◌,
}
use mathlib.Core.List.Memᴰ
use mathlib.Core.List.{append_assoc, append-nil}
use blockchain_clustering.Base.GoMap
use blockchain_clustering.Base.GoMap.{
  GoMap, keys, Distinct, Distinct-insert, get_or-insert, lookup-of_mem, mem-of_lookup,
  mem-keys-perm,
}
use blockchain_clustering.UnionFind.{Dsu, find}
use blockchain_clustering.UnionFind.Roots.{HasRoot, Valid, HasRoot-unique}
use blockchain_clustering.UnionFind.Find.{find-Found, Found-reflects}
use blockchain_clustering.UnionFind.Connected.{Connected, here, forth, back}
use blockchain_clustering.Replay.{Member, Result, collect}
use blockchain_clustering.Replay.Gather.{ends}

-- m[root]
abbrev pub group : GoMap String (List String) → String → List String
group m root = GoMap.get_or root [] m

group-insert :
    (m : GoMap String (List String)) (r s : String) (v : List String)
    → group (GoMap.insert r v m) s ≡ (if r == s then v else group m s)
group-insert m r s v = get_or-insert [] r s v m

-- What has been collected, in a forest whose roots are those of d, after the addresses of `done`.
pub record Collected (d : Dsu) (done : List String) (s : Dsu × GoMap String (List String))
    : Type 0 where
  pub valid : Valid s.0
  pub same : (x r : String) → HasRoot s.0.parent r x ↔ HasRoot d.parent r x
  pub distinct : Distinct s.1
  pub members : (x r : String) → Memᴰ x (group s.1 r) ↔ (Memᴰ x done × HasRoot d.parent r x)

pub Collected-start : (d : Dsu) → Valid d → Collected d [] (d, [])
unfolding GoMap.get_or
Collected-start d v = record {
  valid = v;
  same = λ x r. (λ h. h, λ h. h);
  distinct = tt;
  members = λ x r. (λ m. absurd (Memᴰ-nil m), λ (m, _). absurd (Memᴰ-nil m));
}

Collected-collect :
    (d : Dsu) (done : List String) (s : Dsu × GoMap String (List String)) (a : String) (n : ℕ)
    → Collected d done s
    → Collected d (done ++ a ∷ []) (collect s (a, n))
unfolding collect
Collected-collect d done (e, m) a n c =
    let f = find-Found e a c.valid in
    let root : String = (find e a).1 in
    let at_root : HasRoot d.parent root a = (c.same a root).0 f.root in
    record {
      valid = f.valid;
      same = λ x r.
          (λ h. (c.same x r).0 (Found-reflects c.valid f h), λ h. f.keeps x r ((c.same x r).1 h));
      distinct = Distinct-insert root (group m root ++ a ∷ []) m c.distinct;
      members = λ x r.
          rw (group-insert m root r (group m root ++ a ∷ [])) (elim (Bool-cases (root == r)) [
            | inl same ↦
                let q : root ≡ r = (==_iff root r).0 same in
                rw (same, ← q)
                  (
                    λ k. elim ((Memᴰ-concat x a (group m root)).0 k) [
                      | inl old ↦
                          let (was, h) = (c.members x root).0 old in (Memᴰ.append_left _ was, h)
                      | inr e ↦ (
                        Memᴰ.append_right done (Memᴰ.head e),
                        subst (HasRoot d.parent root) (sym e) at_root,
                      )
                    ],
                    λ (k, h). elim ((Memᴰ-concat x a done).0 k) [
                      | inl old ↦ Memᴰ.append_left _ ((c.members x root).1 (old, h))
                      | inr e ↦ Memᴰ.append_right (group m root) (Memᴰ.head e)
                    ],
                  )
            | inr other ↦ rw other (
              λ k. let (was, h) = (c.members x r).0 k in (Memᴰ.append_left _ was, h),
              λ (k, h). elim ((Memᴰ-concat x a done).0 k) [
                | inl old ↦ (c.members x r).1 (old, h)
                | inr e ↦
                    let q : root ≡ r = HasRoot-unique at_root (subst (HasRoot d.parent r) e h) in
                    ground (arith, ==_iff root r)
              ],
            )
          ]);
    }

pub Collected-foldl :
    (d : Dsu) (l : GoMap String ℕ) (done : List String) (s : Dsu × GoMap String (List String))
    → Collected d done s
    → Collected d (done ++ keys l) (foldl collect s l)
Collected-foldl d [] done s c = rw append-nil c
Collected-foldl d ((a, n) ∷ l) done s c =
    subst (λ done'. Collected d done' (foldl collect (collect s (a, n)) l))
      (append_assoc done (a ∷ []) (keys l))
      (Collected-foldl d l (done ++ a ∷ []) (collect s (a, n)) (Collected-collect d done s a n c))

mem-ends :
    (E : List (String × String)) (y z : String) → Memᴰ (y, z) E → Memᴰ y (ends E) × Memᴰ z (ends E)
mem-ends [] y z m = absurd (Memᴰ-nil m)
mem-ends ((a, b) ∷ E) y z (Memᴰ.head e) = (
  Memᴰ.head (ap (λ (p : String × String). p.0) e),
  Memᴰ.tail (Memᴰ.head (ap (λ (p : String × String). p.1) e)),
)
mem-ends ((a, b) ∷ E) y z (Memᴰ.tail m) =
    let (my, mz) = mem-ends E y z m in (Memᴰ.tail (Memᴰ.tail my), Memᴰ.tail (Memᴰ.tail mz))

pub ends-Connected :
    (E : List (String × String)) {a b : String}
    → Memᴰ a (ends E)
    → Connected E a b
    → Memᴰ b (ends E)
ends-Connected E m here = m
ends-Connected E m (forth {y} {z} c e) = (mem-ends E y z e).1
ends-Connected E m (back {y} {z} c e) = (mem-ends E z y e).0

module _ {F : Type 0} where
  abbrev pub addresses : Result F → List String
  addresses r = map (λ (m : Member F). m.address) r.members

  -- The two addresses are members of one of the clusters.
  abbrev pub Together : List (Result F) → String → String → Type 0
  Together rs a b = (r : Result F) × Memᴰ r rs × Memᴰ a (addresses r) × Memᴰ b (addresses r)

  pub member-addresses :
      (f : String → F) (l : List String)
      → map (λ (m : Member F). m.address) (map (λ a. record { address = a; confidence = f a }) l)
        ≡ l
  member-addresses f [] = refl
  member-addresses f (a ∷ l) = ap (λ t. a ∷ t) (member-addresses f l)

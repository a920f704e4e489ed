-- ===== src/Derive/Keys.antt =====
-- The transactions of a list of groups, and what one more delta makes of the groups.
use blockchain_clustering.Base.{
  ℕ, zero, suc, ◌≡◌, refl, ap, ◌↔◌, true, false, List, [], ◌∷◌, ◌++◌, Option, none, some, subst,
  arith, ◌==◌, ==_iff, string_eq, pair_eq, if◌then◌else◌, contains, contains-concat, All, length,
}
use blockchain_clustering.Domain.{BalanceDelta}
use blockchain_clustering.Derive.{TxKey, TxGroup, key_of, append_at}

-- The deltas of one transaction.
abbrev pub deltas_of : TxKey → List BalanceDelta → List BalanceDelta
deltas_of k [] = []
deltas_of k (d ∷ ds) = if key_of d == k then d ∷ deltas_of k ds else deltas_of k ds

abbrev pub group_keys : List TxGroup → List TxKey
group_keys [] = []
group_keys (g ∷ gs) = g.key ∷ group_keys gs

abbrev pub all_keys : List BalanceDelta → List TxKey
all_keys [] = []
all_keys (d ∷ ds) = key_of d ∷ all_keys ds

abbrev pub position : TxKey → List TxKey → Option ℕ
position k [] = none
position k (j ∷ js) =
    if j == k then some 0 else elim (position k js) [ none ↦ none | some i ↦ some (suc i) ]

pub deltas_of-concat :
    (k : TxKey) (ds : List BalanceDelta) (d : BalanceDelta)
    → deltas_of k (ds ++ d ∷ [])
      ≡ (if key_of d == k then deltas_of k ds ++ d ∷ [] else deltas_of k ds)
deltas_of-concat k [] d = refl
deltas_of-concat k (x ∷ ds) d = ground (arith, deltas_of-concat k ds d)

pub position-concat :
    (k j : TxKey) (js : List TxKey)
    → position k js ≡ none
    → position j (js ++ k ∷ []) ≡ (if k == j then some (length js) else position j js)
position-concat k j [] h = ground arith
position-concat k j (x ∷ js) h =
    ground (arith, position-concat k j js, ==_iff x j, ==_iff x k, ==_iff k j)

pub position-contains :
    (k : TxKey) (js : List TxKey) → (position k js ≡ none) ↔ (contains js k ≡ false)
position-contains k [] = (λ _. refl, λ _. refl)
position-contains k (x ∷ js) = ground (arith, position-contains k js)

abbrev pub Unique : List TxKey → Type 0
Unique [] = Unit
Unique (k ∷ ks) = (contains ks k ≡ false) × Unique ks

pub Unique-concat :
    (ks : List TxKey) (k : TxKey) → Unique ks → contains ks k ≡ false → Unique (ks ++ k ∷ [])
Unique-concat [] k u h = (refl, tt)
Unique-concat (x ∷ ks) k u h = (
  ground (arith, contains-concat ks k x, ==_iff x k, ==_iff k x),
  Unique-concat ks k u.1 (ground arith),
)

-- Each group holds the deltas of its key among `ds`.
abbrev pub Right : List BalanceDelta → List TxGroup → Type 0
Right ds = All (λ g. g.deltas ≡ deltas_of g.key ds)

pub group_keys-append_at :
    (gs : List TxGroup) (i : ℕ) (d : BalanceDelta) → group_keys (append_at gs i d) ≡ group_keys gs
unfolding append_at
group_keys-append_at [] i d = refl
group_keys-append_at (g ∷ gs) zero d = refl
group_keys-append_at (g ∷ gs) (suc i) d = ap (λ ks. g.key ∷ ks) (group_keys-append_at gs i d)

-- Groups of other transactions are not touched by d.
pub Right-other :
    (ds : List BalanceDelta) (d : BalanceDelta) (gs : List TxGroup)
    → contains (group_keys gs) (key_of d) ≡ false
    → Right ds gs
    → Right (ds ++ d ∷ []) gs
Right-other ds d [] h r = tt
Right-other ds d (g ∷ gs) h r = (
  ground (arith, deltas_of-concat g.key ds d, ==_iff g.key (key_of d), ==_iff (key_of d) g.key),
  Right-other ds d gs (ground arith) r.1,
)

pub Right-append_at :
    (ds : List BalanceDelta) (d : BalanceDelta) (gs : List TxGroup) (i : ℕ)
    → position (key_of d) (group_keys gs) ≡ some i
    → Unique (group_keys gs)
    → Right ds gs
    → Right (ds ++ d ∷ []) (append_at gs i d)
unfolding append_at
Right-append_at ds d [] i h u r = absurd (cc)
Right-append_at ds d (g ∷ gs) zero h u r =
    let here : (g.key == key_of d) ≡ true = ground arith in
    let same : g.key ≡ key_of d = (==_iff g.key (key_of d)).0 here in
    (
      ground (arith, deltas_of-concat g.key ds d, ==_iff (key_of d) g.key),
      Right-other ds d gs (subst (λ k. contains (group_keys gs) k ≡ false) same u.0) r.1,
    )
Right-append_at ds d (g ∷ gs) (suc i) h u r =
    let there : (g.key == key_of d) ≡ false = ground arith in
    (
      ground (arith, deltas_of-concat g.key ds d, ==_iff g.key (key_of d), ==_iff (key_of d) g.key),
      Right-append_at ds d gs i (ground arith) u.1 r.1,
    )

pub group_keys-append :
    (gs hs : List TxGroup) → group_keys (gs ++ hs) ≡ group_keys gs ++ group_keys hs
group_keys-append [] hs = refl
group_keys-append (g ∷ gs) hs = ap (λ ks. g.key ∷ ks) (group_keys-append gs hs)

pub length-group_keys : (gs : List TxGroup) → length (group_keys gs) ≡ length gs
length-group_keys [] = refl
length-group_keys (g ∷ gs) = ap suc (length-group_keys gs)

pub Right-concat :
    (ds : List BalanceDelta) (gs : List TxGroup) (g : TxGroup)
    → Right ds gs
    → g.deltas ≡ deltas_of g.key ds
    → Right ds (gs ++ g ∷ [])
Right-concat ds [] g r h = (h, tt)
Right-concat ds (x ∷ gs) g r h = (r.0, Right-concat ds gs g r.1 h)

-- ===== src/Derive/Spenders.antt =====
-- The deduplicated lists of addresses: each address once, exactly those asked for, in the order in
-- which they first occur.
use blockchain_clustering.Base.{
  String, ◌≡◌, refl, sym, ◌∙◌, ap, ◌⊎◌, inl, inr, ◌↔◌, true, false, List, [], ◌∷◌, ◌++◌, foldl,
  Memᴰ, Memᴰ-cons, Memᴰ-concat, Memᴰ-nil, subst, arith, string_eq, Bool-cases, if◌then◌else◌,
  contains, contains_iff, contains-concat,
}
use blockchain_clustering.Base.GoMap
use blockchain_clustering.Base.GoMap.{GoMap, get_or-insert}
use blockchain_clustering.Domain.{BalanceDelta}
use blockchain_clustering.Derive.{
  Deduped, first_occurrences, dedupe_onto, add_once, add_spender, nothing_seen, spent_addresses,
  spends, dedupe,
}

-- `seen` is the set of what has been put out.
pub record Tracks (s : Deduped) : Type 0 where
  pub at : (a : String) → GoMap.get_or a false s.seen ≡ contains s.out a

pub out-add_once :
    (a : String) (s : Deduped)
    → Tracks s
    → (add_once a s).out ≡ (if contains s.out a then s.out else s.out ++ a ∷ [])
unfolding add_once
out-add_once a s t = ground (arith, t.at a)

pub Tracks-add_once : (a : String) (s : Deduped) → Tracks s → Tracks (add_once a s)
unfolding add_once
Tracks-add_once a s t = elim (Bool-cases (GoMap.get_or a false s.seen)) [
  | inl old ↦ rw (old, add_once) t
  | inr new ↦
      rw (new, add_once)
        (record {
          at = λ b.
              ground
                (arith, get_or-insert false a b true s.seen, contains-concat s.out a b, t.at b);
        })
]

pub Tracks-nothing : Tracks nothing_seen
unfolding GoMap.get_or
Tracks-nothing = record { at = λ a. refl }

-- The addresses of the deltas that spend.
abbrev pub spenders : List BalanceDelta → List String
spenders [] = []
spenders (d ∷ ds) = if spends d then d.address ∷ spenders ds else spenders ds

foldl-add_once :
    (xs : List String) (s : Deduped)
    → Tracks s
    → (foldl (λ s a. add_once a s) s xs).out ≡ dedupe_onto s.out xs
foldl-add_once [] s t = refl
foldl-add_once (a ∷ xs) s t =
    foldl-add_once xs (add_once a s) (Tracks-add_once a s t)
    ∙ ap (λ out. dedupe_onto out xs) (out-add_once a s t)

foldl-add_spender :
    (ds : List BalanceDelta) (s : Deduped)
    → foldl add_spender s ds ≡ foldl (λ s a. add_once a s) s (spenders ds)
unfolding add_spender
foldl-add_spender [] s = refl
foldl-add_spender (d ∷ ds) s = elim (Bool-cases (spends d)) [
  | inl spent ↦ rw (spent, add_spender, spenders) (foldl-add_spender ds (add_once d.address s))
  | inr not_spent ↦ rw (not_spent, add_spender, spenders) (foldl-add_spender ds s)
]

mem-dedupe_onto :
    (xs out : List String) (a : String) → Memᴰ a (dedupe_onto out xs) ↔ (Memᴰ a out ⊎ Memᴰ a xs)
mem-dedupe_onto [] out a = (inl, elim [ inl m ↦ m | inr m ↦ absurd (Memᴰ-nil m) ])
mem-dedupe_onto (x ∷ xs) out a = elim (Bool-cases (contains out x)) [
  | inl old ↦
      let there : Memᴰ x out = (contains_iff out x).0 old in
      let same : a ≡ x → Memᴰ a out = λ e. subst (λ z. Memᴰ z out) (sym e) there in
      rw old (ground (arith, mem-dedupe_onto xs out a, Memᴰ-cons a x xs, same))
  | inr new ↦
      rw new (
        ground (arith, mem-dedupe_onto xs (out ++ x ∷ []) a, Memᴰ-cons a x xs, Memᴰ-concat a x out))
]

-- No address stands twice.
abbrev pub Unique : List String → Type 0
Unique [] = Unit
Unique (a ∷ xs) = (¬ Memᴰ a xs) × Unique xs

Unique-concat : (xs : List String) (a : String) → Unique xs → ¬ Memᴰ a xs → Unique (xs ++ a ∷ [])
Unique-concat [] a u n = (Memᴰ-nil, tt)
Unique-concat (x ∷ xs) a u n = (
  λ m. elim ((Memᴰ-concat x a xs).0 m) [ inl old ↦ u.0 old | inr e ↦ n (Memᴰ.head (sym e)) ],
  Unique-concat xs a u.1 (λ m. n (Memᴰ.tail m)),
)

Unique-dedupe_onto : (xs out : List String) → Unique out → Unique (dedupe_onto out xs)
Unique-dedupe_onto [] out u = u
Unique-dedupe_onto (x ∷ xs) out u = elim (Bool-cases (contains out x)) [
  | inl old ↦ rw old (Unique-dedupe_onto xs out u)
  | inr new ↦ rw new (
      Unique-dedupe_onto xs (out ++ x ∷ [])
        (Unique-concat out x u (λ m. cc (new, (contains_iff out x).1 m))))
]

dedupe-eq : (xs : List String) → dedupe xs ≡ first_occurrences xs
unfolding dedupe
dedupe-eq xs = foldl-add_once xs nothing_seen Tracks-nothing

-- The loop over strings keeps each of them once, where it first occurs.
pub dedupe_lem :
    (xs : List String)
    → (dedupe xs ≡ first_occurrences xs)
      × Unique (dedupe xs)
      × ((a : String) → Memᴰ a (dedupe xs) ↔ Memᴰ a xs)
dedupe_lem xs = rw dedupe-eq (
  refl,
  Unique-dedupe_onto xs [] tt,
  λ a. ground (arith, mem-dedupe_onto xs [] a, Memᴰ-nil {a = a}),
)

pub spent_addresses-eq :
    (ds : List BalanceDelta) → spent_addresses ds ≡ first_occurrences (spenders ds)
unfolding spent_addresses
spent_addresses-eq ds =
    ap (λ (s : Deduped). s.out) (foldl-add_spender ds nothing_seen)
    ∙ foldl-add_once (spenders ds) nothing_seen Tracks-nothing

-- `SpentAddresses` is the addresses of the deltas with a negative amount, each kept once, in the order
-- in which they first occur.
pub spent_addresses_lem :
    (ds : List BalanceDelta)
    → (spent_addresses ds ≡ first_occurrences (spenders ds))
      × Unique (spent_addresses ds)
      × ((a : String) → Memᴰ a (spent_addresses ds) ↔ Memᴰ a (spenders ds))
spent_addresses_lem ds = rw spent_addresses-eq (
  refl,
  Unique-dedupe_onto (spenders ds) [] tt,
  λ a. ground (arith, mem-dedupe_onto (spenders ds) [] a, Memᴰ-nil {a = a}),
)

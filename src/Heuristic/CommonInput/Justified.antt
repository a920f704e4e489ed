-- ===== src/Heuristic/CommonInput/Justified.antt =====
-- blockchain_cluster/internal/heuristic/commoninput.go: what every candidate rests on.
use mathlib.Core.List.{append_assoc, append-nil}
use mathlib.Core.List.Memᴰ
use blockchain_clustering.Base.{
  ◌≡◌, ◌≢◌, refl, ◌∙◌, sym, subst, inl, inr, String, Bool, true, false, List, [], ◌∷◌, ◌++◌, some,
  map, find_first, select, Memᴰ, All-of-mem, Memᴰ-append, Memᴰ-nil, mem-select, Bool-cases,
  if◌then◌else◌, any, arith, string_eq, pair_eq, not,
}
use blockchain_clustering.Base.Float.{Float64}
use blockchain_clustering.Db.{Db, World, ok, fold_m}
use blockchain_clustering.Db.Yields.{
  Yields, Yields-along, Yields-bind, Yields-fail, Yields-fold, Yields-if, Yields-list, Yields-pure,
  Yields-query, yielded,
}
use blockchain_clustering.Derive.{TxGroup, TxKey, group_by_tx, spent_addresses}
use blockchain_clustering.Derive.Groups.{group_by_tx_lem}
use blockchain_clustering.Derive.Keys.{deltas_of}
use blockchain_clustering.Derive.Spenders.{Unique, spenders, spent_addresses_lem}
use blockchain_clustering.Domain.{BalanceDelta, MergeCandidate}
use blockchain_clustering.Heuristic.{candidate, first_delta}
use blockchain_clustering.Heuristic.CommonInput.{
  anchored, common_input, common_input_tx, keep_non_hub,
}
use blockchain_clustering.Merge.Laws.{hub_flag}
use blockchain_clustering.Stores.Addresses
use blockchain_clustering.Stores.Addresses.{get, is_hub}
use blockchain_clustering.Stores.Excluded.{at_key, is_excluded}
use blockchain_clustering.Stores.Registry.{confidence_for, config_for}

Unique-select : (p : String → Bool) (xs : List String) → Unique xs → Unique (select p xs)
Unique-select p [] u = tt
Unique-select p (x ∷ xs) u = elim (Bool-cases (p x)) [
  | inl taken ↦ rw taken (λ m. u.0 ((mem-select p x xs).0 m).0, Unique-select p xs u.1)
  | inr left ↦ rw left (Unique-select p xs u.1)
]

append_unless :
    (b : Bool) (ins : List String) (a : String) (rest all : List String)
    → ins ++ (if not b then a ∷ rest else rest) ≡ all
    → (if b then ins else ins ++ a ∷ []) ++ rest ≡ all
append_unless true ins a rest all h = h
append_unless false ins a rest all h = append_assoc ins (a ∷ []) rest ∙ h

module _ {F : Type 0} (d : Db F) where
  pub Yields-is_hub :
      (chain_id addr : String) → Yields d (λ b. b ≡ hub_flag d chain_id addr) (is_hub chain_id addr)
  unfolding is_hub get
  Yields-is_hub chain_id addr =
      Yields-bind (λ found. found ≡ find_first (Addresses.at_key chain_id addr) d.address) _ _
        (Yields-query _ refl) (λ found same. Yields-pure _ (rw same refl))

  -- Whether a transaction is excluded.
  abbrev pub excluded_flag : TxKey → Bool
  excluded_flag tx = any (at_key tx.0 tx.1) d.excluded_tx

  pub Yields-is_excluded :
      (tx : TxKey) → Yields d (λ b. b ≡ excluded_flag tx) (is_excluded tx.0 tx.1)
  unfolding is_excluded
  Yields-is_excluded tx = Yields-query _ refl

  pub Yields-first_delta : (tx : TxGroup) → Yields d (λ _. Unit {0}) (first_delta {F = F} tx)
  unfolding first_delta
  Yields-first_delta tx = Yields-list tx.deltas _ _ (Yields-fail _) (λ x _ e. Yields-pure x tt)

  -- A transaction of the batch that is not excluded spends from both addresses, which differ, and
  -- neither of which is a hub.
  pub record SpentTogether (deltas : List BalanceDelta) (c : MergeCandidate F) : Type 0 where
    pub tx_id : String
    pub of_tx : c.source_tx_id ≡ some tx_id
    pub kept : excluded_flag (c.chain_id, tx_id) ≡ false
    pub spends_a : Memᴰ c.address_a (spenders (deltas_of (c.chain_id, tx_id) deltas))
    pub spends_b : Memᴰ c.address_b (spenders (deltas_of (c.chain_id, tx_id) deltas))
    pub differ : c.address_a ≢ c.address_b
    pub no_hub_a : hub_flag d c.chain_id c.address_a ≡ false
    pub no_hub_b : hub_flag d c.chain_id c.address_b ≡ false

  abbrev Sound : List BalanceDelta → List (MergeCandidate F) → Type 0
  Sound deltas cs = (c : MergeCandidate F) → Memᴰ c cs → SpentTogether deltas c

  abbrev no_hub : String → String → Bool
  no_hub chain_id a = not (hub_flag d chain_id a)

  kept_exact :
      (chain_id : String) (xs : List String)
      → Yields d
          (λ ins. ins ++ [] ≡ select (no_hub chain_id) xs)
          (fold_m (keep_non_hub chain_id) [] xs)
  unfolding keep_non_hub
  kept_exact chain_id xs =
      Yields-along (λ ins rest. ins ++ select (no_hub chain_id) rest ≡ select (no_hub chain_id) xs)
        (keep_non_hub chain_id) [] xs
        (λ ins a rest same.
          Yields-bind (λ b. b ≡ hub_flag d chain_id a) _ _ (Yields-is_hub chain_id a)
            (λ b is_flag. Yields-pure _ (
              append_unless b ins a _ _ (
                subst
                  (λ t.
                    ins
                      ++ (if not t
                          then a ∷ select (no_hub chain_id) rest
                          else select (no_hub chain_id) rest)
                    ≡ select (no_hub chain_id) xs)
                  (sym is_flag) same))))
        refl

  -- A spender that is no hub.
  abbrev Eligible : TxGroup → String → Type 0
  Eligible tx a = Memᴰ a (spenders tx.deltas) × (hub_flag d tx.key.0 a ≡ false)

  eligible :
      (tx : TxGroup) (a : String)
      → Memᴰ a (select (no_hub tx.key.0) (spent_addresses tx.deltas))
      → Eligible tx a
  eligible tx a m =
      let (spent, free) = (mem-select (no_hub tx.key.0) a _).0 m in
      (((spent_addresses_lem tx.deltas).2 a).0 spent, ground arith)

  Sound-append :
      (deltas : List BalanceDelta) (cs new : List (MergeCandidate F))
      → Sound deltas cs
      → Sound deltas new
      → Sound deltas (cs ++ new)
  Sound-append deltas cs new h k c m = elim ((Memᴰ-append c cs new).0 m) [
    | inl old ↦ h c old
    | inr fresh ↦ k c fresh
  ]

  pairs-Sound :
      (deltas : List BalanceDelta) (tx : TxGroup) (first : BalanceDelta) (confidence : F)
      (anchor : String) (others : List String)
      → tx.deltas ≡ deltas_of tx.key deltas
      → excluded_flag tx.key ≡ false
      → Unique (anchor ∷ others)
      → ((a : String) → Memᴰ a (anchor ∷ others) → Eligible tx a)
      → Sound deltas (map (candidate tx first "common-input" confidence anchor) others)
  pairs-Sound deltas tx first confidence anchor others own kept unique all c m =
      let (b, at, is) =
        Memᴰ.of_map (candidate tx first "common-input" confidence anchor) others m in
      let (spends_a, free_a) = all anchor (Memᴰ.head refl) in
      let (spends_b, free_b) = all b (Memᴰ.tail at) in
      let made : SpentTogether deltas (candidate tx first "common-input" confidence anchor b) =
        record {
          tx_id = tx.key.1;
          of_tx = refl;
          kept = kept;
          spends_a = subst (λ ds. Memᴰ anchor (spenders ds)) own spends_a;
          spends_b = subst (λ ds. Memᴰ b (spenders ds)) own spends_b;
          differ = λ same. unique.0 (subst (λ x. Memᴰ x others) (sym same) at);
          no_hub_a = free_a;
          no_hub_b = free_b;
        } in
      subst (SpentTogether deltas) is made

  anchored-Sound :
      (deltas : List BalanceDelta) (tx : TxGroup) (confidence : F) (cs : List (MergeCandidate F))
      (ins : List String)
      → tx.deltas ≡ deltas_of tx.key deltas
      → excluded_flag tx.key ≡ false
      → Unique ins
      → ((a : String) → Memᴰ a ins → Eligible tx a)
      → Sound deltas cs
      → Yields d (Sound deltas) (anchored tx confidence cs ins)
  unfolding anchored
  anchored-Sound deltas tx confidence cs [] own kept unique all h = Yields-pure cs h
  anchored-Sound deltas tx confidence cs (anchor ∷ []) own kept unique all h = Yields-pure cs h
  anchored-Sound deltas tx confidence cs (anchor ∷ b ∷ rest) own kept unique all h =
      Yields-bind (λ _. Unit {0}) _ _ (Yields-first_delta tx)
        (λ first _. Yields-pure _ (
          Sound-append deltas cs _ h
            (pairs-Sound deltas tx first confidence anchor (b ∷ rest) own kept unique all)))

  common_input_tx-Sound :
      (deltas : List BalanceDelta) (confidence : F) (cs : List (MergeCandidate F)) (tx : TxGroup)
      → tx.deltas ≡ deltas_of tx.key deltas
      → Sound deltas cs
      → Yields d (Sound deltas) (common_input_tx confidence cs tx)
  unfolding common_input_tx
  common_input_tx-Sound deltas confidence cs tx own h =
      Yields-bind (λ b. b ≡ excluded_flag tx.key) _ _ (Yields-is_excluded tx.key)
        (λ b is_flag.
          Yields-if b _ _ (λ _. Yields-pure cs h)
            (λ taken.
              Yields-bind (λ ins. ins ++ [] ≡ select (no_hub tx.key.0) (spent_addresses tx.deltas))
                _ _ (kept_exact tx.key.0 (spent_addresses tx.deltas))
                (λ ins exact.
                  let same = sym (append-nil ins) ∙ exact in
                  anchored-Sound deltas tx confidence cs ins own (sym is_flag ∙ taken)
                    (subst Unique (sym same) (Unique-select _ _ (spent_addresses_lem tx.deltas).1))
                    (λ a m. eligible tx a (subst (λ l. Memᴰ a l) same m)) h)))

module _ {F : Type 0} ⦃fl : Float64 F⦄ where
  Yields-confidence_for :
      (d : Db F) (chain_id key : String)
      → Yields d (λ _. Unit {0}) (confidence_for {F = F} chain_id key)
  unfolding confidence_for config_for
  Yields-confidence_for d chain_id key =
      Yields-bind (λ _. Unit {0}) _ _ (Yields-query _ tt) (λ found _. Yields-pure _ tt)

  common_input-Sound :
      (d : Db F) (deltas : List BalanceDelta) → Yields d (Sound d deltas) (common_input deltas)
  unfolding common_input
  common_input-Sound d [] = Yields-pure [] (λ c m. absurd (Memᴰ-nil m))
  common_input-Sound d (x ∷ xs) =
      Yields-bind (λ _. Unit {0}) _ _ (Yields-confidence_for d x.chain_id "common-input")
        (λ (confidence, enabled) _.
          Yields-if enabled _ _
            (λ _.
              Yields-fold (Sound d (x ∷ xs)) _ [] (group_by_tx (x ∷ xs))
                (λ cs tx m h.
                  common_input_tx-Sound d (x ∷ xs) confidence cs tx
                    (All-of-mem _ _ (group_by_tx_lem (x ∷ xs)).1 tx m) h)
                (λ c m. absurd (Memᴰ-nil m)))
            (λ _. Yields-pure [] (λ c m. absurd (Memᴰ-nil m))))

  -- Every candidate that the engine `common-input` returns names a transaction of the batch that is not
  -- excluded and that spends from both of its addresses, which differ, and of which neither is a hub.
  pub common_input_lem :
      (deltas : List BalanceDelta) (w : World F) (cs : List (MergeCandidate F))
      (c : MergeCandidate F)
      → (common_input deltas w).0 ≡ ok cs
      → Memᴰ c cs
      → SpentTogether w.db deltas c
  common_input_lem deltas w cs c fine = yielded (common_input-Sound w.db deltas) w refl cs fine c

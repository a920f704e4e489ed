-- ===== src/Derive.antt =====
-- blockchain_cluster/internal/ingestor/derive.go: grouping deltas by transaction, and the spenders
-- and the recipients of a transaction.
pub mod Keys
pub mod Groups
pub mod Spenders
use blockchain_clustering.Base.{
  ℕ, zero, suc, String, Bool, true, false, List, [], ◌∷◌, ◌++◌, Option, none, some, foldl, ◌==◌,
  string_eq, pair_eq, if◌then◌else◌, length, Eq, contains,
}
use blockchain_clustering.Base.Int.{ℤ, is_pos, is_neg}
use blockchain_clustering.Base.GoMap
use blockchain_clustering.Base.GoMap.{GoMap}
use blockchain_clustering.Domain.{BalanceDelta}

-- chain id and txid
abbrev pub TxKey : Type 0
TxKey = String × String

pub record TxGroup : Type 0 where
  pub key : TxKey
  pub deltas : List BalanceDelta

abbrev pub key_of : BalanceDelta → TxKey
key_of d = (d.chain_id, d.tx_id)

pub record Grouping : Type 0 where
  pub index : GoMap TxKey ℕ
  pub groups : List TxGroup

-- groups[i].Deltas = append(groups[i].Deltas, d); an index out of range would panic
unfoldable pub append_at : List TxGroup → ℕ → BalanceDelta → List TxGroup
append_at [] i d = []
append_at (g ∷ gs) zero d = record g { deltas = g.deltas ++ d ∷ [] } ∷ gs
append_at (g ∷ gs) (suc i) d = g ∷ append_at gs i d

unfoldable pub add_delta : Grouping → BalanceDelta → Grouping
add_delta s d = elim (GoMap.lookup (key_of d) s.index) [
  | some i ↦ record s { groups = append_at s.groups i d }
  | none ↦ record {
    index = GoMap.insert (key_of d) (length s.groups) s.index;
    groups = s.groups ++ record { key = key_of d; deltas = d ∷ [] } ∷ [];
  }
]

unfoldable pub group_by_tx : List BalanceDelta → List TxGroup
group_by_tx deltas = (foldl add_delta (record { index = []; groups = [] }) deltas).groups

-- An append to `out` guarded by a `seen` map.
pub record Deduped : Type 0 where
  pub seen : GoMap String Bool
  pub out : List String

unfoldable pub add_once : String → Deduped → Deduped
add_once a s = elim (GoMap.get_or a false s.seen) [
  | true ↦ s
  | false ↦ record { seen = GoMap.insert a true s.seen; out = s.out ++ a ∷ [] }
]

abbrev pub nothing_seen : Deduped
nothing_seen = record { seen = []; out = [] }

-- The loop of `txAddresses`, `addressesIn` and `dedupeStrings`, which are one function in three
-- packages.
unfoldable pub dedupe : List String → List String
unfolding add_once
dedupe addresses = (foldl (λ s a. add_once a s) nothing_seen addresses).out

abbrev pub spends : BalanceDelta → Bool
spends d = elim d.amount [ none ↦ false | some n ↦ is_neg n ]

abbrev pub receives : BalanceDelta → Bool
receives d = elim d.amount [ none ↦ false | some n ↦ is_pos n ]

unfoldable pub add_spender : Deduped → BalanceDelta → Deduped
unfolding add_once
add_spender s d = if spends d then add_once d.address s else s

unfoldable pub spent_addresses : List BalanceDelta → List String
spent_addresses deltas = (foldl add_spender nothing_seen deltas).out

pub record ReceivedEntry : Type 0 where
  pub address : String
  pub amount : ℤ

unfoldable pub received_entries : List BalanceDelta → List ReceivedEntry
received_entries [] = []
received_entries (d ∷ ds) = elim d.amount [
  | none ↦ received_entries ds
  | some n ↦
      (if is_pos n
        then record { address = d.address; amount = n } ∷ received_entries ds
        else received_entries ds)
]

-- The elements of a list, each kept where it first occurs: what the guarded appends compute.
module _ {ℓ} {A : Type ℓ} ⦃e : Eq A⦄ where
  abbrev pub dedupe_onto : List A → List A → List A
  dedupe_onto out [] = out
  dedupe_onto out (a ∷ rest) = dedupe_onto (if contains out a then out else out ++ a ∷ []) rest

  abbrev pub first_occurrences : List A → List A
  first_occurrences = dedupe_onto []

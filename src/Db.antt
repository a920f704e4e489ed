-- ===== src/Db.antt =====
-- The PostgreSQL schema `clustering` (blockchain_cluster/migrations/0001_init.sql) as far as the Go
-- code reads and writes it, and the calls on a pool: every statement either runs whole or fails and
-- changes nothing, and `faults` says which of the calls to come fail. A failure stands for a lost
-- connection, a cancelled context or a constraint of the schema. Only that a call failed is
-- modelled, and where, not the text of the error.
pub mod Respects
pub mod Effects
pub mod Atomic
pub mod Reads
pub mod Yields
use blockchain_clustering.Base.{
  ℕ, String, Bool, true, false, List, [], ◌∷◌, Option, none, some, if◌then◌else◌,
}
use blockchain_clustering.Base.Int.{ℤ}
use blockchain_clustering.Base.Json.{RawMessage}
use blockchain_clustering.Domain.{
  BalanceDelta, MergeEvidence, Cluster, ClusterMembership, Address, SweepTarget, Label,
}

pub record ExcludedTx (F : Type 0) : Type 0 where
  pub chain_id : String
  pub tx_id : String
  pub reason : String
  pub detector_confidence : F
  pub signal : Option String

pub record ChainRow : Type 0 where
  pub chain_id : String
  pub config : RawMessage
  pub enabled : Bool

pub record HeuristicRow (F : Type 0) : Type 0 where
  pub heuristic_key : String
  pub default_confidence : F

pub record ChainHeuristicRow (F : Type 0) : Type 0 where
  pub chain_id : String
  pub heuristic_key : String
  pub enabled : Bool
  pub confidence_override : Option F
  pub params : RawMessage

pub record IngestCursor : Type 0 where
  pub chain_id : String
  pub source : String
  pub position : String

-- `reorgTarget`, the only target that is logged
pub record AuditTarget : Type 0 where
  pub chain_id : String
  pub op_id : ℕ
  pub block_hash : String

pub record AuditEntry : Type 0 where
  pub actor : String
  pub action : String
  pub target : AuditTarget
  pub rationale : String

pub record Db (F : Type 0) : Type 0 where
  pub balance_delta : List BalanceDelta
  pub address : List (Address F)
  pub merge_evidence : List (MergeEvidence F)
  pub merge_op_seq : ℕ
  pub cluster : List (Cluster F)
  pub cluster_membership : List (ClusterMembership F)
  pub excluded_tx : List (ExcludedTx F)
  pub label : List (Label F)
  pub label_seq : ℕ
  pub sweep_target : List (SweepTarget F)
  pub chain : List ChainRow
  pub heuristic : List (HeuristicRow F)
  pub chain_heuristic : List (ChainHeuristicRow F)
  pub ingest_cursor : List IngestCursor
  pub audit_log : List AuditEntry
  pub now : ℕ

pub record World (F : Type 0) : Type 0 where
  pub db : Db F
  pub faults : List Bool

pub data Error : Type 0 where
  database invalid_argument not_integer bad_message not_registered bad_config panicked : Error

pub data Result {ℓ} (A : Type ℓ) : Type ℓ where
  ok : A → Result A
  err : Error → Result A

-- A method that may return an error; what it wrote before stays written.
abbrev pub Exec : Type 0 → Type 0 → Type 0
Exec F A = World F → Result A × World F

-- Whether the next call fails, and the world after it was made.
abbrev pub next_fault : List Bool → Bool
next_fault [] = false
next_fault (b ∷ _) = b

abbrev pub later_faults : List Bool → List Bool
later_faults [] = []
later_faults (_ ∷ bs) = bs

module _ {F A : Type 0} where
  unfoldable pub pure : A → Exec F A
  pure a w = (ok a, w)

  unfoldable pub fail : Error → Exec F A
  fail e w = (err e, w)

module _ {F A : Type 0} where
  -- One statement: its result and the tables after it.
  unfoldable pub statement : (Db F → A × Db F) → Exec F A
  statement f w =
      if next_fault w.faults
      then (err database, record w { faults = later_faults w.faults })
      else (let (a, db') = f w.db in (ok a, record w { db = db'; faults = later_faults w.faults }))

  -- A statement that only reads.
  unfoldable pub query : (Db F → A) → Exec F A
  unfolding statement
  query f = statement (λ db. (f db, db))

module _ {F : Type 0} where
  -- A statement that only writes.
  unfoldable pub exec : (Db F → Db F) → Exec F (Unit {0})
  unfolding statement
  exec f = statement (λ db. (tt, f db))

module _ {F : Type 0} where
  -- `time.Now()`, on the clock that the database shows too
  unfoldable pub time_now : Exec F ℕ
  time_now w = (ok w.db.now, w)

module _ {F A B : Type 0} where
  abbrev pub continue : Result A → (A → Exec F B) → Exec F B
  continue (ok a) f w = f a w
  continue (err e) f w = (err e, w)

  infixl 5 ◌>>=◌ ◌>>◌
  unfoldable pub ◌>>=◌ : Exec F A → (A → Exec F B) → Exec F B
  ◌>>=◌ m f w = let (r, w') = m w in continue r f w'

  abbrev pub ◌>>◌ : Exec F A → Exec F B → Exec F B
  m >> n = m >>= λ _. n

module _ {F A S : Type 0} where
  -- `for _, a := range as { … }` over a loop state, left at the first error.
  unfoldable pub fold_m : (S → A → Exec F S) → S → List A → Exec F S
  fold_m f s [] w = (ok s, w)
  fold_m f s (a ∷ rest) w = let (r, w') = f s a w in continue r (λ s'. fold_m f s' rest) w'

-- A transaction. Its statements are calls like any other; an error, or a commit that fails, takes the
-- tables back to where they were. Rolling back is best effort in the code, whose result it ignores:
-- the connection's end rolls back too.
module _ {F A : Type 0} where
  abbrev pub settle : Db F → Result A → World F → Result A × World F
  settle before (ok a) w =
      if next_fault w.faults
      then (err database, record w { db = before; faults = later_faults w.faults })
      else (ok a, record w { faults = later_faults w.faults })
  settle before (err e) w = (err e, record w { db = before })

  unfoldable pub transaction : Exec F A → Exec F A
  transaction m w =
      if next_fault w.faults
      then (err database, record w { faults = later_faults w.faults })
      else (let (r, w') = m (record w { faults = later_faults w.faults }) in settle w.db r w')

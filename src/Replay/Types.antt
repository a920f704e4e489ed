-- ===== src/Replay/Types.antt =====
-- blockchain_cluster/internal/cluster/replay.go: the types of `Replay` and its results, and the text
-- of an op_id and of a cluster id.
use blockchain_clustering.Base.{
  ℕ, ◌/◌, ◌%◌, String, Bool, List, [], ◌∷◌, ◌==◌, string_eq, nat_eq, ltb, if◌then◌else◌, string_leb,
  Permᴰ, ◌<>◌, take,
}
use blockchain_clustering.Base.Decimal.{digit}
use blockchain_clustering.Base.GoMap.{GoMap}
use blockchain_clustering.UnionFind.{Dsu}

abbrev pub PairKey : Type 0
PairKey = String × String

unfoldable pub normalize_pair : String → String → PairKey
normalize_pair a b = if string_leb a b then (a, b) else (b, a)

pub record Member (F : Type 0) : Type 0 where
  pub address : String
  pub confidence : F

pub record Result (F : Type 0) : Type 0 where
  pub cluster_id : String
  pub anchor_address : String
  pub size : ℕ
  pub representative_confidence : F
  pub members : List (Member F)

pub record PairEvidence (F : Type 0) : Type 0 where
  pub first_order : ℕ
  pub by_source : GoMap String F

pub record CombinedEdge (F : Type 0) : Type 0 where
  pub key : PairKey
  pub confidence : F
  pub first_order : ℕ

pub record Edge (F : Type 0) : Type 0 where
  pub to : String
  pub confidence : F

-- The orders in which Go happens to range over the four maps of `Replay`.
pub record MapOrder (F : Type 0) : Type 0 where
  pub pairs : GoMap PairKey (PairEvidence F) → GoMap PairKey (PairEvidence F)
  pub sources : PairKey → GoMap String F → GoMap String F
  pub seen : GoMap String ℕ → GoMap String ℕ
  pub components : GoMap String (List String) → GoMap String (List String)
  pub pairs-perm : (m : GoMap PairKey (PairEvidence F)) → Permᴰ m (pairs m)
  pub sources-perm : (k : PairKey) (m : GoMap String F) → Permᴰ m (sources k m)
  pub seen-perm : (m : GoMap String ℕ) → Permᴰ m (seen m)
  pub components-perm : (m : GoMap String (List String)) → Permᴰ m (components m)

-- The maps and counters of the first loop.
pub record Gathered (F : Type 0) : Type 0 where
  pub first_seen : GoMap String ℕ
  pub next_order : ℕ
  pub pairs : GoMap PairKey (PairEvidence F)
  pub stream_index : ℕ

-- The forest and the adjacency lists of the second loop.
pub record United (F : Type 0) : Type 0 where
  pub dsu : Dsu
  pub adjacency : GoMap String (List (Edge F))

-- The variables of the walk from a cluster's anchor.
pub record Walk (F : Type 0) : Type 0 where
  pub confidence : GoMap String F
  pub visited : GoMap String Bool
  pub queue : List String

-- One hexadecimal digit, and `hex.EncodeToString`.
hex_digit : ℕ → String
unfolding digit
hex_digit n =
    if ltb n 10
    then digit n
    else if n == 10
    then "a"
    else if n == 11
    then "b"
    else if n == 12
    then "c"
    else if n == 13
    then "d"
    else if n == 14
    then "e"
    else "f"

unfoldable pub encode_hex : List ℕ → String
unfolding hex_digit
encode_hex [] = ""
encode_hex (b ∷ bs) = (hex_digit (b / 16) <> hex_digit (b % 16)) <> encode_hex bs

-- `deriveClusterID`, over the bytes of crypto/sha256
unfoldable pub derive_cluster_id : (String → List ℕ) → String → String
unfolding encode_hex
derive_cluster_id sha256 anchor = encode_hex (take 16 (sha256 anchor))

-- ===== src/QueryService.antt =====
-- blockchain_cluster/internal/queryservice: router.go and handlers.go, and the probe of
-- cmd/server/main.go. A request is what chi and net/url give of it: the parameters of its path, and the
-- first value of each parameter of its query. A reply is its status and its body before the encoding;
-- net/http drops the connection of a handler that panics. `parse_float` is `strconv.ParseFloat`, and
-- `collate` the order in which the database sorts text.
pub mod Reads
use blockchain_clustering.Base.{
  ℕ, String, Bool, true, false, List, [], ◌∷◌, Option, none, some, ◌==◌, string_eq, if◌then◌else◌,
  ◌&&◌, ◌||◌, not,
}
use blockchain_clustering.Base.Decimal.{parse_int}
use blockchain_clustering.Base.Float.{Float64, float}
use blockchain_clustering.Base.GoMap
use blockchain_clustering.Base.GoMap.{GoMap}
use blockchain_clustering.Base.Int.{ℤ, pos}
use blockchain_clustering.Base.Json.{in_range}
use blockchain_clustering.Clusters.{cluster_of, members_of, same_cluster}
use blockchain_clustering.Db.{
  Error, Exec, Result, World, ok, err, query, pure, database, panicked, ◌>>=◌,
}
use blockchain_clustering.Domain.{Address, Label, MergeEvidence}
use blockchain_clustering.Replay.{MapOrder}
use blockchain_clustering.Stores.Addresses.{get}
use blockchain_clustering.Stores.Evidence.{by_address_pair, by_addresses}
use blockchain_clustering.Stores.Labels.{labels_of}

pub record Request : Type 0 where
  pub chain : String
  pub address : String
  pub cluster_id : String
  pub query : GoMap String String

-- The message of a handler, or the text of an error.
pub data Message : Type 0 where
  text : String → Message
  text_of : Error → Message

pub data Body (F : Type 0) : Type 0 where
  cluster_body : String → F → Body F
  members_body : String → List String → Body F
  same_body : Bool → F → Body F
  evidence_body : List (MergeEvidence F) → Body F
  labels_body : List (Label F) → Body F
  hub_body : Bool → Option String → Option F → Body F
  error_body : Message → Body F
  plain_body : String → Body F
  no_body : Body F

pub data Reply (F : Type 0) : Type 0 where
  replied : ℕ → Body F → Reply F
  dropped : Reply F

-- `r.URL.Query().Get(k)`
unfoldable pub query_param : String → Request → String
query_param k r = GoMap.get_or k "" r.query

-- `strconv.Atoi`, none on an error
unfoldable pub atoi : String → Option ℤ
atoi s = elim (parse_int s) [ none ↦ none | some n ↦ if in_range 63 n then some n else none ]

unfoldable pub int_param : String → ℤ → Request → Option ℤ
unfolding query_param atoi
int_param k d r = let raw = query_param k r in if raw == "" then some d else atoi raw

unfoldable pub pagination_params : Request → Option (ℤ × ℤ)
unfolding int_param
pagination_params r = elim (int_param "limit" (pos 100) r) [
  | none ↦ none
  | some limit ↦ elim (int_param "offset" (pos 0) r) [
    | none ↦ none
    | some offset ↦ some (limit, offset)
  ]
]

pub data Endpoint : Type 0 where
  cluster_endpoint address_labels_endpoint hub_status_endpoint : Endpoint
  members_endpoint cluster_labels_endpoint : Endpoint
  same_cluster_endpoint evidence_endpoint : Endpoint

-- The table of GET routes, below "/v1/chains/{chain}".
abbrev pub routes : List (String × Endpoint)
routes =
    ("/addresses/{address}/cluster", cluster_endpoint)
    ∷ ("/addresses/{address}/labels", address_labels_endpoint)
    ∷ ("/addresses/{address}/hub-status", hub_status_endpoint)
    ∷ ("/clusters/{clusterID}/members", members_endpoint)
    ∷ ("/clusters/{clusterID}/labels", cluster_labels_endpoint)
    ∷ ("/same-cluster", same_cluster_endpoint)
    ∷ ("/evidence", evidence_endpoint)
    ∷ []

module _ {F : Type 0} where
  abbrev pub write_error : ℕ → Message → Reply F
  write_error status message = replied status (error_body message)

  abbrev pub bad_request : String → Reply F
  bad_request message = write_error 400 (text message)

  -- `if err != nil { writeError(w, 500, err.Error()); return }`
  abbrev pub failed : Error → Reply F
  failed panicked = dropped
  failed e = write_error 500 (text_of e)

module _ {F A : Type 0} where
  abbrev pub reply_with : (A → Reply F) → Result A → Reply F
  reply_with k (ok a) = k a
  reply_with k (err e) = failed e

  -- A call of a store, and what the handler writes of its result.
  unfoldable pub answer : Exec F A → (A → Reply F) → World F → Reply F × World F
  answer m k w = let (r, w') = m w in (reply_with k r, w')

module _ {F : Type 0} where
  -- A reply before any call.
  abbrev pub refuse : Reply F → World F → Reply F × World F
  refuse reply w = (reply, w)

  abbrev pub labels_reply : List (Label F) → Reply F
  labels_reply labels = replied 200 (labels_body labels)

  unfoldable pub handle_labels_of_cluster : Request → World F → Reply F × World F
  unfolding answer
  handle_labels_of_cluster r = answer (labels_of r.chain "cluster" r.cluster_id) labels_reply

  unfoldable pub handle_labels_of_address : Request → World F → Reply F × World F
  unfolding answer
  handle_labels_of_address r = answer (labels_of r.chain "address" r.address) labels_reply

  abbrev pub hub_reply : Option (Address F) → Reply F
  hub_reply none = write_error 404 (text "address not seen")
  hub_reply (some a) = replied 200 (hub_body a.is_hub a.hub_type a.hub_confidence)

  unfoldable pub handle_hub_status : Request → World F → Reply F × World F
  unfolding answer
  handle_hub_status r = answer (get r.chain r.address) hub_reply

  -- `pool.Ping`, of the probe "/healthz"
  unfoldable pub healthz : World F → Reply F × World F
  healthz w =
      let (r, w') = query (λ _. tt {0}) w in
      (elim r [ ok _ ↦ replied 200 (plain_body "ok") | err _ ↦ replied 503 no_body ], w')

module _ {F : Type 0} ⦃fl : Float64 F⦄ (sha256 : String → List ℕ) (order : MapOrder F)
    (collate : String → String → Bool) (parse_float : String → Option F) where
  unfoldable pub min_confidence_param : Request → Option F
  min_confidence_param r =
      let raw = query_param "min_confidence" r in
      if raw == "" then some (float 0) else parse_float raw

  abbrev pub cluster_reply : Option (String × F) → Reply F
  cluster_reply none = write_error 404 (text "address has no cluster at this confidence threshold")
  cluster_reply (some (cluster_id, confidence)) = replied 200 (cluster_body cluster_id confidence)

  unfoldable pub handle_cluster_of : Request → World F → Reply F × World F
  unfolding answer min_confidence_param
  handle_cluster_of r = elim (min_confidence_param r) as (λ _. World F → Reply F × World F) [
    | none ↦ refuse (bad_request "invalid min_confidence")
    | some min_confidence ↦
        answer (cluster_of sha256 order r.chain r.address min_confidence) cluster_reply
  ]

  unfoldable pub handle_members_of : Request → World F → Reply F × World F
  unfolding answer min_confidence_param
  handle_members_of r = elim (min_confidence_param r) as (λ _. World F → Reply F × World F) [
    | none ↦ refuse (bad_request "invalid min_confidence")
    | some min_confidence ↦ elim (pagination_params r) as (λ _. World F → Reply F × World F) [
      | none ↦ refuse (bad_request "invalid limit/offset")
      | some (limit, offset) ↦
          answer (members_of sha256 order collate r.chain r.cluster_id min_confidence limit offset)
            (λ members. replied 200 (members_body r.cluster_id members))
    ]
  ]

  unfoldable pub handle_same_cluster : Request → World F → Reply F × World F
  unfolding answer min_confidence_param
  handle_same_cluster r =
      let a = query_param "a" r in
      let b = query_param "b" r in
      if a == "" || b == ""
      then refuse (bad_request "both ?a= and ?b= are required")
      else (elim (min_confidence_param r) as (λ _. World F → Reply F × World F) [
        | none ↦ refuse (bad_request "invalid min_confidence")
        | some min_confidence ↦
            answer (same_cluster sha256 order r.chain a b min_confidence)
              (λ (same, confidence). replied 200 (same_body same confidence))
      ])

  abbrev pub evidence_reply : List (MergeEvidence F) → Reply F
  evidence_reply rows = replied 200 (evidence_body rows)

  -- The evidence of every member of a cluster, the first 100000.
  unfoldable pub evidence_of_cluster : String → String → Exec F (List (MergeEvidence F))
  evidence_of_cluster chain cluster_id = do
    members ← members_of sha256 order collate chain cluster_id (float 0) (pos 100000) (pos 0)
    by_addresses chain members

  unfoldable pub handle_evidence_of : Request → World F → Reply F × World F
  unfolding answer evidence_of_cluster
  handle_evidence_of r =
      let cluster_id = query_param "cluster_id" r in
      let a = query_param "address_a" r in
      let b = query_param "address_b" r in
      if not (cluster_id == "")
      then answer (evidence_of_cluster r.chain cluster_id) evidence_reply
      else if not (a == "") && not (b == "")
      then answer (by_address_pair r.chain a b) evidence_reply
      else refuse (bad_request "provide either ?cluster_id= or both ?address_a=&address_b=")

  unfoldable pub handle : Endpoint → Request → World F → Reply F × World F
  unfolding handle_labels_of_cluster handle_labels_of_address handle_hub_status handle_cluster_of
      handle_members_of handle_same_cluster handle_evidence_of
  handle cluster_endpoint = handle_cluster_of
  handle address_labels_endpoint = handle_labels_of_address
  handle hub_status_endpoint = handle_hub_status
  handle members_endpoint = handle_members_of
  handle cluster_labels_endpoint = handle_labels_of_cluster
  handle same_cluster_endpoint = handle_same_cluster
  handle evidence_endpoint = handle_evidence_of

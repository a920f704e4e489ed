-- ===== src/QueryService/Reads.antt =====
-- blockchain_cluster/internal/queryservice: the service never writes.
use blockchain_clustering.Base.{
  ◌≡◌, ◌≢◌, refl, inl, inr, ℕ, String, Bool, List, Option, none, some, ◌==◌, string_eq, ◌||◌, ◌&&◌,
  not, Bool-cases, Option-cases, arith,
}
use blockchain_clustering.Base.Float.{Float64, float}
use blockchain_clustering.Base.Int.{ℤ, pos}
use blockchain_clustering.Clusters.{
  cluster_of, cluster_of_materialized, members_of, same_cluster, threshold_view,
}
use blockchain_clustering.Db.{
  Exec, World, Error, Result, ok, err, database, invalid_argument, not_integer, bad_message,
  not_registered, bad_config, panicked,
}
use blockchain_clustering.Db.Atomic.{ReadsOnly}
use blockchain_clustering.Db.Reads.{
  reads_bind, reads_fail, reads_if, reads_option, reads_pure, reads_query,
}
use blockchain_clustering.QueryService.{
  Endpoint, Reply, Request, failed, replied, dropped, reply_with, cluster_reply, evidence_reply,
  labels_reply, hub_reply, answer, evidence_of_cluster, handle, handle_cluster_of,
  handle_evidence_of, handle_hub_status, handle_labels_of_address, handle_labels_of_cluster,
  handle_members_of, handle_same_cluster, min_confidence_param, pagination_params, query_param,
  cluster_endpoint, address_labels_endpoint, hub_status_endpoint, members_endpoint,
  cluster_labels_endpoint, same_cluster_endpoint, evidence_endpoint,
}
use blockchain_clustering.Replay.{MapOrder}
use blockchain_clustering.Stores.Addresses.{get}
use blockchain_clustering.Stores.Evidence.{by_address_pair, by_addresses, scan_active}
use blockchain_clustering.Stores.Labels.{labels_of}

-- The status of a reply, 0 where there is none.
abbrev pub status : {F : Type 0} → Reply F → ℕ
status dropped = 0
status (replied n body) = n

-- A handler that leaves the tables as they are, and makes no call where it answers 400.
pub record IsReader {F : Type 0} (h : World F → Reply F × World F) : Type 0 where
  pub same : (w : World F) → (h w).1.db ≡ w.db
  pub refused : (w : World F) → status (h w).0 ≡ 400 → (h w).1 ≡ w

-- No result of a call is answered by 400.
abbrev NeverRefuses : {F A : Type 0} → (A → Reply F) → Type 0
NeverRefuses {F} {A} k = (a : A) → status (k a) ≢ 400

module _ {F : Type 0} where
  refuses : (reply : Reply F) → IsReader (λ (w : World F). (reply, w))
  refuses reply = record { same = λ w. refl; refused = λ w e. refl }

status-failed : (F : Type 0) (e : Error) → status (failed {F = F} e) ≢ 400
status-failed F panicked h = omega arith
status-failed F database h = omega arith
status-failed F invalid_argument h = omega arith
status-failed F not_integer h = omega arith
status-failed F bad_message h = omega arith
status-failed F not_registered h = omega arith
status-failed F bad_config h = omega arith

module _ {F A : Type 0} where
  status-reply_with :
      (k : A → Reply F) (r : Result A) → NeverRefuses k → status (reply_with k r) ≢ 400
  status-reply_with k (ok a) h = h a
  status-reply_with k (err e) h = status-failed F e

  answers : (m : Exec F A) (k : A → Reply F) → ReadsOnly m → NeverRefuses k → IsReader (answer m k)
  unfolding answer
  answers m k h never = record {
    same = h.at;
    refused = λ w e. absurd (status-reply_with k (m w).0 never e);
  }

module _ {F : Type 0} where
  labels_ok : NeverRefuses (labels_reply {F = F})
  labels_ok labels e = omega arith

  hub_ok : NeverRefuses (hub_reply {F = F})
  hub_ok none e = omega arith
  hub_ok (some a) e = omega arith

  reads_labels_of :
      (chain target_type target : String) → ReadsOnly (labels_of {F = F} chain target_type target)
  unfolding labels_of
  reads_labels_of chain target_type target =
      reads_if (target_type == "cluster") _ _ (reads_query _)
        (reads_if (target_type == "address") _ _ (reads_query _) (reads_fail _))

  reads_get : (chain address : String) → ReadsOnly (get {F = F} chain address)
  unfolding get
  reads_get chain address = reads_query _

module _ {F : Type 0} ⦃fl : Float64 F⦄ (sha256 : String → List ℕ) (order : MapOrder F) where
  reads_threshold_view :
      (chain : String) (least : F) → ReadsOnly (threshold_view sha256 order chain least)
  unfolding threshold_view scan_active
  reads_threshold_view chain least = reads_bind _ _ (reads_query _) (λ active. reads_pure _)

  reads_cluster_of :
      (chain address : String) (least : F) → ReadsOnly (cluster_of sha256 order chain address least)
  unfolding cluster_of cluster_of_materialized
  reads_cluster_of chain address least =
      reads_if _ _ _ (reads_query _)
        (reads_bind _ _ (reads_threshold_view chain least) (λ results. reads_pure _))

  reads_members_of :
      (collate : String → String → Bool) (chain cluster_id : String) (least : F) (limit offset : ℤ)
      → ReadsOnly (members_of sha256 order collate chain cluster_id least limit offset)
  unfolding members_of
  reads_members_of collate chain cluster_id least limit offset =
      reads_if _ _ _
        (reads_bind _ _ (reads_query _)
          (λ found. reads_option found _ _ (reads_fail _) (λ out. reads_pure out)))
        (reads_bind _ _ (reads_threshold_view chain least)
          (λ results. reads_option _ _ _ (reads_fail _) (λ out. reads_pure out)))

  reads_same_cluster :
      (chain a b : String) (least : F) → ReadsOnly (same_cluster sha256 order chain a b least)
  unfolding same_cluster
  reads_same_cluster chain a b least = reads_bind _ _ (reads_cluster_of chain a least) (λ found_a.
      reads_option found_a _ _ (reads_pure _) (λ ca.
        reads_bind _ _ (reads_cluster_of chain b least)
          (λ found_b. reads_option found_b _ _ (reads_pure _) (λ cb. reads_pure _))))

module _ {F : Type 0} ⦃fl : Float64 F⦄ (sha256 : String → List ℕ) (order : MapOrder F)
    (collate : String → String → Bool) (parse_float : String → Option F) where
  cluster_ok : NeverRefuses (cluster_reply {F = F} sha256 order collate parse_float)
  cluster_ok none e = omega arith
  cluster_ok (some found) e = omega arith

  evidence_ok : NeverRefuses (evidence_reply {F = F} sha256 order collate parse_float)
  evidence_ok rows e = omega arith

  IsReader-handle_cluster_of :
      (r : Request) → IsReader (handle_cluster_of sha256 order collate parse_float r)
  unfolding handle_cluster_of
  IsReader-handle_cluster_of r =
      elim (Option-cases (min_confidence_param sha256 order collate parse_float r)) [
        | inl bad ↦ rw (bad, handle_cluster_of) (refuses _)
        | inr (least, read) ↦
            rw (read, handle_cluster_of)
              (answers _ _ (reads_cluster_of sha256 order r.chain r.address least) cluster_ok)
      ]

  IsReader-handle_members_of :
      (r : Request) → IsReader (handle_members_of sha256 order collate parse_float r)
  unfolding handle_members_of
  IsReader-handle_members_of r =
      elim (Option-cases (min_confidence_param sha256 order collate parse_float r)) [
        | inl bad ↦ rw (bad, handle_members_of) (refuses _)
        | inr (least, read) ↦ elim (Option-cases (pagination_params r)) [
          | inl bad ↦ rw (read, bad, handle_members_of) (refuses _)
          | inr ((limit, offset), paged) ↦
              rw (read, paged, handle_members_of)
                (answers _ _
                  (reads_members_of sha256 order collate r.chain r.cluster_id least limit offset)
                  (λ a e. omega arith))
        ]
      ]

  IsReader-handle_same_cluster :
      (r : Request) → IsReader (handle_same_cluster sha256 order collate parse_float r)
  unfolding handle_same_cluster
  IsReader-handle_same_cluster r =
      elim (Bool-cases (query_param "a" r == "" || query_param "b" r == "")) [
        | inl missing ↦ rw (missing, handle_same_cluster) (refuses _)
        | inr given ↦
            elim (Option-cases (min_confidence_param sha256 order collate parse_float r)) [
              | inl bad ↦ rw (given, bad, handle_same_cluster) (refuses _)
              | inr (least, read) ↦
                  rw (given, read, handle_same_cluster)
                    (answers _ _
                      (reads_same_cluster sha256 order r.chain (query_param "a" r)
                        (query_param "b" r) least)
                      (λ (same, confidence) e. omega arith))
            ]
      ]

  reads_evidence_of_cluster :
      (chain cluster_id : String)
      → ReadsOnly (evidence_of_cluster sha256 order collate parse_float chain cluster_id)
  unfolding evidence_of_cluster by_addresses
  reads_evidence_of_cluster chain cluster_id =
      reads_bind _ _
        (reads_members_of sha256 order collate chain cluster_id (float 0) (pos 100000) (pos 0))
        (λ members. reads_query _)

  reads_by_address_pair : (chain a b : String) → ReadsOnly (by_address_pair {F = F} chain a b)
  unfolding by_address_pair
  reads_by_address_pair chain a b = reads_query _

  IsReader-handle_evidence_of :
      (r : Request) → IsReader (handle_evidence_of sha256 order collate parse_float r)
  unfolding handle_evidence_of
  IsReader-handle_evidence_of r = elim (Bool-cases (not (query_param "cluster_id" r == ""))) [
    | inl cluster ↦
        rw (cluster, handle_evidence_of)
          (answers _ _ (reads_evidence_of_cluster r.chain (query_param "cluster_id" r)) evidence_ok)
    | inr other ↦
        elim (Bool-cases
          (not (query_param "address_a" r == "") && not (query_param "address_b" r == ""))) [
            | inl pair ↦
                rw (other, pair, handle_evidence_of)
                  (answers _ _ (reads_by_address_pair r.chain _ _) evidence_ok)
            | inr neither ↦ rw (other, neither, handle_evidence_of) (refuses _)
          ]
  ]

  -- Whatever the endpoint and the request, and whether or not a call fails, a request leaves the tables
  -- as they are; and one that is answered by 400 makes no call of the database at all.
  pub handle-IsReader :
      (endpoint : Endpoint) (r : Request)
      → IsReader (handle sha256 order collate parse_float endpoint r)
  unfolding handle handle_labels_of_address handle_labels_of_cluster handle_hub_status
  handle-IsReader cluster_endpoint r = IsReader-handle_cluster_of r
  handle-IsReader members_endpoint r = IsReader-handle_members_of r
  handle-IsReader same_cluster_endpoint r = IsReader-handle_same_cluster r
  handle-IsReader evidence_endpoint r = IsReader-handle_evidence_of r
  handle-IsReader address_labels_endpoint r =
      answers _ _ (reads_labels_of r.chain "address" r.address) labels_ok
  handle-IsReader cluster_labels_endpoint r =
      answers _ _ (reads_labels_of r.chain "cluster" r.cluster_id) labels_ok
  handle-IsReader hub_status_endpoint r = answers _ _ (reads_get r.chain r.address) hub_ok

-- ===== src/Stores/Labels.antt =====
-- blockchain_cluster/internal/label: store.go and maintain.go.
pub mod Targets
pub mod Categories
pub mod Conflicts
use blockchain_clustering.Base.{
  ℕ, suc, ◌+◌, String, Bool, true, false, List, [], ◌∷◌, ◌++◌, Option, none, some, ◌==◌, nat_eq,
  string_eq, pair_eq, if◌then◌else◌, ◌&&◌, ◌||◌, not, select, update_where, ltb, length, foldl,
}
use blockchain_clustering.Base.Float.{Float64}
use blockchain_clustering.Base.GoMap
use blockchain_clustering.Base.GoMap.{GoMap, keys}
use blockchain_clustering.Domain.{Label}
use blockchain_clustering.Db.{
  Exec, statement, query, exec, fail, pure, time_now, fold_m, ◌>>=◌, ◌>>◌, invalid_argument,
}

-- target type, chain, target
abbrev pub TargetKey : Type 0
TargetKey = String × (String × String)

abbrev pub is_target : Option String → String → Bool
is_target none id = false
is_target (some t) id = t == id

abbrev or_empty : Option String → String
or_empty none = ""
or_empty (some s) = s

module _ {F : Type 0} ⦃fl : Float64 F⦄ where
  -- An INSERT whose label_id the identity column gives.
  unfoldable pub add_label : Label F → Exec F ℕ
  add_label l =
      if not (l.target_type == "cluster") && not (l.target_type == "address")
      then fail invalid_argument
      else statement (λ db. (
        db.label_seq,
        record db {
          label =
              db.label
              ++ record l {
                label_id = db.label_seq;
                source_confidence = fl.column l.source_confidence;
                status = if l.status == "" then "active" else l.status;
                collected_at = db.now;
                last_verified_at = db.now;
              }
                ∷ [];
          label_seq = suc db.label_seq;
        },
      ))

module _ {F : Type 0} where
  unfoldable pub labels_of : String → String → String → Exec F (List (Label F))
  labels_of chain_id target_type target_id =
      if target_type == "cluster"
      then query (λ db.
        select (λ l. l.chain_id == chain_id && is_target l.target_cluster_id target_id) db.label)
      else if target_type == "address"
      then query (λ db.
        select (λ l. l.chain_id == chain_id && is_target l.target_address target_id) db.label)
      else fail invalid_argument

  unfoldable pub key_of : Label F → TargetKey
  key_of l =
      let target =
        if l.target_type == "cluster"
        then or_empty l.target_cluster_id
        else if l.target_type == "address"
        then or_empty l.target_address
        else "" in
      (l.target_type, (l.chain_id, target))

  abbrev pub is_live : Label F → Bool
  is_live l = l.status == "active" || l.status == "stale"

  unfoldable pub add_to_target :
      GoMap TargetKey (List (Label F)) → Label F → GoMap TargetKey (List (Label F))
  add_to_target m l =
      if is_live l then GoMap.insert (key_of l) (GoMap.get_or (key_of l) [] m ++ l ∷ []) m else m

  unfoldable pub by_target : List (Label F) → GoMap TargetKey (List (Label F))
  unfolding add_to_target
  by_target = foldl add_to_target []

  -- the set of the categories that occur
  unfoldable pub categories : List (Label F) → GoMap String Bool
  categories = foldl (λ m (l : Label F). GoMap.insert l.category true m) []

  unfoldable pub flag_target : GoMap ℕ Bool → List (Label F) → GoMap ℕ Bool
  flag_target conflicted ls =
      if ltb 1 (length (categories ls))
      then foldl (λ m (l : Label F). GoMap.insert l.label_id true m) conflicted ls
      else conflicted

  -- `DetectConflicts`, for the order in which Go ranges over the targets
  unfoldable pub detect_conflicts :
      (GoMap TargetKey (List (Label F)) → GoMap TargetKey (List (Label F)))
      → List (Label F)
      → GoMap ℕ Bool
  detect_conflicts order labels =
      foldl (λ m (_, ls). flag_target m ls) [] (order (by_target labels))

pub record MaintainResult : Type 0 where
  pub decayed : ℕ
  pub conflicted : ℕ

module _ {F : Type 0} ⦃fl : Float64 F⦄ where
  -- UPDATE … SET status = 'stale', source_confidence = $2 WHERE label_id = $1
  unfoldable pub decay_label : F → MaintainResult → Label F → Exec F MaintainResult
  decay_label factor result l = do
    exec (λ db. record db {
      label =
          update_where (λ (r : Label F). r.label_id == l.label_id)
            (λ r. record r {
              status = "stale";
              source_confidence = fl.column (fl.mul l.source_confidence factor);
            })
            db.label;
    })
    pure (record result { decayed = suc result.decayed })

  -- now.Sub(LastVerifiedAt) > staleTTL, in nanoseconds
  abbrev pub is_overdue : ℕ → ℕ → Label F → Bool
  is_overdue now ttl l = l.status == "active" && ltb (l.last_verified_at + ttl) now

  unfoldable pub decay_step : F → ℕ → ℕ → MaintainResult → Label F → Exec F MaintainResult
  unfolding decay_label
  decay_step factor now ttl result l =
      if is_overdue now ttl l then decay_label factor result l else pure result

  unfoldable pub conflict_step : MaintainResult → ℕ × Bool → Exec F MaintainResult
  conflict_step result (label_id, _) = do
    exec (λ db. record db {
      label =
          update_where (λ (r : Label F). r.label_id == label_id && not (r.status == "conflicted"))
            (λ r. record r { status = "conflicted" }) db.label;
    })
    pure (record result { conflicted = suc result.conflicted })

  unfoldable pub maintain :
      (GoMap TargetKey (List (Label F)) → GoMap TargetKey (List (Label F)))
      → (GoMap ℕ Bool → GoMap ℕ Bool)
      → String
      → ℕ
      → F
      → Exec F MaintainResult
  maintain targets ids chain_id ttl factor = do
    now ← time_now
    labels ← query (λ db. select (λ l. l.chain_id == chain_id && is_live l) db.label)
    decayed ← fold_m (decay_step factor now ttl) (record { decayed = 0; conflicted = 0 }) labels
    fold_m conflict_step decayed (ids (detect_conflicts targets labels))

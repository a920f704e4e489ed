-- ===== src/Stores/SweepTargets.antt =====
-- blockchain_cluster/internal/sweeptarget/store.go.
use blockchain_clustering.Base.{
  String, Bool, List, [], ◌∷◌, ◌++◌, Option, ◌==◌, string_eq, if◌then◌else◌, ◌&&◌, any, find_first,
  select, update_where,
}
use blockchain_clustering.Base.Float.{Float64}
use blockchain_clustering.Domain.{SweepTarget}
use blockchain_clustering.Db.{Exec, query, exec}

module _ {F : Type 0} where
  abbrev pub at_key : String → String → SweepTarget F → Bool
  at_key chain_id address t = t.chain_id == chain_id && t.address == address

module _ {F : Type 0} ⦃fl : Float64 F⦄ where
  unfoldable pub add : SweepTarget F → Exec F (Unit {0})
  add t = exec (λ db. record db {
    sweep_target =
        if any (at_key t.chain_id t.address) db.sweep_target
        then update_where (at_key t.chain_id t.address)
            (λ old. record old {
              entity_hint = t.entity_hint;
              source = t.source;
              confidence = fl.column t.confidence;
            })
            db.sweep_target
        else db.sweep_target ++ record t { confidence = fl.column t.confidence } ∷ [];
  })

module _ {F : Type 0} where
  unfoldable pub get : String → String → Exec F (Option (SweepTarget F))
  get chain_id address = query (λ db. find_first (at_key chain_id address) db.sweep_target)

  unfoldable pub list_all : String → Exec F (List (SweepTarget F))
  list_all chain_id = query (λ db. select (λ t. t.chain_id == chain_id) db.sweep_target)

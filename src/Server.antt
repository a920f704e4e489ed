-- ===== src/Server.antt =====
-- blockchain_cluster/cmd/server/main.go: the maintenance of labels, tick by tick. The interval and the
-- time to live are what `time.ParseDuration` makes of the configuration, none on an error; `targets`
-- and `ids` are the orders in which Go ranges over maps. The timeout of a tick is a call that fails.
pub mod Maintenance
use blockchain_clustering.Base.{ℕ, zero, suc, String, Bool, List, Option, none, some, foldl}
use blockchain_clustering.Base.Float.{Float64}
use blockchain_clustering.Base.GoMap.{GoMap}
use blockchain_clustering.Db.{Result, World, ok, err}
use blockchain_clustering.Domain.{Label}
use blockchain_clustering.Stores.Labels.{TargetKey, maintain}
use blockchain_clustering.Stores.Registry.{list_chains}

module _ {F : Type 0} ⦃fl : Float64 F⦄
    (targets : GoMap TargetKey (List (Label F)) → GoMap TargetKey (List (Label F)))
    (ids : GoMap ℕ Bool → GoMap ℕ Bool) (decay_factor : F) where
  -- An error of a chain is only logged.
  unfoldable pub maintain_chain : ℕ → World F → String → World F
  maintain_chain stale_ttl w chain_id = (maintain targets ids chain_id stale_ttl decay_factor w).1

  abbrev pub maintain_all : ℕ → Result (List String) × World F → World F
  maintain_all stale_ttl (err e, w) = w
  maintain_all stale_ttl (ok chains, w) = foldl (maintain_chain stale_ttl) w chains

  unfoldable pub tick : ℕ → World F → World F
  unfolding maintain_chain
  tick stale_ttl w = maintain_all stale_ttl (list_chains w)

  abbrev pub ticks : ℕ → ℕ → World F → World F
  ticks stale_ttl zero w = w
  ticks stale_ttl (suc n) w = ticks stale_ttl n (tick stale_ttl w)

  -- The state after `n` ticks: the loop is disabled where a duration does not parse.
  unfoldable pub run_label_maintenance_loop : Option ℕ → Option ℕ → ℕ → World F → World F
  unfolding tick
  run_label_maintenance_loop none stale_ttl n w = w
  run_label_maintenance_loop (some interval) none n w = w
  run_label_maintenance_loop (some interval) (some stale_ttl) n w = ticks stale_ttl n w

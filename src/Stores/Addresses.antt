-- ===== src/Stores/Addresses.antt =====
-- blockchain_cluster/internal/address/store.go: the registry of addresses, and their flags.
pub mod Seen
use blockchain_clustering.Base.{
  String, Bool, true, false, List, [], ◌∷◌, ◌++◌, Option, none, some, ◌==◌, string_eq,
  if◌then◌else◌, ◌&&◌, any, find_first, update_where,
}
use blockchain_clustering.Base.Float.{Float64}
use blockchain_clustering.Base.Int.{ℤ, ltb_ℤ}
use blockchain_clustering.Domain.{Address}
use blockchain_clustering.Db.{Exec, query, exec, pure, ◌>>=◌}

module _ {F : Type 0} where
  -- PRIMARY KEY (chain_id, address)
  abbrev pub at_key : String → String → Address F → Bool
  at_key chain_id addr a = a.chain_id == chain_id && a.address == addr

  -- GREATEST(last_seen_height, h), which passes over NULL
  abbrev pub bump_last_seen : ℤ → Address F → Address F
  bump_last_seen h a = record a {
    last_seen_height = elim a.last_seen_height as (λ _. Option ℤ) [
      | none ↦ some h
      | some l ↦ (if ltb_ℤ l h then some h else some l)
    ];
  }

  abbrev pub first_sight : String → String → ℤ → Address F
  first_sight chain_id addr h = record {
    chain_id = chain_id;
    address = addr;
    first_seen_height = some h;
    last_seen_height = some h;
    is_hub = false;
    hub_type = none;
    hub_confidence = none;
    dust_flag = false;
  }

  -- INSERT … ON CONFLICT DO UPDATE
  unfoldable pub upsert_row : String → String → ℤ → List (Address F) → List (Address F)
  upsert_row chain_id addr h rows =
      if any (at_key chain_id addr) rows
      then update_where (at_key chain_id addr) (bump_last_seen h) rows
      else rows ++ first_sight chain_id addr h ∷ []

  unfoldable pub upsert : String → String → ℤ → Exec F (Unit {0})
  upsert chain_id addr h =
      exec (λ db. record db { address = upsert_row chain_id addr h db.address })

  -- `none` is found = false.
  unfoldable pub get : String → String → Exec F (Option (Address F))
  get chain_id addr = query (λ db. find_first (at_key chain_id addr) db.address)

module _ {F : Type 0} ⦃fl : Float64 F⦄ where
  abbrev pub as_hub : String → F → Address F → Address F
  as_hub hub_type confidence a = record a {
    is_hub = true;
    hub_type = some hub_type;
    hub_confidence = some (fl.column confidence);
  }

  unfoldable pub set_hub : String → String → String → F → Exec F (Unit {0})
  set_hub chain_id addr hub_type confidence = exec (λ db. record db {
    address = update_where (at_key chain_id addr) (as_hub hub_type confidence) db.address;
  })

module _ {F : Type 0} where
  abbrev pub as_dust : Address F → Address F
  as_dust a = record a { dust_flag = true }

  unfoldable pub set_dust_flag : String → String → Exec F (Unit {0})
  set_dust_flag chain_id addr =
      exec (λ db. record db { address = update_where (at_key chain_id addr) as_dust db.address })

  unfoldable pub is_hub : String → String → Exec F Bool
  is_hub chain_id addr = do
    found ← get chain_id addr
    pure (elim found as (λ _. Bool) [ none ↦ false | some a ↦ a.is_hub ])

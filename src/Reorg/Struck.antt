-- ===== src/Reorg/Struck.antt =====
-- blockchain_cluster/internal/reorg/handler.go: which rows the loop of OnReorg strikes.
use mathlib.Core.List.{map-id, map-map}
use blockchain_clustering.Base.{
  ◌≡◌, refl, ap, ◌∙◌, sym, subst, inl, inr, String, Bool, true, false, List, [], ◌∷◌, ◌==◌, ==_iff,
  ==_refl, nat_eq, string_eq, if◌then◌else◌, ◌&&◌, Bool-cases, Memᴰ, any, any_iff, update_where-map,
  map_as_update, map, select, update_where, mem-select, arith,
}
use blockchain_clustering.Domain.{MergeEvidence}
use blockchain_clustering.Stores.Evidence.{anchored_in, hit, is_active, strike}

both_left : (a b : Bool) → (a && b) ≡ true → a ≡ true
both_left a b h = ground arith

both_right : (a b : Bool) → (a && b) ≡ true → b ≡ true
both_right a b h = ground arith

both_true : (a b : Bool) → a ≡ true → b ≡ true → (a && b) ≡ true
both_true a b h k = ground arith

module _ {F : Type 0} where
  -- The rows after the candidates were invalidated one by one.
  abbrev pub strike_all :
      String → List (MergeEvidence F) → List (MergeEvidence F) → List (MergeEvidence F)
  strike_all chain_id [] rows = rows
  strike_all chain_id (e ∷ es) rows =
      strike_all chain_id es
        (if is_active e then update_where (hit chain_id e.op_id) (strike "reorg") rows else rows)

  -- A row after that.
  abbrev pub struck_by : String → List (MergeEvidence F) → MergeEvidence F → MergeEvidence F
  struck_by chain_id [] r = r
  struck_by chain_id (e ∷ es) r =
      struck_by chain_id es (if is_active e && hit chain_id e.op_id r then strike "reorg" r else r)

  abbrev pub hits : String → MergeEvidence F → MergeEvidence F → Bool
  hits chain_id r e = is_active e && hit chain_id e.op_id r

  strike_one :
      (chain_id : String) (e : MergeEvidence F) (rows : List (MergeEvidence F))
      → (if is_active e then update_where (hit chain_id e.op_id) (strike "reorg") rows else rows)
        ≡ map (λ r. if is_active e && hit chain_id e.op_id r then strike "reorg" r else r) rows
  strike_one chain_id e rows = elim (Bool-cases (is_active e)) [
    | inl active ↦ rw active (update_where-map (hit chain_id e.op_id) (strike "reorg") rows)
    | inr passed ↦ rw passed (sym (map-id rows))
  ]

  strike_all-struck_by :
      (chain_id : String) (es rows : List (MergeEvidence F))
      → strike_all chain_id es rows ≡ map (struck_by chain_id es) rows
  strike_all-struck_by chain_id [] rows = sym (map-id rows)
  strike_all-struck_by chain_id (e ∷ es) rows =
      strike_all-struck_by chain_id es _
      ∙ ap (map (struck_by chain_id es)) (strike_one chain_id e rows)
      ∙ map-map _ _ rows

  -- A row that is not active is not struck again.
  struck_by_inactive :
      (chain_id : String) (es : List (MergeEvidence F)) (r : MergeEvidence F)
      → is_active r ≡ false
      → struck_by chain_id es r ≡ r
  struck_by_inactive chain_id [] r h = refl
  struck_by_inactive chain_id (e ∷ es) r h = elim (Bool-cases (hits chain_id r e)) [
    | inl struck ↦ absurd (ground (arith))
    | inr kept ↦ rw kept (struck_by_inactive chain_id es r h)
  ]

  struck_by-any :
      (chain_id : String) (es : List (MergeEvidence F)) (r : MergeEvidence F)
      → struck_by chain_id es r ≡ (if any (hits chain_id r) es then strike "reorg" r else r)
  struck_by-any chain_id [] r = refl
  struck_by-any chain_id (e ∷ es) r = elim (Bool-cases (hits chain_id r e)) [
    | inl struck ↦ rw struck (struck_by_inactive chain_id es (strike "reorg" r) refl)
    | inr kept ↦ rw kept (struck_by-any chain_id es r)
  ]

  -- Rows of a chain with the same op_id are one row.
  abbrev pub UniqueOps : String → List (MergeEvidence F) → Type 0
  UniqueOps chain_id rows =
      (e r : MergeEvidence F)
      → Memᴰ e rows
      → Memᴰ r rows
      → e.chain_id ≡ chain_id
      → r.chain_id ≡ chain_id
      → e.op_id ≡ r.op_id
      → e ≡ r

  abbrev pub rolled_back : String → List String → MergeEvidence F → Bool
  rolled_back chain_id hashes r = anchored_in chain_id hashes r && is_active r

  hit_parts :
      (chain_id : String) (e r : MergeEvidence F)
      → hits chain_id r e ≡ true
      → (r.chain_id ≡ chain_id) × (e.op_id ≡ r.op_id) × (is_active r ≡ true)
  hit_parts chain_id e r h = ground (arith, ==_iff r.chain_id chain_id, ==_iff r.op_id e.op_id)

  hits_self :
      (chain_id : String) (r : MergeEvidence F)
      → (r.chain_id == chain_id) ≡ true
      → is_active r ≡ true
      → hits chain_id r r ≡ true
  hits_self chain_id r h a = ground (arith, ==_refl r.op_id)

  hits-rolled_back :
      (chain_id : String) (hashes : List String) (rows : List (MergeEvidence F))
      (r : MergeEvidence F)
      → UniqueOps chain_id rows
      → Memᴰ r rows
      → any (hits chain_id r) (select (anchored_in chain_id hashes) rows)
        ≡ rolled_back chain_id hashes r
  hits-rolled_back chain_id hashes rows r unique m =
      elim (Bool-cases (rolled_back chain_id hashes r)) [
        | inl rolled ↦
            let anchored = both_left (anchored_in chain_id hashes r) (is_active r) rolled in
            let active = both_right (anchored_in chain_id hashes r) (is_active r) rolled in
            (any_iff (hits chain_id r) _).1 (
              r,
              (mem-select _ r rows).1 (m, anchored),
              hits_self chain_id r (both_left _ _ anchored) active,
            )
            ∙ sym rolled
        | inr spared ↦
            elim (Bool-cases (any (hits chain_id r) (select (anchored_in chain_id hashes) rows))) [
              | inr missing ↦ missing ∙ sym spared
              | inl found ↦
                  let (e, in_es, h) = (any_iff (hits chain_id r) _).0 found in
                  let (in_rows, anchored) =
                    (mem-select (anchored_in chain_id hashes) e rows).0 in_es in
                  let (chain, op, active) = hit_parts chain_id e r h in
                  let e_chain = (==_iff e.chain_id chain_id).0 (both_left _ _ anchored) in
                  let same : e ≡ r = unique e r in_rows m e_chain chain op in
                  let also : anchored_in chain_id hashes r ≡ true =
                    subst (λ x. anchored_in chain_id hashes x ≡ true) same anchored in
                  found ∙ sym (both_true _ _ also active)
            ]
      ]

  -- Where op ids are unique, striking the candidates one by one strikes what is anchored and active.
  pub strike_all_exact :
      (chain_id : String) (hashes : List String) (rows : List (MergeEvidence F))
      → UniqueOps chain_id rows
      → strike_all chain_id (select (anchored_in chain_id hashes) rows) rows
        ≡ update_where (rolled_back chain_id hashes) (strike "reorg") rows
  strike_all_exact chain_id hashes rows unique =
      strike_all-struck_by chain_id (select (anchored_in chain_id hashes) rows) rows
      ∙ map_as_update (rolled_back chain_id hashes) (strike "reorg") _ rows (λ r m.
        struck_by-any chain_id (select (anchored_in chain_id hashes) rows) r
        ∙ ap (λ b. if b then strike "reorg" r else r)
            (hits-rolled_back chain_id hashes rows r unique m))

  -- The candidates are rows of the chain.
  pub anchored_rows :
      (chain_id : String) (hashes : List String) (rows : List (MergeEvidence F))
      (e : MergeEvidence F)
      → Memᴰ e (select (anchored_in chain_id hashes) rows)
      → Memᴰ e rows × ((e.chain_id == chain_id) ≡ true)
  anchored_rows chain_id hashes rows e m =
      let (in_rows, anchored) = (mem-select (anchored_in chain_id hashes) e rows).0 m in
      (in_rows, both_left _ _ anchored)

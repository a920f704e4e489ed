-- ===== src/Heuristic/Change/Best.antt =====
-- blockchain_cluster/internal/heuristic/change.go: the tests and the scores of a transaction's outputs.
use blockchain_clustering.Base.{
  ◌≡◌, refl, ◌∙◌, sym, subst, inl, inr, String, Bool, true, false, List, [], ◌∷◌, Option, none,
  some, map, Memᴰ, Memᴰ-nil, any, ◌||◌, arith, Bool-cases,
}
use blockchain_clustering.Base.Float.{Float64}
use blockchain_clustering.Base.Int.{ℤ}
use blockchain_clustering.Db.{Db, fold_m}
use blockchain_clustering.Db.Yields.{
  Yields, Yields-bind, Yields-fold, Yields-if, Yields-pure, Yields-query,
}
use blockchain_clustering.Derive.{ReceivedEntry, received_entries}
use blockchain_clustering.Domain.{BalanceDelta}
use blockchain_clustering.Heuristic.Account.{is_new_address}
use blockchain_clustering.Heuristic.Change.{
  ChangeParams, any_hub, better, keep_best, score_change_candidate, was_respent_after,
}
use blockchain_clustering.Heuristic.CommonInput.Justified.{Yields-is_hub}
use blockchain_clustering.Merge.Laws.{hub_flag}
use blockchain_clustering.Stores.Addresses

abbrev pub recipients : List BalanceDelta → List String
recipients ds = map (λ (o : ReceivedEntry). o.address) (received_entries ds)

pub any-false :
    (p : String → Bool) (xs : List String)
    → any p xs ≡ false
    → (a : String) → Memᴰ a xs
    → p a ≡ false
any-false p (x ∷ xs) h a (Memᴰ.head e) = rw e (ground (arith, h))
any-false p (x ∷ xs) h a (Memᴰ.tail m) = any-false p xs (ground (arith, h)) a m
any-false p [] h a m = absurd (Memᴰ-nil m)

module _ {F : Type 0} (d : Db F) where
  pub Yields-any_hub :
      (chain_id : String) (xs : List String)
      → Yields d (λ b. b ≡ any (hub_flag d chain_id) xs) (any_hub chain_id xs)
  unfolding any_hub
  Yields-any_hub chain_id [] = Yields-pure false refl
  Yields-any_hub chain_id (x ∷ xs) =
      Yields-bind (λ b. b ≡ hub_flag d chain_id x) _ _ (Yields-is_hub d chain_id x)
        (λ b is_flag.
          Yields-if b _ _ (λ yes. Yields-pure true (rw (sym is_flag, yes) refl))
            (λ no.
              subst
                (λ t. Yields d (λ r. r ≡ t || any (hub_flag d chain_id) xs) (any_hub chain_id xs))
                (sym no ∙ is_flag) (Yields-any_hub chain_id xs)))

module _ {F : Type 0} ⦃fl : Float64 F⦄ (d : Db F) where
  Yields-score :
      (chain_id : String) (height : ℤ) (params : ChangeParams F) (out : ReceivedEntry)
      → Yields d (λ _. Unit {0}) (score_change_candidate chain_id height params out)
  unfolding score_change_candidate is_new_address was_respent_after Addresses.get
  Yields-score chain_id height params out =
      Yields-bind (λ _. Unit {0}) _ _
        (Yields-bind (λ _. Unit {0}) _ _ (Yields-query _ tt) (λ found _. Yields-pure _ tt))
        (λ is_new _.
          Yields-bind (λ _. Unit {0}) _ _ (Yields-query _ tt) (λ respent _. Yields-pure _ tt))

  abbrev pub Among : List ReceivedEntry → Option (ReceivedEntry × F) → Type 0
  Among outs none = Unit
  Among outs (some (out, score)) = Memᴰ out outs

  Among-better :
      (outs : List ReceivedEntry) (best : Option (ReceivedEntry × F)) (out : ReceivedEntry)
      (score : F)
      → Among outs best
      → Memᴰ out outs
      → Among outs (better best out score)
  Among-better outs none out score h m = m
  Among-better outs (some (best, best_score)) out score h m =
      elim (Bool-cases (fl.ltb best_score score)) [ inl more ↦ rw more m | inr less ↦ rw less h ]

  pub Among-of :
      (outs : List ReceivedEntry) (best : Option (ReceivedEntry × F)) (out : ReceivedEntry)
      (score : F)
      → Among outs best
      → best ≡ some (out, score)
      → Memᴰ out outs
  Among-of outs best out score h e = subst (Among outs) e h

  pub Yields-best :
      (chain_id : String) (height : ℤ) (params : ChangeParams F) (outs : List ReceivedEntry)
      → Yields d (Among outs) (fold_m (keep_best chain_id height params) none outs)
  unfolding keep_best
  Yields-best chain_id height params outs =
      Yields-fold (Among outs) _ none outs
        (λ best out m h.
          Yields-bind (λ _. Unit {0}) _ _ (Yields-score chain_id height params out)
            (λ score _. Yields-pure _ (Among-better outs best out score h m)))
        tt

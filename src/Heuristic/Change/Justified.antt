-- ===== src/Heuristic/Change/Justified.antt =====
-- blockchain_cluster/internal/heuristic/change.go: what every candidate rests on.
use mathlib.Core.List.Memᴰ
use blockchain_clustering.Base.{
  ◌≡◌, refl, ◌∙◌, sym, subst, inl, inr, String, false, List, [], ◌∷◌, ◌++◌, Option, none, some, map,
  Memᴰ, All-of-mem, Memᴰ-concat, Memᴰ-nil, if◌then◌else◌, any,
}
use blockchain_clustering.Base.Float.{Float64}
use blockchain_clustering.Db.{Db, World, Exec, ok}
use blockchain_clustering.Db.Yields.{
  Yields, Yields-bind, Yields-fold, Yields-if, Yields-option, Yields-pure, Yields-query, yielded,
}
use blockchain_clustering.Derive.{
  ReceivedEntry, TxGroup, group_by_tx, received_entries, spent_addresses,
}
use blockchain_clustering.Derive.Groups.{group_by_tx_lem}
use blockchain_clustering.Derive.Keys.{deltas_of}
use blockchain_clustering.Domain.{BalanceDelta, HeuristicConfig, MergeCandidate}
use blockchain_clustering.Heuristic.{candidate}
use blockchain_clustering.Heuristic.Account.{when_enabled}
use blockchain_clustering.Heuristic.Change.{
  change, change_of, change_output, change_tx, parse_change_params, touches_hub,
}
use blockchain_clustering.Heuristic.Change.Best.{
  Among, Among-of, any-false, recipients, Yields-any_hub, Yields-best,
}
use blockchain_clustering.Heuristic.CommonInput.Justified.{
  excluded_flag, Yields-first_delta, Yields-is_excluded,
}
use blockchain_clustering.Merge.Laws.{hub_flag}
use blockchain_clustering.Stores.Registry.{config_for}

module _ {F : Type 0} (d : Db F) where
  -- A transaction of the batch that is not excluded, where no spender and no recipient is a hub: its
  -- first spender, and one of its recipients.
  pub record PaysChange (deltas : List BalanceDelta) (c : MergeCandidate F) : Type 0 where
    pub tx_id : String
    pub of_tx : c.source_tx_id ≡ some tx_id
    pub kept : excluded_flag d (c.chain_id, tx_id) ≡ false
    pub others : List String
    pub first_spender :
        spent_addresses (deltas_of (c.chain_id, tx_id) deltas) ≡ c.address_a ∷ others
    pub recipient : Memᴰ c.address_b (recipients (deltas_of (c.chain_id, tx_id) deltas))
    pub no_hub :
        (a : String)
        → Memᴰ a (
            spent_addresses (deltas_of (c.chain_id, tx_id) deltas)
            ++ recipients (deltas_of (c.chain_id, tx_id) deltas))
        → hub_flag d c.chain_id a ≡ false

  abbrev Sound : List BalanceDelta → List (MergeCandidate F) → Type 0
  Sound deltas cs = (c : MergeCandidate F) → Memᴰ c cs → PaysChange deltas c

module _ {F : Type 0} ⦃fl : Float64 F⦄ (d : Db F) where
  -- What is known of a transaction when its change is looked for.
  record Ready (deltas : List BalanceDelta) (tx : TxGroup) (spender : String) : Type 0 where
    own : tx.deltas ≡ deltas_of tx.key deltas
    kept : excluded_flag d tx.key ≡ false
    rest : List String
    first_spender : spent_addresses tx.deltas ≡ spender ∷ rest
    no_hub :
        (a : String)
        → Memᴰ a (spent_addresses tx.deltas ++ recipients tx.deltas)
        → hub_flag d tx.key.0 a ≡ false

  candidate-PaysChange :
      (deltas : List BalanceDelta) (tx : TxGroup) (spender : String) (first : BalanceDelta)
      (confidence : F) (out : ReceivedEntry)
      → Ready deltas tx spender
      → Memᴰ out (received_entries tx.deltas)
      → PaysChange d deltas (candidate tx first "change" confidence spender out.address)
  candidate-PaysChange deltas tx spender first confidence out ready m = record {
    tx_id = tx.key.1;
    of_tx = refl;
    kept = ready.kept;
    others = ready.rest;
    first_spender =
        subst (λ ds. spent_addresses ds ≡ spender ∷ ready.rest) ready.own ready.first_spender;
    recipient =
        subst (λ ds. Memᴰ out.address (recipients ds)) ready.own
          (Memᴰ.map (λ (o : ReceivedEntry). o.address) m);
    no_hub =
        subst
          (λ ds.
            (a : String)
            → Memᴰ a (spent_addresses ds ++ recipients ds)
            → hub_flag d tx.key.0 a ≡ false)
          ready.own ready.no_hub;
  }

  Sound-concat :
      (deltas : List BalanceDelta) (cs : List (MergeCandidate F)) (c : MergeCandidate F)
      → Sound d deltas cs
      → PaysChange d deltas c
      → Sound d deltas (cs ++ c ∷ [])
  Sound-concat deltas cs c h p x m = elim ((Memᴰ-concat x c cs).0 m) [
    | inl old ↦ h x old
    | inr new ↦ subst (PaysChange d deltas) (sym new) p
  ]

  change_output-Sound :
      (deltas : List BalanceDelta) (cfg : HeuristicConfig F) (cs : List (MergeCandidate F))
      (tx : TxGroup) (spender : String)
      → Ready deltas tx spender
      → Sound d deltas cs
      → Yields d (Sound d deltas) (change_output cfg tx cs spender (received_entries tx.deltas))
  unfolding change_output
  change_output-Sound deltas cfg cs tx spender ready h =
      Yields-bind (λ _. Unit {0}) _ _ (Yields-first_delta d tx)
        (λ first _.
          Yields-bind (Among d (received_entries tx.deltas)) _ _
            (Yields-best d tx.key.0 first.block_height (parse_change_params cfg.params)
              (received_entries tx.deltas))
            (λ best among. Yields-option best _ _ (Yields-pure cs h) (λ (out, score) found.
              Yields-if (fl.ltb score (parse_change_params cfg.params).change_min) _ _
                (λ _. Yields-pure cs h)
                (λ _. Yields-pure _ (
                  Sound-concat deltas cs _ h (
                    candidate-PaysChange deltas tx spender first
                      (if fl.ltb cfg.confidence score then cfg.confidence else score) out ready
                      (Among-of d _ best out score among found)))))))

  change_of-Sound :
      (deltas : List BalanceDelta) (cfg : HeuristicConfig F) (cs : List (MergeCandidate F))
      (tx : TxGroup) (ins : List String) (outs : List ReceivedEntry)
      → tx.deltas ≡ deltas_of tx.key deltas
      → excluded_flag d tx.key ≡ false
      → spent_addresses tx.deltas ≡ ins
      → received_entries tx.deltas ≡ outs
      → Sound d deltas cs
      → Yields d (Sound d deltas) (change_of cfg tx cs ins outs)
  unfolding change_of touches_hub
  change_of-Sound deltas cfg cs tx [] outs own kept is_ins is_outs h = Yields-pure cs h
  change_of-Sound deltas cfg cs tx (s ∷ ins) [] own kept is_ins is_outs h = Yields-pure cs h
  change_of-Sound deltas cfg cs tx (s ∷ ins) (o ∷ outs) own kept is_ins is_outs h =
      let named = λ (os : List ReceivedEntry). map (λ (e : ReceivedEntry). e.address) os in
      Yields-bind (λ b. b ≡ any (hub_flag d tx.key.0) ((s ∷ ins) ++ named (o ∷ outs))) _ _
        (Yields-any_hub d tx.key.0 ((s ∷ ins) ++ named (o ∷ outs)))
        (λ hub is_any.
          Yields-if hub _ _ (λ _. Yields-pure cs h)
            (λ free.
              subst (λ os. Yields d (Sound d deltas) (change_output cfg tx cs s os)) is_outs
                (change_output-Sound deltas cfg cs tx s
                  (record {
                    own = own;
                    kept = kept;
                    rest = ins;
                    first_spender = is_ins;
                    no_hub = λ a m.
                        any-false (hub_flag d tx.key.0) ((s ∷ ins) ++ named (o ∷ outs))
                          (sym is_any ∙ free) a
                          (subst (λ os. Memᴰ a ((s ∷ ins) ++ named os)) is_outs
                            (subst (λ is. Memᴰ a (is ++ recipients tx.deltas)) is_ins m));
                  })
                  h)))

  change_tx-Sound :
      (deltas : List BalanceDelta) (cfg : HeuristicConfig F) (cs : List (MergeCandidate F))
      (tx : TxGroup)
      → tx.deltas ≡ deltas_of tx.key deltas
      → Sound d deltas cs
      → Yields d (Sound d deltas) (change_tx cfg cs tx)
  unfolding change_tx
  change_tx-Sound deltas cfg cs tx own h =
      Yields-bind (λ b. b ≡ excluded_flag d tx.key) _ _ (Yields-is_excluded d tx.key)
        (λ b is_flag.
          Yields-if b _ _ (λ _. Yields-pure cs h)
            (λ taken. change_of-Sound deltas cfg cs tx _ _ own (sym is_flag ∙ taken) refl refl h))

  Yields-when_enabled :
      (P : List (MergeCandidate F) → Type 0) (found : Option (HeuristicConfig F))
      (run : HeuristicConfig F → Exec F (List (MergeCandidate F)))
      → P []
      → ((cfg : HeuristicConfig F) → Yields d P (run cfg))
      → Yields d P (when_enabled found run)
  unfolding when_enabled
  Yields-when_enabled P none run p h = Yields-pure [] p
  Yields-when_enabled P (some cfg) run p h =
      Yields-if cfg.enabled _ _ (λ _. h cfg) (λ _. Yields-pure [] p)

  change-Sound : (deltas : List BalanceDelta) → Yields d (Sound d deltas) (change deltas)
  unfolding change config_for
  change-Sound [] = Yields-pure [] (λ c m. absurd (Memᴰ-nil m))
  change-Sound (x ∷ xs) =
      Yields-bind (λ _. Unit {0}) _ _ (Yields-query _ tt)
        (λ found _.
          Yields-when_enabled (Sound d (x ∷ xs)) found _ (λ c m. absurd (Memᴰ-nil m))
            (λ cfg.
              Yields-fold (Sound d (x ∷ xs)) _ [] (group_by_tx (x ∷ xs))
                (λ cs tx m h.
                  change_tx-Sound (x ∷ xs) cfg cs tx
                    (All-of-mem _ _ (group_by_tx_lem (x ∷ xs)).1 tx m) h)
                (λ c m. absurd (Memᴰ-nil m))))

module _ {F : Type 0} ⦃fl : Float64 F⦄ where
  -- Every candidate that the engine `change` returns joins the first spender of a transaction of the
  -- batch, which is not excluded, with one of its recipients, and no spender and no recipient of that
  -- transaction is a hub.
  pub change_lem :
      (deltas : List BalanceDelta) (w : World F) (cs : List (MergeCandidate F))
      (c : MergeCandidate F)
      → (change deltas w).0 ≡ ok cs
      → Memᴰ c cs
      → PaysChange w.db deltas c
  change_lem deltas w cs c fine = yielded (change-Sound w.db deltas) w refl cs fine c

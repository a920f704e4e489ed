-- ===== src/Reorg/Append.antt =====
-- blockchain_cluster/internal: the evidence only grows, and a row changes only by being struck.
use blockchain_clustering.Base.{
  ◌≡◌, refl, ap, ◌∙◌, sym, subst, ◌⊎◌, inl, inr, ℕ, String, true, List, [], ◌∷◌, ◌++◌, string_eq,
  nat_eq, if◌then◌else◌, Bool-cases, update_where, arith,
}
use blockchain_clustering.Base.Float.{Float64}
use blockchain_clustering.Db.{Db, World}
use blockchain_clustering.Domain.{MergeEvidence}
use blockchain_clustering.Reorg.Calls.{Call, Evolves, after_all, after_all_keeps}
use blockchain_clustering.Replay.{MapOrder}
use blockchain_clustering.Stores.Evidence.{hit, is_active, strike}

module _ {F : Type 0} where
  -- The same row, or one that was active and is struck, for a reason.
  abbrev pub Evolved : MergeEvidence F → MergeEvidence F → Type 0
  Evolved r n = (n ≡ r) ⊎ ((is_active r ≡ true) × (reason : String) × (n ≡ strike reason r))

  -- Every row evolved in its place, and rows may follow.
  abbrev pub Later : List (MergeEvidence F) → List (MergeEvidence F) → Type 0
  Later [] ns = Unit
  Later (r ∷ rs) [] = ⊥
  Later (r ∷ rs) (n ∷ ns) = Evolved r n × Later rs ns

  Later-same : (rs : List (MergeEvidence F)) → Later rs rs
  Later-same [] = tt
  Later-same (r ∷ rs) = (inl refl, Later-same rs)

  Evolved-then : (a b c : MergeEvidence F) → Evolved a b → Evolved b c → Evolved a c
  Evolved-then a b c (inl same) next = subst (λ x. Evolved x c) same next
  Evolved-then a b c (inr (active, reason, struck)) (inl same) = inr (active, reason, same ∙ struck)
  Evolved-then a b c (inr (active, reason, struck)) (inr (still, other, again)) =
      absurd (cc (sym (ap is_active struck) ∙ still))

  Later-then : (qs bs cs : List (MergeEvidence F)) → Later qs bs → Later bs cs → Later qs cs
  Later-then [] bs cs h k = tt
  Later-then (a ∷ qs) [] cs h k = absurd h
  Later-then (a ∷ qs) (b ∷ bs) [] h k = absurd k
  Later-then (a ∷ qs) (b ∷ bs) (c ∷ cs) h k =
      (Evolved-then a b c h.0 k.0, Later-then qs bs cs h.1 k.1)

  Later-append : (rs ns : List (MergeEvidence F)) → Later rs (rs ++ ns)
  Later-append [] ns = tt
  Later-append (r ∷ rs) ns = (inl refl, Later-append rs ns)

  Evolved-strike :
      (chain_id : String) (op_id : ℕ) (reason : String) (r : MergeEvidence F)
      → Evolved r (if hit chain_id op_id r then strike reason r else r)
  Evolved-strike chain_id op_id reason r = elim (Bool-cases (hit chain_id op_id r)) [
    | inl struck ↦ rw struck (inr (ground (arith), reason, refl))
    | inr spared ↦ rw spared (inl refl)
  ]

  Later-strike :
      (chain_id : String) (op_id : ℕ) (reason : String) (rs : List (MergeEvidence F))
      → Later rs (update_where (hit chain_id op_id) (strike reason) rs)
  Later-strike chain_id op_id reason [] = tt
  Later-strike chain_id op_id reason (r ∷ rs) =
      (Evolved-strike chain_id op_id reason r, Later-strike chain_id op_id reason rs)

module _ {F : Type 0} ⦃fl : Float64 F⦄ where
  Evolves-Later : Evolves (λ (d d' : Db F). Later d.merge_evidence d'.merge_evidence)
  Evolves-Later = record {
    steady = record {
      unchanged = λ d. Later-same d.merge_evidence;
      compose = λ a b c. Later-then a.merge_evidence b.merge_evidence c.merge_evidence;
    };
    recorded = λ e d. Later-append d.merge_evidence _;
    struck = λ chain_id op_id reason d. Later-strike chain_id op_id reason d.merge_evidence;
    elsewhere =
        λ d d' rows seq. subst (Later d.merge_evidence) (sym rows) (Later-same d.merge_evidence);
  }

module _ {F : Type 0} ⦃fl : Float64 F⦄ (sha256 : String → List ℕ) (order : MapOrder F) where
  -- Whatever merge batches, rollbacks and corrections run, and whatever calls of them fail, no row of
  -- the evidence is removed or moved, and each is as it was, or was active and is struck, with nothing
  -- but its status and the reason changed.
  pub evidence_append_only :
      (calls : List (Call F)) (w : World F)
      → Later w.db.merge_evidence (after_all sha256 order calls w).db.merge_evidence
  evidence_append_only calls w = after_all_keeps sha256 order Evolves-Later calls w

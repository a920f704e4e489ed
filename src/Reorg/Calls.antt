-- ===== src/Reorg/Calls.antt =====
-- blockchain_cluster/internal: merge batches (merge/engine.go), rollbacks and corrections
-- (reorg/handler.go) in any sequence, some of which fail, and what they keep of the evidence.
use blockchain_clustering.Base.{
  ◌≡◌, refl, ap, sym, subst, inl, inr, ℕ, String, Bool, List, ◌==◌, string_eq, nat_eq, ◌||◌,
  Bool-cases, Option, update_where, suc, true, false, [], ◌∷◌,
}
use blockchain_clustering.Base.Float.{Float64}
use blockchain_clustering.Clusters.{rebuild_from_evidence}
use blockchain_clustering.Clusters.Rebuild.{rebuild_atomic}
use blockchain_clustering.Db.{Db, AuditTarget, World}
use blockchain_clustering.Db.Respects.{
  Steady, Respects, Respects-bind, Respects-fold, Respects-pure, Respects-exec, Respects-if,
  Respects-query, Respects-statement,
}
use blockchain_clustering.Domain.{MergeCandidate, MergeEvidence}
use blockchain_clustering.Merge.{evidence_of, merge_step, record_and_merge, record_and_merge_batch}
use blockchain_clustering.Merge.Laws.{hub_flag, record_and_merge_lem, recorded_db}
use blockchain_clustering.Reorg.{
  invalidate_step, note_correction, note_struck, on_manual_correction, on_reorg, rebuild_if,
}
use blockchain_clustering.Replay.{MapOrder}
use blockchain_clustering.Stores.Audit.{log}
use blockchain_clustering.Stores.Evidence.{hit, insert_row, strike, by_block_hash, invalidate}

-- What is called in a life of the tables.
pub data Call (F : Type 0) : Type 0 where
  merge : List (MergeCandidate F) → Call F
  roll_back : String → List String → Call F
  correct : String → ℕ → String → Call F

module _ {F : Type 0} ⦃fl : Float64 F⦄ (sha256 : String → List ℕ) (order : MapOrder F) where
  -- The world after a call, failed or not, and after a sequence of calls.
  abbrev pub after : Call F → World F → World F
  after (merge candidates) w = (record_and_merge_batch candidates w).1
  after (roll_back chain_id hashes) w = (on_reorg sha256 order chain_id hashes w).1
  after (correct chain_id op_id rationale) w =
      (on_manual_correction sha256 order chain_id op_id rationale w).1

  abbrev pub after_all : List (Call F) → World F → World F
  after_all [] w = w
  after_all (call ∷ calls) w = after_all calls (after call w)

-- A relation between the tables before and after, which a new row of evidence, the striking of an op,
-- and whatever leaves the evidence alone are in.
pub record Evolves {F : Type 0} ⦃fl : Float64 F⦄ (R : Db F → Db F → Type 0) : Type 0 where
  pub steady : Steady R
  pub recorded : (e : MergeEvidence F) (d : Db F) → R d (insert_row e d).1
  pub struck :
      (chain_id : String) (op_id : ℕ) (reason : String) (d : Db F)
      → R d (record d {
        merge_evidence = update_where (hit chain_id op_id) (strike reason) d.merge_evidence;
      })
  pub elsewhere :
      (d d' : Db F)
      → d'.merge_evidence ≡ d.merge_evidence
      → d'.merge_op_seq ≡ d.merge_op_seq
      → R d d'

module _ {F : Type 0} ⦃fl : Float64 F⦄ {R : Db F → Db F → Type 0} (ev : Evolves R) where
  recorded_keeps : (c : MergeCandidate F) (d : Db F) → R d (recorded_db c d).1
  recorded_keeps c d = elim (Bool-cases (c.address_a == c.address_b)) [
    | inl same ↦ rw same (ev.steady.unchanged _)
    | inr apart ↦
        elim (Bool-cases (hub_flag d c.chain_id c.address_a || hub_flag d c.chain_id c.address_b)) [
          | inl hub ↦ rw (apart, hub) (ev.steady.unchanged _)
          | inr free ↦ rw (apart, free) (ev.recorded (evidence_of c) d)
        ]
  ]

  record_and_merge_keeps : (c : MergeCandidate F) → Respects R (record_and_merge c)
  record_and_merge_keeps c = record {
    at = λ w. elim (record_and_merge_lem c w) [
      | inl (o, fine, same) ↦
          subst (R w.db) (sym (ap (λ (p : Option ℕ × Db F). p.1) same)) (recorded_keeps c w.db)
      | inr (broken, same) ↦ subst (R w.db) (sym same) (ev.steady.unchanged _)
    ];
  }

  batch_keeps : (cs : List (MergeCandidate F)) → Respects R (record_and_merge_batch cs)
  unfolding record_and_merge_batch merge_step
  batch_keeps cs =
      Respects-fold ev.steady _
        (λ result c.
          Respects-bind ev.steady _ _ (record_and_merge_keeps c)
            (λ outcome. Respects-pure ev.steady _))
        _ cs

  invalidate_keeps :
      (chain_id : String) (op_id : ℕ) (reason : String)
      → Respects R (invalidate chain_id op_id reason)
  unfolding invalidate
  invalidate_keeps chain_id op_id reason =
      Respects-statement ev.steady _ (ev.struck chain_id op_id reason)

  log_keeps :
      (actor action : String) (target : AuditTarget) (rationale : String)
      → Respects R (log actor action target rationale)
  unfolding log
  log_keeps actor action target rationale =
      Respects-exec ev.steady _ (λ d. ev.elsewhere d _ refl refl)

  note_struck_keeps :
      (chain_id : String) (count : ℕ) (e : MergeEvidence F) (b : Bool)
      → Respects R (note_struck chain_id count e b)
  unfolding note_struck
  note_struck_keeps chain_id count e false = Respects-pure ev.steady count
  note_struck_keeps chain_id count e true =
      Respects-bind ev.steady _ _ (log_keeps _ _ _ _) (λ _. Respects-pure ev.steady (suc count))

  invalidate_step_keeps :
      (chain_id : String) (count : ℕ) (e : MergeEvidence F)
      → Respects R (invalidate_step chain_id count e)
  unfolding invalidate_step
  invalidate_step_keeps chain_id count e =
      Respects-if ev.steady _ _ _
        (Respects-bind ev.steady _ _ (invalidate_keeps chain_id e.op_id "reorg")
          (note_struck_keeps chain_id count e))
        (Respects-pure ev.steady count)

module _ {F : Type 0} ⦃fl : Float64 F⦄ (sha256 : String → List ℕ) (order : MapOrder F)
    {R : Db F → Db F → Type 0} (ev : Evolves R) where
  rebuild_keeps : (chain_id : String) → Respects R (rebuild_from_evidence sha256 order chain_id)
  rebuild_keeps chain_id = record {
    at = λ w. elim (rebuild_atomic sha256 order chain_id w) [
      | inl same ↦ subst (R w.db) (sym same) (ev.elsewhere w.db _ refl refl)
      | inr (broken, same) ↦ subst (R w.db) (sym same) (ev.steady.unchanged _)
    ];
  }

  on_reorg_keeps :
      (chain_id : String) (hashes : List String)
      → Respects R (on_reorg sha256 order chain_id hashes)
  unfolding on_reorg rebuild_if by_block_hash
  on_reorg_keeps chain_id [] = Respects-pure ev.steady 0
  on_reorg_keeps chain_id (h ∷ hs) =
      Respects-bind ev.steady _ _ (Respects-query ev.steady _) (λ candidates.
        Respects-bind ev.steady _ _
          (Respects-fold ev.steady _ (invalidate_step_keeps ev chain_id) 0 candidates)
          (λ count. Respects-if ev.steady _ _ _ (Respects-pure ev.steady 0) (
            Respects-bind ev.steady _ _ (rebuild_keeps chain_id)
              (λ _. Respects-pure ev.steady count))))

  note_correction_keeps :
      (chain_id : String) (op_id : ℕ) (rationale : String) (b : Bool)
      → Respects R (note_correction sha256 order chain_id op_id rationale b)
  unfolding note_correction
  note_correction_keeps chain_id op_id rationale false = Respects-pure ev.steady false
  note_correction_keeps chain_id op_id rationale true =
      Respects-bind ev.steady _ _ (log_keeps ev _ _ _ _) (λ _.
        Respects-bind ev.steady _ _ (rebuild_keeps chain_id) (λ _. Respects-pure ev.steady true))

  on_manual_correction_keeps :
      (chain_id : String) (op_id : ℕ) (rationale : String)
      → Respects R (on_manual_correction sha256 order chain_id op_id rationale)
  unfolding on_manual_correction
  on_manual_correction_keeps chain_id op_id rationale =
      Respects-bind ev.steady _ _ (invalidate_keeps ev chain_id op_id "manual-correction")
        (note_correction_keeps chain_id op_id rationale)

  after_keeps : (call : Call F) (w : World F) → R w.db (after sha256 order call w).db
  after_keeps (merge candidates) = (batch_keeps ev candidates).at
  after_keeps (roll_back chain_id hashes) = (on_reorg_keeps chain_id hashes).at
  after_keeps (correct chain_id op_id rationale) =
      (on_manual_correction_keeps chain_id op_id rationale).at

  pub after_all_keeps :
      (calls : List (Call F)) (w : World F) → R w.db (after_all sha256 order calls w).db
  after_all_keeps [] w = ev.steady.unchanged w.db
  after_all_keeps (call ∷ calls) w =
      ev.steady.compose _ _ _ (after_keeps call w)
        (after_all_keeps calls (after sha256 order call w))

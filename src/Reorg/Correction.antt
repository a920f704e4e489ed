-- ===== src/Reorg/Correction.antt =====
-- blockchain_cluster/internal/reorg/handler.go: OnManualCorrection.
use blockchain_clustering.Base.{
  ◌≡◌, refl, ap, ◌∙◌, inl, inr, ℕ, String, Bool, true, false, List, [], ◌∷◌, ◌++◌, any,
  update_where, update_where_none, Bool-cases, if◌then◌else◌,
}
use blockchain_clustering.Base.Float.{Float64}
use blockchain_clustering.Clusters.Rebuild.{Effect-rebuild, rebuilt}
use blockchain_clustering.Db.{Db, World, ok}
use blockchain_clustering.Db.Effects.{
  Effect, Effect-bind, Effect-exec, Effect-pure, Effect-statement,
}
use blockchain_clustering.Reorg.{note_correction, on_manual_correction}
use blockchain_clustering.Replay.{MapOrder}
use blockchain_clustering.Stores.Audit.{log}
use blockchain_clustering.Stores.Evidence.{hit, invalidate, strike}

module _ {F : Type 0} where
  -- The tables with the rows of an op struck.
  abbrev pub op_struck : String → ℕ → Db F → Db F
  op_struck chain_id op_id d = record d {
    merge_evidence =
        update_where (hit chain_id op_id) (strike "manual-correction") d.merge_evidence;
  }

  -- The tables with the entry of the operator in the audit log.
  abbrev pub correction_logged : String → ℕ → String → Db F → Db F
  correction_logged chain_id op_id rationale d = record d {
    audit_log =
        d.audit_log
        ++ record {
          actor = "operator";
          action = "invalidate";
          target = record { chain_id = chain_id; op_id = op_id; block_hash = "" };
          rationale = rationale;
        }
          ∷ [];
  }

module _ {F : Type 0} ⦃fl : Float64 F⦄ (sha256 : String → List ℕ) (order : MapOrder F) where
  abbrev noted : String → ℕ → String → Bool → Db F → Bool × Db F
  noted chain_id op_id rationale false d = (false, d)
  noted chain_id op_id rationale true d =
      (true, rebuilt sha256 order chain_id (correction_logged chain_id op_id rationale d))

  Effect-note_correction :
      (chain_id : String) (op_id : ℕ) (rationale : String) (b : Bool)
      → Effect
          (note_correction sha256 order chain_id op_id rationale b)
          (noted chain_id op_id rationale b)
  unfolding note_correction log
  Effect-note_correction chain_id op_id rationale false = Effect-pure false
  Effect-note_correction chain_id op_id rationale true =
      Effect-bind _ _ _ _ (Effect-exec _)
        (λ _. Effect-bind _ _ _ _ (Effect-rebuild sha256 order chain_id) (λ _. Effect-pure true))

  Effect-on_manual_correction :
      (chain_id : String) (op_id : ℕ) (rationale : String)
      → Effect (on_manual_correction sha256 order chain_id op_id rationale) (λ d.
        noted chain_id op_id rationale
          (any (hit chain_id op_id) d.merge_evidence)
          (op_struck chain_id op_id d))
  unfolding on_manual_correction invalidate
  Effect-on_manual_correction chain_id op_id rationale =
      Effect-bind _ _ _ _ (Effect-statement _) (Effect-note_correction chain_id op_id rationale)

  corrected_cases :
      (chain_id : String) (op_id : ℕ) (rationale : String) (d : Db F)
      → noted chain_id op_id rationale
          (any (hit chain_id op_id) d.merge_evidence)
          (op_struck chain_id op_id d)
        ≡ (
          any (hit chain_id op_id) d.merge_evidence,
          if any (hit chain_id op_id) d.merge_evidence
              then rebuilt sha256 order chain_id
                  (correction_logged chain_id op_id rationale (op_struck chain_id op_id d))
              else d,
        )
  corrected_cases chain_id op_id rationale d =
      elim (Bool-cases (any (hit chain_id op_id) d.merge_evidence)) [
        | inl found ↦ rw found refl
        | inr missing ↦ rw missing (
            ap (λ rows. (false, record d { merge_evidence = rows }))
              (update_where_none (hit chain_id op_id) (strike "manual-correction") d.merge_evidence
                missing))
      ]

  -- Where no call fails, a correction tells whether the chain has an active row with that op id. If it
  -- has, these rows are struck, the audit log has one entry more, and the chain's clusters are the
  -- replay of the evidence that is left, its confidences rounded to three decimals; if not, nothing
  -- changes.
  pub on_manual_correction_lem :
      (chain_id : String) (op_id : ℕ) (rationale : String) (w : World F) (done : Bool)
      → (on_manual_correction sha256 order chain_id op_id rationale w).0 ≡ ok done
      → (done ≡ any (hit chain_id op_id) w.db.merge_evidence)
        × ((on_manual_correction sha256 order chain_id op_id rationale w).1.db ≡ (
            if any (hit chain_id op_id) w.db.merge_evidence
            then rebuilt sha256 order chain_id
                (correction_logged chain_id op_id rationale (op_struck chain_id op_id w.db))
            else w.db))
  on_manual_correction_lem chain_id op_id rationale w done fine =
      let same =
        (Effect-on_manual_correction chain_id op_id rationale).on_success w done fine
        ∙ corrected_cases chain_id op_id rationale w.db in
      (ap (λ (p : Bool × Db F). p.0) same, ap (λ (p : Bool × Db F). p.1) same)

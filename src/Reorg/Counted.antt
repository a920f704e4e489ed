-- ===== src/Reorg/Counted.antt =====
-- blockchain_cluster/internal/reorg/handler.go: the loop of OnReorg on the tables, and its count.
use blockchain_clustering.Base.{
  ==_iff, ◌||◌, any_iff, ==_refl, string_eq, length, length-append, ◌+◌, ◌≤◌, Memᴰ, not, arith, ◌≡◌,
  refl, ap, ◌∙◌, sym, inl, inr, ℕ, suc, String, Bool, true, false, List, [], ◌∷◌, ◌++◌, ◌==◌,
  nat_eq, if◌then◌else◌, Bool-cases, any, update_where,
}
use blockchain_clustering.Db.{Db}
use blockchain_clustering.Db.Effects.{
  Effect, Effect-bind, Effect-exec, Effect-if, Effect-pure, Effect-statement, fold_db,
}
use blockchain_clustering.Domain.{MergeEvidence}
use blockchain_clustering.Reorg.{deref_or_empty, invalidate_step, note_struck}
use blockchain_clustering.Reorg.Struck.{strike_all}
use blockchain_clustering.Stores.Audit.{log}
use blockchain_clustering.Stores.Evidence.{hit, invalidate, is_active, strike}

not_zero : (k n : ℕ) → n ≡ 1 → n ≤ k → (k == 0) ≡ false
not_zero k n one more = elim (Bool-cases (k == 0)) [
  | inl zero ↦ let is : k ≡ 0 = (==_iff k 0).0 zero in absurd (omega (arith, is, one, more))
  | inr some_left ↦ some_left
]

module _ {F : Type 0} where
  -- The audit log with the entry of a struck row.
  abbrev pub logged : String → MergeEvidence F → Db F → Db F
  logged chain_id e db = record db {
    audit_log =
        db.audit_log
        ++ record {
          actor = "system";
          action = "invalidate";
          target = record {
            chain_id = chain_id;
            op_id = e.op_id;
            block_hash = deref_or_empty e.source_block_hash;
          };
          rationale = "reorg rollback";
        }
          ∷ [];
  }

  abbrev pub noted_db : String → ℕ → MergeEvidence F → Bool → Db F → ℕ × Db F
  noted_db chain_id count e false d = (count, d)
  noted_db chain_id count e true d = (suc count, logged chain_id e d)

  abbrev pub invalidated_db : String → ℕ → MergeEvidence F → Db F → ℕ × Db F
  invalidated_db chain_id count e d =
      noted_db chain_id count e (any (hit chain_id e.op_id) d.merge_evidence) (record d {
        merge_evidence = update_where (hit chain_id e.op_id) (strike "reorg") d.merge_evidence;
      })

  abbrev pub step_db : String → ℕ → MergeEvidence F → Db F → ℕ × Db F
  step_db chain_id count e d = if is_active e then invalidated_db chain_id count e d else (count, d)

  Effect-note_struck :
      (chain_id : String) (count : ℕ) (e : MergeEvidence F) (b : Bool)
      → Effect (note_struck chain_id count e b) (noted_db chain_id count e b)
  unfolding note_struck log
  Effect-note_struck chain_id count e false = Effect-pure count
  Effect-note_struck chain_id count e true =
      Effect-bind _ _ _ _ (Effect-exec _) (λ _. Effect-pure (suc count))

  pub Effect-invalidate_step :
      (chain_id : String) (count : ℕ) (e : MergeEvidence F)
      → Effect (invalidate_step chain_id count e) (step_db chain_id count e)
  unfolding invalidate_step invalidate
  Effect-invalidate_step chain_id count e =
      Effect-if _ _ _ _ _
        (Effect-bind _ _ _ _ (Effect-statement _) (Effect-note_struck chain_id count e))
        (Effect-pure count)

  step_keeps :
      (chain_id : String) (count : ℕ) (e : MergeEvidence F) (d : Db F)
      → ((step_db chain_id count e d).1.merge_evidence ≡ (
          if is_active e
          then update_where (hit chain_id e.op_id) (strike "reorg") d.merge_evidence
          else d.merge_evidence))
        × ((step_db chain_id count e d).1.cluster_membership ≡ d.cluster_membership)
  step_keeps chain_id count e d = elim (Bool-cases (is_active e)) [
    | inr passed ↦ rw passed (refl, refl)
    | inl active ↦ elim (Bool-cases (any (hit chain_id e.op_id) d.merge_evidence)) [
      | inl found ↦ rw (active, found) (refl, refl)
      | inr missing ↦ rw (active, missing) (refl, refl)
    ]
  ]

  -- The loop on the tables: the rows struck, and the caches as they were.
  pub fold_evidence :
      (chain_id : String) (es : List (MergeEvidence F)) (count : ℕ) (d : Db F)
      → ((fold_db (step_db chain_id) count es d).1.merge_evidence
          ≡ strike_all chain_id es d.merge_evidence)
        × ((fold_db (step_db chain_id) count es d).1.cluster_membership ≡ d.cluster_membership)
  fold_evidence chain_id [] count d = (refl, refl)
  fold_evidence chain_id (e ∷ es) count d =
      let (n, d') = step_db chain_id count e d in
      let (rows, members) = fold_evidence chain_id es n d' in
      let (step_rows, step_members) = step_keeps chain_id count e d in
      (rows ∙ ap (strike_all chain_id es) step_rows, members ∙ step_members)

  -- A step logs what it counts.
  step_logs :
      (chain_id : String) (count : ℕ) (e : MergeEvidence F) (d : Db F)
      → (length (step_db chain_id count e d).1.audit_log + count
          ≡ length d.audit_log + (step_db chain_id count e d).0)
        × (count ≤ (step_db chain_id count e d).0)
  step_logs chain_id count e d = elim (Bool-cases (is_active e)) [
    | inr passed ↦ rw passed (refl, omega arith)
    | inl active ↦ elim (Bool-cases (any (hit chain_id e.op_id) d.merge_evidence)) [
      | inr missing ↦ rw (active, missing) (refl, omega arith)
      | inl found ↦ rw (active, found, length-append d.audit_log _) (omega arith, omega arith)
    ]
  ]

  pub fold_logs :
      (chain_id : String) (es : List (MergeEvidence F)) (count : ℕ) (d : Db F)
      → (length (fold_db (step_db chain_id) count es d).1.audit_log + count
          ≡ length d.audit_log + (fold_db (step_db chain_id) count es d).0)
        × (count ≤ (fold_db (step_db chain_id) count es d).0)
  fold_logs chain_id [] count d = (refl, omega arith)
  fold_logs chain_id (e ∷ es) count d =
      let (n, d') = step_db chain_id count e d in
      let (logs, more) = fold_logs chain_id es n d' in
      let (step, up) = step_logs chain_id count e d in
      (omega (arith, logs, step), omega (arith, more, up))

  step_passed :
      (chain_id : String) (count : ℕ) (e : MergeEvidence F) (d : Db F)
      → is_active e ≡ false
      → step_db chain_id count e d ≡ (count, d)
  step_passed chain_id count e d passed = rw passed refl

  step_struck :
      (chain_id : String) (e : MergeEvidence F) (d : Db F)
      → is_active e ≡ true
      → Memᴰ e d.merge_evidence
      → (e.chain_id == chain_id) ≡ true
      → (step_db chain_id 0 e d).0 ≡ 1
  step_struck chain_id e d active here chain =
      let found : any (hit chain_id e.op_id) d.merge_evidence ≡ true =
        (any_iff (hit chain_id e.op_id) d.merge_evidence).1
          (e, here, ground (arith, ==_refl e.op_id)) in
      rw (active, found) refl

  -- The loop counts none exactly where no candidate is active.
  pub fold_counts :
      (chain_id : String) (es : List (MergeEvidence F)) (d : Db F)
      → ((e : MergeEvidence F)
          → Memᴰ e es
          → Memᴰ e d.merge_evidence × ((e.chain_id == chain_id) ≡ true))
      → ((fold_db (step_db chain_id) 0 es d).0 == 0) ≡ not (any is_active es)
  fold_counts chain_id [] d rows = refl
  fold_counts chain_id (e ∷ es) d rows = elim (Bool-cases (is_active e)) [
    | inr passed ↦
        ap (λ (p : ℕ × Db F). (fold_db (step_db chain_id) p.0 es p.1).0 == 0)
          (step_passed chain_id 0 e d passed)
        ∙ fold_counts chain_id es d (λ x m. rows x (Memᴰ.tail m))
        ∙ ap (λ b. not (b || any is_active es)) (sym passed)
    | inl active ↦
        let (here, chain) = rows e (Memᴰ.head refl) in
        let (n, d') = step_db chain_id 0 e d in
        let more = (fold_logs chain_id es n d').1 in
        not_zero (fold_db (step_db chain_id) n es d').0 n
          (step_struck chain_id e d active here chain) more
        ∙ ap (λ b. not (b || any is_active es)) (sym active)
  ]

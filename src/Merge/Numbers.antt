-- ===== src/Merge/Numbers.antt =====
-- blockchain_cluster/internal/evidence/store.go: the op ids of new rows and of rows that are struck.
use mathlib.Core.List.Memᴰ
use blockchain_clustering.Base.{
  ◌≡◌, refl, ap, ◌∙◌, sym, subst, inl, inr, ◌<◌, String, Bool, string_eq, nat_eq, if◌then◌else◌,
  Bool-cases, Memᴰ, Memᴰ-append, mem-update_where, update_where, arith,
}
use blockchain_clustering.Base.Float.{Float64}
use blockchain_clustering.Db.{Db}
use blockchain_clustering.Db.Respects.{Steady}
use blockchain_clustering.Domain.{MergeEvidence}
use blockchain_clustering.Stores.Evidence.{insert_row, strike}

-- Every op id is below the next one, and no two rows share one.
pub record IsNumbered {F : Type 0} (d : Db F) : Type 0 where
  pub below : (e : MergeEvidence F) → Memᴰ e d.merge_evidence → e.op_id < d.merge_op_seq
  pub unique :
      (e r : MergeEvidence F)
      → Memᴰ e d.merge_evidence
      → Memᴰ r d.merge_evidence
      → e.op_id ≡ r.op_id
      → e ≡ r

abbrev pub KeepsNumbers : {F : Type 0} → Db F → Db F → Type 0
KeepsNumbers d d' = IsNumbered d → IsNumbered d'

module _ {F : Type 0} where
  pub Steady-numbers : Steady (KeepsNumbers {F = F})
  Steady-numbers = record { unchanged = λ d h. h; compose = λ a b c h k n. k (h n) }

  -- The other tables do not matter.
  pub same_evidence :
      (d d' : Db F)
      → d'.merge_evidence ≡ d.merge_evidence
      → d'.merge_op_seq ≡ d.merge_op_seq
      → KeepsNumbers d d'
  same_evidence d d' rows seq h = record {
    below = λ e m. subst (λ n. e.op_id < n) (sym seq) (h.below e (subst (Memᴰ e) rows m));
    unique = λ e r m n. h.unique e r (subst (Memᴰ e) rows m) (subst (Memᴰ r) rows n);
  }

  op_id_of : {e r : MergeEvidence F} → e ≡ r → e.op_id ≡ r.op_id
  op_id_of same = ap (λ (x : MergeEvidence F). x.op_id) same

module _ {F : Type 0} ⦃fl : Float64 F⦄ where
  pub insert_keeps : (e : MergeEvidence F) (d : Db F) → KeepsNumbers d (insert_row e d).1
  insert_keeps e d h = record {
    below = λ r m. elim ((Memᴰ-append r d.merge_evidence _).0 m) [
      | inl old ↦ omega (arith, h.below r old)
      | inr fresh ↦ omega (arith, op_id_of (Memᴰ.eq_of_singleton fresh))
    ];
    unique = λ r s m n same. elim ((Memᴰ-append r d.merge_evidence _).0 m) [
      | inl old ↦ elim ((Memᴰ-append s d.merge_evidence _).0 n) [
        | inl older ↦ h.unique r s old older same
        | inr fresh ↦
            absurd (omega (arith, h.below r old, same, op_id_of (Memᴰ.eq_of_singleton fresh)))
      ]
      | inr fresh ↦ elim ((Memᴰ-append s d.merge_evidence _).0 n) [
        | inl old ↦
            absurd (omega (arith, h.below s old, same, op_id_of (Memᴰ.eq_of_singleton fresh)))
        | inr also ↦ Memᴰ.eq_of_singleton fresh ∙ sym (Memᴰ.eq_of_singleton also)
      ]
    ];
  }

  strike_op :
      (p : MergeEvidence F → Bool) (reason : String) (r : MergeEvidence F)
      → (if p r then strike reason r else r).op_id ≡ r.op_id
  strike_op p reason r = elim (Bool-cases (p r)) [ inl e ↦ rw e refl | inr e ↦ rw e refl ]

  pub strike_keeps :
      (p : MergeEvidence F → Bool) (reason : String) (d : Db F)
      → KeepsNumbers d
          (record d { merge_evidence = update_where p (strike reason) d.merge_evidence })
  strike_keeps p reason d h = record {
    below = λ e m.
        let (b, n, same) = mem-update_where p (strike reason) e d.merge_evidence m in
        omega (arith, h.below b n, op_id_of same, strike_op p reason b);
    unique = λ e r m n equal.
        let (b, mb, eb) = mem-update_where p (strike reason) e d.merge_evidence m in
        let (c, mc, rc) = mem-update_where p (strike reason) r d.merge_evidence n in
        let one : b ≡ c = h.unique b c mb mc (
          omega
            (arith, equal, op_id_of eb, op_id_of rc, strike_op p reason b, strike_op p reason c)) in
        eb ∙ ap (λ x. if p x then strike reason x else x) one ∙ sym rc;
  }

-- ===== src/Stores/Audit.antt =====
-- blockchain_cluster/internal/audit/store.go. The target is a plain struct, whose encoding does not
-- fail.
use blockchain_clustering.Base.{String, [], ◌∷◌, ◌++◌}
use blockchain_clustering.Db.{Exec, exec, AuditTarget}

module _ {F : Type 0} where
  unfoldable pub log : String → String → AuditTarget → String → Exec F (Unit {0})
  log actor action target rationale = exec (λ db. record db {
    audit_log =
        db.audit_log
        ++ record { actor = actor; action = action; target = target; rationale = rationale } ∷ [];
  })

-- ===== src/Merge/Batch.antt =====
-- blockchain_cluster/internal/merge/engine.go: a batch of candidates, and hubs.
use mathlib.Core.List.{append_assoc, append-nil}
use mathlib.Core.List.Memᴰ
use blockchain_clustering.Base.{
  ◌≡◌, ◌≢◌, refl, ap, ◌∙◌, sym, subst, inl, inr, ℕ, true, false, List, [], ◌++◌, Option, ◌==◌,
  ==_iff, string_eq, ◌||◌, Bool-cases, Memᴰ, Memᴰ-append, Memᴰ-nil, arith,
}
use blockchain_clustering.Base.Float.{Float64}
use blockchain_clustering.Db.{Db, World}
use blockchain_clustering.Db.Respects.{
  Steady, Respects, Respects-bind, Respects-fold, Respects-pure,
}
use blockchain_clustering.Domain.{MergeCandidate, MergeEvidence}
use blockchain_clustering.Merge.{merge_step, record_and_merge, record_and_merge_batch}
use blockchain_clustering.Merge.Laws.{hub_flag, record_and_merge_lem, recorded_db}
use blockchain_clustering.Stores.Evidence.{is_active}

-- An active row that joins two addresses, neither of which is a hub.
pub record IsSafe {F : Type 0} (d : Db F) (e : MergeEvidence F) : Type 0 where
  pub active : is_active e ≡ true
  pub apart : e.address_a ≢ e.address_b
  pub hub_free_a : hub_flag d e.chain_id e.address_a ≡ false
  pub hub_free_b : hub_flag d e.chain_id e.address_b ≡ false

-- The evidence grew at its end, by safe rows; the registry of addresses is the same.
pub record Grows {F : Type 0} (d d' : Db F) : Type 0 where
  pub registry : d'.address ≡ d.address
  pub more : List (MergeEvidence F)
  pub appended : d'.merge_evidence ≡ d.merge_evidence ++ more
  pub safe : (e : MergeEvidence F) → Memᴰ e more → IsSafe d e

module _ {F : Type 0} ⦃fl : Float64 F⦄ where
  IsSafe-registry :
      (d d' : Db F) (e : MergeEvidence F) → d'.address ≡ d.address → IsSafe d' e → IsSafe d e
  IsSafe-registry d d' e same s = record {
    active = s.active;
    apart = s.apart;
    hub_free_a = rw (sym same) s.hub_free_a;
    hub_free_b = rw (sym same) s.hub_free_b;
  }

  pub Steady-Grows : Steady (Grows {F = F})
  Steady-Grows = record {
    unchanged = λ d. record {
      registry = refl;
      more = [];
      appended = sym (append-nil d.merge_evidence);
      safe = λ e m. absurd (Memᴰ-nil m);
    };
    compose = λ a b c h k. record {
      registry = k.registry ∙ h.registry;
      more = h.more ++ k.more;
      appended =
          k.appended
          ∙ ap (λ rows. rows ++ k.more) h.appended
          ∙ append_assoc a.merge_evidence h.more k.more;
      safe = λ e m. elim ((Memᴰ-append e h.more k.more).0 m) [
        | inl early ↦ h.safe e early
        | inr late ↦ IsSafe-registry a b e h.registry (k.safe e late)
      ];
    };
  }

  Grows-recorded : (c : MergeCandidate F) (d : Db F) → Grows d (recorded_db c d).1
  Grows-recorded c d = elim (Bool-cases (c.address_a == c.address_b)) [
    | inl same ↦ rw same (Steady-Grows.unchanged d)
    | inr apart ↦
        elim (Bool-cases (hub_flag d c.chain_id c.address_a || hub_flag d c.chain_id c.address_b)) [
          | inl hub ↦ rw (apart, hub) (Steady-Grows.unchanged d)
          | inr free ↦
              rw (apart, free)
                (record {
                  registry = refl;
                  more = _;
                  appended = refl;
                  safe = λ e m. subst (IsSafe d) (sym (Memᴰ.eq_of_singleton m)) (record {
                    active = refl;
                    apart = λ same. ground (arith, ==_iff c.address_a c.address_b);
                    hub_free_a = ground (arith);
                    hub_free_b = ground (arith);
                  });
                })
        ]
  ]

  Respects-record_and_merge : (c : MergeCandidate F) → Respects (Grows {F = F}) (record_and_merge c)
  Respects-record_and_merge c = record {
    at = λ w. elim (record_and_merge_lem c w) [
      | inl (o, fine, same) ↦
          subst (Grows w.db) (sym (ap (λ (p : Option ℕ × Db F). p.1) same)) (Grows-recorded c w.db)
      | inr (broken, same) ↦ subst (Grows w.db) (sym same) (Steady-Grows.unchanged w.db)
    ];
  }

  -- Whatever calls fail, a batch only appends to the evidence, rows that are active and join two
  -- different addresses, neither of which is a hub.
  pub batch_hub_free :
      (candidates : List (MergeCandidate F)) (w : World F)
      → Grows w.db (record_and_merge_batch candidates w).1.db
  unfolding record_and_merge_batch merge_step
  batch_hub_free candidates =
      (Respects-fold Steady-Grows _
        (λ result c.
          Respects-bind Steady-Grows _ _ (Respects-record_and_merge c)
            (λ outcome. Respects-pure Steady-Grows _))
        _ candidates).at

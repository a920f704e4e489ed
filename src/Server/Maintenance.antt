-- ===== src/Server/Maintenance.antt =====
-- blockchain_cluster/cmd/server/main.go and internal/label/maintain.go: maintenance only marks labels.
use blockchain_clustering.Base.{
  ◌≡◌, ◌⊎◌, refl, ap, ◌∙◌, sym, subst, inl, inr, ℕ, zero, suc, String, Bool, List, [], ◌∷◌, Option,
  none, some, foldl, update_where, Bool-cases, string_eq, nat_eq,
}
use blockchain_clustering.Base.Float.{Float64}
use blockchain_clustering.Base.GoMap.{GoMap}
use blockchain_clustering.Db.{Db, Result, World, ok, err, time_now}
use blockchain_clustering.Db.Respects.{
  Respects, Respects-bind, Respects-exec, Respects-fold, Respects-if, Respects-pure, Respects-query,
  Steady,
}
use blockchain_clustering.Domain.{Label}
use blockchain_clustering.Server.{
  maintain_all, maintain_chain, run_label_maintenance_loop, tick, ticks,
}
use blockchain_clustering.Stores.Labels.{
  MaintainResult, TargetKey, conflict_step, decay_label, decay_step, is_overdue, maintain,
}
use blockchain_clustering.Stores.Registry.{list_chains}

module _ {F : Type 0} where
  -- The same label, or one that was marked, with a confidence of its own.
  abbrev pub Aged : Label F → Label F → Type 0
  Aged r n =
      (n ≡ r)
      ⊎ ((n ≡ record r { status = n.status; source_confidence = n.source_confidence })
          × ((n.status ≡ "stale") ⊎ (n.status ≡ "conflicted")))

  -- Every label aged in its place.
  abbrev pub Marked : List (Label F) → List (Label F) → Type 0
  Marked [] [] = Unit
  Marked [] (n ∷ ns) = ⊥
  Marked (r ∷ rs) [] = ⊥
  Marked (r ∷ rs) (n ∷ ns) = Aged r n × Marked rs ns

  -- Only labels were marked.
  pub record OnlyMarks (a b : Db F) : Type 0 where
    pub others : record a { label = b.label } ≡ b
    pub marked : Marked a.label b.label

  Aged-compose : (a b c : Label F) → Aged a b → Aged b c → Aged a c
  Aged-compose a b c h (inl same) = subst (Aged a) (sym same) h
  Aged-compose a b c (inl same) (inr (is, how)) = inr (
    is
        ∙ ap
            (λ (x : Label F). record x {
              status = c.status;
              source_confidence = c.source_confidence;
            })
            same,
    how,
  )
  Aged-compose a b c (inr (was, _)) (inr (is, how)) = inr (
    is
        ∙ ap
            (λ (x : Label F). record x {
              status = c.status;
              source_confidence = c.source_confidence;
            })
            was,
    how,
  )

  Marked-same : (ls : List (Label F)) → Marked ls ls
  Marked-same [] = tt
  Marked-same (l ∷ ls) = (inl refl, Marked-same ls)

  Marked-compose : (a b c : List (Label F)) → Marked a b → Marked b c → Marked a c
  Marked-compose [] [] [] h k = tt
  Marked-compose [] [] (z ∷ c) h k = elim k [ ]
  Marked-compose [] (y ∷ b) c h k = elim h [ ]
  Marked-compose (x ∷ a) [] c h k = elim h [ ]
  Marked-compose (x ∷ a) (y ∷ b) [] h k = elim k [ ]
  Marked-compose (x ∷ a) (y ∷ b) (z ∷ c) h k =
      (Aged-compose x y z h.0 k.0, Marked-compose a b c h.1 k.1)

  Marked-update_where :
      (p : Label F → Bool) (f : Label F → Label F) (ls : List (Label F))
      → ((l : Label F) → Aged l (f l))
      → Marked ls (update_where p f ls)
  Marked-update_where p f [] h = tt
  Marked-update_where p f (l ∷ ls) h = elim (Bool-cases (p l)) [
    | inl hit ↦ rw hit (h l, Marked-update_where p f ls h)
    | inr missed ↦ rw missed (inl refl, Marked-update_where p f ls h)
  ]

  Steady-OnlyMarks : Steady OnlyMarks
  Steady-OnlyMarks = record {
    unchanged = λ d. record { others = refl; marked = Marked-same d.label };
    compose = λ a b c h k. record {
      others = ap (λ (d : Db F). record d { label = c.label }) h.others ∙ k.others;
      marked = Marked-compose a.label b.label c.label h.marked k.marked;
    };
  }

module _ {F : Type 0} ⦃fl : Float64 F⦄
    (targets : GoMap TargetKey (List (Label F)) → GoMap TargetKey (List (Label F)))
    (ids : GoMap ℕ Bool → GoMap ℕ Bool) (decay_factor : F) where
  decay_step-OnlyMarks :
      (now ttl : ℕ) (result : MaintainResult) (l : Label F)
      → Respects OnlyMarks (decay_step decay_factor now ttl result l)
  unfolding decay_step decay_label
  decay_step-OnlyMarks now ttl result l =
      Respects-if Steady-OnlyMarks (is_overdue now ttl l) _ _
        (Respects-bind Steady-OnlyMarks _ _
          (Respects-exec Steady-OnlyMarks _ (λ d. record {
            others = refl;
            marked = Marked-update_where _ _ d.label (λ r. inr (refl, inl refl));
          }))
          (λ _. Respects-pure Steady-OnlyMarks _))
        (Respects-pure Steady-OnlyMarks _)

  conflict_step-OnlyMarks :
      (result : MaintainResult) (e : ℕ × Bool)
      → Respects (OnlyMarks {F = F}) (conflict_step result e)
  unfolding conflict_step
  conflict_step-OnlyMarks result (label_id, flag) =
      Respects-bind Steady-OnlyMarks _ _
        (Respects-exec Steady-OnlyMarks _ (λ d. record {
          others = refl;
          marked = Marked-update_where _ _ d.label (λ r. inr (refl, inr refl));
        }))
        (λ _. Respects-pure Steady-OnlyMarks _)

  maintain-OnlyMarks :
      (chain_id : String) (ttl : ℕ)
      → Respects OnlyMarks (maintain targets ids chain_id ttl decay_factor)
  unfolding maintain time_now
  maintain-OnlyMarks chain_id ttl =
      Respects-bind Steady-OnlyMarks _ _ (record { at = λ w. Steady-OnlyMarks.unchanged w.db })
        (λ now. Respects-bind Steady-OnlyMarks _ _ (Respects-query Steady-OnlyMarks _) (λ labels.
          Respects-bind Steady-OnlyMarks _ _
            (Respects-fold Steady-OnlyMarks _ (decay_step-OnlyMarks now ttl) _ labels)
            (λ decayed. Respects-fold Steady-OnlyMarks _ conflict_step-OnlyMarks decayed _)))

  chains-OnlyMarks :
      (ttl : ℕ) (chains : List String) (w : World F)
      → OnlyMarks w.db (foldl (maintain_chain targets ids decay_factor ttl) w chains).db
  unfolding maintain_chain
  chains-OnlyMarks ttl [] w = Steady-OnlyMarks.unchanged w.db
  chains-OnlyMarks ttl (c ∷ cs) w =
      Steady-OnlyMarks.compose w.db (maintain_chain targets ids decay_factor ttl w c).db _
        ((maintain-OnlyMarks c ttl).at w)
        (chains-OnlyMarks ttl cs (maintain_chain targets ids decay_factor ttl w c))

  all-OnlyMarks :
      (ttl : ℕ) (d : Db F) (listed : Result (List String) × World F)
      → OnlyMarks d listed.1.db
      → OnlyMarks d (maintain_all targets ids decay_factor ttl listed).db
  all-OnlyMarks ttl d (err e, w) h = h
  all-OnlyMarks ttl d (ok chains, w) h =
      Steady-OnlyMarks.compose d w.db _ h (chains-OnlyMarks ttl chains w)

  list_chains-OnlyMarks : Respects (OnlyMarks {F = F}) list_chains
  unfolding list_chains
  list_chains-OnlyMarks = Respects-query Steady-OnlyMarks _

  tick-OnlyMarks : (ttl : ℕ) (w : World F) → OnlyMarks w.db (tick targets ids decay_factor ttl w).db
  unfolding tick
  tick-OnlyMarks ttl w = all-OnlyMarks ttl w.db (list_chains w) (list_chains-OnlyMarks.at w)

  ticks-OnlyMarks :
      (ttl n : ℕ) (w : World F) → OnlyMarks w.db (ticks targets ids decay_factor ttl n w).db
  ticks-OnlyMarks ttl zero w = Steady-OnlyMarks.unchanged w.db
  ticks-OnlyMarks ttl (suc n) w =
      Steady-OnlyMarks.compose w.db (tick targets ids decay_factor ttl w).db _
        (tick-OnlyMarks ttl w) (ticks-OnlyMarks ttl n (tick targets ids decay_factor ttl w))

  -- Over any number of ticks, and whichever calls fail, the maintenance of labels writes no other table,
  -- adds and removes no label, and changes of a label only the status, to stale or to conflicted, and
  -- the confidence with it.
  pub run_label_maintenance_loop-OnlyMarks :
      (interval stale_ttl : Option ℕ) (n : ℕ) (w : World F)
      → OnlyMarks w.db
          (run_label_maintenance_loop targets ids decay_factor interval stale_ttl n w).db
  unfolding run_label_maintenance_loop
  run_label_maintenance_loop-OnlyMarks none stale_ttl n w = Steady-OnlyMarks.unchanged w.db
  run_label_maintenance_loop-OnlyMarks (some interval) none n w = Steady-OnlyMarks.unchanged w.db
  run_label_maintenance_loop-OnlyMarks (some interval) (some stale_ttl) n w =
      ticks-OnlyMarks stale_ttl n w

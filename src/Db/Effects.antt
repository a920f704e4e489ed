-- ===== src/Db/Effects.antt =====
-- What a method computes where no call fails, as a function on the tables: a rule for each way to build
-- a method.
use blockchain_clustering.Base.{
  ◌≡◌, refl, ap, ◌∙◌, sym, Bool, true, false, List, [], ◌∷◌, if◌then◌else◌, Bool-cases, inl, inr,
}
use blockchain_clustering.Db.{
  Db, World, Error, Result, ok, err, Exec, pure, fail, statement, query, exec, time_now, ◌>>=◌,
  continue, fold_m, next_fault, later_faults, transaction, settle,
}

-- Where `m` succeeds, its result and the tables after it are what `f` gives for the tables before.
pub record Effect {F A : Type 0} (m : Exec F A) (f : Db F → A × Db F) : Type 0 where
  pub on_success : (w : World F) (a : A) → (m w).0 ≡ ok a → (a, (m w).1.db) ≡ f w.db

-- The loop of `fold_m` on the tables.
abbrev pub fold_db : {F A S : Type 0} → (S → A → Db F → S × Db F) → S → List A → Db F → S × Db F
fold_db g s [] d = (s, d)
fold_db g s (a ∷ rest) d = let (s', d') = g s a d in fold_db g s' rest d'

ok_inj : {A : Type 0} (a b : A) → ok a ≡ ok b → a ≡ b
ok_inj a b e = cc (e)

module _ {F A : Type 0} where
  pub Effect-same :
      {m : Exec F A} {f g : Db F → A × Db F} → Effect m f → ((d : Db F) → f d ≡ g d) → Effect m g
  Effect-same h e = record { on_success = λ w a s. h.on_success w a s ∙ e w.db }

  pub Effect-pure : (a : A) → Effect (pure {F = F} a) (λ d. (a, d))
  unfolding pure
  Effect-pure a = record { on_success = λ w b e. ap (λ x. (x, w.db)) (sym (ok_inj a b e)) }

  pub Effect-fail : (e : Error) (f : Db F → A × Db F) → Effect (fail e) f
  unfolding fail
  Effect-fail e f = record { on_success = λ w a h. absurd (cc (h)) }

  pub Effect-statement : (f : Db F → A × Db F) → Effect (statement f) f
  unfolding statement
  Effect-statement f = record {
    on_success = λ w a. elim (Bool-cases (next_fault w.faults)) [
      | inl broken ↦ rw (broken, statement) (λ h. absurd (cc (h)))
      | inr works ↦
          rw (works, statement) (λ h. ap (λ x. (x, (f w.db).1)) (sym (ok_inj (f w.db).0 a h)))
    ];
  }

  pub Effect-query : (f : Db F → A) → Effect (query f) (λ d. (f d, d))
  unfolding query
  Effect-query f = Effect-statement (λ d. (f d, d))

  pub Effect-either :
      (b : Bool) (m n : Exec F A) (f : Db F → A × Db F)
      → Effect m f
      → Effect n f
      → Effect (if b then m else n) f
  Effect-either true m n f hm hn = hm
  Effect-either false m n f hm hn = hn

  pub Effect-if :
      (b : Bool) (m n : Exec F A) (f g : Db F → A × Db F)
      → Effect m f
      → Effect n g
      → Effect (if b then m else n) (λ d. if b then f d else g d)
  Effect-if true m n f g hm hn = hm
  Effect-if false m n f g hm hn = hn

  Effect-settle :
      (before : Db F) (r : Result A) (w : World F) (a : A)
      → (settle before r w).0 ≡ ok a
      → (r ≡ ok a) × ((settle before r w).1.db ≡ w.db)
  Effect-settle before (ok b) w a = elim (Bool-cases (next_fault w.faults)) [
    | inl broken ↦ rw broken (λ h. absurd (cc (h)))
    | inr works ↦ rw works (λ h. (h, refl))
  ]
  Effect-settle before (err e) w a = λ h. absurd (cc (h))

  pub Effect-transaction :
      (m : Exec F A) (f : Db F → A × Db F) → Effect m f → Effect (transaction m) f
  unfolding transaction
  Effect-transaction m f h = record {
    on_success = λ w a. elim (Bool-cases (next_fault w.faults)) [
      | inl broken ↦ rw (broken, transaction) (λ e. absurd (cc (e)))
      | inr works ↦
          rw (works, transaction)
            (λ e.
              let start : World F = record w { faults = later_faults w.faults } in
              let (fine, same) = Effect-settle w.db (m start).0 (m start).1 a e in
              ap (λ d. (a, d)) same ∙ h.on_success start a fine)
    ];
  }

  settle_restores :
      (before : Db F) (r : Result A) (w : World F) (e : Error)
      → (settle before r w).0 ≡ err e
      → (settle before r w).1.db ≡ before
  settle_restores before (ok b) w e = elim (Bool-cases (next_fault w.faults)) [
    | inl broken ↦ rw broken (λ _. refl)
    | inr works ↦ rw works (λ h. absurd (cc (h)))
  ]
  settle_restores before (err x) w e = λ _. refl

  -- A transaction that fails leaves the tables as they were.
  pub transaction_restores :
      (m : Exec F A) (w : World F) (e : Error)
      → (transaction m w).0 ≡ err e
      → (transaction m w).1.db ≡ w.db
  unfolding transaction
  transaction_restores m w e = elim (Bool-cases (next_fault w.faults)) [
    | inl broken ↦ rw (broken, transaction) (λ _. refl)
    | inr works ↦
        rw (works, transaction)
          (let start : World F = record w { faults = later_faults w.faults } in
            settle_restores w.db (m start).0 (m start).1 e)
  ]

module _ {F : Type 0} where
  pub Effect-exec : (f : Db F → Db F) → Effect (exec f) (λ d. (tt, f d))
  unfolding exec
  Effect-exec f = Effect-statement (λ d. (tt, f d))

  pub Effect-time_now : Effect (time_now {F = F}) (λ d. (d.now, d))
  unfolding time_now
  Effect-time_now = record { on_success = λ w a e. ap (λ x. (x, w.db)) (sym (ok_inj w.db.now a e)) }

module _ {F A B : Type 0} where
  continue_ok :
      (r : Result A) (k : A → Exec F B) (w : World F) (b : B)
      → (continue r k w).0 ≡ ok b
      → (a : A) × (r ≡ ok a) × ((continue r k w) ≡ k a w)
  continue_ok (ok a) k w b h = (a, refl, refl)
  continue_ok (err e) k w b h = absurd (cc (h))

  Effect-continue :
      (r : Result A) (w : World F) (k : A → Exec F B) (g : A → Db F → B × Db F) (p : A × Db F)
      → ((a : A) → r ≡ ok a → (a, w.db) ≡ p)
      → ((a : A) → Effect (k a) (g a))
      → (b : B) → (continue r k w).0 ≡ ok b
      → (b, (continue r k w).1.db) ≡ g p.0 p.1
  Effect-continue (ok a) w k g p before after b h =
      (after a).on_success w b h ∙ ap (λ (q : A × Db F). g q.0 q.1) (before a refl)
  Effect-continue (err e) w k g p before after b h = absurd (cc (h))

  pub Effect-bind :
      (m : Exec F A) (k : A → Exec F B) (f : Db F → A × Db F) (g : A → Db F → B × Db F)
      → Effect m f
      → ((a : A) → Effect (k a) (g a))
      → Effect (m >>= k) (λ d. let (a, d') = f d in g a d')
  unfolding ◌>>=◌
  Effect-bind m k f g hm hk = record {
    on_success = λ w b h. Effect-continue (m w).0 (m w).1 k g (f w.db) (hm.on_success w) hk b h;
  }

module _ {F A S : Type 0} where
  pub Effect-fold :
      (step : S → A → Exec F S) (g : S → A → Db F → S × Db F)
      → ((s : S) (a : A) → Effect (step s a) (g s a))
      → (s : S) (xs : List A) → Effect (fold_m step s xs) (fold_db g s xs)
  unfolding fold_m
  Effect-fold step g h s [] = record {
    on_success = λ w a e. ap (λ x. (x, w.db)) (sym (ok_inj s a e));
  }
  Effect-fold step g h s (a ∷ rest) = record {
    on_success = λ w b e.
        Effect-continue (step s a w).0 (step s a w).1 (λ s'. fold_m step s' rest)
          (λ s' d. fold_db g s' rest d) (g s a w.db) ((h s a).on_success w)
          (λ s'. Effect-fold step g h s' rest) b e;
  }

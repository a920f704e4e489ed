-- ===== src/Db/Respects.antt =====
-- What a method keeps of the tables, on every path: a rule for each way to build a method.
use blockchain_clustering.Base.{
  Bool, true, false, List, [], ◌∷◌, if◌then◌else◌, Bool-cases, inl, inr,
}
use blockchain_clustering.Db.{
  Db, World, Error, Result, ok, err, Exec, pure, fail, statement, query, exec, ◌>>=◌, continue,
  fold_m, next_fault,
}

-- A relation between the tables before and after that holds across any number of steps.
pub record Steady {F : Type 0} (R : Db F → Db F → Type 0) : Type 0 where
  pub unchanged : (d : Db F) → R d d
  pub compose : (a b c : Db F) → R a b → R b c → R a c

-- `m` turns the tables into related ones, whether or not it fails.
pub record Respects {F A : Type 0} (R : Db F → Db F → Type 0) (m : Exec F A) : Type 0 where
  pub at : (w : World F) → R w.db (m w).1.db

module _ {F A : Type 0} {R : Db F → Db F → Type 0} (steady : Steady R) where
  pub Respects-pure : (a : A) → Respects R (pure {F = F} a)
  unfolding pure
  Respects-pure a = record { at = λ w. steady.unchanged w.db }

  pub Respects-fail : (e : Error) → Respects R (fail {F = F} {A = A} e)
  unfolding fail
  Respects-fail e = record { at = λ w. steady.unchanged w.db }

  pub Respects-statement :
      (f : Db F → A × Db F) → ((d : Db F) → R d (f d).1) → Respects R (statement f)
  unfolding statement
  Respects-statement f h = record {
    at = λ w. elim (Bool-cases (next_fault w.faults)) [
      | inl broken ↦ rw (broken, statement) (steady.unchanged w.db)
      | inr works ↦ rw (works, statement) (h w.db)
    ];
  }

  pub Respects-query : (f : Db F → A) → Respects R (query f)
  unfolding query
  Respects-query f = Respects-statement (λ d. (f d, d)) steady.unchanged

  pub Respects-if :
      (b : Bool) (m n : Exec F A) → Respects R m → Respects R n → Respects R (if b then m else n)
  Respects-if true m n km kn = km
  Respects-if false m n km kn = kn

module _ {F : Type 0} {R : Db F → Db F → Type 0} (steady : Steady R) where
  pub Respects-exec : (f : Db F → Db F) → ((d : Db F) → R d (f d)) → Respects R (exec f)
  unfolding exec
  Respects-exec f h = Respects-statement steady (λ d. (tt, f d)) h

module _ {F A B : Type 0} {R : Db F → Db F → Type 0} (steady : Steady R) where
  Respects-continue :
      (d : Db F) (r : Result A) (f : A → Exec F B) (w : World F)
      → R d w.db
      → ((a : A) → Respects R (f a))
      → R d (continue r f w).1.db
  Respects-continue d (ok a) f w h k = steady.compose d w.db _ h ((k a).at w)
  Respects-continue d (err e) f w h k = h

  pub Respects-bind :
      (m : Exec F A) (f : A → Exec F B)
      → Respects R m
      → ((a : A) → Respects R (f a))
      → Respects R (m >>= f)
  unfolding ◌>>=◌
  Respects-bind m f km kf = record {
    at = λ w. let (r, w') = m w in Respects-continue w.db r f w' (km.at w) kf;
  }

module _ {F A S : Type 0} {R : Db F → Db F → Type 0} (steady : Steady R) where
  pub Respects-fold :
      (f : S → A → Exec F S)
      → ((s : S) (a : A) → Respects R (f s a))
      → (s : S) (xs : List A) → Respects R (fold_m f s xs)
  unfolding fold_m
  Respects-fold f h s [] = record { at = λ w. steady.unchanged w.db }
  Respects-fold f h s (a ∷ rest) = record {
    at = λ w.
        let (r, w') = f s a w in
        Respects-continue steady w.db r (λ s'. fold_m f s' rest) w' ((h s a).at w)
          (λ s'. Respects-fold f h s' rest);
  }

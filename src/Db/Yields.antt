-- ===== src/Db/Yields.antt =====
-- What the result of a method that only reads satisfies, on given tables: a rule for each way to build one.
use blockchain_clustering.Base.{
  ◌≡◌, refl, ap, ◌∙◌, sym, subst, inl, inr, Bool, true, false, List, [], ◌∷◌, Option, none, some,
  Memᴰ, if◌then◌else◌, Bool-cases,
}
use blockchain_clustering.Db.{
  Db, World, Error, Result, ok, err, Exec, pure, fail, statement, query, ◌>>=◌, continue, fold_m,
  next_fault,
}

abbrev pub Holds : {A : Type 0} → (A → Type 0) → Result A → Type 0
Holds P (ok a) = P a
Holds P (err e) = Unit

-- On the tables `d`, the method leaves them, and a result that it returns satisfies `P`.
pub record Yields {F A : Type 0} (d : Db F) (P : A → Type 0) (m : Exec F A) : Type 0 where
  pub at : (w : World F) → w.db ≡ d → Holds P (m w).0 × ((m w).1.db ≡ d)

module _ {F A : Type 0} {d : Db F} {P : A → Type 0} where
  pub Yields-pure : (a : A) → P a → Yields d P (pure a)
  unfolding pure
  Yields-pure a p = record { at = λ w e. (p, e) }

  pub Yields-fail : (e : Error) → Yields d P (fail e)
  unfolding fail
  Yields-fail x = record { at = λ w e. (tt, e) }

  pub Yields-query : (f : Db F → A) → P (f d) → Yields d P (query f)
  unfolding query statement
  Yields-query f p = record {
    at = λ w e. elim (Bool-cases (next_fault w.faults)) [
      | inl broken ↦ rw (broken, query, statement) (tt, e)
      | inr works ↦ rw (works, query, statement) (subst (λ x. P (f x)) (sym e) p, e)
    ];
  }

  -- A statement that changes nothing on these tables.
  pub Yields-statement : (f : Db F → A × Db F) → (f d).1 ≡ d → P (f d).0 → Yields d P (statement f)
  unfolding statement
  Yields-statement f same p = record {
    at = λ w e. elim (Bool-cases (next_fault w.faults)) [
      | inl broken ↦ rw (broken, statement) (tt, e)
      | inr works ↦
          rw (works, statement) (subst (λ x. P (f x).0) (sym e) p, ap (λ x. (f x).1) e ∙ same)
    ];
  }

  pub Yields-if :
      (b : Bool) (m n : Exec F A)
      → (b ≡ true → Yields d P m)
      → (b ≡ false → Yields d P n)
      → Yields d P (if b then m else n)
  Yields-if true m n hm hn = hm refl
  Yields-if false m n hm hn = hn refl

  pub yielded :
      {m : Exec F A} → Yields d P m → (w : World F) → w.db ≡ d → (a : A) → (m w).0 ≡ ok a → P a
  yielded h w e a fine = subst (Holds P) fine (h.at w e).0

module _ {F A B : Type 0} {d : Db F} {P : B → Type 0} where
  Yields-continue :
      (Q : A → Type 0) (r : Result A) (w : World F) (k : A → Exec F B)
      → Holds Q r
      → w.db ≡ d
      → ((a : A) → Q a → Yields d P (k a))
      → Holds P (continue r k w).0 × ((continue r k w).1.db ≡ d)
  Yields-continue Q (ok a) w k q e h = (h a q).at w e
  Yields-continue Q (err x) w k q e h = (tt, e)

  pub Yields-bind :
      (Q : A → Type 0) (m : Exec F A) (k : A → Exec F B)
      → Yields d Q m
      → ((a : A) → Q a → Yields d P (k a))
      → Yields d P (m >>= k)
  unfolding ◌>>=◌
  Yields-bind Q m k hm hk = record {
    at = λ w e. let (q, same) = hm.at w e in Yields-continue Q (m w).0 (m w).1 k q same hk;
  }

  pub Yields-option :
      (o : Option A) (m : Exec F B) (k : A → Exec F B)
      → Yields d P m
      → ((a : A) → o ≡ some a → Yields d P (k a))
      → Yields d P (elim o as (λ _. Exec F B) [ none ↦ m | some a ↦ k a ])
  Yields-option none m k hm hk = hm
  Yields-option (some a) m k hm hk = hk a refl

  pub Yields-list :
      (xs : List A) (m : Exec F B) (k : A → List A → Exec F B)
      → Yields d P m
      → ((a : A) (rest : List A) → xs ≡ a ∷ rest → Yields d P (k a rest))
      → Yields d P (elim xs as (λ _. Exec F B) [ [] ↦ m | a ∷ rest ↦ k a rest ])
  Yields-list [] m k hm hk = hm
  Yields-list (a ∷ rest) m k hm hk = hk a rest refl

-- An invariant of a loop.
pub Yields-fold :
    {F A S : Type 0} {d : Db F} (P : S → Type 0) (step : S → A → Exec F S) (s : S) (xs : List A)
    → ((t : S) (a : A) → Memᴰ a xs → P t → Yields d P (step t a))
    → P s
    → Yields d P (fold_m step s xs)
unfolding fold_m
Yields-fold P step s [] h p = record { at = λ w e. (p, e) }
Yields-fold P step s (a ∷ xs) h p = record {
  at = λ w e.
      let (q, same) = (h s a (Memᴰ.head refl) p).at w e in
      Yields-continue P (step s a w).0 (step s a w).1 (λ t. fold_m step t xs) q same
        (λ t pt. Yields-fold P step t xs (λ u b m. h u b (Memᴰ.tail m)) pt);
}

-- An invariant of a loop that also speaks of what is left to do.
pub Yields-along :
    {F A S : Type 0} {d : Db F} (P : S → List A → Type 0) (step : S → A → Exec F S) (s : S)
    (xs : List A)
    → ((t : S) (a : A) (rest : List A) → P t (a ∷ rest) → Yields d (λ u. P u rest) (step t a))
    → P s xs
    → Yields d (λ u. P u []) (fold_m step s xs)
unfolding fold_m
Yields-along P step s [] h p = record { at = λ w e. (p, e) }
Yields-along P step s (a ∷ xs) h p = record {
  at = λ w e.
      let (q, same) = (h s a xs p).at w e in
      Yields-continue (λ u. P u xs) (step s a w).0 (step s a w).1 (λ t. fold_m step t xs) q same
        (λ t pt. Yields-along P step t xs h pt);
}

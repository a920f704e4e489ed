-- ===== src/Db/Atomic.antt =====
-- Methods that leave the tables as they were where they fail.
use blockchain_clustering.Base.{◌≡◌, refl, ◌∙◌, ◌⊎◌, inl, inr, Bool, true, false, if◌then◌else◌}
use blockchain_clustering.Db.{
  Db, World, Error, Result, ok, err, Exec, pure, fail, statement, ◌>>=◌, continue, next_fault,
  transaction,
}
use blockchain_clustering.Db.Effects.{transaction_restores}
use blockchain_clustering.Db.Respects.{Steady, Respects}
use blockchain_clustering.Base.{Bool-cases}

pub Result-cases :
    {A : Type 0} (r : Result A) → ((a : A) × (r ≡ ok a)) ⊎ ((e : Error) × (r ≡ err e))
Result-cases (ok a) = inl (a, refl)
Result-cases (err e) = inr (e, refl)

-- A method that only reads.
abbrev pub ReadsOnly : {F A : Type 0} → Exec F A → Type 0
ReadsOnly {F} m = Respects (λ (a b : Db F). b ≡ a) m

pub Steady-same : {F : Type 0} → Steady (λ (a b : Db F). b ≡ a)
Steady-same = record { unchanged = λ d. refl; compose = λ a b c h k. k ∙ h }

-- Where `m` fails, the tables are as they were.
pub record Atomic {F A : Type 0} (m : Exec F A) : Type 0 where
  pub on_failure : (w : World F) (e : Error) → (m w).0 ≡ err e → (m w).1.db ≡ w.db

module _ {F A : Type 0} where
  pub Atomic-transaction : (m : Exec F A) → Atomic (transaction m)
  Atomic-transaction m = record { on_failure = transaction_restores m }

  pub Atomic-reads : (m : Exec F A) → ReadsOnly m → Atomic m
  Atomic-reads m h = record { on_failure = λ w e _. h.at w }

module _ {F A B : Type 0} where
  Atomic-continue :
      (r : Result A) (w : World F) (k : A → Exec F B)
      → ((a : A) → Atomic (k a))
      → (e : Error) → (continue r k w).0 ≡ err e
      → (continue r k w).1.db ≡ w.db
  Atomic-continue (ok a) w k h e = (h a).on_failure w e
  Atomic-continue (err x) w k h e = λ _. refl

  pub Atomic-after :
      (m : Exec F A) (k : A → Exec F B) → ReadsOnly m → ((a : A) → Atomic (k a)) → Atomic (m >>= k)
  unfolding ◌>>=◌
  Atomic-after m k reads h = record {
    on_failure = λ w e s. Atomic-continue (m w).0 (m w).1 k h e s ∙ reads.at w;
  }

module _ {F A : Type 0} where
  pub Atomic-statement : (f : Db F → A × Db F) → Atomic (statement f)
  unfolding statement
  Atomic-statement f = record {
    on_failure = λ w e. elim (Bool-cases (next_fault w.faults)) [
      | inl broken ↦ rw (broken, statement) (λ _. refl)
      | inr works ↦ rw (works, statement) (λ h. absurd (cc (h)))
    ];
  }

  pub Atomic-if : (b : Bool) (m n : Exec F A) → Atomic m → Atomic n → Atomic (if b then m else n)
  Atomic-if true m n hm hn = hm
  Atomic-if false m n hm hn = hn

  pub Atomic-fail : (e : Error) → Atomic (fail {F = F} {A = A} e)
  unfolding fail
  Atomic-fail e = record { on_failure = λ w x _. refl }

  pub Atomic-pure : (a : A) → Atomic (pure {F = F} a)
  unfolding pure
  Atomic-pure a = record { on_failure = λ w x _. refl }

module _ {F A B : Type 0} where
  Atomic-then-continue :
      (before : Db F) (r : Result A) (w : World F) (f : A → B)
      → ((e : Error) → r ≡ err e → w.db ≡ before)
      → (e : Error) → (continue r (λ a. pure (f a)) w).0 ≡ err e
      → (continue r (λ a. pure (f a)) w).1.db ≡ before
  unfolding pure
  Atomic-then-continue before (ok a) w f h e = λ x. absurd (cc (x))
  Atomic-then-continue before (err x) w f h e = λ _. h x refl

  -- What follows is a computation.
  pub Atomic-then : (m : Exec F A) (f : A → B) → Atomic m → Atomic (m >>= (λ a. pure (f a)))
  unfolding ◌>>=◌
  Atomic-then m f h = record {
    on_failure = λ w. Atomic-then-continue w.db (m w).0 (m w).1 f (h.on_failure w);
  }

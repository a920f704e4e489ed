-- ===== src/Db/Reads.antt =====
-- Methods that only read: a rule for each way to build one.
use blockchain_clustering.Base.{Bool, List, [], ◌∷◌, Option, none, some, if◌then◌else◌}
use blockchain_clustering.Db.{Db, Error, Exec, pure, fail, query, ◌>>=◌, fold_m}
use blockchain_clustering.Db.Atomic.{ReadsOnly, Steady-same}
use blockchain_clustering.Db.Respects.{
  Respects-bind, Respects-fail, Respects-fold, Respects-if, Respects-pure, Respects-query,
}

module _ {F A : Type 0} where
  pub reads_pure : (a : A) → ReadsOnly (pure {F = F} a)
  reads_pure a = Respects-pure Steady-same a

  pub reads_fail : (e : Error) → ReadsOnly (fail {F = F} {A = A} e)
  reads_fail e = Respects-fail Steady-same e

  pub reads_query : (f : Db F → A) → ReadsOnly (query f)
  reads_query f = Respects-query Steady-same f

  pub reads_if :
      (b : Bool) (m n : Exec F A) → ReadsOnly m → ReadsOnly n → ReadsOnly (if b then m else n)
  reads_if b m n hm hn = Respects-if Steady-same b m n hm hn

module _ {F A B : Type 0} where
  pub reads_bind :
      (m : Exec F A) (k : A → Exec F B)
      → ReadsOnly m
      → ((a : A) → ReadsOnly (k a))
      → ReadsOnly (m >>= k)
  reads_bind m k hm hk = Respects-bind Steady-same m k hm hk

  pub reads_option :
      (o : Option A) (m : Exec F B) (k : A → Exec F B)
      → ReadsOnly m
      → ((a : A) → ReadsOnly (k a))
      → ReadsOnly (elim o as (λ _. Exec F B) [ none ↦ m | some a ↦ k a ])
  reads_option none m k hm hk = hm
  reads_option (some a) m k hm hk = hk a

  pub reads_list :
      (xs : List A) (m : Exec F B) (k : A → List A → Exec F B)
      → ReadsOnly m
      → ((a : A) (rest : List A) → ReadsOnly (k a rest))
      → ReadsOnly (elim xs as (λ _. Exec F B) [ [] ↦ m | a ∷ rest ↦ k a rest ])
  reads_list [] m k hm hk = hm
  reads_list (a ∷ rest) m k hm hk = hk a rest

  pub reads_fold :
      (step : B → A → Exec F B)
      → ((b : B) (a : A) → ReadsOnly (step b a))
      → (b : B) (xs : List A) → ReadsOnly (fold_m step b xs)
  reads_fold step h b xs = Respects-fold Steady-same step h b xs

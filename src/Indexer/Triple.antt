-- ===== src/Indexer/Triple.antt =====
-- What a call of the indexer that returns ensures: a rule for each way to build one.
use blockchain_clustering.Base.{
  ◌≡◌, refl, inl, inr, ℕ, Bool, true, false, Option, none, some, if◌then◌else◌, Bool-cases,
  Option-cases,
}
use blockchain_clustering.Indexer.{
  Call, Node, World, ask, continue, later, pure, read, write, ◌>>=◌,
}

abbrev pub After : {A : Type 0} → (A → World → Type 0) → Option A → World → Type 0
After Q none w = Unit
After Q (some a) w = Q a w

-- From a state with `P`, a result and the state that comes with it satisfy `Q`.
pub record Ensures {A : Type 0} (P : World → Type 0) (Q : A → World → Type 0) (m : Call A)
    : Type 0 where
  pub at : (w : World) → P w → After Q (m w).0 (m w).1

module _ {A : Type 0} {P : World → Type 0} {Q : A → World → Type 0} where
  pub Ensures-pure : (a : A) → ((w : World) → P w → Q a w) → Ensures P Q (pure a)
  unfolding pure
  Ensures-pure a h = record { at = h }

  pub Ensures-if :
      (b : Bool) (m n : Call A)
      → (b ≡ true → Ensures P Q m)
      → (b ≡ false → Ensures P Q n)
      → Ensures P Q (if b then m else n)
  Ensures-if true m n hm hn = hm refl
  Ensures-if false m n hm hn = hn refl

  pub Ensures-ask :
      (f : ℕ → Option A)
      → ((w : World) (a : A) → f w.instant ≡ some a → P w → Q a (later w))
      → Ensures P Q (ask f)
  unfolding ask
  Ensures-ask f h = record {
    at = λ w p. elim (Option-cases (f w.instant)) [
      | inl fails ↦ rw (fails, ask) tt
      | inr (a, is) ↦ rw (is, ask) (h w a is p)
    ];
  }

  pub Ensures-read :
      (node : Node) (down : ℕ → Bool) (f : World → A)
      → ((w : World) → P w → Q (f w) (later w))
      → Ensures P Q (read node down f)
  unfolding read
  Ensures-read node down f h = record {
    at = λ w p. elim (Bool-cases (down w.instant)) [
      | inl fails ↦ rw (fails, read) tt
      | inr works ↦ rw (works, read) (h w p)
    ];
  }

module _ {P : World → Type 0} {Q : Unit {0} → World → Type 0} where
  pub Ensures-write :
      (node : Node) (down : ℕ → Bool) (f : World → World)
      → ((w : World) → P w → Q tt (later (f w)))
      → Ensures P Q (write node down f)
  unfolding write
  Ensures-write node down f h = record {
    at = λ w p. elim (Bool-cases (down w.instant)) [
      | inl fails ↦ rw (fails, write) tt
      | inr works ↦ rw (works, write) (h w p)
    ];
  }

module _ {A B : Type 0} {Q : B → World → Type 0} where
  Ensures-continue :
      (R : A → World → Type 0) (r : Option A) (k : A → Call B) (w : World)
      → After R r w
      → ((a : A) → Ensures (R a) Q (k a))
      → After Q (continue r k w).0 (continue r k w).1
  Ensures-continue R none k w h hk = tt
  Ensures-continue R (some a) k w h hk = (hk a).at w h

module _ {A B : Type 0} {P : World → Type 0} {Q : B → World → Type 0} where
  pub Ensures-bind :
      (R : A → World → Type 0) (m : Call A) (k : A → Call B)
      → Ensures P R m
      → ((a : A) → Ensures (R a) Q (k a))
      → Ensures P Q (m >>= k)
  unfolding ◌>>=◌
  Ensures-bind R m k hm hk = record {
    at = λ w p. Ensures-continue R (m w).0 k (m w).1 (hm.at w p) hk;
  }

  pub Ensures-option :
      (o : Option A) (m : Call B) (k : A → Call B)
      → (o ≡ none → Ensures P Q m)
      → ((a : A) → o ≡ some a → Ensures P Q (k a))
      → Ensures P Q (elim o as (λ _. Call B) [ none ↦ m | some a ↦ k a ])
  Ensures-option none m k hm hk = hm refl
  Ensures-option (some a) m k hm hk = hk a refl

-- What does not speak of the state is kept.
pub Ensures-and :
    {A X : Type 0} {P : World → Type 0} {Q : A → World → Type 0} (m : Call A)
    → Ensures P Q m
    → Ensures (λ w. X × P w) (λ a w. X × Q a w) m
Ensures-and {A} {X} {P} {Q} m h = record { at = λ w (x, p). both x (m w).0 (m w).1 (h.at w p) }
  where
    both : X → (r : Option A) (w : World) → After Q r w → After (λ a v. X × Q a v) r w
    both x none w q = tt
    both x (some a) w q = (x, q)

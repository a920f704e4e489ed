-- ===== src/Base/Float.antt =====
-- Go's float64, whose arithmetic is the hardware's: the operations that the programs use, and the
-- three facts on its strict order that IEEE 754 gives for every value, NaN included.
use Prim.Native.Nat.{ℕ, ◌+◌, ◌-◌, ◌*◌, ◌/◌, ◌^◌}
use mathlib.Core.Path.{◌≡◌}
use mathlib.Core.Bool.{Bool, true, false}
use native.Mathlib.Omega.{arith}
use blockchain_clustering.Base.Tests.{ltb as nat_ltb, leb as nat_leb}

pub record Float64 (F : Type 0) : Type 0 where
  -- a constant `n / 10 ^ k`, such as 0.99 or 1e-9, and `float64(n)` at k = 0
  pub decimal : ℕ → ℕ → F
  pub add : F → F → F
  pub sub : F → F → F
  pub mul : F → F → F
  pub quo : F → F → F
  pub ltb : F → F → Bool
  pub leb : F → F → Bool
  -- what a column NUMERIC(4,3) keeps of a value: it is rounded to three decimals
  pub column : F → F
  pub ltb_irrefl : (a : F) → ltb a a ≡ false
  pub ltb_asymm : (a b : F) → ltb a b ≡ true → ltb b a ≡ false
  pub ltb_trans : (a b c : F) → ltb a b ≡ true → ltb b c ≡ true → ltb a c ≡ true

module _ {F : Type 0} ⦃fl : Float64 F⦄ where
  abbrev pub float : ℕ → F
  float n = fl.decimal n 0

-- Values in thousandths: a type that meets the assumptions, for tests.
pub thousandth-ltb_asymm : (a b : ℕ) → nat_ltb a b ≡ true → nat_ltb b a ≡ false
thousandth-ltb_asymm a b h = ground arith

pub thousandth-ltb_trans :
    (a b c : ℕ) → nat_ltb a b ≡ true → nat_ltb b c ≡ true → nat_ltb a c ≡ true
thousandth-ltb_trans a b c h k = ground arith

pub thousandth-ltb_irrefl : (a : ℕ) → nat_ltb a a ≡ false
thousandth-ltb_irrefl a = ground arith

instance unfoldable pub milli : Float64 ℕ
milli = record {
  decimal = λ n k. n * 1000 / 10 ^ k;
  add = λ a b. a + b;
  sub = λ a b. a - b;
  mul = λ a b. a * b / 1000;
  quo = λ a b. a * 1000 / b;
  ltb = nat_ltb;
  leb = nat_leb;
  column = λ a. a;
  ltb_irrefl = thousandth-ltb_irrefl;
  ltb_asymm = thousandth-ltb_asymm;
  ltb_trans = thousandth-ltb_trans;
}

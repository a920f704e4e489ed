-- ===== src/Base/Decimal/RoundTrip.antt =====
-- Decimal text is read back as the number that was printed.
use Prim.Native.Char.{Char, code}
use Prim.Native.String.{[], ◌∷◌}
use Prim.Native.String.append
use blockchain_clustering.Base.{
  ◌≡◌, refl, ap, ◌∙◌, sym, subst, inl, inr, ℕ, zero, suc, ◌+◌, ◌-◌, ◌*◌, ◌/◌, ◌%◌, ◌≤◌, ◌<◌, String,
  false, Option, none, some, ltb, leb, ◌&&◌, ◌<>◌, ◌==◌, nat_eq, Bool-cases, arith,
}
use blockchain_clustering.Base.Decimal.{
  decimal_within, digit, digits, digits_onto, parse_int, print_decimal,
}
use blockchain_clustering.Base.Int.{neg, pos}

-- Reading on where another reading left off.
onto_rest : Option ℕ → String → Option ℕ
onto_rest none t = none
onto_rest (some n) t = digits_onto n t

append-nil_left : (t : String) → ([] <> t) ≡ t
append-nil_left t i = append.nil t i

append-cons : (c : Char) (s t : String) → (c ∷ s <> t) ≡ c ∷ (s <> t)
append-cons c s t i = append.cons c s t i

digits_onto-append : (s t : String) (n : ℕ) → digits_onto n (s <> t) ≡ onto_rest (digits_onto n s) t
unfolding digits_onto onto_rest
digits_onto-append [] t n = ap (digits_onto n) (append-nil_left t)
digits_onto-append (c ∷ cs) t n =
    ap (digits_onto n) (append-cons c cs t)
    ∙ elim (Bool-cases (leb 48 (code c) && leb (code c) 57)) [
      | inl is_digit ↦ rw is_digit (digits_onto-append cs t (n * 10 + (code c - 48)))
      | inr other ↦ rw other refl
    ]

digits_onto-digit : (n d : ℕ) → d < 10 → digits_onto n (digit d) ≡ some (n * 10 + d)
unfolding digits_onto digit
digits_onto-digit n zero h = refl
digits_onto-digit n (suc zero) h = refl
digits_onto-digit n (suc (suc zero)) h = refl
digits_onto-digit n (suc (suc (suc zero))) h = refl
digits_onto-digit n (suc (suc (suc (suc zero)))) h = refl
digits_onto-digit n (suc (suc (suc (suc (suc zero))))) h = refl
digits_onto-digit n (suc (suc (suc (suc (suc (suc zero)))))) h = refl
digits_onto-digit n (suc (suc (suc (suc (suc (suc (suc zero))))))) h = refl
digits_onto-digit n (suc (suc (suc (suc (suc (suc (suc (suc zero)))))))) h = refl
digits_onto-digit n (suc (suc (suc (suc (suc (suc (suc (suc (suc zero))))))))) h = refl
digits_onto-digit n (suc (suc (suc (suc (suc (suc (suc (suc (suc (suc d)))))))))) h =
    absurd (omega arith)

digits_onto-decimal_within : (f n : ℕ) → n ≤ f → digits_onto 0 (decimal_within f n) ≡ some n
unfolding decimal_within onto_rest
digits_onto-decimal_within zero n h =
    digits_onto-digit 0 (n % 10) (omega arith) ∙ ap some (omega arith)
digits_onto-decimal_within (suc f) n h = elim (Bool-cases (ltb n 10)) [
  | inl small ↦ rw small (digits_onto-digit 0 n (ground arith) ∙ ap some (omega arith))
  | inr large ↦
      let ih = digits_onto-decimal_within f (n / 10) (ground arith) in
      let last : some (n / 10 * 10 + n % 10) ≡ some n = ap some (omega arith) in
      rw large (
        digits_onto-append (decimal_within f (n / 10)) (digit (n % 10)) 0
        ∙ ap (λ o. onto_rest o (digit (n % 10))) ih
        ∙ digits_onto-digit (n / 10) (n % 10) (omega arith)
        ∙ last)
]

-- A text that is not empty.
abbrev IsText : String → Type 0
IsText [] = ⊥
IsText (_ ∷ _) = Unit

IsText-digit : (d : ℕ) → d < 10 → IsText (digit d)
unfolding digit
IsText-digit zero h = tt
IsText-digit (suc zero) h = tt
IsText-digit (suc (suc zero)) h = tt
IsText-digit (suc (suc (suc zero))) h = tt
IsText-digit (suc (suc (suc (suc zero)))) h = tt
IsText-digit (suc (suc (suc (suc (suc zero))))) h = tt
IsText-digit (suc (suc (suc (suc (suc (suc zero)))))) h = tt
IsText-digit (suc (suc (suc (suc (suc (suc (suc zero))))))) h = tt
IsText-digit (suc (suc (suc (suc (suc (suc (suc (suc zero)))))))) h = tt
IsText-digit (suc (suc (suc (suc (suc (suc (suc (suc (suc zero))))))))) h = tt
IsText-digit (suc (suc (suc (suc (suc (suc (suc (suc (suc (suc d)))))))))) h = absurd (omega arith)

IsText-append : (s t : String) → IsText s → IsText (s <> t)
IsText-append [] t h = absurd h
IsText-append (c ∷ cs) t h = subst IsText (sym (append-cons c cs t)) tt

IsText-decimal_within : (f n : ℕ) → IsText (decimal_within f n)
unfolding decimal_within
IsText-decimal_within zero n = IsText-digit (n % 10) (omega arith)
IsText-decimal_within (suc f) n = elim (Bool-cases (ltb n 10)) [
  | inl small ↦ rw small (IsText-digit n (ground arith))
  | inr large ↦ rw large (IsText-append _ (digit (n % 10)) (IsText-decimal_within f (n / 10)))
]

first_digit :
    (c : Char) (cs : String) (n : ℕ)
    → digits_onto 0 (c ∷ cs) ≡ some n
    → ((code c == 45) ≡ false) × ((code c == 43) ≡ false)
unfolding digits_onto
first_digit c cs n e = elim (Bool-cases (leb 48 (code c) && leb (code c) 57)) [
  | inl is_digit ↦ (ground arith, ground arith)
  | inr other ↦ absurd (cc (e, other))
]

-- Digits have no sign in front.
parse_int-digits :
    (s : String) (n : ℕ) → IsText s → digits_onto 0 s ≡ some n → parse_int s ≡ some (pos n)
unfolding parse_int digits
parse_int-digits [] n h e = absurd h
parse_int-digits (c ∷ cs) n h e =
    let (no_minus, no_plus) = first_digit c cs n e in rw (no_minus, no_plus, e) refl

pub parse_int-print_decimal : (n : ℕ) → parse_int (print_decimal n) ≡ some (pos n)
unfolding print_decimal
parse_int-print_decimal n =
    parse_int-digits _ n (IsText-decimal_within n n) (digits_onto-decimal_within n n (omega arith))

digits-text : (s : String) → IsText s → digits s ≡ digits_onto 0 s
unfolding digits
digits-text [] h = absurd h
digits-text (c ∷ cs) h = refl

pub parse_int-minus : (n : ℕ) → parse_int ("-" <> print_decimal n) ≡ some (neg (pos n))
unfolding parse_int print_decimal
parse_int-minus n =
    let text = digits-text _ (IsText-decimal_within n n) in
    let number = digits_onto-decimal_within n n (omega arith) in
    ap parse_int (append-cons "-" [] (decimal_within n n))
    ∙ rw (append-nil_left (decimal_within n n), text, number) refl

-- ===== src/Base/Json.antt =====
-- encoding/json as far as the programs use it. A raw message is given by what the parser reads:
-- no bytes, bytes that are not JSON, or a value. A number is a signed decimal, mantissa and exponent,
-- written with an integer literal exactly when the exponent is none.
use blockchain_clustering.Base.{ℕ, suc, String, Bool, List, [], ◌∷◌, Option, none, some}
use blockchain_clustering.Base.{◌==◌, string_eq, if◌then◌else◌, ◌&&◌, ◌^◌, ◌-◌}
use blockchain_clustering.Base.Int.{ℤ, pos, negsuc, leb_ℤ}
use blockchain_clustering.Base.Float.{Float64}

mutual
  pub data Json : Type 0 where
    null : Json
    bool : Bool → Json
    int : ℤ → Json
    frac : ℤ → ℕ → Json
    str : String → Json
    arr : Items → Json
    obj : Fields → Json

  pub data Items : Type 0 where
    nil : Items
    cons : Json → Items → Items

  pub data Fields : Type 0 where
    end : Fields
    field : String → Json → Fields → Fields

pub data RawMessage : Type 0 where
  absent : RawMessage
  malformed : RawMessage
  doc : Json → RawMessage

-- `json.Unmarshal` into a struct: an object, or null, which leaves every field as it was.
unfoldable pub fields_of : RawMessage → Option Fields
fields_of absent = none
fields_of malformed = none
fields_of (doc null) = some end
fields_of (doc (obj fs)) = some fs
fields_of (doc _) = none

-- The value of a key; a later duplicate wins. Keys are compared as written.
unfoldable pub key : String → Fields → Option Json
key k end = none
key k (field j v fs) = elim (key k fs) [ some w ↦ some w | none ↦ if j == k then some v else none ]

-- Decoding one field of a struct, whose zero value is `d`: a key that is missing or null leaves it,
-- and a value of another type is an error, `none`.
unfoldable pub string_field : String → String → Fields → Option String
unfolding key
string_field k d fs = elim (key k fs) [
  | none ↦ some d
  | some v ↦ elim v [ null ↦ some d | str s ↦ some s | _ ↦ none ]
]

unfoldable pub bool_field : String → Bool → Fields → Option Bool
unfolding key
bool_field k d fs = elim (key k fs) [
  | none ↦ some d
  | some v ↦ elim v [ null ↦ some d | bool b ↦ some b | _ ↦ none ]
]

-- The range of a signed integer of w + 1 bits.
abbrev pub in_range : ℕ → ℤ → Bool
in_range w n = leb_ℤ (negsuc (2 ^ w - 1)) n && leb_ℤ n (pos (2 ^ w - 1))

unfoldable pub int_field : ℕ → String → ℤ → Fields → Option ℤ
unfolding key
int_field w k d fs = elim (key k fs) [
  | none ↦ some d
  | some v ↦ elim v [ null ↦ some d | int n ↦ (if in_range w n then some n else none) | _ ↦ none ]
]

-- Fields of pointer type, `*float64`, `*int` and `*string`: nil unless the key has a value.
module _ {F : Type 0} ⦃fl : Float64 F⦄ where
  abbrev pub float_of : ℤ → ℕ → F
  float_of (pos n) k = fl.decimal n k
  float_of (negsuc n) k = fl.sub (fl.decimal 0 0) (fl.decimal (suc n) k)

  unfoldable pub float_pointer : String → Fields → Option (Option F)
  unfolding key
  float_pointer k fs = elim (key k fs) [
    | none ↦ some none
    | some v ↦ elim v [
      | null ↦ some none
      | int n ↦ some (some (float_of n 0))
      | frac n d ↦ some (some (float_of n d))
      | _ ↦ none
    ]
  ]

unfoldable pub int_pointer : ℕ → String → Fields → Option (Option ℤ)
unfolding key
int_pointer w k fs = elim (key k fs) [
  | none ↦ some none
  | some v ↦ elim v [
    | null ↦ some none
    | int n ↦ (if in_range w n then some (some n) else none)
    | _ ↦ none
  ]
]

unfoldable pub string_pointer : String → Fields → Option (Option String)
unfolding key
string_pointer k fs = elim (key k fs) [
  | none ↦ some none
  | some v ↦ elim v [ null ↦ some none | str s ↦ some (some s) | _ ↦ none ]
]

unfoldable pub strings : Items → Option (List String)
strings nil = some []
strings (cons v vs) = elim v [
  | str s ↦ elim (strings vs) [ none ↦ none | some ss ↦ some (s ∷ ss) ]
  | null ↦ elim (strings vs) [ none ↦ none | some ss ↦ some ("" ∷ ss) ]
  | _ ↦ none
]

unfoldable pub strings_field : String → Fields → Option (List String)
unfolding key strings
strings_field k fs = elim (key k fs) [
  | none ↦ some []
  | some v ↦ elim v [ null ↦ some [] | arr vs ↦ strings vs | _ ↦ none ]
]

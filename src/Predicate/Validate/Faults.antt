-- ===== src/Predicate/Validate/Faults.antt =====
-- The errors of src/predicate.rs that only a table or a literal can give.
use rustberg.Common.{
  ℕ, ◌==◌, ◌%◌, ◌&&◌, utf8_width, utf8_len, Text, codes, text_eq, Bool, true, false, Bool-cases,
  inl, inr, Option, none, some, List, [], ◌∷◌, Result, ok, err, ok_or, ◌>>=◌, ◌≡◌, refl, sym, ◌∙◌,
  arith,
}
use rustberg.Json.{
  Value, null, bool, number, string, array, object, Items, nil, cons, Fields, get, get_str, as_str,
}
use rustberg.Predicate.{
  Iceberg, PrimitiveType, boolean, int, long, float, double, date, time, timestamp, timestamptz,
  timestamp_ns, timestamptz_ns, string_type, uuid, binary, decimal, fixed, Field, Fault, no_values,
  values_not_array, no_literal_value, unknown_column, unknown_field_id, not_primitive, not_floating,
  wrong_literal, odd_hex, not_hex, panic, primitive_type,
}
use rustberg.Predicate.Hex.{hex_step, hex_pairs-cons}
use rustberg.Common.Percent.{hex_pair}
use rustberg.Predicate.Literals.{
  hex_pairs, literal_of, literal_object, from_hex, try_map, bytes_datum, datum_from_json,
  parse_literal, values_of, parse_literals,
}

-- The errors about a column or a literal. The others are about the shape of an expression, or about
-- a term or an operator that does not bind.
abbrev pub is_table_fault : Fault → Bool
is_table_fault no_values = true
is_table_fault values_not_array = true
is_table_fault no_literal_value = true
is_table_fault unknown_column = true
is_table_fault unknown_field_id = true
is_table_fault not_primitive = true
is_table_fault not_floating = true
is_table_fault wrong_literal = true
is_table_fault odd_hex = true
is_table_fault not_hex = true
is_table_fault panic = true
is_table_fault _ = false

module _ {ℓ} {A : Type ℓ} where
  -- A result whose error, if it is one, is of those.
  abbrev pub IsTabular : Result A Fault → Type ℓ
  IsTabular r = (e : Fault) → r ≡ err e → is_table_fault e ≡ true

  pub IsTabular-ok_or : (e : Fault) (o : Option A) → is_table_fault e ≡ true → IsTabular (ok_or e o)
  IsTabular-ok_or e none h f k = ground arith
  IsTabular-ok_or e (some a) h f k = ground arith

pub IsTabular->>= {ℓ κ} :
    {A : Type ℓ} {B : Type κ} (r : Result A Fault) (f : A → Result B Fault)
    → IsTabular r
    → ((a : A) → IsTabular (f a))
    → IsTabular (r >>= f)
IsTabular->>= (ok a) f h k = k a
IsTabular->>= (err e) f h k = λ g same. h g (cc)

hex_step-IsTabular :
    (o : Option ℕ) (rest : Result (List ℕ) Fault) → IsTabular rest → IsTabular (hex_step o rest)
unfolding hex_step
hex_step-IsTabular none rest k e h = ground arith
hex_step-IsTabular (some byte) (ok bytes) k e h = absurd (ground arith)
hex_step-IsTabular (some byte) (err f) k e h = k e (ground arith)

hex_pairs-IsTabular : (s : Text) → IsTabular (hex_pairs s)
unfolding hex_pairs
hex_pairs-IsTabular [] e h = ground arith
hex_pairs-IsTabular (c ∷ []) e h = ground arith
hex_pairs-IsTabular (c ∷ d ∷ s) e h = elim (Bool-cases (utf8_width c == 2)) [
  | inl two ↦ ground arith
  | inr other ↦ elim (Bool-cases (utf8_width c == 1 && utf8_width d == 1)) [
    | inr cut ↦ ground arith
    | inl ascii ↦
        hex_step-IsTabular (hex_pair c d) (hex_pairs s) (hex_pairs-IsTabular s) e
          (sym (hex_pairs-cons c d s other ascii) ∙ h)
  ]
]

from_hex-IsTabular : (s : Text) → IsTabular (from_hex s)
unfolding from_hex
from_hex-IsTabular s e h = elim (Bool-cases (utf8_len s % 2 == 0)) [
  | inl even ↦ hex_pairs-IsTabular s e (ground arith)
  | inr odd ↦ ground arith
]

module _ (ib : Iceberg) where
  bytes-IsTabular : (p : PrimitiveType) (v : Value) → IsTabular (bytes_datum ib p v)
  unfolding bytes_datum
  bytes-IsTabular p v =
      IsTabular->>= (ok_or wrong_literal (as_str v)) _
        (IsTabular-ok_or wrong_literal (as_str v) refl)
        (λ s.
          IsTabular->>= (from_hex s) _ (from_hex-IsTabular s) (λ bytes e h. absurd (ground arith)))

  datum-IsTabular : (v : Value) (p : PrimitiveType) → IsTabular (datum_from_json ib v p)
  unfolding datum_from_json
  datum-IsTabular v boolean e h = ground arith
  datum-IsTabular v int e h = ground arith
  datum-IsTabular v long e h = ground arith
  datum-IsTabular v float e h = ground arith
  datum-IsTabular v double e h = ground arith
  datum-IsTabular v date e h = ground arith
  datum-IsTabular v time e h = ground arith
  datum-IsTabular v timestamp e h = ground arith
  datum-IsTabular v timestamptz e h = ground arith
  datum-IsTabular v timestamp_ns e h = ground arith
  datum-IsTabular v timestamptz_ns e h = ground arith
  datum-IsTabular v string_type e h = ground arith
  datum-IsTabular v uuid e h = ground arith
  datum-IsTabular v binary e h = bytes-IsTabular binary v e h
  datum-IsTabular v (decimal p s) e h = ground arith
  datum-IsTabular v (fixed n) e h = bytes-IsTabular (fixed n) v e h

  try_map-IsTabular :
      (p : PrimitiveType) (xs : Items) → IsTabular (try_map (λ x. datum_from_json ib x p) xs)
  unfolding try_map
  try_map-IsTabular p nil = λ e h. ground arith
  try_map-IsTabular p (cons x xs) =
      IsTabular->>= (datum_from_json ib x p) _ (datum-IsTabular x p) (λ a.
        IsTabular->>= (try_map (λ y. datum_from_json ib y p) xs) _ (try_map-IsTabular p xs)
          (λ as' e h. absurd (ground arith)))

  type-IsTabular : (f : Field) → IsTabular (primitive_type f)
  unfolding primitive_type
  type-IsTabular f e h = ground arith

  literal_object-IsTabular :
      (v : Value) (o : Option Text) (fs : Fields) (p : PrimitiveType)
      → IsTabular (literal_object ib v o fs p)
  unfolding literal_object
  literal_object-IsTabular v none fs p = datum-IsTabular v p
  literal_object-IsTabular v (some t) fs p = elim (Bool-cases (text_eq t (codes "literal"))) [
    | inl wrapped ↦ rw wrapped (
        IsTabular->>= (ok_or no_literal_value (get fs (codes "value"))) _
          (IsTabular-ok_or no_literal_value (get fs (codes "value")) refl)
          (λ inner. datum-IsTabular inner p))
    | inr other ↦ rw other (datum-IsTabular v p)
  ]

  literal-IsTabular : (v : Value) (p : PrimitiveType) → IsTabular (literal_of ib v p)
  unfolding literal_of
  literal-IsTabular (object fs) p =
      literal_object-IsTabular (object fs) (get_str fs (codes "type")) fs p
  literal-IsTabular null p = datum-IsTabular null p
  literal-IsTabular (bool b) p = datum-IsTabular (bool b) p
  literal-IsTabular (number n) p = datum-IsTabular (number n) p
  literal-IsTabular (string s) p = datum-IsTabular (string s) p
  literal-IsTabular (array xs) p = datum-IsTabular (array xs) p

  pub parse_literal-IsTabular : (v : Value) (f : Field) → IsTabular (parse_literal ib v f)
  unfolding parse_literal
  parse_literal-IsTabular v f =
      IsTabular->>= (primitive_type f) _ (type-IsTabular f) (λ p. literal-IsTabular v p)

  values-IsTabular : (v : Value) → IsTabular (values_of v)
  unfolding values_of
  values-IsTabular v e h = ground arith

  pub parse_literals-IsTabular : (v : Value) (f : Field) → IsTabular (parse_literals ib v f)
  unfolding parse_literals
  parse_literals-IsTabular v f =
      IsTabular->>= (primitive_type f) _ (type-IsTabular f)
        (λ p. IsTabular->>= (values_of v) _ (values-IsTabular v) (λ xs. try_map-IsTabular p xs))

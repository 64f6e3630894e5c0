-- ===== src/Predicate/Literals.antt =====
-- The literals of src/predicate.rs, read by the type of the column.
use rustberg.Common.{
  ℕ, ◌%◌, ℤ, fits_i32, Text, codes, text_eq, Bool, true, false, not, ◌&&◌, Option, none, some, List,
  [], ◌∷◌, Result, ok, err, ok_or, ◌>>=◌, if◌then◌else◌, ◌==◌, utf8_width, utf8_len,
}
unfoldable use rustberg.Common.Percent.{hex_pair}
use rustberg.Json.{
  Value, number, string, array, object, Items, nil, cons, Fields, get, get_str, as_str, as_bool,
  as_i64,
}
use rustberg.Predicate.{
  Iceberg, PrimitiveType, boolean, int, long, float, double, date, time, timestamp, timestamptz,
  timestamp_ns, timestamptz_ns, string_type, uuid, binary, decimal, fixed, Field, primitive_type,
  Fault, no_literal_value, values_not_array, no_values, wrong_literal, odd_hex, not_hex, panic,
}

-- The text in slices of two bytes. A slice that ends inside a character aborts; one that is a whole
-- character of two bytes is no number. The first error ends the loop.
unfoldable pub hex_pairs : Text → Result (List ℕ) Fault
unfolding hex_pair
hex_pairs [] = ok []
hex_pairs (c ∷ []) = if utf8_width c == 2 then err not_hex else err panic
hex_pairs (c ∷ d ∷ s) =
    let rest = hex_pairs s in
    if utf8_width c == 2
    then err not_hex
    else if not (utf8_width c == 1 && utf8_width d == 1)
    then err panic
    else elim (hex_pair c d) [ none ↦ err not_hex | some byte ↦ do bytes ← rest; ok (byte ∷ bytes) ]

unfoldable pub from_hex : Text → Result (List ℕ) Fault
unfolding hex_pairs
from_hex text = if utf8_len text % 2 == 0 then hex_pairs text else err odd_hex

-- `map` of one step over the items, to the first error.
unfoldable pub try_map {ℓ} : {A : Type ℓ} → (Value → Result A Fault) → Items → Result (List A) Fault
try_map f nil = ok []
try_map f (cons v vs) = do a ← f v; as' ← try_map f vs; ok (a ∷ as')

-- The array that a set of literals is, or holds.
inner_array : Value → Result Items Fault
inner_array (array xs) = ok xs
inner_array _ = err no_values

unfoldable pub values_of : Value → Result Items Fault
unfolding get inner_array
values_of (array xs) = ok xs
values_of (object fs) = elim (get fs (codes "values")) [
  | none ↦ err no_values
  | some v ↦ inner_array v
]
values_of _ = err values_not_array

module _ (ib : Iceberg) where
  -- `as_i64`, and that with `i32::try_from`.
  integer_datum : Bool → PrimitiveType → Value → Result ib.Datum Fault
  integer_datum small p v = elim (as_i64 v) [
    | none ↦ err wrong_literal
    | some z ↦
        if not small
        then ok (ib.of_integer p z)
        else if fits_i32 z
        then ok (ib.of_integer p z)
        else err wrong_literal
  ]

  float_datum : (ℕ → ℕ) → PrimitiveType → Value → Result ib.Datum Fault
  float_datum cast p (number n) = elim (ib.as_f64 n) [
    | none ↦ err wrong_literal
    | some x ↦ ok (ib.of_float p (cast x))
  ]
  float_datum cast p _ = err wrong_literal

  text_datum : PrimitiveType → Value → Result ib.Datum Fault
  text_datum p v = elim (as_str v) [
    | none ↦ err wrong_literal
    | some s ↦ ok_or wrong_literal (ib.from_str p s)
  ]

  -- A string for the library, or a count.
  text_or_count : Bool → PrimitiveType → Value → Result ib.Datum Fault
  unfolding integer_datum
  text_or_count small p (string s) = ok_or wrong_literal (ib.from_str p s)
  text_or_count small p (number n) = integer_datum small p (number n)
  text_or_count small p _ = err wrong_literal

  -- `nanos_from_naive` and `nanos_from_offset`
  nanos : Option (Option ℤ) → Result ℤ Fault
  nanos none = err wrong_literal
  nanos (some in_range) = ok_or wrong_literal in_range

  nanos_datum : (Text → Option (Option ℤ)) → PrimitiveType → Value → Result ib.Datum Fault
  unfolding integer_datum nanos
  nanos_datum parse p (string s) = do z ← nanos (parse s); ok (ib.of_integer p z)
  nanos_datum parse p (number n) = integer_datum false p (number n)
  nanos_datum parse p _ = err wrong_literal

  unfoldable pub decimal_datum : PrimitiveType → Value → Result ib.Datum Fault
  decimal_datum p v = do
    s ← ok_or wrong_literal (as_str v)
    d ← ok_or wrong_literal (ib.from_str p s)
    ok_or wrong_literal (ib.decimal_to d p)

  unfoldable pub bytes_datum : PrimitiveType → Value → Result ib.Datum Fault
  unfolding from_hex
  bytes_datum p v = do
    s ← ok_or wrong_literal (as_str v)
    bytes ← from_hex s
    ok (ib.of_bytes p bytes)

  unfoldable pub datum_from_json : Value → PrimitiveType → Result ib.Datum Fault
  unfolding integer_datum float_datum text_datum text_or_count nanos_datum decimal_datum bytes_datum
  datum_from_json v boolean = elim (as_bool v) [
    | none ↦ err wrong_literal
    | some b ↦ ok (ib.of_bool b)
  ]
  datum_from_json v int = integer_datum true int v
  datum_from_json v long = integer_datum false long v
  datum_from_json v float = float_datum ib.as_f32 float v
  datum_from_json v double = float_datum (λ x. x) double v
  datum_from_json v string_type = elim (as_str v) [
    | none ↦ err wrong_literal
    | some s ↦ ok (ib.of_string s)
  ]
  datum_from_json v uuid = text_datum uuid v
  datum_from_json v date = text_or_count true date v
  datum_from_json v time = text_datum time v
  datum_from_json v timestamp = text_or_count false timestamp v
  datum_from_json v timestamptz = text_or_count false timestamptz v
  datum_from_json v timestamp_ns = nanos_datum ib.parse_naive timestamp_ns v
  datum_from_json v timestamptz_ns = nanos_datum ib.parse_rfc3339 timestamptz_ns v
  datum_from_json v (decimal p s) = decimal_datum (decimal p s) v
  datum_from_json v (fixed n) = bytes_datum (fixed n) v
  datum_from_json v binary = bytes_datum binary v

  unfoldable pub literal_object :
      Value → Option Text → Fields → PrimitiveType → Result ib.Datum Fault
  unfolding datum_from_json get
  literal_object v none fs p = datum_from_json v p
  literal_object v (some t) fs p =
      if text_eq t (codes "literal")
      then (do inner ← ok_or no_literal_value (get fs (codes "value")); datum_from_json inner p)
      else datum_from_json v p

  unfoldable pub literal_of : Value → PrimitiveType → Result ib.Datum Fault
  unfolding literal_object get_str datum_from_json
  literal_of (object fs) p = literal_object (object fs) (get_str fs (codes "type")) fs p
  literal_of v p = datum_from_json v p

  unfoldable pub parse_literal : Value → Field → Result ib.Datum Fault
  unfolding literal_of primitive_type
  parse_literal v field = do p ← primitive_type field; literal_of v p

  unfoldable pub parse_literals : Value → Field → Result (List ib.Datum) Fault
  unfolding values_of primitive_type try_map datum_from_json
  parse_literals v field = do
    p ← primitive_type field
    xs ← values_of v
    try_map (λ x. datum_from_json x p) xs

-- ===== src/Json.antt =====
-- The values of `serde_json`, and the accessors by which the code reads them. Of an object's entries
-- with one key, which the library never builds, the first would count.
use rustberg.Common.{ℕ, Text, Bool, Option, none, some, text_eq, if◌then◌else◌, ℤ, fits_i64}

-- A float is the bits that hold it.
pub data Number : Type 0 where
  integer : ℤ → Number
  float : ℕ → Number

mutual
  pub data Value : Type 0 where
    null : Value
    bool : Bool → Value
    number : Number → Value
    string : Text → Value
    array : Items → Value
    object : Fields → Value

  pub data Items : Type 0 where
    nil : Items
    cons : Value → Items → Items

  pub data Fields : Type 0 where
    end : Fields
    entry : Text → Value → Fields → Fields

-- `Map::get`, the key last.
unfoldable pub get : Fields → Text → Option Value
get end k = none
get (entry j v fs) k = let rest = get fs k in if text_eq j k then some v else rest

abbrev pub as_str : Value → Option Text
as_str (string s) = some s
as_str _ = none

abbrev pub as_bool : Value → Option Bool
as_bool (bool b) = some b
as_bool _ = none

abbrev pub as_i64 : Value → Option ℤ
as_i64 (number (integer z)) = if fits_i64 z then some z else none
as_i64 _ = none

abbrev pub as_object : Value → Option Fields
as_object (object fs) = some fs
as_object _ = none

-- `object.get(key).and_then(Value::as_str)`
unfoldable pub get_str : Fields → Text → Option Text
unfolding get
get_str fs k = elim (get fs k) [ none ↦ none | some v ↦ as_str v ]

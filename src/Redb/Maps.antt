-- ===== src/Redb/Maps.antt =====
-- A redb table with string keys, as the list of its entries in key order. redb itself is a library:
-- what src/catalog/redb.rs uses of it is `get`, `insert`, `remove` and whether a range is empty.
use rustberg.Common.{
  Text, text_eq, text_eq_iff, text_ltb, text_leb, true, ◌&&◌, Option, none, some, List, [], ◌∷◌,
  ◌≡◌, refl, if◌then◌else◌, arith,
}

abbrev pub Map {ℓ} : Type ℓ → Type ℓ
Map V = List (Text × V)

module _ {ℓ} {V : Type ℓ} where
  unfoldable pub get : Map V → Text → Option V
  get [] k = none
  get ((j, v) ∷ m) k = if text_eq j k then some v else get m k

  unfoldable pub insert : Map V → Text → V → Map V
  insert [] k v = (k, v) ∷ []
  insert ((j, w) ∷ m) k v =
      let later = insert m k v in
      if text_eq j k
      then (k, v) ∷ m
      else if text_ltb k j
      then (k, v) ∷ (j, w) ∷ m
      else (j, w) ∷ later

  unfoldable pub remove : Map V → Text → Map V
  remove [] k = []
  remove ((j, v) ∷ m) k = let rest = remove m k in if text_eq j k then rest else (j, v) ∷ rest

  -- `range(start..end)`
  unfoldable pub range : Map V → Text → Text → Map V
  range [] start end = []
  range ((j, v) ∷ m) start end =
      let rest = range m start end in
      if text_leb start j && text_ltb j end then (j, v) ∷ rest else rest

  pub get-insert :
      (m : Map V) (k j : Text) (v : V)
      → get (insert m k v) j ≡ (if text_eq k j then some v else get m j)
  unfolding get insert
  get-insert [] k j v = refl
  get-insert ((i, w) ∷ m) k j v =
      ground (arith, get-insert m k j v, text_eq_iff i k, text_eq_iff i j, text_eq_iff k j)

  pub get-remove :
      (m : Map V) (k j : Text) → get (remove m k) j ≡ (if text_eq k j then none else get m j)
  unfolding get remove
  get-remove [] k j = ground arith
  get-remove ((i, w) ∷ m) k j =
      ground (arith, get-remove m k j, text_eq_iff i k, text_eq_iff i j, text_eq_iff k j)

  -- An empty range holds no key that lies in it.
  pub get-range_nil :
      (m : Map V) (start end k : Text)
      → range m start end ≡ []
      → text_leb start k && text_ltb k end ≡ true
      → get m k ≡ none
  unfolding get range
  get-range_nil [] start end k h inside = refl
  get-range_nil ((j, v) ∷ m) start end k h inside =
      ground (arith, get-range_nil m start end k, text_eq_iff j k)

-- ===== src/Pagination/Examples.antt =====
-- A listing of two rows, read one by one.
use mathlib.Core.Path.{subst}
use mathlib.Core.List.{append-nil}
use rustberg.Common.{
  ℕ, Text, codes, text_eq, Bool, true, Bool-cases, inl, inr, Option, none, some, List, [], ◌∷◌,
  ◌++◌, Result, ok, ◌≡◌, refl, sym, arith, if◌then◌else◌,
}
use rustberg.Redb.Pages.{PageRequest, Entry, Page}
use rustberg.Pagination.{FilteredPage, map_token, collect_page, round}
use rustberg.Pagination.Rounds.{seen, left, Serves, Follows}
use rustberg.Pagination.Lossless.{collect_page_lossless}
use rustberg.Pagination.Ends.{collect_page_ends}

abbrev row : Text → Entry Text
row name = record { cursor = name; item = name }

abbrev after : Option Text → List (Entry Text)
after none = row (codes "a") ∷ row (codes "b") ∷ []
after (some c) = if text_eq c (codes "a") then row (codes "b") ∷ [] else []

abbrev fetch : ℕ → PageRequest → Result (Page Text) Text
fetch n r = ok (record { entries = after r.after; next = none })

abbrev shown : Text → Bool × Text
shown name = (true, name)

abbrev same_token : Text → Text
same_token cursor = cursor

abbrev one : PageRequest
one = record { after = none; limit = 1 }

follows : (c : Option Text) → Follows after [] (after c)
follows none = (refl, (refl, tt))
follows (some c) = elim (Bool-cases (text_eq c (codes "a"))) [
  | inl e ↦ rw e (refl, tt)
  | inr e ↦ rw e tt
]

serves :
    (n : ℕ) (r : PageRequest) (page : Page Text) → fetch n r ≡ ok page → Serves after r.after page
serves n r page e =
    let same : record { entries = after r.after; next = none } ≡ page = cc in
    subst (λ (p : Page Text). Serves after r.after p) same
      (
        [],
        sym (append-nil (after r.after)),
        follows r.after,
        λ _. refl,
        λ c f g. absurd (ground arith),
      )

first_page :
    collect_page same_token shown fetch one
    ≡ some (ok (record { items = codes "a" ∷ []; next_page_token = some (codes "a") }))
unfolding collect_page round
first_page = refl

collect_page_lossless_example :
    (c : Option Text) × (some (codes "a") ≡ map_token same_token c)
    × ((codes "a" ∷ []) ++ left shown after c ≡ seen shown (after none))
collect_page_lossless_example =
    collect_page_lossless same_token shown fetch one after
      (record { items = codes "a" ∷ []; next_page_token = some (codes "a") }) serves first_page

collect_page_ends_example :
    (r : Result (FilteredPage Text) Text) × (collect_page same_token shown fetch one ≡ some r)
collect_page_ends_example = collect_page_ends same_token shown fetch one

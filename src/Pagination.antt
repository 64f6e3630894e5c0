-- ===== src/Pagination.antt =====
-- src/catalog/v1/pagination.rs: pages of a listing that a policy filters.
pub mod Ends
pub mod Rounds
pub mod Lossless
pub mod Examples
use rustberg.Common.{
  ℕ, zero, suc, ◌+◌, ◌*◌, Text, text_eq, Bool, true, false, not, ◌&&◌, ◌||◌, Option, none, some,
  List, [], ◌∷◌, ◌++◌, length, leb, ltb, is_empty, Result, ok, err, ok_or, ◌>>=◌, if◌then◌else◌,
}
use rustberg.Redb.Pages.{max_page_size, PageRequest, effective_limit, Entry, Page}

abbrev pub default_page_size : ℕ
default_page_size = 100

abbrev pub max_scan : ℕ
max_scan = max_page_size * 10

abbrev pub max_fetches : ℕ
max_fetches = 20

pub record PaginationQuery : Type 0 where
  pub page_token : Option Text
  pub page_size : Option ℕ

-- `size.clamp(1, MAX_PAGE_SIZE)`
unfoldable pub effective_page_size : PaginationQuery → ℕ
effective_page_size query = elim query.page_size [
  | none ↦ default_page_size
  | some size ↦ if ltb size 1 then 1 else if ltb max_page_size size then max_page_size else size
]

pub data BadToken : Type 0 where
  invalid_page_token : BadToken

-- Base64, a library's, and the check for UTF-8: the code of a token, and its reading.
pub record Base64 : Type 0 where
  pub encode : Text → Text
  pub decode : Text → Option Text

decode_cursor : Base64 → PaginationQuery → Result (Option Text) BadToken
decode_cursor base64 query = elim query.page_token [
  | none ↦ ok none
  | some token ↦ elim (base64.decode token) [
    | none ↦ err invalid_page_token
    | some cursor ↦ ok (some cursor)
  ]
]

unfoldable pub to_request : Base64 → PaginationQuery → Result PageRequest BadToken
unfolding decode_cursor effective_page_size
to_request base64 query = do
  after ← decode_cursor base64 query
  ok (record { after = after; limit = effective_page_size query })

pub record FilteredPage {ℓ} (A : Type ℓ) : Type ℓ where
  pub items : List A
  pub next_page_token : Option Text

-- The variables of the loop, but the count of fetches.
pub record Progress {ℓ} (A : Type ℓ) : Type ℓ where
  pub cursor : Option Text
  pub kept : List A
  pub scanned : ℕ

pub data Round {ℓ} (A : Type ℓ) : Type ℓ where
  finished : FilteredPage A → Round A
  going : Progress A → Round A

abbrev pub option_eq : Option Text → Option Text → Bool
option_eq none none = true
option_eq (some a) (some b) = text_eq a b
option_eq _ _ = false

abbrev pub map_token : (Text → Text) → Option Text → Option Text
map_token encode none = none
map_token encode (some cursor) = some (encode cursor)

-- `self.or(other)`
abbrev pub or_cursor : Option Text → Option Text → Option Text
or_cursor none other = other
or_cursor (some cursor) other = some cursor

module _ {ℓ} {A : Type ℓ} (encode : Text → Text) (visible : A → Bool × A) (limit : ℕ) where
  -- The rows of one batch, to the one that fills the page.
  unfoldable pub scan_batch : Bool → List (Entry A) → Progress A → Round A
  scan_batch exhausted [] progress = going progress
  scan_batch exhausted (entry ∷ entries) progress =
      let (keep, item) = visible entry.item in
      let kept = progress.kept ++ item ∷ [] in
      let more_remains = not (is_empty entries) || not exhausted in
      elim keep [
        | true ↦ elim (leb limit (length kept)) [
          | true ↦ finished (record {
            items = kept;
            next_page_token = if more_remains then some (encode entry.cursor) else none;
          })
          | false ↦
              scan_batch exhausted entries
                (record { cursor = some entry.cursor; kept = kept; scanned = progress.scanned + 1 })
        ]
        | false ↦ scan_batch exhausted entries (record {
          cursor = some entry.cursor;
          kept = progress.kept;
          scanned = progress.scanned + 1;
        })
      ]

  -- After a batch without rows: the page's own cursor, if it moves.
  step_over : Page A → Progress A → Round A
  step_over page progress = elim page.next [
    | none ↦ finished (record { items = progress.kept; next_page_token = none })
    | some next ↦
        if option_eq (some next) progress.cursor
        then finished (record { items = progress.kept; next_page_token = none })
        else going (record { cursor = some next; kept = progress.kept; scanned = progress.scanned })
  ]

  -- One round of the loop, once its page is there.
  unfoldable pub round : Page A → Progress A → Round A
  unfolding scan_batch step_over
  round page progress = elim page.next [
    | none ↦ elim (scan_batch true page.entries progress) [
      | finished result ↦ finished result
      | going after ↦ finished (record { items = after.kept; next_page_token = none })
    ]
    | some next ↦ elim (scan_batch false page.entries progress) [
      | finished result ↦ finished result
      | going after ↦ if is_empty page.entries then step_over page after else going after
    ]
  ]

-- The loop, with fuel for its rounds; the answer to each fetch may depend on how many there have been.
module _ {ℓ κ} {A : Type ℓ} {E : Type κ} (encode : Text → Text) (visible : A → Bool × A)
    (fetch : ℕ → PageRequest → Result (Page A) E) (request : PageRequest) where
  -- A page that is not full, and a token all the same.
  abbrev pub short_page : Progress A → FilteredPage A
  short_page progress = record {
    items = progress.kept;
    next_page_token = map_token encode (or_cursor progress.cursor request.after);
  }

  unfoldable pub collect_loop : ℕ → ℕ → Progress A → Option (Result (FilteredPage A) E)
  unfolding round
  collect_loop zero fetches progress = none
  collect_loop (suc fuel) fetches progress =
      elim (fetch fetches (record { after = progress.cursor; limit = effective_limit request })) [
        | err e ↦ some (err e)
        | ok page ↦ elim (round encode visible (effective_limit request) page progress) [
          | finished result ↦ some (ok result)
          | going after ↦ elim (leb max_scan after.scanned || leb max_fetches (fetches + 1)) [
            | true ↦ some (ok (short_page after))
            | false ↦ collect_loop fuel (fetches + 1) after
          ]
        ]
      ]

  unfoldable pub collect_page : Option (Result (FilteredPage A) E)
  unfolding collect_loop
  collect_page =
      collect_loop max_fetches 0 (record { cursor = request.after; kept = []; scanned = 0 })

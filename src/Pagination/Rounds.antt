-- ===== src/Pagination/Rounds.antt =====
-- What one round of the loop of src/catalog/v1/pagination.rs keeps.
use mathlib.Core.List.{append_assoc}
use mathlib.Core.Path.{subst}
use rustberg.Common.{
  ℕ, ◌+◌, Text, Bool, true, false, not, ◌||◌, Bool-cases, inl, inr, Option, none, some, List, [],
  ◌∷◌, ◌++◌, length, is_empty, leb, ◌≡◌, refl, sym, ap, ◌∙◌, arith, if◌then◌else◌,
}
use rustberg.Redb.Pages.{Entry, Page}
use rustberg.Pagination.Ends.{Round-cases}
use rustberg.Pagination.{
  FilteredPage, Progress, Round, finished, going, option_eq, map_token, or_cursor, scan_batch,
  step_over, round,
}

-- What the policy lets through.
unfoldable pub seen {ℓ} : {A : Type ℓ} → (A → Bool × A) → List (Entry A) → List A
seen visible [] = []
seen visible (e ∷ es) =
    let rest = seen visible es in
    elim (visible e.item).0 [ true ↦ (visible e.item).1 ∷ rest | false ↦ rest ]

-- What a token promises, `rest` being the rows that the backend has after a cursor.
abbrev pub left {ℓ} :
    {A : Type ℓ} → (A → Bool × A) → (Option Text → List (Entry A)) → Option Text → List A
left visible rest none = []
left visible rest (some cursor) = seen visible (rest (some cursor))

-- After each row's cursor come the rows behind it.
abbrev pub Follows {ℓ} :
    {A : Type ℓ} → (Option Text → List (Entry A)) → List (Entry A) → List (Entry A) → Type ℓ
Follows rest tail [] = Unit
Follows rest tail (e ∷ es) = (rest (some e.cursor) ≡ es ++ tail) × Follows rest tail es

-- What a backend's page promises: it is the next rows; after the last page there are none; and a page
-- without rows has a cursor that moves and passes over nothing.
abbrev pub Serves {ℓ} :
    {A : Type ℓ} → (Option Text → List (Entry A)) → Option Text → Page A → Type ℓ
Serves {A = A} rest after page =
    (tail : List (Entry A)) × (rest after ≡ page.entries ++ tail)
    × Follows rest tail page.entries
    × (page.next ≡ none → tail ≡ [])
    × ((c : Text)
        → page.entries ≡ []
        → page.next ≡ some c
        → (rest (some c) ≡ rest after) × (option_eq (some c) after ≡ false))

pub or_self : (a : Option Text) → or_cursor a a ≡ a
or_self none = refl
or_self (some a) = refl

module _ {ℓ} {A : Type ℓ} (encode : Text → Text) (visible : A → Bool × A) (limit : ℕ)
    (rest : Option Text → List (Entry A)) (first : Option Text) where
  abbrev pub Kept : FilteredPage A → List A → Type ℓ
  Kept result all =
      (c : Option Text) × (result.next_page_token ≡ map_token encode c)
      × (result.items ++ left visible rest c ≡ all)

  -- Where a round stands: the rows after its cursor are still to come.
  abbrev pub Stands : Progress A → List (Entry A) → List A → Type ℓ
  Stands progress tail all =
      (rest progress.cursor ≡ tail)
      × (progress.kept ++ seen visible tail ≡ all)
      × (or_cursor progress.cursor first ≡ progress.cursor)

  abbrev pub Scanned : Round A → List (Entry A) → List A → Type ℓ
  Scanned (finished result) tail all = Kept result all
  Scanned (going progress) tail all = Stands progress tail all

  seen-shown :
      (e : Entry A) (es : List (Entry A)) (kept : List A)
      → (visible e.item).0 ≡ true
      → (kept ++ (visible e.item).1 ∷ []) ++ seen visible es ≡ kept ++ seen visible (e ∷ es)
  unfolding seen
  seen-shown e es kept h =
      rw (seen, h) (append_assoc kept ((visible e.item).1 ∷ []) (seen visible es))

  seen-hidden :
      (e : Entry A) (es : List (Entry A)) (kept : List A)
      → (visible e.item).0 ≡ false
      → kept ++ seen visible es ≡ kept ++ seen visible (e ∷ es)
  unfolding seen
  seen-hidden e es kept h = rw (seen, h) refl

  -- The row that fills the page.
  filled :
      (exhausted : Bool) (e : Entry A) (es tail : List (Entry A)) (progress : Progress A)
      (all : List A)
      → (visible e.item).0 ≡ true
      → rest (some e.cursor) ≡ es ++ tail
      → (exhausted ≡ true → tail ≡ [])
      → progress.kept ++ seen visible (e ∷ es ++ tail) ≡ all
      → Kept
          (record {
            items = progress.kept ++ (visible e.item).1 ∷ [];
            next_page_token =
                if not (is_empty es) || not exhausted then some (encode e.cursor) else none;
          })
          all
  unfolding seen
  filled exhausted e (x ∷ es) tail progress all shown here t k =
      (some e.cursor, refl, rw here (seen-shown e (x ∷ es ++ tail) progress.kept shown ∙ k))
  filled false e [] tail progress all shown here t k =
      (some e.cursor, refl, rw here (seen-shown e tail progress.kept shown ∙ k))
  filled true e [] tail progress all shown here t k = (
    none,
    refl,
    ap (λ l. (progress.kept ++ (visible e.item).1 ∷ []) ++ seen visible l) (sym (t refl))
        ∙ seen-shown e tail progress.kept shown
        ∙ k,
  )

  scan-Scanned :
      (exhausted : Bool) (es tail : List (Entry A)) (progress : Progress A) (all : List A)
      → Follows rest tail es
      → (exhausted ≡ true → tail ≡ [])
      → Stands progress (es ++ tail) all
      → Scanned (scan_batch encode visible limit exhausted es progress) tail all
  unfolding scan_batch
  scan-Scanned exhausted [] tail progress all f t s = s
  scan-Scanned exhausted (e ∷ es) tail progress all (here, f) t (r, k, c) =
      elim (Bool-cases (visible e.item).0) [
        | inr hidden ↦
            rw (scan_batch, hidden)
              (scan-Scanned exhausted es tail
                (record {
                  cursor = some e.cursor;
                  kept = progress.kept;
                  scanned = progress.scanned + 1;
                })
                all f t (here, seen-hidden e (es ++ tail) progress.kept hidden ∙ k, refl))
        | inl shown ↦
            elim (Bool-cases (leb limit (length (progress.kept ++ (visible e.item).1 ∷ [])))) [
              | inr more ↦
                  rw (scan_batch, shown, more)
                    (scan-Scanned exhausted es tail
                      (record {
                        cursor = some e.cursor;
                        kept = progress.kept ++ (visible e.item).1 ∷ [];
                        scanned = progress.scanned + 1;
                      })
                      all f t (here, seen-shown e (es ++ tail) progress.kept shown ∙ k, refl))
              | inl full ↦
                  rw (scan_batch, shown, full)
                    (filled exhausted e es tail progress all shown here t k)
            ]
      ]

  passed :
      (e : Entry A) (es : List (Entry A)) (next : Text) (progress : Progress A) (r : Round A)
      (tail : List (Entry A)) (all : List A)
      → Scanned r tail all
      → Scanned (elim r [ finished result ↦ finished result | going after ↦ going after ]) tail all
  passed e es next progress (finished result) tail all h = h
  passed e es next progress (going after) tail all h = h

  -- The last batch ends the listing.
  ended :
      (r : Round A) (tail : List (Entry A)) (all : List A)
      → tail ≡ []
      → Scanned r tail all
      → Scanned
          (elim r [
            | finished result ↦ finished result
            | going after ↦ finished (record { items = after.kept; next_page_token = none })
          ])
          tail
          all
  unfolding seen
  ended (finished result) tail all e h = h
  ended (going after) tail all e (_, k, _) =
      (none, refl, ap (λ l. after.kept ++ seen visible l) (sym e) ∙ k)

  batch-Scanned :
      (es : List (Entry A)) (next : Option Text) (progress : Progress A) (all : List A)
      (tail : List (Entry A))
      → Follows rest tail es
      → (next ≡ none → tail ≡ [])
      → ((c : Text)
          → es ≡ []
          → next ≡ some c
          → (rest (some c) ≡ rest progress.cursor) × (option_eq (some c) progress.cursor ≡ false))
      → Stands progress (es ++ tail) all
      → Scanned
          (round encode visible limit (record { entries = es; next = next }) progress)
          tail
          all
  unfolding round step_over scan_batch
  batch-Scanned es none progress all tail f t moves s =
      ended (scan_batch encode visible limit true es progress) tail all (t refl)
        (scan-Scanned true es tail progress all f (λ _. t refl) s)
  batch-Scanned [] (some next) progress all tail f t moves (r, k, c) =
      let (same, moved) = moves next refl refl in rw moved (same ∙ r, k, refl)
  batch-Scanned (e ∷ es) (some next) progress all tail f t moves s =
      passed e es next progress (scan_batch encode visible limit false (e ∷ es) progress) tail all
        (scan-Scanned false (e ∷ es) tail progress all f (λ h. absurd (ground arith)) s)

  -- A round keeps all that is to come.
  pub round-Scanned :
      (page : Page A) (progress : Progress A) (all : List A)
      → Serves rest progress.cursor page
      → progress.kept ++ seen visible (rest progress.cursor) ≡ all
      → or_cursor progress.cursor first ≡ progress.cursor
      → (tail : List (Entry A)) × Scanned (round encode visible limit page progress) tail all
  round-Scanned page progress all (tail, next_rows, f, t, moves) k c = (
    tail,
    batch-Scanned page.entries page.next progress all tail f t moves
        (next_rows, ap (λ l. progress.kept ++ seen visible l) (sym next_rows) ∙ k, c),
  )

module _ {ℓ} {A : Type ℓ} (encode : Text → Text) (visible : A → Bool × A) (limit : ℕ) where
  abbrev pub HasCursor : Progress A → Type 0
  HasCursor progress = (c : Text) × (progress.cursor ≡ some c)

  not_going :
      {result : FilteredPage A} {progress : Progress A} → finished result ≡ going progress → ⊥
  not_going h = absurd (ground arith)

  cursor_of : {p q : Progress A} → going p ≡ going q → p.cursor ≡ q.cursor
  cursor_of {p = p} {q = q} h = let same : p ≡ q = cc in ap (λ (r : Progress A). r.cursor) same

  -- A batch with rows leaves a cursor.
  scan-HasCursor :
      (exhausted : Bool) (es : List (Entry A)) (progress after : Progress A)
      → (es ≡ [] → HasCursor progress)
      → scan_batch encode visible limit exhausted es progress ≡ going after
      → HasCursor after
  unfolding scan_batch
  scan-HasCursor exhausted [] progress after h e =
      let same : progress ≡ after = cc in subst HasCursor same (h refl)
  scan-HasCursor exhausted (x ∷ es) progress after h e = elim (Bool-cases (visible x.item).0) [
    | inr hidden ↦
        scan-HasCursor exhausted es
          (record { cursor = some x.cursor; kept = progress.kept; scanned = progress.scanned + 1 })
          after (λ _. (x.cursor, refl)) (sym (rw (scan_batch, hidden) refl) ∙ e)
    | inl shown ↦
        elim (Bool-cases (leb limit (length (progress.kept ++ (visible x.item).1 ∷ [])))) [
          | inr more ↦
              scan-HasCursor exhausted es
                (record {
                  cursor = some x.cursor;
                  kept = progress.kept ++ (visible x.item).1 ∷ [];
                  scanned = progress.scanned + 1;
                })
                after (λ _. (x.cursor, refl)) (sym (rw (scan_batch, shown, more) refl) ∙ e)
          | inl full ↦
              let back : scan_batch encode visible limit exhausted (x ∷ es) progress
                  ≡ finished (record {
                    items = progress.kept ++ (visible x.item).1 ∷ [];
                    next_page_token =
                        if not (is_empty es) || not exhausted then some (encode x.cursor) else none;
                  }) =
                rw (scan_batch, shown, full) refl in
              absurd (not_going (sym back ∙ e))
        ]
  ]

  pub batch-HasCursor :
      (es : List (Entry A)) (next : Option Text) (progress after : Progress A)
      → round encode visible limit (record { entries = es; next = next }) progress ≡ going after
      → HasCursor after
  unfolding round step_over scan_batch
  batch-HasCursor es none progress after e =
      elim (Round-cases (scan_batch encode visible limit true es progress)) [
        | inl (r, d) ↦ absurd (not_going {result = r} (sym (rw (round, d) refl) ∙ e))
        | inr (g, d) ↦ absurd (
            not_going {result = record { items = g.kept; next_page_token = none }}
              (sym (rw (round, d) refl) ∙ e))
      ]
  batch-HasCursor [] (some next) progress after e =
      elim (Bool-cases (option_eq (some next) progress.cursor)) [
        | inl same ↦ absurd (
            not_going {result = record { items = progress.kept; next_page_token = none }}
              (sym (rw (round, same) refl) ∙ e))
        | inr moved ↦
            let back : round encode visible limit (record { entries = []; next = some next })
                  progress
                ≡ going (record {
                  cursor = some next;
                  kept = progress.kept;
                  scanned = progress.scanned;
                }) =
              rw (round, moved) refl in
            (next, sym (cursor_of (sym back ∙ e)))
      ]
  batch-HasCursor (x ∷ es) (some next) progress after e =
      elim (Round-cases (scan_batch encode visible limit false (x ∷ es) progress)) [
        | inl (r, d) ↦ absurd (not_going {result = r} (sym (rw (round, d) refl) ∙ e))
        | inr (g, d) ↦
            let back : round encode visible limit (record { entries = x ∷ es; next = some next })
                  progress
                ≡ going g =
              rw (round, d) refl in
            scan-HasCursor false (x ∷ es) progress after (λ f. absurd (ground arith))
              (d ∙ (sym back ∙ e))
      ]

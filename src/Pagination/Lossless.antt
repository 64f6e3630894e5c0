-- ===== src/Pagination/Lossless.antt =====
-- That src/catalog/v1/pagination.rs loses no row and repeats none.
use mathlib.Core.Path.{subst}
use rustberg.Common.{
  ℕ, zero, suc, ◌+◌, Text, Bool, ◌||◌, Bool-cases, Result-cases, inl, inr, Option, some, List, [],
  ◌++◌, Result, ok, err, leb, ◌≡◌, refl, sym, ap, ◌∙◌, arith,
}
use rustberg.Redb.Pages.{PageRequest, effective_limit, Entry, Page}
use rustberg.Pagination.Ends.{Round-cases}
use rustberg.Pagination.{
  FilteredPage, Progress, map_token, or_cursor, round, max_scan, max_fetches, collect_loop,
  collect_page, short_page,
}
use rustberg.Pagination.Rounds.{
  seen, left, Serves, Kept, Stands, Scanned, HasCursor, or_self, round-Scanned, batch-HasCursor,
}

module _ {ℓ κ} {A : Type ℓ} {E : Type κ} (encode : Text → Text) (visible : A → Bool × A)
    (fetch : ℕ → PageRequest → Result (Page A) E) (request : PageRequest)
    (rest : Option Text → List (Entry A)) where
  -- A page cut short carries the cursor that it came to.
  short_page-Kept :
      (after : Progress A) (tail : List (Entry A)) (all : List A)
      → Stands encode visible (effective_limit request) rest request.after after tail all
      → HasCursor encode visible (effective_limit request) after
      → Kept encode visible
          (effective_limit request)
          rest
          request.after
          (short_page encode visible fetch request after)
          all
  short_page-Kept after tail all (r, k, c) (cur, has) = (
    or_cursor after.cursor request.after,
    refl,
    ap (λ o. after.kept ++ left visible rest o) (c ∙ has)
        ∙ ap (λ l. after.kept ++ seen visible l) (ap rest (sym has) ∙ r)
        ∙ k,
  )

  loop-Kept :
      (fuel fetches : ℕ) (progress : Progress A) (all : List A) (result : FilteredPage A)
      → ((n : ℕ) (r : PageRequest) (page : Page A) → fetch n r ≡ ok page → Serves rest r.after page)
      → progress.kept ++ seen visible (rest progress.cursor) ≡ all
      → or_cursor progress.cursor request.after ≡ progress.cursor
      → collect_loop encode visible fetch request fuel fetches progress ≡ some (ok result)
      → Kept encode visible (effective_limit request) rest request.after result all
  unfolding collect_loop
  loop-Kept zero fetches progress all result serves k c h = absurd (ground arith)
  loop-Kept (suc fuel) fetches progress all result serves k c h =
      let ask : PageRequest = record { after = progress.cursor; limit = effective_limit request } in
      elim (Result-cases (fetch fetches ask)) [
        | inr (e, failed) ↦
            let back : collect_loop encode visible fetch request (suc fuel) fetches progress
                ≡ some (err e) =
              rw (collect_loop, failed) refl in
            absurd (ground arith)
        | inl (page, got) ↦
            let (tail, stands) =
              round-Scanned encode visible (effective_limit request) rest request.after page
                progress all (serves fetches ask page got) k c in
            elim (Round-cases (round encode visible (effective_limit request) page progress)) [
              | inl (last, done) ↦
                  let kept : Kept encode visible (effective_limit request) rest request.after last
                      all =
                    subst
                      (λ r.
                        Scanned encode visible (effective_limit request) rest request.after r tail
                          all)
                      done stands in
                  let back : collect_loop encode visible fetch request (suc fuel) fetches progress
                      ≡ some (ok last) =
                    rw (collect_loop, got, done) refl in
                  let same : last ≡ result = ground arith in
                  subst
                    (λ r. Kept encode visible (effective_limit request) rest request.after r all)
                    same kept
              | inr (after, more) ↦
                  let (r, k2, c2) : Stands encode visible (effective_limit request) rest
                      request.after after tail all =
                    subst
                      (λ r.
                        Scanned encode visible (effective_limit request) rest request.after r tail
                          all)
                      more stands in
                  let (cur, has) =
                    batch-HasCursor encode visible (effective_limit request) page.entries page.next
                      progress after more in
                  elim (Bool-cases (leb max_scan after.scanned || leb max_fetches (fetches + 1))) [
                    | inl stop ↦
                        let back : collect_loop encode visible fetch request (suc fuel) fetches
                              progress
                            ≡ some (ok (short_page encode visible fetch request after)) =
                          rw (collect_loop, got, more, stop) refl in
                        let same : short_page encode visible fetch request after ≡ result =
                          ground arith in
                        subst
                          (λ r.
                            Kept encode visible (effective_limit request) rest request.after r all)
                          same (short_page-Kept after tail all (r, k2, c2) (cur, has))
                    | inr go ↦
                        let back : collect_loop encode visible fetch request (suc fuel) fetches
                              progress
                            ≡ collect_loop encode visible fetch request fuel (fetches + 1) after =
                          rw (collect_loop, got, more, go) refl in
                        loop-Kept fuel (fetches + 1) after all result serves
                          (ap (λ l. after.kept ++ seen visible l) r ∙ k2) c2 (sym back ∙ h)
                  ]
            ]
      ]

  -- A page of a filtered listing loses nothing and repeats nothing: if the backend's answers are the
  -- next rows after the cursor they were asked for, then the items of the page, and after them the
  -- visible rows after the cursor whose token the page carries, are the visible rows after the cursor
  -- of the request; and a page without a token is the last.
  pub collect_page_lossless :
      (result : FilteredPage A)
      → ((n : ℕ) (r : PageRequest) (page : Page A) → fetch n r ≡ ok page → Serves rest r.after page)
      → collect_page encode visible fetch request ≡ some (ok result)
      → (c : Option Text) × (result.next_page_token ≡ map_token encode c)
        × (result.items ++ left visible rest c ≡ seen visible (rest request.after))
  unfolding collect_page
  collect_page_lossless result serves h =
      loop-Kept max_fetches 0 (record { cursor = request.after; kept = []; scanned = 0 })
        (seen visible (rest request.after)) result serves refl (or_self request.after) h

-- ===== src/Pagination/Ends.antt =====
-- That the loop of src/catalog/v1/pagination.rs ends.
use rustberg.Common.{
  ℕ, zero, suc, ◌+◌, ◌≤◌, ◌<◌, Text, Bool, ◌||◌, Bool-cases, Result-cases, inl, inr, some, [],
  Result, ok, err, leb, ◌≡◌, ◌⊎◌, refl, arith,
}
use rustberg.Redb.Pages.{PageRequest, effective_limit, Page}
use rustberg.Pagination.{
  FilteredPage, Progress, Round, finished, going, round, max_scan, max_fetches, collect_loop,
  short_page, collect_page,
}

pub Round-cases {ℓ} :
    {A : Type ℓ} (r : Round A)
    → ((p : FilteredPage A) × (r ≡ finished p)) ⊎ ((p : Progress A) × (r ≡ going p))
Round-cases (finished p) = inl (p, refl)
Round-cases (going p) = inr (p, refl)

module _ {ℓ κ} {A : Type ℓ} {E : Type κ} (encode : Text → Text) (visible : A → Bool × A)
    (fetch : ℕ → PageRequest → Result (Page A) E) (request : PageRequest) where
  abbrev Ends : ℕ → ℕ → Progress A → Type (ℓ ⊔ κ)
  Ends fuel fetches progress =
      (r : Result (FilteredPage A) E) × (collect_loop encode visible fetch request fuel fetches
          progress
        ≡ some r)

  loop-Ends :
      (fuel fetches : ℕ) (progress : Progress A)
      → fetches < max_fetches
      → max_fetches ≤ fuel + fetches
      → Ends fuel fetches progress
  unfolding collect_loop
  loop-Ends zero fetches progress h k = absurd (omega arith)
  loop-Ends (suc fuel) fetches progress h k =
      elim (Result-cases
        (fetch fetches (record { after = progress.cursor; limit = effective_limit request }))) [
          | inr (e, failed) ↦ (err e, rw (collect_loop, failed) refl)
          | inl (page, got) ↦
              elim (Round-cases (round encode visible (effective_limit request) page progress)) [
                | inl (result, done) ↦ (ok result, rw (collect_loop, got, done) refl)
                | inr (after, more) ↦
                    elim (Bool-cases
                      (leb max_scan after.scanned || leb max_fetches (fetches + 1))) [
                        | inl stop ↦ (
                          ok (short_page encode visible fetch request after),
                          rw (collect_loop, got, more, stop) refl,
                        )
                        | inr go ↦
                            let (r, e) =
                              loop-Ends fuel (fetches + 1) after (ground arith) (omega arith) in
                            (r, rw (collect_loop, got, more, go) e)
                      ]
              ]
        ]

  -- A request for a page gets an answer: the loop makes at most as many fetches as it may, whatever
  -- the backend answers to each, and the fuel given is enough.
  pub collect_page_ends :
      (r : Result (FilteredPage A) E) × (collect_page encode visible fetch request ≡ some r)
  unfolding collect_page
  collect_page_ends =
      loop-Ends max_fetches 0 (record { cursor = request.after; kept = []; scanned = 0 })
        (omega arith) (omega arith)

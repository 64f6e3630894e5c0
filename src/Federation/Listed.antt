-- ===== src/Federation/Listed.antt =====
-- src/catalog/federated.rs: what the native catalog is asked when the top level is listed, and what
-- is advertised of all mounts.
use rustberg.Common.{
  ◌≡◌, ◌≢◌, ◌⊎◌, ◌↔◌, ◌∙◌, ap, sym, refl, inl, inr, ℕ, ◌+◌, ◌-◌, ◌≤◌, ◌<◌, Text, codes, text_eq,
  text_eq_iff, true, ◌&&◌, Bool-cases, Option, none, some, List, [], ◌∷◌, ◌++◌, All, length, leb,
  split_once, arith,
}
use rustberg.Common.Splits.{split_once-eq}
use rustberg.Redb.Keys.{NamespaceIdent}
use rustberg.Redb.Pages.{PageRequest, effective_limit}
use rustberg.Federation.{
  Library, Capabilities, Capability, can_write, can_views, can_multi_table_commit, can_register,
  can_stage_create, can_purge, can_scan_planning, present_in, intersect, Mount, FederatedCatalog,
}
use rustberg.Federation.Root.{
  native_token, root_cursor_sep, tagged, parse_cursor, mount_entries, after_native, native_request,
  fold_mounts, effective_capabilities,
}

-- Only a token of the native phase has a cursor for the native catalog.
tagged-native :
    (cursor : Text) (o : Option (Text × Text)) (c : Text)
    → split_once (root_cursor_sep ∷ []) cursor ≡ o
    → after_native (tagged o) ≡ some c
    → cursor ≡ native_token c
unfolding after_native tagged native_token
tagged-native cursor none c s h = absurd (cc h)
tagged-native cursor (some (tag, [])) c s h = elim (Bool-cases (text_eq tag (codes "m"))) [
  | inl mounts ↦ absurd (ground arith)
  | inr other ↦ elim (Bool-cases (text_eq tag (codes "n"))) [
    | inr neither ↦ absurd (ground arith)
    | inl native ↦ absurd (ground arith)
  ]
]
tagged-native cursor (some (tag, r ∷ rest)) c s h = elim (Bool-cases (text_eq tag (codes "m"))) [
  | inl mounts ↦ absurd (ground arith)
  | inr other ↦ elim (Bool-cases (text_eq tag (codes "n"))) [
    | inr neither ↦ absurd (ground arith)
    | inl native ↦
        let same : r ∷ rest ≡ c = ground arith in
        split_once-eq (root_cursor_sep ∷ []) cursor tag (r ∷ rest) s
        ∙ ap (λ t. t ++ (root_cursor_sep ∷ r ∷ rest)) ((text_eq_iff tag (codes "n")).0 native)
        ∙ ap (λ x. b'n' ∷ root_cursor_sep ∷ x) same
  ]
]

parsed-native :
    (after : Option Text) (c : Text)
    → after_native (parse_cursor after) ≡ some c
    → after ≡ some (native_token c)
unfolding parse_cursor after_native
parsed-native none c h = absurd (cc h)
parsed-native (some cursor) c h =
    ap some (tagged-native cursor (split_once (root_cursor_sep ∷ []) cursor) c refl h)

none_ne : {r : PageRequest} → none ≢ some r
none_ne e = cc

some-inj : {r s : PageRequest} → some r ≡ some s → r ≡ s
some-inj e = cc

abbrev request_of : Option Text → ℕ → PageRequest
request_of after limit = record { after = after; limit = limit }

asked :
    (mine theirs given : Option Text)
    → mine ≡ theirs
    → ((c : Text) → mine ≡ some c → given ≡ some (native_token c))
    → (theirs ≡ none) ⊎ ((c : Text) × (theirs ≡ some c) × (given ≡ some (native_token c)))
asked none theirs given e h = inl (sym e)
asked (some c) theirs given e h = inr (c, sym e, h c refl)

effective_limit_pos : (page : PageRequest) → 1 ≤ effective_limit page
effective_limit_pos page = ground arith

-- What a page of the top level asks the native catalog: at least one entry and no more than the page
-- has room for after the mounts, from the beginning or from a cursor that the page's own token was
-- made of, so that no other cursor reaches it.
pub native_request_bounds :
    (lib : Library) (fed : FederatedCatalog lib) (page request : PageRequest)
    → native_request lib fed page ≡ some request
    → (1 ≤ request.limit)
      × (length (mount_entries lib fed (parse_cursor page.after) (effective_limit page))
            + request.limit
          ≡ effective_limit page)
      × ((request.after ≡ none)
          ⊎ ((c : Text) × (request.after ≡ some c) × (page.after ≡ some (native_token c))))
unfolding native_request
native_request_bounds lib fed page request h =
    let limit = effective_limit page in
    let resume = parse_cursor page.after in
    let here = length (mount_entries lib fed resume limit) in
    elim (Bool-cases (leb limit here)) [
      | inl full ↦
          let at : native_request lib fed page ≡ none = rw (native_request, full) refl in
          absurd (none_ne (sym at ∙ h))
      | inr room ↦
          let at : native_request lib fed page
              ≡ some (request_of (after_native resume) (limit - here)) =
            rw (native_request, room) refl in
          let same : request_of (after_native resume) (limit - here) ≡ request =
            some-inj (sym at ∙ h) in
          let left : limit - here ≡ request.limit = ap (λ r. r.limit) same in
          let after : after_native resume ≡ request.after = ap (λ r. r.after) same in
          let more : here < limit = ground arith in
          (
            omega arith,
            omega arith,
            asked (after_native resume) request.after page.after after (parsed-native page.after),
          )
    ]

present-intersect :
    (c : Capability) (a b : Capabilities)
    → present_in c (intersect a b) ≡ (present_in c a && present_in c b)
unfolding present_in intersect
present-intersect can_write a b = refl
present-intersect can_views a b = refl
present-intersect can_multi_table_commit a b = refl
present-intersect can_register a b = refl
present-intersect can_stage_create a b = refl
present-intersect can_purge a b = refl
present-intersect can_scan_planning a b = refl

module _ (lib : Library) where
  -- Every mount has the capability.
  abbrev pub AllHave : Capability → List (Text × Mount lib) → Type 0
  AllHave c = All (λ entry. present_in c entry.1.capabilities ≡ true)

  fold_mounts_iff :
      (c : Capability) (acc : Capabilities) (mounts : List (Text × Mount lib))
      → (present_in c (fold_mounts lib acc mounts) ≡ true)
        ↔ ((present_in c acc ≡ true) × AllHave c mounts)
  unfolding fold_mounts
  fold_mounts_iff c acc [] = (λ h. (h, tt), λ (h, _). h)
  fold_mounts_iff c acc ((name, mount) ∷ mounts) = (
    λ h.
        let (both, rest) = (fold_mounts_iff c (intersect acc mount.capabilities) mounts).0 h in
        (
          ground (arith, present-intersect c acc mount.capabilities),
          (ground (arith, present-intersect c acc mount.capabilities), rest),
        ),
    λ (h, (k, rest)).
        (fold_mounts_iff c (intersect acc mount.capabilities) mounts).1
          (ground (arith, present-intersect c acc mount.capabilities), rest),
  )

  -- What is advertised is exactly what the native catalog and every mount can do.
  pub effective_capabilities_iff :
      (native : Option NamespaceIdent → Capabilities) (fed : FederatedCatalog lib) (c : Capability)
      → (present_in c (effective_capabilities lib native fed) ≡ true)
        ↔ ((present_in c (native none) ≡ true) × AllHave c fed.mounts)
  unfolding effective_capabilities
  effective_capabilities_iff native fed c = fold_mounts_iff c (native none) fed.mounts

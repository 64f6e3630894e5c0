-- ===== src/Federation/Isolated.antt =====
-- src/catalog/federated.rs: an operation changes no catalog but the one in which what it names lives.
use mathlib.Core.Path.{subst}
use rustberg.Common.{
  ◌≡◌, ◌≢◌, ◌⊎◌, ◌∙◌, sym, refl, ap, Text, text_eq, text_eq_iff, false, Bool-cases, inl, inr,
  Option, none, some, List, [], ◌∷◌, Result, ok, err, if◌then◌else◌, arith, All, IsIn,
}
use rustberg.Redb.Keys.{NamespaceIdent}
use rustberg.Federation.{Library, Error, Kind, Mount, FederatedCatalog, Operation, find_mount}
use rustberg.Federation.Perform.{Step, known, ask, enter}
use rustberg.Federation.Dispatch.{
  Destination, nowhere, to_native, to_mount, refused, destination, put_store, Backend, step,
  perform_at, perform,
}
use rustberg.Federation.Homes.{
  namespaces_of, home_of, GoesTo, goes_native, goes_mount, destination-GoesTo,
}

module _ (lib : Library) where
  -- The catalog of a name, `none` for the native one: its state, and a mount's settings with it.
  pub data Catalog : Type 0 where
    native_at : lib.Store → Catalog
    mount_at : Option (Mount lib) → Catalog

  abbrev pub catalog_at : FederatedCatalog lib → Option Text → Catalog
  catalog_at fed none = native_at fed.native
  catalog_at fed (some name) = mount_at (find_mount lib name fed.mounts)

  All-IsIn :
      (P : NamespaceIdent → Type 0) (ns : NamespaceIdent) (names : List NamespaceIdent)
      → All P names
      → IsIn ns names
      → P ns
  All-IsIn P ns [] h i = elim i [ ]
  All-IsIn P ns (n ∷ names) (p, h) (inl e) = subst P (sym e) p
  All-IsIn P ns (n ∷ names) (p, h) (inr i) = All-IsIn P ns names h i

  find_mount-put_store :
      (name other : Text) (store : lib.Store) (mounts : List (Text × Mount lib))
      → other ≢ name
      → find_mount lib other (put_store lib name store mounts) ≡ find_mount lib other mounts
  unfolding find_mount put_store
  find_mount-put_store name other store [] ne = refl
  find_mount-put_store name other store ((key, mount) ∷ mounts) ne =
      elim (Bool-cases (text_eq key name)) [
        | inl here ↦
            let differs : text_eq key other ≡ false =
              ground (arith, text_eq_iff key name, text_eq_iff key other) in
            rw (here, differs) refl
        | inr there ↦ rw there (
            ap (λ rest. if text_eq key other then some mount else rest)
              (find_mount-put_store name other store mounts ne))
      ]

  step-native :
      (k : Kind) (backend : Backend lib) (fed : FederatedCatalog lib) (mount : Mount lib)
      (r : Result (Step lib k) Error)
      → (step lib k backend fed mount r).1.native ≡ fed.native
  unfolding step
  step-native k backend fed mount (err e) = refl
  step-native k backend fed mount (ok (known a)) = refl
  step-native k backend fed mount (ok (ask inner)) = refl

  step-others :
      (k : Kind) (backend : Backend lib) (fed : FederatedCatalog lib) (mount : Mount lib)
      (r : Result (Step lib k) Error) (name : Text)
      → name ≢ mount.name
      → find_mount lib name (step lib k backend fed mount r).1.mounts
        ≡ find_mount lib name fed.mounts
  unfolding step
  step-others k backend fed mount (err e) name ne = refl
  step-others k backend fed mount (ok (known a)) name ne = refl
  step-others k backend fed mount (ok (ask inner)) name ne =
      find_mount-put_store mount.name name (backend k inner mount.store).1 fed.mounts ne

  perform_at-others :
      (k : Kind) (backend : Backend lib) (fed : FederatedCatalog lib) (op : Operation lib k)
      (d : Destination lib) (home target : Option Text)
      → GoesTo lib home d
      → home ≢ target
      → catalog_at (perform_at lib k backend fed op d).1 target ≡ catalog_at fed target
  unfolding perform_at
  perform_at-others k backend fed op (refused e) home target g ne = refl
  perform_at-others k backend fed op nowhere home target g ne = refl
  perform_at-others k backend fed op to_native home (some name) g ne = refl
  perform_at-others k backend fed op to_native home none (goes_native e) ne = absurd (ne e)
  perform_at-others k backend fed op (to_mount mount) home none g ne =
      ap (λ (store : lib.Store). native_at store)
        (step-native k backend fed mount (enter lib mount op))
  perform_at-others k backend fed op (to_mount mount) home (some name) (goes_mount e) ne =
      ap (λ (o : Option (Mount lib)). mount_at o)
        (step-others k backend fed mount (enter lib mount op) name
          (λ same. ne (e ∙ ap (λ (t : Text). some t) (sym same))))

  -- Two homes of one operation.
  perform_at-parted :
      (k : Kind) (backend : Backend lib) (fed : FederatedCatalog lib) (op : Operation lib k)
      (d : Destination lib) (home other : Option Text)
      → GoesTo lib home d
      → GoesTo lib other d
      → (home ≡ other) ⊎ ((e : Error) × (perform_at lib k backend fed op d ≡ (err e, fed)))
  unfolding perform_at
  perform_at-parted k backend fed op (refused e) home other g g' = inr (e, refl)
  perform_at-parted k backend fed op nowhere home other g g' = elim g [ ]
  perform_at-parted k backend fed op to_native home other (goes_native e) (goes_native e') =
      inl (e ∙ sym e')
  perform_at-parted k backend fed op (to_mount mount) home other (goes_mount e) (goes_mount e') =
      inl (e ∙ sym e')

  -- An operation that names a namespace changes no catalog but the one in which that namespace
  -- lives, the native one or a mount with its settings; and if it names another namespace, either
  -- that one lives in the same catalog or the operation is refused and changes nothing. So a rename
  -- or a commit across catalogs changes none of them.
  pub perform-Touches :
      (k : Kind) (backend : Backend lib) (fed : FederatedCatalog lib) (op : Operation lib k)
      (ns other : NamespaceIdent) (target : Option Text)
      → IsIn ns (namespaces_of lib op)
      → IsIn other (namespaces_of lib op)
      → home_of lib fed ns ≢ target
      → (catalog_at (perform lib k backend fed op).1 target ≡ catalog_at fed target)
        × ((home_of lib fed ns ≡ home_of lib fed other)
            ⊎ ((e : Error) × (perform lib k backend fed op ≡ (err e, fed))))
  unfolding perform
  perform-Touches k backend fed op ns other target here there ne =
      let d = destination lib fed op in
      let GoesHome = λ (n : NamespaceIdent). GoesTo lib (home_of lib fed n) d in
      let all_go = destination-GoesTo lib fed op in
      let g = All-IsIn GoesHome ns (namespaces_of lib op) all_go here in
      let g' = All-IsIn GoesHome other (namespaces_of lib op) all_go there in
      (
        perform_at-others k backend fed op d (home_of lib fed ns) target g ne,
        perform_at-parted k backend fed op d (home_of lib fed ns) (home_of lib fed other) g g',
      )

-- ===== src/Federation/Named.antt =====
-- src/catalog/federated.rs: a mount is found under its own name, and a table that a mount returns has
-- the name that it was asked for.
use mathlib.Core.Path.{subst}
use rustberg.Common.{
  ◌≡◌, ◌≢◌, refl, sym, ap, ◌∙◌, Text, text_eq, text_eq_iff, Bool-cases, Option-cases, inl, inr,
  some, List, [], ◌∷◌, Result, Result-cases, ok, err, >>=-eq-ok,
}
use rustberg.Redb.Keys.{NamespaceIdent, TableIdent}
use rustberg.Federation.{
  Library, Error, of_table, Mount, FederatedCatalog, Table, load_table, find_mount, check_mount,
  insert_mounts, new_federated, route, inner_namespace, inner_ident, prefixed, prefixed_ident,
}
use rustberg.Federation.Perform.{enter}
use rustberg.Federation.Dispatch.{
  single, destination, Backend, restored, restore, prefixed_table, step, perform_at, perform,
}

module _ (lib : Library) where
  -- A mount that is found under a name has it.
  abbrev pub IsKeyed : List (Text × Mount lib) → Type 0
  IsKeyed mounts =
      (name : Text) (mount : Mount lib)
      → find_mount lib name mounts ≡ some mount
      → mount.name ≡ name

  ok-inj : {A : Type 0} {a b : A} → ◌≡◌ {A = Result A Error} (ok a) (ok b) → a ≡ b
  ok-inj e = cc

  some-inj : {a b : Mount lib} → some a ≡ some b → a ≡ b
  some-inj e = cc

  added-IsKeyed :
      (mount : Mount lib) (table : List (Text × Mount lib))
      → IsKeyed table
      → IsKeyed ((mount.name, mount) ∷ table)
  unfolding find_mount
  added-IsKeyed mount table h name found e = elim (Bool-cases (text_eq mount.name name)) [
    | inl here ↦
        let at : find_mount lib name ((mount.name, mount) ∷ table) ≡ some mount = rw here refl in
        sym (ap (λ m. m.name) (some-inj (sym at ∙ e))) ∙ (text_eq_iff mount.name name).0 here
    | inr there ↦
        let at : find_mount lib name ((mount.name, mount) ∷ table) ≡ find_mount lib name table =
          rw there refl in
        h name found (sym at ∙ e)
  ]

  insert_mounts-IsKeyed :
      (table : List (Text × Mount lib)) (mounts : List (Mount lib)) (last : List (Text × Mount lib))
      → IsKeyed table
      → insert_mounts lib table mounts ≡ ok last
      → IsKeyed last
  unfolding insert_mounts
  insert_mounts-IsKeyed table [] last h e = subst IsKeyed (ok-inj e) h
  insert_mounts-IsKeyed table (mount ∷ mounts) last h e =
      let (_, _, e1) = >>=-eq-ok (check_mount lib mount table) _ e in
      insert_mounts-IsKeyed ((mount.name, mount) ∷ table) mounts last (added-IsKeyed mount table h)
        e1

  new_federated-IsKeyed :
      (native : lib.Store) (mounts : List (Mount lib)) (fed : FederatedCatalog lib)
      → new_federated lib native mounts ≡ ok fed
      → IsKeyed fed.mounts
  unfolding new_federated
  new_federated-IsKeyed native mounts fed e =
      let (table, made, same) = >>=-eq-ok (insert_mounts lib [] mounts) _ e in
      subst IsKeyed (ap (λ f. f.mounts) (ok-inj same))
        (insert_mounts-IsKeyed [] mounts table (λ name mount none'. absurd (cc none')) made)

  -- A backend that returns the table that it is asked for.
  abbrev pub IsNaming : Backend lib → Type 0
  IsNaming backend =
      (t : TableIdent) (store : lib.Store) (found : Table lib)
      → (backend of_table (load_table t) store).0 ≡ ok found
      → found.identifier ≡ t

  err_ne : {f : Error} {found : Table lib} → ◌≢◌ {A = Result (Table lib) Error} (err f) (ok found)
  err_ne e = cc

  -- A table that a mount returns.
  step_named :
      (backend : Backend lib) (fed : FederatedCatalog lib) (mount : Mount lib) (first : Text)
      (inner : NamespaceIdent) (name : Text) (found : Table lib)
      → IsNaming backend
      → mount.name ≡ first
      → (step lib of_table backend fed mount
          (enter lib mount (load_table (record { namespace = first ∷ inner; name = name })))).0
        ≡ ok found
      → found.identifier ≡ record { namespace = first ∷ inner; name = name }
  unfolding step enter inner_ident inner_namespace restore prefixed_table prefixed_ident prefixed
  step_named backend fed mount first [] name found named same e = absurd (cc e)
  step_named backend fed mount first (i ∷ inner) name found named same e =
      let asked : TableIdent = record { namespace = i ∷ inner; name = name } in
      elim (Result-cases (backend of_table (load_table asked) mount.store).0) [
        | inr (f, fails) ↦
            let at = ap (restored lib of_table mount) fails in absurd (err_ne (sym at ∙ e))
        | inl (answer, answered) ↦
            let at = ap (restored lib of_table mount) answered in
            let returned : prefixed_table lib mount answer ≡ found = ok-inj (sym at ∙ e) in
            sym (ap (λ x. x.identifier) returned)
            ∙ ap (λ x. prefixed_ident lib mount x) (named asked mount.store answer answered)
            ∙ ap (λ x. record { namespace = x ∷ i ∷ inner; name = name }) same
      ]

  mounted_named :
      (backend : Backend lib) (fed : FederatedCatalog lib) (mount : Mount lib) (ns : NamespaceIdent)
      (name : Text) (found : Table lib)
      → IsNaming backend
      → IsKeyed fed.mounts
      → route lib fed ns ≡ some mount
      → (step lib of_table backend fed mount
          (enter lib mount (load_table (record { namespace = ns; name = name })))).0
        ≡ ok found
      → found.identifier ≡ record { namespace = ns; name = name }
  unfolding route
  mounted_named backend fed mount [] name found named keyed routed e = absurd (cc routed)
  mounted_named backend fed mount (first ∷ inner) name found named keyed routed e =
      step_named backend fed mount first inner name found named (keyed first mount routed) e

  -- In a catalog that `new` made, a table that is loaded has the name that it was asked for, whatever
  -- mount it comes from, if the catalogs behind name their tables so.
  pub load_table_named :
      (backend : Backend lib) (native : lib.Store) (mounts : List (Mount lib))
      (fed : FederatedCatalog lib) (t : TableIdent) (found : Table lib)
      → IsNaming backend
      → new_federated lib native mounts ≡ ok fed
      → (perform lib of_table backend fed (load_table t)).0 ≡ ok found
      → found.identifier ≡ t
  unfolding perform destination single perform_at enter step
  load_table_named backend native mounts fed t found named made e =
      elim (Option-cases (route lib fed t.namespace)) [
        | inl native_route ↦
            let at =
              ap (λ r. (perform_at lib of_table backend fed (load_table t) (single lib r)).0)
                native_route in
            named t fed.native found (sym at ∙ e)
        | inr (mount, routed) ↦
            let at =
              ap (λ r. (perform_at lib of_table backend fed (load_table t) (single lib r)).0)
                routed in
            mounted_named backend fed mount t.namespace t.name found named
              (new_federated-IsKeyed native mounts fed made) routed (sym at ∙ e)
      ]

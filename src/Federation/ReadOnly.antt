-- ===== src/Federation/ReadOnly.antt =====
-- src/catalog/federated.rs: a mount with the capabilities of `read_only` of
-- src/catalog/capabilities.rs is only read.
use rustberg.Common.{
  ◌≡◌, refl, sym, ap, ◌∙◌, Text, text_eq, Bool, true, false, Bool-cases, inl, inr, none, some, List,
  [], ◌∷◌, Result, ok, err, ◌>>=◌, if◌then◌else◌, is_empty, not, ◌||◌,
}
use rustberg.Federation.{
  Library, Capabilities, Capability, can_write, can_multi_table_commit, can_register,
  can_stage_create, can_purge, can_views, present_in, Error, Kind, Mount, FederatedCatalog,
  Operation, list_namespaces, create_namespace, get_namespace, namespace_exists, update_namespace,
  drop_namespace, list_tables, create_table, stage_create_table, metadata_pointer, load_table,
  table_exists, register_table, commit_table, commit_tables_atomic, rename_table, drop_table,
  purge_table, list_views, view_exists, load_view, register_view, create_view, update_view,
  drop_view, rename_view, find_mount, require, inner_of, inner_ident,
}
use rustberg.Federation.Perform.{Step, known, ask, enter}
use rustberg.Federation.Dispatch.{
  to_mount, destination, put_store, Backend, step, perform_at, perform,
}

-- No capability to change anything, whatever may be read.
pub record IsReadOnly (c : Capabilities) : Type 0 where
  pub write : c.write ≡ false
  pub multi_table_commit : c.multi_table_commit ≡ false
  pub register : c.register ≡ false
  pub stage_create : c.stage_create ≡ false
  pub purge : c.purge ≡ false

module _ (lib : Library) where
  -- The operations that leave a catalog as it is.
  abbrev pub is_reading : {k : Kind} → Operation lib k → Bool
  is_reading (list_namespaces parent page) = true
  is_reading (get_namespace ns) = true
  is_reading (namespace_exists ns) = true
  is_reading (list_tables ns page) = true
  is_reading (metadata_pointer t) = true
  is_reading (load_table t) = true
  is_reading (table_exists t) = true
  is_reading (list_views ns page) = true
  is_reading (view_exists v) = true
  is_reading (load_view v) = true
  is_reading _ = false

  -- Nothing but a reading operation is asked.
  reads : {k : Kind} → Result (Step lib k) Error → Bool
  reads (ok (ask inner)) = is_reading inner
  reads (ok (known a)) = true
  reads (err e) = true

  bind-reads :
      {k : Kind} {A : Type 0} (r : Result A Error) (next : A → Result (Step lib k) Error)
      → ((a : A) → reads (next a) ≡ true)
      → reads (r >>= next) ≡ true
  unfolding reads
  bind-reads (ok a) next h = h a
  bind-reads (err e) next h = refl

  require-reads :
      {k : Kind} (mount : Mount lib) (c : Capability) (next : Unit {0} → Result (Step lib k) Error)
      → present_in c mount.capabilities ≡ false
      → reads (require lib mount c >>= next) ≡ true
  unfolding reads require
  require-reads mount c next h = rw h refl

  if-reads :
      {k : Kind} (b : Bool) (r s : Result (Step lib k) Error)
      → reads r ≡ true
      → reads s ≡ true
      → reads (if b then r else s) ≡ true
  if-reads true r s h k = h
  if-reads false r s h k = k

  enter-reads :
      (k : Kind) (mount : Mount lib) (op : Operation lib k)
      → IsReadOnly mount.capabilities
      → reads (enter lib mount op) ≡ true
  unfolding enter reads present_in
  enter-reads k mount (list_namespaces none page) h = refl
  enter-reads k mount (list_namespaces (some parent) page) h =
      if-reads (is_empty (inner_of lib parent)) _ _ refl refl
  enter-reads k mount (create_namespace ns properties) h = require-reads mount can_write _ h.write
  enter-reads k mount (get_namespace ns) h = if-reads (is_empty (inner_of lib ns)) _ _ refl refl
  enter-reads k mount (namespace_exists ns) h = if-reads (is_empty (inner_of lib ns)) _ _ refl refl
  enter-reads k mount (update_namespace ns properties) h = require-reads mount can_write _ h.write
  enter-reads k mount (drop_namespace ns) h = require-reads mount can_write _ h.write
  enter-reads k mount (list_tables ns page) h = if-reads (is_empty (inner_of lib ns)) _ _ refl refl
  enter-reads k mount (create_table ns creation) h = require-reads mount can_write _ h.write
  enter-reads k mount (stage_create_table ns creation) h =
      require-reads mount can_stage_create _ h.stage_create
  enter-reads k mount (metadata_pointer t) h = bind-reads (inner_ident lib t) _ (λ _. refl)
  enter-reads k mount (load_table t) h = bind-reads (inner_ident lib t) _ (λ _. refl)
  enter-reads k mount (table_exists t) h = bind-reads (inner_ident lib t) _ (λ _. refl)
  enter-reads k mount (register_table t location) h = require-reads mount can_register _ h.register
  enter-reads k mount (commit_table t commit) h = require-reads mount can_write _ h.write
  enter-reads k mount (commit_tables_atomic commits) h =
      require-reads mount can_multi_table_commit _ h.multi_table_commit
  enter-reads k mount (rename_table src dest) h = require-reads mount can_write _ h.write
  enter-reads k mount (drop_table t) h = require-reads mount can_write _ h.write
  enter-reads k mount (purge_table t) h = require-reads mount can_purge _ h.purge
  enter-reads k mount (list_views ns page) h =
      if-reads (not mount.capabilities.views || is_empty (inner_of lib ns)) _ _ refl refl
  enter-reads k mount (view_exists v) h =
      if-reads (not mount.capabilities.views) _ _ refl
        (bind-reads (inner_ident lib v) _ (λ _. refl))
  enter-reads k mount (load_view v) h =
      bind-reads (require lib mount can_views) _ (λ _. bind-reads (inner_ident lib v) _ (λ _. refl))
  enter-reads k mount (register_view v location) h =
      bind-reads (require lib mount can_views) _
        (λ _. require-reads mount can_register _ h.register)
  enter-reads k mount (create_view v metadata) h =
      bind-reads (require lib mount can_views) _ (λ _. require-reads mount can_write _ h.write)
  enter-reads k mount (update_view v expected metadata) h =
      bind-reads (require lib mount can_views) _ (λ _. require-reads mount can_write _ h.write)
  enter-reads k mount (drop_view v) h =
      bind-reads (require lib mount can_views) _ (λ _. require-reads mount can_write _ h.write)
  enter-reads k mount (rename_view src dest) h =
      bind-reads (require lib mount can_views) _ (λ _. require-reads mount can_write _ h.write)

  -- A catalog that reading leaves as it is.
  abbrev pub IsPassive : Backend lib → Type 0
  IsPassive backend =
      (k : Kind) (op : Operation lib k) (store : lib.Store)
      → is_reading op ≡ true
      → (backend k op store).1 ≡ store

  some-inj : {m n : Mount lib} → some m ≡ some n → m ≡ n
  some-inj e = cc

  found_here :
      (key name : Text) (mount : Mount lib) (mounts : List (Text × Mount lib))
      → text_eq key name ≡ true
      → find_mount lib name ((key, mount) ∷ mounts) ≡ some mount
  unfolding find_mount
  found_here key name mount mounts h = rw h refl

  found_there :
      (key name : Text) (mount : Mount lib) (mounts : List (Text × Mount lib))
      → text_eq key name ≡ false
      → find_mount lib name ((key, mount) ∷ mounts) ≡ find_mount lib name mounts
  unfolding find_mount
  found_there key name mount mounts h = rw h refl

  put_store_same :
      (name : Text) (store : lib.Store) (mounts : List (Text × Mount lib)) (mount : Mount lib)
      → find_mount lib name mounts ≡ some mount
      → store ≡ mount.store
      → put_store lib name store mounts ≡ mounts
  unfolding find_mount put_store
  put_store_same name store [] mount h e = refl
  put_store_same name store ((key, other) ∷ mounts) mount h e =
      elim (Bool-cases (text_eq key name)) [
        | inl here ↦
            let same : other ≡ mount = some-inj (sym (found_here key name other mounts here) ∙ h) in
            rw here (
              ap (λ x. (key, record other { store = x }) ∷ mounts)
                (e ∙ ap (λ m. m.store) (sym same)))
        | inr there ↦
            let later : find_mount lib name mounts ≡ some mount =
              sym (found_there key name other mounts there) ∙ h in
            rw there (ap (λ l. (key, other) ∷ l) (put_store_same name store mounts mount later e))
      ]

  step-same :
      (k : Kind) (backend : Backend lib) (fed : FederatedCatalog lib) (mount : Mount lib)
      (r : Result (Step lib k) Error)
      → IsPassive backend
      → find_mount lib mount.name fed.mounts ≡ some mount
      → reads r ≡ true
      → (step lib k backend fed mount r).1 ≡ fed
  unfolding step reads
  step-same k backend fed mount (err e) p found h = refl
  step-same k backend fed mount (ok (known a)) p found h = refl
  step-same k backend fed mount (ok (ask inner)) p found h =
      ap (λ mounts. record { mounts = mounts; native = fed.native })
        (put_store_same mount.name (backend k inner mount.store).1 fed.mounts mount found
          (p k inner mount.store h))

  -- No operation changes anything in a mount that may not write, register, commit several tables,
  -- stage or purge, if its catalog is left as it is by the operations that read.
  pub perform_read_only :
      (k : Kind) (backend : Backend lib) (fed : FederatedCatalog lib) (op : Operation lib k)
      (mount : Mount lib)
      → IsPassive backend
      → destination lib fed op ≡ to_mount mount
      → find_mount lib mount.name fed.mounts ≡ some mount
      → IsReadOnly mount.capabilities
      → (perform lib k backend fed op).1 ≡ fed
  unfolding perform perform_at
  perform_read_only k backend fed op mount p at found h =
      ap (λ d. (perform_at lib k backend fed op d).1) at
      ∙ step-same k backend fed mount (enter lib mount op) p found (enter-reads k mount op h)

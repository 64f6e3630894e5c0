-- ===== src/Federation.antt =====
-- src/catalog/federated.rs: a catalog that routes by the top level of a namespace, and the
-- capabilities of src/catalog/capabilities.rs. The catalogs behind it are a parameter: what
-- `CatalogStore` can be asked is the data type `Operation`.
mod Examples
pub mod Perform
pub mod Dispatch
pub mod Homes
pub mod Isolated
pub mod ReadOnly
pub mod Named
pub mod Root
pub mod Listed
use rustberg.Common.{
  Text, text_eq, Bool, true, false, ◌&&◌, ◌||◌, Option, none, some, List, [], ◌∷◌, any, Result, ok,
  err, if◌then◌else◌, is_empty, trim, ◌==◌, ◌>>=◌,
}
use rustberg.Redb.Keys.{NamespaceIdent, TableIdent, part_separator, name_separator}
use rustberg.Redb.Pages.{PageRequest, Page}

-- The types of other libraries that the calls carry: a catalog's state, what a table is created
-- from, the requirements and updates of a commit, a table's metadata and its files, a view's
-- metadata.
pub record Library : Type 1 where
  pub Store : Type 0
  pub Creation : Type 0
  pub Commit : Type 0
  pub Body : Type 0
  pub ViewMetadata : Type 0

pub record Capabilities : Type 0 where
  pub write : Bool
  pub views : Bool
  pub multi_table_commit : Bool
  pub register : Bool
  pub stage_create : Bool
  pub purge : Bool
  pub scan_planning : Bool

pub data Capability : Type 0 where
  can_write can_views can_multi_table_commit can_register : Capability
  can_stage_create can_purge can_scan_planning : Capability

unfoldable pub present_in : Capability → Capabilities → Bool
present_in can_write c = c.write
present_in can_views c = c.views
present_in can_multi_table_commit c = c.multi_table_commit
present_in can_register c = c.register
present_in can_stage_create c = c.stage_create
present_in can_purge c = c.purge
present_in can_scan_planning c = c.scan_planning

abbrev pub full : Capabilities
full = record {
  write = true;
  views = true;
  multi_table_commit = true;
  register = true;
  stage_create = true;
  purge = true;
  scan_planning = true;
}

abbrev pub read_only : Capabilities
read_only = record {
  write = false;
  views = true;
  multi_table_commit = false;
  register = false;
  stage_create = false;
  purge = false;
  scan_planning = false;
}

abbrev pub read_only_without_views : Capabilities
read_only_without_views = record read_only { views = false }

abbrev pub read_only_native : Capabilities
read_only_native = record read_only { scan_planning = true }

unfoldable pub intersect : Capabilities → Capabilities → Capabilities
intersect a b = record {
  write = a.write && b.write;
  views = a.views && b.views;
  multi_table_commit = a.multi_table_commit && b.multi_table_commit;
  register = a.register && b.register;
  stage_create = a.stage_create && b.stage_create;
  purge = a.purge && b.purge;
  scan_planning = a.scan_planning && b.scan_planning;
}

pub data Error : Type 0 where
  empty_mount_name no_namespace : Error
  reserved_separator duplicate_mount mount_exists mount_properties mount_kept : Text → Error
  unsupported : Text → Capability → Error
  cross_mount : TableIdent → TableIdent → Error
  cross_catalogs : Option Text → Option Text → Error
  elsewhere : Text → Error

pub record Namespace : Type 0 where
  pub name : NamespaceIdent
  pub properties : List (Text × Text)

-- What an operation answers.
pub data Kind : Type 0 where
  of_namespaces of_namespace of_flag of_done of_identifiers of_table of_pointer of_tables of_view :
      Kind

module _ (lib : Library) where
  pub record Mount : Type 0 where
    pub name : Text
    pub store : lib.Store
    pub capabilities : Capabilities
    pub owner : Text
    pub warehouse : Option Text

  pub record FederatedCatalog : Type 0 where
    pub mounts : List (Text × Mount)
    pub native : lib.Store

  pub record Table : Type 0 where
    pub identifier : TableIdent
    pub body : lib.Body

  abbrev pub Answer : Kind → Type 0
  Answer of_namespaces = Page NamespaceIdent
  Answer of_namespace = Namespace
  Answer of_flag = Bool
  Answer of_done = Unit {0}
  Answer of_identifiers = Page TableIdent
  Answer of_table = Table
  Answer of_pointer = Option Text
  Answer of_tables = List Table
  Answer of_view = Text × lib.ViewMetadata

  -- The methods of `CatalogStore` that name a resource, with their arguments.
  pub data Operation : Kind → Type 0 where
    list_namespaces : Option NamespaceIdent → PageRequest → Operation of_namespaces
    create_namespace : NamespaceIdent → List (Text × Text) → Operation of_namespace
    get_namespace : NamespaceIdent → Operation of_namespace
    namespace_exists : NamespaceIdent → Operation of_flag
    update_namespace : NamespaceIdent → List (Text × Text) → Operation of_done
    drop_namespace : NamespaceIdent → Operation of_done
    list_tables : NamespaceIdent → PageRequest → Operation of_identifiers
    create_table : NamespaceIdent → lib.Creation → Operation of_table
    stage_create_table : NamespaceIdent → lib.Creation → Operation of_table
    metadata_pointer : TableIdent → Operation of_pointer
    load_table : TableIdent → Operation of_table
    table_exists : TableIdent → Operation of_flag
    register_table : TableIdent → Text → Operation of_table
    commit_table : TableIdent → lib.Commit → Operation of_table
    commit_tables_atomic : List (TableIdent × lib.Commit) → Operation of_tables
    rename_table : TableIdent → TableIdent → Operation of_done
    drop_table : TableIdent → Operation of_done
    purge_table : TableIdent → Operation of_done
    list_views : NamespaceIdent → PageRequest → Operation of_identifiers
    view_exists : TableIdent → Operation of_flag
    load_view : TableIdent → Operation of_view
    register_view : TableIdent → Text → Operation of_view
    create_view : TableIdent → lib.ViewMetadata → Operation of_view
    update_view : TableIdent → Text → lib.ViewMetadata → Operation of_view
    drop_view : TableIdent → Operation of_done
    rename_view : TableIdent → TableIdent → Operation of_done

  -- `HashMap::get` of the mounts.
  unfoldable pub find_mount : Text → List (Text × Mount) → Option Mount
  find_mount name [] = none
  find_mount name ((key, mount) ∷ mounts) =
      let rest = find_mount name mounts in if text_eq key name then some mount else rest

  abbrev contains : Text → Option Mount → Bool
  contains name none = false
  contains name (some _) = true

  -- The checks of `new` for one mount.
  unfoldable pub check_mount : Mount → List (Text × Mount) → Result (Unit {0}) Error
  unfolding trim find_mount
  check_mount mount table =
      if is_empty (trim mount.name)
      then err empty_mount_name
      else if any (λ c. c == part_separator) mount.name || any (λ c. c == name_separator) mount.name
      then err (reserved_separator mount.name)
      else if contains mount.name (find_mount mount.name table)
      then err (duplicate_mount mount.name)
      else ok tt

  unfoldable pub insert_mounts :
      List (Text × Mount) → List Mount → Result (List (Text × Mount)) Error
  unfolding check_mount
  insert_mounts table [] = ok table
  insert_mounts table (mount ∷ mounts) = do
    checked ← check_mount mount table
    insert_mounts ((mount.name, mount) ∷ table) mounts

  unfoldable pub new_federated : lib.Store → List Mount → Result FederatedCatalog Error
  unfolding insert_mounts
  new_federated native mounts = do
    table ← insert_mounts [] mounts
    ok (record { mounts = table; native = native })

  -- `namespace.as_ref()[1..]`
  abbrev pub inner_of : NamespaceIdent → List Text
  inner_of [] = []
  inner_of (_ ∷ inner) = inner

  -- Where a namespace lives: `none` is the native catalog.
  unfoldable pub route : FederatedCatalog → NamespaceIdent → Option Mount
  unfolding find_mount
  route fed [] = none
  route fed (first ∷ _) = find_mount first fed.mounts

  unfoldable pub require : Mount → Capability → Result (Unit {0}) Error
  unfolding present_in
  require mount capability =
      if present_in capability mount.capabilities
      then ok tt
      else err (unsupported mount.name capability)

  unfoldable pub prefixed : Mount → NamespaceIdent → NamespaceIdent
  prefixed mount inner = mount.name ∷ inner

  unfoldable pub prefixed_ident : Mount → TableIdent → TableIdent
  unfolding prefixed
  prefixed_ident mount inner = record {
    namespace = prefixed mount inner.namespace;
    name = inner.name;
  }

  unfoldable pub inner_namespace : List Text → Result NamespaceIdent Error
  inner_namespace inner = if is_empty inner then err no_namespace else ok inner

  unfoldable pub inner_ident : TableIdent → Result TableIdent Error
  unfolding inner_namespace
  inner_ident t = do
    ns ← inner_namespace (inner_of t.namespace)
    ok (record { namespace = ns; name = t.name })

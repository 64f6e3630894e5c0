-- ===== src/Lib.antt =====
-- A model of Rustberg, an Apache Iceberg REST catalog: where a client may put a table's files,
-- what names it accepts, the embedded registry that holds the catalog's pointers, the filters
-- of clients and of policies, the address that a request is attributed to, the bans of clients
-- whose credentials fail, the signing of a client's storage requests, and the routing of names
-- to the catalogs that are mounted.
--
-- The catalog keeps a registry of namespaces, tables and views. A table's record holds the
-- location of its newest metadata file; a commit writes a new metadata file and swaps the
-- pointer. Before a location that a client names enters the registry, it is checked to lie
-- within the bound of the resource, since a credential is later vended for it and a background
-- job may delete under it. The registry calls the confinement check with the prefix at which it
-- lays the resource out. A policy may restrict a table to the rows of a filter; the filter is
-- checked when the policy is stored and parsed, as a client's own filter is, when a scan is
-- planned. A client that is given no credential has its requests signed one by one, after the
-- same containment check.
--
-- Location.antt and its folder model src/location.rs:
-- - Location: `split`, `segments`, `root_segments`, `is_within`, `is_prefix_within`,
--   `is_vendable`, under the same names. `within_split` and `prefix_within_split` are the
--   bodies after `split`; `within_segments` and `comparable` are their tests.
-- - Location.Segments and Location.Within: lists of segments, and what `is_within` decides.
--   Location.Keys: raw string prefixes of object stores.
-- - Location.Bound: `LocationScope`, `LocationBound` and its checks, one round of each loop as
--   a definition of its own (`ensure_update`, `ensure_view_update`), and the canonical layout
--   (`canonical_prefix`, `namespace_prefix`). Location.Bound.Commits: histories of commits.
--   Location.Bound.Layout, Location.Bound.Inside and Location.Bound.Overlap: the layout of the
--   resources of a warehouse, that it is inside the warehouse, and what overlaps.
-- - Location.Urls: `to_url` and `without_url_prefix`, the platform an argument as in the code.
--
-- Names.antt and its folder model src/names.rs: `validate_name` and what is built on it,
-- `unusable_role_char` and `usable_roles`, `validate_properties`. The tables of Unicode are a
-- parameter, the record `Unicode`; what the crates document of them stands in `IsUnicode`,
-- `IsControlOther` and `IsAsciiNormal`.
-- - Names.Accepted and Names.Roles: what is accepted. Names.Chain: `parse_view_chain`;
--   Names.Chain.Written and Names.Chain.Recorded: what a client writes and what is recorded.
--   Names.Storage: what that promises the two other parts, whose theorems ask for names without
--   separators.
--
-- Redb.antt and its folder model src/catalog/redb.rs and the two separators of src/names.rs:
-- - Redb.Maps: a table of redb as an association list in key order, `range` by the byte order
--   of UTF-8, which is the order of code points. Redb.Keys: the stored keys and the bounds of a
--   scan; Redb.Keys.Injective: what a key determines.
-- - Redb.State: the records, the registry of four tables, the reads and `reject_taken_name`. A
--   write transaction is a function from the registry to the registry that it commits or to the
--   error with which it is dropped.
-- - Redb.Namespaces, Redb.Tables, Redb.Views: the operations. An operation that checks in one
--   transaction and writes in another has a definition for each (`create_table_check`,
--   `create_table_write`), so that another writer can come between them. Redb.Writes: sequences
--   of transactions; Redb.Writes.Kinds: an invariant of them. Redb.Orphans: namespaces and what
--   is in them.
-- - Redb.Commit: the pointer swap of `try_commit_tables_atomic`; Redb.Commit.Swaps: what a swap
--   does. Redb.Commit.Retry: the retries of `commit_tables_atomic`, an attempt being a function
--   of its number; the waiting between them has no part in it.
-- - Redb.Pages: `PageRequest` and `Page` of src/catalog/store.rs and `list_tabulars`;
--   Redb.Pages.Complete: ranges of a map whose keys rise; Redb.Pages.Follow: a client that
--   follows the cursors.
--
-- RateLimit.antt and its folder model the failure tracker of src/auth/rate_limit.rs and its
-- section of src/config/server_config.rs:
-- - RateLimit: `ClientBucket::of` (`bucket_of`), `from_file_config`, the entry and its
--   operations, `record_auth_failure`, `record_auth_success`, `is_ip_banned`. Instants are
--   nanoseconds since some time, 32-bit arithmetic saturates as in the code. The cache of
--   entries is a function from clients to entries, and an operation reads the clock once.
-- - RateLimit.Clients: which addresses are one client. RateLimit.Bans: sequences of events, the
--   cache's dropping of entries among them. RateLimit.Window: failures within an hour.
--
-- Predicate.antt and its folder model src/predicate.rs and `to_hex` of src/catalog/v1/plan.rs;
-- Json.antt holds the values of serde_json that they read. The Iceberg library's schemas,
-- literals and predicates and the parsers of times are a parameter, the record `Iceberg`:
-- - Predicate: the types, the operands and `kind_of`, which names the arms of the code's
--   `match` on an expression's type. Predicate.Literals: `datum_from_json` and its parts,
--   `from_hex` among them. Predicate.Hex: `to_hex`, and what `from_hex` reads.
-- - Predicate.Parse: `parse_with_polarity` and its two callers. `parse_kind` is the match,
--   `bind_leaf` what its arms of terms share, `parse_child` the lookup of a child and its
--   parse, so that the recursion is over the JSON value. Predicate.Parse.Meaning: what a filter
--   means, by the laws of `Semantics`; Predicate.Parse.Superset and Predicate.Parse.Policy: how
--   the two parses stand to that.
-- - Predicate.Validate: `validate_policy_filter`. Predicate.Parse.Validated,
--   Predicate.Parse.Stored and Predicate.Parse.Unchecked: the check and the parse.
--   Predicate.Columns: `referenced_columns`, a sorted set as a list; Predicate.Parse.Over: the
--   columns of what is parsed.
--
-- RemoteIp.antt and its folder model src/remote_ip.rs: `Cidr::parse` (`parse_cidr`) and
-- `contains`, `RemoteIp::behind` and `resolve`, `parse_forwarded_entry`. The readers of
-- addresses are the standard library's and a parameter. `last_stop` is `rposition` and the
-- element there; `believed` is what `X-Real-IP` is taken to say. RemoteIp.Ranges: ranges bit by
-- bit. RemoteIp.Chain: chains that a client has written a part of.
--
-- Sign.antt and its folder model src/catalog/v1/sign.rs and the requests of
-- src/credentials/signer.rs:
-- - Sign: the requests, the configuration, and what the headers and the query alone are refused
--   for; `reqwest::Url` is the record `Url`, its parser an argument. Sign.Urls: `object_url`,
--   `split_bucket_and_key`, `copy_source_location`, `percent_decode`; Sign.Urls.Escapes,
--   Sign.Urls.Hosts and Sign.Urls.Written: what is written and read back, and the hosts that
--   name no bucket.
-- - Sign.Body: the scanner of `delete_keys`, its place in the body the text that is left and
--   one round of its loop `turn`. It has one turn more than the body has characters.
--   Sign.Body.Layout: bodies as clients write them; Sign.Body.Turns and Sign.Body.Written: what
--   is read from them; Sign.Body.Ends: the turns are enough.
-- - Sign.Resolve: `resolve`, `screen` being its tests before the bucket is read and
--   `resolve_kind` the kinds of request after. Sign.Request: `confine` and `sign_request`; an
--   action returns the records it leaves with its result, and what the endpoint asks the rest
--   of the server is the record `Server`. Sign.Request.Confined and Sign.Request.Refused: what
--   an answer and a refusal say.
--
-- Federation.antt and its folder model src/catalog/federated.rs and
-- src/catalog/capabilities.rs:
-- - Federation: the capabilities, `new` (`new_federated`) and routing. What `CatalogStore` can
--   be asked is the data type `Operation`, indexed by the kind of answer, and the catalogs
--   behind are one function, from an operation and a catalog's state to its answer and its new
--   state (`Backend`); the types that the calls carry are the record `Library`.
-- - Federation.Perform: the guards of each method for a mount and the operation under the
--   mount's own names (`enter`). Federation.Dispatch: where an operation goes (`destination`),
--   what comes back (`restore`), and the methods together (`perform`). Federation.Root: the
--   listing of the top level and its cursors, the warehouse, the prefix and the capabilities of
--   a namespace.
-- - Federation.Homes: where what an operation names lives. Federation.Isolated,
--   Federation.ReadOnly, Federation.Named and Federation.Listed: what an operation reaches, may
--   change, returns and asks.
--
-- Pagination.antt and its folder model src/catalog/v1/pagination.rs: `collect_page`, whose
-- rounds are `round` and whose scan of a batch is `scan_batch`. The backend is a function of
-- the number of the fetch and the request, the policy one of the row. Pagination.Rounds says
-- what one round keeps, Pagination.Ends and Pagination.Lossless what the loop does; `Serves` is
-- what a backend's page promises. The loop has 20 rounds of fuel, as many as the code may
-- fetch.
--
-- Common.antt passes on the library's names and holds tests, results, lists, text and lemmas on
-- splitting text. Text is a list of code points; Common.Utf8 has its bytes, where the code
-- reads them, and Common.Percent the escapes over them. The tests of each part stand in its
-- module Examples.
--
-- Versions of records are unbounded here; the code's are 64 bits wide and grow by one a commit.
-- Instants and the configured length of a ban are unbounded too, where the code aborts on
-- adding a length that its clock cannot hold. Listing the top level of a federated catalog is
-- in Federation.Root; `perform` gives that one request to the native catalog. All loops of the
-- code go over a list. `follow`, a client that fetches page after page, takes the number of
-- pages as fuel, and one more than there are rows is enough.
--
-- Not modelled: the token buckets of the rate limiter, whose numbers are floats, the Iceberg
-- library (requirements, updates and the writing of metadata are parameters, as the location of
-- the file written), redb itself, JSON encoding of records, base64, the listing of namespaces,
-- the policy store, the PostgreSQL registry, the client of a remote catalog, the other HTTP
-- handlers, the signers, authentication and authorization, credential vending, configuration
-- and the command line.
pub mod Common
pub mod Json
pub mod Location
pub mod Names
pub mod Predicate
pub mod Pagination
pub mod RateLimit
pub mod RemoteIp
pub mod Sign
pub mod Federation
pub mod Redb

-- ===== src/Redb/Keys/Injective.antt =====
-- Different resources have different keys in src/catalog/redb.rs, and a namespace's prefix covers
-- its own resources only.
use mathlib.Core.List.{append_assoc, append_cancel_left}
use rustberg.Common.{
  ℕ, Text, strip_prefix, some, List, [], ◌∷◌, ◌++◌, ◌≡◌, refl, ◌≢◌, ap, sym, ◌∙◌, ◌↔◌, join,
  split_at_char, arith, All, All-append,
}
use rustberg.Common.Joins.{split-join}
use rustberg.Common.Splits.{
  Lacks, split_at_char-join, split_at_char_of_Lacks, strip_prefix-eq, strip_prefix-append_self,
}
use rustberg.Redb.Keys.{
  part_separator, name_separator, NamespaceIdent, TableIdent, namespace_key, table_key,
  table_prefix,
}

-- A name that holds neither separator.
abbrev pub IsPlain : Text → Type 0
IsPlain s = Lacks part_separator s × Lacks name_separator s

pub record IsNamespace (ns : NamespaceIdent) : Type 0 where
  pub some_level : ns ≢ []
  pub plain : All IsPlain ns

pub record IsTableIdent (t : TableIdent) : Type 0 where
  pub namespace : IsNamespace t.namespace
  pub name : IsPlain t.name

join-Lacks : (c d : ℕ) (ss : List Text) → c ≢ d → All (Lacks d) ss → Lacks d (join c ss)
unfolding join
join-Lacks c d [] ne h = tt
join-Lacks c d (s ∷ []) ne (h, _) = h
join-Lacks c d (s ∷ t ∷ ss) ne (h, k) =
    All-append (λ x. x ≢ d) s (c ∷ join c (t ∷ ss)) h (ne, join-Lacks c d (t ∷ ss) ne k)

All-map {ℓ κ μ} :
    {A : Type ℓ} {P : A → Type κ} {Q : A → Type μ} (f : (a : A) → P a → Q a) (xs : List A)
    → All P xs
    → All Q xs
All-map f [] h = tt
All-map f (x ∷ xs) (p, h) = (f x p, All-map f xs h)

namespace_key-Lacks :
    (ns : NamespaceIdent) → IsNamespace ns → Lacks name_separator (namespace_key ns)
unfolding namespace_key
namespace_key-Lacks ns h =
    join-Lacks part_separator name_separator ns (omega arith) (All-map (λ s p. p.1) ns h.plain)

-- Two namespaces have one key only if they are one.
pub namespace_key_inj :
    (a b : NamespaceIdent)
    → IsNamespace a
    → IsNamespace b
    → namespace_key a ≡ namespace_key b
    → a ≡ b
unfolding namespace_key
namespace_key_inj [] b ha hb e = absurd (ha.some_level refl)
namespace_key_inj (x ∷ a) [] ha hb e = absurd (hb.some_level refl)
namespace_key_inj (x ∷ a) (y ∷ b) ha hb e =
    sym (split-join part_separator x a (All-map (λ s p. p.0) (x ∷ a) ha.plain))
    ∙ ap (split_at_char part_separator) e
    ∙ split-join part_separator y b (All-map (λ s p. p.0) (y ∷ b) hb.plain)

keyed_split :
    (c : ℕ) (k name : Text) → Lacks c k → split_at_char c (k ++ c ∷ name) ≡ k ∷ split_at_char c name
keyed_split c k name h = rw (split_at_char-join c k name, split_at_char_of_Lacks c k h) refl

-- What two texts with a separator after their first parts agree on.
keyed_inj :
    (c : ℕ) (k j name rest : Text)
    → Lacks c k
    → Lacks c j
    → k ++ c ∷ name ≡ j ++ c ∷ rest
    → (k ≡ j) × (name ≡ rest)
keyed_inj c k j name rest hk hj e =
    let heads : k ∷ split_at_char c name ≡ j ∷ split_at_char c rest =
      sym (keyed_split c k name hk) ∙ ap (split_at_char c) e ∙ keyed_split c j rest hj in
    let same : k ≡ j = cc in
    let tails : c ∷ name ≡ c ∷ rest =
      append_cancel_left j (c ∷ name) (c ∷ rest) (ap (λ x. x ++ c ∷ name) (sym same) ∙ e) in
    (same, cc)

-- A table's key begins with the prefix of a namespace exactly if the table is in that namespace,
-- and what follows is its name. No name holds a separator, and no namespace is without levels.
pub table_prefix-table_key :
    (ns : NamespaceIdent) (t : TableIdent) (rest : Text)
    → IsNamespace ns
    → IsTableIdent t
    → (strip_prefix (table_prefix ns) (table_key t) ≡ some rest)
      ↔ ((t.namespace ≡ ns) × (t.name ≡ rest))
unfolding table_prefix table_key
table_prefix-table_key ns t rest hns ht = (
  λ h.
      let e = strip_prefix-eq (table_prefix ns) (table_key t) rest h in
      let (same, names) =
        keyed_inj name_separator (namespace_key t.namespace) (namespace_key ns) t.name rest
          (namespace_key-Lacks t.namespace ht.namespace) (namespace_key-Lacks ns hns)
          (e ∙ append_assoc (namespace_key ns) (name_separator ∷ []) rest) in
      (namespace_key_inj t.namespace ns ht.namespace hns same, names),
  λ (same, names).
      rw (same, names, ← append_assoc (namespace_key ns) (name_separator ∷ []) rest)
        (strip_prefix-append_self (table_prefix ns) rest),
)

-- Two tables have one key only if their namespaces and their names are the same. No name holds a
-- separator, and no namespace is without levels.
pub table_key_inj :
    (a b : TableIdent)
    → IsTableIdent a
    → IsTableIdent b
    → table_key a ≡ table_key b
    → (a.namespace ≡ b.namespace) × (a.name ≡ b.name)
unfolding table_key
table_key_inj a b ha hb e =
    let (same, names) =
      keyed_inj name_separator (namespace_key a.namespace) (namespace_key b.namespace) a.name b.name
        (namespace_key-Lacks a.namespace ha.namespace)
        (namespace_key-Lacks b.namespace hb.namespace) e in
    (namespace_key_inj a.namespace b.namespace ha.namespace hb.namespace same, names)

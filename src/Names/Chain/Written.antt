-- ===== src/Names/Chain/Written.antt =====
-- src/names.rs: chains of views as a client writes them.
use rustberg.Common.{
  ap, ◌∙◌, ◌≡◌, ◌≢◌, refl, ℕ, Text, true, false, All, All-append, some, List, [], ◌∷◌, map,
  is_empty, split_at_char, join, arith,
}
use rustberg.Common.Utf8.{is_char, as_bytes, from_utf8-as_bytes}
use rustberg.Common.Percent.{escape}
use rustberg.Common.Escapes.{IsText, unescape-escaped, escaped-Lacks}
use rustberg.Common.Joins.{split-join}
use rustberg.Common.Splits.{Lacks}
use rustberg.Names.{Unicode}
use rustberg.Names.Accepted.{IsUnicode}
use rustberg.Names.Chain.{percent_decode, read_identifier, read_identifiers, parse_view_chain}
use rustberg.Names.Storage.{IsControlOther, IsName-IsPlain, All-map}
use rustberg.Names.Chain.Recorded.{IsView, read_identifier-view}
use rustberg.Redb.Keys.{part_separator}

-- A view as a client writes it: its segments between separators, percent-encoded.
unfoldable pub written : List Text → Text
unfolding join as_bytes escape
written segments = escape (as_bytes (join part_separator segments))

-- A view that can be written: characters that there are, and no separator within a segment.
pub record IsWritable (u : Unicode) (segments : List Text) : Type 0 where
  pub view : IsView u segments
  pub texts : All IsText segments

All-join : (P : ℕ → Type 0) (c : ℕ) (ss : List Text) → P c → All (All P) ss → All P (join c ss)
unfolding join
All-join P c [] p h = tt
All-join P c (s ∷ []) p (h, _) = h
All-join P c (s ∷ t ∷ ss) p (h, k) =
    All-append P s (c ∷ join c (t ∷ ss)) h (p, All-join P c (t ∷ ss) p k)

joined-IsText : (segments : List Text) → All IsText segments → IsText (join part_separator segments)
joined-IsText segments h = All-join (λ c. is_char c ≡ true) part_separator segments refl h

decode-written :
    (segments : List Text)
    → All IsText segments
    → percent_decode (written segments) ≡ some (join part_separator segments)
unfolding percent_decode written
decode-written segments h =
    let text = joined-IsText segments h in
    rw
      (
        unescape-escaped (join part_separator segments) text,
        from_utf8-as_bytes (join part_separator segments) text,
      )
      refl

-- The separators come apart where they were put.
split-view :
    (u : Unicode) (segments : List Text)
    → IsControlOther u
    → IsView u segments
    → split_at_char part_separator (join part_separator segments) ≡ segments
split-view u [] k v = absurd (omega (arith, v.two))
split-view u (s ∷ ss) k v =
    split-join part_separator s ss
      (All-map (s ∷ ss) (λ name w. (IsName-IsPlain u name k w).0) v.names)

read_identifiers-written :
    (u : Unicode) (views : List (List Text))
    → IsUnicode u
    → IsControlOther u
    → All (IsWritable u) views
    → read_identifiers u (map written views) ≡ some (map (join b'/') views)
unfolding read_identifiers
read_identifiers-written u [] h k w = refl
read_identifiers-written u (v ∷ vs) h k (writable, ws) =
    rw
      (
        read_identifiers,
        decode-written v writable.texts,
        split-view u v k writable.view,
        read_identifier-view u v h writable.view,
        read_identifiers-written u vs h k ws,
      )
      refl

comma_ne : ◌≢◌ {A = ℕ} b',' b'%'
comma_ne e = absurd (ground arith)

written-Lacks :
    (u : Unicode) (views : List (List Text))
    → All (IsWritable u) views
    → All (Lacks b',') (map written views)
unfolding written
written-Lacks u [] h = tt
written-Lacks u (v ∷ vs) (w, ws) = (
  escaped-Lacks b',' (join part_separator v) refl comma_ne (joined-IsText v w.texts),
  written-Lacks u vs ws,
)

-- A parameter that is read is not empty.
some_parameter :
    (u : Unicode) (raw : Text) (chain : List Text)
    → read_identifiers u (split_at_char b',' raw) ≡ some chain
    → is_empty raw ≡ false
unfolding read_identifiers read_identifier percent_decode
some_parameter u [] chain h = absurd (cc h)
some_parameter u (c ∷ s) chain h = refl

chained :
    (u : Unicode) (raw identifier : Text) (chain : List Text)
    → read_identifiers u (split_at_char b',' raw) ≡ some (identifier ∷ chain)
    → parse_view_chain u raw ≡ some (identifier ∷ chain)
unfolding parse_view_chain
chained u raw identifier chain h =
    rw (parse_view_chain, some_parameter u raw (identifier ∷ chain) h, h) refl

-- A chain of views as a client writes it, the identifiers percent-encoded and joined by commas, is
-- parsed to the same views in the same order, whatever commas or other characters their names have,
-- if the names are acceptable, the quick check of normal form is sound and control characters are
-- no part of a name.
pub parse_view_chain-written :
    (u : Unicode) (view : List Text) (views : List (List Text))
    → IsUnicode u
    → IsControlOther u
    → All (IsWritable u) (view ∷ views)
    → parse_view_chain u (join b',' (map written (view ∷ views)))
      ≡ some (map (join b'/') (view ∷ views))
parse_view_chain-written u view views h k w =
    chained u (join b',' (map written (view ∷ views))) (join b'/' view) (map (join b'/') views) (
      ap (read_identifiers u)
        (split-join b',' (written view) (map written views) (written-Lacks u (view ∷ views) w))
      ∙ read_identifiers-written u (view ∷ views) h k w)

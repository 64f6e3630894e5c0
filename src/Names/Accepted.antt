-- ===== src/Names/Accepted.antt =====
-- What the validators of src/names.rs accept, described without them.
use rustberg.Common.{
  ℕ, ◌+◌, ◌≤◌, Bool, Text, codes, text_eq_iff, trim, utf8_len, false, List, [], ◌∷◌, ◌≡◌, refl, ◌≢◌,
  ◌↔◌, arith, All, length, none, ok, ==_iff, >>=-eq-ok,
}
use rustberg.Names.{
  Unicode, yes, Context, namespace_segment, find, is_forbidden, is_denormal, validate_name,
  validate_segments, validate_namespace, validate_entries, validate_properties,
}

-- The documented meaning of the quick check: `yes` is never said of text that is not normal.
pub record IsUnicode (u : Unicode) : Type 0 where
  pub quick : (s : Text) → u.is_nfc_quick s ≡ yes → u.nfc s ≡ s

pub find-none_iff : (p : ℕ → Bool) (s : Text) → (find p s ≡ none) ↔ All (λ c. p c ≡ false) s
unfolding find
find-none_iff p [] = (λ _. tt, λ _. refl)
find-none_iff p (c ∷ s) = (
  λ h. (ground arith, (find-none_iff p s).0 (ground arith)),
  λ (out, rest). ground (arith, (find-none_iff p s).1 rest),
)

-- An acceptable name: from 1 to 255 characters, none of them in the group `Other` or a separator of
-- paths, in normal form C, not a directory's name, and without white space at its ends.
pub record IsName (u : Unicode) (name : Text) : Type 0 where
  pub some_text : name ≢ []
  pub short : length name ≤ 255
  pub visible : All (λ c. u.is_other c ≡ false) name
  pub normal : u.nfc name ≡ name
  pub whole : All (λ c. (c ≢ b'/') × (c ≢ b'\\')) name
  pub proper : (name ≢ codes ".") × (name ≢ codes "..")
  pub trimmed : trim name ≡ name

denormal_iff : (u : Unicode) (s : Text) → IsUnicode u → (is_denormal u s ≡ false) ↔ (u.nfc s ≡ s)
denormal_iff u s h = (
  λ e. ground (arith, h.quick s, text_eq_iff (u.nfc s) s),
  λ e. ground (arith, text_eq_iff (u.nfc s) s),
)

whole_iff : (s : Text) → (find is_forbidden s ≡ none) ↔ All (λ c. (c ≢ b'/') × (c ≢ b'\\')) s
unfolding find
whole_iff [] = (λ _. tt, λ _. refl)
whole_iff (c ∷ s) = (
  λ h. ((λ e. ground arith, λ e. ground arith), (whole_iff s).0 (ground arith)),
  λ ((a, b), rest). ground (arith, (whole_iff s).1 rest, ==_iff c b'/', ==_iff c b'\\'),
)

-- `validate_name` accepts exactly the acceptable names, whatever they are the names of, if the quick
-- check of normal form says yes of normal text only.
pub validate_name_iff :
    (u : Unicode) (name : Text) (context : Context)
    → IsUnicode u
    → (validate_name u name context ≡ ok tt) ↔ IsName u name
unfolding validate_name
validate_name_iff u name context h = (
  λ e. record {
    some_text = λ n. ground arith;
    short = ground arith;
    visible = (find-none_iff u.is_other name).0 (ground arith);
    normal = (denormal_iff u name h).0 (ground arith);
    whole = (whole_iff name).0 (ground arith);
    proper = (
      λ n. ground (arith, text_eq_iff name (codes ".")),
      λ n. ground (arith, text_eq_iff name (codes "..")),
    );
    trimmed = ground (arith, text_eq_iff (trim name) name);
  },
  λ w. ground (
    arith,
    (find-none_iff u.is_other name).1 w.visible,
    (denormal_iff u name h).1 w.normal,
    (whole_iff name).1 w.whole,
    text_eq_iff name (codes "."),
    text_eq_iff name (codes ".."),
    w.proper.0,
    w.proper.1,
    w.some_text,
    w.short,
    w.trimmed,
    text_eq_iff (trim name) name,
  ),
)

segments_iff :
    (u : Unicode) (i : ℕ) (ns : List Text)
    → IsUnicode u
    → (validate_segments u i ns ≡ ok tt) ↔ All (IsName u) ns
unfolding validate_segments
segments_iff u i [] h = (λ _. tt, λ _. refl)
segments_iff u i (n ∷ ns) h = (
  λ e.
      let (done, first, rest) =
        >>=-eq-ok (validate_name u n (namespace_segment (i + 1)))
          (λ _. validate_segments u (i + 1) ns) e in
      (
        (validate_name_iff u n (namespace_segment (i + 1)) h).0 first,
        (segments_iff u (i + 1) ns h).0 rest,
      ),
  λ (n_ok, ns_ok).
      rw ((validate_name_iff u n (namespace_segment (i + 1)) h).1 n_ok)
        ((segments_iff u (i + 1) ns h).1 ns_ok),
)

-- `validate_namespace` accepts exactly the lists of 1 to 10 acceptable names, if the quick check of
-- normal form says yes of normal text only.
pub validate_namespace_iff :
    (u : Unicode) (ns : List Text)
    → IsUnicode u
    → (validate_namespace u ns ≡ ok tt) ↔ ((ns ≢ []) × (length ns ≤ 10) × All (IsName u) ns)
unfolding validate_namespace
validate_namespace_iff u [] h = (λ e. absurd (ground arith), λ (ne, _, _). absurd (ne refl))
validate_namespace_iff u (n ∷ ns) h = (
  λ e. (λ z. absurd (ground arith), ground arith, (segments_iff u 0 (n ∷ ns) h).0 (ground arith)),
  λ (_, short, names). ground (arith, (segments_iff u 0 (n ∷ ns) h).1 names),
)

entries_iff :
    (es : List (Text × Text))
    → (validate_entries es ≡ ok tt) ↔ All (λ e. (utf8_len e.0 ≤ 255) × (utf8_len e.1 ≤ 4096)) es
unfolding validate_entries
entries_iff [] = (λ _. tt, λ _. refl)
entries_iff ((k, v) ∷ es) = (
  λ e. ((ground arith, ground arith), (entries_iff es).0 (ground arith)),
  λ ((a, b), rest). ground (arith, (entries_iff es).1 rest),
)

-- `validate_properties` accepts exactly the maps of at most 100 entries whose keys are at most 255
-- bytes long and whose values are at most 4096, in whatever order the entries come.
pub validate_properties_iff :
    (properties : List (Text × Text))
    → (validate_properties properties ≡ ok tt) ↔ (
        (length properties ≤ 100)
        × All (λ e. (utf8_len e.0 ≤ 255) × (utf8_len e.1 ≤ 4096)) properties)
unfolding validate_properties
validate_properties_iff properties = (
  λ e. (ground arith, (entries_iff properties).0 (ground arith)),
  λ (few, short). ground (arith, (entries_iff properties).1 short),
)

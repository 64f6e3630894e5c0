-- ===== src/Sign/Body/Written.antt =====
-- src/catalog/v1/sign.rs: what `delete_keys` reads from the body of a `DeleteObjects` that a client
-- writes.
use mathlib.Core.Path.{subst}
use mathlib.Core.List.{append_assoc, append-nil}
use rustberg.Common.{
  split_once, ap, sym, ℕ, zero, suc, ◌<◌, ◌≡◌, Bool, Option, none, refl, Text, codes, true, false,
  some, List, [], ◌∷◌, ◌++◌, length, ok, ◌>>=◌, arith, ==_iff,
}
use rustberg.Common.Splits.{Lacks}
use rustberg.Sign.Body.Ends.{turn_shorter}
use rustberg.Sign.Body.{Scan, turn, scan, finish, start, delete_keys}
use rustberg.Sign.Body.Layout.{
  Layout, Object, escape_text, declaration_of, root_of, version_of, quiet_of, object_of, objects_of,
  body_of, keys_of, IsGap, gap-Lacks, require_blank_gap,
}
use rustberg.Sign.Body.Turns.{
  inside, in_object, in_key, in_version, in_quiet, closed, turn_declaration, turn_root,
  turn_namespaced, turn_object, turn_open_key, turn_open_version, turn_open_quiet, turn_end,
  turn_close, turn_key, turn_version, turn_quiet,
}

-- From a place in the body, the scanner comes to its end with a result if it has a turn for each
-- character and one more.
abbrev Scans : Text → Scan → Scan → Type 0
Scans rest st st' = (fuel : ℕ) → length rest < fuel → scan fuel rest st ≡ ok (some st')

Scans-turn :
    (rest left : Text) (st mid st' : Scan)
    → turn rest st ≡ ok (some (left, mid))
    → Scans left mid st'
    → Scans rest st st'
unfolding scan
Scans-turn rest left st mid st' e h zero lt = absurd (omega arith)
Scans-turn [] left st mid st' e h (suc fuel) lt =
    absurd (omega (arith, turn_shorter [] left st mid e))
Scans-turn (c ∷ s) left st mid st' e h (suc fuel) lt =
    rw (scan, e) (h fuel (omega (arith, lt, turn_shorter (c ∷ s) left st mid e)))

split_once-none : (gap : Text) → Lacks b'<' gap → split_once (codes "<") gap ≡ none
unfolding split_once
split_once-none [] h = refl
split_once-none (c ∷ gap) (ne, h) = ground (arith, ==_iff c b'<', split_once-none gap h)

-- White space after the root element.
Scans-gap : (gap : Text) (st : Scan) → IsGap gap → Scans gap st st
unfolding scan turn
Scans-gap gap st h zero lt = absurd (omega arith)
Scans-gap [] st h (suc fuel) lt = refl
Scans-gap (c ∷ gap) st h (suc fuel) lt =
    rw
      (scan, turn, split_once-none (c ∷ gap) (gap-Lacks (c ∷ gap) h), require_blank_gap (c ∷ gap) h)
      refl

module _ (layout : Layout) (white : IsGap layout.gap) where
  Scans-version :
      (version : Option Text) (keys : List Text) (rest : Text) (st : Scan)
      → Scans rest (in_object keys) st
      → Scans (version_of layout version rest) (in_object keys) st
  unfolding version_of
  Scans-version none keys rest st h = h
  Scans-version (some v) keys rest st h =
      let text = escape_text layout.as_entity v ++ (codes "</VersionId>" ++ rest) in
      Scans-turn (layout.gap ++ (codes "<VersionId>" ++ text)) text (in_object keys)
        (in_version keys) st (turn_open_version layout.gap white keys text)
        (Scans-turn text rest (in_version keys) (in_object keys) st
          (turn_version layout.as_entity v rest keys) h)

  Scans-object :
      (object : Object) (keys : List Text) (rest : Text) (st : Scan)
      → Scans rest (inside (keys ++ object.key ∷ [])) st
      → Scans (object_of layout object rest) (inside keys) st
  unfolding object_of
  Scans-object object keys rest st h =
      let keys' = keys ++ object.key ∷ [] in
      let last = layout.gap ++ (codes "</Object>" ++ rest) in
      let after = version_of layout object.version_id last in
      let text = escape_text layout.as_entity object.key ++ (codes "</Key>" ++ after) in
      let key = layout.gap ++ (codes "<Key>" ++ text) in
      Scans-turn (layout.gap ++ (codes "<Object>" ++ key)) key (inside keys) (in_object keys) st
        (turn_object layout.gap white keys key)
        (Scans-turn key text (in_object keys) (in_key keys) st
          (turn_open_key layout.gap white keys text)
          (Scans-turn text after (in_key keys) (in_object keys') st
            (turn_key layout.as_entity object.key after keys)
            (Scans-version object.version_id keys' last st (
              Scans-turn last rest (in_object keys') (inside keys') st
                (turn_end layout.gap white keys' rest) h))))

  Scans-objects :
      (objects : List Object) (keys : List Text) (rest : Text) (st : Scan)
      → Scans rest (inside (keys ++ keys_of objects)) st
      → Scans (objects_of layout objects rest) (inside keys) st
  unfolding objects_of
  Scans-objects [] keys rest st h =
      subst (λ found. Scans rest (inside found) st) (append-nil keys) h
  Scans-objects (object ∷ objects) keys rest st h =
      Scans-object object keys (objects_of layout objects rest) st (
        Scans-objects objects (keys ++ object.key ∷ []) rest st (
          subst (λ found. Scans rest (inside found) st)
            (sym (append_assoc keys (object.key ∷ []) (keys_of objects))) h))

  Scans-quiet :
      (quiet : Bool) (keys : List Text) (rest : Text) (st : Scan)
      → Scans rest (inside keys) st
      → Scans (quiet_of layout quiet rest) (inside keys) st
  unfolding quiet_of
  Scans-quiet false keys rest st h = h
  Scans-quiet true keys rest st h =
      let text = codes "true" ++ (codes "</Quiet>" ++ rest) in
      Scans-turn (layout.gap ++ (codes "<Quiet>" ++ text)) text (inside keys) (in_quiet keys) st
        (turn_open_quiet layout.gap white keys text)
        (Scans-turn text rest (in_quiet keys) (inside keys) st (turn_quiet rest keys) h)

  Scans-root :
      (namespaced : Bool) (gap rest : Text) (st : Scan)
      → IsGap gap
      → Scans rest (inside []) st
      → Scans (gap ++ root_of namespaced rest) start st
  unfolding root_of
  Scans-root false gap rest st h k =
      Scans-turn (gap ++ (codes "<Delete>" ++ rest)) rest start (inside []) st
        (turn_root gap h [] rest) k
  Scans-root true gap rest st h k =
      Scans-turn
        (gap ++ (codes "<Delete xmlns=\"http://s3.amazonaws.com/doc/2006-03-01/\">" ++ rest)) rest
        start (inside []) st (turn_namespaced gap h [] rest) k

  Scans-declaration :
      (declared namespaced : Bool) (rest : Text) (st : Scan)
      → Scans rest (inside []) st
      → Scans (declaration_of declared layout.gap (root_of namespaced rest)) start st
  unfolding declaration_of
  Scans-declaration false namespaced rest st h = Scans-root namespaced [] rest st tt h
  Scans-declaration true namespaced rest st h =
      let after = layout.gap ++ root_of namespaced rest in
      Scans-turn (codes "<?xml version=\"1.0\" encoding=\"UTF-8\"?>" ++ after) after start start st
        (turn_declaration after) (Scans-root namespaced layout.gap rest st white h)

  Scans-body_of :
      (objects : List Object) (quiet : Bool)
      → Scans (body_of layout objects quiet) start (closed (keys_of objects))
  unfolding body_of
  Scans-body_of objects quiet =
      let keys = keys_of objects in
      let last = layout.gap ++ (codes "</Delete>" ++ layout.gap) in
      let flag = quiet_of layout quiet last in
      Scans-declaration layout.declared layout.namespaced (objects_of layout objects flag)
        (closed keys)
        (Scans-objects objects [] flag (closed keys) (
          Scans-quiet quiet keys last (closed keys) (
            Scans-turn last layout.gap (inside keys) (closed keys) (closed keys)
              (turn_close layout.gap white keys layout.gap)
              (Scans-gap layout.gap (closed keys) white))))

-- The keys of a `DeleteObjects`, one at least, are read from its body as they are and in order,
-- whatever characters they have: with or without the XML declaration, the namespace on the root that
-- the SDKs send, white space between the elements, versions, and `Quiet` after the objects, and
-- whichever of `>`, `"` and `'` are written as entities.
pub delete_keys-body_of :
    (layout : Layout) (object : Object) (objects : List Object) (quiet : Bool)
    → IsGap layout.gap
    → delete_keys (body_of layout (object ∷ objects) quiet)
      ≡ ok (some (object.key ∷ keys_of objects))
unfolding delete_keys finish
delete_keys-body_of layout object objects quiet white =
    let body = body_of layout (object ∷ objects) quiet in
    ap (λ r. r >>= finish)
      (Scans-body_of layout white (object ∷ objects) quiet (suc (length body)) (omega arith))

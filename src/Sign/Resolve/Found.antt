-- ===== src/Sign/Resolve/Found.antt =====
-- src/catalog/v1/sign.rs: what `delete_keys` has found when it names keys.
use rustberg.Common.{
  ap, sym, ◌∙◌, ◌≡◌, ◌≢◌, Text, not, Option-cases, inl, inr, Option, some, none, List, [], length,
  suc, Result, ok, err, is_empty, >>=-eq-ok, arith,
}
use rustberg.Sign.{BodyFault, no_objects, unclosed_element}
use rustberg.Sign.Body
use rustberg.Sign.Body.{Scan, finish, scan, start, delete_keys}
use rustberg.Sign.Resolve.{body_keys}

pub body_keys-ok :
    (r : Result (Option (List Text)) BodyFault) (keys : List Text)
    → body_keys r ≡ ok keys
    → r ≡ ok (some keys)
unfolding body_keys
body_keys-ok (err e) keys h = cc
body_keys-ok (ok none) keys h = cc
body_keys-ok (ok (some found)) keys h = cc

finish_ne : (st : Scan) (keys : List Text) → finish (some st) ≡ ok (some keys) → keys ≢ []
unfolding finish
finish_ne st keys h e =
    let (_, _, h1) = >>=-eq-ok (Body.refuse (not (is_empty st.open_names)) unclosed_element) _ h in
    let (_, named, h2) = >>=-eq-ok (Body.refuse (is_empty st.keys) no_objects) _ h1 in
    let same : st.keys ≡ [] = cc in absurd (ground arith)

some_ne :
    {keys : List Text} → ◌≢◌ {A = Result (Option (List Text)) BodyFault} (ok none) (ok (some keys))
some_ne e = cc

-- A body that is read names a key.
pub delete_keys_ne :
    (body : Text) (keys : List Text) → delete_keys body ≡ ok (some keys) → keys ≢ []
unfolding delete_keys finish
delete_keys_ne body keys h =
    let (st, _, h1) = >>=-eq-ok (scan (suc (length body)) body start) finish h in
    elim (Option-cases st) [
      | inl e ↦ absurd (some_ne (sym (ap finish e) ∙ h1))
      | inr (st', e) ↦ finish_ne st' keys (sym (ap finish e) ∙ h1)
    ]

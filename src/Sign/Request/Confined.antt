-- ===== src/Sign/Request/Confined.antt =====
-- src/catalog/v1/sign.rs: what `sign_request` has checked when it returns a signature.
use rustberg.Common.{
  ap, sym, ◌∙◌, ◌≡◌, refl, Text, Bool, true, false, not, All, Option, some, none, List, [], ◌∷◌,
  Result, ok, err, ok_or, if◌then◌else◌, trim, >>=-eq-ok,
}
use rustberg.Location.{is_prefix_within}
use rustberg.Location.Within.{InRoot}
use rustberg.Sign.{
  RemoteSignRequest, SignedOp, read, write, Addressed, Url, AppError, not_offered, bad_provider,
  large_body, restricted, no_write, foreign_storage, bad_uri,
}
use rustberg.Sign.Urls.{split_bucket_and_key, copy_source_location}
use rustberg.Sign.Resolve.{screen, resolve}
use rustberg.Sign.Resolve.Outcome.{IsResolved, resolve_kind-IsResolved}
use rustberg.Sign.Resolve.Screened.{IsScreened, screen-IsScreened}
use rustberg.Sign.Request.{
  Authorized, SignedRequest, Event, Server, Response, to_ascii_uppercase, confine, event_of,
  may_write, is_ours, input_of, signed_or, sign_resolved, is_other_provider, is_large, sign_request,
  SigningError,
}
use rustberg.Sign.Request.Audit.{
  after_lift, after_refuse, after_recorded, after_signature, confine-InRoot, confine-prefixes,
}

-- The method that is resolved and signed.
abbrev pub method_of : RemoteSignRequest → Text
unfolding trim
method_of payload = to_ascii_uppercase (trim payload.method)

refuse_if :
    (b : Bool) (e : AppError)
    → ◌≡◌ {A = Result (Unit {0}) AppError} (if b then ok tt else err e) (ok tt)
    → b ≡ true
refuse_if true e h = refl
refuse_if false e h = cc

may_write-write :
    (server : Server) (operation : SignedOp) (authorized : Authorized)
    → may_write server operation authorized ≡ ok true
    → operation ≡ write
    → authorized.also_permits_update ≡ ok true
unfolding may_write
may_write-write server read authorized h e = absurd (cc e)
may_write-write server write authorized h e = h

-- What `sign_resolved` has checked: the last steps of a grant.
pub record IsSigned (server : Server) (authorized : Authorized) (payload : RemoteSignRequest)
    (addressed : Addressed) (operation : SignedOp) (at : Text) (events : List Event)
    (response : Response) : Type 0 where
  pub unrestricted : authorized.unrestricted ≡ true
  pub writable : operation ≡ write → authorized.also_permits_update ≡ ok true
  pub table : server.table_location ≡ ok at
  pub ours : is_ours server at ≡ true
  pub inside : All (InRoot at) addressed.locations
  pub listed :
      addressed.prefixes ≡ true
      → All (λ prefix. is_prefix_within at prefix ≡ true) addressed.locations
  pub signed : SignedRequest
  pub signature : server.sign (input_of server (method_of payload) payload addressed) ≡ ok signed
  pub answer : (response.uri ≡ signed.uri) × (response.headers ≡ signed.headers)
  pub one_record : events ≡ event_of operation addressed true ∷ []
  pub accepted : operation ≡ write → server.accepts (event_of operation addressed true) ≡ true

signed_or-ok :
    (server : Server) (r : Result SignedRequest SigningError) (signed : SignedRequest)
    → signed_or server r ≡ ok signed
    → r ≡ ok signed
unfolding signed_or
signed_or-ok server (ok s) signed h = cc
signed_or-ok server (err e) signed h = cc

sign_resolved-IsSigned :
    (server : Server) (payload : RemoteSignRequest) (authorized : Authorized)
    (addressed : Addressed) (operation : SignedOp) (events : List Event) (response : Response)
    → sign_resolved server (method_of payload) payload authorized (addressed, operation)
      ≡ (events, ok response)
    → (at : Text) × IsSigned server authorized payload addressed operation at events response
unfolding sign_resolved
sign_resolved-IsSigned server payload authorized addressed operation events response h =
    let (free, h1) =
      after_recorded server operation addressed
        (if authorized.unrestricted then ok tt else err restricted) _ events response h in
    let (permitted, allowed, h2) =
      after_lift (may_write server operation authorized) _ events response h1 in
    let (writable, h3) =
      after_recorded server operation addressed (if permitted then ok tt else err no_write) _ events
        response h2 in
    let (at, table, h4) = after_lift server.table_location _ events response h3 in
    let (ours, h5) =
      after_recorded server operation addressed
        (if is_ours server at then ok tt else err foreign_storage) _ events response h4 in
    let (inside, h6) =
      after_recorded server operation addressed (confine addressed at) _ events response h5 in
    let input = input_of server (method_of payload) payload addressed in
    let (signed, signature, h7) =
      after_lift (signed_or server (server.sign input)) _ events response h6 in
    let (answer, one, accepted) = after_signature server operation addressed _ response events h7 in
    (
      at,
      record {
        unrestricted = refuse_if authorized.unrestricted restricted free;
        writable =
            may_write-write server operation authorized
              (allowed ∙ ap (λ b. ok b) (refuse_if permitted no_write writable));
        table = table;
        ours = refuse_if (is_ours server at) foreign_storage ours;
        inside = confine-InRoot addressed at inside;
        listed = confine-prefixes addressed at inside;
        signed = signed;
        signature = signed_or-ok server (server.sign input) signed signature;
        answer = (sym (ap (λ r. r.uri) answer), sym (ap (λ r. r.headers) answer));
        one_record = one;
        accepted = accepted;
      },
    )

-- What stands behind an answer that carries a signature: the URL that was parsed and screened, what
-- it was resolved to, and the steps of `sign_resolved`.
pub record IsGranted (server : Server) (parse : Text → Option Url) (payload : RemoteSignRequest)
    (events : List Event) (response : Response) : Type 0 where
  pub url : Url
  pub bucket : Text
  pub key : Text
  pub source : Option Text
  pub addressed : Addressed
  pub operation : SignedOp
  pub authorized : Authorized
  pub at : Text
  pub offered : server.signing.enabled ≡ true
  pub permitted : server.authorize_read ≡ ok authorized
  pub parsed : parse payload.uri ≡ some url
  pub placed : split_bucket_and_key url server.signing ≡ ok (bucket, key)
  pub copied : copy_source_location payload.headers ≡ ok source
  pub screened : IsScreened url payload
  pub resolved :
      IsResolved (method_of payload) url payload.body (bucket, key) source addressed operation
  pub signed : IsSigned server authorized payload addressed operation at events response

ok_or-some : {A : Type 0} (e : AppError) (o : Option A) (a : A) → ok_or e o ≡ ok a → o ≡ some a
ok_or-some e none a h = cc
ok_or-some e (some b) a h = cc

not-false : (b : Bool) → not b ≡ false → b ≡ true
not-false true h = refl
not-false false h = cc

-- When `sign_request` answers with a signature, signing is offered, the caller may read the table
-- and no obligation restricts it; the URI signed is the one that was parsed, and its query, its
-- headers, its scheme and its fragment passed every test; the operation counts as a read only for
-- GET or HEAD without a source to copy, and for a write the caller may update the table. The
-- locations addressed are, for a copy, the object of the URL and the one that the header names; for
-- a `DeleteObjects`, every key of the body, one at least, in the bucket of the URL; for a listing,
-- the prefix of the query; else the object of the URL. Each lies in the table's location, which the
-- server manages, and the prefix of a listing has passed the check for prefixes. There is one
-- record, of this grant, which the auditor has accepted if it is a write.
pub sign_request_sound :
    (server : Server) (parse : Text → Option Url) (payload : RemoteSignRequest)
    (events : List Event) (response : Response)
    → sign_request server parse payload ≡ (events, ok response)
    → IsGranted server parse payload events response
unfolding sign_request resolve
sign_request_sound server parse payload events response h =
    let (on, h1) = after_refuse (not server.signing.enabled) not_offered _ events response h in
    let (_, h2) =
      after_refuse (is_other_provider server payload.provider) bad_provider _ events response h1 in
    let (_, h3) = after_refuse (is_large server payload.body) large_body _ events response h2 in
    let (authorized, permitted, h4) = after_lift server.authorize_read _ events response h3 in
    let ((addressed, operation), resolved, h5) =
      after_lift (resolve parse (method_of payload) payload server.signing) _ events response h4 in
    let (url, found, g1) = >>=-eq-ok (ok_or bad_uri (parse payload.uri)) _ resolved in
    let (_, screened, g2) = >>=-eq-ok (screen url payload) _ g1 in
    let (place, placed, g3) = >>=-eq-ok (split_bucket_and_key url server.signing) _ g2 in
    let (source, copied, g4) = >>=-eq-ok (copy_source_location payload.headers) _ g3 in
    let (at, signed) =
      sign_resolved-IsSigned server payload authorized addressed operation events response h5 in
    record {
      url = url;
      bucket = place.0;
      key = place.1;
      source = source;
      addressed = addressed;
      operation = operation;
      authorized = authorized;
      at = at;
      offered = not-false server.signing.enabled on;
      permitted = permitted;
      parsed = ok_or-some bad_uri (parse payload.uri) url found;
      placed = placed;
      copied = copied;
      screened = screen-IsScreened url payload screened;
      resolved =
          resolve_kind-IsResolved (method_of payload) url payload.body place source addressed
            operation g4;
      signed = signed;
    }

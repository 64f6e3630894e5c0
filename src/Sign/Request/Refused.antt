-- ===== src/Sign/Request/Refused.antt =====
-- src/catalog/v1/sign.rs: what a refused request leaves in the audit trail.
use mathlib.Core.Path.{subst}
use rustberg.Common.{
  ◌≡◌, ◌⊎◌, refl, Text, Bool, true, false, not, Bool-cases, inl, inr, All, All-append, Option, List,
  [], Result, ok, err, if◌then◌else◌, trim,
}
use rustberg.Sign.{
  RemoteSignRequest, SignedOp, read, write, Addressed, Url, AppError, unavailable, not_offered,
  bad_provider, large_body, restricted, no_write, foreign_storage,
}
use rustberg.Sign.Resolve.{resolve}
use rustberg.Sign.Request.{
  Authorized, Event, Server, Audited, ◌>>=◌, lift, refuse, event_of, record_signature,
  refuse_recorded, after_records, sign_resolved, sign_request, confine, may_write, is_ours,
  signed_or, input_of, cache_control_of, is_other_provider, is_large, to_ascii_uppercase,
}

-- Records of refusals only.
abbrev pub AllRefused : List Event → Type 0
AllRefused = All (λ event. event.allowed ≡ false)

-- An action that fails leaves no record of a signature, or it fails for a record that is lost.
IsHonest : {A : Type 0} → Audited A → Type 0
IsHonest (events, ok _) = Unit
IsHonest (events, err e) = AllRefused events ⊎ (e ≡ unavailable)

after :
    {B : Type 0} (before : List Event) (m : Audited B)
    → AllRefused before
    → IsHonest m
    → IsHonest (after_records before m)
unfolding IsHonest
after before (events, ok b) q h = tt
after before (events, err e) q (inl h) =
    inl (All-append (λ event. event.allowed ≡ false) before events q h)
after before (events, err e) q (inr h) = inr h

lift-IsHonest :
    {A B : Type 0} (r : Result A AppError) (next : A → Audited B)
    → ((a : A) → IsHonest (next a))
    → IsHonest (lift r >>= next)
unfolding IsHonest ◌>>=◌
lift-IsHonest (ok a) next h = after [] (next a) tt (h a)
lift-IsHonest (err e) next h = inl tt

refuse-IsHonest :
    {B : Type 0} (b : Bool) (e : AppError) (next : Unit {0} → Audited B)
    → ((u : Unit {0}) → IsHonest (next u))
    → IsHonest (refuse b e >>= next)
unfolding IsHonest ◌>>=◌
refuse-IsHonest true e next h = inl tt
refuse-IsHonest false e next h = after [] (next tt) tt (h tt)

recorded-IsHonest :
    {B : Type 0} (server : Server) (operation : SignedOp) (addressed : Addressed)
    (r : Result (Unit {0}) AppError) (next : Unit {0} → Audited B)
    → ((u : Unit {0}) → IsHonest (next u))
    → IsHonest (refuse_recorded server operation addressed r >>= next)
unfolding IsHonest refuse_recorded record_signature event_of ◌>>=◌
recorded-IsHonest server operation addressed (ok tt) next h = after [] (next tt) tt (h tt)
recorded-IsHonest server read addressed (err e) next h = inl (refl, tt)
recorded-IsHonest server write addressed (err e) next h = inl (refl, tt)

record_signature-IsHonest :
    {A : Type 0} (server : Server) (operation : SignedOp) (addressed : Addressed) (a : A)
    → IsHonest (record_signature server operation addressed true >>= λ _. lift (ok a))
unfolding IsHonest record_signature ◌>>=◌
record_signature-IsHonest server read addressed a = tt
record_signature-IsHonest server write addressed a =
    elim (Bool-cases (server.accepts (event_of write addressed true))) [
      | inl accepted ↦ rw (record_signature, accepted) tt
      | inr lost ↦ rw (record_signature, lost) (inr refl)
    ]

sign_resolved-IsHonest :
    (server : Server) (method : Text) (payload : RemoteSignRequest) (authorized : Authorized)
    (resolved : Addressed × SignedOp)
    → IsHonest (sign_resolved server method payload authorized resolved)
unfolding sign_resolved
sign_resolved-IsHonest server method payload authorized (addressed, operation) =
    let withheld = if authorized.unrestricted then ok tt else err restricted in
    recorded-IsHonest server operation addressed withheld _ λ _.
      lift-IsHonest (may_write server operation authorized) _ λ permitted.
        recorded-IsHonest server operation addressed (if permitted then ok tt else err no_write) _
          λ _. lift-IsHonest server.table_location _ λ at.
            recorded-IsHonest server operation addressed
              (if is_ours server at then ok tt else err foreign_storage) _
              λ _. recorded-IsHonest server operation addressed (confine addressed at) _ λ _.
                lift-IsHonest
                  (signed_or server (server.sign (input_of server method payload addressed))) _
                  λ signed. record_signature-IsHonest server operation addressed (record {
                    uri = signed.uri;
                    headers = signed.headers;
                    cache_control = cache_control_of server operation;
                  })

sign_request-IsHonest :
    (server : Server) (parse : Text → Option Url) (payload : RemoteSignRequest)
    → IsHonest (sign_request server parse payload)
unfolding sign_request
sign_request-IsHonest server parse payload =
    let method = to_ascii_uppercase (trim payload.method) in
    refuse-IsHonest (not server.signing.enabled) not_offered _ λ _.
      refuse-IsHonest (is_other_provider server payload.provider) bad_provider _ λ _.
        refuse-IsHonest (is_large server payload.body) large_body _ λ _.
          lift-IsHonest server.authorize_read _ λ authorized.
            lift-IsHonest (resolve parse method payload server.signing) _
              λ resolved. sign_resolved-IsHonest server method payload authorized resolved

-- A request that is refused leaves no record of a signature, unless it is refused because the
-- auditor has not accepted that record.
pub sign_request_refused :
    (server : Server) (parse : Text → Option Url) (payload : RemoteSignRequest)
    (events : List Event) (e : AppError)
    → sign_request server parse payload ≡ (events, err e)
    → AllRefused events ⊎ (e ≡ unavailable)
unfolding IsHonest
sign_request_refused server parse payload events e h =
    subst IsHonest h (sign_request-IsHonest server parse payload)

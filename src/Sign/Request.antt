-- ===== src/Sign/Request.antt =====
-- src/catalog/v1/sign.rs: `sign_request`, from the switch that offers it to the answer. What it asks
-- the rest of the server is in the record `Server`. An action returns the records it leaves, also
-- when it fails.
pub mod Audit
pub mod Confined
pub mod Refused
use rustberg.Common.{
  ℕ, zero, suc, ◌-◌, Text, codes, text_eq, Bool, true, false, not, ◌&&◌, ◌||◌, Option, none, some,
  List, [], ◌∷◌, ◌++◌, map, length, ltb, leb, ◌+◌, Result, ok, err, if◌then◌else◌, is_empty, trim,
  utf8_len,
}
use rustberg.Location.{is_within, is_prefix_within, is_vendable}
use rustberg.Sign.{
  RemoteSignRequest, SignedOp, read, write, Addressed, SigningEndpointConfig, Url, Headers,
  AppError, not_offered, not_configured, bad_provider, large_body, unsignable, restricted, no_write,
  foreign_storage, unavailable, signer_failed, outside, max_body, eq_ignore_ascii_case,
}
use rustberg.Sign.Resolve.{resolve}

-- `SignRequest`, `SignedRequest` and `SigningError` of src/credentials/signer.rs
pub record SignInput : Type 0 where
  pub method : Text
  pub uri : Text
  pub region : Text
  pub headers : Headers
  pub body : Option Text

pub record SignedRequest : Type 0 where
  pub uri : Text
  pub headers : Headers

pub data SigningError : Type 0 where
  no_signer : SigningError
  unsignable_request failed : Text → SigningError

-- What the endpoint reads of a decision, for one caller and one table: whether it has obligations,
-- and the answer of `also_permits` for `Update`.
pub record Authorized : Type 0 where
  pub unrestricted : Bool
  pub also_permits_update : Result Bool AppError

-- A record of the audit trail: the locations that are named, and how many there are.
pub record Event : Type 0 where
  pub operation : SignedOp
  pub locations : List Text
  pub location_count : ℕ
  pub allowed : Bool

pub record Server : Type 0 where
  pub signing : SigningEndpointConfig
  pub authorize_read : Result Authorized AppError
  pub table_location : Result Text AppError
  pub manages_storage : Text → Bool
  pub allowed_prefixes : List Text
  pub sign : SignInput → Result SignedRequest SigningError
  pub accepts : Event → Bool

pub record Response : Type 0 where
  pub uri : Text
  pub headers : Headers
  pub cache_control : Text

-- An action that leaves records.
abbrev pub Audited {ℓ} : Type ℓ → Type ℓ
Audited A = List Event × Result A AppError

abbrev pub after_records {ℓ} : {A : Type ℓ} → List Event → Audited A → Audited A
after_records before (events, r) = (before ++ events, r)

infixl 5 ◌>>=◌
unfoldable pub ◌>>=◌ {ℓ κ} : {A : Type ℓ} {B : Type κ} → Audited A → (A → Audited B) → Audited B
(events, err e) >>= next = (events, err e)
(events, ok a) >>= next = after_records events (next a)

abbrev pub lift {ℓ} : {A : Type ℓ} → Result A AppError → Audited A
lift r = ([], r)

abbrev pub refuse : Bool → AppError → Audited (Unit {0})
refuse true e = lift (err e)
refuse false e = lift (ok tt)

abbrev ascii_upper : ℕ → ℕ
ascii_upper c = if leb b'a' c && leb c b'z' then c - 32 else c

abbrev pub to_ascii_uppercase : Text → Text
to_ascii_uppercase = map ascii_upper

unfoldable pub pick_region : Text → SigningEndpointConfig → Text
unfolding trim
pick_region requested config =
    if not (is_empty (trim requested))
    then requested
    else elim config.fallback_region [ some region ↦ region | none ↦ codes "us-east-1" ]

abbrev pub is_write : SignedOp → Bool
is_write read = false
is_write write = true

-- `addressed.locations[..NAMED]`
abbrev take : ℕ → List Text → List Text
take n [] = []
take zero (s ∷ ss) = []
take (suc n) (s ∷ ss) = s ∷ take n ss

unfoldable pub event_of : SignedOp → Addressed → Bool → Event
event_of operation addressed allowed = record {
  operation = operation;
  locations = take 8 addressed.locations;
  location_count = length addressed.locations;
  allowed = allowed;
}

unfoldable pub contains : Addressed → Text → Text → Bool
unfolding is_within is_prefix_within
contains addressed table_location location =
    if addressed.prefixes
    then is_prefix_within table_location location
    else is_within table_location location

confine_all : Addressed → Text → List Text → Result (Unit {0}) AppError
unfolding contains
confine_all addressed table_location [] = ok tt
confine_all addressed table_location (location ∷ locations) =
    if not (contains addressed table_location location)
    then err (outside location table_location)
    else confine_all addressed table_location locations

unfoldable pub confine : Addressed → Text → Result (Unit {0}) AppError
unfolding confine_all
confine addressed table_location = confine_all addressed table_location addressed.locations

module _ (server : Server) where
  unfoldable pub record_signature : SignedOp → Addressed → Bool → Audited (Unit {0})
  unfolding event_of
  record_signature operation addressed allowed =
      let event = event_of operation addressed allowed in
      if is_write operation && allowed && not (server.accepts event)
      then (event ∷ [], err unavailable)
      else (event ∷ [], ok tt)

  -- `record_signature(…, false)?; return Err(refused)`
  unfoldable pub refuse_recorded :
      SignedOp → Addressed → Result (Unit {0}) AppError → Audited (Unit {0})
  unfolding record_signature ◌>>=◌
  refuse_recorded operation addressed (ok tt) = lift (ok tt)
  refuse_recorded operation addressed (err refused) = do
    recorded ← record_signature operation addressed false
    lift (err refused)

  -- `&&` with what `also_permits` answers, asked of a write only.
  unfoldable pub may_write : SignedOp → Authorized → Result Bool AppError
  may_write read authorized = ok true
  may_write write authorized = authorized.also_permits_update

  unfoldable pub is_ours : Text → Bool
  unfolding is_vendable
  is_ours location = server.manages_storage location && is_vendable server.allowed_prefixes location

  sign_error : SigningError → AppError
  sign_error no_signer = not_configured
  sign_error (unsignable_request reason) = unsignable reason
  sign_error (failed reason) = signer_failed

  signed_or : Result SignedRequest SigningError → Result SignedRequest AppError
  unfolding sign_error
  signed_or (ok signed) = ok signed
  signed_or (err e) = err (sign_error e)

  cache_control_of : SignedOp → Text
  cache_control_of read = codes "private"
  cache_control_of write = codes "no-cache"

  unfoldable pub input_of : Text → RemoteSignRequest → Addressed → SignInput
  unfolding pick_region
  input_of method payload addressed = record {
    method = method;
    uri = addressed.uri;
    region = pick_region payload.region server.signing;
    headers = payload.headers;
    body = payload.body;
  }

  -- `sign_request` after the request was resolved.
  unfoldable pub sign_resolved :
      Text → RemoteSignRequest → Authorized → Addressed × SignedOp → Audited Response
  unfolding ◌>>=◌ refuse_recorded may_write is_ours confine signed_or input_of record_signature
      cache_control_of
  sign_resolved method payload authorized (addressed, operation) = do
    unrestricted ←
        refuse_recorded operation addressed
          (if authorized.unrestricted then ok tt else err restricted)
    permitted ← lift (may_write operation authorized)
    writable ← refuse_recorded operation addressed (if permitted then ok tt else err no_write)
    location ← lift server.table_location
    ours ←
        refuse_recorded operation addressed
          (if is_ours location then ok tt else err foreign_storage)
    inside ← refuse_recorded operation addressed (confine addressed location)
    signed ← lift (signed_or (server.sign (input_of method payload addressed)))
    recorded ← record_signature operation addressed true
    lift (
        ok (record {
          uri = signed.uri;
          headers = signed.headers;
          cache_control = cache_control_of operation;
        }))

  unfoldable pub is_other_provider : Option Text → Bool
  is_other_provider none = false
  is_other_provider (some provider) = not (eq_ignore_ascii_case provider (codes "s3"))

  unfoldable pub is_large : Option Text → Bool
  is_large none = false
  is_large (some body) = ltb max_body (utf8_len body)

  unfoldable pub sign_request : (Text → Option Url) → RemoteSignRequest → Audited Response
  unfolding ◌>>=◌ is_other_provider is_large resolve sign_resolved trim
  sign_request parse payload = do
    offered ← refuse (not server.signing.enabled) not_offered
    s3 ← refuse (is_other_provider payload.provider) bad_provider
    small ← refuse (is_large payload.body) large_body
    authorized ← lift server.authorize_read
    resolved ←
        lift (resolve parse (to_ascii_uppercase (trim payload.method)) payload server.signing)
    sign_resolved (to_ascii_uppercase (trim payload.method)) payload authorized resolved

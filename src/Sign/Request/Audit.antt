-- ===== src/Sign/Request/Audit.antt =====
-- src/catalog/v1/sign.rs: actions that leave records, and the refusals of `sign_request` among them.
use rustberg.Common.{
  ap, sym, ◌∙◌, ◌≡◌, refl, Text, Bool, true, false, Bool-cases, inl, inr, All, List, [], ◌∷◌,
  Result, ok, err, arith,
}
use rustberg.Location.{is_prefix_within}
use rustberg.Location.Within.{InRoot, is_within_iff, is_prefix_within-is_within}
use rustberg.Sign.{SignedOp, read, write, Addressed, AppError, unavailable}
use rustberg.Sign.Resolve.Outcome.{ok-inj}
use rustberg.Sign.Request.{
  Event, Server, Audited, ◌>>=◌, lift, refuse, event_of, contains, confine_all, confine,
  record_signature, refuse_recorded,
}

module _ {A B : Type 0} where
  -- An action that ends well whose first step leaves no record.
  pub after_lift :
      (r : Result A AppError) (next : A → Audited B) (events : List Event) (b : B)
      → (lift r >>= next) ≡ (events, ok b)
      → (a : A) × (r ≡ ok a) × (next a ≡ (events, ok b))
  unfolding ◌>>=◌
  after_lift (err e) next events b h = absurd (cc (ap (λ p. p.1) h))
  after_lift (ok a) next events b h = (a, refl, h)

module _ {B : Type 0} where
  -- What an action that ends well has gone through, a refusal that is not recorded first.
  pub after_refuse :
      (refused : Bool) (e : AppError) (next : Unit {0} → Audited B) (events : List Event) (b : B)
      → (refuse refused e >>= next) ≡ (events, ok b)
      → (refused ≡ false) × (next tt ≡ (events, ok b))
  unfolding ◌>>=◌
  after_refuse true e next events b h = absurd (cc (ap (λ p. p.1) h))
  after_refuse false e next events b h = (refl, h)

  -- Likewise a refusal that is recorded.
  pub after_recorded :
      (server : Server) (operation : SignedOp) (addressed : Addressed)
      (r : Result (Unit {0}) AppError) (next : Unit {0} → Audited B) (events : List Event) (b : B)
      → (refuse_recorded server operation addressed r >>= next) ≡ (events, ok b)
      → (r ≡ ok tt) × (next tt ≡ (events, ok b))
  unfolding refuse_recorded record_signature ◌>>=◌
  after_recorded server operation addressed (ok tt) next events b h = (refl, h)
  after_recorded server read addressed (err e) next events b h = absurd (cc (ap (λ p. p.1) h))
  after_recorded server write addressed (err e) next events b h = absurd (cc (ap (λ p. p.1) h))

-- The last steps: the record, and the answer.
pub after_signature :
    {B : Type 0} (server : Server) (operation : SignedOp) (addressed : Addressed) (answer b : B)
    (events : List Event)
    → (record_signature server operation addressed true >>= λ _. lift (ok answer)) ≡ (events, ok b)
    → (answer ≡ b)
      × (events ≡ event_of operation addressed true ∷ [])
      × (operation ≡ write → server.accepts (event_of operation addressed true) ≡ true)
unfolding record_signature ◌>>=◌
after_signature server read addressed answer b events h =
    (ok-inj (ap (λ p. p.1) h), sym (ap (λ p. p.0) h), λ e. absurd (cc e))
after_signature server write addressed answer b events h =
    elim (Bool-cases (server.accepts (event_of write addressed true))) [
      | inl accepted ↦
          let at : record_signature server write addressed true
              ≡ (event_of write addressed true ∷ [], ok tt) =
            rw (record_signature, accepted) refl in
          let same = sym (ap (λ r. r >>= λ _. lift (ok answer)) at) ∙ h in
          (ok-inj (ap (λ p. p.1) same), sym (ap (λ p. p.0) same), λ _. accepted)
      | inr lost ↦
          let at : record_signature server write addressed true
              ≡ (event_of write addressed true ∷ [], err unavailable) =
            rw (record_signature, lost) refl in
          let same = sym (ap (λ r. r >>= λ _. lift (ok answer)) at) ∙ h in
          absurd (cc (ap (λ p. p.1) same))
    ]

contains-InRoot :
    (addressed : Addressed) (root location : Text)
    → contains addressed root location ≡ true
    → InRoot root location
unfolding contains
contains-InRoot addressed root location h = elim (Bool-cases addressed.prefixes) [
  | inl prefixes ↦
      (is_within_iff root location).0 (is_prefix_within-is_within root location (ground arith))
  | inr keys ↦ (is_within_iff root location).0 (ground arith)
]

confine_all-InRoot :
    (addressed : Addressed) (root : Text) (locations : List Text)
    → confine_all addressed root locations ≡ ok tt
    → All (InRoot root) locations
unfolding confine_all
confine_all-InRoot addressed root [] h = tt
confine_all-InRoot addressed root (location ∷ locations) h =
    elim (Bool-cases (contains addressed root location)) [
      | inl inside ↦ (
        contains-InRoot addressed root location inside,
        confine_all-InRoot addressed root locations (ground arith),
      )
      | inr outside ↦ absurd (ground arith)
    ]

-- Every location of a request that is confined lies in the root.
pub confine-InRoot :
    (addressed : Addressed) (root : Text)
    → confine addressed root ≡ ok tt
    → All (InRoot root) addressed.locations
unfolding confine
confine-InRoot addressed root h = confine_all-InRoot addressed root addressed.locations h

contains_prefix :
    (addressed : Addressed) (root location : Text)
    → addressed.prefixes ≡ true
    → contains addressed root location ≡ true
    → is_prefix_within root location ≡ true
unfolding contains
contains_prefix addressed root location prefixes h = ground arith

confine_all-prefixes :
    (addressed : Addressed) (root : Text) (locations : List Text)
    → confine_all addressed root locations ≡ ok tt
    → addressed.prefixes ≡ true
    → All (λ prefix. is_prefix_within root prefix ≡ true) locations
unfolding confine_all
confine_all-prefixes addressed root [] h prefixes = tt
confine_all-prefixes addressed root (location ∷ locations) h prefixes =
    elim (Bool-cases (contains addressed root location)) [
      | inl inside ↦ (
        contains_prefix addressed root location prefixes inside,
        confine_all-prefixes addressed root locations (ground arith) prefixes,
      )
      | inr outside ↦ absurd (ground arith)
    ]

-- Every prefix of a listing that is confined passes the check for prefixes.
pub confine-prefixes :
    (addressed : Addressed) (root : Text)
    → confine addressed root ≡ ok tt
    → addressed.prefixes ≡ true
    → All (λ prefix. is_prefix_within root prefix ≡ true) addressed.locations
unfolding confine
confine-prefixes addressed root h = confine_all-prefixes addressed root addressed.locations h

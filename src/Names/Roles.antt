-- ===== src/Names/Roles.antt =====
-- Principals and roles in src/names.rs: one rule written twice.
use mathlib.Core.Path.{subst}
use rustberg.Common.{
  IsIn, ◌<◌, Text, text_eq_iff, true, Option-cases, Bool-cases, ltb, not, List, [], ◌∷◌, ◌≡◌, ◌≢◌,
  ◌↔◌, inl, inr, arith, All, none, ok,
}
use rustberg.Names.{
  Unicode, find, is_denormal, validate_principal_id, unusable_char, unusable_role_char,
  usable_roles,
}

-- The documented fact that text of ASCII characters is in every normal form.
pub record IsAsciiNormal (u : Unicode) : Type 0 where
  pub ascii : (s : Text) → All (λ c. c < 0x80) s → u.nfc s ≡ s

ascii_iff : (s : Text) → (find (λ c. not (ltb c 0x80)) s ≡ none) → All (λ c. c < 0x80) s
unfolding find
ascii_iff [] h = tt
ascii_iff (c ∷ s) h = (ground arith, ascii_iff s (ground arith))

denormal-find :
    (u : Unicode) (s : Text)
    → IsAsciiNormal u
    → is_denormal u s ≡ true
    → find (λ c. not (ltb c 0x80)) s ≢ none
denormal-find u s h e n = ground (arith, h.ascii s (ascii_iff s n), text_eq_iff (u.nfc s) s)

-- A role can be used exactly if it would be accepted as the id of a principal: in particular, a
-- role that is not in normal form is never let through for want of a character to blame. Text of
-- ASCII characters is in normal form.
pub usable_role_iff :
    (u : Unicode) (role : Text)
    → IsAsciiNormal u
    → (unusable_role_char u role ≡ none) ↔ (validate_principal_id u role ≡ ok tt)
unfolding unusable_role_char unusable_char validate_principal_id
usable_role_iff u role h = elim (Bool-cases (is_denormal u role)) [
  | inl denormal ↦
      (λ e. absurd (ground (arith, denormal-find u role h denormal)), λ e. absurd (ground arith))
  | inr normal ↦ (λ e. ground arith, λ e. ground arith)
]

-- The roles that are kept are the claimed ones that would be accepted as ids, and no others. Text of
-- ASCII characters is in normal form.
pub usable_roles_iff :
    (u : Unicode) (role : Text) (claimed : List Text)
    → IsAsciiNormal u
    → IsIn role (usable_roles u claimed)
      ↔ (IsIn role claimed × (validate_principal_id u role ≡ ok tt))
unfolding usable_roles
usable_roles_iff u role [] h = (λ e. absurd e, λ (e, _). e)
usable_roles_iff u role (r ∷ claimed) h =
    let rest = usable_roles_iff u role claimed h in
    elim (Option-cases (unusable_role_char u r)) [
      | inl fine ↦ rw fine (
        λ e. elim e [
          | inl same ↦ (inl same, rw same ((usable_role_iff u r h).0 fine))
          | inr kept ↦ let (c, v) = rest.0 kept in (inr c, v)
        ],
        λ (e, v). elim e [ inl same ↦ inl same | inr later ↦ inr (rest.1 (later, v)) ],
      )
      | inr (c, bad) ↦ rw bad (
        λ kept. let (c, v) = rest.0 kept in (inr c, v),
        λ (e, v). elim e [
          | inl same ↦ absurd (
              let fine : unusable_role_char u r ≡ none =
                (usable_role_iff u r h).1 (subst (λ x. validate_principal_id u x ≡ ok tt) same v) in
              ground arith)
          | inr later ↦ rest.1 (later, v)
        ],
      )
    ]

-- ===== src/Predicate/Hex.antt =====
-- Binary values as text: written by `to_hex` of src/catalog/v1/plan.rs, read by `from_hex` of
-- src/predicate.rs.
use mathlib.Core.List.{append-nil}
use rustberg.Common.{
  ℕ, zero, ◌&&◌, suc, ◌+◌, ◌-◌, ◌%◌, ◌/◌, ◌<◌, ◌≡◌, ◌≢◌, refl, ap, sym, ◌∙◌, Text, true, false,
  Bool-cases, inl, inr, All, List, [], ◌∷◌, ◌++◌, Option, some, none, Result, ok, err, ◌>>=◌, ltb,
  ◌==◌, ==_iff, utf8_width, utf8_len, if◌then◌else◌, arith,
}
use rustberg.Predicate.{Fault, not_hex, panic}
use rustberg.Common.Percent.{hex_digit, hex_pair}
use rustberg.Predicate.Literals.{hex_pairs, from_hex}

unfoldable pub to_digit : ℕ → ℕ
to_digit n = if ltb n 10 then b'0' + n else b'a' + (n - 10)

-- `format!("{b:02x}")` of each byte
unfoldable pub to_hex : List ℕ → Text
unfolding to_digit
to_hex [] = []
to_hex (b ∷ bytes) = to_digit (b / 16) ∷ to_digit (b % 16) ∷ to_hex bytes

-- One turn of `hex_pairs`, for what the slice reads as and what the rest does.
unfoldable pub hex_step : Option ℕ → Result (List ℕ) Fault → Result (List ℕ) Fault
hex_step o rest = elim o [ none ↦ err not_hex | some byte ↦ do bytes ← rest; ok (byte ∷ bytes) ]

pub hex_pairs-cons :
    (c d : ℕ) (s : Text)
    → (utf8_width c == 2) ≡ false
    → (utf8_width c == 1 && utf8_width d == 1) ≡ true
    → hex_pairs (c ∷ d ∷ s) ≡ hex_step (hex_pair c d) (hex_pairs s)
unfolding hex_pairs hex_step
hex_pairs-cons c d s wide ascii = rw (wide, ascii) refl

digit_lem : (n : ℕ) → n < 16 → hex_digit (to_digit n) ≡ some n
unfolding hex_digit to_digit
digit_lem n h = ground arith

plain_lem : (n : ℕ) → n < 16 → (to_digit n == b'+') ≡ false
unfolding to_digit
plain_lem n h = ground arith

pair_lem : (b : ℕ) → b < 256 → hex_pair (to_digit (b / 16)) (to_digit (b % 16)) ≡ some b
unfolding hex_pair
pair_lem b h =
    rw
      (
        hex_pair,
        digit_lem (b % 16) (omega arith),
        plain_lem (b / 16) (omega arith),
        digit_lem (b / 16) (omega arith),
      )
      (ap some (omega arith))

width_lem : (n : ℕ) → n < 16 → utf8_width (to_digit n) ≡ 1
unfolding to_digit
width_lem n h = ground arith

-- A byte's two digits are read as one slice.
hex_pairs-byte :
    (b : ℕ) (s : Text)
    → b < 256
    → hex_pairs (to_digit (b / 16) ∷ to_digit (b % 16) ∷ s)
      ≡ (hex_pairs s >>= λ bytes. ok (b ∷ bytes))
unfolding hex_pairs
hex_pairs-byte b s h =
    rw (width_lem (b / 16) (omega arith), width_lem (b % 16) (omega arith), pair_lem b h) refl

added_nothing : (r : Result (List ℕ) Fault) → r ≡ (r >>= λ others. ok others)
added_nothing (ok others) = refl
added_nothing (err e) = refl

added_twice :
    (b : ℕ) (bytes : List ℕ) (r : Result (List ℕ) Fault)
    → ((r >>= λ others. ok (bytes ++ others)) >>= λ more. ok (b ∷ more))
      ≡ (r >>= λ others. ok (b ∷ bytes ++ others))
added_twice b bytes (ok others) = refl
added_twice b bytes (err e) = refl

hex_pairs-append :
    (bytes : List ℕ) (s : Text)
    → All (λ b. b < 256) bytes
    → hex_pairs (to_hex bytes ++ s) ≡ (hex_pairs s >>= λ others. ok (bytes ++ others))
unfolding to_hex
hex_pairs-append [] s h = added_nothing (hex_pairs s)
hex_pairs-append (b ∷ bytes) s (lt, h) =
    hex_pairs-byte b (to_hex bytes ++ s) lt
    ∙ ap (λ r. r >>= λ more. ok (b ∷ more)) (hex_pairs-append bytes s h)
    ∙ added_twice b bytes (hex_pairs s)

utf8_len-to_hex :
    (bytes : List ℕ) (s : Text)
    → All (λ b. b < 256) bytes
    → utf8_len (to_hex bytes ++ s) % 2 ≡ utf8_len s % 2
unfolding to_hex
utf8_len-to_hex [] s h = refl
utf8_len-to_hex (b ∷ bytes) s (lt, h) =
    rw (width_lem (b / 16) (omega arith), width_lem (b % 16) (omega arith))
      (omega (arith, utf8_len-to_hex bytes s h))

-- The hex that a scan plan writes for a binary value is read back as that value.
pub from_hex-to_hex :
    (bytes : List ℕ) → All (λ b. b < 256) bytes → from_hex (to_hex bytes) ≡ ok bytes
unfolding from_hex
from_hex-to_hex bytes h =
    let same : to_hex bytes ++ [] ≡ to_hex bytes = append-nil (to_hex bytes) in
    let even : utf8_len (to_hex bytes) % 2 ≡ 0 =
      ap (λ t. utf8_len t % 2) (sym same) ∙ utf8_len-to_hex bytes [] h in
    rw even (ap hex_pairs (sym same) ∙ hex_pairs-append bytes [] h ∙ ap ok (append-nil bytes))

not_one : (w : ℕ) → 1 < w → (w == 1) ≡ false
not_one w h = ground arith

hex_pairs_cut :
    (c d : ℕ) (s : Text) → utf8_width c ≡ 1 → 1 < utf8_width d → hex_pairs (c ∷ d ∷ s) ≡ err panic
unfolding hex_pairs
hex_pairs_cut c d s ascii wide =
    let cut : (utf8_width d == 1) ≡ false = not_one (utf8_width d) wide in rw (ascii, cut) refl

-- A text that begins with the hex of some bytes aborts the process if an ASCII character and then
-- one that takes more than a byte follow, however the text goes on, as long as it is even.
pub from_hex_aborts :
    (bytes : List ℕ) (c d : ℕ) (s : Text)
    → All (λ b. b < 256) bytes
    → utf8_width c ≡ 1
    → 1 < utf8_width d
    → utf8_len (c ∷ d ∷ s) % 2 ≡ 0
    → from_hex (to_hex bytes ++ c ∷ d ∷ s) ≡ err panic
unfolding from_hex hex_pairs
from_hex_aborts bytes c d s h ascii wide even =
    rw (utf8_len-to_hex bytes (c ∷ d ∷ s) h, even)
      (hex_pairs-append bytes (c ∷ d ∷ s) h
        ∙ ap (λ r. r >>= λ others. ok (bytes ++ others)) (hex_pairs_cut c d s ascii wide))

-- A text of ASCII characters never does.
step_ascii :
    (o : Option ℕ) (rest : Result (List ℕ) Fault) → rest ≢ err panic → hex_step o rest ≢ err panic
unfolding hex_step
step_ascii none rest h e = absurd (ground arith)
step_ascii (some byte) (ok bytes) h e = absurd (ground arith)
step_ascii (some byte) (err f) h e = h e

width_ascii : (c : ℕ) → c < 0x80 → utf8_width c ≡ 1
width_ascii c h = ground arith

hex_pairs_ascii :
    (n : ℕ) (s : Text) → All (λ c. c < 0x80) s → utf8_len s ≡ n + n → hex_pairs s ≢ err panic
unfolding hex_pairs
hex_pairs_ascii n [] h e aborts = absurd (ground arith)
hex_pairs_ascii n (c ∷ []) (a, _) e aborts =
    let one : utf8_width c ≡ 1 = width_ascii c a in absurd (omega arith)
hex_pairs_ascii zero (c ∷ d ∷ s) (a, (b, h)) e aborts =
    let one : utf8_width c ≡ 1 = width_ascii c a in absurd (omega arith)
hex_pairs_ascii (suc n) (c ∷ d ∷ s) (a, (b, h)) e aborts =
    let one : utf8_width c ≡ 1 = width_ascii c a in
    let other : utf8_width d ≡ 1 = width_ascii d b in
    let rest = hex_pairs_ascii n s h (omega arith) in
    step_ascii (hex_pair c d) (hex_pairs s) rest
      (sym (hex_pairs-cons c d s (rw one refl) (rw (one, other) refl)) ∙ aborts)

-- Only text that is not ASCII makes `from_hex` abort.
from_hex_ascii : (s : Text) → All (λ c. c < 0x80) s → from_hex s ≢ err panic
unfolding from_hex
from_hex_ascii s h aborts = elim (Bool-cases (utf8_len s % 2 == 0)) [
  | inr odd ↦ absurd (ground arith)
  | inl even ↦
      hex_pairs_ascii (utf8_len s / 2) s h (omega (arith, (==_iff (utf8_len s % 2) 0).0 even))
        (ground arith)
]

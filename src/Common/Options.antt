-- ===== src/Common/Options.antt =====
-- `?` on Rust's `Option`.
use mathlib.Core.Path.{◌≡◌, refl}
use mathlib.Core.Option.{Option, none, some}

infixl 5 ◌>>=◌
abbrev pub ◌>>=◌ {ℓ κ} : {A : Type ℓ} {B : Type κ} → Option A → (A → Option B) → Option B
none >>= _ = none
some a >>= next = next a

-- What a chain that ends well has gone through.
pub >>=-eq-some {ℓ κ} :
    {A : Type ℓ} {B : Type κ} {last : B} (o : Option A) (next : A → Option B)
    → (o >>= next) ≡ some last
    → (mid : A) × (o ≡ some mid) × (next mid ≡ some last)
>>=-eq-some none next h = cc
>>=-eq-some (some mid) next h = (mid, refl, h)

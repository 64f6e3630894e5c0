-- ===== src/Redb/Pages/Complete.antt =====
-- Following the cursors of src/catalog/redb.rs visits every entry of a range once, in order.
use mathlib.Core.Path.{subst}
use rustberg.Common.{
  zero, All-append_inv, ℕ, suc, ◌≤◌, ◌<◌, Text, text_ltb, text_leb, true, false, ◌≡◌, refl, ap,
  ◌&&◌, Bool-cases, inl, inr, List, [], ◌∷◌, ◌++◌, map, length, All, arith, if◌then◌else◌, ==_iff,
}
use rustberg.Redb.Maps.{Map, range}
use rustberg.Redb.Pages.{take}

text_ltb_trans : (a b c : Text) → text_ltb a b ≡ true → text_ltb b c ≡ true → text_ltb a c ≡ true
text_ltb_trans a [] c h k = absurd (ground arith)
text_ltb_trans a (y ∷ b) [] h k = absurd (ground arith)
text_ltb_trans [] (y ∷ b) (z ∷ c) h k = refl
text_ltb_trans (x ∷ a) (y ∷ b) (z ∷ c) h k =
    ground (arith, text_ltb_trans a b c, ==_iff x y, ==_iff y z, ==_iff x z)

-- The text after a cursor and before which there is no other.
leb-succ : (c k : Text) → text_leb (c ++ 0 ∷ []) k ≡ text_ltb c k
leb-succ [] [] = refl
leb-succ [] (y ∷ k) = ground arith
leb-succ (x ∷ c) [] = refl
leb-succ (x ∷ c) (y ∷ k) = ground (arith, leb-succ c k, ==_iff x y, ==_iff y x)

-- The keys rise.
abbrev pub IsSorted {ℓ} : {V : Type ℓ} → Map V → Type 0
IsSorted [] = Unit
IsSorted ((k, _) ∷ m) = All (λ e. text_ltb k e.0 ≡ true) m × IsSorted m

text_ltb_irrefl : (a : Text) → text_ltb a a ≡ false
text_ltb_irrefl [] = refl
text_ltb_irrefl (x ∷ a) = ground (arith, text_ltb_irrefl a)

text_ltb_asym : (a b : Text) → text_ltb a b ≡ true → text_ltb b a ≡ false
text_ltb_asym a b h = elim (Bool-cases (text_ltb b a)) [
  | inl k ↦ absurd (ground (arith, text_ltb_trans a b a h k, text_ltb_irrefl a))
  | inr k ↦ k
]

module _ {ℓ} {V : Type ℓ} where
  range-All :
      (P : Text × V → Type 0) (m : Map V) (start end : Text) → All P m → All P (range m start end)
  unfolding range
  range-All P [] start end h = tt
  range-All P ((j, w) ∷ m) start end (p, h) =
      elim (Bool-cases (text_leb start j && text_ltb j end)) [
        | inl e ↦ rw e (p, range-All P m start end h)
        | inr e ↦ rw e (range-All P m start end h)
      ]

  pub in_range :
      (m : Map V) (start end : Text)
      → All (λ e. (text_leb start e.0 && text_ltb e.0 end) ≡ true) (range m start end)
  unfolding range
  in_range [] start end = tt
  in_range ((j, w) ∷ m) start end = elim (Bool-cases (text_leb start j && text_ltb j end)) [
    | inl e ↦ rw e (e, in_range m start end)
    | inr e ↦ rw e (in_range m start end)
  ]

  -- Behind the start, a range is the same from wherever it starts.
  range_behind :
      (m : Map V) (c start end : Text)
      → text_ltb c start ≡ false
      → All (λ e. text_ltb c e.0 ≡ true) m
      → range m (c ++ 0 ∷ []) end ≡ range m start end
  unfolding range
  range_behind [] c start end h k = refl
  range_behind ((j, w) ∷ m) c start end h (k, ks) =
      ground (arith, leb-succ c j, text_ltb_trans c j start, range_behind m c start end h ks)

  next_range_in :
      (j : Text) (w : V) (m : Map V) (start end : Text) (before : Map V) (c : Text) (v : V)
      (rest : Map V)
      → All (λ e. text_ltb j e.0 ≡ true) m
      → ((before' : Map V)
          → range m start end ≡ before' ++ (c, v) ∷ rest
          → range m (c ++ 0 ∷ []) end ≡ rest)
      → text_ltb c start ≡ false
      → (j, w) ∷ range m start end ≡ before ++ (c, v) ∷ rest
      → range ((j, w) ∷ m) (c ++ 0 ∷ []) end ≡ rest
  unfolding range
  next_range_in j w m start end [] c v rest js go h e =
      let key : j ≡ c = cc in
      let tail : range m start end ≡ rest = cc in
      let out : text_leb (c ++ 0 ∷ []) j ≡ false = rw (key, leb-succ) (text_ltb_irrefl c) in
      rw (out, ← tail)
        (range_behind m c start end h (subst (λ x. All (λ e. text_ltb x e.0 ≡ true) m) key js))
  next_range_in j w m start end ((k, x) ∷ before) c v rest js go h e =
      let tail : range m start end ≡ before ++ (c, v) ∷ rest = cc in
      let (_, (after, _)) =
        All-append_inv (λ e. text_ltb j e.0 ≡ true) before ((c, v) ∷ rest)
          (subst (All (λ e. text_ltb j e.0 ≡ true)) tail
            (range-All (λ e. text_ltb j e.0 ≡ true) m start end js)) in
      let later = go before tail in
      let out : text_leb (c ++ 0 ∷ []) j ≡ false = rw leb-succ (text_ltb_asym j c after) in
      rw out later

  -- The range from just after a key in it is what follows the key.
  pub next_range :
      (m : Map V) (start end : Text) (before : Map V) (c : Text) (v : V) (rest : Map V)
      → IsSorted m
      → text_ltb c start ≡ false
      → range m start end ≡ before ++ (c, v) ∷ rest
      → range m (c ++ 0 ∷ []) end ≡ rest
  unfolding range
  next_range [] start end [] c v rest s h e = absurd (ground arith)
  next_range [] start end (b ∷ before) c v rest s h e = absurd (ground arith)
  next_range ((j, w) ∷ m) start end before c v rest (js, s) h e =
      elim (Bool-cases (text_leb start j && text_ltb j end)) [
        | inl into ↦
            next_range_in j w m start end before c v rest js
              (λ before' f. next_range m start end before' c v rest s h f) h
              (subst
                (λ b.
                  (if b then (j, w) ∷ range m start end else range m start end)
                  ≡ before ++ (c, v) ∷ rest)
                into e)
        | inr out ↦
            let e' : range m start end ≡ before ++ (c, v) ∷ rest =
              subst
                (λ b.
                  (if b then (j, w) ∷ range m start end else range m start end)
                  ≡ before ++ (c, v) ∷ rest)
                out e in
            let later = next_range m start end before c v rest s h e' in
            ground (arith, leb-succ c j, text_ltb_trans c j start, later)
      ]

module _ {ℓ} {A : Type ℓ} where
  pub length-take_le : (n : ℕ) (xs : List A) → length xs ≤ n → take n xs ≡ xs
  length-take_le zero [] h = refl
  length-take_le zero (x ∷ xs) h = absurd (omega (arith, h))
  length-take_le (suc n) [] h = refl
  length-take_le (suc n) (x ∷ xs) h = ap (λ l. x ∷ l) (length-take_le n xs (omega (arith, h)))

  pub length-take_lt : (n : ℕ) (xs : List A) → n ≤ length xs → length (take n xs) ≡ n
  length-take_lt zero xs h = refl
  length-take_lt (suc n) [] h = absurd (omega (arith, h))
  length-take_lt (suc n) (x ∷ xs) h = ap suc (length-take_lt n xs (omega (arith, h)))

  pub take-take : (n m : ℕ) (xs : List A) → n ≤ m → take n (take m xs) ≡ take n xs
  take-take zero m xs h = refl
  take-take (suc n) zero xs h = absurd (omega (arith, h))
  take-take (suc n) (suc m) [] h = refl
  take-take (suc n) (suc m) (x ∷ xs) h = ap (λ l. x ∷ l) (take-take n m xs (omega (arith, h)))

  -- A page that is not the last one ends with an entry, and what follows is shorter.
  pub page_split :
      (n : ℕ) (xs : List A)
      → n < length xs
      → (init : List A) × (last : A) × (rest : List A) × (xs ≡ init ++ last ∷ rest)
        × (take (suc n) xs ≡ init ++ last ∷ [])
        × (length rest < length xs)
  page_split n [] h = absurd (omega (arith, h))
  page_split zero (x ∷ xs) h = ([], x, xs, refl, refl, omega arith)
  page_split (suc n) (x ∷ xs) h =
      let (init, last, rest, e, t, l) = page_split n xs (omega (arith, h)) in
      (x ∷ init, last, rest, ap (λ y. x ∷ y) e, ap (λ y. x ∷ y) t, omega (arith, l))

pub take-map {ℓ κ} :
    {A : Type ℓ} {B : Type κ} (f : A → B) (n : ℕ) (xs : List A)
    → take n (map f xs) ≡ map f (take n xs)
take-map f zero xs = refl
take-map f (suc n) [] = refl
take-map f (suc n) (x ∷ xs) = ap (λ l. f x ∷ l) (take-map f n xs)

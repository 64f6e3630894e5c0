-- ===== src/Location/Urls.antt =====
-- src/location.rs: between local paths and `file:` URLs, with the platform as an argument.
use rustberg.Common.{
  Text, codes, Bool, true, false, ◌&&◌, ◌||◌, ◌≡◌, refl, Option, none, some, [], ◌∷◌, ◌++◌, map,
  arith, ◌==◌, if◌then◌else◌, starts_with_char, strip_prefix, is_ascii_alphabetic, Bool-cases, inl,
  inr, ==_iff,
}

drive_end : Text → Bool
drive_end [] = true
drive_end (c ∷ _) = c == b'/' || c == 0x5c

unfoldable pub starts_with_drive_letter : Text → Bool
unfolding drive_end
starts_with_drive_letter [] = false
starts_with_drive_letter (_ ∷ []) = false
starts_with_drive_letter (letter ∷ colon ∷ rest) =
    is_ascii_alphabetic letter && colon == b':' && drive_end rest

-- `path.replace('\\', "/")`, on Windows only
unfoldable pub normalized : Text → Bool → Text
normalized path windows = if windows then map (λ c. if c == 0x5c then b'/' else c) path else path

unfoldable pub to_url : Text → Bool → Text
unfolding normalized starts_with_drive_letter
to_url path windows =
    if windows && starts_with_drive_letter (normalized path windows)
    then codes "file:///" ++ normalized path windows
    else codes "file://" ++ normalized path windows

-- `filter(|rest| rest.starts_with('/'))`
rooted : Option Text → Option Text
rooted none = none
rooted (some rest) = if starts_with_char b'/' rest then some rest else none

without_scheme : Text → Text
unfolding rooted
without_scheme location = elim (strip_prefix (codes "file://") location) [
  | some rest ↦ rest
  | none ↦ elim (rooted (strip_prefix (codes "file:") location)) [
    | some rest ↦ rest
    | none ↦ location
  ]
]

drop_drive_slash : Text → Text
unfolding starts_with_drive_letter
drop_drive_slash [] = []
drop_drive_slash (c ∷ after) =
    if c == b'/' && starts_with_drive_letter after then after else c ∷ after

unfoldable pub without_url_prefix : Text → Bool → Text
unfolding without_scheme drop_drive_slash
without_url_prefix location windows =
    if windows then drop_drive_slash (without_scheme location) else without_scheme location

drop_drive_slash_of_plain :
    (path : Text)
    → ((after : Text) → path ≡ b'/' ∷ after → starts_with_drive_letter after ≡ false)
    → drop_drive_slash path ≡ path
unfolding drop_drive_slash
drop_drive_slash_of_plain [] h = refl
drop_drive_slash_of_plain (c ∷ after) h = elim (Bool-cases (c == b'/')) [
  | inl slash ↦
      let same : c ∷ after ≡ b'/' ∷ after = ground (arith, ==_iff c b'/') in
      rw (slash, h after same)
  | inr other ↦ rw other
]

-- A path goes through its URL and back unchanged, but for the separators that Windows has its own
-- of, on both platforms; on Windows it may not be a drive written behind a slash.
pub without_url_prefix-to_url :
    (path : Text) (windows : Bool)
    → (windows ≡ true
        → (after : Text) → normalized path windows ≡ b'/' ∷ after
        → starts_with_drive_letter after ≡ false)
    → without_url_prefix (to_url path windows) windows ≡ normalized path windows
unfolding without_url_prefix to_url
without_url_prefix-to_url path false h = refl
without_url_prefix-to_url path true h =
    elim (Bool-cases (starts_with_drive_letter (normalized path true))) [
      | inl drive ↦ rw drive (unfold drop_drive_slash in rw drive)
      | inr plain ↦ rw plain (drop_drive_slash_of_plain (normalized path true) (h refl))
    ]

-- The two spellings of a rooted local URL name one path.
pub one_slash_or_three :
    (path : Text) (windows : Bool)
    → starts_with_char b'/' path ≡ false
    → without_url_prefix (codes "file:/" ++ path) windows
      ≡ without_url_prefix (codes "file:///" ++ path) windows
unfolding without_url_prefix
one_slash_or_three [] windows h = refl
one_slash_or_three (c ∷ path) windows h = ground (arith, ==_iff c b'/')

-- ===== src/Format.antt =====
-- What the formats share: the description of a format, the list of valid items, the scan of a
-- layer for codes out of range.
pub mod Rockford
pub mod DDave
pub mod DarkAges
pub mod CComic
pub mod Hocus
pub mod Zone66
pub mod Duke1
pub mod Wacky
pub mod Xargon
pub mod Sweeney
pub mod Jill
pub mod WordRescue
pub mod Vinyl
pub mod Nukem2
pub mod Harry
pub mod Got
pub mod Cosmo
pub mod CCaves
pub mod Bash
pub mod SAgent
use libgamemaps.Prelude.{
  ℕ, zero, suc, ◌+◌, ◌≤◌, ◌<◌, ◌≡◌, refl, Bool, true, false, ◌||◌, List, [], ◌∷◌, All, arith, ltb,
  ◌==◌, not, ltb→le, if◌then◌else◌,
}
use Prim.Native.String.{String}
use libgamemaps.Map2D.{Item, default_item}

-- getMapCode(), getFriendlyName(), getFileExtensions() and getGameList() of a MapType.
pub record MapTypeInfo : Type 0 where
  pub map_code : String
  pub friendly_name : String
  pub file_extensions : List String
  pub game_list : List String

-- The loop that lists the items that may be placed: one for each code from `code` on, `n` of them.
unfoldable pub valid_items_from : ℕ → ℕ → List Item
valid_items_from code zero = []
valid_items_from code (suc n) = default_item 0 0 code ∷ valid_items_from (code + 1) n

-- The loop of `isInstance`: does a code exceed the largest valid one?
unfoldable pub any_above : ℕ → List ℕ → Bool
any_above max [] = false
any_above max (code ∷ codes) = ltb max code || any_above max codes

-- Every item is kept, or those of the default code are left out.
abbrev pub keep_all : ℕ → Bool
keep_all code = true

abbrev pub keep_other_than : ℕ → ℕ → Bool
keep_other_than default code = not (code == default)

pub any_above-false :
    (max : ℕ) (codes : List ℕ) → All (λ c. c ≤ max) codes → any_above max codes ≡ false
unfolding any_above
any_above-false max [] h = refl
any_above-false max (c ∷ codes) (hc, h) = ground (arith, any_above-false max codes h)

pub All-of_any_above :
    (max : ℕ) (codes : List ℕ) → any_above max codes ≡ false → All (λ c. c ≤ max) codes
unfolding any_above
All-of_any_above max [] e = tt
All-of_any_above max (c ∷ codes) e = (ground arith, All-of_any_above max codes (ground arith))

pub keep_all_skips : (d c : ℕ) → keep_all c ≡ false → c ≡ d
keep_all_skips d c e = cc

pub keep_other_than_skips : (d c : ℕ) → keep_other_than d c ≡ false → c ≡ d
keep_other_than_skips d c e = ground arith

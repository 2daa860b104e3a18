-- ===== src/Format/Rockford/Instance.antt =====
-- Which files are Rockford levels, and how a write of a map that does not fit ends.
use libgamemaps.Prelude.{
  ℕ, ◌*◌, ◌≤◌, ◌<◌, ◌≡◌, ◌≢◌, ◌∙◌, ◌⊎◌, inl, inr, List, ◌∷◌, ◌++◌, some, length, length-replicate,
  All, arith, Bool-cases, if◌then◌else◌,
}
use libgamemaps.Result.{ok, throw, undefined, tile_outside_map}
use libgamemaps.Stream.{Streams}
use libgamemaps.Stream.Read.{from_start, try_read_to_end}
use libgamemaps.Map2D.{Item, Layer, Map2D, definitely_no, definitely_yes}
use libgamemaps.Grid.View.{InGrid}
use libgamemaps.Grid.Bounds.{paint-outside, paint-row_below}
use native.Mathlib.Decide.{ℕ_discrete}
use libgamemaps.Format.{any_above, any_above-false, All-of_any_above}
use libgamemaps.Format.Rockford.{
  map_width, map_height, max_valid_tilecode, default_bgtile, is_instance, write_map,
}
use libgamemaps.Format.Rockford.Map.{IsShaped, write_map-shape}

-- The bytes of a Rockford level: 880 of them, each at most 200.
pub record IsLevel (bytes : List ℕ) : Type 0 where
  pub fits : length bytes ≡ map_width * map_height
  pub codes : All (λ c. c ≤ max_valid_tilecode) bytes

module _ (lib : Streams) where
  open lib use {Input, Output, contents, size_lem}

  is_instance_size :
      (input : Input)
      → length (contents input) ≢ map_width * map_height
      → is_instance lib input ≡ ok definitely_no
  unfolding is_instance
  is_instance_size input ne = rw (size_lem input) (ground arith)

  is_instance_scan :
      (input : Input)
      → length (contents input) ≡ map_width * map_height
      → is_instance lib input ≡ (
          if any_above max_valid_tilecode (contents input)
          then ok definitely_no
          else ok definitely_yes)
  unfolding is_instance
  is_instance_scan input len =
      let (s, runs, same, left) = from_start lib input in
      let (s', reads, _, _) =
        try_read_to_end lib (map_width * map_height) s (contents input) left len in
      rw (size_lem input, len, runs, reads, len)

  -- A file is reported as definitely a Rockford level if it has 880 bytes, each at most 200, and
  -- as definitely none otherwise; the test itself never fails.
  pub is_instance_decides_rockford :
      (input : Input)
      → (IsLevel (contents input) → is_instance lib input ≡ ok definitely_yes)
        × (¬ IsLevel (contents input) → is_instance lib input ≡ ok definitely_no)
  is_instance_decides_rockford input = (
    λ level.
        is_instance_scan input level.fits
        ∙ rw (any_above-false max_valid_tilecode (contents input) level.codes),
    λ not_level. elim (ℕ_discrete (length (contents input)) (map_width * map_height)) [
      | no ne ↦ is_instance_size input ne
      | yes len ↦ elim (Bool-cases (any_above max_valid_tilecode (contents input))) [
        | inl above ↦ is_instance_scan input len ∙ rw above
        | inr below ↦ absurd (
            not_level (record {
              fits = len;
              codes = All-of_any_above max_valid_tilecode (contents input) below;
            }))
      ]
    ],
  )

  -- How a write of a map of the right shape ends where an item is the first outside the grid: an
  -- item right of column 40 or below row 22 is reported, and one on row 22 itself, just below the
  -- grid, is written outside the array.
  pub write_map_outside_rockford :
      (m : Map2D) (layer : Layer) (front : List Item) (item : Item) (back : List Item) (o : Output)
      → IsShaped m layer
      → layer.items ≡ front ++ item ∷ back
      → InGrid map_width map_height front
      → ((map_width < item.x) ⊎ (map_height < item.y)
          → write_map lib (some m) o ≡ throw tile_outside_map)
        × (item.x ≤ map_width → item.y ≡ map_height → write_map lib (some m) o ≡ undefined)
  write_map_outside_rockford m layer front item back o shape e inside =
      let len = length-replicate (map_width * map_height) default_bgtile in
      (
        λ out.
            write_map-shape lib o shape
            ∙ rw (e, paint-outside 256 map_width map_height front item back _ inside out len),
        λ p q.
            write_map-shape lib o shape
            ∙ rw (e, paint-row_below 256 map_width map_height front item back _ inside p q len),
      )

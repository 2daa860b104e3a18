-- ===== src/Format/Got/Tests.antt =====
-- God of Thunder levels: the theorems at concrete inputs.
use libgamemaps.Prelude.{
  ℕ, ◌*◌, ◌<◌, ◌≡◌, some, List, [], ◌∷◌, length, get_elem?, replicate, length-replicate, arith,
}
use libgamemaps.Result.{ok}
use libgamemaps.Map2D.{Item, default_item}
use libgamemaps.Grid.View.{tile_at}
use libgamemaps.Format.Got.Arrays.{map_width, map_height, put_tiles}
use libgamemaps.Format.Got.Layout.{place, put_tiles-tile_at}

put_tiles-tile_at_example :
    (bg : List ℕ) × (put_tiles (default_item 21 13 7 ∷ []) (replicate 28800 176) ≡ ok bg)
    × (length bg ≡ map_width * map_height)
    × ((x y d : ℕ)
        → x < map_width
        → y < map_height
        → get_elem? (replicate 28800 176) (place x y) ≡ some d
        → get_elem? bg (place x y) ≡ some (tile_at 256 d (default_item 21 13 7 ∷ []) x y))
put_tiles-tile_at_example =
    put_tiles-tile_at (default_item 21 13 7 ∷ []) (replicate 28800 176) (omega arith)
      (length-replicate {A = ℕ} 28800 176)

-- The second of two default tiles is outside.
abbrev defaults : List Item
defaults = default_item 9 11 5 ∷ default_item 5 12 7 ∷ []

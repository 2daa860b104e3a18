-- ===== src/Format/DDave/Tests.antt =====
-- Dangerous Dave levels in memory: runs, and the theorems at concrete inputs.
use libgamemaps.Prelude.{
  ℕ, ◌^◌, ◌-◌, ◌<◌, ◌≡◌, ◌≢◌, refl, some, List, [], ◌∷◌, length, replicate, true, false, arith,
}
use libgamemaps.Result.{ok, throw, undefined, path_magic_end}
use libgamemaps.Stream.Memory.{Source, Sink, memory, empty}
use libgamemaps.Map2D.{Item, Layer, Map2D, Path2D, Point, default_item}
use libgamemaps.Grid.{grid_items}
use libgamemaps.Grid.View.{tile_at}
use libgamemaps.Format.{keep_other_than, valid_items_from}
use libgamemaps.Format.DDave.Path.{path_points, write_path}
use libgamemaps.Format.DDave.Encoding.{settled, tweaked}
use libgamemaps.Format.DDave.Storing.{write_path-ne-magic_end}
use libgamemaps.Format.DDave.{open_map, write_map, valid_items}
use libgamemaps.Format.DDave.Map.{level}
use libgamemaps.Format.DDave.RoundTrip.{open_map-write_map_ddave, write_map_overrun_ddave}

-- Right and down, then up and left, then the step that looks like the end marker.
abbrev walk : List Point
walk = (5, 3) ∷ (2, 1) ∷ (2 ^ 32 - 20, 2 ^ 32 - 21) ∷ []

abbrev layer_of : List Item → Layer
layer_of items = record {
  title = "Background";
  caps = 0;
  width = 0;
  height = 0;
  tile_width = 0;
  tile_height = 0;
  items = items;
  valid_items = [];
}

abbrev path_of : List Point → Path2D
path_of points = record {
  start = [];
  fixed = true;
  points = points;
  max_points = 128;
  force_closed = false;
}

abbrev map_of : List Item → List Point → Map2D
map_of items points = record (level [] []) {
  layers = layer_of items ∷ [];
  paths = some (path_of points ∷ []);
}

abbrev spot : List Item
spot = default_item 99 9 7 ∷ []

listed : length valid_items ≡ 52
unfolding valid_items valid_items_from
listed = refl

read_steps : path_points 0 0 (5 ∷ 3 ∷ 253 ∷ 254 ∷ 0xEA ∷ 0xEA ∷ 1 ∷ 1 ∷ []) ≡ (5, 3) ∷ (2, 1) ∷ []
unfolding path_points
read_steps = refl

-- The last point is stored one pixel lower.
last_point_moves : settled 0 0 walk ≡ (5, 3) ∷ (2, 1) ∷ (2 ^ 32 - 20, 2 ^ 32 - 20) ∷ []
unfolding settled tweaked
last_point_moves = refl

open_map-write_map_ddave_example :
    (o : Sink) × (write_map memory (some (map_of spot walk)) empty ≡ ok o)
    × (length o.written ≡ 1280)
    × ((input : Source)
        → input.contents ≡ o.written
        → (pathdata codes : List ℕ) × (open_map memory input ≡ ok (level pathdata codes))
          × (path_points 0 0 pathdata ≡ settled 0 0 walk)
          × ((x y : ℕ)
              → x < 100
              → y < 10
              → tile_at 256 0 (grid_items (keep_other_than 0) 100 0 codes) x y
                ≡ tile_at 256 0 spot x y))
unfolding tweaked
open_map-write_map_ddave_example =
    open_map-write_map_ddave memory (map_of spot walk) (layer_of spot) (path_of walk) empty
      (record { one_layer = refl; one_path = refl }) (omega arith) (omega arith) (omega arith)
      (record { nothing_written = refl; at_start = refl })

write_map_overrun_ddave_example :
    write_map memory (some (map_of [] (replicate 129 (1, 1)))) empty ≡ undefined
write_map_overrun_ddave_example =
    write_map_overrun_ddave memory (map_of [] (replicate 129 (1, 1))) (layer_of [])
      (path_of (replicate 129 (1, 1))) empty (record { one_layer = refl; one_path = refl })
      (omega arith)

write_path-ne-magic_end_example : write_path walk ≢ throw path_magic_end
write_path-ne-magic_end_example = write_path-ne-magic_end walk

-- ===== src/Format/Duke1/Tests.antt =====
-- Duke Nukem 1 levels in memory: the theorems at concrete inputs.
use libgamemaps.Prelude.{
  ℕ, ◌^◌, ◌<◌, ◌≡◌, refl, none, some, List, [], ◌∷◌, replicate, All-replicate, arith,
}
use libgamemaps.Result.{ok}
use libgamemaps.Stream.Bytes.{IsByte}
use libgamemaps.Stream.Memory.{Source, Sink, memory, file, empty}
use libgamemaps.Map2D.{Layer, Map2D, default_item}
use libgamemaps.Map2D.MapCaps
use libgamemaps.Grid.{grid_items}
use libgamemaps.Grid.View.{tile_at}
use libgamemaps.Format.{keep_other_than}
use libgamemaps.Format.Duke1.{background_layer, open_map, write_map}
use libgamemaps.Format.Duke1.Map.{level}
use libgamemaps.Format.Duke1.RoundTrip.{write_map-open_map_duke1, open_map-write_map_duke1}

abbrev bricks : List ℕ
bricks = replicate 23040 7

write_map-open_map_duke1_example :
    (m : Map2D) × (o : Sink) × (open_map memory (file bricks) ≡ ok m)
    × (write_map memory (some m) empty ≡ ok o)
    × (o.written ≡ bricks)
write_map-open_map_duke1_example =
    write_map-open_map_duke1 memory (file bricks) empty refl
      (All-replicate IsByte 23040 7 (omega arith))
      (record { nothing_written = refl; at_start = refl })

-- Two items at one cell: the later one shows.
abbrev brick_layer : Layer
brick_layer = background_layer (default_item 3 4 32 ∷ default_item 3 4 64 ∷ [])

abbrev brick_map : Map2D
brick_map = record {
  attributes = [];
  graphics_filenames = [];
  caps = MapCaps.has_viewport;
  viewport_x = 208;
  viewport_y = 160;
  width = 128;
  height = 90;
  tile_width = 16;
  tile_height = 16;
  layers = brick_layer ∷ [];
  paths = none;
}

open_map-write_map_duke1_example :
    (o : Sink) × (write_map memory (some brick_map) empty ≡ ok o)
    × ((input : Source)
        → input.contents ≡ o.written
        → (codes : List ℕ) × (open_map memory input ≡ ok (level codes))
          × ((x y : ℕ)
              → x < 128
              → y < 90
              → tile_at (2 ^ 16) 0 (grid_items (keep_other_than 0) 128 0 codes) x y
                ≡ tile_at (2 ^ 16) 0 brick_layer.items x y))
unfolding background_layer
open_map-write_map_duke1_example =
    open_map-write_map_duke1 memory brick_map brick_layer empty (record { one_layer = refl })
      (omega arith) (record { nothing_written = refl; at_start = refl })

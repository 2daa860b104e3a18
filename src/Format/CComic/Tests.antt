-- ===== src/Format/CComic/Tests.antt =====
-- Captain Comic levels in memory: runs, and the theorems at concrete inputs.
use libgamemaps.Prelude.{ℕ, ◌<◌, ◌≡◌, refl, some, List, [], ◌∷◌, arith}
use libgamemaps.Result.{ok}
use libgamemaps.Stream.Memory.{Source, Sink, memory, file, empty}
use libgamemaps.Map2D.{Item, Layer, Map2D, default_item}
use libgamemaps.Grid.{grid_items}
use libgamemaps.Grid.View.{tile_at}
use libgamemaps.Format.{keep_all}
use libgamemaps.Format.CComic.{open_map, write_map}
use libgamemaps.Format.CComic.Map.{level, level_bytes}
use libgamemaps.Format.CComic.RoundTrip.{write_map-open_map_ccomic, open_map-write_map_ccomic}

abbrev codes : List ℕ
codes = 1 ∷ 2 ∷ 3 ∷ 4 ∷ 5 ∷ 87 ∷ []

abbrev layer_of : List Item → Layer
layer_of items = record {
  title = "Background";
  caps = 0;
  width = 0;
  height = 0;
  tile_width = 0;
  tile_height = 0;
  items = items;
  valid_items = [];
}

abbrev small_map : Map2D
small_map = record (level 3 2 []) { layers = layer_of (default_item 2 1 5 ∷ []) ∷ [] }

write_map-open_map_ccomic_example :
    (m : Map2D) × (o : Sink) × (open_map memory (file (level_bytes 3 2 codes)) ≡ ok m)
    × (write_map memory (some m) empty ≡ ok o)
    × (o.written ≡ level_bytes 3 2 codes)
write_map-open_map_ccomic_example =
    write_map-open_map_ccomic memory (file (level_bytes 3 2 codes)) empty 3 2 codes (omega arith)
      (omega arith) (omega arith) (omega arith) refl refl (omega arith)
      (record { nothing_written = refl; at_start = refl })

open_map-write_map_ccomic_example :
    (o : Sink) × (write_map memory (some small_map) empty ≡ ok o)
    × ((input : Source)
        → input.contents ≡ o.written
        → (codes : List ℕ) × (open_map memory input ≡ ok (level 3 2 codes))
          × ((x y : ℕ)
              → x < 3
              → y < 2
              → tile_at 256 0 (grid_items keep_all 3 0 codes) x y
                ≡ tile_at 256 0 (default_item 2 1 5 ∷ []) x y))
open_map-write_map_ccomic_example =
    open_map-write_map_ccomic memory small_map (layer_of (default_item 2 1 5 ∷ [])) empty
      (record { one_layer = refl; width_fits = omega arith; height_fits = omega arith })
      (omega arith) (omega arith) (omega arith) (record { nothing_written = refl; at_start = refl })

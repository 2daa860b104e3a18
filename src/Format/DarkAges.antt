-- ===== src/Format/DarkAges.antt =====
-- src/fmt-map-darkages.cpp: Dark Ages levels, a grid of 128 x 9 bytes.
pub mod Tiles
pub mod Map
pub mod RoundTrip
mod Tests
use libgamemaps.Prelude.{
  ℕ, ◌+◌, ◌*◌, Bool, true, not, ◌&&◌, Option, none, List, [], ◌∷◌, length, replicate, ◌==◌,
  if◌then◌else◌,
}
use libgamemaps.Result.{Result, ok, throw, check, not_implemented, wrong_layer_count, ◌>>=◌, ◌>>◌}
use libgamemaps.Stream.{Streams}
use libgamemaps.Map2D.{Item, Layer, Map2D, Certainty, definitely_no, possibly_yes}
use libgamemaps.Map2D.MapCaps
use libgamemaps.Map2D.LayerCaps
use libgamemaps.Map2D.Generic.{new_map2d, get_layer_count, get_layer, cast_map2d}
use libgamemaps.Grid.{grid_items, paint}
use libgamemaps.Format.{MapTypeInfo, valid_items_from, keep_all}

abbrev pub map_width : ℕ
map_width = 128

abbrev pub map_height : ℕ
map_height = 9

abbrev pub default_bgtile : ℕ
default_bgtile = 0x00

abbrev pub max_valid_tilecode : ℕ
max_valid_tilecode = 255

abbrev pub info : MapTypeInfo
info = record {
  map_code = "map-darkages";
  friendly_name = "Dark Ages level";
  file_extensions = "dal" ∷ [];
  game_list = "Dark Ages" ∷ [];
}

-- Every code from 0 to 255.
unfoldable pub valid_items : List Item
valid_items = valid_items_from 0 (max_valid_tilecode + 1)

-- Layer_DarkAgesBackground
unfoldable pub background_layer : List Item → Layer
background_layer items = record {
  title = "Background";
  caps = LayerCaps.no_caps;
  width = 0;
  height = 0;
  tile_width = 0;
  tile_height = 0;
  items = items;
  valid_items = valid_items;
}

module _ (lib : Streams) where
  open lib use {Input, Output, size, seek_get, read, write, flush}

  unfoldable pub is_instance : Input → Result Certainty
  is_instance input = if not (size input == 1152) then ok definitely_no else ok possibly_yes

  unfoldable pub create : Result Map2D
  create = throw not_implemented

  unfoldable pub open_map : Input → Result Map2D
  open_map input = do
    input' ← seek_get 0 input
    (bg, _) ← read (map_width * map_height) input'
    let tiles = grid_items keep_all map_width 0 bg
    new_map2d [] [] MapCaps.has_viewport 240 144 map_width map_height 16 16
        (background_layer tiles ∷ []) none

  unfoldable pub write_map : Option Map2D → Output → Result Output
  write_map map output = do
    m ← cast_map2d map
    check (get_layer_count m == 1) wrong_layer_count
    layer ← get_layer m 0
    bg ←
        paint 256 map_width map_height layer.items
          (replicate (map_width * map_height) default_bgtile)
    output' ← write bg output
    flush output'

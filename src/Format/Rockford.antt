-- ===== src/Format/Rockford.antt =====
-- src/fmt-map-rockford.cpp: Rockford levels, a grid of 40 x 22 bytes.
pub mod Map
pub mod RoundTrip
pub mod Instance
mod Tests
use libgamemaps.Prelude.{
  ℕ, ◌+◌, ◌*◌, Bool, true, not, ◌&&◌, Option, none, List, [], ◌∷◌, length, replicate, ◌==◌,
  if◌then◌else◌,
}
use libgamemaps.Result.{
  Result, ok, throw, check, not_implemented, wrong_layer_count, wrong_layer_size, ◌>>=◌, ◌>>◌,
}
use libgamemaps.Stream.{Streams}
use libgamemaps.Map2D.{
  Item, Layer, Map2D, ImageType, Certainty, definitely_no, definitely_yes, background_tileset1,
}
use libgamemaps.Map2D.MapCaps
use libgamemaps.Map2D.LayerCaps
use libgamemaps.Map2D.Generic.{new_map2d, get_map_size, get_layer_count, get_layer, cast_map2d}
use libgamemaps.Grid.{grid_items, paint}
use libgamemaps.Graphics.{Graphics, TilesetCollection, image_at}
use libgamemaps.Format.{MapTypeInfo, valid_items_from, any_above, keep_all}

abbrev pub map_width : ℕ
map_width = 40

abbrev pub map_height : ℕ
map_height = 22

abbrev pub default_bgtile : ℕ
default_bgtile = 0x00

-- 10 * 20, the number of tiles in the tileset
abbrev pub max_valid_tilecode : ℕ
max_valid_tilecode = 200

abbrev pub info : MapTypeInfo
info = record {
  map_code = "map-rockford";
  friendly_name = "Rockford level";
  file_extensions = "bin" ∷ [];
  game_list = "Rockford" ∷ [];
}

-- The table `validItems` of `open`.
abbrev pub valid_codes : List ℕ
valid_codes =
    0x00 ∷ 0x01 ∷ 0x02 ∷ 0x03 ∷ 0x04 ∷ 0x05 ∷ 0x06 ∷ 0x07 ∷ 0x08 ∷ 0x09 ∷ 0x0A ∷ 0x0B ∷ 0x0C ∷ 0x10
    ∷ 0x28 ∷ 0x2C ∷ 0x2D ∷ 0x2E ∷ 0x30 ∷ 0x34 ∷ 0x35 ∷ 0x36 ∷ 0x37 ∷ 0x38 ∷ 0x53 ∷ 0x70 ∷ 0x74
    ∷ 0x7C ∷ 0x80 ∷ 0x82 ∷ 0x84 ∷ 0x88 ∷ 0xC4 ∷ []

-- The loop runs over the table's indices and gives each item its index for a code.
pub valid_items : List Item
valid_items = valid_items_from 0 (length valid_codes)

-- Layer_RockfordBackground
unfoldable pub background_layer : List Item → Layer
background_layer items = record {
  title = "Background";
  caps = LayerCaps.no_caps;
  width = 0;
  height = 0;
  tile_width = 0;
  tile_height = 0;
  items = items;
  valid_items = valid_items;
}

-- Layer_RockfordBackground::imageFromCode(), with its special case for one image.
unfoldable pub image_from_code :
    (g : Graphics) → Item → TilesetCollection g → Result (ImageType × Option g.Image)
image_from_code g item tilesets =
    let index = if item.code == 3 then item.code + 1 else item.code in
    image_at g background_tileset1 index tilesets

module _ (lib : Streams) where
  open lib use {Input, Output, size, seek_get, read, try_read, write, flush}

  unfoldable pub is_instance : Input → Result Certainty
  is_instance input = if not (size input == map_width * map_height) then ok definitely_no else do
    input' ← seek_get 0 input
    (bg, _) ← try_read (map_width * map_height) input'
    if not (length bg == map_width * map_height)
        then ok definitely_no
        else if any_above max_valid_tilecode bg
        then ok definitely_no
        else ok definitely_yes

  unfoldable pub create : Result Map2D
  create = throw not_implemented

  unfoldable pub open_map : Input → Result Map2D
  open_map input = do
    input' ← seek_get 0 input
    (bg, _) ← read (map_width * map_height) input'
    let tiles = grid_items keep_all map_width 0 bg
    new_map2d [] [] MapCaps.has_viewport 320 176 map_width map_height 16 16
        (background_layer tiles ∷ []) none

  unfoldable pub write_map : Option Map2D → Output → Result Output
  write_map map output = do
    m ← cast_map2d map
    check (get_layer_count m == 1) wrong_layer_count
    let (width, height) = get_map_size m
    check (width == map_width && height == map_height) wrong_layer_size
    layer ← get_layer m 0
    bg ← paint 256 width height layer.items (replicate (map_width * map_height) default_bgtile)
    output' ← write bg output
    flush output'

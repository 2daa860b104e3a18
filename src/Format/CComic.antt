-- ===== src/Format/CComic.antt =====
-- src/fmt-map-ccomic.cpp: Captain Comic levels, two 16-bit dimensions and a grid of bytes.
pub mod Map
pub mod RoundTrip
pub mod Instance
mod Tests
use libgamemaps.Prelude.{
  ℕ, ◌+◌, ◌*◌, ◌%◌, ◌^◌, Bool, true, not, ◌&&◌, Option, none, List, [], ◌∷◌, length, replicate, ltb,
  ◌==◌, if◌then◌else◌,
}
use libgamemaps.Result.{Result, ok, throw, check, not_implemented, wrong_layer_count, ◌>>=◌, ◌>>◌}
use libgamemaps.Stream.{Streams}
use libgamemaps.Map2D.{
  Item, Layer, Map2D, ImageType, Certainty, definitely_no, definitely_yes, background_tileset1,
}
use libgamemaps.Map2D.MapCaps
use libgamemaps.Map2D.LayerCaps
use libgamemaps.Map2D.Generic.{new_map2d, get_map_size, get_layer_count, get_layer, cast_map2d}
use libgamemaps.Grid.{grid_items, paint}
use libgamemaps.Graphics.{Graphics, TilesetCollection, image_at}
use libgamemaps.Format.{MapTypeInfo, valid_items_from, any_above, keep_all}

abbrev pub default_bgtile : ℕ
default_bgtile = 0x00

abbrev pub max_valid_tilecode : ℕ
max_valid_tilecode = 87

abbrev pub info : MapTypeInfo
info = record {
  map_code = "map-ccomic";
  friendly_name = "Captain Comic level";
  file_extensions = "pt" ∷ [];
  game_list = "Captain Comic" ∷ [];
}

-- Every code from 0 to 87.
unfoldable pub valid_items : List Item
valid_items = valid_items_from 0 (max_valid_tilecode + 1)

-- Layer_CComicBackground
unfoldable pub background_layer : List Item → Layer
background_layer items = record {
  title = "Background";
  caps = LayerCaps.no_caps;
  width = 0;
  height = 0;
  tile_width = 0;
  tile_height = 0;
  items = items;
  valid_items = valid_items;
}

-- Layer_CComicBackground::imageFromCode()
unfoldable pub image_from_code :
    (g : Graphics) → Item → TilesetCollection g → Result (ImageType × Option g.Image)
image_from_code g item tilesets = image_at g background_tileset1 item.code tilesets

-- `width * height` of unsigned ints
abbrev pub map_len : ℕ → ℕ → ℕ
map_len width height = width * height % 2 ^ 32

module _ (lib : Streams) where
  open lib use {
    Input, Output, size, seek_get, read, try_read, read_u16le, write, write_u16le, flush,
  }

  unfoldable pub is_instance : Input → Result Certainty
  is_instance input = if ltb (size input) 4 then ok definitely_no else do
    input' ← seek_get 0 input
    (width, input'') ← read_u16le input'
    (height, input''') ← read_u16le input''
    let len = map_len width height
    if not (size input == (len + 4) % 2 ^ 32) then ok definitely_no else do
      (bg, _) ← try_read len input'''
      if not (length bg == len)
          then ok definitely_no
          else if any_above max_valid_tilecode bg
          then ok definitely_no
          else ok definitely_yes

  unfoldable pub create : Result Map2D
  create = throw not_implemented

  unfoldable pub open_map : Input → Result Map2D
  open_map input = do
    input' ← seek_get 0 input
    (width, input'') ← read_u16le input'
    (height, input''') ← read_u16le input''
    (bg, _) ← read (map_len width height) input'''
    let tiles = grid_items keep_all width 0 bg
    new_map2d [] [] MapCaps.has_viewport 193 160 width height 16 16 (background_layer tiles ∷ [])
        none

  unfoldable pub write_map : Option Map2D → Output → Result Output
  write_map map output = do
    m ← cast_map2d map
    check (get_layer_count m == 1) wrong_layer_count
    let (width, height) = get_map_size m
    layer ← get_layer m 0
    output' ← write_u16le width output
    output'' ← write_u16le height output'
    bg ← paint 256 width height layer.items (replicate (map_len width height) default_bgtile)
    output''' ← write bg output''
    flush output'''

-- ===== src/Format/Duke1.antt =====
-- src/fmt-map-duke1.cpp: Duke Nukem 1 levels, a grid of 128 x 90 words.
pub mod Map
pub mod RoundTrip
pub mod Instance
mod Tests
use libgamemaps.Prelude.{
  ℕ, ◌+◌, ◌*◌, ◌/◌, ◌%◌, ◌^◌, not, Option, none, some, List, [], ◌∷◌, length, replicate, ◌==◌,
  if◌then◌else◌,
}
use libgamemaps.Result.{Result, ok, throw, check, not_implemented, wrong_layer_count, ◌>>=◌, ◌>>◌}
use libgamemaps.Stream.{Streams}
use libgamemaps.Map2D.{
  Item, Layer, Map2D, ImageType, Certainty, definitely_no, definitely_yes, background_tileset1,
}
use libgamemaps.Map2D.MapCaps
use libgamemaps.Map2D.LayerCaps
use libgamemaps.Map2D.Generic.{new_map2d, get_layer_count, get_layer, cast_map2d}
use libgamemaps.Grid.{paint}
use libgamemaps.Grid.Words.{read_cells, reads_above, write_words}
use libgamemaps.Graphics.{Graphics, TilesetCollection, image_at}
use libgamemaps.Format.{MapTypeInfo, keep_other_than}

abbrev pub map_width : ℕ
map_width = 128

abbrev pub map_height : ℕ
map_height = 90

abbrev pub layer_len : ℕ
layer_len = map_width * map_height

abbrev pub filesize : ℕ
filesize = layer_len * 2

abbrev pub default_bgtile : ℕ
default_bgtile = 0x0000

abbrev pub max_valid_tilecode : ℕ
max_valid_tilecode = 0xF000

abbrev pub info : MapTypeInfo
info = record {
  map_code = "map-duke1";
  friendly_name = "Duke Nukem 1 level";
  file_extensions = "dn1" ∷ "dn2" ∷ "dn3" ∷ [];
  game_list = "Duke Nukem 1" ∷ [];
}

-- Layer_Duke1Background
unfoldable pub background_layer : List Item → Layer
background_layer items = record {
  title = "Background";
  caps = LayerCaps.no_caps;
  width = 0;
  height = 0;
  tile_width = 0;
  tile_height = 0;
  items = items;
  valid_items = [];
}

-- Layer_Duke1Background::imageFromCode(): 48 images to a tileset, one for each 32 codes.
unfoldable pub image_from_code :
    (g : Graphics) → Item → TilesetCollection g → Result (ImageType × Option g.Image)
image_from_code g item tilesets =
    let index = item.code / 32 in
    image_at g (background_tileset1 + index / 48) (index % 48) tilesets

module _ (lib : Streams) where
  open lib use {Input, Output, size, seek_get, flush}

  unfoldable pub is_instance : Input → Result Certainty
  is_instance input = if not (size input == filesize) then ok definitely_no else do
    input' ← seek_get 0 input
    above ← reads_above lib max_valid_tilecode layer_len input'
    if above then ok definitely_no else ok definitely_yes

  unfoldable pub create : Result Map2D
  create = throw not_implemented

  unfoldable pub open_map : Input → Result Map2D
  open_map input = do
    input' ← seek_get 0 input
    (tiles, _) ← read_cells lib (keep_other_than default_bgtile) map_width layer_len 0 input'
    new_map2d [] [] MapCaps.has_viewport 208 160 map_width map_height 16 16
        (background_layer tiles ∷ []) none

  unfoldable pub write_map : Option Map2D → Output → Result Output
  write_map map output = do
    m ← cast_map2d map
    check (get_layer_count m == 1) wrong_layer_count
    layer ← get_layer m 0
    bg ← paint (2 ^ 16) map_width map_height layer.items (replicate layer_len default_bgtile)
    output' ← write_words lib bg output
    flush output'

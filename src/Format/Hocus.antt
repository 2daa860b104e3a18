-- ===== src/Format/Hocus.antt =====
-- src/fmt-map-hocus.cpp: Hocus Pocus levels, two grids of 240 x 60 bytes in two files.
pub mod Cells
pub mod Safety
pub mod RoundTrip
mod Tests
use libgamemaps.Prelude.{
  ℕ, ◌+◌, ◌*◌, Bool, true, not, Option, none, some, List, [], ◌∷◌, length, replicate, ◌==◌,
  if◌then◌else◌,
}
use libgamemaps.Result.{
  Result, ok, throw, assertion_failed, check, assert, not_implemented, wrong_layer_count, ◌>>=◌,
  ◌>>◌,
}
use Prim.Native.String.{String}
use libgamemaps.Stream.{Streams}
use libgamemaps.Map2D.{
  Item, Layer, Map2D, ImageType, Certainty, definitely_no, possibly_yes, background_tileset1,
}
use libgamemaps.Map2D.MapCaps
use libgamemaps.Map2D.LayerCaps
use libgamemaps.Map2D.Generic.{new_map2d, get_map_size, get_layer_count, get_layer, cast_map2d}
use libgamemaps.Graphics.{Graphics, TilesetCollection, image_at}
use libgamemaps.Format.{MapTypeInfo}
use Cells.{map_width, map_height, default_tile_bg, default_tile_fg}
use libgamemaps.Grid.Rows.{read_rows}
use libgamemaps.Grid.Asserting.{paint_asserting}

abbrev pub map_size : ℕ
map_size = map_width * map_height

abbrev pub info : MapTypeInfo
info = record {
  map_code = "map-hocus";
  friendly_name = "Hocus Pocus level";
  file_extensions = "" ∷ [];
  game_list = "Hocus Pocus" ∷ [];
}

-- Layer_HocusBackground, which serves for both layers
unfoldable pub background_layer : String → List Item → Layer
background_layer name items = record {
  title = name;
  caps = LayerCaps.no_caps;
  width = 0;
  height = 0;
  tile_width = 0;
  tile_height = 0;
  items = items;
  valid_items = [];
}

-- Layer_HocusBackground::imageFromCode()
unfoldable pub image_from_code :
    (g : Graphics) → Item → TilesetCollection g → Result (ImageType × Option g.Image)
image_from_code g item tilesets = image_at g background_tileset1 item.code tilesets

-- `assert(layerFile)`
unfoldable pub supplied_file : {A : Type 0} → Option A → Result A
supplied_file none = assertion_failed
supplied_file (some f) = ok f

module _ (lib : Streams) where
  open lib use {Input, Output, size, tell, seek_get, seek_put, write, flush}

  unfoldable pub is_instance : Input → Result Certainty
  is_instance input = if not (size input == 14400) then ok definitely_no else ok possibly_yes

  unfoldable pub create : Result Map2D
  create = throw not_implemented

  -- `layer1` is suppData[SuppItem::Layer1]. It is read from where its pointer stands.
  unfoldable pub open_map : Input → Option Input → Result Map2D
  open_map input layer1 = do
    input' ← seek_get 0 input
    (bgtiles, _) ← read_rows lib default_tile_bg map_width map_height 0 input'
    layer_file ← supplied_file layer1
    (fgtiles, _) ← read_rows lib default_tile_bg map_width map_height 0 layer_file
    new_map2d [] [] MapCaps.has_viewport 320 160 map_width map_height 16 16
        (background_layer "Background" bgtiles ∷ background_layer "Foreground" fgtiles ∷ []) none

  unfoldable pub write_map : Option Map2D → Output → Option Output → Result (Output × Output)
  write_map map output layer1 = do
    m ← cast_map2d map
    check (get_layer_count m == 2) wrong_layer_count
    let (width, height) = get_map_size m
    bg_layer ← get_layer m 0
    bg ← paint_asserting 256 width height bg_layer.items (replicate map_size default_tile_bg)
    output' ← write bg output
    output'' ← flush output'
    assert (tell output'' == 14400)
    layer_file ← supplied_file layer1
    fg_layer ← get_layer m 1
    fg ← paint_asserting 256 width height fg_layer.items (replicate map_size default_tile_fg)
    layer_file' ← seek_put 0 layer_file
    layer_file'' ← write fg layer_file'
    layer_file''' ← flush layer_file''
    assert (tell layer_file''' == 14400)
    ok (output'', layer_file''')

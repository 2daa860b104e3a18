-- ===== src/Format/DDave.antt =====
-- src/fmt-map-ddave.cpp: Dangerous Dave levels, a path of at most 128 steps and a grid of
-- 100 x 10 bytes.
pub mod Path
pub mod Encoding
pub mod Storing
pub mod Map
pub mod RoundTrip
pub mod Instance
mod Tests
use libgamemaps.Prelude.{
  ℕ, ◌+◌, ◌*◌, Bool, true, false, not, ◌&&◌, Option, none, some, List, [], ◌∷◌, length, replicate,
  get_elem?, ◌==◌, if◌then◌else◌,
}
use libgamemaps.Result.{
  Result, ok, throw, undefined, check, not_implemented, wrong_layer_count, wrong_path_count, ◌>>=◌,
  ◌>>◌,
}
use libgamemaps.Stream.{Streams}
use libgamemaps.Map2D.{
  Item, Layer, Path2D, Map2D, ImageType, Certainty, definitely_no, definitely_yes,
  background_tileset1,
}
use libgamemaps.Map2D.MapCaps
use libgamemaps.Map2D.LayerCaps
use libgamemaps.Map2D.Generic.{new_map2d, get_layer_count, get_layer, cast_map2d}
use libgamemaps.Grid.{grid_items, paint}
use libgamemaps.Graphics.{Graphics, TilesetCollection, image_at}
use libgamemaps.Format.{MapTypeInfo, valid_items_from, any_above, keep_other_than}
use Path.{layer_len_path, path_points, write_path}

abbrev pub map_width : ℕ
map_width = 100

abbrev pub map_height : ℕ
map_height = 10

abbrev pub tile_width : ℕ
tile_width = 16

abbrev pub tile_height : ℕ
tile_height = 16

-- DD_LAYER_OFF_BG
abbrev pub layer_off_bg : ℕ
layer_off_bg = 0 + layer_len_path

abbrev pub layer_len_bg : ℕ
layer_len_bg = map_width * map_height

abbrev pub pad_len : ℕ
pad_len = 24

abbrev pub filesize : ℕ
filesize = layer_len_path + layer_len_bg + pad_len

abbrev pub default_bgtile : ℕ
default_bgtile = 0x00

abbrev pub max_valid_tilecode : ℕ
max_valid_tilecode = 52

abbrev pub info : MapTypeInfo
info = record {
  map_code = "map-ddave";
  friendly_name = "Dangerous Dave level";
  file_extensions = "dav" ∷ [];
  game_list = "Dangerous Dave" ∷ [];
}

-- The loop runs over the codes 0 to 52 and leaves out the default code 0.
unfoldable pub valid_items : List Item
valid_items = valid_items_from 1 max_valid_tilecode

-- Layer_DDaveBackground
unfoldable pub background_layer : List Item → Layer
background_layer items = record {
  title = "Background";
  caps = LayerCaps.no_caps;
  width = 0;
  height = 0;
  tile_width = 0;
  tile_height = 0;
  items = items;
  valid_items = valid_items;
}

-- Layer_DDaveBackground::imageFromCode()
unfoldable pub image_from_code :
    (g : Graphics) → Item → TilesetCollection g → Result (ImageType × Option g.Image)
image_from_code g item tilesets = image_at g background_tileset1 item.code tilesets

-- The path of a level: its points from the file, the start points of level 3.
unfoldable pub level_path : List ℕ → Path2D
level_path pathdata = record {
  start = (44 * tile_width, 4 * tile_height) ∷ (59 * tile_width, 4 * tile_height) ∷ [];
  fixed = true;
  points = path_points 0 0 pathdata;
  max_points = 128;
  force_closed = false;
}

-- `map2d->getPaths()`: the access through a null pointer is undefined behaviour.
unfoldable pub get_paths : Map2D → Result (List Path2D)
get_paths m = elim m.paths [ none ↦ undefined | some paths ↦ ok paths ]

-- `paths->size() != 1` and `paths->at(0)`
unfoldable pub only_path : List Path2D → Result Path2D
only_path (path ∷ []) = ok path
only_path _ = throw wrong_path_count

module _ (lib : Streams) where
  open lib use {Input, Output, size, seek_get, read, try_read, write, flush}

  unfoldable pub is_instance : Input → Result Certainty
  is_instance input = if not (size input == filesize) then ok definitely_no else do
    input' ← seek_get layer_off_bg input
    (bg, _) ← try_read layer_len_bg input'
    if not (length bg == layer_len_bg)
        then ok definitely_no
        else if any_above max_valid_tilecode bg
        then ok definitely_no
        else ok definitely_yes

  unfoldable pub create : Result Map2D
  create = throw not_implemented

  unfoldable pub open_map : Input → Result Map2D
  open_map input = do
    input' ← seek_get 0 input
    (pathdata, input'') ← read layer_len_path input'
    (bg, _) ← read layer_len_bg input''
    let tiles = grid_items (keep_other_than default_bgtile) map_width 0 bg
    new_map2d [] [] (MapCaps.has_viewport + MapCaps.has_paths + MapCaps.fixed_path_count)
        (20 * tile_width) (10 * tile_height) map_width map_height tile_width tile_height
        (background_layer tiles ∷ []) (some (level_path pathdata ∷ []))

  unfoldable pub write_map : Option Map2D → Output → Result Output
  write_map map output = do
    m ← cast_map2d map
    check (get_layer_count m == 1) wrong_layer_count
    paths ← get_paths m
    first_path ← only_path paths
    path ← write_path first_path.points
    output' ← write path output
    layer ← get_layer m 0
    bg ← paint 256 map_width map_height layer.items (replicate layer_len_bg default_bgtile)
    output'' ← write bg output'
    output''' ← write (replicate pad_len 0) output''
    flush output'''

-- ===== src/Format/Wacky.antt =====
-- src/fmt-map-wacky.cpp: Wacky Wheels levels, a grid of 64 x 64 bytes and, in a second file, the
-- path of the computer players.
pub mod Path
mod Tests
use libgamemaps.Prelude.{
  ℕ, ◌+◌, ◌*◌, ◌%◌, ◌/◌, Bool, not, Option, none, some, List, [], ◌∷◌, length, replicate, ◌==◌,
  if◌then◌else◌,
}
use libgamemaps.Result.{
  Result, ok, throw, undefined, assertion_failed, check, not_implemented, wrong_layer_count,
  no_start_point, wrong_path_count, missing_supp, ◌>>=◌, ◌>>◌,
}
use libgamemaps.Stream.{Streams}
use libgamemaps.Map2D.{
  Item, Layer, Path2D, Point, Map2D, ImageType, Certainty, definitely_no, definitely_yes,
  background_tileset1,
}
use libgamemaps.Map2D.MapCaps
use libgamemaps.Map2D.LayerCaps
use libgamemaps.Map2D.Generic.{new_map2d, get_layer_count, get_layer, cast_map2d}
use libgamemaps.Grid.{grid_items, paint}
use libgamemaps.Graphics.{Graphics, TilesetCollection, image_at}
use libgamemaps.Format.{MapTypeInfo, valid_items_from, any_above, keep_all}
use Path.{read_path, write_path}

abbrev pub map_width : ℕ
map_width = 64

abbrev pub map_height : ℕ
map_height = 64

abbrev pub tile_width : ℕ
tile_width = 32

abbrev pub tile_height : ℕ
tile_height = 32

abbrev pub layer_len_bg : ℕ
layer_len_bg = map_width * map_height

abbrev pub default_bgtile : ℕ
default_bgtile = 0x00

abbrev pub max_valid_tilecode : ℕ
max_valid_tilecode = 0x6C

abbrev pub tiles_per_tileset : ℕ
tiles_per_tileset = 54

abbrev pub info : MapTypeInfo
info = record {
  map_code = "map-wacky";
  friendly_name = "Wacky Wheels level";
  file_extensions = "m" ∷ [];
  game_list = "Wacky Wheels" ∷ [];
}

-- The loop runs over the codes 0 to 0x6C and leaves out the default code 0.
unfoldable pub valid_items : List Item
valid_items = valid_items_from 1 max_valid_tilecode

-- Layer_WackyBackground
unfoldable pub background_layer : List Item → Layer
background_layer items = record {
  title = "Surface";
  caps = LayerCaps.no_caps;
  width = 0;
  height = 0;
  tile_width = 0;
  tile_height = 0;
  items = items;
  valid_items = valid_items;
}

-- Layer_WackyBackground::imageFromCode(): each tileset has 54 of the tiles.
unfoldable pub image_from_code :
    (g : Graphics) → Item → TilesetCollection g → Result (ImageType × Option g.Image)
image_from_code g item tilesets =
    image_at g (background_tileset1 + item.code / tiles_per_tileset) (item.code % tiles_per_tileset)
      tilesets

-- `assert(rd)`
unfoldable pub supplied_path : {A : Type 0} → Option A → Result A
supplied_path none = assertion_failed
supplied_path (some f) = ok f

-- `paths->size() != 1` and `paths->at(0)`, on the vector behind a pointer that may be null.
unfoldable pub only_path : Option (List Path2D) → Result Path2D
only_path none = undefined
only_path (some (path ∷ [])) = ok path
only_path (some _) = throw wrong_path_count

-- `path->start.size() != 1` and `path->start[0]`
unfoldable pub only_start : List Point → Result Point
only_start (point ∷ []) = ok point
only_start _ = throw no_start_point

module _ (lib : Streams) where
  open lib use {Input, Output, size, seek_get, read, write}

  unfoldable pub is_instance : Input → Result Certainty
  is_instance input = if not (size input == layer_len_bg) then ok definitely_no else do
    input' ← seek_get 0 input
    (bg, _) ← read layer_len_bg input'
    if any_above max_valid_tilecode bg then ok definitely_no else ok definitely_yes

  unfoldable pub create : Result Map2D
  create = throw not_implemented

  -- `layer1` is suppData[SuppItem::Layer1].
  unfoldable pub open_map : Input → Option Input → Result Map2D
  open_map input layer1 = do
    input' ← seek_get 0 input
    (bg, _) ← read layer_len_bg input'
    let tiles = grid_items keep_all map_width 0 bg
    rd ← supplied_path layer1
    path ← read_path lib rd
    new_map2d [] [] (MapCaps.has_paths + MapCaps.fixed_path_count) 0 0 map_width map_height
        tile_width tile_height (background_layer tiles ∷ []) (some (path ∷ []))

  -- `heading` and `root` are the two floating point expressions of `write_path`.
  unfoldable pub write_map :
      (ℕ → ℕ → ℕ) → (ℕ → ℕ) → Option Map2D → Output → Option Output → Result (Output × Output)
  write_map heading root map output layer1 = do
    m ← cast_map2d map
    check (get_layer_count m == 1) wrong_layer_count
    path ← only_path m.paths
    start ← only_start path.start
    rd ← elim layer1 [ none ↦ throw missing_supp | some f ↦ ok f ]
    layer ← get_layer m 0
    bg ← paint 256 map_width map_height layer.items (replicate layer_len_bg default_bgtile)
    output' ← write bg output
    rd' ← write_path lib heading root start path.points rd
    ok (output', rd')

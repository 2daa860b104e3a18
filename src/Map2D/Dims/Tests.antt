-- ===== src/Map2D/Dims/Tests.antt =====
-- Tests of the size of a layer, and instances of its theorems.
use libgamemaps.Prelude.{◌*◌, ◌≡◌, refl, none, [], ◌∷◌, arith}
use libgamemaps.Result.{ok}
use libgamemaps.Map2D.{Layer, Map2D}
use libgamemaps.Map2D.LayerCaps
use libgamemaps.Map2D.LayerState
use libgamemaps.Map2D.Generic
use libgamemaps.Map2D.Dims.{LayerDims, get_layer_dims}
use libgamemaps.Map2D.Dims.Fit.{FitsExactly, get_layer_dims-FitsExactly}

-- A layer of 8 x 12 tiles on a map of 10 x 5 tiles of 16 x 16 pixels
abbrev small_tiles : Layer
small_tiles = record {
  title = "Small tiles";
  caps = LayerCaps.has_own_tile_size;
  width = 0;
  height = 0;
  tile_width = 8;
  tile_height = 12;
  items = [];
  valid_items = [];
}

abbrev host_map : Map2D
host_map = record {
  attributes = [];
  graphics_filenames = [];
  caps = 0;
  viewport_x = 0;
  viewport_y = 0;
  width = 10;
  height = 5;
  tile_width = 16;
  tile_height = 16;
  layers = small_tiles ∷ [];
  paths = none;
}

small_tiles_dims :
    get_layer_dims host_map small_tiles
    ≡ ok (record { layer_width = 20; layer_height = 6; tile_width = 8; tile_height = 12 })
unfolding get_layer_dims LayerState.get_tile_size LayerState.get_layer_size Generic.get_tile_size
    Generic.get_map_size
small_tiles_dims = refl

get_layer_dims-FitsExactly_example :
    (d : LayerDims) × (get_layer_dims host_map small_tiles ≡ ok d)
    × (d.tile_width ≡ 8)
    × (d.tile_height ≡ 12)
    × FitsExactly d.layer_width 8 (10 * 16)
    × FitsExactly d.layer_height 12 (5 * 16)
get_layer_dims-FitsExactly_example =
    get_layer_dims-FitsExactly host_map small_tiles refl refl (omega arith) (omega arith)
      (omega arith) (omega arith)

-- ===== src/Map2D/Dims.antt =====
-- src/util.cpp: the size of a layer in its own tiles.
pub mod Fit
mod Tests
use libgamemaps.Prelude.{ℕ, ◌*◌, ◌/◌, ◌%◌, ◌^◌, not, ◌&&◌, ◌==◌, if◌then◌else◌}
use libgamemaps.Result.{Result, ok, assert, ◌>>=◌, ◌>>◌}
use libgamemaps.Map2D.{Layer, Map2D}
use libgamemaps.Map2D.Caps.{has}
use libgamemaps.Map2D.LayerCaps
use libgamemaps.Map2D.Generic
use libgamemaps.Map2D.LayerState

pub record LayerDims : Type 0 where
  pub layer_width : ℕ
  pub layer_height : ℕ
  pub tile_width : ℕ
  pub tile_height : ℕ

-- `*layerWidth *= globalTileWidth; *layerWidth /= *tileWidth;` on unsigned ints.
abbrev pub convert : ℕ → ℕ → ℕ → ℕ
convert size global_tile tile = size * global_tile % 2 ^ 32 / tile

unfoldable pub get_layer_dims : Map2D → Layer → Result LayerDims
unfolding LayerState.get_tile_size LayerState.get_layer_size Generic.get_tile_size
    Generic.get_map_size
get_layer_dims m l = do
  (tile_width, tile_height) ←
      if has l.caps LayerCaps.has_own_tile_size
      then LayerState.get_tile_size l
      else ok (Generic.get_tile_size m)
  assert (not (tile_width == 0) && not (tile_height == 0))
  (layer_width, layer_height) ←
      if has l.caps LayerCaps.has_own_size
      then LayerState.get_layer_size l
      else let (width, height) = Generic.get_map_size m in
        let (global_tile_width, global_tile_height) = Generic.get_tile_size m in
        if has l.caps LayerCaps.has_own_tile_size
        then ok (
          convert width global_tile_width tile_width,
          convert height global_tile_height tile_height,
        )
        else ok (width, height)
  ok (record {
    layer_width = layer_width;
    layer_height = layer_height;
    tile_width = tile_width;
    tile_height = tile_height;
  })

-- ===== src/Map2D/LayerState.antt =====
-- src/map2d_layer.cpp: the operations of GenericMap2D::Layer.
use libgamemaps.Prelude.{ℕ, Bool, true}
use libgamemaps.Result.{Result, ok, assert, ◌>>◌}
use libgamemaps.Map2D.{Item, Layer}
use libgamemaps.Map2D.Caps.{has}
use libgamemaps.Map2D.LayerCaps

unfoldable pub get_layer_size : Layer → Result (ℕ × ℕ)
get_layer_size l = do assert (has l.caps LayerCaps.has_own_size); ok (l.width, l.height)

unfoldable pub set_layer_size : ℕ → ℕ → Layer → Result Layer
set_layer_size x y l = do
  assert (has l.caps LayerCaps.can_resize)
  ok (record l { width = x; height = y })

unfoldable pub get_tile_size : Layer → Result (ℕ × ℕ)
get_tile_size l = do
  assert (has l.caps LayerCaps.has_own_tile_size)
  ok (l.tile_width, l.tile_height)

unfoldable pub set_tile_size : ℕ → ℕ → Layer → Result Layer
set_tile_size x y l = do
  assert (has l.caps LayerCaps.change_tile_size)
  ok (record l { tile_width = x; tile_height = y })

-- The default: any item is permitted anywhere, without limit (a count of 0).
unfoldable pub tile_permitted_at : Item → ℕ → ℕ → Bool × ℕ
tile_permitted_at item x y = (true, 0)

-- ===== src/Map2D/Generic.antt =====
-- src/map2d-generic.cpp: the operations of GenericMap2D. A call on another kind of map fails at
-- the cast that precedes it in every format's `write`.
use libgamemaps.Prelude.{ℕ, Option, none, some, List, length, get_elem?, ltb}
use libgamemaps.Result.{Result, ok, throw, undefined, wrong_map_type, assert, ◌>>◌}
use libgamemaps.Map2D.{Attribute, GraphicsFilename, Layer, Map2D, Path2D}
use libgamemaps.Map2D.Caps.{has}
use libgamemaps.Map2D.MapCaps

-- The constructor, with its assertions.
unfoldable pub new_map2d :
    List Attribute
    → List (ℕ × GraphicsFilename)
    → ℕ
    → ℕ
    → ℕ
    → ℕ
    → ℕ
    → ℕ
    → ℕ
    → List Layer
    → Option (List Path2D)
    → Result Map2D
new_map2d attributes graphics_filenames caps viewport_x viewport_y width height tile_width
      tile_height layers paths =
    do
      assert (ltb 0 width)
      assert (ltb 0 height)
      assert (ltb 0 tile_width)
      assert (ltb 0 tile_height)
      ok (record {
        attributes = attributes;
        graphics_filenames = graphics_filenames;
        caps = caps;
        viewport_x = viewport_x;
        viewport_y = viewport_y;
        width = width;
        height = height;
        tile_width = tile_width;
        tile_height = tile_height;
        layers = layers;
        paths = paths;
      })

unfoldable pub get_map_size : Map2D → ℕ × ℕ
get_map_size m = (m.width, m.height)

unfoldable pub set_map_size : ℕ → ℕ → Map2D → Result Map2D
set_map_size x y m = do
  assert (has m.caps MapCaps.can_resize)
  ok (record m { width = x; height = y })

unfoldable pub get_tile_size : Map2D → ℕ × ℕ
get_tile_size m = (m.tile_width, m.tile_height)

unfoldable pub set_tile_size : ℕ → ℕ → Map2D → Result Map2D
set_tile_size x y m = do
  assert (has m.caps MapCaps.change_tile_size)
  ok (record m { tile_width = x; tile_height = y })

unfoldable pub get_layer_count : Map2D → ℕ
get_layer_count m = length m.layers

-- `layers[index]` behind the assertion; without it the access would be undefined behaviour.
unfoldable pub get_layer : Map2D → ℕ → Result Layer
unfolding get_layer_count
get_layer m index = do
  assert (ltb index (get_layer_count m))
  elim (get_elem? m.layers index) [ none ↦ undefined | some layer ↦ ok layer ]

-- `boost::dynamic_pointer_cast<Map2D>(map)` and the test of its result: none stands for a map of
-- another class.
unfoldable pub cast_map2d : Option Map2D → Result Map2D
cast_map2d none = throw wrong_map_type
cast_map2d (some m) = ok m

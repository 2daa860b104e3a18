-- ===== src/Format/Nukem2/Aborts.antt =====
-- A Duke Nukem II level that fills all 32750 cells can be made and cannot be written.
use libgamemaps.Prelude.{ℕ, ◌/◌, none, List, ◌∷◌}
use libgamemaps.Map2D.{Attribute, Layer, Map2D}
use libgamemaps.Map2D.MapCaps
use libgamemaps.Format.Nukem2.Attributes.{graphics_files}
use libgamemaps.Format.Nukem2.{num_tiles_bg}

-- The map that the constructor makes.
abbrev full_map : Attribute → Attribute → List Attribute → ℕ → List Layer → Map2D
full_map czone backdrop attributes width layers = record {
  attributes = czone ∷ backdrop ∷ attributes;
  graphics_filenames = graphics_files czone backdrop;
  caps = MapCaps.has_viewport;
  viewport_x = 256;
  viewport_y = 160;
  width = width;
  height = num_tiles_bg / width;
  tile_width = 8;
  tile_height = 8;
  layers = layers;
  paths = none;
}

-- ===== src/Format/Hocus/Cells.antt =====
-- The size of a Hocus Pocus layer, and its default tiles.
use libgamemaps.Prelude.{ℕ}

abbrev pub map_width : ℕ
map_width = 240

abbrev pub map_height : ℕ
map_height = 60

abbrev pub default_tile_bg : ℕ
default_tile_bg = 0xFF

abbrev pub default_tile_fg : ℕ
default_tile_fg = 0xFF

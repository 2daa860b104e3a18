-- ===== src/Map2D/MapCaps.antt =====
-- Map2D::Caps of include/camoto/gamemaps/map2d.hpp.
use libgamemaps.Prelude.{ℕ}

abbrev pub no_caps : ℕ
no_caps = 0x0000

abbrev pub can_resize : ℕ
can_resize = 0x0001

abbrev pub change_tile_size : ℕ
change_tile_size = 0x0002

abbrev pub has_viewport : ℕ
has_viewport = 0x0004

abbrev pub has_paths : ℕ
has_paths = 0x0008

abbrev pub fixed_path_count : ℕ
fixed_path_count = 0x0010

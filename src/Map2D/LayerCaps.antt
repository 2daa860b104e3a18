-- ===== src/Map2D/LayerCaps.antt =====
-- Map2D::Layer::Caps of include/camoto/gamemaps/map2d.hpp.
use libgamemaps.Prelude.{ℕ}

abbrev pub no_caps : ℕ
no_caps = 0x00

abbrev pub has_own_size : ℕ
has_own_size = 0x01

abbrev pub can_resize : ℕ
can_resize = 0x02

abbrev pub has_own_tile_size : ℕ
has_own_tile_size = 0x04

abbrev pub change_tile_size : ℕ
change_tile_size = 0x08

abbrev pub has_palette : ℕ
has_palette = 0x10

abbrev pub use_image_dims : ℕ
use_image_dims = 0x20
